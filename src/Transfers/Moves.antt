-- ===== src/Transfers/Moves.antt =====
-- The DB transaction of persistTransfer, from the locks to the ledger entries.
use mathlib.Core.Path.{subst}
use kufi_e_wallet_with_hyper.Prelude.{
  ℕ, ◌≡◌, refl, sym, ap, String, Bool, true, [], arith, inl, inr, if◌then◌else◌, ◌⊎◌,
}
use kufi_e_wallet_with_hyper.Prelude.Int.{ℤ, pos, ◌-ℤ◌}
use kufi_e_wallet_with_hyper.Store.{
  Store, Result, ok, err, Env, transaction_of_key, insert_transaction,
}
use kufi_e_wallet_with_hyper.Store.Post.{bind_post, option_post, transactional_post}
use kufi_e_wallet_with_hyper.Requests.{TransferOrder}
use kufi_e_wallet_with_hyper.Books.{IsSoundStore, IsFresh}
use kufi_e_wallet_with_hyper.Books.Money.{
  IsSameMoney, Booked, BookedFor, Persists, books_new, Credited-after,
}
use kufi_e_wallet_with_hyper.Transfers.{
  Locked, users_to_lock, lock_wallets, get_locked, locked_or_new, credit_internal, credit_receiver,
  move_funds, lock_and_move, book_transfer, transfer_duplicate, persist_transfer,
}
use kufi_e_wallet_with_hyper.Transfers.Locks.{
  AreLocked, IsSenderLocked, IsInternal, LocksBoth, LocksAlone, lock_wallets-LocksBoth,
  lock_wallets-LocksAlone,
}
use kufi_e_wallet_with_hyper.Transfers.Keeps.{sender_debited, funds_moved}

-- What an order adds to its currency: nothing inside the system, and the amount leaves to a partner.
abbrev added_if : ℕ → Bool → ℤ
added_if amount external = if external then pos 0 -ℤ pos amount else pos 0

abbrev pub added : TransferOrder → ℤ
added o = added_if o.amount o.is_external

move_internal :
    (env : Env) (o : TransferOrder) (locked : Locked) (s t : Store)
    → IsInternal o
    → AreLocked o locked s t
    → Booked o.currency (pos 0) t (move_funds env o locked t)
unfolding move_funds get_locked credit_receiver credit_internal locked_or_new insert_transaction
move_internal env o locked s t i l =
    let from = l.sender in
    let to = l.receiver in
    ground (
      arith,
      i,
      l,
      funds_moved env o t from to i.other_user l.sender_row l.receiver_row l.same.sound,
    )

move_external :
    (env : Env) (o : TransferOrder) (locked : Locked) (s t : Store)
    → o.is_external ≡ true
    → IsSoundStore t
    → IsSenderLocked o locked s t
    → Booked o.currency (pos 0 -ℤ pos o.amount) t (move_funds env o locked t)
unfolding move_funds get_locked credit_receiver insert_transaction
move_external env o locked s t x h l =
    ground (arith, l, sender_debited env o t l.sender l.sender_row h)

Booked-after :
    {A : Type 0} (s t : Store) (currency : String) (amount : ℤ) (p : Result A × Store)
    → IsSameMoney s t
    → Booked currency amount t p
    → Booked currency amount s p
Booked-after s t currency amount (ok a, u) h k = Credited-after s t u currency amount h k
Booked-after s t currency amount (err e, u) h k = tt

module _ (env : Env) (o : TransferOrder) (s : Store) (h : IsSoundStore s) where
  lock_and_move-internal :
      IsInternal o → IsFresh env.wallet_key s → Booked o.currency (pos 0) s (lock_and_move env o s)
  unfolding lock_and_move
  lock_and_move-internal i f =
      bind_post (lock_wallets env o (users_to_lock env o) []) (move_funds env o) s (LocksBoth o s)
        (Booked o.currency (pos 0) s) (lock_wallets-LocksBoth env o s i h f)
        (λ locked t l.
          Booked-after s t o.currency (pos 0) _ l.same (move_internal env o locked s t i l))
        (λ e t l. tt)

  lock_and_move-external :
      o.is_external ≡ true → Booked o.currency (pos 0 -ℤ pos o.amount) s (lock_and_move env o s)
  unfolding lock_and_move
  lock_and_move-external x =
      bind_post (lock_wallets env o (users_to_lock env o) []) (move_funds env o) s (LocksAlone o s)
        (Booked o.currency (pos 0 -ℤ pos o.amount) s) (lock_wallets-LocksAlone env o s x)
        (λ locked t l.
          subst (λ u. Booked o.currency (pos 0 -ℤ pos o.amount) u (move_funds env o locked t))
            l.same (move_external env o locked s t x (subst IsSoundStore (sym l.same) h) l))
        (λ e t l. tt)

  -- What validateTransferRequest lets pass: an order to a partner, or between two users.
  lock_and_move-Booked :
      (o.is_external ≡ true) ⊎ IsInternal o
      → IsFresh env.wallet_key s
      → Booked o.currency (added o) s (lock_and_move env o s)
  lock_and_move-Booked (inl x) f =
      subst (λ a. Booked o.currency a s (lock_and_move env o s)) (ap (added_if o.amount) (sym x))
        (lock_and_move-external x)
  lock_and_move-Booked (inr i) f =
      subst (λ a. Booked o.currency a s (lock_and_move env o s))
        (ap (added_if o.amount) (sym i.internal)) (lock_and_move-internal i f)

  book_transfer-BookedFor :
      (o.is_external ≡ true) ⊎ IsInternal o
      → IsFresh env.wallet_key s
      → BookedFor o.idempotency_key o.currency (added o) s (book_transfer env o s)
  unfolding book_transfer transfer_duplicate
  book_transfer-BookedFor i f =
      option_post (transaction_of_key o.idempotency_key s) (lock_and_move env o)
        (λ dup. transfer_duplicate o dup) s (BookedFor o.idempotency_key o.currency (added o) s)
        (λ new. books_new o.idempotency_key o.currency (added o) s _ new (lock_and_move-Booked i f))
        (λ dup known. inl (rw known, refl))

  -- An order that is to a partner or between two different users, on sound books and with a key
  -- for a new wallet that is not in use: between users it adds nothing to any currency, and to a
  -- partner it takes its amount out of its currency, and the books are sound afterwards; if its
  -- idempotency key is known, or it is refused, no table changes.
  pub persist_transfer-Persists :
      (o.is_external ≡ true) ⊎ IsInternal o
      → IsFresh env.wallet_key s
      → Persists o.idempotency_key o.currency (added o) s (persist_transfer env o s)
  unfolding persist_transfer
  persist_transfer-Persists i f =
      transactional_post (book_transfer env o) s
        (BookedFor o.idempotency_key o.currency (added o) s)
        (Persists o.idempotency_key o.currency (added o) s) (book_transfer-BookedFor i f)
        (λ a t m. m) (λ e. refl)
