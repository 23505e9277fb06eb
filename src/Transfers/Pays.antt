-- ===== src/Transfers/Pays.antt =====
-- A transfer between two users that nothing stands against: createTransfer does pay.
use kufi_e_wallet_with_hyper.Prelude.{
  ◌≡◌, ◌∙◌, refl, ap, Bool, String, eq_iff, true, false, none, some, List, [], arith,
}
use kufi_e_wallet_with_hyper.Prelude.Rows.{find_one, save}
use kufi_e_wallet_with_hyper.Books.{IsUnique}
use kufi_e_wallet_with_hyper.Books.Lookup.{
  wallet_id, find_one-passes, find_one-save_self, find_one-save_other, save-IsUnique,
}
use kufi_e_wallet_with_hyper.Prelude.Int.{pos, ◌+ℤ◌, ◌-ℤ◌, ltb_ℤ}
use kufi_e_wallet_with_hyper.Entities.{Wallet, is_active}
use kufi_e_wallet_with_hyper.Store.{
  Store, Result, ok, err, Env, owns, wallet_of, transaction_of_key, insert_transaction,
  transactional,
}
use kufi_e_wallet_with_hyper.Store.Post.{bind_post}
use kufi_e_wallet_with_hyper.Requests.{
  Number, CreateTransferRequest, TransferOrder, validate_create_transfer,
}
use kufi_e_wallet_with_hyper.Outbox.{enqueue_transaction_event}
use kufi_e_wallet_with_hyper.Transfers.{
  Locked, locked_wallet, users_to_lock, lock_wallet, lock_wallets, get_locked, locked_or_new,
  credit_internal, credit_receiver, move_funds, lock_and_move, book_transfer, persist_transfer,
  Persisted, submit_if_external, schedule_anchor, finish_transfer, new_transfer, create_transfer,
  TransferResponse,
}
use kufi_e_wallet_with_hyper.Transfers.Keeps.{not_owner}
use kufi_e_wallet_with_hyper.Transfers.Locks.{IsInternal, str_eq_comm}

-- Both wallets are there, in a table with unique keys and owners, and active, the sender's covers the amount, and the key is new.
pub record IsPayable (o : TransferOrder) (s : Store) (w v : Wallet) : Type 0 where
  pub unique : IsUnique s.wallets
  pub new_key : transaction_of_key o.idempotency_key s ≡ none
  pub sender : wallet_of o.from_user_id o.currency s ≡ some w
  pub receiver : wallet_of o.to_user_id o.currency s ≡ some v
  pub sender_active : is_active w.status ≡ true
  pub receiver_active : is_active v.status ≡ true
  pub covered : ltb_ℤ w.balance (pos o.amount) ≡ false

-- Both wallets are locked, and no table is changed.
abbrev Holds : TransferOrder → Wallet → Wallet → Store → Result Locked × Store → Type 0
Holds o w v s (err e, t) = ⊥
Holds o w v s (ok locked, t) =
    (locked_wallet o.from_user_id locked ≡ some w)
    × (locked_wallet o.to_user_id locked ≡ some v)
    × (t ≡ s)

abbrev pub debited : TransferOrder → Wallet → Wallet
debited o w = record w { balance = w.balance -ℤ pos o.amount }

abbrev pub credited : TransferOrder → Wallet → Wallet
credited o v = record v { balance = v.balance +ℤ pos o.amount }

-- What follows the DB transaction leaves the wallets alone, and answers the balances that it is given.
abbrev Finishes : Persisted → Store → Result TransferResponse × Store → Type 0
Finishes done t (err e, u) = ⊥
Finishes done t (ok r, u) =
    (r.sender_balance ≡ done.sender_balance)
    × (r.receiver_balance ≡ done.receiver_balance)
    × (u.wallets ≡ t.wallets)

finish_transfer-Finishes :
    (env : Env) (done : Persisted) (t : Store)
    → done.transaction.is_external ≡ false
    → Finishes done t (finish_transfer env done t)
unfolding finish_transfer submit_if_external schedule_anchor enqueue_transaction_event
finish_transfer-Finishes env done t h = ground (arith, h)

abbrev after_debit : TransferOrder → Store → Wallet → List Wallet
after_debit o s w = save wallet_id (debited o w) s.wallets

-- The balances after the payment, and the wallets of the table.
abbrev PaysOut : TransferOrder → Store → Wallet → Wallet → Result Persisted × Store → Type 0
PaysOut o s w v (err e, t) = ⊥
PaysOut o s w v (ok p, t) =
    (p.sender_balance ≡ w.balance -ℤ pos o.amount)
    × (p.receiver_balance ≡ v.balance +ℤ pos o.amount)
    × (p.transaction.is_external ≡ false)
    × (t.wallets ≡ save wallet_id (credited o v) (after_debit o s w))

-- The two wallets are in the table with what the payment has made of their balances, and the answer has
-- these balances.
abbrev pub Pays : TransferOrder → Wallet → Wallet → Result TransferResponse × Store → Type 0
Pays o w v (err e, t) = ⊥
Pays o w v (ok r, t) =
    (wallet_of o.from_user_id o.currency t ≡ some (debited o w))
    × (wallet_of o.to_user_id o.currency t ≡ some (credited o v))
    × (r.sender_balance ≡ w.balance -ℤ pos o.amount)
    × (r.receiver_balance ≡ v.balance +ℤ pos o.amount)

module _ (o : TransferOrder) (s : Store) (w v : Wallet) (i : IsInternal o)
    (p : IsPayable o s w v) where
  abbrev sends : Wallet → Bool
  sends = owns o.from_user_id o.currency

  abbrev receives : Wallet → Bool
  receives = owns o.to_user_id o.currency

  sender_sends : sends w ≡ true
  sender_sends = find_one-passes sends s.wallets w p.sender

  receiver_receives : receives v ≡ true
  receiver_receives = find_one-passes receives s.wallets v p.receiver

  sender_receives : receives w ≡ false
  sender_receives = not_owner o.from_user_id o.to_user_id o.currency w i.other_user sender_sends

  receiver_sends : sends v ≡ false
  receiver_sends =
      not_owner o.to_user_id o.from_user_id o.currency v
        (str_eq_comm o.to_user_id o.from_user_id ∙ i.other_user) receiver_receives

  debited-IsUnique : IsUnique (after_debit o s w)
  debited-IsUnique = save-IsUnique sends s.wallets w (w.balance -ℤ pos o.amount) p.sender p.unique

  receiver_still : find_one receives (after_debit o s w) ≡ some v
  unfolding owns
  receiver_still =
      find_one-save_other sends receives s.wallets w (debited o w) p.sender p.unique refl
        sender_receives sender_receives
      ∙ p.receiver

  sender_after :
      find_one sends (save wallet_id (credited o v) (after_debit o s w)) ≡ some (debited o w)
  unfolding owns
  sender_after =
      find_one-save_other receives sends (after_debit o s w) v (credited o v) receiver_still
        debited-IsUnique refl receiver_sends receiver_sends
      ∙ find_one-save_self sends s.wallets w (debited o w) p.sender p.unique refl sender_sends

  receiver_after :
      find_one receives (save wallet_id (credited o v) (after_debit o s w)) ≡ some (credited o v)
  unfolding owns
  receiver_after =
      find_one-save_self receives (after_debit o s w) v (credited o v) receiver_still
        debited-IsUnique refl receiver_receives

module _ (env : Env) (o : TransferOrder) (s : Store) (w v : Wallet) (i : IsInternal o)
    (p : IsPayable o s w v) where
  lock_wallets-Holds : Holds o w v s (lock_wallets env o (users_to_lock env o) [] s)
  unfolding lock_wallets lock_wallet users_to_lock
  lock_wallets-Holds = ground (
    arith,
    i,
    p,
    str_eq_comm o.from_user_id o.to_user_id,
    eq_iff o.from_user_id o.from_user_id,
    eq_iff o.to_user_id o.to_user_id,
  )

  move_funds-PaysOut :
      (locked : Locked)
      → locked_wallet o.from_user_id locked ≡ some w
      → locked_wallet o.to_user_id locked ≡ some v
      → PaysOut o s w v (move_funds env o locked s)
  unfolding move_funds get_locked credit_receiver credit_internal locked_or_new insert_transaction
  move_funds-PaysOut locked f t = ground (arith, i, p, f, t)

  lock_and_move-PaysOut : PaysOut o s w v (lock_and_move env o s)
  unfolding lock_and_move
  lock_and_move-PaysOut =
      bind_post (lock_wallets env o (users_to_lock env o) []) (move_funds env o) s (Holds o w v s)
        (PaysOut o s w v) lock_wallets-Holds
        (λ locked t h. rw h.2 (move_funds-PaysOut locked h.0 h.1)) (λ e t never. never)

  book_transfer-PaysOut : PaysOut o s w v (book_transfer env o s)
  unfolding book_transfer
  book_transfer-PaysOut = ground (arith, p.new_key, lock_and_move-PaysOut)

  persist_transfer-PaysOut : PaysOut o s w v (persist_transfer env o s)
  unfolding persist_transfer
  persist_transfer-PaysOut = committed (book_transfer env o s) book_transfer-PaysOut
    where
      committed :
          (q : Result Persisted × Store)
          → PaysOut o s w v q
          → PaysOut o s w v (transactional (λ _. q) s)
      committed (ok a, t) paid = paid
      committed (err e, t) never = never

  finish_transfer-Pays :
      (done : Persisted) (t : Store)
      → PaysOut o s w v (ok done, t)
      → Pays o w v (finish_transfer env done t)
  finish_transfer-Pays done t paid =
      finished (finish_transfer env done t) (finish_transfer-Finishes env done t paid.2)
    where
      finished : (q : Result TransferResponse × Store) → Finishes done t q → Pays o w v q
      finished (ok r, u) f = (
        ap (λ ws. find_one (owns o.from_user_id o.currency) ws) (f.2 ∙ paid.3)
            ∙ sender_after o s w v i p,
        ap (λ ws. find_one (owns o.to_user_id o.currency) ws) (f.2 ∙ paid.3)
            ∙ receiver_after o s w v i p,
        f.0 ∙ paid.0,
        f.1 ∙ paid.1,
      )
      finished (err e, u) never = never

  new_transfer-Pays : Pays o w v (new_transfer env o s)
  unfolding new_transfer
  new_transfer-Pays =
      bind_post (persist_transfer env o) (finish_transfer env) s (PaysOut o s w v) (Pays o w v)
        persist_transfer-PaysOut (λ done t paid. finish_transfer-Pays done t paid)
        (λ e t never. never)

-- A request that passes the validator as a transfer between two users, who both have an active
-- wallet in its currency, in a table with unique keys and owners, with a new idempotency key and an
-- amount that the sender's wallet covers, is answered and not refused. Afterwards the sender's wallet in
-- the table is as it was but for a balance that is less by the amount, and the receiver's but for one
-- that is more by it; and the answer has these two balances.
pub create_transfer-Pays :
    (env : Env) (to_number : String → Number) (r : CreateTransferRequest) (s : Store) (w v : Wallet)
    {o : TransferOrder}
    → validate_create_transfer to_number r ≡ ok o
    → IsInternal o
    → IsPayable o s w v
    → Pays o w v (create_transfer env to_number r s)
unfolding create_transfer
create_transfer-Pays env to_number r s w v {o} accepted i p =
    rw accepted (ground (arith, p.new_key, new_transfer-Pays env o s w v i p))
