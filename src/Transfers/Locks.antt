-- ===== src/Transfers/Locks.antt =====
-- The wallets that persistTransfer locks, in whichever order of the two users.
use kufi_e_wallet_with_hyper.Prelude.{
  ◌≡◌, refl, String, str_eq, eq_iff, true, false, some, [], ◌∷◌, arith,
}
use kufi_e_wallet_with_hyper.Entities.{Wallet}
use kufi_e_wallet_with_hyper.Prelude.Text.{is_empty}
use kufi_e_wallet_with_hyper.Store.{
  Store, Result, ok, err, Env, pure, wallet_of, insert_wallet, new_wallet,
}
use kufi_e_wallet_with_hyper.Store.Post.{bind_post, guard_post, option_post}
use kufi_e_wallet_with_hyper.Requests.{TransferOrder}
use kufi_e_wallet_with_hyper.Books.{IsSoundStore, IsFresh}
use kufi_e_wallet_with_hyper.Books.Money.{IsSameMoney, Opens, insert-Opens, same_money}
use kufi_e_wallet_with_hyper.Transfers.{
  Locked, locked_wallet, users_to_lock, lock_wallet, lock_new, lock_wallets,
}

-- The sender's wallet and the receiver's, locked and in the table.
pub record AreLocked (o : TransferOrder) (locked : Locked) (s t : Store) : Type 0 where
  pub sender : Wallet
  pub receiver : Wallet
  pub sender_locked : locked_wallet o.from_user_id locked ≡ some sender
  pub receiver_locked : locked_wallet o.to_user_id locked ≡ some receiver
  pub sender_row : wallet_of o.from_user_id o.currency t ≡ some sender
  pub receiver_row : wallet_of o.to_user_id o.currency t ≡ some receiver
  pub same : IsSameMoney s t

pub record IsSenderLocked (o : TransferOrder) (locked : Locked) (s t : Store) : Type 0 where
  pub sender : Wallet
  pub sender_locked : locked_wallet o.from_user_id locked ≡ some sender
  pub sender_row : wallet_of o.from_user_id o.currency t ≡ some sender
  pub same : t ≡ s

-- A found wallet is locked as it is; the sender's is not made.
abbrev LocksSender : TransferOrder → Store → Result Wallet × Store → Type 0
LocksSender o s (err e, t) = Unit
LocksSender o s (ok w, t) = (wallet_of o.from_user_id o.currency s ≡ some w) × (t ≡ s)

abbrev LocksReceiver : TransferOrder → Store → Result Wallet × Store → Type 0
LocksReceiver o s (err e, t) = Unit
LocksReceiver o s (ok w, t) = (wallet_of o.to_user_id o.currency t ≡ some w) × IsSameMoney s t

abbrev pub LocksBoth : TransferOrder → Store → Result Locked × Store → Type 0
LocksBoth o s (err e, t) = Unit
LocksBoth o s (ok locked, t) = AreLocked o locked s t

opened_locks :
    (o : TransferOrder) (s : Store) (p : Result Wallet × Store)
    → Opens o.to_user_id o.currency s p
    → LocksReceiver o s p
opened_locks o s (ok w, t) h = h
opened_locks o s (err e, t) h = tt

module _ (env : Env) (o : TransferOrder) (s : Store) where
  lock_sender : LocksSender o s (lock_wallet env o o.from_user_id s)
  unfolding lock_wallet lock_new
  lock_sender =
      option_post (wallet_of o.from_user_id o.currency s) (lock_new env o o.from_user_id) pure s
        (LocksSender o s) (λ missing. ground (arith, eq_iff o.from_user_id o.from_user_id))
        (λ w found. (found, refl))

  lock_receiver :
      IsSoundStore s
      → IsFresh env.wallet_key s
      → LocksReceiver o s (lock_wallet env o o.to_user_id s)
  unfolding lock_wallet lock_new
  lock_receiver h f =
      option_post (wallet_of o.to_user_id o.currency s) (lock_new env o o.to_user_id) pure s
        (LocksReceiver o s)
        (λ missing.
          guard_post (str_eq o.to_user_id o.from_user_id) "Sender wallet not found"
            (insert_wallet (new_wallet env o.to_user_id o.currency)) s (LocksReceiver o s)
            (λ _. opened_locks o s _ (insert-Opens env o.to_user_id o.currency s missing h f))
            (λ _. tt))
        (λ w found. (found, same_money s h))

-- An internal order between two users.
pub record IsInternal (o : TransferOrder) : Type 0 where
  pub internal : o.is_external ≡ false
  pub receiver_given : is_empty o.to_user_id ≡ false
  pub other_user : str_eq o.from_user_id o.to_user_id ≡ false

pub str_eq_comm : (a b : String) → str_eq a b ≡ str_eq b a
str_eq_comm a b = ground (arith, eq_iff a b, eq_iff b a)

module _ (env : Env) (o : TransferOrder) (s : Store) (i : IsInternal o) (h : IsSoundStore s)
    (f : IsFresh env.wallet_key s) where
  from_then_to : LocksBoth o s (lock_wallets env o (o.from_user_id ∷ o.to_user_id ∷ []) [] s)
  unfolding lock_wallets
  from_then_to =
      bind_post (lock_wallet env o o.from_user_id)
        (λ w. lock_wallets env o (o.to_user_id ∷ []) ((o.from_user_id, w) ∷ [])) s (LocksSender o s)
        (LocksBoth o s) (lock_sender env o s)
        (λ w t l.
          bind_post (lock_wallet env o o.to_user_id)
            (λ v. lock_wallets env o [] ((o.to_user_id, v) ∷ (o.from_user_id, w) ∷ [])) t
            (LocksReceiver o s) (LocksBoth o s) (rw l.1 (lock_receiver env o s h f))
            (λ v u k. record {
              sender = w;
              receiver = v;
              sender_locked = ground (
                arith,
                eq_iff o.from_user_id o.from_user_id,
                str_eq_comm o.from_user_id o.to_user_id,
                i,
              );
              receiver_locked = ground (arith, eq_iff o.to_user_id o.to_user_id);
              sender_row = k.1.kept _ w l.0;
              receiver_row = k.0;
              same = k.1;
            })
            (λ e u k. tt))
        (λ e t l. tt)

  to_then_from : LocksBoth o s (lock_wallets env o (o.to_user_id ∷ o.from_user_id ∷ []) [] s)
  unfolding lock_wallets
  to_then_from =
      bind_post (lock_wallet env o o.to_user_id)
        (λ w. lock_wallets env o (o.from_user_id ∷ []) ((o.to_user_id, w) ∷ [])) s
        (LocksReceiver o s) (LocksBoth o s) (lock_receiver env o s h f)
        (λ w t l.
          bind_post (lock_wallet env o o.from_user_id)
            (λ v. lock_wallets env o [] ((o.from_user_id, v) ∷ (o.to_user_id, w) ∷ [])) t
            (LocksSender o t) (LocksBoth o s) (lock_sender env o t)
            (λ v u k. rw k.1 (record {
              sender = v;
              receiver = w;
              sender_locked = ground (arith, eq_iff o.from_user_id o.from_user_id);
              receiver_locked = ground (arith, eq_iff o.to_user_id o.to_user_id, i);
              sender_row = k.0;
              receiver_row = l.0;
              same = l.1;
            }))
            (λ e u k. tt))
        (λ e t l. tt)

  -- Both wallets of an internal order are locked, whichever user comes first.
  pub lock_wallets-LocksBoth : LocksBoth o s (lock_wallets env o (users_to_lock env o) [] s)
  unfolding users_to_lock
  lock_wallets-LocksBoth =
      ground (arith, i, str_eq_comm o.from_user_id o.to_user_id, from_then_to, to_then_from)

abbrev pub LocksAlone : TransferOrder → Store → Result Locked × Store → Type 0
LocksAlone o s (err e, t) = Unit
LocksAlone o s (ok locked, t) = IsSenderLocked o locked s t

lock_from :
    (env : Env) (o : TransferOrder) (s : Store)
    → LocksAlone o s (lock_wallets env o (o.from_user_id ∷ []) [] s)
unfolding lock_wallets
lock_from env o s =
    bind_post (lock_wallet env o o.from_user_id)
      (λ w. lock_wallets env o [] ((o.from_user_id, w) ∷ [])) s (LocksSender o s) (LocksAlone o s)
      (lock_sender env o s)
      (λ w t l. record {
        sender = w;
        sender_locked = ground (arith, eq_iff o.from_user_id o.from_user_id);
        sender_row = rw l.1 l.0;
        same = l.1;
      })
      (λ e t l. tt)

-- An external order locks the sender's wallet alone.
pub lock_wallets-LocksAlone :
    (env : Env) (o : TransferOrder) (s : Store)
    → o.is_external ≡ true
    → LocksAlone o s (lock_wallets env o (users_to_lock env o) [] s)
unfolding users_to_lock
lock_wallets-LocksAlone env o s x = ground (arith, lock_from env o s)
