-- ===== src/Transfers/Answers.antt =====
-- The whole of createTransfer: what each answer says of the wallets and the ledger.
use kufi_e_wallet_with_hyper.Prelude.{
  ◌≡◌, ap, String, true, none, some, arith, Bool-cases, inl, inr, ◌⊎◌,
}
use kufi_e_wallet_with_hyper.Prelude.Int.{ℤ}
use kufi_e_wallet_with_hyper.Entities.{TransactionEntity}
use kufi_e_wallet_with_hyper.Store.{Store, ok, Env, transaction_of_key}
use kufi_e_wallet_with_hyper.Store.Post.{bind_post, option_post}
use kufi_e_wallet_with_hyper.Requests.{
  Number, CreateTransferRequest, TransferOrder, validate_create_transfer,
}
use kufi_e_wallet_with_hyper.Requests.Accepted.{validate_create_transfer-IsTransferOrder}
use kufi_e_wallet_with_hyper.Wallets.{get_wallet}
use kufi_e_wallet_with_hyper.Outbox.{enqueue_transaction_event}
use kufi_e_wallet_with_hyper.Partner.{submit_outside_transfer}
use kufi_e_wallet_with_hyper.Books.{IsSoundStore, IsFresh}
use kufi_e_wallet_with_hyper.Books.Money.{Persists, Aside, Answers, Answers-Aside, booked_new}
use kufi_e_wallet_with_hyper.Transfers.{
  Persisted, persist_transfer, submit_if_external, schedule_anchor, finish_transfer, new_transfer,
  repeated_transfer, create_transfer,
}
use kufi_e_wallet_with_hyper.Transfers.Locks.{IsInternal}
use kufi_e_wallet_with_hyper.Transfers.Moves.{added, persist_transfer-Persists}

pub submit_outside_transfer-Aside :
    (env : Env) (tx : TransactionEntity) (s : Store) → Aside s (submit_outside_transfer env tx s)
unfolding submit_outside_transfer
submit_outside_transfer-Aside env tx s = ground arith

finish_transfer-Aside : (env : Env) (p : Persisted) (s : Store) → Aside s (finish_transfer env p s)
unfolding finish_transfer submit_if_external schedule_anchor enqueue_transaction_event
finish_transfer-Aside env p s = ground (arith, submit_outside_transfer-Aside env p.transaction s)

-- An order that passes the validator goes to a partner or to another user.
placed :
    (to_number : String → Number) (r : CreateTransferRequest) {o : TransferOrder}
    → validate_create_transfer to_number r ≡ ok o
    → (o.is_external ≡ true) ⊎ IsInternal o
placed to_number r {o} accepted =
    let order = validate_create_transfer-IsTransferOrder to_number r accepted in
    elim (Bool-cases o.is_external) [
      | inl x ↦ inl x
      | inr x ↦ inr (record {
        internal = x;
        receiver_given = order.receiver_given;
        other_user = order.not_to_self x;
      })
    ]

new_transfer-Answers :
    (env : Env) (o : TransferOrder) (s : Store)
    → transaction_of_key o.idempotency_key s ≡ none
    → Persists o.idempotency_key o.currency (added o) s (persist_transfer env o s)
    → Answers o.idempotency_key o.currency (added o) s (new_transfer env o s)
unfolding new_transfer
new_transfer-Answers env o s new persisted =
    bind_post (persist_transfer env o) (finish_transfer env) s
      (Persists o.idempotency_key o.currency (added o) s)
      (Answers o.idempotency_key o.currency (added o) s) persisted
      (λ p t booked.
        Answers-Aside o.idempotency_key o.currency (added o) s t (finish_transfer env p t) new
          (booked_new p o.idempotency_key o.currency (added o) s t new booked)
          (finish_transfer-Aside env p t))
      (λ e t same. inl (ap (λ u. u.wallets) same, ap (λ u. u.ledger) same))

repeated_transfer-Answers :
    (o : TransferOrder) (dup : TransactionEntity) (s : Store) (amount : ℤ)
    → transaction_of_key o.idempotency_key s ≡ some dup
    → Answers o.idempotency_key o.currency amount s (repeated_transfer o dup s)
unfolding repeated_transfer get_wallet
repeated_transfer-Answers o dup s amount known = ground arith

-- A transfer request that passes the validator, on sound books and with a key for a new wallet
-- that is not in use: an answer with a new idempotency key says that the money is booked and the
-- books are sound, with no currency changed by a transfer between users, and its currency less by
-- the amount after one to a partner; an answer with a known idempotency key says that no table has
-- changed; an error says that the wallets and the ledger are as they were, or that the money is
-- booked.
pub create_transfer-Answers :
    (env : Env) (to_number : String → Number) (r : CreateTransferRequest) (s : Store)
    {o : TransferOrder}
    → validate_create_transfer to_number r ≡ ok o
    → IsSoundStore s
    → IsFresh env.wallet_key s
    → Answers o.idempotency_key o.currency (added o) s (create_transfer env to_number r s)
unfolding create_transfer
create_transfer-Answers env to_number r s {o} accepted h f = rw accepted (
    option_post (transaction_of_key o.idempotency_key s) (new_transfer env o)
      (λ dup. repeated_transfer o dup) s (Answers o.idempotency_key o.currency (added o) s)
      (λ new.
        new_transfer-Answers env o s new
          (persist_transfer-Persists env o s h (placed to_number r accepted) f))
      (λ dup known. repeated_transfer-Answers o dup s (added o) known))
