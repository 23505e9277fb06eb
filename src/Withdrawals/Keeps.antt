-- ===== src/Withdrawals/Keeps.antt =====
-- The wallets and the ledger under persistWithdrawalRequest and the rollback of its debit.
use kufi_e_wallet_with_hyper.Prelude.{
  ◌≡◌, refl, inl, inr, String, false, some, is_some, [], ◌∷◌, ◌++◌, arith, Bool-cases,
}
use kufi_e_wallet_with_hyper.Prelude.Int.{pos, ◌+ℤ◌, ◌-ℤ◌, ltb_ℤ}
use kufi_e_wallet_with_hyper.Entities.{Wallet, TransactionEntity, FundingSource}
use kufi_e_wallet_with_hyper.Store.{
  throw, bad_request, transaction_of_key, Store, Env, wallet_of, insert_transaction,
}
use kufi_e_wallet_with_hyper.Store.Post.{option_post, transactional_post}
use kufi_e_wallet_with_hyper.Requests.{WithdrawalOrder}
use kufi_e_wallet_with_hyper.Books.{IsSoundStore}
use kufi_e_wallet_with_hyper.Prelude.Rows.{save}
use kufi_e_wallet_with_hyper.Books.Lookup.{wallet_id}
use kufi_e_wallet_with_hyper.Books.Money.{
  debited_solvent, debit_eq, Booked, BookedFor, Persists, books_new, IsCredited, Credits,
  post-Credited,
}
use kufi_e_wallet_with_hyper.Topups.{existing_order, credit_of, credit_wallet}
use kufi_e_wallet_with_hyper.Topups.Keeps.{CreditsOnce, Credits-now, credit_wallet-Credits}
use kufi_e_wallet_with_hyper.Withdrawals.{
  withdrawal_row, withdrawal_entry, debit_withdrawal, store_withdrawal, persist_withdrawal_request,
  book_withdrawal, refund_withdrawal, rollback_note, rollback_withdrawal_using_manager,
}

refund_withdrawal-Credits :
    (tx : TransactionEntity) (reason : String) (s : Store)
    → IsSoundStore s
    → Credits tx.currency (pos tx.amount) s (refund_withdrawal tx reason s)
unfolding refund_withdrawal
refund_withdrawal-Credits tx reason s h =
    option_post (wallet_of tx.from_user_id tx.currency s)
      (throw (bad_request "Wallet not found for rollback"))
      (λ w. credit_wallet (rollback_note reason) tx w) s (Credits tx.currency (pos tx.amount) s)
      (λ _. h)
      (λ w found. credit_wallet-Credits (rollback_note reason) tx w s tx.from_user_id found h)

pub rollback_withdrawal-CreditsOnce :
    (tx : TransactionEntity) (reason : String) (s : Store)
    → IsSoundStore s
    → CreditsOnce tx s (rollback_withdrawal_using_manager tx reason s)
unfolding rollback_withdrawal_using_manager
rollback_withdrawal-CreditsOnce tx reason s h = elim (Bool-cases (is_some (credit_of tx.id s))) [
  | inl made ↦ rw made (inl (made, refl, refl))
  | inr due ↦ rw due (Credits-now tx s _ due (refund_withdrawal-Credits tx reason s h))
]

-- The books after the debit of a withdrawal that the wallet covers.
pub debited :
    (env : Env) (o : WithdrawalOrder) (source : FundingSource) (w : Wallet) (s : Store)
    → wallet_of o.user_id o.currency s ≡ some w
    → IsSoundStore s
    → ltb_ℤ w.balance (pos o.amount) ≡ false
    → IsCredited o.currency
        (pos 0 -ℤ pos o.amount)
        s.wallets
        (save wallet_id (record w { balance = w.balance -ℤ pos o.amount }) s.wallets)
        (s.ledger
          ++ withdrawal_entry
              (withdrawal_row env o source)
              w
              (record w { balance = w.balance -ℤ pos o.amount })
            ∷ [])
debited env o source w s found h covered = rw (debit_eq w.balance o.amount) (
    post-Credited o.user_id o.currency s w
      (withdrawal_entry (withdrawal_row env o source) w
        (record w { balance = w.balance +ℤ (pos 0 -ℤ pos o.amount) }))
      found refl refl (debited_solvent w.balance o.amount covered) h)

debit_withdrawal-Booked :
    (env : Env) (o : WithdrawalOrder) (source : FundingSource) (w : Wallet) (s : Store)
    → wallet_of o.user_id o.currency s ≡ some w
    → IsSoundStore s
    → Booked o.currency (pos 0 -ℤ pos o.amount) s (debit_withdrawal env o source w s)
unfolding debit_withdrawal insert_transaction
debit_withdrawal-Booked env o source w s found h = ground (arith, debited env o source w s found h)

store_withdrawal-Booked :
    (env : Env) (o : WithdrawalOrder) (source : FundingSource) (s : Store)
    → IsSoundStore s
    → Booked o.currency (pos 0 -ℤ pos o.amount) s (store_withdrawal env o source s)
unfolding store_withdrawal
store_withdrawal-Booked env o source s h =
    option_post (wallet_of o.user_id o.currency s) (throw (bad_request "Wallet not found"))
      (debit_withdrawal env o source) s (Booked o.currency (pos 0 -ℤ pos o.amount) s) (λ _. tt)
      (λ w found. debit_withdrawal-Booked env o source w s found h)

book_withdrawal-BookedFor :
    (env : Env) (o : WithdrawalOrder) (source : FundingSource) (s : Store)
    → IsSoundStore s
    → BookedFor o.idempotency_key o.currency
        (pos 0 -ℤ pos o.amount)
        s
        (book_withdrawal env o source s)
unfolding book_withdrawal existing_order
book_withdrawal-BookedFor env o source s h =
    option_post (transaction_of_key o.idempotency_key s) (store_withdrawal env o source)
      (λ dup. existing_order o.user_id o.currency dup) s
      (BookedFor o.idempotency_key o.currency (pos 0 -ℤ pos o.amount) s)
      (λ new.
        books_new o.idempotency_key o.currency (pos 0 -ℤ pos o.amount) s _ new
          (store_withdrawal-Booked env o source s h))
      (λ dup known. inl (rw known, refl))

-- On sound books, a withdrawal order that is new takes its amount out of its currency and leaves
-- sound books; one whose idempotency key is known, or that is refused, changes no table.
pub persist_withdrawal-Persists :
    (env : Env) (o : WithdrawalOrder) (source : FundingSource) (s : Store)
    → IsSoundStore s
    → Persists o.idempotency_key o.currency
        (pos 0 -ℤ pos o.amount)
        s
        (persist_withdrawal_request env o source s)
unfolding persist_withdrawal_request
persist_withdrawal-Persists env o source s h =
    transactional_post (book_withdrawal env o source) s
      (BookedFor o.idempotency_key o.currency (pos 0 -ℤ pos o.amount) s)
      (Persists o.idempotency_key o.currency (pos 0 -ℤ pos o.amount) s)
      (book_withdrawal-BookedFor env o source s h) (λ a t m. m) (λ e. refl)
