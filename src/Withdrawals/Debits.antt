-- ===== src/Withdrawals/Debits.antt =====
-- The DB transaction of persistWithdrawalRequest: the debit, with no credit yet.
use kufi_e_wallet_with_hyper.Prelude.{
  ℕ, ◌≡◌, refl, false, none, some, arith, is_some, List, [], ◌∷◌, ◌++◌,
}
use kufi_e_wallet_with_hyper.Prelude.Int.{pos, ◌-ℤ◌}
use kufi_e_wallet_with_hyper.Prelude.Rows.{find_one}
use kufi_e_wallet_with_hyper.Entities.{Wallet, LedgerEntry, FundingSource}
use kufi_e_wallet_with_hyper.Store.{
  throw, bad_request, Store, Result, ok, err, Env, wallet_of, transaction_of_key,
  insert_transaction,
}
use kufi_e_wallet_with_hyper.Store.Post.{option_post, transactional_post}
use kufi_e_wallet_with_hyper.Requests.{WithdrawalOrder}
use kufi_e_wallet_with_hyper.Books.{IsSoundStore}
use kufi_e_wallet_with_hyper.Books.Lookup.{find_one-append_none}
use kufi_e_wallet_with_hyper.Topups.{is_credit_of, credit_of, Persisted, existing_order}
use kufi_e_wallet_with_hyper.Withdrawals.{
  withdrawal_row, withdrawal_entry, debit_withdrawal, store_withdrawal, book_withdrawal,
  persist_withdrawal_request,
}
use kufi_e_wallet_with_hyper.Withdrawals.Keeps.{debited}
use kufi_e_wallet_with_hyper.Withdrawals.Refunds.{IsDebited}

-- A debit is not a credit.
unpaid_after :
    (id : ℕ) (ledger : List LedgerEntry) (e : LedgerEntry)
    → find_one (is_credit_of id) ledger ≡ none
    → is_credit_of id e ≡ false
    → is_some (find_one (is_credit_of id) (ledger ++ e ∷ [])) ≡ false
unpaid_after id ledger e none_yet other =
    rw (find_one-append_none (is_credit_of id) ledger (e ∷ []) none_yet) (rw other)

module _ (env : Env) (o : WithdrawalOrder) (source : FundingSource) (s : Store) (h : IsSoundStore s)
    (fresh : credit_of env.transaction_key s ≡ none) where
  -- The order's transaction is in the table, with its debit and no credit.
  abbrev pub Debits : Result Persisted × Store → Type 0
  Debits (ok p, t) = (p.transaction ≡ withdrawal_row env o source) × IsDebited p.transaction s t
  Debits (err e, t) = Unit

  debit_withdrawal-Debits :
      (w : Wallet)
      → wallet_of o.user_id o.currency s ≡ some w
      → Debits (debit_withdrawal env o source w s)
  unfolding debit_withdrawal insert_transaction is_credit_of
  debit_withdrawal-Debits w found =
      let after = record w { balance = w.balance -ℤ pos o.amount } in
      let e = withdrawal_entry (withdrawal_row env o source) w after in
      ground (
        arith,
        debited env o source w s found h,
        unpaid_after env.transaction_key s.ledger e fresh (ground arith),
      )

  store_withdrawal-Debits : Debits (store_withdrawal env o source s)
  unfolding store_withdrawal
  store_withdrawal-Debits =
      option_post (wallet_of o.user_id o.currency s) (throw (bad_request "Wallet not found"))
        (debit_withdrawal env o source) s Debits (λ _. tt) debit_withdrawal-Debits

  abbrev pub PersistsDebit : Result Persisted × Store → Type 0
  PersistsDebit (ok p, t) =
      IsDebited p.transaction s t × (p.transaction ≡ withdrawal_row env o source)
  PersistsDebit (err e, t) = t ≡ s

  book_withdrawal-Debits :
      transaction_of_key o.idempotency_key s ≡ none → Debits (book_withdrawal env o source s)
  unfolding book_withdrawal
  book_withdrawal-Debits new =
      option_post (transaction_of_key o.idempotency_key s) (store_withdrawal env o source)
        (λ dup. existing_order o.user_id o.currency dup) s Debits (λ _. store_withdrawal-Debits)
        (λ dup known. ground (arith, known, new))

  pub persist_withdrawal-Debits :
      transaction_of_key o.idempotency_key s ≡ none
      → PersistsDebit (persist_withdrawal_request env o source s)
  unfolding persist_withdrawal_request
  persist_withdrawal-Debits new =
      transactional_post (book_withdrawal env o source) s Debits PersistsDebit
        (book_withdrawal-Debits new) (λ p t d. (d.1, d.0)) (λ e. refl)
