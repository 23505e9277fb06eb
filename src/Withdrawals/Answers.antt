-- ===== src/Withdrawals/Answers.antt =====
-- The whole of createWithdrawalRequest: what each answer says of the wallets and the ledger.
use kufi_e_wallet_with_hyper.Prelude.{
  ◌≡◌, ap, ◌∙◌, String, true, false, none, arith, Bool-cases, inl, inr, if◌then◌else◌, is_some, ◌⊎◌,
}
use kufi_e_wallet_with_hyper.Prelude.Int.{ℤ, pos, ◌+ℤ◌, ◌-ℤ◌}
use kufi_e_wallet_with_hyper.Entities.{TransactionEntity, is_failed, FundingSource}
use kufi_e_wallet_with_hyper.Store.{Store, Error, Result, ok, err, Env, ◌>>=◌, transaction_of_key}
use kufi_e_wallet_with_hyper.Store.Post.{bind_post, option_post}
use kufi_e_wallet_with_hyper.Requests.{
  WithdrawalOrder, Number, CreateWithdrawalRequest, validate_create_withdrawal_request,
}
use kufi_e_wallet_with_hyper.Funding.{get_active_funding_source}
use kufi_e_wallet_with_hyper.Wallets.{get_wallet}
use kufi_e_wallet_with_hyper.Outbox.{enqueue_transaction_event}
use kufi_e_wallet_with_hyper.Partner.{submit_outside_transfer}
use kufi_e_wallet_with_hyper.Transfers.{TransferResponse}
use kufi_e_wallet_with_hyper.Books.{IsSoundStore}
use kufi_e_wallet_with_hyper.Books.Money.{Credited, SameBooks}
use kufi_e_wallet_with_hyper.Topups.{credit_of, Persisted}
use kufi_e_wallet_with_hyper.Topups.Answers.{Looks, get_active_funding_source-Looks}
use kufi_e_wallet_with_hyper.Withdrawals.{
  persist_withdrawal_request, give_up_withdrawal, simulate_failure, finish_withdrawal,
  after_submission, submit_withdrawal, simulated_withdrawal, settle_request, new_withdrawal,
  repeated_withdrawal, withdrawal_from, create_withdrawal_request,
}
use kufi_e_wallet_with_hyper.Withdrawals.Refunds.{
  IsDebited, Fails, give_up_withdrawal-Fails, simulate_failure-Fails, SameOrder,
  submit_outside_transfer-SameOrder, still-IsDebited,
}
use kufi_e_wallet_with_hyper.Withdrawals.Debits.{PersistsDebit, persist_withdrawal-Debits}

-- An answer that says FAILED has given the money back; any other has taken it.
abbrev kept_by : WithdrawalOrder → TransferResponse → ℤ
kept_by o r = if is_failed r.status then pos 0 else pos 0 -ℤ pos o.amount

-- A request that is new: booked as its answer says, or an error with the books as they were, the
-- debit alone, or the debit taken back.
abbrev Withdraws : WithdrawalOrder → Store → Result TransferResponse × Store → Type 0
Withdraws o s (ok r, t) = Credited o.currency (kept_by o r) s t
Withdraws o s (err e, t) =
    SameBooks s t
    ⊎ Credited o.currency (pos 0 -ℤ pos o.amount) s t
    ⊎ Credited o.currency (pos 0) s t

module _ (env : Env) (o : WithdrawalOrder) (s : Store) where
  finish_failed :
      (balance : ℤ) (tx : TransactionEntity) (t : Store)
      → is_failed tx.status ≡ true
      → Credited o.currency (pos 0) s t
      → Withdraws o s (finish_withdrawal env balance tx t)
  unfolding finish_withdrawal enqueue_transaction_event
  finish_failed balance tx t failed c = ground (arith, failed, c)

  finish_pending :
      (balance : ℤ) (tx : TransactionEntity) (t : Store)
      → is_failed tx.status ≡ false
      → Credited o.currency (pos 0 -ℤ pos o.amount) s t
      → Withdraws o s (finish_withdrawal env balance tx t)
  unfolding finish_withdrawal enqueue_transaction_event
  finish_pending balance tx t failed c = ground (arith, failed, c)

  simulated_withdrawal-Withdraws :
      (p : Persisted) (t : Store)
      → p.transaction.currency ≡ o.currency
      → p.transaction.amount ≡ o.amount
      → IsDebited p.transaction s t
      → Withdraws o s (simulated_withdrawal env o p t)
  unfolding simulated_withdrawal
  simulated_withdrawal-Withdraws p t c a d =
      bind_post (simulate_failure env p.transaction)
        (finish_withdrawal env (p.wallet_balance +ℤ pos o.amount)) t (Fails o.currency o.amount s)
        (Withdraws o s) (rw⁻¹ (c, a) (simulate_failure-Fails env p.transaction s t d))
        (λ tx u f. finish_failed _ tx u f.0 f.1) (λ e u f. inr f)

  give_up-Withdraws :
      (p : Persisted) (tx : TransactionEntity) (t : Store)
      → tx.currency ≡ o.currency
      → tx.amount ≡ o.amount
      → is_failed tx.status ≡ true
      → IsDebited tx s t
      → Withdraws o s (
          (give_up_withdrawal env tx >>= finish_withdrawal env (p.wallet_balance +ℤ pos o.amount))
            t)
  give_up-Withdraws p tx t c a failed d =
      bind_post (give_up_withdrawal env tx)
        (finish_withdrawal env (p.wallet_balance +ℤ pos o.amount)) t (Fails o.currency o.amount s)
        (Withdraws o s) (rw⁻¹ (c, a) (give_up_withdrawal-Fails env tx s t failed d))
        (λ tx' u f. finish_failed _ tx' u f.0 f.1) (λ e u f. inr f)

  after_submission-Withdraws :
      (p : Persisted) (tx : TransactionEntity) (t : Store)
      → tx.currency ≡ o.currency
      → tx.amount ≡ o.amount
      → IsDebited tx s t
      → Withdraws o s (after_submission env o p tx t)
  unfolding after_submission
  after_submission-Withdraws p tx t c a d = elim (Bool-cases (is_failed tx.status)) [
    | inl failed ↦ rw failed (give_up-Withdraws p tx t c a failed d)
    | inr pending ↦
        rw pending (finish_pending p.wallet_balance tx t pending (ground (arith, d.debited, c, a)))
  ]

  submit_withdrawal-Withdraws :
      (p : Persisted) (t : Store)
      → p.transaction.currency ≡ o.currency
      → p.transaction.amount ≡ o.amount
      → IsDebited p.transaction s t
      → Withdraws o s (submit_withdrawal env o p t)
  unfolding submit_withdrawal
  submit_withdrawal-Withdraws p t c a d =
      bind_post (submit_outside_transfer env p.transaction) (after_submission env o p) t
        (SameOrder p.transaction t) (Withdraws o s)
        (submit_outside_transfer-SameOrder env p.transaction t)
        (λ tx u k.
          after_submission-Withdraws p tx u (k.1 ∙ c) (k.2 ∙ a)
            (still-IsDebited p.transaction tx s t u k d))
        (λ e u k. rw k (inr (inl (ground (arith, d.debited, c, a)))))

  settle_request-Withdraws :
      (p : Persisted) (t : Store)
      → p.transaction.currency ≡ o.currency
      → p.transaction.amount ≡ o.amount
      → IsDebited p.transaction s t
      → Withdraws o s (settle_request env o p t)
  unfolding settle_request
  settle_request-Withdraws p t c a d =
      ground
        (arith, simulated_withdrawal-Withdraws p t c a d, submit_withdrawal-Withdraws p t c a d)

-- A known key is answered from the table, with nothing written.
abbrev pub AnswersWithdrawal : WithdrawalOrder → Store → Result TransferResponse × Store → Type 0
AnswersWithdrawal o s p =
    ((is_some (transaction_of_key o.idempotency_key s) ≡ true) × (p.1 ≡ s))
    ⊎ ((is_some (transaction_of_key o.idempotency_key s) ≡ false) × Withdraws o s p)

module _ (env : Env) (o : WithdrawalOrder) (s : Store) (h : IsSoundStore s)
    (fresh : credit_of env.transaction_key s ≡ none) where
  new_withdrawal-Withdraws :
      (source : FundingSource)
      → transaction_of_key o.idempotency_key s ≡ none
      → Withdraws o s (new_withdrawal env o source s)
  unfolding new_withdrawal
  new_withdrawal-Withdraws source new =
      bind_post (persist_withdrawal_request env o source) (settle_request env o) s
        (PersistsDebit env o source s h fresh) (Withdraws o s)
        (persist_withdrawal-Debits env o source s h fresh new)
        (λ p t d.
          settle_request-Withdraws env o s p t (ap (λ x. x.currency) d.1) (ap (λ x. x.amount) d.1)
            d.0)
        (λ e t same. inl (ap (λ u. u.wallets) same, ap (λ u. u.ledger) same))

  repeated_withdrawal-same : (dup : TransactionEntity) → (repeated_withdrawal o dup s).1 ≡ s
  unfolding repeated_withdrawal get_wallet
  repeated_withdrawal-same dup = ground arith

  withdrawal_from-Answers :
      (source : FundingSource) → AnswersWithdrawal o s (withdrawal_from env o source s)
  unfolding withdrawal_from
  withdrawal_from-Answers source =
      option_post (transaction_of_key o.idempotency_key s) (new_withdrawal env o source)
        (λ dup. repeated_withdrawal o dup) s (AnswersWithdrawal o s)
        (λ new. inr (rw new, new_withdrawal-Withdraws source new))
        (λ dup known. inl (rw known, repeated_withdrawal-same dup))

refused_answers :
    (e : Error) (o : WithdrawalOrder) (s t : Store) → t ≡ s → AnswersWithdrawal o s (err e, t)
refused_answers e o s t same =
    elim (Bool-cases (is_some (transaction_of_key o.idempotency_key s))) [
      | inl known ↦ inl (known, same)
      | inr new ↦ inr (new, inl (ap (λ u. u.wallets) same, ap (λ u. u.ledger) same))
    ]

-- A withdrawal request that passes the validator, on sound books, with a transaction key that no
-- credit in the ledger names: a known key changes no table. With a new key, an answer that says
-- FAILED has left the money of every currency as it was; any other answer has taken the amount
-- out of its currency. An error leaves the wallets and the ledger as they were, or the debit, or
-- the debit and its refund. The books are sound after each answer, and after each error that has
-- written them.
pub create_withdrawal_request-Answers :
    (env : Env) (to_number : String → Number) (r : CreateWithdrawalRequest) (s : Store)
    {o : WithdrawalOrder}
    → validate_create_withdrawal_request to_number r ≡ ok o
    → IsSoundStore s
    → credit_of env.transaction_key s ≡ none
    → AnswersWithdrawal o s (create_withdrawal_request env to_number r s)
unfolding create_withdrawal_request
create_withdrawal_request-Answers env to_number r s {o} accepted h fresh = rw accepted (
    bind_post (get_active_funding_source o.user_id o.funding_source_id) (withdrawal_from env o) s
      (Looks s) (AnswersWithdrawal o s)
      (get_active_funding_source-Looks o.user_id o.funding_source_id s)
      (λ source t same. rw same (withdrawal_from-Answers env o s h fresh source))
      (λ e t same. refused_answers e o s t same))
