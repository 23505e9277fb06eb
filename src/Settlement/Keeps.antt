-- ===== src/Settlement/Keeps.antt =====
-- The wallets and the ledger under markSettlement.
use mathlib.Core.Path.{subst}
use kufi_e_wallet_with_hyper.Prelude.{
  sym, ℕ, ◌≡◌, refl, ◌⊎◌, inl, inr, String, Bool, true, false, some, arith, Bool-cases,
}
use kufi_e_wallet_with_hyper.Entities.{TransactionEntity, is_deposit, is_withdrawal}
use kufi_e_wallet_with_hyper.Store.{Store, Result, ok, err, Env, transaction_of_id, transactional}
use kufi_e_wallet_with_hyper.Store.Post.{bind_post, transactional_post}
use kufi_e_wallet_with_hyper.Outbox.{enqueue_transaction_event}
use kufi_e_wallet_with_hyper.Books.{IsSoundStore, IsFresh}
use kufi_e_wallet_with_hyper.Topups.Keeps.{CreditsOnce, apply_deposit_credit-CreditsOnce}
use kufi_e_wallet_with_hyper.Withdrawals.Keeps.{rollback_withdrawal-CreditsOnce}
use kufi_e_wallet_with_hyper.Settlement.{
  Outcome, parse_outcome, settle_money, record_outcome, settle_transaction, settle_if_found,
  settle_found, mark_settlement,
}

-- A settled deposit is owed to its user, and so is a withdrawal that failed.
abbrev pub is_owed : Outcome → TransactionEntity → Bool
is_owed Outcome.settled tx = is_deposit tx.kind
is_owed Outcome.failed tx = is_withdrawal tx.kind

-- What an outcome does to the books: what is owed is credited once, and nothing else moves.
abbrev Settles : {A : Type 0} → Outcome → TransactionEntity → Store → Result A × Store → Type 0
Settles outcome tx s (err e, t) = IsSoundStore t
Settles outcome tx s (ok a, t) =
    ((is_owed outcome tx ≡ true) × CreditsOnce tx s (ok a, t))
    ⊎ ((is_owed outcome tx ≡ false) × (t.wallets ≡ s.wallets) × (t.ledger ≡ s.ledger))

owed-Settles :
    (outcome : Outcome) (tx : TransactionEntity) (s : Store) (p : Result (Unit {0}) × Store)
    → is_owed outcome tx ≡ true
    → CreditsOnce tx s p
    → Settles outcome tx s p
owed-Settles outcome tx s (ok a, t) owed c = inl (owed, c)
owed-Settles outcome tx s (err e, t) owed c = c

settle_money-Settles :
    (env : Env) (outcome : Outcome) (tx : TransactionEntity) (s : Store)
    → IsSoundStore s
    → IsFresh env.wallet_key s
    → Settles outcome tx s (settle_money env outcome tx s)
unfolding settle_money
settle_money-Settles env Outcome.settled tx s h f = elim (Bool-cases (is_deposit tx.kind)) [
  | inl owed ↦ rw owed (
      owed-Settles Outcome.settled tx s _ owed (apply_deposit_credit-CreditsOnce env tx s owed h f))
  | inr free ↦ rw free (inr (free, refl, refl))
]
settle_money-Settles env Outcome.failed tx s h f = elim (Bool-cases (is_withdrawal tx.kind)) [
  | inl owed ↦ rw owed (
      owed-Settles Outcome.failed tx s _ owed
        (rollback_withdrawal-CreditsOnce tx "SETTLEMENT_FAILED" s h))
  | inr free ↦ rw free (inr (free, refl, refl))
]

-- The row and the event are written beside the books.
record_outcome-Settles :
    (env : Env) (outcome : Outcome) (note : String) (tx : TransactionEntity) (s t : Store)
    → Settles {A = Unit {0}} outcome tx s (ok tt, t)
    → Settles outcome tx s (record_outcome env outcome note tx t)
unfolding record_outcome enqueue_transaction_event
record_outcome-Settles env outcome note tx s t h = h

settle_transaction-Settles :
    (env : Env) (outcome : Outcome) (note : String) (tx : TransactionEntity) (s : Store)
    → IsSoundStore s
    → IsFresh env.wallet_key s
    → Settles outcome tx s (settle_transaction env outcome note tx s)
unfolding settle_transaction
settle_transaction-Settles env outcome note tx s h f =
    bind_post (settle_money env outcome tx) (λ _. record_outcome env outcome note tx) s
      (Settles outcome tx s) (Settles outcome tx s) (settle_money-Settles env outcome tx s h f)
      (λ _ t m. record_outcome-Settles env outcome note tx s t m) (λ e t m. m)

-- The whole DB transaction: an outcome for a transaction that is there settles it, and what throws
-- leaves the tables as they were.
abbrev pub Committed :
    {A : Type 0} → Outcome → TransactionEntity → Store → Result A × Store → Type 0
Committed outcome tx s (err e, t) = t ≡ s
Committed outcome tx s (ok a, t) = Settles outcome tx s (ok a, t)

settle_if_found-some :
    (env : Env) (outcome : Outcome) (id : ℕ) (note : String) {tx : TransactionEntity} (s : Store)
    → transaction_of_id id s ≡ some tx
    → settle_if_found env outcome id note s ≡ settle_transaction env outcome note tx s
unfolding settle_if_found
settle_if_found-some env outcome id note s found = ground arith

pub mark_settlement-some :
    (env : Env) (id : ℕ) (status note : String) (s : Store) {outcome : Outcome}
    {tx : TransactionEntity}
    → parse_outcome status ≡ some outcome
    → transaction_of_id id s ≡ some tx
    → mark_settlement env id status note s
      ≡ transactional (settle_transaction env outcome note tx) s
unfolding mark_settlement settle_found
mark_settlement-some env id status note s {outcome} p found =
    ground (arith, settle_if_found-some env outcome id note s found)

-- For a transaction in the table and a status that reads as SETTLED or FAILED, on sound books and
-- with a key for a new wallet that is not in use: markSettlement throws and changes nothing, or
-- credits the amount to the currency of the transaction if a deposit settles or a withdrawal
-- fails, unless the transaction has a credit already, and leaves the wallets and the ledger alone
-- in every other case. After a credit the books are sound.
pub mark_settlement-Committed :
    (env : Env) (id : ℕ) (status note : String) (s : Store) {outcome : Outcome}
    {tx : TransactionEntity}
    → parse_outcome status ≡ some outcome
    → transaction_of_id id s ≡ some tx
    → IsSoundStore s
    → IsFresh env.wallet_key s
    → Committed outcome tx s (mark_settlement env id status note s)
mark_settlement-Committed env id status note s {outcome} {tx} p found h f =
    subst (Committed outcome tx s) (sym (mark_settlement-some env id status note s p found)) (
      transactional_post (settle_transaction env outcome note tx) s (Settles outcome tx s)
        (Committed outcome tx s) (settle_transaction-Settles env outcome note tx s h f) (λ a t m. m)
        (λ e. refl))
