-- ===== src/Settlement/Once.antt =====
-- A settlement that is reported again: markSettlement pays what is owed once.
use mathlib.Core.Path.{subst}
use kufi_e_wallet_with_hyper.Prelude.{
  sym, ℕ, ◌≡◌, ◌==◌, refl, ◌⊎◌, inl, inr, String, Bool, true, false, not, some, is_some, arith,
  Bool-cases, List, [], ◌∷◌, ◌++◌,
}
use kufi_e_wallet_with_hyper.Prelude.Rows.{find_one, save}
use kufi_e_wallet_with_hyper.Prelude.Rows.Kept.{find_one-save, find_one-key}
use kufi_e_wallet_with_hyper.Entities.{Wallet, is_active, TransactionEntity}
use kufi_e_wallet_with_hyper.Store.{
  Store, Result, ok, err, Env, throw, bad_request, transaction_of_id, transactional, wallet_of,
}
use kufi_e_wallet_with_hyper.Store.Post.{bind_post, guard_post, option_post, transactional_post}
use kufi_e_wallet_with_hyper.Outbox.{enqueue_transaction_event}
use kufi_e_wallet_with_hyper.Books.Money.{Aside}
use kufi_e_wallet_with_hyper.Topups.{
  is_credit_of, credit_of, credit_wallet, credit_if_active, credit_deposit, wallet_or_new,
  deposit_owner, topup_note, apply_deposit_credit_if_needed,
}
use kufi_e_wallet_with_hyper.Withdrawals.{
  rollback_note, refund_withdrawal, rollback_withdrawal_using_manager,
}
use kufi_e_wallet_with_hyper.Settlement.{
  Outcome, parse_outcome, outcome_row, settle_money, record_outcome, settle_transaction,
  mark_settlement,
}
use kufi_e_wallet_with_hyper.Settlement.Keeps.{is_owed, mark_settlement-some}

-- The ledger has a credit of the transaction.
abbrev Paid : {A : Type 0} → TransactionEntity → Result A × Store → Type 0
Paid tx (ok a, t) = is_some (credit_of tx.id t) ≡ true
Paid tx (err e, t) = Unit

find_last :
    {A : Type 0} (p : A → Bool) (xs : List A) (x : A)
    → p x ≡ true
    → is_some (find_one p (xs ++ x ∷ [])) ≡ true
find_last p [] x h = rw h refl
find_last p (y ∷ ys) x h = ground (arith, find_last p ys x h)

credit_wallet-Paid :
    (note : String) (tx : TransactionEntity) (w : Wallet) (s : Store)
    → Paid tx (credit_wallet note tx w s)
unfolding credit_wallet is_credit_of
credit_wallet-Paid note tx w s = find_last (is_credit_of tx.id) s.ledger _ (ground arith)

credit_deposit-Paid :
    (env : Env) (tx : TransactionEntity) (s : Store) → Paid tx (credit_deposit env tx s)
unfolding credit_deposit credit_if_active
credit_deposit-Paid env tx s =
    bind_post (wallet_or_new env (deposit_owner tx) tx.currency) (credit_if_active tx) s
      (λ _. Unit {0}) (Paid tx) tt
      (λ w t _.
        guard_post (not (is_active w.status)) "Wallet is not active"
          (credit_wallet (topup_note tx) tx w) t (Paid tx)
          (λ _. credit_wallet-Paid (topup_note tx) tx w t) (λ _. tt))
      (λ e t _. tt)

refund_withdrawal-Paid :
    (tx : TransactionEntity) (reason : String) (s : Store) → Paid tx (refund_withdrawal tx reason s)
unfolding refund_withdrawal
refund_withdrawal-Paid tx reason s =
    option_post (wallet_of tx.from_user_id tx.currency s)
      (throw (bad_request "Wallet not found for rollback"))
      (λ w. credit_wallet (rollback_note reason) tx w) s (Paid tx) (λ _. tt)
      (λ w found. credit_wallet-Paid (rollback_note reason) tx w s)

-- After the money is moved, what was owed is paid.
settle_money-Paid :
    (env : Env) (outcome : Outcome) (tx : TransactionEntity) (s : Store)
    → is_owed outcome tx ≡ true
    → Paid tx (settle_money env outcome tx s)
unfolding settle_money apply_deposit_credit_if_needed rollback_withdrawal_using_manager
settle_money-Paid env Outcome.settled tx s owed = ground (arith, owed, credit_deposit-Paid env tx s)
settle_money-Paid env Outcome.failed tx s owed =
    ground (arith, owed, refund_withdrawal-Paid tx "SETTLEMENT_FAILED" s)

-- Where there is a credit already, or nothing is owed, no money moves.
settle_money-Aside :
    (env : Env) (outcome : Outcome) (tx : TransactionEntity) (s : Store)
    → (is_owed outcome tx ≡ false) ⊎ (is_some (credit_of tx.id s) ≡ true)
    → settle_money env outcome tx s ≡ (ok tt, s)
unfolding settle_money apply_deposit_credit_if_needed rollback_withdrawal_using_manager
settle_money-Aside env Outcome.settled tx s h = ground arith
settle_money-Aside env Outcome.failed tx s h = ground arith

find_saved :
    (id : ℕ) (tx : TransactionEntity) (table : List TransactionEntity)
    → tx.id ≡ id
    → find_one (λ r. r.id == id) (save (λ r. r.id) tx table) ≡ some tx
find_saved id tx table h =
    subst
      (λ k. find_one (λ (r : TransactionEntity). r.id == k) (save (λ r. r.id) tx table) ≡ some tx) h
      (find_one-save (λ (r : TransactionEntity). r.id) tx table)

-- The transaction in the table is settled, and what it is owed is paid.
abbrev IsSettled : {A : Type 0} → Outcome → TransactionEntity → ℕ → Result A × Store → Type 0
IsSettled outcome row id (err e, t) = Unit
IsSettled outcome row id (ok a, t) =
    (transaction_of_id id t ≡ some row)
    × ((is_owed outcome row ≡ false) ⊎ (is_some (credit_of row.id t) ≡ true))

record_outcome-IsSettled :
    (env : Env) (outcome : Outcome) (note : String) (tx : TransactionEntity) (id : ℕ) (t : Store)
    → tx.id ≡ id
    → (is_owed outcome tx ≡ false) ⊎ (is_some (credit_of tx.id t) ≡ true)
    → IsSettled outcome (outcome_row env outcome note tx) id (record_outcome env outcome note tx t)
unfolding record_outcome enqueue_transaction_event outcome_row
record_outcome-IsSettled env Outcome.settled note tx id t i paid =
    (find_saved id (outcome_row env Outcome.settled note tx) t.transactions i, paid)
record_outcome-IsSettled env Outcome.failed note tx id t i paid =
    (find_saved id (outcome_row env Outcome.failed note tx) t.transactions i, paid)

-- Owed means paid.
abbrev Clears : {A : Type 0} → Outcome → TransactionEntity → Result A × Store → Type 0
Clears outcome tx (err e, t) = Unit
Clears outcome tx (ok a, t) = (is_owed outcome tx ≡ false) ⊎ (is_some (credit_of tx.id t) ≡ true)

Paid-Clears :
    {A : Type 0} (outcome : Outcome) (tx : TransactionEntity) (p : Result A × Store)
    → Paid tx p
    → Clears outcome tx p
Paid-Clears outcome tx (ok a, t) paid = inr paid
Paid-Clears outcome tx (err e, t) paid = tt

settle_money-Clears :
    (env : Env) (outcome : Outcome) (tx : TransactionEntity) (s : Store)
    → Clears outcome tx (settle_money env outcome tx s)
settle_money-Clears env outcome tx s = elim (Bool-cases (is_owed outcome tx)) [
  | inl owed ↦
      Paid-Clears outcome tx (settle_money env outcome tx s)
        (settle_money-Paid env outcome tx s owed)
  | inr free ↦
      subst (Clears outcome tx) (sym (settle_money-Aside env outcome tx s (inl free))) (inl free)
]

settle_transaction-IsSettled :
    (env : Env) (outcome : Outcome) (note : String) (tx : TransactionEntity) (id : ℕ) (s : Store)
    → tx.id ≡ id
    → IsSettled outcome
        (outcome_row env outcome note tx)
        id
        (settle_transaction env outcome note tx s)
unfolding settle_transaction
settle_transaction-IsSettled env outcome note tx id s i =
    bind_post (settle_money env outcome tx) (λ _. record_outcome env outcome note tx) s
      (Clears outcome tx) (IsSettled outcome (outcome_row env outcome note tx) id)
      (settle_money-Clears env outcome tx s)
      (λ _ t paid. record_outcome-IsSettled env outcome note tx id t i paid) (λ e t _. tt)

mark_settlement-IsSettled :
    (env : Env) (id : ℕ) (status note : String) (s : Store) {outcome : Outcome}
    {tx : TransactionEntity}
    → parse_outcome status ≡ some outcome
    → transaction_of_id id s ≡ some tx
    → IsSettled outcome (outcome_row env outcome note tx) id (mark_settlement env id status note s)
mark_settlement-IsSettled env id status note s {outcome} {tx} p found =
    subst (IsSettled outcome (outcome_row env outcome note tx) id)
      (sym (mark_settlement-some env id status note s p found))
      (transactional_post (settle_transaction env outcome note tx) s
        (IsSettled outcome (outcome_row env outcome note tx) id)
        (IsSettled outcome (outcome_row env outcome note tx) id)
        (settle_transaction-IsSettled env outcome note tx id s
          (find_one-key (λ (r : TransactionEntity). r.id) id tx s.transactions found))
        (λ a t m. m) (λ e. tt))

-- A row that is settled, and paid if owed, is settled again beside the books.
settle_again :
    (env : Env) (outcome : Outcome) (note : String) (row : TransactionEntity) (t : Store)
    → (is_owed outcome row ≡ false) ⊎ (is_some (credit_of row.id t) ≡ true)
    → Aside t (transactional (settle_transaction env outcome note row) t)
unfolding settle_transaction record_outcome enqueue_transaction_event
settle_again env outcome note row t clear =
    transactional_post (settle_transaction env outcome note row) t (Aside t) (Aside t)
      (bind_post (settle_money env outcome row) (λ _. record_outcome env outcome note row) t
        (Aside t) (Aside t)
        (subst (Aside t) (sym (settle_money-Aside env outcome row t clear)) (refl, refl))
        (λ _ u same. same) (λ e u same. same))
      (λ a u same. same) (λ e. (refl, refl))

-- Once markSettlement has returned for a transaction in the table, with a status that is SETTLED or
-- FAILED, every later report of the same status, at whatever time and with whatever note, leaves
-- the wallets and the ledger as they are: no deposit is credited twice, and no withdrawal is given
-- back twice.
pub mark_settlement-again :
    (env env' : Env) (id : ℕ) (status note note' : String) (s t : Store) {outcome : Outcome}
    {tx : TransactionEntity} {done : Bool}
    → parse_outcome status ≡ some outcome
    → transaction_of_id id s ≡ some tx
    → mark_settlement env id status note s ≡ (ok done, t)
    → Aside t (mark_settlement env' id status note' t)
mark_settlement-again env env' id status note note' s t {outcome} {tx} p found first =
    let settled =
      subst (IsSettled outcome (outcome_row env outcome note tx) id) first
        (mark_settlement-IsSettled env id status note s p found) in
    subst (Aside t) (sym (mark_settlement-some env' id status note' t p settled.0))
      (settle_again env' outcome note' (outcome_row env outcome note tx) t settled.1)
