-- ===== src/Settlement.antt =====
-- markSettlement of transactions.service.ts.
pub mod Keeps
pub mod Once
use kufi_e_wallet_with_hyper.Prelude.{
  ℕ, String, str_eq, Bool, true, false, Option, none, some, if◌then◌else◌,
}
use kufi_e_wallet_with_hyper.Prelude.Text.{or_text, trim, to_upper}
use kufi_e_wallet_with_hyper.Entities.{
  TransactionEntity, is_deposit, is_withdrawal, TransactionStatus, SettlementStatus,
  is_pending_chain,
}
use kufi_e_wallet_with_hyper.Store.{
  Method, Env, pure, throw, gets, transactional, ◌>>=◌, ◌>>◌, bad_request, transaction_of_id,
  save_transaction,
}
use kufi_e_wallet_with_hyper.Outbox.{enqueue_transaction_event}
use kufi_e_wallet_with_hyper.Topups.{apply_deposit_credit_if_needed}
use kufi_e_wallet_with_hyper.Withdrawals.{rollback_withdrawal_using_manager}

-- The two statuses that markSettlement takes.
pub data Outcome : Type 0 where
  settled failed : Outcome

unfoldable pub parse_outcome : String → Option Outcome
parse_outcome raw =
    let normalized = to_upper (trim raw) in
    if str_eq normalized "SETTLED"
    then some Outcome.settled
    else (if str_eq normalized "FAILED" then some Outcome.failed else none)

abbrev attempt_now : Env → TransactionEntity → Option ℕ
attempt_now env tx =
    if is_pending_chain tx.chain_status then some env.now else tx.chain_next_attempt_at

settled_row : Env → TransactionEntity → TransactionEntity
settled_row env tx = record tx {
  settlement_status = SettlementStatus.settled;
  status = TransactionStatus.completed;
  chain_next_attempt_at = attempt_now env tx;
  error_code = none;
  error_message = none;
}

pub failed_row : Env → String → TransactionEntity → TransactionEntity
failed_row env note tx = record tx {
  settlement_status = SettlementStatus.failed;
  status = TransactionStatus.failed;
  chain_next_attempt_at = attempt_now env tx;
  error_code = some "SETTLEMENT_FAILED";
  error_message = some (or_text note "Settlement failed");
}

-- The money that an outcome moves.
unfoldable pub settle_money : Env → Outcome → TransactionEntity → Method (Unit {0})
settle_money env Outcome.settled tx =
    if is_deposit tx.kind then apply_deposit_credit_if_needed env tx else pure tt
settle_money env Outcome.failed tx =
    if is_withdrawal tx.kind
    then rollback_withdrawal_using_manager tx "SETTLEMENT_FAILED"
    else pure tt

pub outcome_row : Env → Outcome → String → TransactionEntity → TransactionEntity
unfolding settled_row failed_row
outcome_row env Outcome.settled note tx = settled_row env tx
outcome_row env Outcome.failed note tx = failed_row env note tx

unfoldable pub record_outcome : Env → Outcome → String → TransactionEntity → Method Bool
record_outcome env outcome note tx = do
  saved ← save_transaction (outcome_row env outcome note tx)
  enqueue_transaction_event env saved
  pure true

unfoldable pub settle_transaction : Env → Outcome → String → TransactionEntity → Method Bool
settle_transaction env outcome note tx =
    settle_money env outcome tx >> record_outcome env outcome note tx

unfoldable pub settle_if_found : Env → Outcome → ℕ → String → Method Bool
settle_if_found env outcome id note = do
  found ← gets (transaction_of_id id)
  elim found [ none ↦ pure false | some tx ↦ settle_transaction env outcome note tx ]

unfoldable pub settle_found : Env → Outcome → ℕ → String → Method Bool
settle_found env outcome id note = transactional (settle_if_found env outcome id note)

unfoldable pub mark_settlement : Env → ℕ → String → String → Method Bool
mark_settlement env id status note = elim (parse_outcome status) [
  | none ↦ throw (bad_request "Unsupported settlement status")
  | some outcome ↦ settle_found env outcome id note
]
