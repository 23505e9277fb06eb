-- ===== src/Withdrawals.antt =====
-- createWithdrawalRequest of transactions.service.ts, and the rollback of its debit.
pub mod Keeps
pub mod Refunds
pub mod Debits
pub mod Answers
use kufi_e_wallet_with_hyper.Prelude.{
  ◌+◌, String, text_append, true, not, none, some, [], ◌∷◌, if◌then◌else◌, or_else, is_some,
}
use kufi_e_wallet_with_hyper.Prelude.Int.{ℤ, pos, ◌+ℤ◌, ◌-ℤ◌, ltb_ℤ}
use kufi_e_wallet_with_hyper.Prelude.Text.{or_text}
use kufi_e_wallet_with_hyper.Entities.{
  Wallet, is_active, LedgerEntry, LedgerDirection, TransactionEntity, TransactionType,
  is_withdrawal, TransactionStatus, is_failed, SettlementStatus, ChainStatus, FundingSource,
}
use kufi_e_wallet_with_hyper.Store.{
  Method, Env, pure, throw, throw_if, gets, of_result, transactional, ◌>>=◌, ◌>>◌, bad_request,
  wallet_of, transaction_of_key, save_wallet, save_transaction, insert_transaction, add_entries,
  balance_or_zero,
}
use kufi_e_wallet_with_hyper.Requests.{
  Number, CreateWithdrawalRequest, WithdrawalOrder, validate_create_withdrawal_request,
}
use kufi_e_wallet_with_hyper.Wallets.{get_wallet}
use kufi_e_wallet_with_hyper.Outbox.{enqueue_transaction_event}
use kufi_e_wallet_with_hyper.Partner.{submit_outside_transfer}
use kufi_e_wallet_with_hyper.Funding.{get_active_funding_source}
use kufi_e_wallet_with_hyper.Chain.{anchor_to_chain}
use kufi_e_wallet_with_hyper.Transfers.{TransferResponse, map_transfer_response}
use kufi_e_wallet_with_hyper.Topups.{Persisted, existing_order, credit_of, credit_wallet}

abbrev withdrawal_row : Env → WithdrawalOrder → FundingSource → TransactionEntity
withdrawal_row env o source = record {
  id = env.transaction_key;
  idempotency_key = o.idempotency_key;
  kind = TransactionType.withdrawal;
  status = TransactionStatus.pending;
  settlement_status = SettlementStatus.pending;
  chain_status = ChainStatus.pending;
  requesting_user_id = o.user_id;
  from_user_id = o.user_id;
  to_user_id = some env.config.chain_external_sink_user_id;
  amount = o.amount;
  currency = o.currency;
  memo = some (or_text o.memo (text_append "Withdrawal via " source.provider));
  is_external = true;
  external_partner = some source.provider;
  external_account_no = some source.account_ref_masked;
  external_ref = none;
  chain_tx_id = none;
  receipt_json = none;
  chain_retry_count = 0;
  chain_last_attempt_at = none;
  chain_next_attempt_at = some (env.now + env.config.chain_async_lease_ms);
  error_code = none;
  error_message = none;
  created_at = env.now;
}

abbrev withdrawal_entry : TransactionEntity → Wallet → Wallet → LedgerEntry
withdrawal_entry tx before after = record {
  transaction_id = tx.id;
  wallet_id = before.id;
  direction = LedgerDirection.debit;
  amount = tx.amount;
  balance_before = before.balance;
  balance_after = after.balance;
  note = text_append "Withdrawal debit (" (text_append tx.currency ")");
}

-- persistWithdrawalRequest once the wallet is locked
debit_withdrawal : Env → WithdrawalOrder → FundingSource → Wallet → Method Persisted
debit_withdrawal env o source wallet = do
  throw_if (not (is_active wallet.status)) "Wallet is not active"
  throw_if (ltb_ℤ wallet.balance (pos o.amount)) "Insufficient balance"
  let debited = record wallet { balance = wallet.balance -ℤ pos o.amount }
  save_wallet debited
  tx ← insert_transaction (withdrawal_row env o source)
  add_entries (withdrawal_entry tx wallet debited ∷ [])
  pure (record { transaction = tx; wallet_balance = debited.balance })

store_withdrawal : Env → WithdrawalOrder → FundingSource → Method Persisted
store_withdrawal env o source = do
  found ← gets (wallet_of o.user_id o.currency)
  elim found [
    | none ↦ throw (bad_request "Wallet not found")
    | some wallet ↦ debit_withdrawal env o source wallet
  ]

-- The body of the DB transaction.
book_withdrawal : Env → WithdrawalOrder → FundingSource → Method Persisted
book_withdrawal env o source = do
  dup ← gets (transaction_of_key o.idempotency_key)
  elim dup [
    | some tx ↦ existing_order o.user_id o.currency tx
    | none ↦ store_withdrawal env o source
  ]

pub persist_withdrawal_request : Env → WithdrawalOrder → FundingSource → Method Persisted
persist_withdrawal_request env o source = transactional (book_withdrawal env o source)

abbrev pub rollback_note : String → String
rollback_note reason_code = text_append "Withdrawal rollback (" (text_append reason_code ")")

unfoldable pub refund_withdrawal : TransactionEntity → String → Method (Unit {0})
refund_withdrawal tx reason_code = do
  found ← gets (wallet_of tx.from_user_id tx.currency)
  elim found [
    | none ↦ throw (bad_request "Wallet not found for rollback")
    | some wallet ↦ credit_wallet (rollback_note reason_code) tx wallet
  ]

-- rollbackWithdrawalDebitUsingManager
unfoldable pub rollback_withdrawal_using_manager : TransactionEntity → String → Method (Unit {0})
rollback_withdrawal_using_manager tx reason_code s =
    if is_some (credit_of tx.id s) then pure tt s else refund_withdrawal tx reason_code s

rollback_withdrawal_debit : TransactionEntity → String → Method (Unit {0})
rollback_withdrawal_debit tx reason_code =
    if not (is_withdrawal tx.kind)
    then pure tt
    else transactional (rollback_withdrawal_using_manager tx reason_code)

abbrev simulated_failure : TransactionEntity → TransactionEntity
simulated_failure tx = record tx {
  status = TransactionStatus.failed;
  settlement_status = SettlementStatus.failed;
  error_code = some "WITHDRAWAL_SIMULATED_FAILURE";
  error_message = some "Withdrawal failure simulated by request";
}

record_simulated_failure : Env → TransactionEntity → Method TransactionEntity
record_simulated_failure env tx = save_transaction (simulated_failure tx) >>= anchor_to_chain env

-- The branch for `simulateFailure`.
pub simulate_failure : Env → TransactionEntity → Method TransactionEntity
simulate_failure env tx =
    rollback_withdrawal_debit tx "WITHDRAWAL_SIMULATED_FAILURE" >> record_simulated_failure env tx

-- The branch for a submission that the partner refuses.
pub give_up_withdrawal : Env → TransactionEntity → Method TransactionEntity
give_up_withdrawal env tx =
    rollback_withdrawal_debit tx (or_else tx.error_code "WITHDRAWAL_FAILED")
    >> anchor_to_chain env tx

finish_withdrawal : Env → ℤ → TransactionEntity → Method TransferResponse
finish_withdrawal env balance tx = do
  enqueue_transaction_event env tx
  pure (map_transfer_response tx balance (pos 0))

after_submission : Env → WithdrawalOrder → Persisted → TransactionEntity → Method TransferResponse
after_submission env o persisted tx =
    if is_failed tx.status
    then give_up_withdrawal env tx
      >>= finish_withdrawal env (persisted.wallet_balance +ℤ pos o.amount)
    else finish_withdrawal env persisted.wallet_balance tx

submit_withdrawal : Env → WithdrawalOrder → Persisted → Method TransferResponse
submit_withdrawal env o persisted =
    submit_outside_transfer env persisted.transaction >>= after_submission env o persisted

simulated_withdrawal : Env → WithdrawalOrder → Persisted → Method TransferResponse
simulated_withdrawal env o persisted =
    simulate_failure env persisted.transaction
    >>= finish_withdrawal env (persisted.wallet_balance +ℤ pos o.amount)

settle_request : Env → WithdrawalOrder → Persisted → Method TransferResponse
settle_request env o persisted =
    if o.simulate_failure
    then simulated_withdrawal env o persisted
    else submit_withdrawal env o persisted

new_withdrawal : Env → WithdrawalOrder → FundingSource → Method TransferResponse
new_withdrawal env o source = persist_withdrawal_request env o source >>= settle_request env o

-- createWithdrawalRequest for a key that is in the table.
repeated_withdrawal : WithdrawalOrder → TransactionEntity → Method TransferResponse
repeated_withdrawal o existing = do
  wallet ← get_wallet o.user_id o.currency
  pure (map_transfer_response existing (balance_or_zero wallet) (pos 0))

withdrawal_from : Env → WithdrawalOrder → FundingSource → Method TransferResponse
withdrawal_from env o source = do
  existing ← gets (transaction_of_key o.idempotency_key)
  elim existing [ some tx ↦ repeated_withdrawal o tx | none ↦ new_withdrawal env o source ]

pub create_withdrawal_request :
    Env → (String → Number) → CreateWithdrawalRequest → Method TransferResponse
create_withdrawal_request env to_number request = do
  o ← of_result (validate_create_withdrawal_request to_number request)
  source ← get_active_funding_source o.user_id o.funding_source_id
  withdrawal_from env o source
