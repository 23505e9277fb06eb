-- ===== src/Topups.antt =====
-- createTopupIntent of transactions.service.ts, and the credit of a deposit once it is settled.
pub mod Keeps
pub mod Answers
use kufi_e_wallet_with_hyper.Prelude.{
  ℕ, ◌+◌, ◌==◌, String, text_append, Bool, true, not, ◌&&◌, ◌||◌, Option, none, some, [], ◌∷◌,
  if◌then◌else◌, or_else, is_some,
}
use kufi_e_wallet_with_hyper.Prelude.Int.{ℤ, pos, ◌+ℤ◌}
use kufi_e_wallet_with_hyper.Prelude.Text.{or_text}
use kufi_e_wallet_with_hyper.Prelude.Rows.{find_one}
use kufi_e_wallet_with_hyper.Entities.{
  Wallet, is_active, LedgerEntry, LedgerDirection, is_credit, TransactionEntity, TransactionType,
  is_deposit, TransactionStatus, is_failed, SettlementStatus, ChainStatus, FundingSource,
}
use kufi_e_wallet_with_hyper.Store.{
  Store, Method, Env, ok, pure, throw_if, gets, of_result, transactional, ◌>>=◌, ◌>>◌, wallet_of,
  transaction_of_key, save_wallet, insert_wallet, insert_transaction, add_entries, new_wallet,
  balance_or_zero,
}
use kufi_e_wallet_with_hyper.Requests.{
  Number, CreateTopupIntentRequest, TopupOrder, validate_create_topup_intent,
}
use kufi_e_wallet_with_hyper.Wallets.{get_wallet}
use kufi_e_wallet_with_hyper.Outbox.{enqueue_transaction_event}
use kufi_e_wallet_with_hyper.Partner.{submit_outside_transfer}
use kufi_e_wallet_with_hyper.Funding.{get_active_funding_source}
use kufi_e_wallet_with_hyper.Chain.{anchor_to_chain}
use kufi_e_wallet_with_hyper.Transfers.{TransferResponse, map_transfer_response}

-- The locked wallet of a user, made if there is none.
unfoldable pub wallet_or_new : Env → String → String → Method Wallet
wallet_or_new env user currency = do
  found ← gets (wallet_of user currency)
  elim found [ some wallet ↦ pure wallet | none ↦ insert_wallet (new_wallet env user currency) ]

abbrev topup_row : Env → TopupOrder → FundingSource → TransactionEntity
topup_row env o source = record {
  id = env.transaction_key;
  idempotency_key = o.idempotency_key;
  kind = TransactionType.deposit;
  status = TransactionStatus.pending;
  settlement_status = SettlementStatus.pending;
  chain_status = ChainStatus.pending;
  requesting_user_id = o.user_id;
  from_user_id = env.config.chain_external_source_user_id;
  to_user_id = some o.user_id;
  amount = o.amount;
  currency = o.currency;
  memo = some (or_text o.memo (text_append "Topup via " source.provider));
  is_external = true;
  external_partner = some source.provider;
  external_account_no = some source.account_ref_masked;
  external_ref = none;
  chain_tx_id = none;
  receipt_json = none;
  chain_retry_count = 0;
  chain_last_attempt_at = none;
  chain_next_attempt_at = some (env.now + env.config.chain_async_lease_ms);
  error_code = none;
  error_message = none;
  created_at = env.now;
}

pub record Persisted : Type 0 where
  pub transaction : TransactionEntity
  pub wallet_balance : ℤ

unfoldable pub existing_order : String → String → TransactionEntity → Method Persisted
existing_order user currency dup s = (
  ok (record { transaction = dup; wallet_balance = balance_or_zero (wallet_of user currency s) }),
  s,
)

store_topup_for : Env → TopupOrder → FundingSource → Wallet → Method Persisted
store_topup_for env o source wallet = do
  throw_if (not (is_active wallet.status)) "Wallet is not active"
  tx ← insert_transaction (topup_row env o source)
  pure (record { transaction = tx; wallet_balance = wallet.balance })

store_topup : Env → TopupOrder → FundingSource → Method Persisted
store_topup env o source = wallet_or_new env o.user_id o.currency >>= store_topup_for env o source

-- The body of the DB transaction.
book_topup : Env → TopupOrder → FundingSource → Method Persisted
book_topup env o source = do
  dup ← gets (transaction_of_key o.idempotency_key)
  elim dup [ some tx ↦ existing_order o.user_id o.currency tx | none ↦ store_topup env o source ]

persist_topup_intent : Env → TopupOrder → FundingSource → Method Persisted
persist_topup_intent env o source = transactional (book_topup env o source)

-- A refused submission is anchored at once; any other waits for its settlement.
anchor_if_failed : Env → TransactionEntity → Method TransactionEntity
anchor_if_failed env tx = if is_failed tx.status then anchor_to_chain env tx else pure tx

answer_topup : Env → Persisted → TransactionEntity → Method TransferResponse
answer_topup env persisted tx = do
  enqueue_transaction_event env tx
  pure (map_transfer_response tx persisted.wallet_balance persisted.wallet_balance)

-- createTopupIntent once the intent is in the tables.
finish_topup : Env → Persisted → Method TransferResponse
finish_topup env persisted = submit_outside_transfer env persisted.transaction >>= λ submitted.
    anchor_if_failed env submitted >>= answer_topup env persisted

new_topup : Env → TopupOrder → FundingSource → Method TransferResponse
new_topup env o source = persist_topup_intent env o source >>= finish_topup env

-- createTopupIntent for a key that is in the table.
repeated_topup : TopupOrder → TransactionEntity → Method TransferResponse
repeated_topup o existing = do
  wallet ← get_wallet o.user_id o.currency
  pure (map_transfer_response existing (balance_or_zero wallet) (balance_or_zero wallet))

topup_from : Env → TopupOrder → FundingSource → Method TransferResponse
topup_from env o source = do
  existing ← gets (transaction_of_key o.idempotency_key)
  elim existing [ some tx ↦ repeated_topup o tx | none ↦ new_topup env o source ]

pub create_topup_intent :
    Env → (String → Number) → CreateTopupIntentRequest → Method TransferResponse
create_topup_intent env to_number request = do
  o ← of_result (validate_create_topup_intent to_number request)
  source ← get_active_funding_source o.user_id o.funding_source_id
  topup_from env o source

-- where: { transactionId, direction: CREDIT }
unfoldable pub is_credit_of : ℕ → LedgerEntry → Bool
is_credit_of id entry = entry.transaction_id == id && is_credit entry.direction

abbrev pub credit_of : ℕ → Store → Option LedgerEntry
credit_of id s = find_one (is_credit_of id) s.ledger

abbrev late_credit_entry : String → TransactionEntity → Wallet → Wallet → LedgerEntry
late_credit_entry note tx before after = record {
  transaction_id = tx.id;
  wallet_id = before.id;
  direction = LedgerDirection.credit;
  amount = tx.amount;
  balance_before = before.balance;
  balance_after = after.balance;
  note = note;
}

-- The amount of a transaction is added to a wallet, with its ledger entry.
unfoldable pub credit_wallet : String → TransactionEntity → Wallet → Method (Unit {0})
credit_wallet note tx wallet = do
  let credited = record wallet { balance = wallet.balance +ℤ pos tx.amount }
  save_wallet credited
  add_entries (late_credit_entry note tx wallet credited ∷ [])

abbrev pub deposit_owner : TransactionEntity → String
deposit_owner tx = or_else tx.to_user_id tx.requesting_user_id

abbrev pub topup_note : TransactionEntity → String
topup_note tx = text_append "Topup settlement credit (" (text_append tx.currency ")")

unfoldable pub credit_if_active : TransactionEntity → Wallet → Method (Unit {0})
credit_if_active tx wallet =
    throw_if (not (is_active wallet.status)) "Wallet is not active"
    >> credit_wallet (topup_note tx) tx wallet

unfoldable pub credit_deposit : Env → TransactionEntity → Method (Unit {0})
credit_deposit env tx = wallet_or_new env (deposit_owner tx) tx.currency >>= credit_if_active tx

unfoldable pub apply_deposit_credit_if_needed : Env → TransactionEntity → Method (Unit {0})
apply_deposit_credit_if_needed env tx s =
    if not (is_deposit tx.kind) || is_some (credit_of tx.id s)
    then pure tt s
    else credit_deposit env tx s
