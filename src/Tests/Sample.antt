-- ===== src/Tests/Sample.antt =====
-- A small database of the transaction service: two users, and what the service gets from outside.
use kufi_e_wallet_with_hyper.Prelude.{String, true, false, none, some, [], ◌∷◌, refl, arith}
use kufi_e_wallet_with_hyper.Prelude.Int.{pos, ◌+ℤ◌}
use kufi_e_wallet_with_hyper.Wallets.{expected_balance, ledger_delta}
use kufi_e_wallet_with_hyper.Entities.{
  Wallet, WalletStatus, LedgerEntry, LedgerDirection, TransactionEntity, TransactionType,
  TransactionStatus, SettlementStatus, ChainStatus, FundingSource, FundingSourceStatus,
}
use kufi_e_wallet_with_hyper.Store.{
  Store, owns, Env, Config, Reply, InitiateTransferRequest, InitiateTransferResponse, ChainService,
}
use kufi_e_wallet_with_hyper.Requests.{
  Number, RawAmount, CreateTransferRequest, TransferOrder, CreateTopupIntentRequest, TopupOrder,
  CreateWithdrawalRequest, WithdrawalOrder,
}
use kufi_e_wallet_with_hyper.Books.{IsSoundStore, IsFresh}
use kufi_e_wallet_with_hyper.Outbox.{OutboxConfig}

abbrev pub config : Config
config = record {
  chain_risk_high_amount = 1000;
  chain_async_enabled = true;
  chain_async_batch_size = 10;
  chain_async_workers = 2;
  chain_async_lease_ms = 60000;
  chain_async_initial_backoff_ms = 2000;
  chain_async_max_backoff_ms = 300000;
  chain_async_max_retries = 2;
  chain_external_source_user_id = "SOURCE";
  chain_external_sink_user_id = "SINK";
}

abbrev pub partner : InitiateTransferRequest → Reply InitiateTransferResponse
partner r =
    Reply.response (record { status = "SUBMITTED"; partner_ref = "P1"; partner_message = "" })

abbrev refusing : InitiateTransferRequest → Reply InitiateTransferResponse
refusing r = Reply.failure "no route"

abbrev pub busy_chain : ChainService
busy_chain = record {
  anchor_transfer = λ r. Reply.failure "busy";
  get_receipt = λ id. Reply.failure "busy";
}

abbrev pub chain : ChainService
chain = record {
  anchor_transfer =
      λ r. Reply.response (record { chain_status = "ANCHORED"; tx_id = "T1"; receipt_json = "{}" });
  get_receipt = λ id. Reply.failure "busy";
}

abbrev pub env : Env
env = record {
  config = config;
  now = 1000;
  random = 5;
  wallet_key = 7;
  transaction_key = 20;
  funding_key = "f7";
  event_key = 30;
  chain_event_key = 31;
  locale_le = λ a b. true;
  sha256_hex = λ t. t;
  outside_payment = some partner;
  chain = some chain;
}

-- The partner refuses, and the chain does not answer.
abbrev pub bad_env : Env
bad_env = record env { outside_payment = some refusing; chain = some busy_chain }

abbrev pub to_number : String → Number
to_number t = Number.not_a_number

abbrev pub alice : Wallet
alice = record {
  id = 1;
  user_id = "alice";
  currency = "VND";
  balance = pos 100;
  status = WalletStatus.active;
}

abbrev pub bob : Wallet
bob = record {
  id = 2;
  user_id = "bob";
  currency = "VND";
  balance = pos 5;
  status = WalletStatus.active;
}

abbrev first_credit : LedgerEntry
first_credit = record {
  transaction_id = 10;
  wallet_id = 1;
  direction = LedgerDirection.credit;
  amount = 100;
  balance_before = pos 0;
  balance_after = pos 100;
  note = "Topup settlement credit (VND)";
}

-- A deposit of bob that waits for its settlement.
abbrev pub deposit : TransactionEntity
deposit = record {
  id = 11;
  idempotency_key = "d1";
  kind = TransactionType.deposit;
  status = TransactionStatus.pending;
  settlement_status = SettlementStatus.pending;
  chain_status = ChainStatus.pending;
  requesting_user_id = "bob";
  from_user_id = "SOURCE";
  to_user_id = some "bob";
  amount = 50;
  currency = "VND";
  memo = none;
  is_external = true;
  external_partner = some "BANK";
  external_account_no = some "****6789";
  external_ref = none;
  chain_tx_id = none;
  receipt_json = none;
  chain_retry_count = 0;
  chain_last_attempt_at = none;
  chain_next_attempt_at = some 900;
  error_code = none;
  error_message = none;
  created_at = 800;
}

-- An internal transfer that waits for the chain.
abbrev pub waiting : TransactionEntity
waiting = record deposit {
  id = 12;
  idempotency_key = "t1";
  kind = TransactionType.transfer;
  settlement_status = SettlementStatus.not_needed;
  from_user_id = "alice";
  is_external = false;
}

abbrev pub source : FundingSource
source = record {
  id = "f1";
  user_id = "alice";
  provider = "BANK";
  account_ref_masked = "****6789";
  account_ref_hash = "BANK:123456789";
  provider_token = none;
  display_name = none;
  status = FundingSourceStatus.active;
  created_at = 700;
}

abbrev pub store : Store
store = record {
  wallets = alice ∷ bob ∷ [];
  transactions = deposit ∷ waiting ∷ [];
  ledger = first_credit ∷ [];
  funding_sources = source ∷ [];
  outbox = [];
}

pub store-IsSoundStore : IsSoundStore store
unfolding owns expected_balance ledger_delta ◌+ℤ◌
store-IsSoundStore = record {
  unique = (((λ e. ground (arith, e), refl), tt), (tt, tt));
  agreed = (refl, (refl, tt));
  solvent = (omega arith, (omega arith, tt));
}

pub store-IsFresh : IsFresh env.wallet_key store
store-IsFresh = record {
  new_wallet = (λ e. ground (arith, e), (λ e. ground (arith, e), tt));
  new_entries = refl;
}

abbrev pub transfer : CreateTransferRequest
transfer = record {
  idempotency_key = "k1";
  requesting_user_id = "alice";
  from_user_id = "alice";
  to_user_id = "bob";
  amount = RawAmount.number (Number.whole (pos 30));
  currency = "vnd";
  memo = "lunch";
  otp_code = "123456";
  is_external = false;
  external_partner = "";
  external_account_no = "";
}

abbrev pub transfer_order : TransferOrder
transfer_order = record {
  idempotency_key = "k1";
  requesting_user_id = "alice";
  from_user_id = "alice";
  to_user_id = "bob";
  amount = 30;
  currency = "VND";
  memo = "lunch";
  is_external = false;
  external_partner = none;
  external_account_no = none;
}

abbrev pub topup : CreateTopupIntentRequest
topup = record {
  idempotency_key = "k2";
  user_id = "alice";
  funding_source_id = "f1";
  amount = RawAmount.number (Number.whole (pos 40));
  currency = "VND";
  memo = "";
}

abbrev pub topup_order : TopupOrder
topup_order = record {
  idempotency_key = "k2";
  user_id = "alice";
  funding_source_id = "f1";
  amount = 40;
  currency = "VND";
  memo = "";
}

abbrev pub withdrawal : CreateWithdrawalRequest
withdrawal = record { topup = topup; simulate_failure = false }

abbrev pub withdrawal_order : WithdrawalOrder
withdrawal_order = record { topup = topup_order; simulate_failure = false }

abbrev pub outbox_config : OutboxConfig
outbox_config = record {
  batch_size = 50;
  workers = 2;
  lease_ms = 30000;
  max_retries = 3;
  initial_backoff_ms = 1000;
  max_backoff_ms = 60000;
}
