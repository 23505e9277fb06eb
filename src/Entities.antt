-- ===== src/Entities.antt =====
-- The rows of the transaction service's tables: e-wallet/transaction-service/src, wallets/entities,
-- transactions/entities and events/entities. Keys that the database makes are numbers, since they
-- are only compared; a time is a number of milliseconds; `updatedAt`, which only the mapper writes
-- and no code reads, is left out.
use kufi_e_wallet_with_hyper.Prelude.{ℕ, String, Bool, true, false, Option}
use kufi_e_wallet_with_hyper.Prelude.Int.{ℤ}

pub data WalletStatus : Type 0 where
  active frozen : WalletStatus

abbrev pub is_active : WalletStatus → Bool
is_active WalletStatus.active = true
is_active WalletStatus.frozen = false

pub record Wallet : Type 0 where
  pub id : ℕ
  pub user_id : String
  pub currency : String
  pub balance : ℤ
  pub status : WalletStatus

pub data LedgerDirection : Type 0 where
  debit credit : LedgerDirection

abbrev pub is_credit : LedgerDirection → Bool
is_credit LedgerDirection.debit = false
is_credit LedgerDirection.credit = true

-- The key counts up, so the table's order is the order of the keys.
pub record LedgerEntry : Type 0 where
  pub transaction_id : ℕ
  pub wallet_id : ℕ
  pub direction : LedgerDirection
  pub amount : ℕ
  pub balance_before : ℤ
  pub balance_after : ℤ
  pub note : String

pub data TransactionType : Type 0 where
  transfer deposit withdrawal : TransactionType

abbrev pub is_deposit : TransactionType → Bool
is_deposit TransactionType.deposit = true
is_deposit _ = false

abbrev pub is_withdrawal : TransactionType → Bool
is_withdrawal TransactionType.withdrawal = true
is_withdrawal _ = false

pub data TransactionStatus : Type 0 where
  pending completed failed blocked : TransactionStatus

abbrev pub is_failed : TransactionStatus → Bool
is_failed TransactionStatus.failed = true
is_failed _ = false

abbrev pub is_completed : TransactionStatus → Bool
is_completed TransactionStatus.completed = true
is_completed _ = false

pub data SettlementStatus : Type 0 where
  not_needed pending settled failed : SettlementStatus

abbrev pub is_pending_settlement : SettlementStatus → Bool
is_pending_settlement SettlementStatus.pending = true
is_pending_settlement _ = false

abbrev pub is_settled : SettlementStatus → Bool
is_settled SettlementStatus.settled = true
is_settled _ = false

abbrev pub is_failed_settlement : SettlementStatus → Bool
is_failed_settlement SettlementStatus.failed = true
is_failed_settlement _ = false

pub data ChainStatus : Type 0 where
  pending anchored failed : ChainStatus

abbrev pub is_pending_chain : ChainStatus → Bool
is_pending_chain ChainStatus.pending = true
is_pending_chain _ = false

abbrev pub is_anchored : ChainStatus → Bool
is_anchored ChainStatus.anchored = true
is_anchored _ = false

abbrev pub is_failed_chain : ChainStatus → Bool
is_failed_chain ChainStatus.failed = true
is_failed_chain _ = false

pub record TransactionEntity : Type 0 where
  pub id : ℕ
  pub idempotency_key : String
  pub kind : TransactionType
  pub status : TransactionStatus
  pub settlement_status : SettlementStatus
  pub chain_status : ChainStatus
  pub requesting_user_id : String
  pub from_user_id : String
  pub to_user_id : Option String
  pub amount : ℕ
  pub currency : String
  pub memo : Option String
  pub is_external : Bool
  pub external_partner : Option String
  pub external_account_no : Option String
  pub external_ref : Option String
  pub chain_tx_id : Option String
  pub receipt_json : Option String
  pub chain_retry_count : ℕ
  pub chain_last_attempt_at : Option ℕ
  pub chain_next_attempt_at : Option ℕ
  pub error_code : Option String
  pub error_message : Option String
  pub created_at : ℕ

pub data FundingSourceStatus : Type 0 where
  active inactive : FundingSourceStatus

abbrev pub is_active_source : FundingSourceStatus → Bool
is_active_source FundingSourceStatus.active = true
is_active_source FundingSourceStatus.inactive = false

-- A client names a funding source by its key, so this key is a text.
pub record FundingSource : Type 0 where
  pub id : String
  pub user_id : String
  pub provider : String
  pub account_ref_masked : String
  pub account_ref_hash : String
  pub provider_token : Option String
  pub display_name : Option String
  pub status : FundingSourceStatus
  pub created_at : ℕ

pub data EventType : Type 0 where
  transaction_failed transaction_completed transaction_pending chain_completed : EventType

-- The JSON of an event: what it says of the transaction, and the balances at that moment.
pub record EventPayload : Type 0 where
  pub event_type : EventType
  pub transaction : TransactionEntity
  pub sender_balance : Option ℤ
  pub receiver_balance : Option ℤ

pub data OutboxStatus : Type 0 where
  pending published failed : OutboxStatus

abbrev pub is_pending_event : OutboxStatus → Bool
is_pending_event OutboxStatus.pending = true
is_pending_event _ = false

-- Every event has the aggregate type TRANSACTION, and the transaction's key as its aggregate.
pub record OutboxEvent : Type 0 where
  pub id : ℕ
  pub aggregate_id : ℕ
  pub event_type : EventType
  pub payload : EventPayload
  pub status : OutboxStatus
  pub attempts : ℕ
  pub next_attempt_at : ℕ
  pub leased_until : Option ℕ
  pub last_error : Option String
  pub published_at : Option ℕ
  pub created_at : ℕ
