-- ===== src/Store.antt =====
-- The database of the transaction service, its DB transactions, and what the service gets from
-- outside: the clock, new keys, random numbers and the two gRPC services that it calls.
pub mod Post
use kufi_e_wallet_with_hyper.Prelude.{
  ℕ, String, str_eq, Bool, true, false, ◌&&◌, Option, none, some, List, [], ◌∷◌, ◌++◌, ◌==◌,
  if◌then◌else◌, is_some,
}
use kufi_e_wallet_with_hyper.Prelude.Int.{ℤ}
use kufi_e_wallet_with_hyper.Prelude.Rows.{find_one, save}
use kufi_e_wallet_with_hyper.Entities.{
  Wallet, WalletStatus, LedgerEntry, TransactionEntity, FundingSource, OutboxEvent,
}

pub record Store : Type 0 where
  pub wallets : List Wallet
  pub transactions : List TransactionEntity
  pub ledger : List LedgerEntry
  pub funding_sources : List FundingSource
  pub outbox : List OutboxEvent

-- `BadRequestException`, a unique index that refuses a row, and the read of a field of `undefined`.
pub data Error : Type 0 where
  bad_request : String → Error
  query_failed : Error
  type_error : Error

pub data Result {ℓ} (A : Type ℓ) : Type ℓ where
  ok : A → Result A
  err : Error → Result A

abbrev is_ok {ℓ} : {A : Type ℓ} → Result A → Bool
is_ok (ok a) = true
is_ok (err e) = false

-- A method: it changes the tables, and returns a value or throws.
abbrev pub Method : Type 0 → Type 0
Method A = Store → Result A × Store

module _ {A : Type 0} where
  abbrev pub pure : A → Method A
  pure a s = (ok a, s)

  abbrev pub throw : Error → Method A
  throw e s = (err e, s)

  abbrev pub gets : (Store → A) → Method A
  gets f s = (ok (f s), s)

  abbrev pub of_result : Result A → Method A
  of_result r s = (r, s)

  abbrev settle : Store → Result A × Store → Result A × Store
  settle s (ok a, t) = (ok a, t)
  settle s (err e, t) = (err e, s)

  -- startTransaction, and commitTransaction or, after a throw, rollbackTransaction
  abbrev pub transactional : Method A → Method A
  transactional m s = settle s (m s)

abbrev pub modify : (Store → Store) → Method (Unit {0})
modify f s = (ok tt, f s)

infixl 5 ◌>>=◌ ◌>>◌
abbrev pub ◌>>=◌ : {A B : Type 0} → Method A → (A → Method B) → Method B
◌>>=◌ m f s = let (r, t) = m s in elim r [ ok a ↦ f a t | err e ↦ (err e, t) ]

abbrev pub ◌>>◌ : {A B : Type 0} → Method A → Method B → Method B
m >> k = m >>= λ _. k

-- `if (test) throw new BadRequestException(message)`
abbrev pub throw_if : Bool → String → Method (Unit {0})
throw_if true message = throw (bad_request message)
throw_if false message = pure tt

-- What a call of another service comes to: its response, or the message of the error.
pub data Reply {ℓ} (A : Type ℓ) : Type ℓ where
  response : A → Reply A
  failure : String → Reply A

pub record InitiateTransferRequest : Type 0 where
  pub transaction_id : ℕ
  pub partner_code : String
  pub account_no : String
  pub amount : ℕ
  pub currency : String
  pub note : Option String
  pub transfer_type : String

pub record InitiateTransferResponse : Type 0 where
  pub status : String
  pub partner_ref : String
  pub partner_message : String

-- `settlementRef` is the partner's reference, or else the transaction's own key.
pub data SettlementRef : Type 0 where
  partner : String → SettlementRef
  own : ℕ → SettlementRef

-- The nonce, a random text that nothing reads again, is left out.
pub record AnchorTransferRequest : Type 0 where
  pub transaction_id : ℕ
  pub from_user_id : String
  pub to_user_id : String
  pub amount : ℕ
  pub memo : String
  pub internal_ref : ℕ
  pub settlement_ref : SettlementRef
  pub timestamp : ℕ
  pub idempotency_key : String
  pub high_risk : Bool

pub record AnchorTransferResponse : Type 0 where
  pub chain_status : String
  pub tx_id : String
  pub receipt_json : String

pub record ChainService : Type 0 where
  pub anchor_transfer : AnchorTransferRequest → Reply AnchorTransferResponse
  pub get_receipt : String → Reply AnchorTransferResponse

-- The settings that the constructor reads, as whole numbers.
pub record Config : Type 0 where
  pub chain_risk_high_amount : ℕ
  pub chain_async_enabled : Bool
  pub chain_async_batch_size : ℕ
  pub chain_async_workers : ℕ
  pub chain_async_lease_ms : ℕ
  pub chain_async_initial_backoff_ms : ℕ
  pub chain_async_max_backoff_ms : ℕ
  pub chain_async_max_retries : ℕ
  pub chain_external_source_user_id : String
  pub chain_external_sink_user_id : String

-- What one call of a method sees from outside. `random` is the numerator of `Math.random()` over
-- 2 ^ 53; `locale_le` is the order of `localeCompare`; a service is `none` before `onModuleInit`.
pub record Env : Type 0 where
  pub config : Config
  pub now : ℕ
  pub random : ℕ
  pub wallet_key : ℕ
  pub transaction_key : ℕ
  pub funding_key : String
  pub event_key : ℕ
  pub chain_event_key : ℕ
  pub locale_le : String → String → Bool
  pub sha256_hex : String → String
  pub outside_payment : Option (InitiateTransferRequest → Reply InitiateTransferResponse)
  pub chain : Option ChainService

-- where: { userId, currency }
unfoldable pub owns : String → String → Wallet → Bool
owns user currency w = str_eq w.user_id user && str_eq w.currency currency

abbrev pub wallet_of : String → String → Store → Option Wallet
wallet_of user currency s = find_one (owns user currency) s.wallets

unfoldable pub has_key : String → TransactionEntity → Bool
has_key key tx = str_eq tx.idempotency_key key

abbrev pub transaction_of_key : String → Store → Option TransactionEntity
transaction_of_key key s = find_one (has_key key) s.transactions

abbrev pub transaction_of_id : ℕ → Store → Option TransactionEntity
transaction_of_id id s = find_one (λ tx. tx.id == id) s.transactions

abbrev pub save_wallet : Wallet → Method (Unit {0})
save_wallet w = modify λ s. record s { wallets = save (λ r. r.id) w s.wallets }

abbrev pub save_transaction : TransactionEntity → Method TransactionEntity
save_transaction tx s = (ok tx, record s { transactions = save (λ r. r.id) tx s.transactions })

abbrev pub add_entries : List LedgerEntry → Method (Unit {0})
add_entries entries = modify λ s. record s { ledger = s.ledger ++ entries }

-- The insert of a new row. The unique index on (userId, currency) may refuse it.
unfoldable pub insert_wallet : Wallet → Method Wallet
insert_wallet w s =
    if is_some (wallet_of w.user_id w.currency s)
    then (err query_failed, s)
    else (ok w, record s { wallets = s.wallets ++ w ∷ [] })

-- The unique index on idempotencyKey may refuse the row.
unfoldable pub insert_transaction : TransactionEntity → Method TransactionEntity
insert_transaction tx s =
    if is_some (transaction_of_key tx.idempotency_key s)
    then (err query_failed, s)
    else (ok tx, record s { transactions = s.transactions ++ tx ∷ [] })

-- `create` of a wallet with no money in it
abbrev pub new_wallet : Env → String → String → Wallet
new_wallet env user currency = record {
  id = env.wallet_key;
  user_id = user;
  currency = currency;
  balance = ℤ.pos 0;
  status = WalletStatus.active;
}

-- `catch (error) { if (error instanceof QueryFailedError) … throw error; }`
abbrev pub on_query_failed : {A : Type 0} → Method A → Result A × Store → Result A × Store
on_query_failed handler (ok a, s) = (ok a, s)
on_query_failed handler (err query_failed, s) = handler s
on_query_failed handler (err e, s) = (err e, s)

-- `wallet?.balance ?? 0`
abbrev pub balance_or_zero : Option Wallet → ℤ
balance_or_zero none = ℤ.pos 0
balance_or_zero (some w) = w.balance
