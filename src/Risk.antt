-- ===== src/Risk.antt =====
-- The risk of a transfer, e-wallet/transaction-service/src/transactions/ato-risk.service.ts: the checks
-- of a request, the statistics of its destination and their cache, and the decision to ask for more.
pub mod Assess
use kufi_e_wallet_with_hyper.Prelude.{
  ℕ, suc, ◌+◌, ◌-◌, ◌*◌, ◌/◌, ◌%◌, ◌^◌, leb, ltb, ◌==◌, String, str_eq, text_append, Bool, true,
  false, not, ◌&&◌, ◌||◌, if◌then◌else◌, Option, none, some, or_else, List, [], ◌∷◌, ◌++◌, length,
}
use kufi_e_wallet_with_hyper.Prelude.Int.{ℤ, pos, eqb_ℤ}
use kufi_e_wallet_with_hyper.Prelude.Text.{is_empty, or_text, trim, to_upper, text_length}
use kufi_e_wallet_with_hyper.Prelude.Rows.{select}
use kufi_e_wallet_with_hyper.Requests.{to_uint32}
use kufi_e_wallet_with_hyper.Entities.{Wallet, TransactionEntity, is_failed}
use kufi_e_wallet_with_hyper.Store.{Store, Result, Error, bad_request, ok, err, wallet_of}

-- A number by its floor, none where it is not finite; a text; or an int64 by its halves
pub data RiskAmount : Type 0 where
  number : Option ℤ → RiskAmount
  text : String → RiskAmount
  int64 : (low : ℤ) → (high : ℤ) → (unsigned : Bool) → RiskAmount
  absent : RiskAmount

pub record AssessTransferRiskRequest : Type 0 where
  pub requesting_user_id : String
  pub from_user_id : String
  pub to_user_id : String
  pub amount : RiskAmount
  pub currency : String
  pub is_external : Bool
  pub external_partner : String
  pub external_account_no : String

-- `deviceId`, which nothing reads, is left out.
pub record NormalizedRiskRequest : Type 0 where
  pub from_user_id : String
  pub to_user_id : String
  pub amount : ℕ
  pub currency : String
  pub is_external : Bool
  pub external_partner : String
  pub external_account_no : String

-- The average is `total_amount / tx_count`, or 0 of no transactions.
pub record DestinationStats : Type 0 where
  pub tx_count : ℕ
  pub total_amount : ℕ
  pub unique_senders : ℕ

pub data AtoTransactionType : Type 0 where
  cash_out transfer : AtoTransactionType

-- What the scoring model gets; the logarithm and the ratio are doubles, by their texts.
pub record AtoFeatureVector : Type 0 where
  pub step : ℕ
  pub amount : ℕ
  pub oldbalance_org : ℤ
  pub hour_of_day : ℕ
  pub day_of_month : ℕ
  pub type_encoded : ℕ
  pub is_high_risk_type : ℕ
  pub amount_log : String
  pub destination : DestinationStats
  pub dest_amount_spike_ratio : String

-- The answer of the service, its numbers by their texts; none is no finite number.
pub record ScoreResponse : Type 0 where
  pub response_ok : Bool
  pub verdict : String
  pub probability : Option String
  pub threshold : Option String
  pub model_version : String

pub record AtoModelResponse : Type 0 where
  pub verdict : String
  pub probability : String
  pub threshold : String
  pub model_version : String

pub record AtoRiskAssessment : Type 0 where
  pub requires_step_up : Bool
  pub reasons : List String
  pub model : AtoModelResponse
  pub model_type : AtoTransactionType
  pub sender_balance : ℤ
  pub destination : DestinationStats

pub record CacheEntry : Type 0 where
  pub key : String
  pub expires_at_ms : ℕ
  pub stats : DestinationStats

-- A map keeps its keys in the order of their first insertion.
abbrev pub StatsCache : Type 0
StatsCache = List CacheEntry

-- The settings, as whole numbers (the offset of the time zone not below 0), the arithmetic of doubles,
-- and the scoring service: none where the call throws.
pub record RiskEnv : Type 0 where
  pub service_configured : Bool
  pub fail_open : Bool
  pub timezone_offset_minutes : ℕ
  pub stats_cache_ttl_ms : ℕ
  pub stats_cache_max_entries : ℕ
  pub fallback_hard_amount : ℕ
  pub floor_of_text : String → Option ℤ
  pub log1p : ℕ → String
  pub spike_ratio : ℕ → DestinationStats → String
  pub score : AtoFeatureVector → Option ScoreResponse
  pub now : ℕ

normalize_amount : RiskEnv → RiskAmount → Option ℤ
unfolding to_uint32
normalize_amount env (number n) = n
normalize_amount env (text t) = if is_empty (trim t) then none else env.floor_of_text t
normalize_amount env (int64 low high unsigned) =
    if eqb_ℤ high (pos 0) then some (if unsigned then to_uint32 low else low) else none
normalize_amount env absent = none

positive_amount : Option ℤ → Option ℕ
positive_amount (some (pos (suc n))) = some (suc n)
positive_amount _ = none

-- The checks that follow the one of the amount
validate_rest : AssessTransferRiskRequest → ℕ → Result NormalizedRiskRequest
validate_rest r amount =
    let currency = to_upper (trim (or_text r.currency "VND")) in
    let partner = trim r.external_partner in
    let account = trim r.external_account_no in
    if is_empty currency || ltb 16 (text_length currency)
    then err (bad_request "currency is invalid")
    else (if r.is_external && (is_empty partner || is_empty account)
        then err (bad_request "external transfer requires externalPartner and externalAccountNo")
        else ok (record {
          from_user_id = trim r.from_user_id;
          to_user_id = trim r.to_user_id;
          amount = amount;
          currency = currency;
          is_external = r.is_external;
          external_partner = partner;
          external_account_no = account;
        }))

validate_amount : AssessTransferRiskRequest → Option ℕ → Result NormalizedRiskRequest
unfolding validate_rest
validate_amount r none = err (bad_request "amount must be positive integer")
validate_amount r (some amount) = validate_rest r amount

unfoldable pub validate : RiskEnv → AssessTransferRiskRequest → Result NormalizedRiskRequest
unfolding normalize_amount positive_amount validate_amount
validate env r =
    let requester = trim r.requesting_user_id in
    let from = trim r.from_user_id in
    if is_empty requester || is_empty from || is_empty (trim r.to_user_id)
    then err (bad_request "requestingUserId, fromUserId, toUserId required")
    else (if not (str_eq requester from)
        then err (bad_request "requestingUserId must match fromUserId")
        else validate_amount r (positive_amount (normalize_amount env r.amount)))

-- The transactions that count for a destination
counts : NormalizedRiskRequest → TransactionEntity → Bool
counts req tx =
    str_eq tx.currency req.currency
    && not (is_failed tx.status)
    && (if req.is_external
        then tx.is_external && elim tx.external_account_no [
          | none ↦ false
          | some account ↦ str_eq account req.external_account_no
        ]
        else elim tx.to_user_id [ none ↦ false | some user ↦ str_eq user req.to_user_id ])

total : List TransactionEntity → ℕ
total [] = 0
total (tx ∷ txs) = tx.amount + total txs

sends : String → List TransactionEntity → Bool
sends user [] = false
sends user (tx ∷ txs) = str_eq tx.from_user_id user || sends user txs

distinct_senders : List TransactionEntity → ℕ
unfolding sends
distinct_senders [] = 0
distinct_senders (tx ∷ txs) =
    let rest = distinct_senders txs in if sends tx.from_user_id txs then rest else suc rest

unfoldable pub query_stats : NormalizedRiskRequest → Store → DestinationStats
unfolding counts total distinct_senders
query_stats req s =
    let txs = select (counts req) s.transactions in
    record {
      tx_count = length txs;
      total_amount = total txs;
      unique_senders = distinct_senders txs;
    }
