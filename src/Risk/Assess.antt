-- ===== src/Risk/Assess.antt =====
-- The cache and the decision of e-wallet/transaction-service/src/transactions/ato-risk.service.ts:
-- getDestinationStats, cacheDestinationStats, temporalFeatures, fallbackReasons, assessTransferRisk.
pub mod Cleared
use kufi_e_wallet_with_hyper.Prelude.{
  ℕ, ◌+◌, ◌-◌, ◌*◌, ◌/◌, ◌%◌, leb, ltb, ◌==◌, String, str_eq, text_append, Bool, true, false, not,
  ◌&&◌, ◌||◌, if◌then◌else◌, Option, none, some, or_else, List, [], ◌∷◌, ◌++◌, length, drop,
}
use kufi_e_wallet_with_hyper.Prelude.Int.{ℤ, pos, negsuc}
use kufi_e_wallet_with_hyper.Prelude.Text.{is_empty, trim, to_upper}
use kufi_e_wallet_with_hyper.Prelude.Text.Split.{join}
use kufi_e_wallet_with_hyper.Prelude.Rows.{find_one}
use kufi_e_wallet_with_hyper.Entities.{Wallet}
use kufi_e_wallet_with_hyper.Store.{Store, Result, ok, err, wallet_of}
use kufi_e_wallet_with_hyper.Risk.{
  AssessTransferRiskRequest, NormalizedRiskRequest, DestinationStats, AtoTransactionType,
  AtoFeatureVector, ScoreResponse, AtoModelResponse, AtoRiskAssessment, CacheEntry, StatsCache,
  RiskEnv, validate, query_stats,
}

destination_cache_key : NormalizedRiskRequest → String
destination_cache_key req =
    if req.is_external
    then join ":" ("external" ∷ req.currency ∷ req.external_partner ∷ req.external_account_no ∷ [])
    else join ":" ("wallet" ∷ req.currency ∷ req.to_user_id ∷ [])

-- `Map.set`
set_entry : CacheEntry → StatsCache → StatsCache
set_entry e [] = e ∷ []
set_entry e (x ∷ xs) = if str_eq x.key e.key then e ∷ xs else x ∷ set_entry e xs

-- The oldest key goes when there are too many.
unfoldable pub cache_destination_stats :
    RiskEnv → String → DestinationStats → StatsCache → StatsCache
unfolding set_entry
cache_destination_stats env key stats cache =
    let e : CacheEntry = record {
      key = key;
      expires_at_ms = env.now + env.stats_cache_ttl_ms;
      stats = stats;
    } in
    let grown = set_entry e cache in
    if env.stats_cache_ttl_ms == 0
    then cache
    else (if leb (length grown) env.stats_cache_max_entries then grown else drop 1 grown)

cached_stats : RiskEnv → Option CacheEntry → Option DestinationStats
cached_stats env none = none
cached_stats env (some e) = if ltb env.now e.expires_at_ms then some e.stats else none

stats_or_query :
    RiskEnv
    → NormalizedRiskRequest
    → Store
    → StatsCache
    → Option DestinationStats
    → DestinationStats × StatsCache
stats_or_query env req s cache (some stats) = (stats, cache)
stats_or_query env req s cache none =
    let stats = query_stats req s in
    (stats, cache_destination_stats env (destination_cache_key req) stats cache)

unfoldable pub get_destination_stats :
    RiskEnv → NormalizedRiskRequest → Store → StatsCache → DestinationStats × StatsCache
unfolding destination_cache_key cached_stats stats_or_query
get_destination_stats env req s cache = stats_or_query env req s cache (
    cached_stats env
      (find_one (λ (e : CacheEntry). str_eq e.key (destination_cache_key req)) cache))

to_model_type : NormalizedRiskRequest → AtoTransactionType
to_model_type req =
    if req.is_external then AtoTransactionType.cash_out else AtoTransactionType.transfer

abbrev type_code : AtoTransactionType → ℕ
type_code AtoTransactionType.cash_out = 1
type_code AtoTransactionType.transfer = 4

-- temporalFeatures: the hours of a month of 30 days
unfoldable pub step_of : RiskEnv → ℕ
step_of env = (env.now + env.timezone_offset_minutes * 60 * 1000) / (60 * 60 * 1000) % (30 * 24) + 1

unfoldable pub build_feature_vector :
    RiskEnv → NormalizedRiskRequest → ℤ → DestinationStats → AtoFeatureVector
unfolding to_model_type step_of
build_feature_vector env req balance stats = record {
  step = step_of env;
  amount = req.amount;
  oldbalance_org = balance;
  hour_of_day = (step_of env - 1) % 24;
  day_of_month = (step_of env - 1) / 24 + 1;
  type_encoded = type_code (to_model_type req);
  is_high_risk_type = 1;
  amount_log = env.log1p req.amount;
  destination = stats;
  dest_amount_spike_ratio =
      if stats.total_amount == 0 then "1" else env.spike_ratio req.amount stats;
}

model_response : Option ScoreResponse → Option AtoModelResponse
model_response none = none
model_response (some r) = elim r.probability [
  | none ↦ none
  | some probability ↦
      let verdict = to_upper (trim r.verdict) in
      if not r.response_ok || is_empty verdict
      then none
      else some (record {
        verdict = verdict;
        probability = probability;
        threshold = or_else r.threshold "0";
        model_version = r.model_version;
      })
]

-- callAtoModel; none where it throws.
unfoldable pub call_ato_model : RiskEnv → AtoFeatureVector → Option AtoModelResponse
unfolding model_response
call_ato_model env features =
    if env.service_configured then model_response (env.score features) else none

-- `senderBalance > 0 && amount >= senderBalance * 0.9`, with an exact product
abbrev pub near_balance : ℕ → ℤ → Bool
near_balance amount (pos b) = ltb 0 b && leb (b * 9) (amount * 10)
near_balance amount (negsuc b) = false

-- `avgAmount > 0 && amount >= avgAmount * 5`, with an exact average
abbrev pub spikes : ℕ → DestinationStats → Bool
spikes amount stats =
    ltb 0 stats.total_amount && leb (stats.total_amount * 5) (amount * stats.tx_count)

abbrev reason_if : Bool → String → List String
reason_if b reason = if b then reason ∷ [] else []

unfoldable pub fallback_reasons :
    RiskEnv → NormalizedRiskRequest → ℤ → DestinationStats → List String
fallback_reasons env req balance stats =
    reason_if (leb env.fallback_hard_amount req.amount) "amount_over_fallback_threshold"
    ++ (reason_if (near_balance req.amount balance) "amount_near_sender_balance"
        ++ reason_if (spikes req.amount stats) "destination_amount_spike")

abbrev pub some_reason : List String → Bool
some_reason [] = false
some_reason (r ∷ rs) = true

abbrev unavailable : AtoModelResponse
unavailable = record {
  verdict = "UNAVAILABLE";
  probability = "0";
  threshold = "0";
  model_version = "";
}

abbrev pub is_suspected : AtoModelResponse → Bool
is_suspected m = str_eq m.verdict "ATO_SUSPECTED"

-- The assessment with the answer of the model, or without
assessment :
    RiskEnv
    → NormalizedRiskRequest
    → ℤ
    → DestinationStats
    → Option AtoModelResponse
    → AtoRiskAssessment
unfolding to_model_type
assessment env req balance stats (some m) =
    let reasons = fallback_reasons env req balance stats in
    record {
      requires_step_up = is_suspected m || some_reason reasons;
      reasons = reason_if (is_suspected m) "ato_model_suspected" ++ reasons;
      model = m;
      model_type = to_model_type req;
      sender_balance = balance;
      destination = stats;
    }
assessment env req balance stats none =
    let reasons = fallback_reasons env req balance stats in
    let required = not env.fail_open || some_reason reasons in
    record {
      requires_step_up = required;
      reasons =
          if required
          then "ato_model_unavailable" ∷ reasons
          else "ato_model_unavailable_fail_open" ∷ [];
      model = unavailable;
      model_type = to_model_type req;
      sender_balance = balance;
      destination = stats;
    }

abbrev pub balance_of : Option Wallet → ℤ
balance_of none = pos 0
balance_of (some w) = w.balance

assess : RiskEnv → NormalizedRiskRequest → Store → StatsCache → AtoRiskAssessment × StatsCache
unfolding build_feature_vector assessment
assess env req s cache =
    let balance = balance_of (wallet_of req.from_user_id req.currency s) in
    let (stats, t) = get_destination_stats env req s cache in
    (
      assessment env req balance stats
          (call_ato_model env (build_feature_vector env req balance stats)),
      t,
    )

assess_valid :
    RiskEnv
    → Result NormalizedRiskRequest
    → Store
    → StatsCache
    → Result AtoRiskAssessment × StatsCache
unfolding assess
assess_valid env (err e) s cache = (err e, cache)
assess_valid env (ok req) s cache = let (a, t) = assess env req s cache in (ok a, t)

unfoldable pub assess_transfer_risk :
    RiskEnv → AssessTransferRiskRequest → Store → StatsCache → Result AtoRiskAssessment × StatsCache
unfolding assess_valid
assess_transfer_risk env r s cache = assess_valid env (validate env r) s cache
