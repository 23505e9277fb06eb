-- ===== src/Risk/Assess/Cleared.antt =====
-- What it means that ato-risk.service.ts lets a transfer pass without a step-up.
use mathlib.Core.Path.{subst}
use kufi_e_wallet_with_hyper.Prelude.{
  ℕ, arith, ◌+◌, ◌≤◌, ◌<◌, leb, length, drop, String, Bool, true, false, not, ◌||◌, Option, none,
  zero, suc, ltb, inl, inr, Bool-cases, ◌*◌, str_eq, eq_iff, ◌&&◌, ◌≢◌, some, [], ◌∷◌, ◌++◌, ◌≡◌,
  refl, ap, ◌∙◌, ◌-◌,
}
use kufi_e_wallet_with_hyper.Prelude.Int.{ℤ, pos, negsuc}
use kufi_e_wallet_with_hyper.Prelude.Text.{is_empty, or_text, trim, to_upper, text_length}
use kufi_e_wallet_with_hyper.Store.{Store, Result, ok, err, wallet_of}
use kufi_e_wallet_with_hyper.Risk.{
  CacheEntry, AssessTransferRiskRequest, NormalizedRiskRequest, DestinationStats, AtoModelResponse,
  AtoRiskAssessment, StatsCache, RiskEnv, validate, positive_amount, normalize_amount,
  validate_amount, validate_rest,
}
use kufi_e_wallet_with_hyper.Risk.Assess.{
  set_entry, cache_destination_stats, near_balance, spikes, reason_if, fallback_reasons,
  some_reason, is_suspected, assessment, balance_of, assess, assess_valid, assess_transfer_risk,
  get_destination_stats, call_ato_model, build_feature_vector, set_entry, cache_destination_stats,
}

-- No reason of the fixed rules: the amount is below the threshold, below nine tenths of a balance above
-- 0, and below five times an average above 0 (`total_amount / tx_count`).
pub record IsSmall (env : RiskEnv) (amount : ℕ) (balance : ℤ) (stats : DestinationStats)
    : Type 0 where
  pub below_threshold : amount < env.fallback_hard_amount
  pub below_balance : (b : ℕ) → balance ≡ pos b → 0 < b → amount * 10 < b * 9
  pub below_average : 0 < stats.total_amount → amount * stats.tx_count < stats.total_amount * 5

-- The model has answered without suspicion, or is not there and the service is set to pass then.
pub data Passed (env : RiskEnv) : Option AtoModelResponse → Type 0 where
  unsuspected : (m : AtoModelResponse) → m.verdict ≢ "ATO_SUSPECTED" → Passed env (some m)
  failed_open : env.fail_open ≡ true → Passed env none

-- The request is the sender's own, with its parts trimmed, a positive amount, a receiver, a currency of
-- 1 to 16 units, and a partner and an account if it is external.
pub record IsOwn (r : AssessTransferRiskRequest) (req : NormalizedRiskRequest) : Type 0 where
  pub own : trim r.requesting_user_id ≡ trim r.from_user_id
  pub sender : req.from_user_id ≡ trim r.from_user_id
  pub receiver : req.to_user_id ≡ trim r.to_user_id
  pub has_sender : is_empty req.from_user_id ≡ false
  pub has_receiver : is_empty req.to_user_id ≡ false
  pub positive : 0 < req.amount
  pub has_currency : is_empty req.currency ≡ false
  pub short_currency : text_length req.currency ≤ 16
  pub partner :
      req.is_external ≡ true
      → (is_empty req.external_partner ≡ false) × (is_empty req.external_account_no ≡ false)

positive_amount-positive : (a : Option ℤ) (n : ℕ) → positive_amount a ≡ some n → 0 < n
unfolding positive_amount
positive_amount-positive none n h = ground arith
positive_amount-positive (some (pos zero)) n h = ground arith
positive_amount-positive (some (pos (suc m))) n h = ground (arith, h)
positive_amount-positive (some (negsuc m)) n h = ground arith

abbrev parties_ok : AssessTransferRiskRequest → Bool
parties_ok r =
    not (
      is_empty (trim r.requesting_user_id)
      || is_empty (trim r.from_user_id)
      || is_empty (trim r.to_user_id))
    && str_eq (trim r.requesting_user_id) (trim r.from_user_id)

module _ (r : AssessTransferRiskRequest) (n : ℕ) where
  abbrev currency_of : String
  currency_of = to_upper (trim (or_text r.currency "VND"))

  -- The request that validateRest lets through
  abbrev normalized : NormalizedRiskRequest
  normalized = record {
    from_user_id = trim r.from_user_id;
    to_user_id = trim r.to_user_id;
    amount = n;
    currency = currency_of;
    is_external = r.is_external;
    external_partner = trim r.external_partner;
    external_account_no = trim r.external_account_no;
  }

  abbrev bad_currency : Bool
  bad_currency = is_empty currency_of || ltb 16 (text_length currency_of)

  abbrev bad_partner : Bool
  bad_partner =
      r.is_external && (is_empty (trim r.external_partner) || is_empty (trim r.external_account_no))

  validate_rest-ok :
      (req : NormalizedRiskRequest)
      → validate_rest r n ≡ ok req
      → (bad_currency ≡ false) × (bad_partner ≡ false) × (normalized ≡ req)
  unfolding validate_rest
  validate_rest-ok req h = elim (Bool-cases bad_currency) [
    | inl bad ↦ ground (arith, h, bad)
    | inr good ↦ elim (Bool-cases bad_partner) [
      | inl bad ↦ ground (arith, h, good, bad)
      | inr fine ↦ (good, fine, ground (arith, h, good, fine))
    ]
  ]

  normalized-IsOwn :
      parties_ok r ≡ true → 0 < n → bad_currency ≡ false → bad_partner ≡ false → IsOwn r normalized
  normalized-IsOwn parties positive good fine = record {
    own = ground (arith, parties, eq_iff (trim r.requesting_user_id) (trim r.from_user_id));
    sender = refl;
    receiver = refl;
    has_sender = ground (arith, parties);
    has_receiver = ground (arith, parties);
    positive = positive;
    has_currency = ground (arith, good);
    short_currency = ground (arith, good);
    partner = λ e. ground (arith, fine, e);
  }

validate_amount-IsOwn :
    (r : AssessTransferRiskRequest) (amount : Option ℕ) (req : NormalizedRiskRequest)
    → ((n : ℕ) → amount ≡ some n → 0 < n)
    → parties_ok r ≡ true
    → validate_amount r amount ≡ ok req
    → IsOwn r req
unfolding validate_amount
validate_amount-IsOwn r none req above parties h = ground arith
validate_amount-IsOwn r (some n) req above parties h =
    let rest = validate_rest-ok r n req h in
    subst (IsOwn r) rest.2 (normalized-IsOwn r n parties (above n refl) rest.0 rest.1)

validate-IsOwn :
    (env : RiskEnv) (r : AssessTransferRiskRequest) (req : NormalizedRiskRequest)
    → validate env r ≡ ok req
    → IsOwn r req
unfolding validate
validate-IsOwn env r req h = elim (Bool-cases (parties_ok r)) [
  | inl agreed ↦
      validate_amount-IsOwn r (positive_amount (normalize_amount env r.amount)) req
        (positive_amount-positive (normalize_amount env r.amount)) agreed
        (ground (arith, h, agreed))
  | inr bad ↦ ground (arith, h, bad)
]

no_reasons :
    (a b c : Bool) (x y z : String)
    → some_reason (reason_if a x ++ (reason_if b y ++ reason_if c z)) ≡ false
    → (a ≡ false) × (b ≡ false) × (c ≡ false)
no_reasons a b c x y z h = ground arith

fallback_reasons-IsSmall :
    (env : RiskEnv) (req : NormalizedRiskRequest) (balance : ℤ) (stats : DestinationStats)
    → some_reason (fallback_reasons env req balance stats) ≡ false
    → IsSmall env req.amount balance stats
unfolding fallback_reasons
fallback_reasons-IsSmall env req balance stats h =
    let none_of =
      no_reasons (leb env.fallback_hard_amount req.amount) (near_balance req.amount balance)
        (spikes req.amount stats) "amount_over_fallback_threshold" "amount_near_sender_balance"
        "destination_amount_spike" h in
    record {
      below_threshold = ground (arith, none_of.0);
      below_balance = λ b e positive. ground (arith, none_of.1, e, positive);
      below_average = λ positive. ground (arith, none_of.2, positive);
    }

or_false : (a b : Bool) → (a || b) ≡ false → (a ≡ false) × (b ≡ false)
or_false a b h = ground arith

not-false : (a : Bool) → not a ≡ false → a ≡ true
not-false a h = ground arith

assessment-Cleared :
    (env : RiskEnv) (req : NormalizedRiskRequest) (balance : ℤ) (stats : DestinationStats)
    (m : Option AtoModelResponse)
    → (assessment env req balance stats m).requires_step_up ≡ false
    → Passed env m × IsSmall env req.amount balance stats
unfolding assessment
assessment-Cleared env req balance stats (some m) h =
    let parts =
      or_false (is_suspected m) (some_reason (fallback_reasons env req balance stats)) h in
    (
      unsuspected m (λ e. ground (arith, parts.0, eq_iff m.verdict "ATO_SUSPECTED", e)),
      fallback_reasons-IsSmall env req balance stats parts.1,
    )
assessment-Cleared env req balance stats none h =
    let parts =
      or_false (not env.fail_open) (some_reason (fallback_reasons env req balance stats)) h in
    (
      failed_open (not-false env.fail_open parts.0),
      fallback_reasons-IsSmall env req balance stats parts.1,
    )

-- The balance of the sender and the statistics that a request is judged by
abbrev sender_balance : NormalizedRiskRequest → Store → ℤ
sender_balance req s = balance_of (wallet_of req.from_user_id req.currency s)

abbrev stats_for : RiskEnv → NormalizedRiskRequest → Store → StatsCache → DestinationStats
stats_for env req s cache = (get_destination_stats env req s cache).0

-- What is known of a transfer that passes
pub record Cleared (env : RiskEnv) (r : AssessTransferRiskRequest) (s : Store) (cache : StatsCache)
    : Type 0 where
  pub req : NormalizedRiskRequest
  pub accepted : validate env r ≡ ok req
  pub own : IsOwn r req
  pub passed : Passed env (
      call_ato_model env
        (build_feature_vector env req (sender_balance req s) (stats_for env req s cache)))
  pub small : IsSmall env req.amount (sender_balance req s) (stats_for env req s cache)

required_of : Result AtoRiskAssessment → Bool
required_of (ok a) = a.requires_step_up
required_of (err e) = true

assess_valid-Cleared :
    (env : RiskEnv) (r : AssessTransferRiskRequest) (s : Store) (cache : StatsCache)
    (checked : Result NormalizedRiskRequest)
    → validate env r ≡ checked
    → required_of (assess_valid env checked s cache).0 ≡ false
    → Cleared env r s cache
unfolding assess_valid assess required_of
assess_valid-Cleared env r s cache (err e) v h = ground arith
assess_valid-Cleared env r s cache (ok req) v h =
    let balance = sender_balance req s in
    let stats = stats_for env req s cache in
    let known =
      assessment-Cleared env req balance stats
        (call_ato_model env (build_feature_vector env req balance stats)) h in
    record {
      req = req;
      accepted = v;
      own = validate-IsOwn env r req v;
      passed = known.0;
      small = known.1;
    }

-- A transfer that assessTransferRisk asks no step-up for is of the user who asks, with a positive
-- amount, a receiver, a currency of 1 to 16 units, and a partner and an account if it is external. Its
-- amount is below the threshold, below nine tenths of the sender's balance where that is above 0, and
-- below five times the average of the destination where that is above 0; and the model has answered with
-- another verdict than ATO_SUSPECTED, or gave no answer and the service is set to pass then.
pub assess_transfer_risk-Cleared :
    (env : RiskEnv) (r : AssessTransferRiskRequest) (s : Store) (cache : StatsCache)
    (a : AtoRiskAssessment)
    → (assess_transfer_risk env r s cache).0 ≡ ok a
    → a.requires_step_up ≡ false
    → Cleared env r s cache
unfolding assess_transfer_risk required_of
assess_transfer_risk-Cleared env r s cache a h k =
    assess_valid-Cleared env r s cache (validate env r) refl (ap required_of h ∙ k)

length-set_entry :
    (e : CacheEntry) (cache : StatsCache) → length (set_entry e cache) ≤ length cache + 1
unfolding set_entry
length-set_entry e [] = ground arith
length-set_entry e (x ∷ xs) = ground (arith, length-set_entry e xs)

length-drop_one : (cache : StatsCache) → length (drop 1 cache) ≡ length cache - 1
length-drop_one [] = refl
length-drop_one (x ∷ xs) = ground arith

-- The cache never grows beyond its limit.
cache_destination_stats-bound :
    (env : RiskEnv) (key : String) (stats : DestinationStats) (cache : StatsCache)
    → length cache ≤ env.stats_cache_max_entries
    → length (cache_destination_stats env key stats cache) ≤ env.stats_cache_max_entries
unfolding cache_destination_stats
cache_destination_stats-bound env key stats cache h =
    let e : CacheEntry = record {
      key = key;
      expires_at_ms = env.now + env.stats_cache_ttl_ms;
      stats = stats;
    } in
    ground (arith, length-set_entry e cache, length-drop_one (set_entry e cache))
