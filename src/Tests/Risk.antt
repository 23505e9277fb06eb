-- ===== src/Tests/Risk.antt =====
-- The risk of transfers from a sender with a small database.
use kufi_e_wallet_with_hyper.Prelude.{true, false, none, some, [], ◌≡◌, refl}
use kufi_e_wallet_with_hyper.Prelude.Int.{pos}
use kufi_e_wallet_with_hyper.Prelude.Text.{trim, to_upper, text_length}
use kufi_e_wallet_with_hyper.Store.{Store, ok, owns}
use kufi_e_wallet_with_hyper.Risk.{
  RiskAmount, AssessTransferRiskRequest, AtoTransactionType, AtoRiskAssessment, RiskEnv, validate,
  query_stats,
}
use kufi_e_wallet_with_hyper.Risk.Assess.{
  get_destination_stats, fallback_reasons, call_ato_model, cache_destination_stats,
  assess_transfer_risk,
}
use kufi_e_wallet_with_hyper.Risk.Assess.Cleared.{Cleared, assess_transfer_risk-Cleared}

abbrev risk_env : RiskEnv
risk_env = record {
  service_configured = true;
  fail_open = false;
  timezone_offset_minutes = 420;
  stats_cache_ttl_ms = 5000;
  stats_cache_max_entries = 10;
  fallback_hard_amount = 1000;
  floor_of_text = λ t. none;
  log1p = λ n. "";
  spike_ratio = λ n stats. "";
  score = λ features. some (record {
    response_ok = true;
    verdict = "ok";
    probability = some "0.1";
    threshold = none;
    model_version = "v1";
  });
  now = 0;
}

abbrev risk_request : AssessTransferRiskRequest
risk_request = record {
  requesting_user_id = "u1";
  from_user_id = "u1";
  to_user_id = "u2";
  amount = RiskAmount.number (some (pos 700));
  currency = "";
  is_external = false;
  external_partner = "";
  external_account_no = "";
}

abbrev nobody : Store
nobody = record { wallets = []; transactions = []; ledger = []; funding_sources = []; outbox = [] }

abbrev no_step_up : AtoRiskAssessment
no_step_up = record {
  requires_step_up = false;
  reasons = [];
  model = record { verdict = "OK"; probability = "0.1"; threshold = "0"; model_version = "v1" };
  model_type = AtoTransactionType.transfer;
  sender_balance = pos 0;
  destination = record { tx_count = 0; total_amount = 0; unique_senders = 0 };
}

small_passes : (assess_transfer_risk risk_env risk_request nobody []).0 ≡ ok no_step_up
unfolding assess_transfer_risk validate trim to_upper text_length get_destination_stats query_stats
    cache_destination_stats call_ato_model fallback_reasons owns
small_passes = refl

assess_transfer_risk-Cleared_example : Cleared risk_env risk_request nobody []
assess_transfer_risk-Cleared_example =
    assess_transfer_risk-Cleared risk_env risk_request nobody [] no_step_up small_passes refl
