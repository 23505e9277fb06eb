-- ===== src/Tests/Poll.antt =====
-- The settlement service, over a transaction service that notes what is reported to it.
use kufi_e_wallet_with_hyper.Prelude.{
  ℕ, String, str_eq, true, false, none, List, [], ◌∷◌, if◌then◌else◌,
}
use kufi_e_wallet_with_hyper.Store.{Reply, response, failure}
use kufi_e_wallet_with_hyper.Poller.{
  Candidate, CheckTransferResponse, TransactionService, PollerConfig, process_candidate,
  reconcile_pending_transfers,
}
use kufi_e_wallet_with_hyper.Poller.Reports.{
  CountsAll, reconcile_pending_transfers-CountsAll, Handled, process_candidate-Handled,
}

abbrev with_reference : Candidate
with_reference = record { transaction_id = 11; external_partner = "BANK"; external_ref = "P1" }

abbrev without_reference : Candidate
without_reference = record { transaction_id = 12; external_partner = "BANK"; external_ref = "" }

abbrev Notes : Type 0
Notes = List (ℕ × String)

abbrev noting : TransactionService Notes
noting = record {
  list_settlement_candidates =
      λ limit notes. (response (with_reference ∷ without_reference ∷ []), notes);
  mark_settlement = λ id status note notes. (response true, (id, status) ∷ notes);
  reconcile_wallets =
      λ limit auto_fix notes. (response (record { scanned = 0; mismatches = 0; fixed = 0 }), notes);
}

abbrev bank : String → String → Reply CheckTransferResponse
bank partner ref =
    if str_eq ref "P1"
    then response (record { status = "SETTLED"; partner_message = "paid" })
    else failure "unknown"

abbrev poller_config : PollerConfig
poller_config = record {
  settlement_batch_size = 100;
  reconcile_limit = 500;
  reconcile_autofix = false;
}

reconcile_pending_transfers-CountsAll_example :
    CountsAll noting bank (reconcile_pending_transfers noting bank poller_config true none [])
reconcile_pending_transfers-CountsAll_example =
    reconcile_pending_transfers-CountsAll noting bank poller_config true none []

process_candidate-Handled_example :
    Handled noting bank without_reference [] (process_candidate noting bank without_reference [])
process_candidate-Handled_example = process_candidate-Handled noting bank without_reference []
