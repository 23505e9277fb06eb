-- ===== src/Partners/Check.antt =====
-- checkTransfer of transfers.service.ts, and the mock partner that settles after a delay.
pub mod News
pub mod Unreachable
use kufi_e_wallet_with_hyper.Prelude.{
  ℕ, zero, suc, ◌+◌, ◌*◌, ◌-◌, ◌==◌, leb, String, str_eq, text_append, Bool, true, false, not, ◌||◌,
  if◌then◌else◌, Option, none, some, or_else, List, [], ◌∷◌, ◌++◌, is_some,
}
use kufi_e_wallet_with_hyper.Prelude.Int.{ℤ, pos, negsuc}
use kufi_e_wallet_with_hyper.Prelude.Text.{or_text}
use kufi_e_wallet_with_hyper.Prelude.Text.Split.{decimal}
use kufi_e_wallet_with_hyper.Prelude.Rows.{find_one, save}
use kufi_e_wallet_with_hyper.Store.{Reply, response, failure, InitiateTransferResponse}
use kufi_e_wallet_with_hyper.Poller.{CheckTransferResponse}
use kufi_e_wallet_with_hyper.Partners.{
  ExternalTransferStatus, ExternalTransfer, PartnerConfig, PartnerEnv,
}
use kufi_e_wallet_with_hyper.Partners.Settings.{normalize_known_partner_code, parse_transfer_type}
use kufi_e_wallet_with_hyper.Partners.Runtime.{resolve_partner_runtime_config, mock_settle_delay_ms}
use kufi_e_wallet_with_hyper.Partners.Payloads.{InitiateData, currency_of}
use kufi_e_wallet_with_hyper.Partners.Calls.{
  Submission, initiate_via_partner, check_via_partner, status_text, is_failed, dash,
}
use kufi_e_wallet_with_hyper.Partners.Initiate.{Table, has_ref, mock_submitted_message}

pub record CheckRequest : Type 0 where
  pub partner_code : String
  pub partner_ref : String

mock_settled_message : String → String
mock_settled_message code = text_append "Mock partner " (text_append code ": settlement completed")

-- shouldSettleMockTransfer
should_settle_mock : PartnerEnv → ExternalTransfer → Bool
should_settle_mock env r = leb (r.created_at + mock_settle_delay_ms env) env.now

-- The status that a partner's answer gives a transfer, if it is final
final_only : Option (ExternalTransferStatus × String) → Option (ExternalTransferStatus × String)
final_only (some (ExternalTransferStatus.settled, message)) =
    some (ExternalTransferStatus.settled, message)
final_only (some (ExternalTransferStatus.failed, message)) =
    some (ExternalTransferStatus.failed, message)
final_only _ = none

-- What a check of a submitted transfer sets: its status and message, or nothing
check_news :
    PartnerEnv
    → String
    → ExternalTransfer
    → Option PartnerConfig
    → Option (ExternalTransferStatus × String)
unfolding mock_submitted_message mock_settled_message should_settle_mock final_only
check_news env code r (some config) = final_only (check_via_partner env config r)
check_news env code r none =
    if should_settle_mock env r
    then some (ExternalTransferStatus.settled, mock_settled_message code)
    else some (ExternalTransferStatus.submitted, mock_submitted_message code)

-- The row after the check, and the table
save_news :
    PartnerEnv
    → ExternalTransfer
    → Option (ExternalTransferStatus × String)
    → Table
    → ExternalTransfer × Table
save_news env r none t = (r, t)
save_news env r (some (status, message)) t =
    let fresh = record r { status = status; partner_message = some message } in
    (fresh, save (λ x. x.id) fresh t)

unfoldable pub check_response : ExternalTransfer → CheckTransferResponse
check_response r = record {
  status = status_text r.status;
  partner_message = or_else r.partner_message "";
}

check_submitted : PartnerEnv → CheckRequest → ExternalTransfer → Table → ExternalTransfer × Table
unfolding check_news save_news
check_submitted env q r t =
    let code = normalize_known_partner_code (or_text r.partner_code q.partner_code) in
    save_news env r (check_news env code r (resolve_partner_runtime_config env code)) t

abbrev pub is_submitted : ExternalTransferStatus → Bool
is_submitted ExternalTransferStatus.submitted = true
is_submitted _ = false

check_found : PartnerEnv → CheckRequest → ExternalTransfer → Table → ExternalTransfer × Table
unfolding check_submitted
check_found env q r t = if is_submitted r.status then check_submitted env q r t else (r, t)

check_reference :
    PartnerEnv → CheckRequest → Table → Option ExternalTransfer → CheckTransferResponse × Table
unfolding check_found check_response
check_reference env q t none =
    (record { status = "FAILED"; partner_message = "Partner reference not found" }, t)
check_reference env q t (some r) =
    let (checked, u) = check_found env q r t in (check_response checked, u)

-- checkTransfer
unfoldable pub check_transfer : PartnerEnv → CheckRequest → Table → CheckTransferResponse × Table
unfolding check_reference
check_transfer env q t = check_reference env q t (find_one (has_ref q.partner_ref) t)
