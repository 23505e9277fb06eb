-- ===== src/Partners/Calls.antt =====
-- initiateViaPartner and checkViaPartner of transfers.service.ts.
pub mod Open
use kufi_e_wallet_with_hyper.Prelude.{
  leb, String, text_append, Bool, true, false, not, ◌||◌, ◌&&◌, if◌then◌else◌, Option, none, some,
}
use kufi_e_wallet_with_hyper.Prelude.Text.{or_text, to_lower}
use kufi_e_wallet_with_hyper.Prelude.Text.Split.{decimal}
use kufi_e_wallet_with_hyper.Store.{Reply, response, failure}
use kufi_e_wallet_with_hyper.Partners.{
  ExternalTransferStatus, ExternalTransfer, HttpMethod, PartnerConfig, PartnerEnv,
}
use kufi_e_wallet_with_hyper.Partners.Settings.{parse_transfer_type}
use kufi_e_wallet_with_hyper.Partners.Payloads.{
  InitiateData, transfer_type_text, build_initiate_payload, build_check_payload,
}
use kufi_e_wallet_with_hyper.Partners.Answers.{Mode, extract_status, pick_string}
use kufi_e_wallet_with_hyper.Partners.Http.{PartnerAnswer, is_ok, call_partner_api}

-- What initiateViaPartner returns
pub record Submission : Type 0 where
  pub status : ExternalTransferStatus
  pub partner_ref : String
  pub partner_message : String

abbrev pub dash : String → String → String
dash a b = text_append a (text_append "-" b)

-- `Partner <code> <text>`
abbrev of_partner : PartnerConfig → String → String
of_partner config message =
    text_append "Partner " (text_append config.partner_code (text_append " " message))

rejected : PartnerEnv → PartnerConfig → String → String → Submission
rejected env config ref message = record {
  status = ExternalTransferStatus.failed;
  partner_ref = or_text ref (dash config.partner_code (dash (decimal env.now) "FAILED"));
  partner_message = or_text message (of_partner config "rejected transfer");
}

accepted :
    PartnerEnv
    → PartnerConfig
    → InitiateData
    → ExternalTransferStatus
    → String
    → String
    → Submission
accepted env config d status ref message = record {
  status = status;
  partner_ref = or_text ref (dash config.partner_code (dash (decimal env.now) env.reference_uuid));
  partner_message = or_text message (
      of_partner config (
        text_append "accepted " (
          text_append (to_lower (transfer_type_text (parse_transfer_type d.transfer_type)))
            " request")));
}

unreachable : PartnerEnv → PartnerConfig → String → Submission
unreachable env config message = record {
  status = ExternalTransferStatus.failed;
  partner_ref = dash config.partner_code (dash (decimal env.now) "ERROR");
  partner_message = or_text message "unknown_error";
}

abbrev pub is_failed : ExternalTransferStatus → Bool
is_failed ExternalTransferStatus.failed = true
is_failed _ = false

read_submission : PartnerEnv → PartnerConfig → InitiateData → PartnerAnswer → Submission
unfolding rejected accepted
read_submission env config d answer =
    let mapping = config.mapping in
    let status =
      extract_status answer.payload Mode.initiate (is_ok answer) mapping.initiate_status_paths
        mapping in
    let ref = pick_string answer.payload mapping.initiate_reference_paths in
    let message = pick_string answer.payload mapping.initiate_message_paths in
    if is_failed status || not (is_ok answer) && leb 400 answer.http_status
    then rejected env config ref message
    else accepted env config d status ref message

submission_after : PartnerEnv → PartnerConfig → InitiateData → Reply PartnerAnswer → Submission
unfolding read_submission unreachable
submission_after env config d (failure message) = unreachable env config message
submission_after env config d (response answer) = read_submission env config d answer

-- initiateViaPartner
unfoldable pub initiate_via_partner : PartnerEnv → PartnerConfig → InitiateData → Submission
unfolding submission_after
initiate_via_partner env config d = submission_after env config d (
    call_partner_api env config config.initiate_path HttpMethod.post
      (build_initiate_payload env config d))

abbrev pub status_text : ExternalTransferStatus → String
status_text ExternalTransferStatus.submitted = "SUBMITTED"
status_text ExternalTransferStatus.settled = "SETTLED"
status_text ExternalTransferStatus.failed = "FAILED"

read_check : PartnerConfig → PartnerAnswer → Option (ExternalTransferStatus × String)
read_check config answer =
    let mapping = config.mapping in
    let status =
      extract_status answer.payload Mode.check (is_ok answer) mapping.check_status_paths mapping in
    let message = pick_string answer.payload mapping.check_message_paths in
    if not (is_ok answer) && leb 500 answer.http_status
    then none
    else some
        (status, or_text message (of_partner config (text_append "status: " (status_text status))))

check_after : PartnerConfig → Reply PartnerAnswer → Option (ExternalTransferStatus × String)
unfolding read_check
check_after config (failure message) = none
check_after config (response answer) = read_check config answer

-- checkViaPartner; none where it returns null.
unfoldable pub check_via_partner :
    PartnerEnv → PartnerConfig → ExternalTransfer → Option (ExternalTransferStatus × String)
unfolding check_after
check_via_partner env config r = check_after config (
    call_partner_api env config config.status_path config.status_method
      (build_check_payload env config r))
