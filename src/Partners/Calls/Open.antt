-- ===== src/Partners/Calls/Open.antt =====
-- initiateViaPartner of transfers.service.ts never calls a transfer settled.
use kufi_e_wallet_with_hyper.Prelude.{arith, ◌≡◌, ◌≢◌, ap, none}
use kufi_e_wallet_with_hyper.Store.{Reply, response, failure}
use kufi_e_wallet_with_hyper.Partners.{
  ExternalTransferStatus, HttpMethod, ExternalTransfer, PartnerConfig, PartnerEnv,
}
use kufi_e_wallet_with_hyper.Partners.Payloads.{
  InitiateData, build_initiate_payload, build_check_payload,
}
use kufi_e_wallet_with_hyper.Partners.Http.{PartnerAnswer, is_ok, call_partner_api}
use kufi_e_wallet_with_hyper.Partners.Http.Unreachable.{IsUnreachable, call_partner_api-unreachable}
use kufi_e_wallet_with_hyper.Partners.Answers.Status.{extract_status_initiate}
use kufi_e_wallet_with_hyper.Partners.Calls.{
  initiate_via_partner, read_submission, rejected, accepted, unreachable, submission_after,
  check_after, check_via_partner,
}

read_submission_open :
    (env : PartnerEnv) (config : PartnerConfig) (d : InitiateData) (a : PartnerAnswer)
    → (read_submission env config d a).status ≢ ExternalTransferStatus.settled
unfolding read_submission rejected accepted
read_submission_open env config d a =
    let m = config.mapping in
    ground (arith, extract_status_initiate a.payload (is_ok a) m.initiate_status_paths m)

submission_after_open :
    (env : PartnerEnv) (config : PartnerConfig) (d : InitiateData) (reply : Reply PartnerAnswer)
    → (submission_after env config d reply).status ≢ ExternalTransferStatus.settled
unfolding submission_after unreachable
submission_after_open env config d (failure message) = ground arith
submission_after_open env config d (response answer) = read_submission_open env config d answer

pub initiate_via_partner_open :
    (env : PartnerEnv) (config : PartnerConfig) (d : InitiateData)
    → (initiate_via_partner env config d).status ≢ ExternalTransferStatus.settled
unfolding initiate_via_partner
initiate_via_partner_open env config d = submission_after_open env config d (
    call_partner_api env config config.initiate_path HttpMethod.post
      (build_initiate_payload env config d))

pub initiate_via_partner-unreachable :
    (env : PartnerEnv) (config : PartnerConfig) (d : InitiateData)
    → IsUnreachable env
    → (initiate_via_partner env config d).status ≡ ExternalTransferStatus.failed
unfolding initiate_via_partner submission_after unreachable
initiate_via_partner-unreachable env config d down =
    let payload = build_initiate_payload env config d in
    let lost =
      call_partner_api-unreachable env config config.initiate_path HttpMethod.post payload down in
    ap (λ reply. (submission_after env config d reply).status) lost.1

pub check_via_partner-unreachable :
    (env : PartnerEnv) (config : PartnerConfig) (r : ExternalTransfer)
    → IsUnreachable env
    → check_via_partner env config r ≡ none
unfolding check_via_partner check_after
check_via_partner-unreachable env config r down =
    let payload = build_check_payload env config r in
    let lost =
      call_partner_api-unreachable env config config.status_path config.status_method payload
        down in
    ap (check_after config) lost.1
