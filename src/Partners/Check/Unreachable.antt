-- ===== src/Partners/Check/Unreachable.antt =====
-- checkTransfer of transfers.service.ts while a partner cannot be reached.
use kufi_e_wallet_with_hyper.Prelude.{Bool-cases, some, ◌≡◌, refl, inl, inr}
use kufi_e_wallet_with_hyper.Prelude.Text.{or_text}
use kufi_e_wallet_with_hyper.Prelude.Rows.{find_one}
use kufi_e_wallet_with_hyper.Partners.{ExternalTransfer, PartnerConfig, PartnerEnv}
use kufi_e_wallet_with_hyper.Partners.Settings.{normalize_known_partner_code}
use kufi_e_wallet_with_hyper.Partners.Runtime.{resolve_partner_runtime_config}
use kufi_e_wallet_with_hyper.Partners.Http.Unreachable.{IsUnreachable}
use kufi_e_wallet_with_hyper.Partners.Calls.Open.{check_via_partner-unreachable}
use kufi_e_wallet_with_hyper.Partners.Initiate.{Table, has_ref}
use kufi_e_wallet_with_hyper.Partners.Check.{
  CheckRequest, check_news, save_news, final_only, is_submitted, check_submitted, check_found,
  check_response, check_reference, check_transfer,
}

-- While a partner with settings cannot be reached, checkTransfer answers what the table says of the
-- transfer and changes nothing.
pub check_transfer-unreachable :
    (env : PartnerEnv) (q : CheckRequest) (t : Table) (r : ExternalTransfer)
    (config : PartnerConfig)
    → IsUnreachable env
    → find_one (has_ref q.partner_ref) t ≡ some r
    → resolve_partner_runtime_config env
        (normalize_known_partner_code (or_text r.partner_code q.partner_code))
      ≡ some config
    → check_transfer env q t ≡ (check_response r, t)
unfolding check_transfer check_reference check_found check_submitted check_news save_news final_only
check_transfer-unreachable env q t r config down found configured =
    elim (Bool-cases (is_submitted r.status)) [
      | inl waiting ↦
          rw (found, waiting, configured, check_via_partner-unreachable env config r down) refl
      | inr final ↦ rw (found, final) refl
    ]
