-- ===== src/Partners/Http/Unreachable.antt =====
-- callPartnerApi of transfers.service.ts while a partner cannot be reached.
use kufi_e_wallet_with_hyper.Prelude.{String, ◌≡◌, ap}
use kufi_e_wallet_with_hyper.Store.{failure}
use kufi_e_wallet_with_hyper.Partners.{HttpMethod, HttpRequest, Fields, PartnerConfig, PartnerEnv}
use kufi_e_wallet_with_hyper.Partners.Http.{answer_to, partner_request, call_partner_api}

-- Every `fetch` throws.
abbrev pub IsUnreachable : PartnerEnv → Type 0
IsUnreachable env = (r : HttpRequest) → (message : String) × (env.fetch r ≡ failure message)

pub call_partner_api-unreachable :
    (env : PartnerEnv) (config : PartnerConfig) (path : String) (method : HttpMethod)
    (payload : Fields)
    → IsUnreachable env
    → (message : String) × (call_partner_api env config path method payload ≡ failure message)
unfolding call_partner_api answer_to
call_partner_api-unreachable env config path method payload down =
    let lost = down (partner_request env config path method payload) in
    (lost.0, ap (answer_to env) lost.1)
