-- ===== src/Partners/Http.antt =====
-- callPartnerApi of transfers.service.ts: the request to a partner's API and the answer it gives.
pub mod Unreachable
use kufi_e_wallet_with_hyper.Prelude.{
  ℕ, leb, ltb, String, text_append, Bool, not, ◌||◌, ◌&&◌, if◌then◌else◌, none, some, List, [], ◌∷◌,
}
use kufi_e_wallet_with_hyper.Prelude.Text.{is_empty}
use kufi_e_wallet_with_hyper.Prelude.Text.Split.{
  includes, starts_with, replace_all, drop_end_slash, decimal,
}
use kufi_e_wallet_with_hyper.Store.{Reply, response, failure}
use kufi_e_wallet_with_hyper.Partners.{
  HttpMethod, HttpRequest, HttpResponse, Value, Fields, end, field, PartnerConfig, PartnerEnv,
}
use kufi_e_wallet_with_hyper.Partners.Objects.{is_nullish, string_of}
use kufi_e_wallet_with_hyper.Partners.Settings.{set_header}
use kufi_e_wallet_with_hyper.Partners.Signing.{Draft, apply_signature, body_text}
use kufi_e_wallet_with_hyper.Partners.Answers.{safe_parse_json}

pub record PartnerAnswer : Type 0 where
  pub http_status : ℕ
  pub payload : Value

-- `response.ok`
unfoldable pub is_ok : PartnerAnswer → Bool
is_ok a = leb 200 a.http_status && ltb a.http_status 300

abbrev placeholder : String → String
placeholder key = text_append "{" (text_append key "}")

-- interpolatePath
unfoldable pub interpolate_path : PartnerEnv → String → Fields → String
unfolding string_of
interpolate_path env path end = path
interpolate_path env path (field key v rest) =
    if is_nullish v || not (includes (placeholder key) path)
    then interpolate_path env path rest
    else interpolate_path env
        (replace_all (placeholder key) (env.encode_uri_component (string_of v)) path) rest

-- The fields of the payload that go to the query
query_fields : String → Fields → List (String × String)
unfolding string_of
query_fields path end = []
query_fields path (field key v rest) =
    let later = query_fields path rest in
    if is_nullish v || includes (placeholder key) path then later else (key, string_of v) ∷ later

-- A header that is only set with a value
abbrev with_header : String → String → List (String × String) → List (String × String)
with_header name v headers = if is_empty v then headers else set_header name v headers

add_headers : List (String × String) → List (String × String) → List (String × String)
add_headers headers [] = headers
add_headers headers (h ∷ hs) = add_headers (set_header h.0 h.1 headers) hs

first_headers : PartnerEnv → PartnerConfig → List (String × String)
unfolding add_headers
first_headers env config =
    add_headers
      (("Content-Type", "application/json")
        ∷ ("X-Timestamp", decimal env.now)
        ∷ ("X-Nonce", env.nonce)
        ∷ [])
      config.extra_headers

all_headers : PartnerConfig → List (String × String) → List (String × String)
all_headers config headers =
    with_header "Authorization"
      (if is_empty config.bearer_token then "" else text_append "Bearer " config.bearer_token)
      (with_header config.merchant_id_header config.merchant_id (
        with_header config.client_id_header config.client_id
          (with_header config.api_key_header config.api_key headers)))

abbrev leading_slash : String → String
leading_slash path = if starts_with "/" path then path else text_append "/" path

abbrev with_query : String → String → String
with_query url query = if is_empty query then url else text_append url (text_append "?" query)

request_of : PartnerEnv → PartnerConfig → String → HttpMethod → Draft → HttpRequest
unfolding all_headers query_fields
request_of env config path method draft =
    let url =
      text_append (drop_end_slash config.base_url) (interpolate_path env path draft.payload) in
    record {
      url = elim method [
        | HttpMethod.get ↦ with_query url (env.query_string (query_fields path draft.payload))
        | HttpMethod.post ↦ url
      ];
      method = method;
      headers = all_headers config draft.headers;
      body = elim method [
        | HttpMethod.get ↦ none
        | HttpMethod.post ↦ some (body_text env draft.payload)
      ];
      timeout_ms = config.timeout_ms;
    }

-- The signed request of callPartnerApi
unfoldable pub partner_request :
    PartnerEnv → PartnerConfig → String → HttpMethod → Fields → HttpRequest
unfolding first_headers request_of
partner_request env config path method payload =
    let normalized = leading_slash path in
    request_of env config normalized method (
      apply_signature env config method normalized (decimal env.now)
        (record { payload = payload; headers = first_headers env config }))

answer_to : PartnerEnv → Reply HttpResponse → Reply PartnerAnswer
answer_to env (failure message) = failure message
answer_to env (response r) =
    response (record { http_status = r.status; payload = safe_parse_json env r.raw_text })

unfoldable pub call_partner_api :
    PartnerEnv → PartnerConfig → String → HttpMethod → Fields → Reply PartnerAnswer
unfolding answer_to
call_partner_api env config path method payload =
    answer_to env (env.fetch (partner_request env config path method payload))
