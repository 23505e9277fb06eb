-- ===== src/Partners/Signing.antt =====
-- How transfers.service.ts signs a request: applySignature, buildVnpayCanonical and
-- buildCanonicalFromFields.
pub mod Verified
use kufi_e_wallet_with_hyper.Prelude.{
  String, str_eq, text_append, Bool, true, false, not, ◌||◌, ◌&&◌, if◌then◌else◌, Option, none,
  some, or_else, List, [], ◌∷◌, map,
}
use kufi_e_wallet_with_hyper.Prelude.Text.{is_empty, or_text, trim}
use kufi_e_wallet_with_hyper.Prelude.Text.Split.{join}
use kufi_e_wallet_with_hyper.Partners.{
  SignatureMode, SignatureAlgorithm, HttpMethod, Value, object, text, Fields, end, field,
  PartnerConfig, PartnerEnv,
}
use kufi_e_wallet_with_hyper.Partners.Objects.{
  get_field, set_field, is_nullish, string_of, normalize_canonical_value,
}
use kufi_e_wallet_with_hyper.Partners.Settings.{set_header}

-- The parts of a request that a signature changes: its payload and its headers.
pub record Draft : Type 0 where
  pub payload : Fields
  pub headers : List (String × String)

-- Is the field signed by VNPay's scheme?
is_signed : String → Value → Bool
is_signed key v =
    not (str_eq key "vnp_SecureHash") && not (str_eq key "vnp_SecureHashType") && not (is_nullish v)

signed_fields : Fields → List (String × Value)
unfolding is_signed
signed_fields end = []
signed_fields (field key v rest) =
    if is_signed key v then (key, v) ∷ signed_fields rest else signed_fields rest

-- `.sort((a, b) => a.localeCompare(b))`, keys that compare as equal in their order
insert_key : PartnerEnv → String × Value → List (String × Value) → List (String × Value)
insert_key env kv [] = kv ∷ []
insert_key env kv (other ∷ rest) =
    if env.locale_le kv.0 other.0 then kv ∷ other ∷ rest else other ∷ insert_key env kv rest

sort_keys : PartnerEnv → List (String × Value) → List (String × Value)
unfolding insert_key
sort_keys env [] = []
sort_keys env (kv ∷ rest) = insert_key env kv (sort_keys env rest)

canonical_part : PartnerEnv → String × Value → String
unfolding string_of
canonical_part env (key, v) =
    text_append (env.encode_uri_component key)
      (text_append "=" (env.encode_uri_component (string_of v)))

unfoldable pub build_vnpay_canonical : PartnerEnv → Fields → String
unfolding signed_fields sort_keys canonical_part
build_vnpay_canonical env payload =
    join "&" (map (canonical_part env) (sort_keys env (signed_fields payload)))

keep_nonblank : List String → List String
keep_nonblank [] = []
keep_nonblank (name ∷ names) =
    if is_empty (trim name) then keep_nonblank names else name ∷ keep_nonblank names

canonical_values : PartnerEnv → Fields → List String → List String
canonical_values env payload [] = []
canonical_values env payload (name ∷ names) =
    normalize_canonical_value env (get_field name payload) ∷ canonical_values env payload names

unfoldable pub build_canonical_from_fields : PartnerEnv → Fields → List String → String → String
unfolding keep_nonblank canonical_values
build_canonical_from_fields env payload names joiner =
    join (or_text joiner "|") (canonical_values env payload (keep_nonblank names))

method_text : HttpMethod → String
method_text HttpMethod.get = "GET"
method_text HttpMethod.post = "POST"

-- `JSON.stringify(payload)`
abbrev pub body_text : PartnerEnv → Fields → String
body_text env payload = env.stringify (object payload)

sign_vnpay : PartnerEnv → PartnerConfig → Draft → Draft
sign_vnpay env config draft =
    let canonical = build_vnpay_canonical env draft.payload in
    let signature = env.hmac SignatureAlgorithm.sha512 config.api_secret canonical in
    if is_empty canonical then draft else record draft {
      payload =
          set_field (or_text config.signature_payload_field "vnp_SecureHash") (text signature)
            (set_field "vnp_SecureHashType" (text "HmacSHA512") draft.payload);
    }

sign_fields : PartnerEnv → PartnerConfig → Draft → Draft
sign_fields env config draft =
    let canonical =
      build_canonical_from_fields env draft.payload config.signature_fields
        config.signature_joiner in
    let signature = env.hmac config.signature_algorithm config.api_secret canonical in
    if is_empty canonical then draft else record draft {
      payload =
          set_field (or_text config.signature_payload_field "mac") (text signature) draft.payload;
    }

sign_header : PartnerConfig → String → Draft → Draft
sign_header config signature draft = record draft {
  headers = set_header config.signature_header signature draft.headers;
}

header_canonical_text : PartnerEnv → PartnerConfig → HttpMethod → String → Fields → String
unfolding method_text
header_canonical_text env config method path payload =
    or_text
      (build_canonical_from_fields env payload config.signature_fields config.signature_joiner)
      (text_append (method_text method)
        (text_append "." (text_append path (text_append "." (body_text env payload)))))

legacy_text : PartnerEnv → Fields → String → String
legacy_text env payload timestamp =
    text_append timestamp
      (text_append "." (text_append env.nonce (text_append "." (body_text env payload))))

sign_by : SignatureMode → PartnerEnv → PartnerConfig → HttpMethod → String → String → Draft → Draft
unfolding sign_header header_canonical_text legacy_text
sign_by SignatureMode.vnpay_query_sha512 env config method path timestamp draft =
    sign_vnpay env config draft
sign_by SignatureMode.zalopay_mac_sha256 env config method path timestamp draft =
    sign_fields env config draft
sign_by SignatureMode.payload_fields_hmac env config method path timestamp draft =
    sign_fields env config draft
sign_by SignatureMode.header_canonical env config method path timestamp draft =
    sign_header config
      (env.hmac config.signature_algorithm config.api_secret
        (header_canonical_text env config method path draft.payload))
      draft
sign_by SignatureMode.legacy_header_sha256 env config method path timestamp draft =
    sign_header config
      (env.hmac SignatureAlgorithm.sha256 config.api_secret
        (legacy_text env draft.payload timestamp))
      draft

-- applySignature
unfoldable pub apply_signature :
    PartnerEnv → PartnerConfig → HttpMethod → String → String → Draft → Draft
unfolding sign_vnpay sign_fields sign_by
apply_signature env config method path timestamp draft =
    if is_empty config.api_secret
    then draft
    else sign_by config.signature_mode env config method path timestamp draft
