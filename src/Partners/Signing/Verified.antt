-- ===== src/Partners/Signing/Verified.antt =====
-- How a partner checks a signature of transfers.service.ts: from the signed payload it computes the
-- text that was signed.
use kufi_e_wallet_with_hyper.Prelude.{
  arith, String, eq_iff, eq_refl, false, ◌≡◌, refl, sym, ap, ◌∙◌,
}
use kufi_e_wallet_with_hyper.Prelude.Text.{is_empty, or_text}
use kufi_e_wallet_with_hyper.Partners.{
  SignatureMode, SignatureAlgorithm, HttpMethod, Value, text, Fields, end, field, PartnerConfig,
  PartnerEnv,
}
use kufi_e_wallet_with_hyper.Partners.Objects.{get_field, set_field}
use kufi_e_wallet_with_hyper.Partners.Signing.{
  Draft, is_signed, signed_fields, build_vnpay_canonical, sign_vnpay, sign_by, apply_signature,
}

pub get_field-set_field :
    (key : String) (v : Value) (payload : Fields) → get_field key (set_field key v payload) ≡ v
get_field-set_field key v end = ground (arith, eq_refl key)
get_field-set_field key v (field name w rest) =
    ground (arith, eq_refl key, eq_iff name key, get_field-set_field key v rest)

-- A field that is never signed can be set or replaced.
signed_fields-set_field :
    (key : String) (v : Value) (payload : Fields)
    → ((w : Value) → is_signed key w ≡ false)
    → signed_fields (set_field key v payload) ≡ signed_fields payload
unfolding signed_fields
signed_fields-set_field key v end unsigned = ground (arith, unsigned v)
signed_fields-set_field key v (field name w rest) unsigned =
    ground (arith, unsigned v, unsigned w, eq_iff name key, signed_fields-set_field key v rest)

hash_unsigned : (v : Value) → is_signed "vnp_SecureHash" v ≡ false
unfolding is_signed
hash_unsigned v = refl

hash_type_unsigned : (v : Value) → is_signed "vnp_SecureHashType" v ≡ false
unfolding is_signed
hash_type_unsigned v = refl

abbrev signed_payload : Value → Fields → Fields
signed_payload signature payload =
    set_field "vnp_SecureHash" signature
      (set_field "vnp_SecureHashType" (text "HmacSHA512") payload)

canonical-signed_payload :
    (env : PartnerEnv) (signature : Value) (payload : Fields)
    → build_vnpay_canonical env (signed_payload signature payload)
      ≡ build_vnpay_canonical env payload
unfolding build_vnpay_canonical
canonical-signed_payload env signature payload =
    rw
      (
        signed_fields-set_field "vnp_SecureHash" signature
            (set_field "vnp_SecureHashType" (text "HmacSHA512") payload) hash_unsigned,
        signed_fields-set_field "vnp_SecureHashType" (text "HmacSHA512") payload hash_type_unsigned,
      )
      refl

-- With a secret, VNPay's mode of signature and its field for it, a payload with a field to sign
-- leaves applySignature with the HMAC of the text that a receiver makes of the payload it gets.
pub apply_signature-verified :
    (env : PartnerEnv) (config : PartnerConfig) (method : HttpMethod) (path timestamp : String)
    (draft : Draft)
    → is_empty config.api_secret ≡ false
    → config.signature_mode ≡ SignatureMode.vnpay_query_sha512
    → or_text config.signature_payload_field "vnp_SecureHash" ≡ "vnp_SecureHash"
    → is_empty (build_vnpay_canonical env draft.payload) ≡ false
    → (let sent = (apply_signature env config method path timestamp draft).payload in
        get_field "vnp_SecureHash" sent
        ≡ text
            (env.hmac SignatureAlgorithm.sha512 config.api_secret (build_vnpay_canonical env sent)))
unfolding apply_signature sign_by sign_vnpay
apply_signature-verified env config method path timestamp draft secret mode name some_field =
    let signature = text (
      env.hmac SignatureAlgorithm.sha512 config.api_secret
        (build_vnpay_canonical env draft.payload)) in
    rw (secret, mode, some_field, name)
      (get_field-set_field "vnp_SecureHash" signature
          (set_field "vnp_SecureHashType" (text "HmacSHA512") draft.payload)
        ∙ ap (λ c. text (env.hmac SignatureAlgorithm.sha512 config.api_secret c))
            (sym (canonical-signed_payload env signature draft.payload)))
