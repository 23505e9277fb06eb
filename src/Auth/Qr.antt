-- ===== src/Auth/Qr.antt =====
-- The tokens of QR codes in src/auth/auth-internal.controller.ts of auth-service:
-- issueQrTransferToken, resolveQrTransferToken, signQrPayload, verifyQrToken.
pub mod RoundTrip
use kufi_e_wallet_with_hyper.Prelude.{
  ℕ, ◌+◌, ◌/◌, max, leb, String, str_eq, text_append, Bool, true, false, not, ◌||◌, if◌then◌else◌,
  Option, none, some, or_else, List, [], ◌∷◌,
}
use kufi_e_wallet_with_hyper.Prelude.Text.{is_empty, trim}
use kufi_e_wallet_with_hyper.Prelude.Text.Split.{split}
use kufi_e_wallet_with_hyper.Auth.{
  User, QrPayload, QrClaims, AuthStore, bad_request, Outcome, returns, throws, AuthEnv, is_active,
}
use kufi_e_wallet_with_hyper.Auth.Users.{find_by_id}
use kufi_e_wallet_with_hyper.Auth.Otps.{qr_token_secret, user_not_found}

pub record QrToken : Type 0 where
  pub token : String
  pub expires_in : ℕ

unfoldable pub sign_qr_payload : AuthEnv → String → String
sign_qr_payload env encoded = env.hmac_base64url (qr_token_secret env.config) encoded

-- `Math.floor(Date.now() / 1000)`
abbrev pub seconds : AuthEnv → ℕ
seconds env = env.now / 1000

abbrev pub qr_ttl : AuthEnv → ℕ
qr_ttl env = max 30 env.config.qr_transfer_token_ttl_seconds

abbrev pub qr_payload : AuthEnv → User → QrPayload
qr_payload env u = record {
  v = 1;
  user_id = u.id;
  exp = seconds env + qr_ttl env;
  nonce = env.nonce;
}

-- `${payloadEncoded}.${signature}`
signed_token : AuthEnv → String → String
unfolding sign_qr_payload
signed_token env encoded = text_append encoded (text_append "." (sign_qr_payload env encoded))

token_for : AuthEnv → User → QrToken
unfolding signed_token
token_for env u = record {
  token = signed_token env (env.encode_qr (qr_payload env u));
  expires_in = qr_ttl env;
}

issue_for : AuthEnv → Option User → Outcome QrToken
unfolding token_for
issue_for env none = throws user_not_found
issue_for env (some u) =
    if is_empty (trim (or_else u.phone ""))
    then throws (bad_request "User phone is required for QR transfer")
    else returns (token_for env u)

unfoldable pub issue_qr_transfer_token : AuthEnv → String → AuthStore → Outcome QrToken
unfolding issue_for
issue_qr_transfer_token env user_id s = issue_for env (find_by_id user_id s)

-- The user of the claims that have not expired
live_claims : AuthEnv → Option QrClaims → Option String
live_claims env none = none
live_claims env (some claims) = elim claims.exp [
  | none ↦ none
  | some exp ↦ if leb exp (seconds env) then none else some claims.user_id
]

-- The two parts of a token, its payload signed by its signature
verify_parts : AuthEnv → List String → Option String
unfolding sign_qr_payload live_claims
verify_parts env (encoded ∷ signature ∷ []) =
    if str_eq signature (sign_qr_payload env encoded)
    then live_claims env (env.decode_qr encoded)
    else none
verify_parts env _ = none

-- verifyQrToken; the user of a token that is good
verify_qr_token : AuthEnv → String → Option String
unfolding verify_parts
verify_qr_token env token = verify_parts env (split b'.' token)

pub record QrRecipient : Type 0 where
  pub user_id : String
  pub phone : String
  pub display_name : String
  pub kyc_status : String

qr_recipient : User → QrRecipient
qr_recipient u = record {
  user_id = u.id;
  phone = or_else u.phone "";
  display_name = or_else u.display_name (or_else u.email "Người dùng");
  kyc_status = u.kyc_status;
}

active_recipient : Option User → Option QrRecipient
unfolding qr_recipient
active_recipient none = none
active_recipient (some u) = if is_active u.account_status then some (qr_recipient u) else none

recipient_of : Option String → AuthStore → Option QrRecipient
unfolding active_recipient
recipient_of none s = none
recipient_of (some id) s = if is_empty id then none else active_recipient (find_by_id id s)

-- resolveQrTransferToken; none is `{ found: false }`.
unfoldable pub resolve_qr_transfer_token : AuthEnv → String → AuthStore → Option QrRecipient
unfolding verify_qr_token recipient_of
resolve_qr_transfer_token env token s = recipient_of (verify_qr_token env (trim token)) s
