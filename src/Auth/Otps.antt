-- ===== src/Auth/Otps.antt =====
-- The one-time codes and step-up tokens of src/auth/auth-internal.controller.ts of auth-service:
-- storeOtpCode, consumeOtpCode, issueOtp, issueStepUpToken, verifyStepUpToken and the codes of a
-- sign-up.
pub mod Codes
use kufi_e_wallet_with_hyper.Prelude.{
  ℕ, ◌+◌, ◌*◌, max, ltb, String, str_eq, Bool, true, false, not, ◌&&◌, if◌then◌else◌, Option, none,
  some, or_else, is_some, List, [], ◌∷◌, ◌++◌,
}
use kufi_e_wallet_with_hyper.Prelude.Text.{is_empty, or_text, or_none, trim}
use kufi_e_wallet_with_hyper.Prelude.Text.Split.{join}
use kufi_e_wallet_with_hyper.Prelude.Rows.{save, select, order_desc}
use kufi_e_wallet_with_hyper.Auth.{
  OtpPurpose, AuthOtp, AuthStore, Thrown, bad_request, Outcome, returns, throws, AuthConfig,
  AuthEnv, delete_where,
}
use kufi_e_wallet_with_hyper.Auth.Users.{find_by_id}

abbrev pub purpose_text : OtpPurpose → String
purpose_text OtpPurpose.transfer = "TRANSFER"
purpose_text OtpPurpose.step_up_email = "STEP_UP_EMAIL"

abbrev same_purpose : OtpPurpose → OtpPurpose → Bool
same_purpose OtpPurpose.transfer OtpPurpose.transfer = true
same_purpose OtpPurpose.step_up_email OtpPurpose.step_up_email = true
same_purpose _ _ = false

-- Whom a code is for, and for what
pub record OtpSubject : Type 0 where
  pub user_id : String
  pub device_id : String
  pub purpose : OtpPurpose

-- The secret of the codes: otpHashSecret and qrTokenSecret
unfoldable pub qr_token_secret : AuthConfig → String
qr_token_secret c =
    or_text (trim c.qr_transfer_token_secret)
      (or_text (trim c.jwt_secret) "qr-transfer-fallback-secret")

unfoldable pub otp_hash_secret : AuthConfig → String
unfolding qr_token_secret
otp_hash_secret c = or_text (trim c.otp_hash_secret) (qr_token_secret c)

-- hashOtpCode
unfoldable pub hash_otp_code : AuthEnv → OtpSubject → String → String
unfolding otp_hash_secret
hash_otp_code env q code =
    env.hmac_sha256 (otp_hash_secret env.config)
      (join ":" (trim q.user_id ∷ trim q.device_id ∷ purpose_text q.purpose ∷ trim code ∷ []))

-- The condition on the user, the purpose and the device
unfoldable pub is_of : OtpSubject → AuthOtp → Bool
is_of q o = str_eq o.user_id q.user_id && same_purpose o.purpose q.purpose && elim o.device_id [
  | none ↦ is_empty (trim q.device_id)
  | some device ↦ not (is_empty (trim q.device_id)) && str_eq device (trim q.device_id)
]

new_otp : AuthEnv → OtpSubject → String → ℕ → AuthOtp
unfolding hash_otp_code
new_otp env q code expires_in = record {
  id = env.new_row_id;
  user_id = q.user_id;
  purpose = q.purpose;
  otp_hash = hash_otp_code env (record q { device_id = trim q.device_id }) code;
  attempt_count = 0;
  expires_at = env.now + expires_in * 1000;
  used_at = none;
  device_id = or_none (trim q.device_id);
  created_at = env.now;
}

-- storeOtpCode; a new key is taken for one that no other row has.
unfoldable pub store_otp_code : AuthEnv → OtpSubject → String → ℕ → AuthStore → AuthStore
unfolding is_of new_otp
store_otp_code env q code expires_in s = record s {
  otps = delete_where (is_of q) s.otps ++ (new_otp env q code expires_in ∷ []);
}

-- A code of the subject that is neither used nor expired
unfoldable pub is_open : AuthEnv → OtpSubject → AuthOtp → Bool
unfolding is_of
is_open env q o = is_of q o && not (is_some o.used_at) && ltb env.now o.expires_at

abbrev first_of {ℓ} : {A : Type ℓ} → List A → Option A
first_of [] = none
first_of (x ∷ xs) = some x

abbrev save_otp : AuthOtp → AuthStore → AuthStore
save_otp o s = record s { otps = save (λ (x : AuthOtp). x.id) o s.otps }

consume_row : AuthEnv → OtpSubject → String → Option AuthOtp → AuthStore → Bool × AuthStore
unfolding hash_otp_code
consume_row env q code none s = (false, s)
consume_row env q code (some o) s =
    if str_eq o.otp_hash (hash_otp_code env (record q { device_id = trim q.device_id }) code)
    then (true, save_otp (record o { used_at = some env.now }) s)
    else (false, save_otp (record o { attempt_count = o.attempt_count + 1 }) s)

-- The newest open code of the subject
newest_open : AuthEnv → OtpSubject → List AuthOtp → Option AuthOtp
unfolding is_open
newest_open env q otps =
    first_of (order_desc (λ (o : AuthOtp). o.created_at) (select (is_open env q) otps))

-- consumeOtpCode
unfoldable pub consume_otp_code : AuthEnv → OtpSubject → String → AuthStore → Bool × AuthStore
unfolding newest_open consume_row
consume_otp_code env q code s = consume_row env q code (newest_open env q s.otps) s

pub record IssuedOtp : Type 0 where
  pub otp_code : String
  pub expires_in : ℕ
  pub delivery_mode : String

abbrev pub user_not_found : Thrown
user_not_found = bad_request "User not found"

unfoldable pub issue_otp :
    AuthEnv → String → Option String → AuthStore → Outcome IssuedOtp × AuthStore
issue_otp env user_id device_id s =
    let expires_in = max 60 env.config.otp_ttl_seconds in
    let q : OtpSubject = record {
      user_id = user_id;
      device_id = trim (or_else device_id "");
      purpose = OtpPurpose.transfer;
    } in
    elim (find_by_id user_id s) [
      | none ↦ (throws user_not_found, s)
      | some u ↦ (
        returns (record {
          otp_code = env.random_code;
          expires_in = expires_in;
          delivery_mode = "smart_otp";
        }),
        store_otp_code env q env.random_code expires_in s,
      )
    ]
