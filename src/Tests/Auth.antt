-- ===== src/Tests/Auth.antt =====
-- The auth service, with one user and one session.
use kufi_e_wallet_with_hyper.Prelude.{
  if◌then◌else◌, str_eq, ℕ, arith, String, true, false, none, some, List, [], ◌∷◌, ◌≡◌, ◌≢◌, refl,
  eq_iff,
}
use kufi_e_wallet_with_hyper.Prelude.Text.{trim, to_lower}
use kufi_e_wallet_with_hyper.Auth.Pins.{has_pin}
use kufi_e_wallet_with_hyper.Auth.{
  AccountStatus, User, AuthSession, OtpPurpose, AuthStore, bad_request, returns, throws, AuthConfig,
  AuthEnv,
}
use kufi_e_wallet_with_hyper.Auth.Sessions.{
  AuthResult, SessionContext, refresh_access_token, refresh_refused, issue_tokens,
}
use kufi_e_wallet_with_hyper.Auth.Runs.{
  AuthCall, clean, refresh, run_calls, refresh_access_token-once,
}
use kufi_e_wallet_with_hyper.Auth.Kyc.{SubmitKycDto, KycTables, KycEnv, submit_kyc}
use kufi_e_wallet_with_hyper.Auth.Kyc.Submitted.{Submitted, submit_kyc-Submitted}
use kufi_e_wallet_with_hyper.Auth.Otps.{OtpSubject, hash_otp_code, store_otp_code, consume_otp_code}
use kufi_e_wallet_with_hyper.Auth.Otps.Codes.{consume-store}
use kufi_e_wallet_with_hyper.Prelude.Text.Pieces.{lacks_char, no_space}
use kufi_e_wallet_with_hyper.Auth.Qr.{
  QrToken, QrRecipient, sign_qr_payload, issue_qr_transfer_token, resolve_qr_transfer_token,
}
use kufi_e_wallet_with_hyper.Auth.Qr.RoundTrip.{IsWebText, resolve-issue}
use kufi_e_wallet_with_hyper.Auth.StepUp.{StepUpAnswer, issue_step_up_token}

abbrev auth_config : AuthConfig
auth_config = record {
  access_ttl_seconds = 300;
  refresh_ttl_seconds = 600;
  auth_dev_mode = false;
  otp_ttl_seconds = 120;
  step_up_email_otp_ttl_seconds = 180;
  step_up_token_ttl_seconds = 180;
  signup_email_otp_ttl_seconds = 300;
  qr_transfer_token_ttl_seconds = 120;
  otp_hash_secret = "s";
  qr_transfer_token_secret = "";
  jwt_secret = "";
}

abbrev auth_env : ℕ → String → AuthEnv
auth_env now token = record {
  config = auth_config;
  verify_id_token = λ t. none;
  get_firebase_user = λ uid. some (record {
    uid = uid;
    disabled = false;
    email = none;
    phone_number = none;
    display_name = none;
  });
  sign_token = λ payload. "jwt";
  verify_token = λ t. none;
  sha256 = λ t. t;
  hmac_sha256 = λ secret t. t;
  scrypt = λ pin salt. pin;
  from_hex = λ t. t;
  hmac_base64url = λ secret t. "sig";
  encode_qr = λ payload. "payload";
  decode_qr =
      λ t. if str_eq t "payload" then some (record { user_id = "u1"; exp = some 120 }) else none;
  sign_up_id = λ t. t;
  send_email_otp = λ to code ttl purpose. none;
  now = now;
  new_user_id = "u9";
  new_row_id = now;
  random_token = token;
  random_code = "123456";
  random_salt = "ab";
  jti = "j";
  nonce = "n";
}

abbrev ann : User
ann = record {
  id = "u1";
  firebase_uid = "f1";
  account_status = AccountStatus.active;
  email = some "ann@kufi.vn";
  phone = none;
  display_name = none;
  kyc_status = "verified";
  hashed_pin = none;
  created_at = 0;
}

abbrev session : AuthSession
session = record {
  id = 1;
  user_id = "u1";
  refresh_token_hash = "t1";
  refresh_token_expires_at = 1000;
  revoked_at = none;
  last_used_at = none;
  user_agent = none;
  ip_address = none;
}

abbrev auth_store : AuthStore
auth_store = record { users = ann ∷ []; sessions = session ∷ []; otps = []; step_up_tokens = [] }

abbrev nowhere : SessionContext
nowhere = record { user_agent = none; ip_address = none }

abbrev refreshed : AuthResult
refreshed = record {
  access_token = "jwt";
  expires_in = 300;
  refresh_token = "t2";
  refresh_expires_in = 600;
  user = record {
    id = "u1";
    firebase_uid = "f1";
    email = some "ann@kufi.vn";
    phone = none;
    display_name = none;
    kyc_status = "verified";
    has_pin = false;
  };
}

refresh_gives :
    (refresh_access_token (auth_env 500 "t2") "t1" nowhere auth_store).0 ≡ returns refreshed
unfolding refresh_access_token issue_tokens has_pin trim
refresh_gives = refl

t2_not_t1 : ◌≢◌ {A = String} "t2" "t1"
t2_not_t1 = ground (arith, eq_iff "t2" "t1")

t3_not_t1 : ◌≢◌ {A = String} "t3" "t1"
t3_not_t1 = ground (arith, eq_iff "t3" "t1")

abbrev later_calls : List AuthCall
later_calls = refresh (auth_env 600 "t3") "t2" nowhere ∷ clean (auth_env 700 "t3") ∷ []

refresh_access_token-once_example :
    (let t =
        run_calls later_calls
          (refresh_access_token (auth_env 500 "t2") "t1" nowhere auth_store).1 in
      refresh_access_token (auth_env 800 "t4") "t1" nowhere t ≡ (throws refresh_refused, t))
refresh_access_token-once_example =
    refresh_access_token-once (auth_env 500 "t2") "t1" nowhere auth_store refreshed later_calls
      (auth_env 800 "t4") nowhere (tt, tt) t2_not_t1 refresh_gives (t3_not_t1, (t3_not_t1, tt)) refl

abbrev of_ann : OtpSubject
of_ann = record { user_id = "u1"; device_id = "phone"; purpose = OtpPurpose.transfer }

consume-store_example :
    (let first =
        consume_otp_code
          (auth_env 600 "t2")
          of_ann
          "123456"
          (store_otp_code (auth_env 500 "t2") of_ann "123456" 120 auth_store) in
      (first.0 ≡ true)
      × (consume_otp_code (auth_env 700 "t2") of_ann "123456" first.1 ≡ (false, first.1)))
unfolding hash_otp_code
consume-store_example =
    consume-store (auth_env 500 "t2") (auth_env 600 "t2") (auth_env 700 "t2") of_ann "123456"
      "123456" 120 auth_store refl refl tt

-- The method 'face' gives a step-up token for the user's key alone.
face_unproved :
    (issue_step_up_token
      (auth_env 500 "t2")
      (record { user_id = "u1"; device_id = none; method = none; otp_code = none })
      auth_store).0
    ≡ returns (StepUpAnswer.token "t2" "face" 180)
unfolding issue_step_up_token trim to_lower
face_unproved = refl

abbrev bob : User
bob = record ann { phone = some "0901234567" }

abbrev bob_store : AuthStore
bob_store = record auth_store { users = bob ∷ [] }

web : (t : String) → lacks_char b'.' t ≡ true → no_space t ≡ true → IsWebText t
web t a b = record { dotless = a; spaceless = b }

resolve-issue_example :
    (k : QrToken) × (r : QrRecipient) × (issue_qr_transfer_token (auth_env 500 "t2") "u1" bob_store
      ≡ returns k)
    × (resolve_qr_transfer_token (auth_env 600 "t2") k.token bob_store ≡ some r)
    × (r.user_id ≡ "u1")
unfolding trim no_space sign_qr_payload
resolve-issue_example =
    resolve-issue (auth_env 500 "t2") (auth_env 600 "t2") bob_store "u1" bob "payload" "sig" refl
      refl refl refl refl refl refl refl refl (web "payload" refl refl) (web "sig" refl refl) refl

abbrev kyc_env : KycEnv
kyc_env = record {
  parse_date = λ t. if str_eq t "2000-01-31" then some "2000-01-31T00:00:00.000Z" else none;
  iso_time = λ t. "1970-01-01T00:00:00.500Z";
  now = 500;
  new_profile_id = 1;
}

abbrev ann_kyc : SubmitKycDto
ann_kyc = record {
  full_name = " Ann ";
  national_id = "079";
  date_of_birth = "2000-01-31";
  id_issue_date = some "";
  id_issue_place = some " ";
  residential_address = "Hue";
}

abbrev kyc_tables : KycTables
kyc_tables = record { auth = auth_store; profiles = [] }

submit_kyc-Submitted_example :
    (let r = submit_kyc kyc_env "u1" ann_kyc kyc_tables in Submitted "u1" kyc_tables r.1 r.0)
submit_kyc-Submitted_example = submit_kyc-Submitted kyc_env "u1" ann_kyc kyc_tables

-- The profile of the first submission keeps its key, and an unknown date is refused.
submitted_again :
    (let first = (submit_kyc kyc_env "u1" ann_kyc kyc_tables).1 in
      let later = record kyc_env { new_profile_id = 2 } in
      (submit_kyc later "u1" ann_kyc first ≡ submit_kyc kyc_env "u1" ann_kyc kyc_tables)
      × (submit_kyc kyc_env "u1" (record ann_kyc { id_issue_date = some "soon" }) first
          ≡ (throws (bad_request "idIssueDate is invalid"), first)))
unfolding submit_kyc trim
submitted_again = (refl, refl)
