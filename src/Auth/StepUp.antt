-- ===== src/Auth/StepUp.antt =====
-- The step-up tokens of src/auth/auth-internal.controller.ts of auth-service: issueStepUpToken and
-- verifyStepUpToken.
use kufi_e_wallet_with_hyper.Prelude.{
  ℕ, ◌+◌, ◌*◌, max, leb, ◌==◌, String, str_eq, Bool, true, false, not, ◌&&◌, if◌then◌else◌, Option,
  none, some, or_else, is_some, [], ◌∷◌, ◌++◌,
}
use kufi_e_wallet_with_hyper.Prelude.Text.{is_empty, or_text, or_none, trim, to_lower}
use kufi_e_wallet_with_hyper.Prelude.Rows.{find_one}
use kufi_e_wallet_with_hyper.Auth.{
  User, OtpPurpose, AuthStepUpToken, AuthStore, bad_request, duplicate_key, Outcome, returns,
  throws, AuthEnv, delete_where,
}
use kufi_e_wallet_with_hyper.Auth.Users.{find_by_id}
use kufi_e_wallet_with_hyper.Auth.Otps.{
  OtpSubject, store_otp_code, consume_otp_code, user_not_found,
}

pub record StepUpRequest : Type 0 where
  pub user_id : String
  pub device_id : Option String
  pub method : Option String
  pub otp_code : Option String

-- A code that is sent by mail, or a token
pub data StepUpAnswer : Type 0 where
  challenge : ℕ → StepUpAnswer
  token : String → String → ℕ → StepUpAnswer

abbrev trimmed : Option String → String
trimmed t = trim (or_else t "")

step_up_row : AuthEnv → StepUpRequest → String → ℕ → AuthStepUpToken
step_up_row env r method expires_in = record {
  id = env.new_row_id;
  token = env.random_token;
  user_id = r.user_id;
  device_id = or_none (trimmed r.device_id);
  method = some method;
  expires_at = env.now + expires_in * 1000;
}

give_token : AuthEnv → StepUpRequest → String → AuthStore → Outcome StepUpAnswer × AuthStore
unfolding step_up_row
give_token env r method s =
    let expires_in = max 60 env.config.step_up_token_ttl_seconds in
    let row = step_up_row env r method expires_in in
    if is_some (find_one (λ (x : AuthStepUpToken). str_eq x.token row.token) s.step_up_tokens)
    then (throws duplicate_key, s)
    else (
      returns (StepUpAnswer.token env.random_token method expires_in),
      record s { step_up_tokens = s.step_up_tokens ++ (row ∷ []) },
    )

abbrev subject_of : StepUpRequest → OtpSubject
subject_of r = record {
  user_id = r.user_id;
  device_id = trimmed r.device_id;
  purpose = OtpPurpose.step_up_email;
}

-- A new code by mail; the row stays where the mail is not sent.
send_challenge : AuthEnv → StepUpRequest → String → AuthStore → Outcome StepUpAnswer × AuthStore
send_challenge env r email s =
    let expires_in = max 60 env.config.step_up_email_otp_ttl_seconds in
    let t = store_otp_code env (subject_of r) env.random_code expires_in s in
    elim (env.send_email_otp email env.random_code expires_in "step_up") [
      | none ↦ (returns (StepUpAnswer.challenge expires_in), t)
      | some message ↦ (throws (bad_request message), t)
    ]

after_code : AuthEnv → StepUpRequest → String → Bool × AuthStore → Outcome StepUpAnswer × AuthStore
unfolding give_token
after_code env r method (true, s) = give_token env r method s
after_code env r method (false, s) = (throws (bad_request "Invalid or expired OTP for step-up"), s)

step_up_by_email :
    AuthEnv → StepUpRequest → String → User → AuthStore → Outcome StepUpAnswer × AuthStore
unfolding send_challenge after_code
step_up_by_email env r method u s =
    let email = to_lower (trimmed u.email) in
    let code = trimmed r.otp_code in
    if is_empty email
    then (throws (bad_request "User email is required for step-up OTP"), s)
    else (if is_empty code
        then send_challenge env r email s
        else after_code env r method (consume_otp_code env (subject_of r) code s))

step_up_of : AuthEnv → StepUpRequest → Option User → AuthStore → Outcome StepUpAnswer × AuthStore
unfolding step_up_by_email give_token
step_up_of env r none s = (throws user_not_found, s)
step_up_of env r (some u) s =
    let method = or_text (trimmed r.method) "face" in
    if str_eq (to_lower method) "otp_email"
    then step_up_by_email env r method u s
    else give_token env r method s

unfoldable pub issue_step_up_token :
    AuthEnv → StepUpRequest → AuthStore → Outcome StepUpAnswer × AuthStore
unfolding step_up_of
issue_step_up_token env r s = step_up_of env r (find_by_id r.user_id s) s

-- Both devices are named and differ.
other_device : AuthStepUpToken → Option String → Bool
other_device row device =
    let saved = trimmed row.device_id in
    let requested = trimmed device in
    not (is_empty saved) && not (is_empty requested) && not (str_eq saved requested)

verify_row :
    AuthEnv → String → Option String → Option AuthStepUpToken → AuthStore → Bool × AuthStore
unfolding other_device
verify_row env user_id device none s = (false, s)
verify_row env user_id device (some row) s =
    if leb row.expires_at env.now
    then (
      false,
      record s {
        step_up_tokens = delete_where (λ (x : AuthStepUpToken). x.id == row.id) s.step_up_tokens;
      },
    )
    else (str_eq row.user_id user_id && not (other_device row device), s)

unfoldable pub verify_step_up_token :
    AuthEnv → String → String → Option String → AuthStore → Bool × AuthStore
unfolding verify_row
verify_step_up_token env user_id given device s =
    verify_row env user_id device
      (find_one (λ (x : AuthStepUpToken). str_eq x.token (trim given)) s.step_up_tokens) s
