-- ===== src/Auth/SignUp.antt =====
-- The sign-up of src/auth/auth-internal.controller.ts of auth-service: checkSignUpAvailability,
-- sendSignUpEmailOtp, verifySignUpEmailOtp.
use Prim.Native.Char.{code}
use kufi_e_wallet_with_hyper.Prelude.{
  ℕ, max, leb, ◌==◌, String, Bool, true, false, not, ◌&&◌, ◌||◌, if◌then◌else◌, Option, none, some,
  or_else, is_some, List, [], ◌∷◌,
}
use kufi_e_wallet_with_hyper.Prelude.Text.{is_empty, trim, to_lower, text_length}
use kufi_e_wallet_with_hyper.Prelude.Text.Split.{split}
use kufi_e_wallet_with_hyper.Auth.{
  OtpPurpose, AuthStore, Thrown, bad_request, Outcome, returns, throws, AuthEnv,
}
use kufi_e_wallet_with_hyper.Auth.Phones.{normalize_sign_up_phone, is_ready_phone}
use kufi_e_wallet_with_hyper.Auth.Users.{find_by_email, find_by_phone}
use kufi_e_wallet_with_hyper.Auth.Otps.{OtpSubject, store_otp_code, consume_otp_code}

is_letter : ℕ → Bool
is_letter c = leb b'a' c && leb c b'z' || leb b'A' c && leb c b'Z'

is_alphanumeric : ℕ → Bool
unfolding is_letter
is_alphanumeric c = is_letter c || leb b'0' c && leb c b'9'

-- `[a-zA-Z0-9.!#$%&'*+/=?^_`{|}~-]`
is_local : ℕ → Bool
unfolding is_alphanumeric
is_local c =
    is_alphanumeric c
    || c == 33
    || leb 35 c && leb c 39
    || leb 42 c && leb c 43
    || leb 45 c && leb c 47
    || c == 61
    || c == 63
    || leb 94 c && leb c 96
    || leb 123 c && leb c 126

-- `[a-zA-Z0-9-]`
is_label : ℕ → Bool
unfolding is_alphanumeric
is_label c = is_alphanumeric c || c == 45

all_chars : (ℕ → Bool) → String → Bool
all_chars p String.[] = true
all_chars p (String.◌∷◌ c s) = p (code c) && all_chars p s

-- `([a-zA-Z0-9-]+\.)+[a-zA-Z]{2,}` on the pieces between the dots, after the first one
is_domain_tail : List String → Bool
unfolding is_letter is_label all_chars
is_domain_tail [] = false
is_domain_tail (label ∷ labels) =
    let longer = is_domain_tail labels in
    elim labels [
      | [] ↦ all_chars is_letter label && leb 2 (text_length label)
      | next ∷ rest ↦ not (is_empty label) && all_chars is_label label && longer
    ]

is_domain : List String → Bool
unfolding is_domain_tail is_label all_chars
is_domain [] = false
is_domain (label ∷ labels) =
    not (is_empty label) && all_chars is_label label && is_domain_tail labels

-- looksLikeEmail: the two sides of the only '@'
unfoldable pub looks_like_email : String → Bool
unfolding is_local all_chars is_domain
looks_like_email email = elim (split b'@' email) [
  | [] ↦ false
  | name ∷ sides ↦ elim sides [
    | [] ↦ false
    | domain ∷ more ↦ elim more [
      | [] ↦ not (is_empty name) && all_chars is_local name && is_domain (split b'.' domain)
      | extra ∷ rest ↦ false
    ]
  ]
]

pub record Availability : Type 0 where
  pub given : String
  pub valid : Bool
  pub available : Bool

-- An empty value is valid, and not available.
availability : String → Bool → Bool → Availability
availability given well_formed taken = record {
  given = given;
  valid = is_empty given || well_formed;
  available = not (is_empty given) && well_formed && not taken;
}

-- checkSignUpAvailability: the email and the phone
unfoldable pub check_sign_up_availability :
    Option String → Option String → AuthStore → Availability × Availability
unfolding availability
check_sign_up_availability email phone s =
    let e = to_lower (trim (or_else email "")) in
    let p = normalize_sign_up_phone (or_else phone "") in
    (
      availability e (looks_like_email e) (is_some (find_by_email e s)),
      availability p (is_ready_phone p) (is_some (find_by_phone p s)),
    )

sign_up_subject : AuthEnv → String → OtpSubject
sign_up_subject env email = record {
  user_id = env.sign_up_id email;
  device_id = email;
  purpose = OtpPurpose.step_up_email;
}

invalid_email : Thrown
invalid_email = bad_request "Invalid email format"

-- The seconds that the code lives; the row stays where the mail is not sent.
send_code : AuthEnv → String → AuthStore → Outcome ℕ × AuthStore
unfolding sign_up_subject
send_code env email s =
    let expires_in = max 60 env.config.signup_email_otp_ttl_seconds in
    let t = store_otp_code env (sign_up_subject env email) env.random_code expires_in s in
    elim (env.send_email_otp email env.random_code expires_in "signup") [
      | none ↦ (returns expires_in, t)
      | some message ↦ (throws (bad_request message), t)
    ]

unfoldable pub send_sign_up_email_otp : AuthEnv → String → AuthStore → Outcome ℕ × AuthStore
unfolding invalid_email send_code
send_sign_up_email_otp env raw s =
    let email = to_lower (trim raw) in
    if not (looks_like_email email)
    then (throws invalid_email, s)
    else (if is_some (find_by_email email s)
        then (throws (bad_request "Email already in use"), s)
        else send_code env email s)

consumed : Bool × AuthStore → Outcome Bool × AuthStore
consumed (valid, s) = (returns valid, s)

unfoldable pub verify_sign_up_email_otp :
    AuthEnv → String → String → AuthStore → Outcome Bool × AuthStore
unfolding invalid_email sign_up_subject consumed
verify_sign_up_email_otp env raw otp_code s =
    let email = to_lower (trim raw) in
    if looks_like_email email
    then consumed (consume_otp_code env (sign_up_subject env email) (trim otp_code) s)
    else (throws invalid_email, s)
