-- ===== src/Auth/Logins.antt =====
-- The logins and access tokens of src/auth/auth.service.ts of auth-service: verifyFirebaseIdToken,
-- resolveLoginIdentifier, verifyInternalToken, devLogin.
pub mod Kept
use kufi_e_wallet_with_hyper.Prelude.{
  String, text_append, not, if◌then◌else◌, Option, none, some, or_else,
}
use kufi_e_wallet_with_hyper.Prelude.Text.{is_empty, trim}
use kufi_e_wallet_with_hyper.Prelude.Text.Split.{includes}
use kufi_e_wallet_with_hyper.Auth.{
  User, AuthStore, unauthorized, duplicate_key, firebase_error, Outcome, returns, throws,
  FirebaseUser, AccessTokenPayload, AuthEnv, is_active,
}
use kufi_e_wallet_with_hyper.Auth.Users.{
  FirebaseUserPayload, find_by_id, find_by_email, find_by_phone, upsert_from_firebase, or_other,
}
use kufi_e_wallet_with_hyper.Auth.Sessions.{
  AuthResult, SessionContext, issue_tokens, invalid_access_token,
}

pub record VerifyTokenResult : Type 0 where
  pub user_id : String
  pub firebase_uid : String
  pub kyc_status : String

pub record UserProfileHints : Type 0 where
  pub email : Option String
  pub phone : Option String
  pub display_name : Option String

-- Tokens for an active user
issue_if_active :
    AuthEnv → SessionContext → Outcome User × AuthStore → Outcome AuthResult × AuthStore
issue_if_active env context (throws e, s) = (throws e, s)
issue_if_active env context (returns u, s) =
    if is_active u.account_status
    then issue_tokens env context u s
    else (throws (unauthorized "User is not active"), s)

payload_of : FirebaseUser → UserProfileHints → FirebaseUserPayload
payload_of f hints = record {
  firebase_uid = f.uid;
  email = or_other f.email hints.email;
  phone = or_other f.phone_number hints.phone;
  display_name = or_other f.display_name hints.display_name;
}

login_of_firebase_user :
    AuthEnv
    → SessionContext
    → UserProfileHints
    → Option FirebaseUser
    → AuthStore
    → Outcome AuthResult × AuthStore
unfolding issue_if_active payload_of
login_of_firebase_user env context hints none s = (throws firebase_error, s)
login_of_firebase_user env context hints (some f) s =
    if f.disabled
    then (throws (unauthorized "User is disabled"), s)
    else issue_if_active env context (upsert_from_firebase env (payload_of f hints) s)

login_of_uid :
    AuthEnv
    → SessionContext
    → UserProfileHints
    → Option String
    → AuthStore
    → Outcome AuthResult × AuthStore
unfolding login_of_firebase_user
login_of_uid env context hints none s =
    (throws (unauthorized "Invalid or expired Firebase token"), s)
login_of_uid env context hints (some uid) s =
    login_of_firebase_user env context hints (env.get_firebase_user uid) s

unfoldable pub verify_firebase_id_token :
    AuthEnv
    → String
    → SessionContext
    → UserProfileHints
    → AuthStore
    → Outcome AuthResult × AuthStore
unfolding login_of_uid
verify_firebase_id_token env id_token context hints s =
    login_of_uid env context hints (env.verify_id_token id_token) s

-- resolveLoginIdentifier; none is `{ found: false, email: '' }`.
unfoldable pub resolve_login_identifier : String → AuthStore → Option String
resolve_login_identifier raw s =
    let identifier = trim raw in
    let found =
      if includes "@" identifier then find_by_email identifier s else find_by_phone identifier s in
    if is_empty identifier then none else elim found [
      | none ↦ none
      | some u ↦ if is_empty (or_else u.email "") then none else u.email
    ]

token_user : Option User → Outcome VerifyTokenResult
token_user none = throws (unauthorized "User not found")
token_user (some u) =
    if is_active u.account_status
    then returns
        (record { user_id = u.id; firebase_uid = u.firebase_uid; kyc_status = u.kyc_status })
    else throws (unauthorized "User is not active")

abbrev subject : Option AccessTokenPayload → String
subject none = ""
subject (some p) = or_else p.sub ""

unfoldable pub verify_internal_token : AuthEnv → String → AuthStore → Outcome VerifyTokenResult
unfolding token_user
verify_internal_token env access_token s =
    let sub = subject (env.verify_token access_token) in
    if is_empty sub then throws invalid_access_token else token_user (find_by_id sub s)

-- The user that is there already, where the upsert has met a unique index
existing_user : Option String → String → AuthStore → Option User
existing_user phone email s =
    let by_email = if is_empty email then none else find_by_email email s in
    let by_phone =
      if is_empty (or_else phone "") then none else find_by_phone (or_else phone "") s in
    elim by_phone [ some u ↦ some u | none ↦ by_email ]

found_instead : Option User → AuthStore → Outcome User × AuthStore
found_instead (some u) s = (returns u, s)
found_instead none s = (throws duplicate_key, s)

dev_user : Option String → String → Outcome User × AuthStore → Outcome User × AuthStore
unfolding existing_user found_instead
dev_user phone email (returns u, s) = (returns u, s)
dev_user phone email (throws duplicate_key, s) = found_instead (existing_user phone email s) s
dev_user phone email (throws e, s) = (throws e, s)

issue_to : AuthEnv → SessionContext → Outcome User × AuthStore → Outcome AuthResult × AuthStore
issue_to env context (throws e, s) = (throws e, s)
issue_to env context (returns u, s) = issue_tokens env context u s

-- devLogin
unfoldable pub dev_login :
    AuthEnv
    → String
    → SessionContext
    → UserProfileHints
    → AuthStore
    → Outcome AuthResult × AuthStore
unfolding dev_user issue_to
dev_login env firebase_uid context hints s =
    let email = or_else hints.email (text_append firebase_uid "@dev.local") in
    if not env.config.auth_dev_mode
    then (throws (unauthorized "Dev login is disabled"), s)
    else issue_to env context (
        dev_user hints.phone email (
          upsert_from_firebase env
            (record {
              firebase_uid = firebase_uid;
              email = some email;
              phone = hints.phone;
              display_name = some (or_else hints.display_name firebase_uid);
            })
            s))
