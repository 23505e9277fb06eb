-- ===== src/Auth/Logins/Kept.antt =====
-- The logins of auth-service add no session but the one whose token they give.
use kufi_e_wallet_with_hyper.Prelude.{
  arith, String, Bool, true, false, Bool-cases, not, Option, none, some, or_else, text_append, ◌≢◌,
  sym, inl, inr, All, if◌then◌else◌,
}
use mathlib.Core.Path.{subst}
use kufi_e_wallet_with_hyper.Auth.{
  User, AuthStore, unauthorized, bad_request, plain_error, duplicate_key, firebase_error, Outcome,
  returns, throws, FirebaseUser, AuthEnv,
}
use kufi_e_wallet_with_hyper.Auth.Users.{FirebaseUserPayload, upsert_from_firebase, upsert-sessions}
use kufi_e_wallet_with_hyper.Auth.Sessions.{AuthResult, SessionContext}
use kufi_e_wallet_with_hyper.Auth.Sessions.Retired.{Retired, IsSpent, issue_tokens-Retired}
use kufi_e_wallet_with_hyper.Auth.Logins.{
  UserProfileHints, issue_if_active, payload_of, login_of_firebase_user, verify_firebase_id_token,
  dev_user, issue_to, dev_login, existing_user, found_instead, login_of_uid,
}

module _ (hash : String) (env : AuthEnv) (context : SessionContext)
    (other : env.sha256 env.random_token ≢ hash) where
  issue_if_active-Retired :
      (out : Outcome User × AuthStore)
      → Retired hash out.1
      → Retired hash (issue_if_active env context out).1
  unfolding issue_if_active
  issue_if_active-Retired (throws e, s) h = h
  issue_if_active-Retired (returns u, s) h =
      ground (arith, issue_tokens-Retired hash env context u s other h)

  issue_to-Retired :
      (out : Outcome User × AuthStore)
      → Retired hash out.1
      → Retired hash (issue_to env context out).1
  unfolding issue_to
  issue_to-Retired (throws e, s) h = h
  issue_to-Retired (returns u, s) h = issue_tokens-Retired hash env context u s other h

  upsert-Retired :
      (p : FirebaseUserPayload) (s : AuthStore)
      → Retired hash s
      → Retired hash (upsert_from_firebase env p s).1
  upsert-Retired p s h = subst (λ xs. All (IsSpent hash) xs) (sym (upsert-sessions env p s)) h

  found_instead-Retired :
      (u : Option User) (s : AuthStore) → Retired hash s → Retired hash (found_instead u s).1
  unfolding found_instead
  found_instead-Retired none s h = h
  found_instead-Retired (some u) s h = h

  dev_user-Retired :
      (phone : Option String) (email : String) (out : Outcome User × AuthStore)
      → Retired hash out.1
      → Retired hash (dev_user phone email out).1
  unfolding dev_user
  dev_user-Retired phone email (returns u, s) h = h
  dev_user-Retired phone email (throws duplicate_key, s) h =
      found_instead-Retired (existing_user phone email s) s h
  dev_user-Retired phone email (throws (unauthorized m), s) h = h
  dev_user-Retired phone email (throws (bad_request m), s) h = h
  dev_user-Retired phone email (throws (plain_error m), s) h = h
  dev_user-Retired phone email (throws firebase_error, s) h = h

  firebase_user-Retired :
      (hints : UserProfileHints) (f : Option FirebaseUser) (s : AuthStore)
      → Retired hash s
      → Retired hash (login_of_firebase_user env context hints f s).1
  unfolding login_of_firebase_user
  firebase_user-Retired hints none s h = h
  firebase_user-Retired hints (some f) s h = elim (Bool-cases f.disabled) [
    | inl off ↦ rw off h
    | inr on ↦ rw on (
        issue_if_active-Retired (upsert_from_firebase env (payload_of f hints) s)
          (upsert-Retired (payload_of f hints) s h))
  ]

  uid-Retired :
      (hints : UserProfileHints) (uid : Option String) (s : AuthStore)
      → Retired hash s
      → Retired hash (login_of_uid env context hints uid s).1
  unfolding login_of_uid
  uid-Retired hints none s h = h
  uid-Retired hints (some uid) s h = firebase_user-Retired hints (env.get_firebase_user uid) s h

  pub verify_firebase_id_token-Retired :
      (id_token : String) (hints : UserProfileHints) (s : AuthStore)
      → Retired hash s
      → Retired hash (verify_firebase_id_token env id_token context hints s).1
  unfolding verify_firebase_id_token
  verify_firebase_id_token-Retired id_token hints s h =
      uid-Retired hints (env.verify_id_token id_token) s h

  either :
      (b : Bool) (x y : Outcome AuthResult × AuthStore)
      → Retired hash x.1
      → Retired hash y.1
      → Retired hash (if b then x else y).1
  either true x y h k = h
  either false x y h k = k

  pub dev_login-Retired :
      (uid : String) (hints : UserProfileHints) (s : AuthStore)
      → Retired hash s
      → Retired hash (dev_login env uid context hints s).1
  unfolding dev_login
  dev_login-Retired uid hints s h =
      let email = or_else hints.email (text_append uid "@dev.local") in
      let p : FirebaseUserPayload = record {
        firebase_uid = uid;
        email = some email;
        phone = hints.phone;
        display_name = some (or_else hints.display_name uid);
      } in
      either (not env.config.auth_dev_mode) (throws (unauthorized "Dev login is disabled"), s)
        (issue_to env context (dev_user hints.phone email (upsert_from_firebase env p s))) h
        (issue_to-Retired (dev_user hints.phone email (upsert_from_firebase env p s)) (
          dev_user-Retired hints.phone email (upsert_from_firebase env p s) (upsert-Retired p s h)))
