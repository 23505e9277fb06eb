-- ===== src/Auth/Sessions.antt =====
-- The refresh tokens of src/auth/auth.service.ts of auth-service: issueTokens, refreshAccessToken,
-- revokeRefreshToken, revokeAllSessionsByAccessToken.
pub mod Retired
pub mod Spent
use kufi_e_wallet_with_hyper.Prelude.{
  ℕ, ◌+◌, ◌*◌, leb, ◌==◌, String, str_eq, Bool, false, not, ◌&&◌, ◌||◌, if◌then◌else◌, Option, none,
  some, or_else, is_some, List, [], ◌∷◌, ◌++◌,
}
use kufi_e_wallet_with_hyper.Prelude.Rows.{find_one, save}
use kufi_e_wallet_with_hyper.Auth.{
  AccessTokenPayload, User, AuthSession, AuthStore, Thrown, unauthorized, duplicate_key, Outcome,
  returns, throws, FirebaseUser, AuthEnv, is_active,
}
use kufi_e_wallet_with_hyper.Auth.Users.{find_by_id}
use kufi_e_wallet_with_hyper.Auth.Pins.{has_pin}

pub record AuthUser : Type 0 where
  pub id : String
  pub firebase_uid : String
  pub email : Option String
  pub phone : Option String
  pub display_name : Option String
  pub kyc_status : String
  pub has_pin : Bool

pub record AuthResult : Type 0 where
  pub access_token : String
  pub expires_in : ℕ
  pub refresh_token : String
  pub refresh_expires_in : ℕ
  pub user : AuthUser

pub record SessionContext : Type 0 where
  pub user_agent : Option String
  pub ip_address : Option String

abbrev pub has_hash : String → AuthSession → Bool
has_hash hash x = str_eq x.refresh_token_hash hash

pub new_session : AuthEnv → User → SessionContext → AuthSession
new_session env u context = record {
  id = env.new_row_id;
  user_id = u.id;
  refresh_token_hash = env.sha256 env.random_token;
  refresh_token_expires_at = env.now + env.config.refresh_ttl_seconds * 1000;
  revoked_at = none;
  last_used_at = none;
  user_agent = context.user_agent;
  ip_address = context.ip_address;
}

auth_result : AuthEnv → User → AuthResult
auth_result env u = record {
  access_token = env.sign_token (record {
    sub = some u.id;
    firebase_uid = u.firebase_uid;
    kyc_status = u.kyc_status;
    jti = env.jti;
  });
  expires_in = env.config.access_ttl_seconds;
  refresh_token = env.random_token;
  refresh_expires_in = env.config.refresh_ttl_seconds;
  user = record {
    id = u.id;
    firebase_uid = u.firebase_uid;
    email = u.email;
    phone = u.phone;
    display_name = u.display_name;
    kyc_status = u.kyc_status;
    has_pin = has_pin u;
  };
}

-- issueTokens: the insert is refused where the key or the hash is taken.
unfoldable pub issue_tokens :
    AuthEnv → SessionContext → User → AuthStore → Outcome AuthResult × AuthStore
unfolding new_session auth_result
issue_tokens env context u s =
    let row = new_session env u context in
    if is_some (find_one (λ x. x.id == row.id) s.sessions)
      || is_some (find_one (has_hash row.refresh_token_hash) s.sessions)
    then (throws duplicate_key, s)
    else (returns (auth_result env u), record s { sessions = s.sessions ++ (row ∷ []) })

abbrev pub invalid_access_token : Thrown
invalid_access_token = unauthorized "Invalid access token"

-- The session after its token is used or revoked
unfoldable pub revoked : AuthEnv → AuthSession → AuthSession
revoked env x = record x { revoked_at = some env.now; last_used_at = some env.now }

abbrev pub save_session : AuthSession → AuthStore → AuthStore
save_session x s = record s { sessions = save (λ (y : AuthSession). y.id) x s.sessions }

-- Firebase knows the user, and has not disabled it.
enabled : Option FirebaseUser → Bool
enabled none = false
enabled (some f) = not f.disabled

unfoldable pub refresh_user :
    AuthEnv → SessionContext → Option User → AuthStore → Outcome AuthResult × AuthStore
unfolding enabled
refresh_user env context none s = (throws (unauthorized "User not found"), s)
refresh_user env context (some u) s =
    if not (is_active u.account_status)
    then (throws (unauthorized "User is not active"), s)
    else (if enabled (env.get_firebase_user u.firebase_uid)
        then issue_tokens env context u s
        else (throws (unauthorized "User is disabled or invalid"), s))

abbrev pub refresh_refused : Thrown
refresh_refused = unauthorized "Invalid or expired refresh token"

unfoldable pub refresh_session :
    AuthEnv → SessionContext → Option AuthSession → AuthStore → Outcome AuthResult × AuthStore
unfolding revoked refresh_user
refresh_session env context none s = (throws refresh_refused, s)
refresh_session env context (some x) s =
    let t = save_session (revoked env x) s in
    if is_some x.revoked_at || leb x.refresh_token_expires_at env.now
    then (throws refresh_refused, s)
    else refresh_user env context (find_by_id x.user_id t) t

unfoldable pub refresh_access_token :
    AuthEnv → String → SessionContext → AuthStore → Outcome AuthResult × AuthStore
unfolding refresh_session
refresh_access_token env token context s =
    refresh_session env context (find_one (has_hash (env.sha256 token)) s.sessions) s

revoke_found : AuthEnv → Option AuthSession → AuthStore → AuthStore
unfolding revoked
revoke_found env none s = s
revoke_found env (some x) s = if is_some x.revoked_at then s else save_session (revoked env x) s

unfoldable pub revoke_refresh_token : AuthEnv → String → AuthStore → AuthStore
unfolding revoke_found
revoke_refresh_token env token s =
    revoke_found env (find_one (has_hash (env.sha256 token)) s.sessions) s

-- `update` of the live sessions of a user
unfoldable pub revoke_all_of : AuthEnv → String → List AuthSession → List AuthSession
unfolding revoked
revoke_all_of env user [] = []
revoke_all_of env user (x ∷ xs) =
    (if str_eq x.user_id user && not (is_some x.revoked_at) then revoked env x else x)
    ∷ revoke_all_of env user xs

-- A token without a subject, which the service does not make, stands for no user.
revoke_payload : AuthEnv → Option AccessTokenPayload → AuthStore → Outcome (Unit {0}) × AuthStore
unfolding revoke_all_of
revoke_payload env none s = (throws invalid_access_token, s)
revoke_payload env (some payload) s =
    (returns tt, record s { sessions = revoke_all_of env (or_else payload.sub "") s.sessions })

-- revokeAllSessionsByAccessToken
unfoldable pub revoke_all_sessions : AuthEnv → String → AuthStore → Outcome (Unit {0}) × AuthStore
unfolding revoke_payload
revoke_all_sessions env access_token s = revoke_payload env (env.verify_token access_token) s
