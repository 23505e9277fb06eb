-- ===== src/Auth/Runs.antt =====
-- The calls of src/auth/auth.service.ts of auth-service, one after another, and the refresh token that
-- has been used.
use kufi_e_wallet_with_hyper.Prelude.{String, List, [], ◌∷◌, ◌≡◌, ◌≢◌, refl, ap, ◌∙◌, All}
use kufi_e_wallet_with_hyper.Prelude.Rows.{find_one}
use kufi_e_wallet_with_hyper.Auth.{AuthStore, returns, throws, AuthEnv}
use kufi_e_wallet_with_hyper.Auth.Sessions.{
  AuthResult, SessionContext, has_hash, refresh_access_token, refresh_refused, refresh_session,
  revoke_refresh_token, revoke_all_sessions,
}
use kufi_e_wallet_with_hyper.Auth.Logins.{UserProfileHints, verify_firebase_id_token, dev_login}
use kufi_e_wallet_with_hyper.Auth.Cleanup.{cleanup}
use kufi_e_wallet_with_hyper.Auth.Sessions.Retired.{
  Retired, still-Retired, revoke-Retired, revoke_all-Retired, cleanup-Retired,
}
use kufi_e_wallet_with_hyper.Auth.Sessions.Spent.{
  UniqueSessions, refresh_access_token-Retired, refused,
}
use kufi_e_wallet_with_hyper.Auth.Logins.Kept.{verify_firebase_id_token-Retired, dev_login-Retired}

-- A call that changes the sessions, and the environment that it sees
pub data AuthCall : Type 0 where
  refresh : AuthEnv → String → SessionContext → AuthCall
  revoke : AuthEnv → String → AuthCall
  revoke_all : AuthEnv → String → AuthCall
  login : AuthEnv → String → SessionContext → UserProfileHints → AuthCall
  dev : AuthEnv → String → SessionContext → UserProfileHints → AuthCall
  clean : AuthEnv → AuthCall

abbrev pub env_of : AuthCall → AuthEnv
env_of (refresh env token context) = env
env_of (revoke env token) = env
env_of (revoke_all env token) = env
env_of (login env token context hints) = env
env_of (dev env uid context hints) = env
env_of (clean env) = env

abbrev pub run_call : AuthCall → AuthStore → AuthStore
run_call (refresh env token context) s = (refresh_access_token env token context s).1
run_call (revoke env token) s = revoke_refresh_token env token s
run_call (revoke_all env token) s = (revoke_all_sessions env token s).1
run_call (login env token context hints) s = (verify_firebase_id_token env token context hints s).1
run_call (dev env uid context hints) s = (dev_login env uid context hints s).1
run_call (clean env) s = cleanup env.now s

abbrev pub run_calls : List AuthCall → AuthStore → AuthStore
run_calls [] s = s
run_calls (c ∷ cs) s = run_calls cs (run_call c s)

-- The random token of the call does not have the hash.
abbrev pub IsOther : String → AuthCall → Type 0
IsOther hash c = (env_of c).sha256 (env_of c).random_token ≢ hash

run_call-Retired :
    (hash : String) (c : AuthCall) (s : AuthStore)
    → IsOther hash c
    → Retired hash s
    → Retired hash (run_call c s)
run_call-Retired hash (refresh env token context) s other h =
    still-Retired hash env token context s other h
run_call-Retired hash (revoke env token) s other h = revoke-Retired hash env token s h
run_call-Retired hash (revoke_all env token) s other h = revoke_all-Retired hash env token s h
run_call-Retired hash (login env token context hints) s other h =
    verify_firebase_id_token-Retired hash env context other token hints s h
run_call-Retired hash (dev env uid context hints) s other h =
    dev_login-Retired hash env context other uid hints s h
run_call-Retired hash (clean env) s other h = cleanup-Retired hash env.now s h

run_calls-Retired :
    (hash : String) (cs : List AuthCall) (s : AuthStore)
    → All (IsOther hash) cs
    → Retired hash s
    → Retired hash (run_calls cs s)
run_calls-Retired hash [] s others h = h
run_calls-Retired hash (c ∷ cs) s others h =
    run_calls-Retired hash cs (run_call c s) others.1 (run_call-Retired hash c s others.0 h)

-- With unique keys in the table of the sessions, once refreshAccessToken has given new tokens for a
-- refresh token, that token is refused ever after and nothing changes: whatever logins, refreshes,
-- revocations and cleanups run in between, if none of them draws a random token of the same hash.
pub refresh_access_token-once :
    (env : AuthEnv) (token : String) (context : SessionContext) (s : AuthStore) (a : AuthResult)
    (cs : List AuthCall) (env' : AuthEnv) (context' : SessionContext)
    → UniqueSessions s.sessions
    → env.sha256 env.random_token ≢ env.sha256 token
    → (refresh_access_token env token context s).0 ≡ returns a
    → All (IsOther (env.sha256 token)) cs
    → env'.sha256 token ≡ env.sha256 token
    → (let t = run_calls cs (refresh_access_token env token context s).1 in
        refresh_access_token env' token context' t ≡ (throws refresh_refused, t))
unfolding refresh_access_token
refresh_access_token-once env token context s a cs env' context' u other done others same =
    let hash = env.sha256 token in
    let t = run_calls cs (refresh_access_token env token context s).1 in
    ap (λ h. refresh_session env' context' (find_one (has_hash h) t.sessions) t) same
    ∙ refused hash env' context' t (find_one (has_hash hash) t.sessions) refl (
        run_calls-Retired hash cs (refresh_access_token env token context s).1 others
          (refresh_access_token-Retired env token context s a u other done))
