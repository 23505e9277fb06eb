-- ===== src/Auth/Sessions/Retired.antt =====
-- A refresh token of auth-service is good for one refresh, whatever is called in between.
use kufi_e_wallet_with_hyper.Prelude.{
  ℕ, arith, ◌==◌, ltb, String, str_eq, Bool, true, Bool-cases, not, ◌&&◌, ◌||◌, Option, none, some,
  or_else, is_some, List, [], ◌∷◌, ◌≡◌, ◌≢◌, refl, inl, inr, All, All-append, if◌then◌else◌,
}
use kufi_e_wallet_with_hyper.Prelude.Rows.{find_one}
use kufi_e_wallet_with_hyper.Books.Lookup.{All-save}
use kufi_e_wallet_with_hyper.Auth.{
  User, AuthSession, AuthStore, AuthEnv, AccessTokenPayload, delete_where,
}
use kufi_e_wallet_with_hyper.Auth.Users.{find_by_id}
use kufi_e_wallet_with_hyper.Auth.Sessions.{
  SessionContext, has_hash, issue_tokens, new_session, revoked, save_session, refresh_access_token,
  refresh_session, refresh_user, revoke_refresh_token, revoke_all_sessions, revoke_all_of,
  revoke_payload, revoke_found,
}
use kufi_e_wallet_with_hyper.Auth.Cleanup.{before, cleanup}

-- Each session of the hash is revoked.
abbrev pub IsSpent : String → AuthSession → Type 0
IsSpent hash x = x.refresh_token_hash ≡ hash → is_some x.revoked_at ≡ true

abbrev pub Retired : String → AuthStore → Type 0
Retired hash s = All (IsSpent hash) s.sessions

All-delete_where :
    {A : Type 0} (P : A → Type 0) (p : A → Bool) (xs : List A)
    → All P xs
    → All P (delete_where p xs)
All-delete_where P p [] h = tt
All-delete_where P p (x ∷ xs) h = elim (Bool-cases (p x)) [
  | inl hit ↦ rw hit (All-delete_where P p xs h.1)
  | inr miss ↦ rw miss (h.0, All-delete_where P p xs h.1)
]

pub issue_tokens-Retired :
    (hash : String) (env : AuthEnv) (context : SessionContext) (u : User) (s : AuthStore)
    → env.sha256 env.random_token ≢ hash
    → Retired hash s
    → Retired hash (issue_tokens env context u s).1
unfolding issue_tokens new_session
issue_tokens-Retired hash env context u s other h =
    let row = new_session env u context in
    elim (Bool-cases (
      is_some (find_one (λ (x : AuthSession). x.id == row.id) s.sessions)
      || is_some (find_one (has_hash row.refresh_token_hash) s.sessions))) [
        | inl taken ↦ rw taken h
        | inr free ↦
            rw free (All-append (IsSpent hash) s.sessions (row ∷ []) h (λ e. absurd (other e), tt))
      ]

pub save-Retired :
    (hash : String) (env : AuthEnv) (x : AuthSession) (s : AuthStore)
    → Retired hash s
    → Retired hash (save_session (revoked env x) s)
unfolding revoked
save-Retired hash env x s h =
    All-save (IsSpent hash) (λ (y : AuthSession). y.id) (revoked env x) s.sessions (λ e. refl) h

pub refresh_user-Retired :
    (hash : String) (env : AuthEnv) (context : SessionContext) (u : Option User) (s : AuthStore)
    → env.sha256 env.random_token ≢ hash
    → Retired hash s
    → Retired hash (refresh_user env context u s).1
unfolding refresh_user
refresh_user-Retired hash env context none s other h = h
refresh_user-Retired hash env context (some u) s other h =
    ground (arith, issue_tokens-Retired hash env context u s other h)

refresh_session-Retired :
    (hash : String) (env : AuthEnv) (context : SessionContext) (x : Option AuthSession)
    (s : AuthStore)
    → env.sha256 env.random_token ≢ hash
    → Retired hash s
    → Retired hash (refresh_session env context x s).1
unfolding refresh_session
refresh_session-Retired hash env context none s other h = h
refresh_session-Retired hash env context (some x) s other h =
    let t = save_session (revoked env x) s in
    ground (
      arith,
      refresh_user-Retired hash env context (find_by_id x.user_id t) t other
          (save-Retired hash env x s h),
    )

revoke_one :
    (hash : String) (env : AuthEnv) (user : String) (x : AuthSession)
    → IsSpent hash x
    → IsSpent hash
        (if str_eq x.user_id user && not (is_some x.revoked_at) then revoked env x else x)
unfolding revoked
revoke_one hash env user x h =
    elim (Bool-cases (str_eq x.user_id user && not (is_some x.revoked_at))) [
      | inl live ↦ rw live (λ e. refl)
      | inr other ↦ rw other h
    ]

revoke_all_of-Retired :
    (hash : String) (env : AuthEnv) (user : String) (xs : List AuthSession)
    → All (IsSpent hash) xs
    → All (IsSpent hash) (revoke_all_of env user xs)
unfolding revoke_all_of revoked
revoke_all_of-Retired hash env user [] h = tt
revoke_all_of-Retired hash env user (x ∷ xs) h =
    (revoke_one hash env user x h.0, revoke_all_of-Retired hash env user xs h.1)

pub still-Retired :
    (hash : String) (env : AuthEnv) (token : String) (context : SessionContext) (s : AuthStore)
    → env.sha256 env.random_token ≢ hash
    → Retired hash s
    → Retired hash (refresh_access_token env token context s).1
unfolding refresh_access_token
still-Retired hash env token context s other h =
    refresh_session-Retired hash env context (find_one (has_hash (env.sha256 token)) s.sessions) s
      other h

revoke_found_session-Retired :
    (hash : String) (env : AuthEnv) (found : Option AuthSession) (s : AuthStore)
    → Retired hash s
    → Retired hash (revoke_found env found s)
unfolding revoke_found
revoke_found_session-Retired hash env none s h = h
revoke_found_session-Retired hash env (some x) s h = elim (Bool-cases (is_some x.revoked_at)) [
  | inl dead ↦ rw dead h
  | inr live ↦ rw live (save-Retired hash env x s h)
]

pub revoke-Retired :
    (hash : String) (env : AuthEnv) (token : String) (s : AuthStore)
    → Retired hash s
    → Retired hash (revoke_refresh_token env token s)
unfolding revoke_refresh_token
revoke-Retired hash env token s h =
    revoke_found_session-Retired hash env (find_one (has_hash (env.sha256 token)) s.sessions) s h

revoke_payload-Retired :
    (hash : String) (env : AuthEnv) (p : Option AccessTokenPayload) (s : AuthStore)
    → Retired hash s
    → Retired hash (revoke_payload env p s).1
unfolding revoke_payload
revoke_payload-Retired hash env none s h = h
revoke_payload-Retired hash env (some p) s h =
    revoke_all_of-Retired hash env (or_else p.sub "") s.sessions h

pub revoke_all-Retired :
    (hash : String) (env : AuthEnv) (token : String) (s : AuthStore)
    → Retired hash s
    → Retired hash (revoke_all_sessions env token s).1
unfolding revoke_all_sessions
revoke_all-Retired hash env token s h = revoke_payload-Retired hash env (env.verify_token token) s h

pub cleanup-Retired :
    (hash : String) (now : ℕ) (s : AuthStore) → Retired hash s → Retired hash (cleanup now s)
unfolding cleanup
cleanup-Retired hash now s h =
    All-delete_where (IsSpent hash) (λ (x : AuthSession). before now x.revoked_at)
      (delete_where (λ (x : AuthSession). ltb x.refresh_token_expires_at now) s.sessions)
      (All-delete_where (IsSpent hash) (λ (x : AuthSession). ltb x.refresh_token_expires_at now)
        s.sessions h)
