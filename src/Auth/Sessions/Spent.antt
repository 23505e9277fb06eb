-- ===== src/Auth/Sessions/Spent.antt =====
-- A refresh token of auth-service whose session is revoked, and the refresh that revokes it.
use mathlib.Core.Option.{some-injective}
use kufi_e_wallet_with_hyper.Prelude.{
  arith, leb, String, eq_iff, Bool, true, false, Bool-cases, ◌||◌, Option, none, some, is_some,
  List, [], ◌∷◌, ◌≡◌, ◌≢◌, refl, sym, ap, ◌∙◌, inl, inr, All,
}
use kufi_e_wallet_with_hyper.Prelude.Rows.{find_one, save}
use kufi_e_wallet_with_hyper.Prelude.Rows.Kept.{All-map}
use kufi_e_wallet_with_hyper.Books.Lookup.{All-find_one, save_head, save_tail}
use kufi_e_wallet_with_hyper.Auth.{
  AuthSession, AuthStore, Thrown, Outcome, returns, throws, AuthEnv,
}
use kufi_e_wallet_with_hyper.Auth.Users.{find_by_id}
use kufi_e_wallet_with_hyper.Auth.Sessions.{
  AuthResult, SessionContext, has_hash, revoked, save_session, refresh_access_token,
  refresh_refused, refresh_session,
}
use kufi_e_wallet_with_hyper.Auth.Sessions.Retired.{IsSpent, Retired, refresh_user-Retired}

has_hash-path :
    (hash : String) (x : AuthSession) → has_hash hash x ≡ true → x.refresh_token_hash ≡ hash
has_hash-path hash x h = ground (arith, eq_iff x.refresh_token_hash hash)

has_hash-other :
    (hash : String) (x : AuthSession) → has_hash hash x ≡ false → x.refresh_token_hash ≢ hash
has_hash-other hash x h e = ground (arith, eq_iff x.refresh_token_hash hash)

find_one-passes :
    (p : AuthSession → Bool) (xs : List AuthSession) (x : AuthSession)
    → find_one p xs ≡ some x
    → p x ≡ true
find_one-passes p [] x e = cc
find_one-passes p (y ∷ ys) x e = ground (arith, find_one-passes p ys x)

find-Retired :
    (hash : String) (s : AuthStore) (x : AuthSession)
    → Retired hash s
    → find_one (has_hash hash) s.sessions ≡ some x
    → is_some x.revoked_at ≡ true
find-Retired hash s x h e =
    All-find_one (IsSpent hash) (has_hash hash) s.sessions x e h
      (has_hash-path hash x (find_one-passes (has_hash hash) s.sessions x e))

-- A spent token is refused, and nothing changes.
pub refused :
    (hash : String) (env : AuthEnv) (context : SessionContext) (s : AuthStore)
    (found : Option AuthSession)
    → find_one (has_hash hash) s.sessions ≡ found
    → Retired hash s
    → refresh_session env context found s ≡ (throws refresh_refused, s)
unfolding refresh_session
refused hash env context s none e h = refl
refused hash env context s (some x) e h = rw (find-Retired hash s x h e) refl

-- The keys of the table of the sessions
abbrev Apart : AuthSession → AuthSession → Type 0
Apart x y = (x.id ≢ y.id) × (x.refresh_token_hash ≢ y.refresh_token_hash)

abbrev pub UniqueSessions : List AuthSession → Type 0
UniqueSessions [] = Unit
UniqueSessions (x ∷ xs) = All (Apart x) xs × UniqueSessions xs

-- Once the session of a hash is revoked, no other one has the hash.
revoke_found-Retired :
    (hash : String) (env : AuthEnv) (xs : List AuthSession) (x : AuthSession)
    → UniqueSessions xs
    → find_one (has_hash hash) xs ≡ some x
    → All (IsSpent hash) (save (λ (y : AuthSession). y.id) (revoked env x) xs)
unfolding revoked
revoke_found-Retired hash env [] x u e = cc
revoke_found-Retired hash env (y ∷ ys) x u e =
    let key = λ (z : AuthSession). z.id in
    elim (Bool-cases (has_hash hash y)) [
      | inl hit ↦
          let same = some-injective y x (rw hit at e) in
          rw (save_head key (revoked env x) y ys (ap key same)) (
            λ h. refl,
            All-map (Apart y) (IsSpent hash) ys
                (λ z a h. absurd (a.1 (has_hash-path hash y hit ∙ sym h))) u.0,
          )
      | inr miss ↦
          let found : find_one (has_hash hash) ys ≡ some x = rw miss at e in
          let apart = All-find_one (Apart y) (has_hash hash) ys x found u.0 in
          rw (save_tail key (revoked env x) y ys apart.0) (
            λ h. absurd (has_hash-other hash y miss h),
            revoke_found-Retired hash env ys x u.1 found,
          )
    ]

throws_not_returns :
    (e : Thrown) (a : AuthResult) → ◌≢◌ {A = Outcome AuthResult} (throws e) (returns a)
throws_not_returns e a h = ground arith

spends :
    (hash : String) (env : AuthEnv) (context : SessionContext) (s : AuthStore) (a : AuthResult)
    (found : Option AuthSession)
    → find_one (has_hash hash) s.sessions ≡ found
    → UniqueSessions s.sessions
    → env.sha256 env.random_token ≢ hash
    → (refresh_session env context found s).0 ≡ returns a
    → Retired hash (refresh_session env context found s).1
unfolding refresh_session
spends hash env context s a none e u other done = ground arith
spends hash env context s a (some x) e u other done =
    elim (Bool-cases (is_some x.revoked_at || leb x.refresh_token_expires_at env.now)) [
      | inl dead ↦ absurd (throws_not_returns refresh_refused a (rw dead at done))
      | inr live ↦
          let t = save_session (revoked env x) s in
          rw live (
            refresh_user-Retired hash env context (find_by_id x.user_id t) t other
              (revoke_found-Retired hash env s.sessions x u e))
    ]

-- A token that has been refreshed belongs to no live session.
pub refresh_access_token-Retired :
    (env : AuthEnv) (token : String) (context : SessionContext) (s : AuthStore) (a : AuthResult)
    → UniqueSessions s.sessions
    → env.sha256 env.random_token ≢ env.sha256 token
    → (refresh_access_token env token context s).0 ≡ returns a
    → Retired (env.sha256 token) (refresh_access_token env token context s).1
unfolding refresh_access_token
refresh_access_token-Retired env token context s a u other done =
    spends (env.sha256 token) env context s a (find_one (has_hash (env.sha256 token)) s.sessions)
      refl u other done
