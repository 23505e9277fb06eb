-- ===== src/Auth/Cleanup.antt =====
-- src/auth/auth-sessions-cleanup.service.ts of auth-service.
use kufi_e_wallet_with_hyper.Prelude.{ℕ, ltb, Bool, false, Option, none, some}
use kufi_e_wallet_with_hyper.Auth.{AuthSession, AuthOtp, AuthStepUpToken, AuthStore, delete_where}

-- `LessThan(now)` of a column that may be null
abbrev pub before : ℕ → Option ℕ → Bool
before now none = false
before now (some t) = ltb t now

-- cleanupExpiredAndRevokedSessions
unfoldable pub cleanup : ℕ → AuthStore → AuthStore
cleanup now s = record s {
  sessions =
      delete_where (λ (x : AuthSession). before now x.revoked_at)
        (delete_where (λ (x : AuthSession). ltb x.refresh_token_expires_at now) s.sessions);
  otps =
      delete_where (λ (o : AuthOtp). before now o.used_at)
        (delete_where (λ (o : AuthOtp). ltb o.expires_at now) s.otps);
  step_up_tokens = delete_where (λ (t : AuthStepUpToken). ltb t.expires_at now) s.step_up_tokens;
}
