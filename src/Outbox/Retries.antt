-- ===== src/Outbox/Retries.antt =====
-- The dispatcher of the outbox: its leases, and the bound on its retries.
use native.Mathlib.Nat.{mul-div-le, mul-le-mul_left, min-le_right, one-le-pow}
use mathlib.Core.Path.{subst}
use kufi_e_wallet_with_hyper.Prelude.{
  ℕ, ◌+◌, ◌-◌, ◌*◌, ◌/◌, ◌^◌, ◌<◌, ◌≤◌, ◌≡◌, ◌==◌, refl, ap, sym, Bool, true, false, ◌&&◌, Option,
  none, some, List, [], ◌∷◌, All, arith, if◌then◌else◌, min, max, take,
}
use kufi_e_wallet_with_hyper.Prelude.Rows.{find_one, save, select, order_asc}
use kufi_e_wallet_with_hyper.Prelude.Rows.Kept.{All-take, All-order_asc}
use kufi_e_wallet_with_hyper.Books.Lookup.{All-save, All-find_one}
use kufi_e_wallet_with_hyper.Entities.{OutboxEvent, is_pending_event, EventPayload}
use kufi_e_wallet_with_hyper.Store.{Reply}
use kufi_e_wallet_with_hyper.Outbox.{
  OutboxConfig, event_jitter, compute_next_attempt_at, publish_row, publish_claimed_event,
  publish_all, lease_all, claim_due_events, dispatch_tick, is_due,
}
use kufi_e_wallet_with_hyper.Outbox.Delivery.{EventStep, publish_row-EventStep}

-- An event that waits has not used up its retries, and one that is dropped has used one more.
pub record IsBounded (cfg : OutboxConfig) (evt : OutboxEvent) : Type 0 where
  pub at_most : evt.attempts ≤ cfg.max_retries + 1
  pub pending : is_pending_event evt.status ≡ true → evt.attempts ≤ cfg.max_retries

module _ (cfg : OutboxConfig) where
  select-All :
      (P : OutboxEvent → Type 0) (p : OutboxEvent → Bool) (xs : List OutboxEvent)
      → All P xs
      → All P (select p xs)
  select-All P p [] h = tt
  select-All P p (x ∷ xs) h = ground (arith, select-All P p xs h.1, h.0)

  lease_all-IsBounded :
      (until : ℕ) (due table : List OutboxEvent)
      → All (IsBounded cfg) due
      → All (IsBounded cfg) table
      → All (IsBounded cfg) (lease_all until due table)
  lease_all-IsBounded until [] table hd ht = ht
  lease_all-IsBounded until (evt ∷ due) table hd ht = lease_all-IsBounded until due _ hd.1 (
      All-save (IsBounded cfg) (λ e. e.id) (record evt { leased_until = some until }) table
        (record { at_most = hd.0.at_most; pending = hd.0.pending }) ht)

  module _ (now random : ℕ) (publish : EventPayload → Reply (Unit {0})) where
    step-IsBounded :
        (said : Reply (Unit {0})) (evt r : OutboxEvent)
        → EventStep cfg now random said evt r
        → IsBounded cfg evt
        → IsBounded cfg r
    step-IsBounded said evt r (EventStep.skipped s) b = subst (IsBounded cfg) (sym s.same) b
    step-IsBounded said evt r (EventStep.published s) b = record {
      at_most = omega (arith, s.attempts, b.at_most);
      pending = λ p. ground (arith, p, s.status);
    }
    step-IsBounded said evt r (EventStep.retried f s) b = record {
      at_most = omega (arith, f.attempts, s.below);
      pending = λ p. omega (arith, f.attempts, s.below);
    }
    step-IsBounded said evt r (EventStep.dropped f s) b = record {
      at_most = omega (arith, f.attempts, b.pending (ap is_pending_event f.held.0));
      pending = λ p. ground (arith, p, s.status);
    }

    saved :
        (id : ℕ) (evt : OutboxEvent) (table : List OutboxEvent)
        → All (IsBounded cfg) table
        → find_one (λ e. e.id == id) table ≡ some evt
        → All (IsBounded cfg) (save (λ e. e.id) (publish_row cfg now random publish evt) table)
    saved id evt table h found =
        All-save (IsBounded cfg) (λ e. e.id) (publish_row cfg now random publish evt) table
          (step-IsBounded _ evt _ (publish_row-EventStep cfg now random publish evt)
            (All-find_one (IsBounded cfg) (λ e. e.id == id) table evt found h))
          h

    publish_claimed_event-IsBounded :
        (id : ℕ) (table : List OutboxEvent)
        → All (IsBounded cfg) table
        → All (IsBounded cfg) (publish_claimed_event cfg now random publish id table)
    unfolding publish_claimed_event
    publish_claimed_event-IsBounded id table h = found (find_one (λ e. e.id == id) table) refl
      where
        found :
            (o : Option OutboxEvent)
            → find_one (λ e. e.id == id) table ≡ o
            → All (IsBounded cfg) (elim o as (λ _. List OutboxEvent) [
              | none ↦ table
              | some evt ↦ save (λ e. e.id) (publish_row cfg now random publish evt) table
            ])
        found none e = h
        found (some evt) e = saved id evt table h e

    publish_all-IsBounded :
        (claimed : List ℕ) (table : List OutboxEvent)
        → All (IsBounded cfg) table
        → All (IsBounded cfg) (publish_all cfg now random publish claimed table)
    publish_all-IsBounded [] table h = h
    publish_all-IsBounded (id ∷ rest) table h =
        publish_all-IsBounded rest _ (publish_claimed_event-IsBounded id table h)

    -- A tick of the dispatcher, whatever the publisher answers and whichever events other workers
    -- have locked, keeps the bound on the attempts: at most one more than the retries allow for any
    -- event, and no more than they allow for an event that waits.
    pub dispatch_tick-IsBounded :
        (running : Bool) (locked : OutboxEvent → Bool) (table : List OutboxEvent)
        → All (IsBounded cfg) table
        → All (IsBounded cfg) (dispatch_tick cfg now random publish running locked table)
    unfolding dispatch_tick claim_due_events
    dispatch_tick-IsBounded true locked table h = h
    dispatch_tick-IsBounded false locked table h =
        let due = take (max 1 cfg.batch_size) (
          order_asc (λ e. e.next_attempt_at)
            (select (λ e. is_due now e && (if locked e then false else true)) table)) in
        publish_all-IsBounded (claim_due_events cfg now locked cfg.batch_size table).0
          (lease_all (now + cfg.lease_ms) due table)
          (lease_all-IsBounded (now + cfg.lease_ms) due table
            (All-take (IsBounded cfg) (max 1 cfg.batch_size) _ (
              All-order_asc (IsBounded cfg) (λ e. e.next_attempt_at) _
                (select-All (IsBounded cfg)
                  (λ e. is_due now e && (if locked e then false else true)) table h)))
            h)

-- A random number below 1 takes at most a fifth of the delay.
fifth : (capped random : ℕ) → random ≤ 2 ^ 53 → 5 * (capped * random / (5 * 2 ^ 53)) ≤ capped
fifth capped random h =
    omega (arith, mul-div-le (capped * random) (5 * 2 ^ 53), mul-le-mul_left capped h)

first_delay : (initial longest k : ℕ) → min initial longest ≤ min (initial * 2 ^ k) longest
first_delay initial longest k =
    omega (arith, mul-le-mul_left initial (one-le-pow k 2 (omega arith)))

-- The bounds of the next attempt.
abbrev pub NextIn : OutboxConfig → ℕ → ℕ → ℕ → Type 0
NextIn cfg now random attempts =
    (now + min cfg.initial_backoff_ms cfg.max_backoff_ms
      ≤ compute_next_attempt_at cfg now random attempts)
    × (5 * compute_next_attempt_at cfg now random attempts ≤ 5 * now + 6 * cfg.max_backoff_ms)

-- For a random number below 1, the delay before the next attempt is at least the first delay or
-- the longest one, whichever is less, and at most the longest one and a fifth of it, for every
-- count of attempts.
pub event_attempt-bounds :
    (cfg : OutboxConfig) (now random attempts : ℕ)
    → random < 2 ^ 53
    → NextIn cfg now random attempts
unfolding compute_next_attempt_at event_jitter
event_attempt-bounds cfg now random attempts h =
    let delay = min (cfg.initial_backoff_ms * 2 ^ (attempts - 1)) cfg.max_backoff_ms in
    (
      omega (arith, first_delay cfg.initial_backoff_ms cfg.max_backoff_ms (attempts - 1)),
      omega (
        arith,
        fifth delay random (omega (arith, h)),
        min-le_right (cfg.initial_backoff_ms * 2 ^ (attempts - 1)) cfg.max_backoff_ms,
      ),
    )
