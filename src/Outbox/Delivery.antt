-- ===== src/Outbox/Delivery.antt =====
-- publishClaimedEvent: the states of an outbox event, and the retries of its delivery.
use kufi_e_wallet_with_hyper.Prelude.{
  ℕ, ◌+◌, ◌<◌, ◌≤◌, ◌≡◌, refl, true, false, ◌&&◌, none, some, arith, inl, inr, ltb, Bool-cases,
  String, Option,
}
use kufi_e_wallet_with_hyper.Prelude.Text.{take_units}
use kufi_e_wallet_with_hyper.Entities.{OutboxEvent, OutboxStatus, is_pending_event, EventPayload}
use kufi_e_wallet_with_hyper.Store.{Reply, response, failure}
use kufi_e_wallet_with_hyper.Outbox.{
  OutboxConfig, compute_next_attempt_at, publish_row, lease_lives,
}

-- The event is pending, and somebody holds a lease on it that has not ended.
abbrev pub IsHeld : ℕ → OutboxEvent → Type 0
IsHeld now evt =
    (evt.status ≡ OutboxStatus.pending)
    × ((until : ℕ) × (evt.leased_until ≡ some until) × (now ≤ until))

-- The event is not touched: it is not held.
pub record IsSkipped (now : ℕ) (evt r : OutboxEvent) : Type 0 where
  pub same : r ≡ evt
  pub why : IsHeld now evt → ⊥

-- The publisher has taken it.
pub record IsPublished (now : ℕ) (said : Reply (Unit {0})) (evt r : OutboxEvent) : Type 0 where
  pub held : IsHeld now evt
  pub taken : said ≡ response tt
  pub status : r.status ≡ OutboxStatus.published
  pub at : r.published_at ≡ some now
  pub lease : r.leased_until ≡ none
  pub error : r.last_error ≡ none
  pub attempts : r.attempts ≡ evt.attempts

-- The publisher has thrown, which is noted as one more attempt.
pub record IsFailure (now : ℕ) (said : Reply (Unit {0})) (evt r : OutboxEvent) : Type 0 where
  pub held : IsHeld now evt
  pub message : String
  pub thrown : said ≡ failure message
  pub error : r.last_error ≡ some (take_units 1024 message)
  pub lease : r.leased_until ≡ none
  pub attempts : r.attempts ≡ evt.attempts + 1

-- The event is tried again after the backoff.
pub record IsRetried (cfg : OutboxConfig) (now random : ℕ) (evt r : OutboxEvent) : Type 0 where
  pub status : r.status ≡ OutboxStatus.pending
  pub below : evt.attempts + 1 ≤ cfg.max_retries
  pub next : r.next_attempt_at ≡ compute_next_attempt_at cfg now random (evt.attempts + 1)

-- The event has failed once more than the retries allow.
pub record IsDropped (cfg : OutboxConfig) (evt r : OutboxEvent) : Type 0 where
  pub status : r.status ≡ OutboxStatus.failed
  pub above : cfg.max_retries < evt.attempts + 1

-- The steps of an outbox event, by what the publisher says.
pub data EventStep (cfg : OutboxConfig) (now random : ℕ) (said : Reply (Unit {0}))
    (evt r : OutboxEvent) : Type 0 where
  skipped : IsSkipped now evt r → EventStep cfg now random said evt r
  published : IsPublished now said evt r → EventStep cfg now random said evt r
  retried :
      IsFailure now said evt r
      → IsRetried cfg now random evt r
      → EventStep cfg now random said evt r
  dropped : IsFailure now said evt r → IsDropped cfg evt r → EventStep cfg now random said evt r

lease_lives-IsHeld :
    (now : ℕ) (evt : OutboxEvent)
    → (is_pending_event evt.status && lease_lives now evt.leased_until) ≡ true
    → IsHeld now evt
lease_lives-IsHeld now evt h = (ground (arith, h), lives now evt.leased_until (ground (arith, h)))
  where
    lives :
        (now : ℕ) (lease : Option ℕ)
        → lease_lives now lease ≡ true
        → (until : ℕ) × (lease ≡ some until) × (now ≤ until)
    lives now none h = ground arith
    lives now (some until) h = (until, refl, ground (arith, h))

not_held :
    (now : ℕ) (evt : OutboxEvent)
    → (is_pending_event evt.status && lease_lives now evt.leased_until) ≡ false
    → IsHeld now evt
    → ⊥
not_held now evt h k = ground (arith, h, k.0, k.1.1, k.1.2)

failed_step :
    (cfg : OutboxConfig) (now random : ℕ) (message : String) (evt : OutboxEvent)
    (publish : EventPayload → Reply (Unit {0}))
    → publish evt.payload ≡ failure message
    → (is_pending_event evt.status && lease_lives now evt.leased_until) ≡ true
    → IsFailure now (failure message) evt (publish_row cfg now random publish evt)
unfolding publish_row
failed_step cfg now random message evt publish said h = record {
  held = lease_lives-IsHeld now evt h;
  message = message;
  thrown = refl;
  error = ground (arith, said, h);
  lease = ground (arith, said, h);
  attempts = ground (arith, said, h);
}

held_step :
    (cfg : OutboxConfig) (now random : ℕ) (reply : Reply (Unit {0})) (evt : OutboxEvent)
    (publish : EventPayload → Reply (Unit {0}))
    → publish evt.payload ≡ reply
    → (is_pending_event evt.status && lease_lives now evt.leased_until) ≡ true
    → EventStep cfg now random reply evt (publish_row cfg now random publish evt)
unfolding publish_row
held_step cfg now random (response _) evt publish said h =
    rw (h, said)
      (EventStep.published (record {
        held = lease_lives-IsHeld now evt h;
        taken = refl;
        status = refl;
        at = refl;
        lease = refl;
        error = refl;
        attempts = refl;
      }))
held_step cfg now random (failure message) evt publish said h =
    let thrown = failed_step cfg now random message evt publish said h in
    elim (Bool-cases (ltb cfg.max_retries (evt.attempts + 1))) [
      | inl over ↦ EventStep.dropped thrown (ground (arith, said, h, over))
      | inr below ↦ EventStep.retried thrown (ground (arith, said, h, below))
    ]

-- One delivery of an event is one of four steps: skipped, if the event is not pending or no lease on it
-- lives; published, when the publisher has taken it; or, when the publisher has thrown, with its message
-- noted and one more attempt, tried again up to the limit at the time that the backoff gives, or failed
-- with the attempt that is past the limit.
pub publish_row-EventStep :
    (cfg : OutboxConfig) (now random : ℕ) (publish : EventPayload → Reply (Unit {0}))
    (evt : OutboxEvent)
    → EventStep cfg now random (publish evt.payload) evt (publish_row cfg now random publish evt)
unfolding publish_row
publish_row-EventStep cfg now random publish evt =
    elim (Bool-cases (is_pending_event evt.status && lease_lives now evt.leased_until)) [
      | inl held ↦ held_step cfg now random (publish evt.payload) evt publish refl held
      | inr free ↦ EventStep.skipped (record { same = rw free refl; why = not_held now evt free })
    ]
