-- ===== src/Outbox/Claims.antt =====
-- claimDueEvents: which events a dispatcher takes, and for how long.
use kufi_e_wallet_with_hyper.Prelude.{
  ℕ, suc, ◌+◌, ◌<◌, ◌≤◌, ◌≡◌, ◌==◌, refl, ap, ◌∙◌, Bool, true, false, ◌&&◌, some, List, [], ◌∷◌,
  All, length, take, length-take, arith, ◌⊎◌, inl, inr, if◌then◌else◌, Bool-cases, max,
}
use kufi_e_wallet_with_hyper.Prelude.Rows.{find_one, select, save, order_asc}
use kufi_e_wallet_with_hyper.Prelude.Rows.Kept.{find_one-save, find_one-save_apart}
use kufi_e_wallet_with_hyper.Entities.{OutboxEvent}
use kufi_e_wallet_with_hyper.Outbox.{OutboxConfig, is_due, ids, lease_all, claim_due_events}

abbrev row_id : OutboxEvent → ℕ
row_id evt = evt.id

-- An event in the table with a lease until a time.
abbrev IsLeased : ℕ → List OutboxEvent → ℕ → Type 0
IsLeased until table id =
    (r : OutboxEvent) × (find_one (λ e. e.id == id) table ≡ some r) × (r.leased_until ≡ some until)

still-IsLeased :
    (until id : ℕ) (due table : List OutboxEvent)
    → IsLeased until table id
    → IsLeased until (lease_all until due table) id
still-IsLeased until id [] table l = l
still-IsLeased until id (evt ∷ due) table l =
    still-IsLeased until id due (save row_id (record evt { leased_until = some until }) table)
      (kept (Bool-cases (evt.id == id)))
  where
    kept :
        ((evt.id == id) ≡ true) ⊎ ((evt.id == id) ≡ false)
        → IsLeased until (save row_id (record evt { leased_until = some until }) table) id
    kept (inl same) = (
      record evt { leased_until = some until },
      ground (arith, same, find_one-save row_id (record evt { leased_until = some until }) table),
      refl,
    )
    kept (inr other) = (
      l.0,
      find_one-save_apart row_id id (record evt { leased_until = some until }) table other ∙ l.1,
      l.2,
    )

lease_all-IsLeased :
    (until : ℕ) (due table : List OutboxEvent)
    → All (IsLeased until (lease_all until due table)) (ids due)
lease_all-IsLeased until [] table = tt
lease_all-IsLeased until (evt ∷ due) table = (
  still-IsLeased until evt.id due (save row_id (record evt { leased_until = some until }) table) (
    record evt { leased_until = some until },
    find_one-save row_id (record evt { leased_until = some until }) table,
    refl,
  ),
  lease_all-IsLeased until due (save row_id (record evt { leased_until = some until }) table),
)

-- A claimed event is in the table and not due before the end of its lease.
abbrev IsHeld : ℕ → List OutboxEvent → ℕ → Type 0
IsHeld until table id =
    (r : OutboxEvent) × (find_one (λ e. e.id == id) table ≡ some r)
    × ((now : ℕ) → now < until → is_due now r ≡ false)

leased-IsHeld :
    (until : ℕ) (table : List OutboxEvent) (claimed : List ℕ)
    → All (IsLeased until table) claimed
    → All (IsHeld until table) claimed
unfolding is_due
leased-IsHeld until table [] l = tt
leased-IsHeld until table (id ∷ rest) l = (
  (l.0.0, l.0.1, λ now before. ground (arith, l.0.2, before)),
  leased-IsHeld until table rest l.1,
)

length-ids : (due : List OutboxEvent) → length (ids due) ≡ length due
length-ids [] = refl
length-ids (evt ∷ due) = ap suc (length-ids due)

-- What a claim gives: no more events than the batch, each held until its lease ends.
pub record EventsClaimed (until limit : ℕ) (result : List ℕ × List OutboxEvent) : Type 0 where
  pub at_most : length result.0 ≤ max 1 limit
  pub held : All (IsHeld until result.1) result.0

-- A claim returns at most as many events as the batch allows, and at least one is allowed; each of
-- them is in the table afterwards and is not due for any other claim before its lease ends, so that
-- no other dispatcher takes it meanwhile.
pub claim_due_events-EventsClaimed :
    (cfg : OutboxConfig) (now : ℕ) (locked : OutboxEvent → Bool) (limit : ℕ)
    (table : List OutboxEvent)
    → EventsClaimed (now + cfg.lease_ms) limit (claim_due_events cfg now locked limit table)
unfolding claim_due_events
claim_due_events-EventsClaimed cfg now locked limit table =
    let rows =
      order_asc (λ e. e.next_attempt_at)
        (select (λ e. is_due now e && (if locked e then false else true)) table) in
    let due = take (max 1 limit) rows in
    record {
      at_most = omega (arith, length-ids due, length-take (max 1 limit) rows);
      held =
          leased-IsHeld (now + cfg.lease_ms) (lease_all (now + cfg.lease_ms) due table) (ids due)
            (lease_all-IsLeased (now + cfg.lease_ms) due table);
    }
