-- ===== src/Outbox.antt =====
-- The transaction outbox, e-wallet/transaction-service/src/events/transaction-outbox.service.ts,
-- and the two methods of transactions.service.ts that fill it.
pub mod Delivery
pub mod Retries
pub mod Claims
use kufi_e_wallet_with_hyper.Prelude.{
  ℕ, ◌+◌, ◌-◌, ◌*◌, ◌/◌, ◌^◌, ◌==◌, String, Bool, true, false, Option, none, some, List, [], ◌∷◌,
  ◌++◌, max, min, take, ltb, leb, if◌then◌else◌, ◌&&◌,
}
use kufi_e_wallet_with_hyper.Prelude.Int.{ℤ}
use kufi_e_wallet_with_hyper.Prelude.Text.{is_empty, take_units}
use kufi_e_wallet_with_hyper.Prelude.Rows.{find_one, select, save, order_asc}
use kufi_e_wallet_with_hyper.Entities.{
  Wallet, TransactionEntity, is_failed, is_completed, EventType, transaction_failed,
  transaction_completed, transaction_pending, chain_completed, EventPayload, OutboxEvent,
  OutboxStatus, is_pending_event,
}
use kufi_e_wallet_with_hyper.Store.{Store, Method, Env, modify, Reply, response, failure, wallet_of}

-- The settings of the dispatcher.
pub record OutboxConfig : Type 0 where
  pub batch_size : ℕ
  pub workers : ℕ
  pub lease_ms : ℕ
  pub max_retries : ℕ
  pub initial_backoff_ms : ℕ
  pub max_backoff_ms : ℕ

enqueue : Env → ℕ → EventPayload → Method (Unit {0})
enqueue env key payload = modify λ s. record s { outbox = s.outbox ++ event ∷ [] }
  where
    event : OutboxEvent
    event = record {
      id = key;
      aggregate_id = payload.transaction.id;
      event_type = payload.event_type;
      payload = payload;
      status = OutboxStatus.pending;
      attempts = 0;
      next_attempt_at = env.now;
      leased_until = none;
      last_error = none;
      published_at = none;
      created_at = env.now;
    }

abbrev balance_of : Option Wallet → Option ℤ
balance_of none = none
balance_of (some w) = some w.balance

abbrev owner_balance : Option String → String → Store → Option ℤ
owner_balance none currency s = none
owner_balance (some user) currency s =
    if is_empty user then none else balance_of (wallet_of user currency s)

-- resolveEventBalances
resolve_event_balances : TransactionEntity → Store → Option ℤ × Option ℤ
resolve_event_balances tx s =
    (owner_balance (some tx.from_user_id) tx.currency s, owner_balance tx.to_user_id tx.currency s)

abbrev event_type_of : TransactionEntity → EventType
event_type_of tx =
    if is_failed tx.status
    then transaction_failed
    else (if is_completed tx.status then transaction_completed else transaction_pending)

unfoldable pub enqueue_transaction_event : Env → TransactionEntity → Method (Unit {0})
unfolding enqueue resolve_event_balances
enqueue_transaction_event env tx s =
    enqueue env env.event_key
      (record {
        event_type = event_type_of tx;
        transaction = tx;
        sender_balance = (resolve_event_balances tx s).0;
        receiver_balance = (resolve_event_balances tx s).1;
      })
      s

-- The payload of this event names no balances.
unfoldable pub enqueue_chain_completed_event : Env → TransactionEntity → Method (Unit {0})
unfolding enqueue
enqueue_chain_completed_event env tx = enqueue env env.chain_event_key (record {
  event_type = chain_completed;
  transaction = tx;
  sender_balance = none;
  receiver_balance = none;
})

-- Math.floor(capped * Math.random() * 0.2), on the numerator of Math.random() over 2 ^ 53
event_jitter : ℕ → ℕ → ℕ
event_jitter random capped = capped * random / (5 * 2 ^ 53)

-- computeNextAttemptAt
unfoldable pub compute_next_attempt_at : OutboxConfig → ℕ → ℕ → ℕ → ℕ
unfolding event_jitter
compute_next_attempt_at cfg now random attempts =
    let capped = min (cfg.initial_backoff_ms * 2 ^ (attempts - 1)) cfg.max_backoff_ms in
    now + capped + event_jitter random capped

abbrev is_free : ℕ → Option ℕ → Bool
is_free now none = true
is_free now (some until) = leb until now

unfoldable pub is_due : ℕ → OutboxEvent → Bool
is_due now evt =
    is_pending_event evt.status && leb evt.next_attempt_at now && is_free now evt.leased_until

abbrev pub ids : List OutboxEvent → List ℕ
ids [] = []
ids (evt ∷ rest) = evt.id ∷ ids rest

abbrev pub lease_all : ℕ → List OutboxEvent → List OutboxEvent → List OutboxEvent
lease_all until [] table = table
lease_all until (evt ∷ due) table =
    lease_all until due (save (λ e. e.id) (record evt { leased_until = some until }) table)

-- claimDueEvents: the events that it leases, in the order of their next attempt. The rows that
-- another dispatcher has locked are skipped: `locked` says which. The table is in the order of
-- `createdAt`, and equal times keep that order.
pub claim_due_events :
    OutboxConfig → ℕ → (OutboxEvent → Bool) → ℕ → List OutboxEvent → List ℕ × List OutboxEvent
unfolding is_due
claim_due_events cfg now locked limit table =
    let due = take (max 1 limit) (
      order_asc (λ e. e.next_attempt_at)
        (select (λ e. is_due now e && (if locked e then false else true)) table)) in
    (ids due, lease_all (now + cfg.lease_ms) due table)

-- The row after `publish` has returned.
abbrev published_row : ℕ → OutboxEvent → OutboxEvent
published_row now evt = record evt {
  status = OutboxStatus.published;
  published_at = some now;
  leased_until = none;
  last_error = none;
}

-- The row after `publish` has thrown.
abbrev failed_row : OutboxConfig → ℕ → ℕ → String → OutboxEvent → OutboxEvent
failed_row cfg now random message evt =
    let failed = record evt {
      attempts = evt.attempts + 1;
      leased_until = none;
      last_error = some (take_units 1024 message);
    } in
    if ltb cfg.max_retries (evt.attempts + 1)
    then record failed { status = OutboxStatus.failed }
    else record failed {
      next_attempt_at = compute_next_attempt_at cfg now random (evt.attempts + 1);
    }

abbrev lease_lives : ℕ → Option ℕ → Bool
lease_lives now none = false
lease_lives now (some until) = leb now until

-- What publishClaimedEvent does to the row that it has found.
pub publish_row :
    OutboxConfig → ℕ → ℕ → (EventPayload → Reply (Unit {0})) → OutboxEvent → OutboxEvent
publish_row cfg now random publish evt =
    if is_pending_event evt.status && lease_lives now evt.leased_until
    then elim (publish evt.payload) [
      | response _ ↦ published_row now evt
      | failure message ↦ failed_row cfg now random message evt
    ]
    else evt

-- publishClaimedEvent
publish_claimed_event :
    OutboxConfig
    → ℕ
    → ℕ
    → (EventPayload → Reply (Unit {0}))
    → ℕ
    → List OutboxEvent
    → List OutboxEvent
unfolding publish_row
publish_claimed_event cfg now random publish id table = elim (find_one (λ e. e.id == id) table) [
  | none ↦ table
  | some evt ↦ save (λ e. e.id) (publish_row cfg now random publish evt) table
]

-- dispatchTick: the chunks of `workers` events run one after another, and so do here the events of
-- a chunk.
abbrev publish_all :
    OutboxConfig
    → ℕ
    → ℕ
    → (EventPayload → Reply (Unit {0}))
    → List ℕ
    → List OutboxEvent
    → List OutboxEvent
publish_all cfg now random publish [] table = table
publish_all cfg now random publish (id ∷ rest) table =
    publish_all cfg now random publish rest (publish_claimed_event cfg now random publish id table)

-- `running` is the flag of a tick that has not ended.
pub dispatch_tick :
    OutboxConfig
    → ℕ
    → ℕ
    → (EventPayload → Reply (Unit {0}))
    → Bool
    → (OutboxEvent → Bool)
    → List OutboxEvent
    → List OutboxEvent
dispatch_tick cfg now random publish true locked table = table
dispatch_tick cfg now random publish false locked table =
    let (claimed, leased) = claim_due_events cfg now locked cfg.batch_size table in
    publish_all cfg now random publish claimed leased
