-- ===== src/Tests/Worker.antt =====
-- The workers and the lists, on the small database.
use kufi_e_wallet_with_hyper.Prelude.{
  true, ◌+◌, ◌*◌, ◌≤◌, min, false, none, some, [], ◌∷◌, All, ◌≡◌, refl, arith,
}
use kufi_e_wallet_with_hyper.Prelude.Int.{pos}
use kufi_e_wallet_with_hyper.Entities.{
  TransactionStatus, OutboxEvent, OutboxStatus, EventType, EventPayload,
}
use kufi_e_wallet_with_hyper.Store.{Reply}
use kufi_e_wallet_with_hyper.Chain.{
  waits_for_chain, process_row, claim_due_chain_transactions, compute_next_attempt_at,
}
use kufi_e_wallet_with_hyper.Chain.Steps.{ChainStep, chain_reply, process_row-ChainStep}
use kufi_e_wallet_with_hyper.Chain.Retries.{rounds, rounds-end, compute_next_attempt_at-bounds}
use kufi_e_wallet_with_hyper.Chain.Claims.{
  Claims, claim_due-IsClaimed, ClaimsWaiting, claim_due-waiting,
}
use kufi_e_wallet_with_hyper.Outbox.{claim_due_events, publish_row, dispatch_tick}
use kufi_e_wallet_with_hyper.Outbox.Claims.{EventsClaimed, claim_due_events-EventsClaimed}
use kufi_e_wallet_with_hyper.Outbox.Delivery.{EventStep, publish_row-EventStep}
use kufi_e_wallet_with_hyper.Outbox.Retries.{
  IsBounded, dispatch_tick-IsBounded, NextIn, event_attempt-bounds,
}
use kufi_e_wallet_with_hyper.Queries.{is_listed, list_user_transactions}
use kufi_e_wallet_with_hyper.Queries.Pages.{ListsPage, list_user_transactions-ListsPage}
use kufi_e_wallet_with_hyper.Tests.Sample.{
  env, bad_env, chain, busy_chain, store, waiting, outbox_config,
}

process_row-ChainStep_example :
    ChainStep env (chain_reply env chain waiting) waiting (process_row env chain waiting)
process_row-ChainStep_example = process_row-ChainStep env chain waiting refl

rounds-end_example :
    waits_for_chain (rounds ((bad_env, busy_chain) ∷ (bad_env, busy_chain) ∷ []) waiting) ≡ false
rounds-end_example =
    rounds-end 2 ((bad_env, busy_chain) ∷ (bad_env, busy_chain) ∷ []) waiting (refl, (refl, tt))
      (omega arith) (omega arith)

claim_due-IsClaimed_example :
    Claims env 10 (claim_due_chain_transactions env (λ tx. false) 10 store)
claim_due-IsClaimed_example = claim_due-IsClaimed env (λ tx. false) 10 store

claim_due-waiting_example :
    ClaimsWaiting 1000 (λ tx. false) store (claim_due_chain_transactions env (λ tx. false) 10 store)
claim_due-waiting_example = claim_due-waiting env (λ tx. false) 10 store

compute_next_attempt_at-bounds_example :
    (1000 + min 2000 300000 ≤ compute_next_attempt_at env 3)
    × (4 * compute_next_attempt_at env 3 ≤ 4 * 1000 + 5 * 300000)
compute_next_attempt_at-bounds_example = compute_next_attempt_at-bounds env 3 (omega arith)

abbrev event : OutboxEvent
event = record {
  id = 40;
  aggregate_id = 12;
  event_type = EventType.transaction_pending;
  payload = record {
    event_type = EventType.transaction_pending;
    transaction = waiting;
    sender_balance = some (pos 100);
    receiver_balance = some (pos 5);
  };
  status = OutboxStatus.pending;
  attempts = 3;
  next_attempt_at = 900;
  leased_until = some 2000;
  last_error = none;
  published_at = none;
  created_at = 800;
}

abbrev broken : EventPayload → Reply (Unit {0})
broken payload = Reply.failure "no broker"

publish_row-EventStep_example :
    EventStep outbox_config 1000 5
      (Reply.failure "no broker")
      event
      (publish_row outbox_config 1000 5 broken event)
publish_row-EventStep_example = publish_row-EventStep outbox_config 1000 5 broken event

event-IsBounded : IsBounded outbox_config event
event-IsBounded = record { at_most = omega arith; pending = λ p. omega arith }

dispatch_tick-IsBounded_example :
    All
      (IsBounded outbox_config)
      (dispatch_tick outbox_config 2500 5 broken false (λ e. false) (event ∷ []))
dispatch_tick-IsBounded_example =
    dispatch_tick-IsBounded outbox_config 2500 5 broken false (λ e. false) (event ∷ [])
      (event-IsBounded, tt)

event_attempt-bounds_example : NextIn outbox_config 1000 5 2
event_attempt-bounds_example = event_attempt-bounds outbox_config 1000 5 2 (omega arith)

list_user_transactions-ListsPage_example :
    ListsPage "alice" false store (list_user_transactions "alice" (pos 20) (pos 0) false store)
list_user_transactions-ListsPage_example =
    list_user_transactions-ListsPage "alice" (pos 20) (pos 0) false store

-- A transaction that alice sends is listed for her after it has failed, failed ones not being asked for.
sent_failed_listed :
    is_listed waiting.from_user_id false (record waiting { status = TransactionStatus.failed })
    ≡ true
sent_failed_listed = refl

claim_due_events-EventsClaimed_example :
    EventsClaimed 32500 50 (claim_due_events outbox_config 2500 (λ e. false) 50 (event ∷ []))
claim_due_events-EventsClaimed_example =
    claim_due_events-EventsClaimed outbox_config 2500 (λ e. false) 50 (event ∷ [])
