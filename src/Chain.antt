-- ===== src/Chain.antt =====
-- The chain side of transactions.service.ts: anchorToChain, the retry state of a transaction, and
-- the worker that claims due transactions and anchors them.
pub mod Steps
pub mod Retries
pub mod Claims
use kufi_e_wallet_with_hyper.Prelude.{
  ℕ, ◌+◌, ◌-◌, ◌*◌, ◌/◌, ◌^◌, String, str_eq, Bool, true, false, not, ◌&&◌, ◌||◌, Option, none,
  some, List, [], ◌∷◌, max, min, take, ltb, leb, if◌then◌else◌, or_else,
}
use kufi_e_wallet_with_hyper.Prelude.Text.{is_empty, or_text, trim, to_upper}
use kufi_e_wallet_with_hyper.Prelude.Rows.{select, save, order_asc}
use kufi_e_wallet_with_hyper.Entities.{
  TransactionEntity, TransactionStatus, is_failed, is_completed, is_settled, is_failed_settlement,
  ChainStatus, is_pending_chain, is_anchored,
}
use kufi_e_wallet_with_hyper.Store.{
  Method, Env, Config, ok, pure, throw, gets, ◌>>=◌, ◌>>◌, bad_request, Reply, response, failure,
  ChainService, AnchorTransferRequest, AnchorTransferResponse, SettlementRef, transaction_of_id,
  save_transaction,
}
use kufi_e_wallet_with_hyper.Outbox.{enqueue_transaction_event, enqueue_chain_completed_event}

-- reconcileBusinessStatusAfterChainUpdate
unfoldable pub reconcile_business_status : TransactionEntity → TransactionEntity
reconcile_business_status tx =
    if is_failed tx.status
    then tx
    else (if not tx.is_external
        then record tx { status = TransactionStatus.completed }
        else (if is_settled tx.settlement_status && is_anchored tx.chain_status
            then record tx { status = TransactionStatus.completed }
            else tx))

-- Math.floor(cappedDelay * Math.random() * 0.25), on the numerator over 2 ^ 53
chain_jitter : ℕ → ℕ → ℕ
chain_jitter random capped = capped * random / (4 * 2 ^ 53)

unfoldable pub compute_next_attempt_at : Env → ℕ → ℕ
unfolding chain_jitter
compute_next_attempt_at env retry_count =
    let capped =
      min (env.config.chain_async_initial_backoff_ms * 2 ^ (retry_count - 1))
        env.config.chain_async_max_backoff_ms in
    env.now + capped + chain_jitter env.random capped

unfoldable pub mark_chain_pending : Env → String → TransactionEntity → TransactionEntity
mark_chain_pending env message tx = record tx {
  chain_status = ChainStatus.pending;
  chain_retry_count = tx.chain_retry_count + 1;
  chain_last_attempt_at = some env.now;
  chain_next_attempt_at = some (compute_next_attempt_at env (tx.chain_retry_count + 1));
  error_code = some "CHAIN_PENDING";
  error_message = some (
      or_text (trim message)
        "On-chain receipt is still processing. System will retry automatically.");
}

-- `response.txId || tx.chainTxId`
abbrev or_kept : String → Option String → Option String
or_kept new old = if is_empty new then old else some new

-- The fields that applyChainResult sets on every response.
abbrev note_response : Env → AnchorTransferResponse → TransactionEntity → TransactionEntity
note_response env r tx = record tx {
  chain_tx_id = or_kept r.tx_id tx.chain_tx_id;
  receipt_json = or_kept r.receipt_json tx.receipt_json;
  chain_last_attempt_at = some env.now;
}

abbrev mark_anchored : TransactionEntity → TransactionEntity
mark_anchored tx = record tx {
  chain_status = ChainStatus.anchored;
  chain_retry_count = 0;
  chain_next_attempt_at = none;
  error_code = none;
  error_message = none;
}

abbrev mark_chain_failed : String → TransactionEntity → TransactionEntity
mark_chain_failed message tx = record tx {
  chain_status = ChainStatus.failed;
  chain_next_attempt_at = none;
  error_code = some "CHAIN_FAILED";
  error_message = some message;
}

unfoldable pub apply_chain_result :
    Env → AnchorTransferResponse → TransactionEntity → TransactionEntity
apply_chain_result env r tx =
    let noted = note_response env r tx in
    let normalized = to_upper (trim r.chain_status) in
    if str_eq normalized "ANCHORED"
    then reconcile_business_status (mark_anchored noted)
    else (if str_eq normalized "FAILED"
        then mark_chain_failed "On-chain transaction validation failed" noted
        else mark_chain_pending env "" noted)

abbrev anchor_request : Env → TransactionEntity → AnchorTransferRequest
anchor_request env tx = record {
  transaction_id = tx.id;
  from_user_id = tx.from_user_id;
  to_user_id = or_else tx.to_user_id "";
  amount = tx.amount;
  memo = or_else tx.memo "";
  internal_ref = tx.id;
  settlement_ref = elim tx.external_ref [
    | none ↦ SettlementRef.own tx.id
    | some ref ↦ SettlementRef.partner ref
  ];
  timestamp = env.now;
  idempotency_key = tx.idempotency_key;
  high_risk = leb env.config.chain_risk_high_amount tx.amount;
}

-- The transaction after a call of the chain service, and after the call has thrown.
unfoldable pub after_chain_call :
    Env → Reply AnchorTransferResponse → TransactionEntity → TransactionEntity
after_chain_call env (response r) tx = apply_chain_result env r tx
after_chain_call env (failure message) tx = mark_chain_pending env message tx

unfoldable pub anchor_to_chain : Env → TransactionEntity → Method TransactionEntity
anchor_to_chain env tx = elim env.chain [
  | none ↦ throw (bad_request "Chain service is not available")
  | some chain ↦
      save_transaction (after_chain_call env (chain.anchor_transfer (anchor_request env tx)) tx)
]

abbrev has_text : Option String → Bool
has_text none = false
has_text (some t) = not (is_empty (trim t))

-- callGetReceipt where the chain already knows the transaction, and else callAnchorTransfer
abbrev next_chain_call : Env → ChainService → TransactionEntity → Reply AnchorTransferResponse
next_chain_call env chain tx =
    if has_text tx.chain_tx_id
    then chain.get_receipt (or_else tx.chain_tx_id "")
    else chain.anchor_transfer (anchor_request env tx)

-- The retry limit, which is off at 0.
limit_retries : Config → TransactionEntity → TransactionEntity
limit_retries cfg tx =
    if ltb 0 cfg.chain_async_max_retries
      && is_pending_chain tx.chain_status
      && leb cfg.chain_async_max_retries tx.chain_retry_count
    then mark_chain_failed "On-chain processing exceeded maximum retry attempts" tx
    else tx

-- What one round of the worker makes of a transaction that is still to be anchored.
pub process_row : Env → ChainService → TransactionEntity → TransactionEntity
process_row env chain tx =
    reconcile_business_status
      (limit_retries env.config (after_chain_call env (next_chain_call env chain tx) tx))

abbrev pub waits_for_chain : TransactionEntity → Bool
waits_for_chain tx = is_pending_chain tx.chain_status && not (is_failed tx.status)

abbrev enqueue_if : Bool → Method (Unit {0}) → Method (Unit {0})
enqueue_if test m s = if test then m s else pure tt s

unfoldable process_claimed : Env → ChainService → TransactionEntity → Method (Unit {0})
process_claimed env chain tx = do
  saved ← save_transaction (process_row env chain tx)
  enqueue_if (is_anchored saved.chain_status) (enqueue_chain_completed_event env saved)
  enqueue_if (not (is_completed tx.status) && is_completed saved.status)
      (enqueue_transaction_event env saved)

-- processPendingChainTransaction
unfoldable process_pending : Env → ChainService → ℕ → Method (Unit {0})
process_pending env chain id = do
  found ← gets (transaction_of_id id)
  elim found [
    | none ↦ pure tt
    | some tx ↦ λ s. if waits_for_chain tx then process_claimed env chain tx s else pure tt s
  ]

abbrev attempt_due : ℕ → Option ℕ → Bool
attempt_due now none = true
attempt_due now (some at) = leb at now

-- The conditions of the query in claimDueChainTransactions.
unfoldable pub is_due : ℕ → TransactionEntity → Bool
is_due now tx =
    is_pending_chain tx.chain_status
    && not (is_failed tx.status)
    && (not tx.is_external
        || (is_settled tx.settlement_status || is_failed_settlement tx.settlement_status))
    && attempt_due now tx.chain_next_attempt_at

abbrev pub ids : List TransactionEntity → List ℕ
ids [] = []
ids (tx ∷ rest) = tx.id ∷ ids rest

abbrev pub lease : Env → TransactionEntity → TransactionEntity
lease env tx = record tx {
  chain_last_attempt_at = some env.now;
  chain_next_attempt_at = some (env.now + env.config.chain_async_lease_ms);
}

abbrev pub lease_all :
    Env → List TransactionEntity → List TransactionEntity → List TransactionEntity
lease_all env [] table = table
lease_all env (tx ∷ due) table = lease_all env due (save (λ r. r.id) (lease env tx) table)

-- The rows that the query of claimDueChainTransactions returns. Those that another worker has
-- locked are skipped: `locked` says which.
pub due_rows :
    Env → (TransactionEntity → Bool) → ℕ → List TransactionEntity → List TransactionEntity
due_rows env locked limit table = take (max 1 limit) (
    order_asc (λ tx. or_else tx.chain_next_attempt_at tx.created_at)
      (select (λ tx. is_due env.now tx && not (locked tx)) table))

pub claim_due_chain_transactions : Env → (TransactionEntity → Bool) → ℕ → Method (List ℕ)
claim_due_chain_transactions env locked limit s =
    let due = due_rows env locked limit s.transactions in
    (ok (ids due), record s { transactions = lease_all env due s.transactions })

-- The chunks run one after another, and so do here the transactions of a chunk.
abbrev process_all : Env → ChainService → List ℕ → Method (Unit {0})
process_all env chain [] = pure tt
process_all env chain (id ∷ rest) = process_pending env chain id >> process_all env chain rest

-- runChainAsyncTick; `running` is the flag of a tick that has not ended.
unfoldable run_chain_async_tick : Env → Bool → (TransactionEntity → Bool) → Method (Unit {0})
run_chain_async_tick env running locked = elim env.chain [
  | none ↦ pure tt
  | some chain ↦ λ s.
      if running || not env.config.chain_async_enabled
      then pure tt s
      else (claim_due_chain_transactions env locked env.config.chain_async_batch_size
            >>= process_all env chain)
          s
]
