-- ===== src/Chain/Steps.antt =====
-- One round of the chain worker on a transaction, as a step of its state.
use mathlib.Core.Path.{subst}
use mathlib.Core.Option.{some-injective}
use kufi_e_wallet_with_hyper.Prelude.{
  ◌+◌, ◌<◌, ◌≡◌, Bool, true, false, not, ◌&&◌, none, some, arith, ltb, leb, ◌⊎◌, inl, inr,
  if◌then◌else◌, Bool-cases, String, str_eq, eq_iff, Option, ◌≢◌, ◌≤◌,
}
use kufi_e_wallet_with_hyper.Prelude.Text.{is_empty, trim, to_upper}
use kufi_e_wallet_with_hyper.Entities.{
  TransactionEntity, TransactionStatus, is_failed, is_settled, ChainStatus,
}
use kufi_e_wallet_with_hyper.Store.{
  Env, Config, Reply, response, failure, ChainService, AnchorTransferResponse,
}
use kufi_e_wallet_with_hyper.Chain.{
  reconcile_business_status, compute_next_attempt_at, mark_chain_pending, apply_chain_result,
  after_chain_call, anchor_request, next_chain_call, limit_retries, process_row, waits_for_chain,
}

-- The state that the chain names in a reply, as the worker reads it; none where the call has thrown.
abbrev pub verdict : Reply AnchorTransferResponse → Option String
verdict (response r) = some (to_upper (trim r.chain_status))
verdict (failure message) = none

-- The business status once the chain has been asked, for a transaction that has not failed.
abbrev business_after : Bool → TransactionEntity → TransactionStatus
business_after anchored tx =
    if not tx.is_external
    then TransactionStatus.completed
    else (if is_settled tx.settlement_status && anchored
        then TransactionStatus.completed
        else tx.status)

-- The chain has said that it has the transaction.
pub record IsAnchored (said : Reply AnchorTransferResponse) (tx r : TransactionEntity)
    : Type 0 where
  pub reply : verdict said ≡ some "ANCHORED"
  pub chain : r.chain_status ≡ ChainStatus.anchored
  pub retries : r.chain_retry_count ≡ 0
  pub next : r.chain_next_attempt_at ≡ none
  pub error : r.error_code ≡ none
  pub business : r.status ≡ business_after true tx

-- The chain has named neither of the two states that end the anchoring, or could not be asked.
abbrev pub Undecided : Reply AnchorTransferResponse → Type 0
Undecided said = (verdict said ≢ some "ANCHORED") × (verdict said ≢ some "FAILED")

-- The chain has refused it, or the retries are used up.
pub record IsGivenUp (env : Env) (said : Reply AnchorTransferResponse) (tx r : TransactionEntity)
    : Type 0 where
  pub why :
      (verdict said ≡ some "FAILED")
      ⊎ (Undecided said
          × (0 < env.config.chain_async_max_retries)
          × (env.config.chain_async_max_retries ≤ tx.chain_retry_count + 1))
  pub chain : r.chain_status ≡ ChainStatus.failed
  pub next : r.chain_next_attempt_at ≡ none
  pub error : r.error_code ≡ some "CHAIN_FAILED"
  pub business : r.status ≡ business_after false tx

-- It waits for one more round, below the limit.
pub record IsPostponed (env : Env) (said : Reply AnchorTransferResponse) (tx r : TransactionEntity)
    : Type 0 where
  pub undecided : Undecided said
  pub chain : r.chain_status ≡ ChainStatus.pending
  pub retries : r.chain_retry_count ≡ tx.chain_retry_count + 1
  pub below :
      (env.config.chain_async_max_retries ≡ 0)
      ⊎ (tx.chain_retry_count + 1 < env.config.chain_async_max_retries)
  pub next : r.chain_next_attempt_at ≡ some (compute_next_attempt_at env (tx.chain_retry_count + 1))
  pub error : r.error_code ≡ some "CHAIN_PENDING"
  pub business : r.status ≡ business_after false tx

-- The steps of the chain state, by what the chain has said.
pub data ChainStep (env : Env) (said : Reply AnchorTransferResponse) (tx r : TransactionEntity)
    : Type 0 where
  anchored : IsAnchored said tx r → ChainStep env said tx r
  given_up : IsGivenUp env said tx r → ChainStep env said tx r
  postponed : IsPostponed env said tx r → ChainStep env said tx r

-- The retries are used up.
abbrev spent : Config → TransactionEntity → Bool
spent cfg tx =
    ltb 0 cfg.chain_async_max_retries && leb cfg.chain_async_max_retries tx.chain_retry_count

abbrev Kept : TransactionEntity → TransactionEntity → Type 0
Kept tx r = (r.is_external ≡ tx.is_external) × (r.settlement_status ≡ tx.settlement_status)

abbrev Waits : Env → TransactionEntity → TransactionEntity → Type 0
Waits env tx r =
    (r.chain_status ≡ ChainStatus.pending)
    × (r.chain_retry_count ≡ tx.chain_retry_count + 1)
    × (r.chain_next_attempt_at ≡ some (compute_next_attempt_at env (tx.chain_retry_count + 1)))
    × (r.error_code ≡ some "CHAIN_PENDING")
    × (r.status ≡ tx.status)
    × Kept tx r

abbrev Pends : Env → Reply AnchorTransferResponse → TransactionEntity → TransactionEntity → Type 0
Pends env said tx r = Undecided said × Waits env tx r

abbrev Refuses : Reply AnchorTransferResponse → TransactionEntity → TransactionEntity → Type 0
Refuses said tx r =
    (verdict said ≡ some "FAILED")
    × (r.chain_status ≡ ChainStatus.failed)
    × (r.chain_next_attempt_at ≡ none)
    × (r.error_code ≡ some "CHAIN_FAILED")
    × (r.status ≡ tx.status)
    × Kept tx r

-- The step without the limit of retries.
abbrev FreeStep :
    Env → Reply AnchorTransferResponse → TransactionEntity → TransactionEntity → Type 0
FreeStep env said tx r =
    (IsAnchored said tx r × Kept tx r) ⊎ Refuses said tx r ⊎ Pends env said tx r

said_is : (a b : String) → str_eq a b ≡ true → a ≡ b
said_is a b h = ground (arith, eq_iff a b)

said_not : (a b : String) → str_eq a b ≡ false → some a ≢ some b
said_not a b h e = ground (arith, eq_iff a b, some-injective a b e)

apply_chain_result-IsAnchored :
    (env : Env) (a : AnchorTransferResponse) (tx : TransactionEntity)
    → is_failed tx.status ≡ false
    → str_eq (to_upper (trim a.chain_status)) "ANCHORED" ≡ true
    → IsAnchored (response a) tx (apply_chain_result env a tx)
      × Kept tx (apply_chain_result env a tx)
unfolding apply_chain_result reconcile_business_status
apply_chain_result-IsAnchored env a tx live h =
    ground (arith, h, said_is (to_upper (trim a.chain_status)) "ANCHORED" h)

apply_chain_result-FreeStep :
    (env : Env) (a : AnchorTransferResponse) (tx : TransactionEntity)
    → is_failed tx.status ≡ false
    → FreeStep env (response a) tx (apply_chain_result env a tx)
unfolding apply_chain_result mark_chain_pending
apply_chain_result-FreeStep env a tx live =
    let said = to_upper (trim a.chain_status) in
    elim (Bool-cases (str_eq said "ANCHORED")) [
      | inl agreed ↦ inl (apply_chain_result-IsAnchored env a tx live agreed)
      | inr other ↦ elim (Bool-cases (str_eq said "FAILED")) [
        | inl refused ↦ inr (inl (ground (arith, other, refused, said_is said "FAILED" refused)))
        | inr pending ↦ inr (
            inr (
              (said_not said "ANCHORED" other, said_not said "FAILED" pending),
              ground (arith, other, pending),
            ))
      ]
    ]

after_chain_call-FreeStep :
    (env : Env) (reply : Reply AnchorTransferResponse) (tx : TransactionEntity)
    → is_failed tx.status ≡ false
    → FreeStep env reply tx (after_chain_call env reply tx)
unfolding after_chain_call mark_chain_pending
after_chain_call-FreeStep env (response r) tx live = apply_chain_result-FreeStep env r tx live
after_chain_call-FreeStep env (failure message) tx live =
    inr (inr ((λ e. ground arith, λ e. ground arith), ground arith))

postponed_or_given_up :
    (env : Env) (said : Reply AnchorTransferResponse) (tx r : TransactionEntity)
    → is_failed tx.status ≡ false
    → Pends env said tx r
    → ChainStep env said tx (reconcile_business_status (limit_retries env.config r))
unfolding reconcile_business_status limit_retries
postponed_or_given_up env said tx r live p = elim (Bool-cases (spent env.config r)) [
  | inl over ↦ ChainStep.given_up (ground (arith, over, p))
  | inr below ↦ ChainStep.postponed (ground (arith, below, p))
]

limited :
    (env : Env) (said : Reply AnchorTransferResponse) (tx r : TransactionEntity)
    → is_failed tx.status ≡ false
    → FreeStep env said tx r
    → ChainStep env said tx (reconcile_business_status (limit_retries env.config r))
unfolding reconcile_business_status limit_retries
limited env said tx r live (inl a) = ChainStep.anchored (ground (arith, a))
limited env said tx r live (inr (inl f)) = ChainStep.given_up (ground (arith, f))
limited env said tx r live (inr (inr p)) = postponed_or_given_up env said tx r live p

-- What the worker asks: the receipt of the transaction that the chain knows by a key, and else the
-- anchoring.
abbrev pub chain_reply : Env → ChainService → TransactionEntity → Reply AnchorTransferResponse
chain_reply env chain tx = elim tx.chain_tx_id [
  | none ↦ chain.anchor_transfer (anchor_request env tx)
  | some key ↦
      if is_empty (trim key)
      then chain.anchor_transfer (anchor_request env tx)
      else chain.get_receipt key
]

next_chain_call_lem :
    (env : Env) (chain : ChainService) (tx : TransactionEntity)
    → next_chain_call env chain tx ≡ chain_reply env chain tx
next_chain_call_lem env chain tx = ground arith

-- One round on a transaction that waits for the chain and has not failed asks the chain for the
-- receipt of its key there, or without a key for its anchoring, and is one of three steps: anchored,
-- when the chain says so, with the business status completed unless the transaction is external and
-- not yet settled; given up, when the chain refuses it, or gives no verdict and the retries are used
-- up; or postponed without a verdict, with one more retry, below the limit if there is one, to the
-- time that the backoff gives.
pub process_row-ChainStep :
    (env : Env) (chain : ChainService) (tx : TransactionEntity)
    → waits_for_chain tx ≡ true
    → ChainStep env (chain_reply env chain tx) tx (process_row env chain tx)
unfolding process_row
process_row-ChainStep env chain tx waits =
    subst (λ said. ChainStep env said tx (process_row env chain tx))
      (next_chain_call_lem env chain tx)
      (limited env (next_chain_call env chain tx) tx
        (after_chain_call env (next_chain_call env chain tx) tx) (ground arith)
        (after_chain_call-FreeStep env (next_chain_call env chain tx) tx (ground arith)))
