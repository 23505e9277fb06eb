-- ===== src/Chain/Retries.antt =====
-- The retries of the chain worker: their number, and the time between them.
use kufi_e_wallet_with_hyper.Prelude.{
  ℕ, ◌+◌, ◌-◌, ◌*◌, ◌/◌, ◌^◌, ◌<◌, ◌≤◌, ◌≡◌, refl, sym, ap, ◌∙◌, true, false, List, [], ◌∷◌, All,
  length, arith, inl, inr, if◌then◌else◌, Bool-cases, min,
}
use mathlib.Core.Path.{subst}
use native.Mathlib.Nat.{mul-div-le, mul-le-mul_left, min-le_right, one-le-pow}
use kufi_e_wallet_with_hyper.Entities.{TransactionEntity, is_pending_chain}
use kufi_e_wallet_with_hyper.Store.{Env, ChainService, Reply, AnchorTransferResponse}
use kufi_e_wallet_with_hyper.Chain.{
  process_row, waits_for_chain, chain_jitter, compute_next_attempt_at,
}
use kufi_e_wallet_with_hyper.Chain.Steps.{ChainStep, IsPostponed, process_row-ChainStep}

-- Rounds of the worker on one transaction: each does nothing unless the transaction still waits.
abbrev pub rounds : List (Env × ChainService) → TransactionEntity → TransactionEntity
rounds [] tx = tx
rounds ((env, chain) ∷ later) tx =
    rounds later (if waits_for_chain tx then process_row env chain tx else tx)

rounds_done :
    (rs : List (Env × ChainService)) (tx : TransactionEntity)
    → waits_for_chain tx ≡ false
    → rounds rs tx ≡ tx
rounds_done [] tx done = refl
rounds_done ((env, chain) ∷ later) tx done =
    ap (λ t. rounds later t) (kept_if tx done) ∙ rounds_done later tx done
  where
    kept_if :
        (tx : TransactionEntity)
        → waits_for_chain tx ≡ false
        → (if waits_for_chain tx then process_row env chain tx else tx) ≡ tx
    kept_if tx done = ground (arith, done)

-- No round waits for the chain any more.
abbrev AllDone : List (Env × ChainService) → TransactionEntity → Type 0
AllDone rs tx = waits_for_chain (rounds rs tx) ≡ false

stop :
    (rs : List (Env × ChainService)) (tx : TransactionEntity)
    → waits_for_chain tx ≡ false
    → AllDone rs tx
stop rs tx done = ap waits_for_chain (rounds_done rs tx done) ∙ done

not_pending :
    (tx : TransactionEntity) → is_pending_chain tx.chain_status ≡ false → waits_for_chain tx ≡ false
not_pending tx h = ground (arith, h)

after_step :
    (env : Env) (later : List (Env × ChainService)) {said : Reply AnchorTransferResponse}
    (tx r : TransactionEntity)
    → ChainStep env said tx r
    → (IsPostponed env said tx r → AllDone later r)
    → AllDone later r
after_step env later tx r (ChainStep.anchored a) again =
    stop later r (not_pending r (ap is_pending_chain a.chain))
after_step env later tx r (ChainStep.given_up g) again =
    stop later r (not_pending r (ap is_pending_chain g.chain))
after_step env later tx r (ChainStep.postponed p) again = again p

one_round :
    (env : Env) (chain : ChainService) (tx : TransactionEntity)
    → waits_for_chain tx ≡ true
    → (if waits_for_chain tx then process_row env chain tx else tx) ≡ process_row env chain tx
one_round env chain tx waits = ground (arith, waits)

-- With the same limit on the retries in the settings of every round, a limit that the transaction
-- has not used up yet, as many rounds as the limit leaves end its processing, whatever the chain
-- answers in each and whenever each runs: it does not wait for the chain any more.
pub rounds-end :
    (limit : ℕ) (rs : List (Env × ChainService)) (tx : TransactionEntity)
    → All (λ r. r.0.config.chain_async_max_retries ≡ limit) rs
    → tx.chain_retry_count < limit
    → limit ≤ tx.chain_retry_count + length rs
    → waits_for_chain (rounds rs tx) ≡ false
rounds-end limit [] tx same below enough = ground arith
rounds-end limit ((env, chain) ∷ later) tx same below enough =
    elim (Bool-cases (waits_for_chain tx)) [
      | inr done ↦ stop ((env, chain) ∷ later) tx done
      | inl waits ↦
          subst (λ t. AllDone later t) (sym (one_round env chain tx waits))
            (after_step env later tx (process_row env chain tx)
              (process_row-ChainStep env chain tx waits)
              (λ p.
                rounds-end limit later (process_row env chain tx) same.1
                  (grind (arith, p.below, p.retries, same.0)) (omega (arith, p.retries, enough))))
    ]

-- A random number below 1 takes at most a quarter of the delay.
quarter : (capped random : ℕ) → random ≤ 2 ^ 53 → 4 * (capped * random / (4 * 2 ^ 53)) ≤ capped
quarter capped random h =
    omega (arith, mul-div-le (capped * random) (4 * 2 ^ 53), mul-le-mul_left capped h)

power_pos : (k : ℕ) → 1 ≤ 2 ^ k
power_pos k = one-le-pow k 2 (omega arith)

first_delay : (initial longest k : ℕ) → min initial longest ≤ min (initial * 2 ^ k) longest
first_delay initial longest k = omega (arith, mul-le-mul_left initial (power_pos k))

-- For a random number below 1, the delay before the next round is at least the first delay or the
-- longest one, whichever is less, and at most the longest one and a quarter of it, for every count
-- of retries.
pub compute_next_attempt_at-bounds :
    (env : Env) (retry_count : ℕ)
    → env.random < 2 ^ 53
    → (env.now + min env.config.chain_async_initial_backoff_ms env.config.chain_async_max_backoff_ms
        ≤ compute_next_attempt_at env retry_count)
      × (4 * compute_next_attempt_at env retry_count
          ≤ 4 * env.now + 5 * env.config.chain_async_max_backoff_ms)
unfolding compute_next_attempt_at chain_jitter
compute_next_attempt_at-bounds env retry_count h =
    let delay =
      min (env.config.chain_async_initial_backoff_ms * 2 ^ (retry_count - 1))
        env.config.chain_async_max_backoff_ms in
    (
      omega (
        arith,
        first_delay env.config.chain_async_initial_backoff_ms env.config.chain_async_max_backoff_ms
            (retry_count - 1),
      ),
      omega (
        arith,
        quarter delay env.random (omega (arith, h)),
        min-le_right (env.config.chain_async_initial_backoff_ms * 2 ^ (retry_count - 1))
            env.config.chain_async_max_backoff_ms,
      ),
    )
