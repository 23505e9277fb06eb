-- ===== src/Chain/Claims.antt =====
-- claimDueChainTransactions: which transactions a worker takes, and for how long.
use kufi_e_wallet_with_hyper.Prelude.{
  ℕ, suc, ◌+◌, ◌<◌, ◌≤◌, ◌≡◌, ◌≢◌, ◌==◌, refl, ap, ◌∙◌, Bool, true, false, not, ◌&&◌, some, List,
  [], ◌∷◌, All, length, take, length-take, arith, ◌⊎◌, inl, inr, Bool-cases, max, or_else,
}
use kufi_e_wallet_with_hyper.Prelude.Rows.{find_one, select, save, order_asc}
use kufi_e_wallet_with_hyper.Prelude.Rows.Kept.{
  All-take, All-order_asc, Among, All-selected, All-map, find_one-save, find_one-save_apart,
}
use kufi_e_wallet_with_hyper.Entities.{
  TransactionEntity, TransactionStatus, ChainStatus, SettlementStatus,
}
use kufi_e_wallet_with_hyper.Store.{Store, Result, ok, err, Env, transaction_of_id}
use kufi_e_wallet_with_hyper.Chain.{
  is_due, lease, lease_all, due_rows, ids, claim_due_chain_transactions,
}

-- A row that is leased: it is in the table, and its next attempt is the end of the lease.
abbrev IsLeased : Env → List TransactionEntity → ℕ → Type 0
IsLeased env table id =
    (r : TransactionEntity) × (find_one (λ x. x.id == id) table ≡ some r)
    × (r.chain_next_attempt_at ≡ some (env.now + env.config.chain_async_lease_ms))

-- A lease that is given stays, whichever rows are leased after it.
still-IsLeased :
    (env : Env) (id : ℕ) (due table : List TransactionEntity)
    → IsLeased env table id
    → IsLeased env (lease_all env due table) id
still-IsLeased env id [] table l = l
still-IsLeased env id (tx ∷ due) table l =
    still-IsLeased env id due (save (λ r. r.id) (lease env tx) table)
      (kept (Bool-cases (tx.id == id)))
  where
    kept :
        ((tx.id == id) ≡ true) ⊎ ((tx.id == id) ≡ false)
        → IsLeased env (save (λ r. r.id) (lease env tx) table) id
    kept (inl same) = (
      lease env tx,
      ground (arith, same, find_one-save (λ (r : TransactionEntity). r.id) (lease env tx) table),
      refl,
    )
    kept (inr other) = (
      l.0,
      find_one-save_apart (λ (r : TransactionEntity). r.id) id (lease env tx) table other ∙ l.1,
      l.2,
    )

lease_all-IsLeased :
    (env : Env) (due table : List TransactionEntity)
    → All (IsLeased env (lease_all env due table)) (ids due)
lease_all-IsLeased env [] table = tt
lease_all-IsLeased env (tx ∷ due) table = (
  still-IsLeased env tx.id due (save (λ r. r.id) (lease env tx) table)
      (lease env tx, find_one-save (λ (r : TransactionEntity). r.id) (lease env tx) table, refl),
  lease_all-IsLeased env due (save (λ r. r.id) (lease env tx) table),
)

-- A claimed row is in the table and not due before the end of its lease.
abbrev pub IsHeld : Env → Store → ℕ → Type 0
IsHeld env s id =
    (r : TransactionEntity) × (transaction_of_id id s ≡ some r)
    × ((now : ℕ) → now < env.now + env.config.chain_async_lease_ms → is_due now r ≡ false)

leased-IsHeld :
    (env : Env) (s : Store) (claimed : List ℕ)
    → All (IsLeased env s.transactions) claimed
    → All (IsHeld env s) claimed
unfolding is_due
leased-IsHeld env s [] l = tt
leased-IsHeld env s (id ∷ rest) l =
    ((l.0.0, l.0.1, λ now before. ground (arith, l.0.2, before)), leased-IsHeld env s rest l.1)

-- A row of the table that waits for the chain and has not failed, is internal or has a settlement that
-- has ended, whose next attempt is due, and that no other worker has locked
pub record IsWaiting (now : ℕ) (locked : TransactionEntity → Bool) (table : List TransactionEntity)
    (tx : TransactionEntity) : Type 0 where
  pub known : Among table tx
  pub chain : tx.chain_status ≡ ChainStatus.pending
  pub business : tx.status ≢ TransactionStatus.failed
  pub settlement :
      (tx.is_external ≡ false)
      ⊎ (tx.settlement_status ≡ SettlementStatus.settled)
      ⊎ (tx.settlement_status ≡ SettlementStatus.failed)
  pub due : (at : ℕ) → tx.chain_next_attempt_at ≡ some at → at ≤ now
  pub unlocked : locked tx ≡ false

waiting :
    (now : ℕ) (locked : TransactionEntity → Bool) (table : List TransactionEntity)
    (tx : TransactionEntity)
    → Among table tx × ((is_due now tx && not (locked tx)) ≡ true)
    → IsWaiting now locked table tx
unfolding is_due
waiting now locked table tx h = record {
  known = h.0;
  chain = ground (arith, h.1);
  business = λ f. ground (arith, h.1, f);
  settlement = ground (arith, h.1);
  due = λ at e. ground (arith, h.1, e);
  unlocked = ground (arith, h.1);
}

due_rows-waiting :
    (env : Env) (locked : TransactionEntity → Bool) (limit : ℕ) (table : List TransactionEntity)
    → All (IsWaiting env.now locked table) (due_rows env locked limit table)
unfolding due_rows
due_rows-waiting env locked limit table =
    let Waiting = IsWaiting env.now locked table in
    All-take Waiting (max 1 limit) _ (
      All-order_asc Waiting (λ tx. or_else tx.chain_next_attempt_at tx.created_at) _
        (All-map (λ tx. Among table tx × ((is_due env.now tx && not (locked tx)) ≡ true)) Waiting _
          (waiting env.now locked table)
          (All-selected (λ tx. is_due env.now tx && not (locked tx)) table)))

length-ids : (due : List TransactionEntity) → length (ids due) ≡ length due
length-ids [] = refl
length-ids (tx ∷ due) = ap suc (length-ids due)

length_due :
    (env : Env) (locked : TransactionEntity → Bool) (limit : ℕ) (table : List TransactionEntity)
    → length (ids (due_rows env locked limit table)) ≤ max 1 limit
unfolding due_rows
length_due env locked limit table =
    let due =
      order_asc (λ tx. or_else tx.chain_next_attempt_at tx.created_at)
        (select (λ tx. is_due env.now tx && not (locked tx)) table) in
    omega (arith, length-ids (take (max 1 limit) due), length-take (max 1 limit) due)

-- What a claim gives: no more rows than the batch, each of them held until its lease ends.
pub record IsClaimed (env : Env) (limit : ℕ) (claimed : List ℕ) (t : Store) : Type 0 where
  pub at_most : length claimed ≤ max 1 limit
  pub held : All (IsHeld env t) claimed

-- The claim does not throw, and what it returns is claimed.
abbrev pub Claims : Env → ℕ → Result (List ℕ) × Store → Type 0
Claims env limit (ok claimed, t) = IsClaimed env limit claimed t
Claims env limit (err e, t) = ⊥

-- A claim returns at most as many transactions as the batch allows, and at least one is allowed;
-- each of them is in the table afterwards and is not due for any other claim before its lease ends.
pub claim_due-IsClaimed :
    (env : Env) (locked : TransactionEntity → Bool) (limit : ℕ) (s : Store)
    → Claims env limit (claim_due_chain_transactions env locked limit s)
unfolding claim_due_chain_transactions
claim_due-IsClaimed env locked limit s = record {
  at_most = length_due env locked limit s.transactions;
  held =
      leased-IsHeld env (claim_due_chain_transactions env locked limit s).1 _
        (lease_all-IsLeased env (due_rows env locked limit s.transactions) s.transactions);
}

-- The key of a row that waits
abbrev pub WaitsUnder : ℕ → (TransactionEntity → Bool) → List TransactionEntity → ℕ → Type 0
WaitsUnder now locked table id =
    (tx : TransactionEntity) × (tx.id ≡ id) × IsWaiting now locked table tx

ids-waiting :
    (now : ℕ) (locked : TransactionEntity → Bool) (table due : List TransactionEntity)
    → All (IsWaiting now locked table) due
    → All (WaitsUnder now locked table) (ids due)
ids-waiting now locked table [] h = tt
ids-waiting now locked table (tx ∷ due) h = ((tx, refl, h.0), ids-waiting now locked table due h.1)

-- The claim does not throw, and each key that it returns is the key of a row that waits.
abbrev pub ClaimsWaiting : ℕ → (TransactionEntity → Bool) → Store → Result (List ℕ) × Store → Type 0
ClaimsWaiting now locked s (ok claimed, t) = All (WaitsUnder now locked s.transactions) claimed
ClaimsWaiting now locked s (err e, t) = ⊥

-- A claim returns only keys of transactions that are in the table, wait for the chain and have not
-- failed, are internal or have a settlement that has ended, are due or have no time of a next attempt,
-- and are not locked by another worker.
pub claim_due-waiting :
    (env : Env) (locked : TransactionEntity → Bool) (limit : ℕ) (s : Store)
    → ClaimsWaiting env.now locked s (claim_due_chain_transactions env locked limit s)
unfolding claim_due_chain_transactions
claim_due-waiting env locked limit s =
    ids-waiting env.now locked s.transactions (due_rows env locked limit s.transactions)
      (due_rows-waiting env locked limit s.transactions)
