-- ===== src/Receipts/Kept.antt =====
-- getTransaction: what the refresh of a receipt may change.
use kufi_e_wallet_with_hyper.Prelude.{
  Bool-cases, ℕ, ◌≡◌, refl, String, true, false, ◌&&◌, Option, none, some, arith, if◌then◌else◌,
  ◌⊎◌, inl, inr, or_else,
}
use kufi_e_wallet_with_hyper.Prelude.Rows.{save}
use kufi_e_wallet_with_hyper.Prelude.Text.{trim, is_empty}
use kufi_e_wallet_with_hyper.Entities.{TransactionEntity, is_anchored}
use kufi_e_wallet_with_hyper.Store.{
  Store, Result, ok, err, Env, Reply, response, failure, AnchorTransferResponse, ChainService,
  Method, pure, ◌>>=◌, transaction_of_id,
}
use kufi_e_wallet_with_hyper.Store.Post.{bind_post}
use kufi_e_wallet_with_hyper.Receipts.{
  save_fresh, ask_chain, Json, should_refresh_receipt, fresh_receipt, refresh_anchored_receipt,
  get_transaction,
}

-- The same transaction, but for its receipt and the time of the last attempt.
abbrev Refreshed : Env → TransactionEntity → TransactionEntity → Type 0
Refreshed env tx r =
    (receipt : String) × (is_empty receipt ≡ false)
    × (r ≡ record tx { receipt_json = some receipt; chain_last_attempt_at = some env.now })

fresh_receipt-Refreshed :
    (env : Env) (tx : TransactionEntity) (reply : Reply AnchorTransferResponse)
    (r : TransactionEntity)
    → fresh_receipt env tx reply ≡ some r
    → Refreshed env tx r
unfolding fresh_receipt
fresh_receipt-Refreshed env tx (response a) r h = (trim a.receipt_json, ground arith, ground arith)
fresh_receipt-Refreshed env tx (failure m) r h = ground arith

-- A refresh that has no news, or one that is stored.
abbrev RefreshOf : Env → TransactionEntity → Store → Result TransactionEntity × Store → Type 0
RefreshOf env tx s (err e, t) = ⊥
RefreshOf env tx s (ok r, t) =
    ((r ≡ tx) × (t ≡ s))
    ⊎ (Refreshed env tx r × (t ≡ record s { transactions = save (λ row. row.id) r s.transactions }))

save_fresh-RefreshOf :
    (env : Env) (tx : TransactionEntity) (reply : Reply AnchorTransferResponse) (s : Store)
    → RefreshOf env tx s (save_fresh tx (fresh_receipt env tx reply) s)
save_fresh-RefreshOf env tx reply s = saved (fresh_receipt env tx reply) refl
  where
    saved :
        (o : Option TransactionEntity)
        → fresh_receipt env tx reply ≡ o
        → RefreshOf env tx s (save_fresh tx o s)
    saved none e = inl (refl, refl)
    saved (some r) e = inr (fresh_receipt-Refreshed env tx reply r e, refl)

ask_chain-RefreshOf :
    (env : Env) (tx : TransactionEntity) (id : String) (service : Option ChainService) (s : Store)
    → RefreshOf env tx s (ask_chain env tx id service s)
ask_chain-RefreshOf env tx id none s = inl (refl, refl)
ask_chain-RefreshOf env tx id (some chain) s = elim (Bool-cases (is_empty id)) [
  | inl missing ↦ rw missing (inl (refl, refl))
  | inr given ↦ rw given (save_fresh-RefreshOf env tx (chain.get_receipt id) s)
]

-- What getTransaction answers.
abbrev pub Finds : Env → ℕ → Store → Result (Option TransactionEntity) × Store → Type 0
Finds env id s (err e, t) = ⊥
Finds env id s (ok none, t) = (transaction_of_id id s ≡ none) × (t ≡ s)
Finds env id s (ok (some r), t) =
    (tx : TransactionEntity) × (transaction_of_id id s ≡ some tx)
    × (((r ≡ tx) × (t ≡ s))
        ⊎ ((is_anchored tx.chain_status ≡ true)
            × Refreshed env tx r
            × (t ≡ record s { transactions = save (λ row. row.id) r s.transactions })))

found_fresh :
    (env : Env) (id : ℕ) (tx : TransactionEntity) (s : Store)
    → transaction_of_id id s ≡ some tx
    → is_anchored tx.chain_status ≡ true
    → Finds env id s ((refresh_anchored_receipt env tx >>= λ fresh. pure (some fresh)) s)
unfolding refresh_anchored_receipt
found_fresh env id tx s found anchored =
    bind_post (refresh_anchored_receipt env tx) (λ fresh. pure (some fresh)) s (RefreshOf env tx s)
      (Finds env id s) (ask_chain-RefreshOf env tx (trim (or_else tx.chain_tx_id "")) env.chain s)
      (λ r t kept. (
        tx,
        found,
        elim kept [ inl same ↦ inl same | inr fresh ↦ inr (anchored, fresh.0, fresh.1) ],
      ))
      (λ e t never. never)

-- getTransaction never throws: it answers none for a key that is not in the table, and otherwise the
-- row as it is, with no table changed, or the row of an anchored transaction whose only news are a
-- receipt that is not empty and the time of the last attempt, and then this row is saved and no
-- other table is written. This holds whatever the chain answers.
pub get_transaction-Finds :
    (env : Env) (parse : String → Option Json) (id : ℕ) (s : Store)
    → Finds env id s (get_transaction env parse id s)
unfolding get_transaction
get_transaction-Finds env parse id s = found (transaction_of_id id s) refl
  where
    found :
        (o : Option TransactionEntity)
        → transaction_of_id id s ≡ o
        → Finds env id s (
            (elim o as (λ _. Method (Option TransactionEntity)) [
              | none ↦ pure none
              | some tx ↦ λ s.
                  if is_anchored tx.chain_status && should_refresh_receipt parse tx.receipt_json
                  then (refresh_anchored_receipt env tx >>= λ fresh. pure (some fresh)) s
                  else pure (some tx) s
            ])
              s)
    found none e = (e, refl)
    found (some tx) e =
        elim (Bool-cases
          (is_anchored tx.chain_status && should_refresh_receipt parse tx.receipt_json)) [
            | inl refresh ↦ rw refresh (found_fresh env id tx s e (ground (arith, refresh)))
            | inr keep ↦ rw keep (tx, e, inl (refl, refl))
          ]
