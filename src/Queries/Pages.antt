-- ===== src/Queries/Pages.antt =====
-- The pages of listUserTransactions and listSettlementCandidates.
use kufi_e_wallet_with_hyper.Prelude.{
  ℕ, ◌≤◌, ◌≡◌, refl, String, Bool, true, false, List, All, length, length-take, drop, arith, ◌≢◌,
  ◌⊎◌, inl, inr, ap, Option, none, some, str_eq, eq_iff, Bool-cases,
}
use kufi_e_wallet_with_hyper.Prelude.Int.{ℤ, pos, negsuc}
use kufi_e_wallet_with_hyper.Prelude.Rows.{select, order_desc, order_asc}
use kufi_e_wallet_with_hyper.Prelude.Rows.Kept.{
  Among, All-selected, All-take, All-drop, All-order_asc, All-order_desc, All-select, All-map,
}
use kufi_e_wallet_with_hyper.Prelude.Rows.Sorted.{
  Descends, order_desc-Descends, take-Descends, drop-Descends,
}
use kufi_e_wallet_with_hyper.Entities.{
  TransactionEntity, TransactionStatus, ChainStatus, SettlementStatus, is_pending_settlement,
}
use kufi_e_wallet_with_hyper.Store.{Store, Result, ok, err}
use kufi_e_wallet_with_hyper.Queries.{
  clamp_limit, clamp_offset, is_user, failed_anywhere, is_listed, list_user_transactions,
  is_candidate, list_settlement_candidates,
}

-- A page of so many rows at most, each with a property, and no change of the store.
abbrev IsPage :
    (TransactionEntity → Type 0) → ℕ → Store → Result (List TransactionEntity) × Store → Type 0
IsPage P most s (err e, t) = ⊥
IsPage P most s (ok rows, t) = (t ≡ s) × (length rows ≤ most) × All P rows

clamp_limit-at_most : (most : ℕ) (limit : ℤ) → 1 ≤ most → clamp_limit most limit ≤ most
unfolding clamp_limit
clamp_limit-at_most most (pos n) h = omega arith
clamp_limit-at_most most (negsuc n) h = omega arith

-- None of the three states is a failure.
abbrev pub NotFailed : TransactionEntity → Type 0
NotFailed tx =
    (tx.status ≢ TransactionStatus.failed)
    × (tx.chain_status ≢ ChainStatus.failed)
    × (tx.settlement_status ≢ SettlementStatus.failed)

-- The user sends it, or the user receives it and it has not failed or failed ones are asked for.
abbrev pub IsListed : String → Bool → TransactionEntity → Type 0
IsListed user include_failed tx =
    (tx.from_user_id ≡ user)
    ⊎ ((tx.to_user_id ≡ some user) × (include_failed ≡ false → NotFailed tx))

received : (user : String) (to : Option String) → is_user user to ≡ true → to ≡ some user
received user none h = ground arith
received user (some u) h = ap some (ground (arith, h, eq_iff u user))

not_failed : (tx : TransactionEntity) → failed_anywhere tx ≡ false → NotFailed tx
unfolding failed_anywhere
not_failed tx h = (λ e. ground (arith, h, e), λ e. ground (arith, h, e), λ e. ground (arith, h, e))

listed :
    (user : String) (include_failed : Bool) (tx : TransactionEntity)
    → is_listed user include_failed tx ≡ true
    → IsListed user include_failed tx
listed user include_failed tx h = elim (Bool-cases (str_eq tx.from_user_id user)) [
  | inl sent ↦ inl (ground (arith, sent, eq_iff tx.from_user_id user))
  | inr other ↦ inr (
    received user tx.to_user_id (ground (arith, h, other)),
    λ without. not_failed tx (ground (arith, h, other, without)),
  )
]

-- A page of the transactions of a user: rows of the table that are listed, 200 at most, newest first
pub record IsUserPage (user : String) (include_failed : Bool) (s : Store)
    (rows : List TransactionEntity) : Type 0 where
  pub at_most : length rows ≤ 200
  pub listed : All (λ tx. Among s.transactions tx × IsListed user include_failed tx) rows
  pub newest_first : Descends (λ tx. tx.created_at) rows

-- The list is answered with a page, and no table changes.
abbrev pub ListsPage : String → Bool → Store → Result (List TransactionEntity) × Store → Type 0
ListsPage user include_failed s (err e, t) = ⊥
ListsPage user include_failed s (ok rows, t) = (t ≡ s) × IsUserPage user include_failed s rows

module _ (user : String) (include_failed : Bool) (s : Store) where
  abbrev Shown : TransactionEntity → Type 0
  Shown tx = Among s.transactions tx × IsListed user include_failed tx

  abbrev selected : List TransactionEntity
  selected = select (is_listed user include_failed) s.transactions

  selected-Shown : All Shown selected
  selected-Shown =
      All-map (λ tx. Among s.transactions tx × (is_listed user include_failed tx ≡ true)) Shown
        selected (λ tx h. (h.0, listed user include_failed tx h.1))
        (All-selected (is_listed user include_failed) s.transactions)

-- Whatever limit and offset are asked for, listUserTransactions answers a page of a user's transactions
-- and changes no table. The page has at most 200 rows, newest first, each of them a row of the table
-- whose transaction the user sends, or which the user receives and, unless failed ones are asked for,
-- which has not failed in its business, chain or settlement status.
pub list_user_transactions-ListsPage :
    (user : String) (limit offset : ℤ) (include_failed : Bool) (s : Store)
    → ListsPage user include_failed s (list_user_transactions user limit offset include_failed s)
unfolding list_user_transactions
list_user_transactions-ListsPage user limit offset include_failed s =
    let rows = selected user include_failed s in
    let Shows = Shown user include_failed s in
    let sorted = order_desc (λ tx. tx.created_at) rows in
    let skipped = drop (clamp_offset offset) sorted in
    let most = clamp_limit 200 limit in
    (
      refl,
      record {
        at_most =
            omega (arith, length-take most skipped, clamp_limit-at_most 200 limit (omega arith));
        listed = All-take Shows most skipped (
            All-drop Shows (clamp_offset offset) sorted (
              All-order_desc Shows (λ tx. tx.created_at) rows
                (selected-Shown user include_failed s)));
        newest_first =
            take-Descends (λ tx. tx.created_at) most skipped
              (drop-Descends (λ tx. tx.created_at) (clamp_offset offset) sorted
                (order_desc-Descends (λ tx. tx.created_at) rows));
      },
    )

abbrev IsCandidate : TransactionEntity → Type 0
IsCandidate tx = (tx.is_external ≡ true) × (is_pending_settlement tx.settlement_status ≡ true)

candidate : (tx : TransactionEntity) → is_candidate tx ≡ true → IsCandidate tx
unfolding is_candidate
candidate tx h = ground arith

-- A list of settlement candidates has at most 500 rows, all external with a pending settlement.
list_settlement_candidates-IsPage :
    (limit : ℤ) (s : Store) → IsPage IsCandidate 500 s (list_settlement_candidates limit s)
unfolding list_settlement_candidates
list_settlement_candidates-IsPage limit s =
    let sorted = order_asc (λ tx. tx.created_at) (select is_candidate s.transactions) in
    (
      refl,
      omega (
        arith,
        length-take (clamp_limit 500 limit) sorted,
        clamp_limit-at_most 500 limit (omega arith),
      ),
      All-take IsCandidate (clamp_limit 500 limit) sorted (
          All-order_asc IsCandidate (λ tx. tx.created_at) _
            (All-map (λ (tx : TransactionEntity). is_candidate tx ≡ true) IsCandidate _ candidate
              (All-select is_candidate s.transactions))),
    )
