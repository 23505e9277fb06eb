-- ===== src/Wallets.antt =====
-- createWallet, getWallet and reconcileWallets of transactions.service.ts.
pub mod Opened
pub mod Checked
pub mod Reconciled
pub mod Repaired
use kufi_e_wallet_with_hyper.Prelude.{
  ℕ, ◌==◌, String, Bool, Option, none, some, List, [], ◌∷◌, take, length, if◌then◌else◌,
}
use kufi_e_wallet_with_hyper.Prelude.Int.{ℤ, pos, ◌+ℤ◌, ◌-ℤ◌, eqb_ℤ}
use kufi_e_wallet_with_hyper.Prelude.Rows.{find_one, save}
use kufi_e_wallet_with_hyper.Entities.{Wallet, LedgerEntry, LedgerDirection}
use kufi_e_wallet_with_hyper.Store.{
  Store, ok, err, Method, Env, pure, gets, of_result, ◌>>=◌, query_failed, wallet_of, insert_wallet,
  new_wallet, on_query_failed,
}
use kufi_e_wallet_with_hyper.Requests.{normalize_currency}
use kufi_e_wallet_with_hyper.Queries.{clamp_limit}

-- The second look of createWallet, after its insert was refused.
find_existing : String → String → Method Wallet
find_existing user currency s = elim (wallet_of user currency s) [
  | some existing ↦ (ok existing, s)
  | none ↦ (err query_failed, s)
]

-- `others` is what other calls commit between the look and the insert.
pub create_wallet : Env → (Store → Store) → String → String → Method Wallet
unfolding find_existing
create_wallet env others user currency_raw = do
  currency ← of_result (normalize_currency currency_raw)
  found ← gets (wallet_of user currency)
  elim found [
    | some wallet ↦ pure wallet
    | none ↦ λ s.
        on_query_failed (find_existing user currency)
          (insert_wallet (new_wallet env user currency) (others s))
  ]

unfoldable pub get_wallet : String → String → Method (Option Wallet)
get_wallet user currency_raw = do
  currency ← of_result (normalize_currency currency_raw)
  gets (wallet_of user currency)

abbrev pub of_wallet : ℕ → LedgerEntry → Bool
of_wallet id entry = entry.wallet_id == id

-- CASE WHEN direction = 'CREDIT' THEN amount ELSE -amount END
abbrev pub signed_amount : LedgerEntry → ℤ
signed_amount entry = elim entry.direction [
  | LedgerDirection.credit ↦ pos entry.amount
  | LedgerDirection.debit ↦ pos 0 -ℤ pos entry.amount
]

-- COALESCE(SUM(…), 0) over the entries of one wallet
unfoldable pub ledger_delta : ℕ → List LedgerEntry → ℤ
ledger_delta id [] = pos 0
ledger_delta id (entry ∷ rest) =
    if of_wallet id entry then signed_amount entry +ℤ ledger_delta id rest else ledger_delta id rest

-- `openingBalance + ledgerDelta`, or none for a wallet with no entry
unfoldable pub expected_balance : ℕ → List LedgerEntry → Option ℤ
expected_balance id ledger = elim (find_one (of_wallet id) ledger) [
  | none ↦ none
  | some first ↦ some (first.balance_before +ℤ ledger_delta id ledger)
]

-- An item that the reconciliation reports: the wallet as it was read, and its sums.
pub record Mismatch : Type 0 where
  pub wallet : Wallet
  pub expected : ℤ
  pub opening : ℤ
  pub delta : ℤ

-- The test of one round of the loop: none where it says `continue`.
pub check_wallet : List LedgerEntry → Wallet → Option Mismatch
check_wallet ledger wallet = elim (find_one (of_wallet wallet.id) ledger) [
  | none ↦ none
  | some first ↦
      let delta = ledger_delta wallet.id ledger in
      let expected = first.balance_before +ℤ delta in
      if eqb_ℤ expected wallet.balance
      then none
      else some (record {
        wallet = wallet;
        expected = expected;
        opening = first.balance_before;
        delta = delta;
      })
]

abbrev fix_wallet : Bool → Mismatch → List Wallet → List Wallet
fix_wallet auto_fix m wallets =
    if auto_fix
    then save (λ w. w.id) (record m.wallet { balance = m.expected }) wallets
    else wallets

abbrev push_mismatch : Option Mismatch → List Mismatch → List Mismatch
push_mismatch none items = items
push_mismatch (some m) items = m ∷ items

abbrev fix_mismatch : Bool → Option Mismatch → List Wallet → List Wallet
fix_mismatch auto_fix none wallets = wallets
fix_mismatch auto_fix (some m) wallets = fix_wallet auto_fix m wallets

-- The loop: the items that it pushes, and the wallets after its fixes.
pub reconcile_loop :
    Bool → List LedgerEntry → List Wallet → List Wallet → List Mismatch × List Wallet
reconcile_loop auto_fix ledger [] wallets = ([], wallets)
reconcile_loop auto_fix ledger (w ∷ rest) wallets =
    let found = check_wallet ledger w in
    let (items, after) =
      reconcile_loop auto_fix ledger rest (fix_mismatch auto_fix found wallets) in
    (push_mismatch found items, after)

pub record Reconciliation : Type 0 where
  pub scanned : ℕ
  pub mismatches : ℕ
  pub fixed : ℕ
  pub items : List Mismatch

-- The wallets stand in the table in the order of `createdAt`.
pub reconcile_wallets : ℤ → Bool → Method Reconciliation
unfolding reconcile_loop check_wallet expected_balance ledger_delta clamp_limit
reconcile_wallets limit auto_fix s =
    let scanned = take (clamp_limit 5000 limit) s.wallets in
    let (items, wallets) = reconcile_loop auto_fix s.ledger scanned s.wallets in
    (
      ok (record {
        scanned = length scanned;
        mismatches = length items;
        fixed = if auto_fix then length items else 0;
        items = items;
      }),
      record s { wallets = wallets },
    )
