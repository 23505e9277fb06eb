-- ===== src/Wallets/Reconciled.antt =====
-- reconcileWallets: what it reports and what it repairs.
use kufi_e_wallet_with_hyper.Prelude.{
  ◌≡◌, refl, ap, ◌∙◌, true, false, some, Option, if◌then◌else◌, Bool, none, List, [], ◌∷◌, take,
  All, length, arith,
}
use kufi_e_wallet_with_hyper.Prelude.Int.{ℤ}
use kufi_e_wallet_with_hyper.Entities.{Wallet, LedgerEntry}
use kufi_e_wallet_with_hyper.Store.{Store, Result, ok, err}
use kufi_e_wallet_with_hyper.Queries.{clamp_limit}
use kufi_e_wallet_with_hyper.Wallets.{
  Mismatch, expected_balance, check_wallet, fix_mismatch, reconcile_loop, Reconciliation,
  reconcile_wallets,
}
use kufi_e_wallet_with_hyper.Books.{Agrees}
use kufi_e_wallet_with_hyper.Wallets.Checked.{Reports, nothing, check_wallet-Reports}

check_wallet-Agrees :
    (ledger : List LedgerEntry) (w : Wallet) → Agrees ledger w → check_wallet ledger w ≡ none
unfolding check_wallet expected_balance
check_wallet-Agrees ledger w h = ground arith

pub reconcile_loop-Agrees :
    (auto_fix : Bool) (ledger : List LedgerEntry) (scanned wallets : List Wallet)
    → All (Agrees ledger) scanned
    → reconcile_loop auto_fix ledger scanned wallets ≡ ([], wallets)
unfolding reconcile_loop
reconcile_loop-Agrees auto_fix ledger [] wallets h = refl
reconcile_loop-Agrees auto_fix ledger (w ∷ rest) wallets h =
    rw (check_wallet-Agrees ledger w h.0)
      (rw (reconcile_loop-Agrees auto_fix ledger rest wallets h.1) refl)

reconcile_loop-Reports :
    (auto_fix : Bool) (ledger : List LedgerEntry) (scanned wallets : List Wallet)
    → Reports ledger scanned (reconcile_loop auto_fix ledger scanned wallets).0
unfolding reconcile_loop
reconcile_loop-Reports auto_fix ledger [] wallets = nothing
reconcile_loop-Reports auto_fix ledger (w ∷ ws) wallets =
    check_wallet-Reports ledger w ws _
      (reconcile_loop-Reports auto_fix ledger ws
        (fix_mismatch auto_fix (check_wallet ledger w) wallets))
      _ refl

unfixed : (m : Option Mismatch) (wallets : List Wallet) → fix_mismatch false m wallets ≡ wallets
unfixed none wallets = refl
unfixed (some m) wallets = refl

reconcile_loop-unfixed :
    (ledger : List LedgerEntry) (scanned wallets : List Wallet)
    → (reconcile_loop false ledger scanned wallets).1 ≡ wallets
unfolding reconcile_loop
reconcile_loop-unfixed ledger [] wallets = refl
reconcile_loop-unfixed ledger (w ∷ ws) wallets =
    reconcile_loop-unfixed ledger ws (fix_mismatch false (check_wallet ledger w) wallets)
    ∙ unfixed (check_wallet ledger w) wallets

reconcile_wallets-untouched :
    (limit : ℤ) (auto_fix : Bool) (s : Store)
    → auto_fix ≡ false
    → (reconcile_wallets limit auto_fix s).1 ≡ s
unfolding reconcile_wallets
reconcile_wallets-untouched limit true s e = ground arith
reconcile_wallets-untouched limit false s e =
    ap (λ ws. record s { wallets = ws })
      (reconcile_loop-unfixed s.ledger (take (clamp_limit 5000 limit) s.wallets) s.wallets)

-- The answer of a reconciliation, and what it leaves as it was
pub record Reconciles (limit : ℤ) (auto_fix : Bool) (s : Store) (r : Reconciliation) (t : Store)
    : Type 0 where
  pub scanned : r.scanned ≡ length (take (clamp_limit 5000 limit) s.wallets)
  pub items : Reports s.ledger (take (clamp_limit 5000 limit) s.wallets) r.items
  pub mismatches : r.mismatches ≡ length r.items
  pub fixed : r.fixed ≡ (if auto_fix then length r.items else 0)
  pub untouched : auto_fix ≡ false → t ≡ s
  pub ledger : t.ledger ≡ s.ledger

abbrev pub Reconciled : ℤ → Bool → Store → Result Reconciliation × Store → Type 0
Reconciled limit auto_fix s (ok r, t) = Reconciles limit auto_fix s r t
Reconciled limit auto_fix s (err e, t) = ⊥

-- reconcileWallets scans as many wallets as the limit allows and reports, in their order, one item for
-- each of them that has ledger entries and whose balance and debits do not add up to the same as the
-- opening balance of its first entry and its credits; the item has the wallet, that opening balance, the
-- credits less the debits, and their sum. It counts the items, and as repaired all of them with autoFix
-- and none without; without autoFix it changes no table, and it never changes the ledger.
pub reconcile_wallets-Reconciled :
    (limit : ℤ) (auto_fix : Bool) (s : Store)
    → Reconciled limit auto_fix s (reconcile_wallets limit auto_fix s)
unfolding reconcile_wallets
reconcile_wallets-Reconciled limit auto_fix s =
    let scanned = take (clamp_limit 5000 limit) s.wallets in
    record {
      scanned = refl;
      items = reconcile_loop-Reports auto_fix s.ledger scanned s.wallets;
      mismatches = refl;
      fixed = refl;
      untouched = reconcile_wallets-untouched limit auto_fix s;
      ledger = refl;
    }
