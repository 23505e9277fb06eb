-- ===== src/Wallets/Repaired.antt =====
-- reconcileWallets with autoFix: after a repair there is nothing to repair.
use mathlib.Core.Path.{subst}
use mathlib.Core.List.{append_assoc}
use kufi_e_wallet_with_hyper.Prelude.{
  ℕ, ◌≡◌, ◌≢◌, refl, ap, sym, ◌∙◌, Bool, true, List, [], ◌∷◌, ◌++◌, take, drop, All, length, arith,
  zero, suc, or_else, take-append-drop, All-append,
}
use kufi_e_wallet_with_hyper.Prelude.Int.{ℤ, eqb_ℤ}
use kufi_e_wallet_with_hyper.Prelude.Rows.{save}
use kufi_e_wallet_with_hyper.Prelude.Rows.Kept.{All-take}
use kufi_e_wallet_with_hyper.Entities.{Wallet, LedgerEntry}
use kufi_e_wallet_with_hyper.Store.{Store, Result, ok, err}
use kufi_e_wallet_with_hyper.Queries.{clamp_limit}
use kufi_e_wallet_with_hyper.Wallets.{
  expected_balance, check_wallet, fix_mismatch, reconcile_loop, Reconciliation, reconcile_wallets,
}
use kufi_e_wallet_with_hyper.Books.{Agrees}
use kufi_e_wallet_with_hyper.Wallets.Reconciled.{reconcile_loop-Agrees}

abbrev NoneOf : ℕ → List Wallet → Type 0
NoneOf id = All (λ w. w.id ≢ id)

-- The primary key.
abbrev pub HasKeys : List Wallet → Type 0
HasKeys [] = Unit
HasKeys (w ∷ ws) = NoneOf w.id ws × HasKeys ws

-- The wallet with the balance that its entries add up to.
abbrev repaired : List LedgerEntry → Wallet → Wallet
repaired ledger w = record w { balance = or_else (expected_balance w.id ledger) w.balance }

abbrev repair_all : List LedgerEntry → List Wallet → List Wallet
repair_all ledger [] = []
repair_all ledger (w ∷ ws) = repaired ledger w ∷ repair_all ledger ws

save_at :
    (r w : Wallet) (done rest : List Wallet)
    → NoneOf r.id done
    → w.id ≡ r.id
    → save (λ x. x.id) r (done ++ w ∷ rest) ≡ done ++ r ∷ rest
save_at r w [] rest h same = ground (arith, same)
save_at r w (x ∷ done) rest h same = ground (arith, h.0, save_at r w done rest h.1 same)

eq_of_eqb : (a b : ℤ) → eqb_ℤ a b ≡ true → a ≡ b
eq_of_eqb a b h = ground arith

-- One round of the loop repairs the wallet where it stands.
fix_at :
    (ledger : List LedgerEntry) (w : Wallet) (done rest : List Wallet)
    → NoneOf w.id done
    → fix_mismatch true (check_wallet ledger w) (done ++ w ∷ rest)
      ≡ done ++ repaired ledger w ∷ rest
unfolding check_wallet expected_balance
fix_at ledger w done rest h = ground (
  arith,
  eq_of_eqb (or_else (expected_balance w.id ledger) w.balance) w.balance,
  save_at (repaired ledger w) w done rest h refl,
)

NoneOf-append :
    (w : Wallet) (ledger : List LedgerEntry) (done xs : List Wallet)
    → NoneOf w.id xs
    → All (λ v. NoneOf v.id done) xs
    → All (λ v. NoneOf v.id (done ++ repaired ledger w ∷ [])) xs
NoneOf-append w ledger done [] h k = tt
NoneOf-append w ledger done (x ∷ xs) h k = (
  All-append (λ v. v.id ≢ x.id) done (repaired ledger w ∷ []) k.0 ((λ e. h.0 (sym e)), tt),
  NoneOf-append w ledger done xs h.1 k.1,
)

-- The loop repairs every wallet that it scans, and leaves the others.
loop_repairs :
    (ledger : List LedgerEntry) (done xs rest : List Wallet)
    → All (λ w. NoneOf w.id done) xs
    → HasKeys xs
    → (reconcile_loop true ledger xs (done ++ (xs ++ rest))).1
      ≡ done ++ (repair_all ledger xs ++ rest)
unfolding reconcile_loop
loop_repairs ledger done [] rest h k = refl
loop_repairs ledger done (x ∷ xs) rest h k =
    ap (λ ws. (reconcile_loop true ledger xs ws).1)
      (fix_at ledger x done (xs ++ rest) h.0
        ∙ sym (append_assoc done (repaired ledger x ∷ []) (xs ++ rest)))
    ∙ loop_repairs ledger (done ++ repaired ledger x ∷ []) xs rest
        (NoneOf-append x ledger done xs k.0 h.1) k.1
    ∙ append_assoc done (repaired ledger x ∷ []) (repair_all ledger xs ++ rest)

HasKeys-take : (n : ℕ) (ws : List Wallet) → HasKeys ws → HasKeys (take n ws)
HasKeys-take zero ws h = tt
HasKeys-take (suc n) [] h = tt
HasKeys-take (suc n) (w ∷ ws) h = (All-take (λ v. v.id ≢ w.id) n ws h.0, HasKeys-take n ws h.1)

All-empty : (P : Wallet → Type 0) (xs : List Wallet) → ((w : Wallet) → P w) → All P xs
All-empty P [] f = tt
All-empty P (x ∷ xs) f = (f x, All-empty P xs f)

take_repaired :
    (ledger : List LedgerEntry) (n : ℕ) (ws : List Wallet)
    → take n (repair_all ledger (take n ws) ++ drop n ws) ≡ repair_all ledger (take n ws)
take_repaired ledger zero ws = refl
take_repaired ledger (suc n) [] = refl
take_repaired ledger (suc n) (w ∷ ws) =
    ap (λ xs. repaired ledger w ∷ xs) (take_repaired ledger n ws)

repaired-Agrees : (ledger : List LedgerEntry) (w : Wallet) → Agrees ledger (repaired ledger w)
repaired-Agrees ledger w = ground arith

repair_all-Agrees :
    (ledger : List LedgerEntry) (ws : List Wallet) → All (Agrees ledger) (repair_all ledger ws)
repair_all-Agrees ledger [] = tt
repair_all-Agrees ledger (w ∷ ws) = (repaired-Agrees ledger w, repair_all-Agrees ledger ws)

length_repaired :
    (ledger : List LedgerEntry) (ws : List Wallet) → length (repair_all ledger ws) ≡ length ws
length_repaired ledger [] = refl
length_repaired ledger (w ∷ ws) = ap suc (length_repaired ledger ws)

-- The wallets that a repair leaves.
after_repair :
    (n : ℕ) (s : Store)
    → HasKeys s.wallets
    → (reconcile_loop true s.ledger (take n s.wallets) s.wallets).1
      ≡ repair_all s.ledger (take n s.wallets) ++ drop n s.wallets
after_repair n s h =
    ap (λ ws. (reconcile_loop true s.ledger (take n s.wallets) ws).1)
      (sym (take-append-drop n s.wallets))
    ∙ loop_repairs s.ledger [] (take n s.wallets) (drop n s.wallets)
        (All-empty (λ w. NoneOf w.id []) (take n s.wallets) (λ w. tt)) (HasKeys-take n s.wallets h)

-- A reconciliation without a mismatch, which leaves the tables as they are.
abbrev pub FindsNothing : Store → Result Reconciliation × Store → Type 0
FindsNothing s (err e, t) = ⊥
FindsNothing s (ok r, t) = (r.mismatches ≡ 0) × (r.items ≡ []) × (t ≡ s)

found_nothing :
    (limit : ℤ) (auto_fix : Bool) (s : Store)
    → All (Agrees s.ledger) (take (clamp_limit 5000 limit) s.wallets)
    → FindsNothing s (reconcile_wallets limit auto_fix s)
unfolding reconcile_wallets
found_nothing limit auto_fix s h =
    rw
      (reconcile_loop-Agrees auto_fix s.ledger (take (clamp_limit 5000 limit) s.wallets) s.wallets
        h)
      (refl, refl, refl)

-- After a reconciliation with autoFix, a second one with the same limit, with or without autoFix,
-- finds no mismatch and changes nothing, whatever the balances were before, if the keys of the
-- wallets are different.
pub reconcile_wallets-again :
    (limit : ℤ) (auto_fix : Bool) (s : Store)
    → HasKeys s.wallets
    → FindsNothing
        (reconcile_wallets limit true s).1
        (reconcile_wallets limit auto_fix (reconcile_wallets limit true s).1)
unfolding reconcile_wallets
reconcile_wallets-again limit auto_fix s h =
    let n = clamp_limit 5000 limit in
    let t = (reconcile_wallets limit true s).1 in
    found_nothing limit auto_fix t (
      subst (All (Agrees s.ledger))
        (sym (ap (take n) (after_repair n s h) ∙ take_repaired s.ledger n s.wallets))
        (repair_all-Agrees s.ledger (take n s.wallets)))
