-- ===== src/Books/Posting.antt =====
-- One posting: a wallet's balance changes, and an entry that says by how much joins the ledger.
use mathlib.Core.Path.{subst}
use mathlib.Core.Option.{some-injective}
use kufi_e_wallet_with_hyper.Prelude.{
  ℕ, ◌≡◌, refl, ◌≢◌, ap, inl, inr, String, str_eq, Bool, none, some, List, [], ◌∷◌, ◌++◌, All,
  All-append, if◌then◌else◌, or_else, arith, Bool-cases, Option-cases,
}
use kufi_e_wallet_with_hyper.Prelude.Int.{ℤ, pos, ◌+ℤ◌, ◌-ℤ◌, int_laws}
use kufi_e_wallet_with_hyper.Prelude.Rows.{find_one, save}
use kufi_e_wallet_with_hyper.Entities.{Wallet, LedgerEntry}
use kufi_e_wallet_with_hyper.Store.{owns}
use kufi_e_wallet_with_hyper.Wallets.{of_wallet, signed_amount, ledger_delta, expected_balance}
use kufi_e_wallet_with_hyper.Books.{Apart, IsUnique, Agrees, IsSolvent, IsSound, total}
use kufi_e_wallet_with_hyper.Books.Lookup.{
  wallet_id, All-find_one, All-save, save-IsUnique, append-IsUnique, save_head, save_tail,
  find_one-append, find_one-append_none,
}

ledger_delta-append :
    (id : ℕ) (ledger : List LedgerEntry) (e : LedgerEntry)
    → ledger_delta id (ledger ++ e ∷ [])
      ≡ ledger_delta id ledger +ℤ (if of_wallet id e then signed_amount e else pos 0)
unfolding ledger_delta
ledger_delta-append id [] e = grind int_laws
ledger_delta-append id (x ∷ xs) e = grind (int_laws, ledger_delta-append id xs e)

ledger_delta-none :
    (id : ℕ) (ledger : List LedgerEntry)
    → find_one (of_wallet id) ledger ≡ none
    → ledger_delta id ledger ≡ pos 0
unfolding ledger_delta
ledger_delta-none id [] h = refl
ledger_delta-none id (x ∷ xs) h = ground (arith, ledger_delta-none id xs)

-- The entries of another wallet do not matter.
expected_balance-other :
    (id : ℕ) (ledger : List LedgerEntry) (e : LedgerEntry)
    → e.wallet_id ≢ id
    → expected_balance id (ledger ++ e ∷ []) ≡ expected_balance id ledger
unfolding expected_balance
expected_balance-other id ledger e h = elim (Option-cases (find_one (of_wallet id) ledger)) [
  | inl missing ↦ grind (int_laws, find_one-append_none (of_wallet id) ledger (e ∷ []) missing)
  | inr (first, found) ↦ grind (
    int_laws,
    ledger_delta-append id ledger e,
    find_one-append (of_wallet id) ledger (e ∷ []) first found,
  )
]

expected_balance_self :
    (id : ℕ) (ledger : List LedgerEntry) (e : LedgerEntry)
    → e.wallet_id ≡ id
    → expected_balance id (ledger ++ e ∷ [])
      ≡ some (or_else (expected_balance id ledger) e.balance_before +ℤ signed_amount e)
unfolding expected_balance
expected_balance_self id ledger e h = elim (Option-cases (find_one (of_wallet id) ledger)) [
  | inl missing ↦ grind (
    int_laws,
    ledger_delta-append id ledger e,
    ledger_delta-none id ledger missing,
    find_one-append_none (of_wallet id) ledger (e ∷ []) missing,
  )
  | inr (first, found) ↦ grind (
    int_laws,
    ledger_delta-append id ledger e,
    find_one-append (of_wallet id) ledger (e ∷ []) first found,
  )
]

-- Entries of another wallet leave an agreement as it was.
Agrees-other :
    (ledger : List LedgerEntry) (e : LedgerEntry) (w : Wallet)
    → e.wallet_id ≢ w.id
    → Agrees ledger w
    → Agrees (ledger ++ e ∷ []) w
Agrees-other ledger e w h a = rw (expected_balance-other w.id ledger e h) a

module _ (ledger : List LedgerEntry) (e : LedgerEntry) (w : Wallet) where
  -- The balance after the posting.
  abbrev pub posted : Wallet
  posted = record w { balance = w.balance +ℤ signed_amount e }

  Agrees-self :
      e.wallet_id ≡ w.id
      → e.balance_before ≡ w.balance
      → Agrees ledger w
      → Agrees (ledger ++ e ∷ []) posted
  Agrees-self i b a =
      rw (expected_balance_self w.id ledger e i) (ap (λ t. t +ℤ signed_amount e) (rw b a))

  Agrees-rest :
      (ws : List Wallet)
      → e.wallet_id ≡ w.id
      → All (Apart w) ws
      → All (Agrees ledger) ws
      → All (Agrees (ledger ++ e ∷ [])) ws
  Agrees-rest [] i u a = tt
  Agrees-rest (x ∷ xs) i u a =
      (Agrees-other ledger e x (omega (arith, u.0.0)) a.0, Agrees-rest xs i u.1 a.1)

  Agrees-save :
      (p : Wallet → Bool) (ws : List Wallet)
      → find_one p ws ≡ some w
      → IsUnique ws
      → e.wallet_id ≡ w.id
      → e.balance_before ≡ w.balance
      → All (Agrees ledger) ws
      → All (Agrees (ledger ++ e ∷ [])) (save wallet_id posted ws)
  Agrees-save p [] f u i b a = cc
  Agrees-save p (x ∷ xs) f u i b a = elim (Bool-cases (p x)) [
    | inl hit ↦
        let same = some-injective x w (rw hit at f) in
        rw (save_head wallet_id posted x xs (ap wallet_id same)) (
          Agrees-self i b (subst (Agrees ledger) same a.0),
          Agrees-rest xs i (subst (λ y. All (Apart y) xs) same u.0) a.1,
        )
    | inr miss ↦
        let found : find_one p xs ≡ some w = rw miss at f in
        let apart = All-find_one (Apart x) p xs w found u.0 in
        rw (save_tail wallet_id posted x xs (omega (arith, apart.0)))
          (Agrees-other ledger e x (omega (arith, apart.0)) a.0, Agrees-save p xs found u.1 i b a.1)
  ]

-- A posting keeps the books sound if it leaves the balance at zero or more.
pub post-IsSound :
    (p : Wallet → Bool) (ws : List Wallet) (ledger : List LedgerEntry) (w : Wallet)
    (e : LedgerEntry)
    → find_one p ws ≡ some w
    → e.wallet_id ≡ w.id
    → e.balance_before ≡ w.balance
    → IsSolvent (posted ledger e w)
    → IsSound ws ledger
    → IsSound (save wallet_id (posted ledger e w) ws) (ledger ++ e ∷ [])
post-IsSound p ws ledger w e f i b n h = record {
  unique = save-IsUnique p ws w _ f h.unique;
  agreed = Agrees-save ledger e w p ws f h.unique i b h.agreed;
  solvent = All-save IsSolvent wallet_id (posted ledger e w) ws n h.solvent;
}

-- A wallet with a key of its own and no money joins sound books.
pub open-IsSound :
    (ws : List Wallet) (ledger : List LedgerEntry) (w : Wallet)
    → find_one (owns w.user_id w.currency) ws ≡ none
    → All (λ v. v.id ≢ w.id) ws
    → find_one (of_wallet w.id) ledger ≡ none
    → w.balance ≡ pos 0
    → IsSound ws ledger
    → IsSound (ws ++ w ∷ []) ledger
unfolding expected_balance
open-IsSound ws ledger w f k n z h = record {
  unique = append-IsUnique ws w f k h.unique;
  agreed = All-append (Agrees ledger) ws (w ∷ []) h.agreed (rw (n, expected_balance), tt);
  solvent = All-append IsSolvent ws (w ∷ []) h.solvent (rw z (omega arith), tt);
}

-- What a posting does to the money in a currency.
pub total-save :
    (currency : String) (p : Wallet → Bool) (ws : List Wallet) (w : Wallet) (b : ℤ)
    → find_one p ws ≡ some w
    → IsUnique ws
    → total currency (save wallet_id (record w { balance = b }) ws) ≡ (
        if str_eq w.currency currency
        then total currency ws +ℤ (b -ℤ w.balance)
        else total currency ws)
unfolding total
total-save currency p [] w b f u = cc
total-save currency p (x ∷ xs) w b f u = elim (Bool-cases (p x)) [
  | inl hit ↦
      let same = some-injective x w (rw hit at f) in
      rw (save_head wallet_id (record w { balance = b }) x xs (ap wallet_id same)) (grind int_laws)
  | inr miss ↦
      let found : find_one p xs ≡ some w = rw miss at f in
      let apart = All-find_one (Apart x) p xs w found u.0 in
      rw (save_tail wallet_id (record w { balance = b }) x xs (omega (arith, apart.0)))
        (grind (int_laws, total-save currency p xs w b found u.1))
]

pub total-append :
    (currency : String) (ws : List Wallet) (w : Wallet)
    → w.balance ≡ pos 0
    → total currency (ws ++ w ∷ []) ≡ total currency ws
unfolding total
total-append currency [] w z = grind int_laws
total-append currency (x ∷ xs) w z = grind (int_laws, total-append currency xs w)
