-- ===== src/Wallets/Checked.antt =====
-- The test of reconcileWallets on one wallet, and the sums of the ledger entries that it stands for.
use mathlib.Core.Path.{subst}
use mathlib.Core.Option.{some-injective}
use kufi_e_wallet_with_hyper.Prelude.{
  ℕ, ◌+◌, ◌==◌, ◌&&◌, ◌≡◌, ◌≢◌, refl, sym, ap, ◌∙◌, true, false, Bool-cases, inl, inr, some, Option,
  if◌then◌else◌, Bool, none, List, [], ◌∷◌, arith,
}
use kufi_e_wallet_with_hyper.Prelude.Int.{ℤ, pos, ◌+ℤ◌, ◌-ℤ◌, eqb_ℤ, int_laws}
use kufi_e_wallet_with_hyper.Prelude.Rows.{find_one}
use kufi_e_wallet_with_hyper.Entities.{Wallet, LedgerEntry, LedgerDirection}
use kufi_e_wallet_with_hyper.Wallets.{
  Mismatch, of_wallet, ledger_delta, check_wallet, push_mismatch,
}

abbrev is_direction : LedgerDirection → LedgerDirection → Bool
is_direction LedgerDirection.credit LedgerDirection.credit = true
is_direction LedgerDirection.debit LedgerDirection.debit = true
is_direction _ _ = false

-- What the entries of a wallet say in one direction
abbrev pub booked : LedgerDirection → ℕ → List LedgerEntry → ℕ
booked d id [] = 0
booked d id (e ∷ es) =
    let rest = booked d id es in
    if e.wallet_id == id && is_direction d e.direction then e.amount + rest else rest

abbrev pub credits : ℕ → List LedgerEntry → ℕ
credits id ledger = booked LedgerDirection.credit id ledger

abbrev pub debits : ℕ → List LedgerEntry → ℕ
debits id ledger = booked LedgerDirection.debit id ledger

-- The opening balance and all credits are the balance and all debits; or they are not.
abbrev pub opening_side : List LedgerEntry → Wallet → LedgerEntry → ℤ
opening_side ledger w first = first.balance_before +ℤ pos (credits w.id ledger)

abbrev pub closing_side : List LedgerEntry → Wallet → ℤ
closing_side ledger w = w.balance +ℤ pos (debits w.id ledger)

abbrev pub first_entry : List LedgerEntry → Wallet → Option LedgerEntry
first_entry ledger w = find_one (λ e. e.wallet_id == w.id) ledger

abbrev pub IsBalanced : List LedgerEntry → Wallet → Type 0
IsBalanced ledger w =
    (first : LedgerEntry)
    → first_entry ledger w ≡ some first
    → opening_side ledger w first ≡ closing_side ledger w

-- The item that says that a wallet is off
pub record IsOff (ledger : List LedgerEntry) (w : Wallet) (m : Mismatch) : Type 0 where
  pub first : LedgerEntry
  pub found : first_entry ledger w ≡ some first
  pub off : opening_side ledger w first ≢ closing_side ledger w
  pub wallet : m.wallet ≡ w
  pub opening : m.opening ≡ first.balance_before
  pub delta : m.delta ≡ pos (credits w.id ledger) -ℤ pos (debits w.id ledger)
  pub expected : m.expected ≡ m.opening +ℤ m.delta

-- The items of some wallets: one for each that is off, in their order, and none for the others.
pub data Reports (ledger : List LedgerEntry) : List Wallet → List Mismatch → Type 0 where
  nothing : Reports ledger [] []
  balanced :
      {w : Wallet} {ws : List Wallet} {ms : List Mismatch}
      → IsBalanced ledger w
      → Reports ledger ws ms
      → Reports ledger (w ∷ ws) ms
  off :
      {w : Wallet} {ws : List Wallet} {m : Mismatch} {ms : List Mismatch}
      → IsOff ledger w m
      → Reports ledger ws ms
      → Reports ledger (w ∷ ws) (m ∷ ms)

minus_first : (n c d : ℕ) → (pos 0 -ℤ pos n) +ℤ (pos c -ℤ pos d) ≡ pos c -ℤ pos (n + d)
minus_first n c d = grind int_laws

plus_first : (n c d : ℕ) → pos n +ℤ (pos c -ℤ pos d) ≡ pos (n + c) -ℤ pos d
plus_first n c d = grind int_laws

ledger_delta-booked :
    (id : ℕ) (ledger : List LedgerEntry)
    → ledger_delta id ledger ≡ pos (credits id ledger) -ℤ pos (debits id ledger)
unfolding ledger_delta
ledger_delta-booked id [] = grind int_laws
ledger_delta-booked id (e ∷ es) = elim (Bool-cases (of_wallet id e)) [
  | inr other ↦ ground (arith, other, ledger_delta-booked id es)
  | inl own ↦ ground (
    arith,
    own,
    ledger_delta-booked id es,
    minus_first e.amount (credits id es) (debits id es),
    plus_first e.amount (credits id es) (debits id es),
  )
]

eqb-path : (a b : ℤ) → eqb_ℤ a b ≡ true → a ≡ b
eqb-path a b h = ground arith

eqb-apart : (a b : ℤ) → eqb_ℤ a b ≡ false → a ≢ b
eqb-apart a b h e = ground (arith, h, e)

-- The expected balance is the balance just when the two sides are the same.
sides :
    (before balance : ℤ) (c d : ℕ)
    → before +ℤ (pos c -ℤ pos d) ≡ balance
    → before +ℤ pos c ≡ balance +ℤ pos d
sides before balance c d h = grind int_laws

sides_back :
    (before balance : ℤ) (c d : ℕ)
    → before +ℤ pos c ≡ balance +ℤ pos d
    → before +ℤ (pos c -ℤ pos d) ≡ balance
sides_back before balance c d h = grind int_laws

-- The item that is pushed for a wallet that is off
abbrev item : List LedgerEntry → Wallet → LedgerEntry → Mismatch
item ledger w first = record {
  wallet = w;
  expected = first.balance_before +ℤ ledger_delta w.id ledger;
  opening = first.balance_before;
  delta = ledger_delta w.id ledger;
}

abbrev is_right : List LedgerEntry → Wallet → LedgerEntry → Bool
is_right ledger w first = eqb_ℤ (first.balance_before +ℤ ledger_delta w.id ledger) w.balance

module _ (ledger : List LedgerEntry) (w : Wallet) where
  check_wallet-none : first_entry ledger w ≡ none → check_wallet ledger w ≡ none
  unfolding check_wallet
  check_wallet-none e = ground (arith, e)

  module _ (first : LedgerEntry) (e : first_entry ledger w ≡ some first) where
    check_wallet-right : is_right ledger w first ≡ true → check_wallet ledger w ≡ none
    unfolding check_wallet
    check_wallet-right h = ground (arith, e, h)

    check_wallet-off :
        is_right ledger w first ≡ false → check_wallet ledger w ≡ some (item ledger w first)
    unfolding check_wallet
    check_wallet-off h = ground (arith, e, h)

    by_sums :
        first.balance_before +ℤ ledger_delta w.id ledger
        ≡ first.balance_before +ℤ (pos (credits w.id ledger) -ℤ pos (debits w.id ledger))
    by_sums = ap (λ d. first.balance_before +ℤ d) (ledger_delta-booked w.id ledger)

    right-IsBalanced : is_right ledger w first ≡ true → IsBalanced ledger w
    right-IsBalanced h other found =
        subst (λ f. opening_side ledger w f ≡ closing_side ledger w)
          (some-injective first other (sym e ∙ found))
          (sides first.balance_before w.balance (credits w.id ledger) (debits w.id ledger)
            (sym by_sums ∙ eqb-path _ _ h))

    item-IsOff : is_right ledger w first ≡ false → IsOff ledger w (item ledger w first)
    item-IsOff h = record {
      first = first;
      found = e;
      off = λ same. eqb-apart _ _ h (
          by_sums
          ∙ sides_back first.balance_before w.balance (credits w.id ledger) (debits w.id ledger)
              same);
      wallet = refl;
      opening = refl;
      delta = ledger_delta-booked w.id ledger;
      expected = refl;
    }

  -- The test of one wallet tells whether it is off.
  pub check_wallet-Reports :
      (ws : List Wallet) (ms : List Mismatch)
      → Reports ledger ws ms
      → (first : Option LedgerEntry) → first_entry ledger w ≡ first
      → Reports ledger (w ∷ ws) (push_mismatch (check_wallet ledger w) ms)
  check_wallet-Reports ws ms rest none e =
      rw (check_wallet-none e) (balanced (λ first found. ground (arith, e, found)) rest)
  check_wallet-Reports ws ms rest (some first) e = elim (Bool-cases (is_right ledger w first)) [
    | inl right ↦
        rw (check_wallet-right first e right) (balanced (right-IsBalanced first e right) rest)
    | inr apart ↦ rw (check_wallet-off first e apart) (off (item-IsOff first e apart) rest)
  ]
