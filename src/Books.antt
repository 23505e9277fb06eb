-- ===== src/Books.antt =====
-- What must hold of the wallets and the ledger together: `wallets` and `ledger_entries` of the
-- transaction service, and the sum that its reconciliation makes of them.
pub mod Lookup
pub mod Posting
pub mod Money
use kufi_e_wallet_with_hyper.Prelude.{
  ℕ, ◌≡◌, ◌≢◌, String, str_eq, Bool, true, false, Option, none, some, List, [], ◌∷◌, All,
  if◌then◌else◌, or_else,
}
use kufi_e_wallet_with_hyper.Prelude.Int.{ℤ, pos, ◌+ℤ◌, ◌≤ℤ◌}
use kufi_e_wallet_with_hyper.Prelude.Rows.{find_one}
use kufi_e_wallet_with_hyper.Entities.{Wallet, LedgerEntry}
use kufi_e_wallet_with_hyper.Store.{Store, Env, owns}
use kufi_e_wallet_with_hyper.Wallets.{of_wallet, expected_balance}

-- Two wallets with different keys and different owners.
abbrev pub Apart : Wallet → Wallet → Type 0
Apart w v = (v.id ≢ w.id) × (owns w.user_id w.currency v ≡ false)

-- The primary key, and the unique index on (userId, currency).
abbrev pub IsUnique : List Wallet → Type 0
IsUnique [] = Unit
IsUnique (w ∷ ws) = All (Apart w) ws × IsUnique ws

-- A wallet with entries has the balance that its entries add up to.
abbrev pub Agrees : List LedgerEntry → Wallet → Type 0
Agrees ledger w = or_else (expected_balance w.id ledger) w.balance ≡ w.balance

abbrev pub IsSolvent : Wallet → Type 0
IsSolvent w = pos 0 ≤ℤ w.balance

pub record IsSound (wallets : List Wallet) (ledger : List LedgerEntry) : Type 0 where
  pub unique : IsUnique wallets
  pub agreed : All (Agrees ledger) wallets
  pub solvent : All IsSolvent wallets

abbrev pub IsSoundStore : Store → Type 0
IsSoundStore s = IsSound s.wallets s.ledger

-- The key that the database gives to a new wallet is in neither table.
pub record IsFresh (key : ℕ) (s : Store) : Type 0 where
  pub new_wallet : All (λ w. w.id ≢ key) s.wallets
  pub new_entries : find_one (of_wallet key) s.ledger ≡ none

-- The money in one currency.
pub total : String → List Wallet → ℤ
total currency [] = pos 0
total currency (w ∷ ws) =
    if str_eq w.currency currency then w.balance +ℤ total currency ws else total currency ws
