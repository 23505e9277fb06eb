-- ===== src/Transfers/Keeps.antt =====
-- The wallets and the ledger under persistTransfer.
use mathlib.Core.List.{append_assoc}
use kufi_e_wallet_with_hyper.Prelude.{
  ℕ, ◌≡◌, refl, ◌∙◌, String, str_eq, eq_iff, Bool, true, false, some, [], ◌∷◌, ◌++◌, arith,
  if◌then◌else◌,
}
use kufi_e_wallet_with_hyper.Prelude.Int.{ℤ, pos, ◌+ℤ◌, ◌-ℤ◌, ltb_ℤ, int_laws}
use kufi_e_wallet_with_hyper.Prelude.Rows.{save}
use kufi_e_wallet_with_hyper.Entities.{Wallet, LedgerEntry}
use kufi_e_wallet_with_hyper.Store.{Store, Env, owns, wallet_of}
use kufi_e_wallet_with_hyper.Requests.{TransferOrder}
use kufi_e_wallet_with_hyper.Books.{IsSoundStore, IsSolvent, total}
use kufi_e_wallet_with_hyper.Books.Lookup.{
  wallet_id, All-find_one, find_one-save_other, find_one-passes,
}
use kufi_e_wallet_with_hyper.Books.Money.{
  credited_solvent, debited_solvent, debit_eq, IsCredited, post-Credited,
}
use kufi_e_wallet_with_hyper.Transfers.{transfer_row, debit_entry, credit_entry}

abbrev less : Wallet → ℕ → Wallet
less w a = record w { balance = w.balance -ℤ pos a }

abbrev more : Wallet → ℕ → Wallet
more w a = record w { balance = w.balance +ℤ pos a }

-- The sender's debit, with its entry.
pub sender_debited :
    (env : Env) (o : TransferOrder) (t : Store) (w : Wallet)
    → wallet_of o.from_user_id o.currency t ≡ some w
    → IsSoundStore t
    → ltb_ℤ w.balance (pos o.amount) ≡ false
    → IsCredited o.currency
        (pos 0 -ℤ pos o.amount)
        t.wallets
        (save wallet_id (less w o.amount) t.wallets)
        (t.ledger ++ debit_entry (transfer_row env o) w (less w o.amount) ∷ [])
sender_debited env o t w found h covered = rw (debit_eq w.balance o.amount) (
    post-Credited o.from_user_id o.currency t w
      (debit_entry (transfer_row env o) w
        (record w { balance = w.balance +ℤ (pos 0 -ℤ pos o.amount) }))
      found refl refl (debited_solvent w.balance o.amount covered) h)

pub not_owner :
    (from to currency : String) (w : Wallet)
    → str_eq from to ≡ false
    → owns from currency w ≡ true
    → owns to currency w ≡ false
unfolding owns
not_owner from to currency w ne mine =
    ground (arith, eq_iff w.user_id from, eq_iff w.user_id to, eq_iff from to)

-- The receiver's row is as it was after the sender's debit.
receiver_kept :
    (o : TransferOrder) (t : Store) (w v : Wallet)
    → str_eq o.from_user_id o.to_user_id ≡ false
    → wallet_of o.from_user_id o.currency t ≡ some w
    → wallet_of o.to_user_id o.currency t ≡ some v
    → IsSoundStore t
    → wallet_of o.to_user_id o.currency
        (record t { wallets = save wallet_id (less w o.amount) t.wallets })
      ≡ some v
unfolding owns
receiver_kept o t w v ne found row h =
    find_one-save_other (owns o.from_user_id o.currency) (owns o.to_user_id o.currency) t.wallets w
      (less w o.amount) found h.unique refl
      (not_owner o.from_user_id o.to_user_id o.currency w ne
        (find_one-passes (owns o.from_user_id o.currency) t.wallets w found))
      (not_owner o.from_user_id o.to_user_id o.currency w ne
        (find_one-passes (owns o.from_user_id o.currency) t.wallets w found))
    ∙ row

pub there_and_back :
    (b : Bool) (x : ℤ) (a : ℕ)
    → (if b
        then (if b then x +ℤ (pos 0 -ℤ pos a) else x) +ℤ pos a
        else (if b then x +ℤ (pos 0 -ℤ pos a) else x))
      ≡ (if b then x +ℤ pos 0 else x)
there_and_back true x a = omega int_laws
there_and_back false x a = refl

-- Debit and credit of an internal order: the money of every currency is what it was.
pub funds_moved :
    (env : Env) (o : TransferOrder) (t : Store) (w v : Wallet)
    → str_eq o.from_user_id o.to_user_id ≡ false
    → wallet_of o.from_user_id o.currency t ≡ some w
    → wallet_of o.to_user_id o.currency t ≡ some v
    → IsSoundStore t
    → ltb_ℤ w.balance (pos o.amount) ≡ false
    → IsCredited o.currency
        (pos 0)
        t.wallets
        (save wallet_id (more v o.amount) (save wallet_id (less w o.amount) t.wallets))
        (t.ledger
          ++ debit_entry (transfer_row env o) w (less w o.amount)
            ∷ credit_entry (transfer_row env o) v (more v o.amount)
            ∷ [])
funds_moved env o t w v ne found row h covered = record {
  sound = rw (append_assoc t.ledger (d ∷ []) (c ∷ [])) at second.sound;
  raised = λ x.
      second.raised x
      ∙ rw (first.raised x) (there_and_back (str_eq o.currency x) (total x t.wallets) o.amount);
}
  where
    d : LedgerEntry
    d = debit_entry (transfer_row env o) w (less w o.amount)

    c : LedgerEntry
    c = credit_entry (transfer_row env o) v (more v o.amount)

    first :
        IsCredited o.currency
          (pos 0 -ℤ pos o.amount)
          t.wallets
          (save wallet_id (less w o.amount) t.wallets)
          (t.ledger ++ d ∷ [])
    first = sender_debited env o t w found h covered

    between : Store
    between = record t {
      wallets = save wallet_id (less w o.amount) t.wallets;
      ledger = t.ledger ++ d ∷ [];
    }

    second :
        IsCredited o.currency
          (pos o.amount)
          between.wallets
          (save wallet_id (more v o.amount) between.wallets)
          (between.ledger ++ c ∷ [])
    second =
        post-Credited o.to_user_id o.currency between v c (receiver_kept o t w v ne found row h)
          refl refl
          (credited_solvent v.balance o.amount
            (All-find_one IsSolvent (owns o.to_user_id o.currency) t.wallets v row h.solvent))
          first.sound
