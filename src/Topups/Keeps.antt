-- ===== src/Topups/Keeps.antt =====
-- The wallets and the ledger under the credit of a settled deposit, and under createTopupIntent.
use kufi_e_wallet_with_hyper.Prelude.{
  ◌≡◌, refl, ◌⊎◌, inl, inr, some, String, true, false, not, is_some, is_some, arith, Bool-cases,
}
use kufi_e_wallet_with_hyper.Prelude.Int.{pos, ◌+ℤ◌}
use kufi_e_wallet_with_hyper.Entities.{Wallet, is_active, is_deposit, TransactionEntity}
use kufi_e_wallet_with_hyper.Store.{Store, Result, ok, err, Env, owns, wallet_of}
use kufi_e_wallet_with_hyper.Store.Post.{bind_post, guard_post}
use kufi_e_wallet_with_hyper.Books.{IsSoundStore, IsSolvent, IsFresh}
use kufi_e_wallet_with_hyper.Books.Lookup.{All-find_one}
use kufi_e_wallet_with_hyper.Books.Money.{
  credited_solvent, IsSameMoney, Credited, Credits, Opens, insert-Opens, same_money, post-Credited,
  Credited-after,
}
use kufi_e_wallet_with_hyper.Topups.{
  wallet_or_new, late_credit_entry, credit_wallet, deposit_owner, credit_deposit, credit_if_active,
  topup_note, credit_of, apply_deposit_credit_if_needed,
}

pub wallet_or_new-Opens :
    (env : Env) (user currency : String) (s : Store)
    → IsSoundStore s
    → IsFresh env.wallet_key s
    → Opens user currency s (wallet_or_new env user currency s)
unfolding wallet_or_new
wallet_or_new-Opens env user currency s h f =
    ground (arith, insert-Opens env user currency s, same_money s h)

pub credit_wallet-Credits :
    (note : String) (tx : TransactionEntity) (w : Wallet) (s : Store) (user : String)
    → wallet_of user tx.currency s ≡ some w
    → IsSoundStore s
    → Credits tx.currency (pos tx.amount) s (credit_wallet note tx w s)
unfolding credit_wallet
credit_wallet-Credits note tx w s user found h =
    post-Credited user tx.currency s w
      (late_credit_entry note tx w (record w { balance = w.balance +ℤ pos tx.amount })) found refl
      refl
      (credited_solvent w.balance tx.amount
        (All-find_one IsSolvent (owns user tx.currency) s.wallets w found h.solvent))
      h

credit_opened :
    (note : String) (tx : TransactionEntity) (w : Wallet) (s t : Store) (user : String)
    → (wallet_of user tx.currency t ≡ some w) × IsSameMoney s t
    → Credits tx.currency (pos tx.amount) s (credit_wallet note tx w t)
unfolding credit_wallet
credit_opened note tx w s t user o =
    Credited-after s t (credit_wallet note tx w t).1 tx.currency (pos tx.amount) o.1
      (credit_wallet-Credits note tx w t user o.0 o.1.sound)

credit_deposit-Credits :
    (env : Env) (tx : TransactionEntity) (s : Store)
    → IsSoundStore s
    → IsFresh env.wallet_key s
    → Credits tx.currency (pos tx.amount) s (credit_deposit env tx s)
unfolding credit_deposit credit_if_active
credit_deposit-Credits env tx s h f =
    bind_post (wallet_or_new env (deposit_owner tx) tx.currency) (credit_if_active tx) s
      (Opens (deposit_owner tx) tx.currency s) (Credits tx.currency (pos tx.amount) s)
      (wallet_or_new-Opens env (deposit_owner tx) tx.currency s h f)
      (λ w t o.
        guard_post (not (is_active w.status)) "Wallet is not active"
          (credit_wallet (topup_note tx) tx w) t (Credits tx.currency (pos tx.amount) s)
          (λ _. credit_opened (topup_note tx) tx w s t (deposit_owner tx) o) (λ _. o.1.sound))
      (λ e t same. rw same h)

-- What a credit that is made once leaves: it was there before, or it is made now.
abbrev pub CreditsOnce : {A : Type 0} → TransactionEntity → Store → Result A × Store → Type 0
CreditsOnce tx s (err e, t) = IsSoundStore t
CreditsOnce tx s (ok _, t) =
    ((is_some (credit_of tx.id s) ≡ true) × (t.wallets ≡ s.wallets) × (t.ledger ≡ s.ledger))
    ⊎ ((is_some (credit_of tx.id s) ≡ false) × Credited tx.currency (pos tx.amount) s t)

pub Credits-now :
    (tx : TransactionEntity) (s : Store) (r : Result (Unit {0}) × Store)
    → is_some (credit_of tx.id s) ≡ false
    → Credits tx.currency (pos tx.amount) s r
    → CreditsOnce tx s r
Credits-now tx s (ok _, t) due c = inr (due, c)
Credits-now tx s (err e, t) due c = c

pub apply_deposit_credit-CreditsOnce :
    (env : Env) (tx : TransactionEntity) (s : Store)
    → is_deposit tx.kind ≡ true
    → IsSoundStore s
    → IsFresh env.wallet_key s
    → CreditsOnce tx s (apply_deposit_credit_if_needed env tx s)
unfolding apply_deposit_credit_if_needed
apply_deposit_credit-CreditsOnce env tx s d h f = elim (Bool-cases (is_some (credit_of tx.id s))) [
  | inl made ↦ rw (d, made) (inl (made, refl, refl))
  | inr due ↦
      rw (d, due)
        (Credits-now tx s (credit_deposit env tx s) due (credit_deposit-Credits env tx s h f))
]
