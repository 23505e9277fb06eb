-- ===== src/Withdrawals/Refunds.antt =====
-- A withdrawal that fails at once: its debit is taken back.
use kufi_e_wallet_with_hyper.Prelude.{
  ℕ, ◌≡◌, refl, ◌∙◌, String, str_eq, true, false, arith, inl, inr, is_some, ◌⊎◌, or_else,
}
use kufi_e_wallet_with_hyper.Prelude.Int.{pos, ◌-ℤ◌}
use kufi_e_wallet_with_hyper.Entities.{TransactionEntity, is_withdrawal, is_failed}
use kufi_e_wallet_with_hyper.Store.{Store, Result, ok, err, Env}
use kufi_e_wallet_with_hyper.Store.Post.{bind_post, transactional_post}
use kufi_e_wallet_with_hyper.Partner.{
  submit_outside_transfer, after_outside_call, apply_outside_response, outside_payment_error,
}
use kufi_e_wallet_with_hyper.Chain.{
  anchor_to_chain, after_chain_call, apply_chain_result, mark_chain_pending,
  reconcile_business_status,
}
use kufi_e_wallet_with_hyper.Books.{total}
use kufi_e_wallet_with_hyper.Books.Money.{Credited}
use kufi_e_wallet_with_hyper.Topups.{credit_of}
use kufi_e_wallet_with_hyper.Topups.Keeps.{CreditsOnce}
use kufi_e_wallet_with_hyper.Transfers.Keeps.{there_and_back}
use kufi_e_wallet_with_hyper.Withdrawals.{
  rollback_withdrawal_using_manager, rollback_withdrawal_debit, simulate_failure,
  record_simulated_failure, give_up_withdrawal,
}
use kufi_e_wallet_with_hyper.Withdrawals.Keeps.{rollback_withdrawal-CreditsOnce}

-- The books of `t` are those of `s` less the amount of a withdrawal, which has no credit yet.
pub record IsDebited (tx : TransactionEntity) (s t : Store) : Type 0 where
  pub kind : is_withdrawal tx.kind ≡ true
  pub debited : Credited tx.currency (pos 0 -ℤ pos tx.amount) s t
  pub unpaid : is_some (credit_of tx.id t) ≡ false

-- Back to the money that there was; or, where the refund has failed, still without the amount.
abbrev pub Refunds : {A : Type 0} → String → ℕ → Store → Result A × Store → Type 0
Refunds currency amount s (ok a, t) = Credited currency (pos 0) s t
Refunds currency amount s (err e, t) =
    Credited currency (pos 0 -ℤ pos amount) s t ⊎ Credited currency (pos 0) s t

debit_and_credit :
    (s t u : Store) (currency : String) (amount : ℕ)
    → Credited currency (pos 0 -ℤ pos amount) s t
    → Credited currency (pos amount) t u
    → Credited currency (pos 0) s u
debit_and_credit s t u currency amount d c = record {
  sound = c.sound;
  raised = λ x.
      c.raised x ∙ rw (d.raised x) (there_and_back (str_eq currency x) (total x s.wallets) amount);
}

refunds_due :
    (tx : TransactionEntity) (s t u : Store)
    → IsDebited tx s t
    → CreditsOnce {A = Unit {0}} tx t (ok tt, u)
    → Credited tx.currency (pos 0) s u
refunds_due tx s t u d (inl (made, _, _)) = ground (arith, made, d.unpaid)
refunds_due tx s t u d (inr (_, c)) = debit_and_credit s t u tx.currency tx.amount d.debited c

rollback_withdrawal_debit-Refunds :
    (tx : TransactionEntity) (reason : String) (s t : Store)
    → IsDebited tx s t
    → Refunds tx.currency tx.amount s (rollback_withdrawal_debit tx reason t)
unfolding rollback_withdrawal_debit
rollback_withdrawal_debit-Refunds tx reason s t d = rw d.kind (
    transactional_post (rollback_withdrawal_using_manager tx reason) t (CreditsOnce tx t)
      (Refunds tx.currency tx.amount s)
      (rollback_withdrawal-CreditsOnce tx reason t d.debited.sound)
      (λ _ u c. refunds_due tx s t u d c) (λ e. inl d.debited))

-- What stands in the table of transactions afterwards has failed.
abbrev pub Fails : String → ℕ → Store → Result TransactionEntity × Store → Type 0
Fails currency amount s (ok tx, t) = (is_failed tx.status ≡ true) × Credited currency (pos 0) s t
Fails currency amount s (err e, t) =
    Credited currency (pos 0 -ℤ pos amount) s t ⊎ Credited currency (pos 0) s t

abbrev StaysFailed : Store → Result TransactionEntity × Store → Type 0
StaysFailed s (ok tx, t) =
    (is_failed tx.status ≡ true) × (t.wallets ≡ s.wallets) × (t.ledger ≡ s.ledger)
StaysFailed s (err e, t) = (t.wallets ≡ s.wallets) × (t.ledger ≡ s.ledger)

-- The anchoring of a failed transaction leaves it failed.
anchor_to_chain-StaysFailed :
    (env : Env) (tx : TransactionEntity) (s : Store)
    → is_failed tx.status ≡ true
    → StaysFailed s (anchor_to_chain env tx s)
unfolding anchor_to_chain after_chain_call apply_chain_result mark_chain_pending
    reconcile_business_status
anchor_to_chain-StaysFailed env tx s f = ground arith

Fails-after :
    (currency : String) (amount : ℕ) (s t : Store) (p : Result TransactionEntity × Store)
    → Credited currency (pos 0) s t
    → StaysFailed t p
    → Fails currency amount s p
Fails-after currency amount s t (ok tx, u) c k = (k.0, ground (arith, c, k))
Fails-after currency amount s t (err e, u) c k = inr (ground (arith, c, k))

pub give_up_withdrawal-Fails :
    (env : Env) (tx : TransactionEntity) (s t : Store)
    → is_failed tx.status ≡ true
    → IsDebited tx s t
    → Fails tx.currency tx.amount s (give_up_withdrawal env tx t)
unfolding give_up_withdrawal
give_up_withdrawal-Fails env tx s t failed d =
    let reason = or_else tx.error_code "WITHDRAWAL_FAILED" in
    bind_post (rollback_withdrawal_debit tx reason) (λ _. anchor_to_chain env tx) t
      (Refunds tx.currency tx.amount s) (Fails tx.currency tx.amount s)
      (rollback_withdrawal_debit-Refunds tx reason s t d)
      (λ _ u c.
        Fails-after tx.currency tx.amount s u (anchor_to_chain env tx u) c
          (anchor_to_chain-StaysFailed env tx u failed))
      (λ e u c. c)

record_simulated_failure-StaysFailed :
    (env : Env) (tx : TransactionEntity) (s : Store)
    → StaysFailed s (record_simulated_failure env tx s)
unfolding record_simulated_failure
record_simulated_failure-StaysFailed env tx s = anchor_to_chain-StaysFailed env _ _ refl

pub simulate_failure-Fails :
    (env : Env) (tx : TransactionEntity) (s t : Store)
    → IsDebited tx s t
    → Fails tx.currency tx.amount s (simulate_failure env tx t)
unfolding simulate_failure
simulate_failure-Fails env tx s t d =
    bind_post (rollback_withdrawal_debit tx "WITHDRAWAL_SIMULATED_FAILURE")
      (λ _. record_simulated_failure env tx) t (Refunds tx.currency tx.amount s)
      (Fails tx.currency tx.amount s)
      (rollback_withdrawal_debit-Refunds tx "WITHDRAWAL_SIMULATED_FAILURE" s t d)
      (λ _ u c.
        Fails-after tx.currency tx.amount s u (record_simulated_failure env tx u) c
          (record_simulated_failure-StaysFailed env tx u))
      (λ e u c. c)

-- The transaction that comes back from the partner is the one that was sent.
abbrev pub SameOrder : TransactionEntity → Store → Result TransactionEntity × Store → Type 0
SameOrder tx s (err e, t) = t ≡ s
SameOrder tx s (ok tx', t) =
    (tx'.kind ≡ tx.kind)
    × (tx'.currency ≡ tx.currency)
    × (tx'.amount ≡ tx.amount)
    × (tx'.id ≡ tx.id)
    × (t.wallets ≡ s.wallets)
    × (t.ledger ≡ s.ledger)

pub submit_outside_transfer-SameOrder :
    (env : Env) (tx : TransactionEntity) (s : Store)
    → SameOrder tx s (submit_outside_transfer env tx s)
unfolding submit_outside_transfer after_outside_call apply_outside_response outside_payment_error
submit_outside_transfer-SameOrder env tx s = ground arith

pub still-IsDebited :
    (tx tx' : TransactionEntity) (s t u : Store)
    → SameOrder tx t (ok tx', u)
    → IsDebited tx s t
    → IsDebited tx' s u
still-IsDebited tx tx' s t u same d = ground (arith, same, d)
