-- ===== src/Tests/Money.antt =====
-- The calls that move money, on the small database.
use kufi_e_wallet_with_hyper.Prelude.{true, none, some, ◌≡◌, refl, inr}
use kufi_e_wallet_with_hyper.Prelude.Int.{pos, ◌-ℤ◌}
use kufi_e_wallet_with_hyper.Prelude.Text.{trim, to_upper, text_length}
use kufi_e_wallet_with_hyper.Store.{has_key, Store, ok, owns}
use kufi_e_wallet_with_hyper.Requests.{
  validate_create_transfer, validate_create_topup_intent, validate_create_withdrawal_request,
  check_key, check_parties, check_partner, positive_integer, normalize_amount, normalize_currency,
}
use kufi_e_wallet_with_hyper.Requests.Accepted.{
  IsTransferOrder, validate_create_transfer-IsTransferOrder,
}
use kufi_e_wallet_with_hyper.Books.Money.{Answers, Persists, Aside}
use kufi_e_wallet_with_hyper.Transfers.{create_transfer, persist_transfer}
use kufi_e_wallet_with_hyper.Transfers.Locks.{IsInternal}
use kufi_e_wallet_with_hyper.Transfers.Moves.{added, persist_transfer-Persists}
use kufi_e_wallet_with_hyper.Transfers.Pays.{IsPayable, Pays, create_transfer-Pays}
use kufi_e_wallet_with_hyper.Transfers.Answers.{create_transfer-Answers}
use kufi_e_wallet_with_hyper.Topups.{
  create_topup_intent, credit_of, is_credit_of, apply_deposit_credit_if_needed, credit_deposit,
  wallet_or_new, credit_if_active, credit_wallet,
}
use kufi_e_wallet_with_hyper.Topups.Answers.{create_topup_intent-Answers}
use kufi_e_wallet_with_hyper.Withdrawals.{create_withdrawal_request, persist_withdrawal_request}
use kufi_e_wallet_with_hyper.Withdrawals.Keeps.{persist_withdrawal-Persists}
use kufi_e_wallet_with_hyper.Withdrawals.Answers.{
  AnswersWithdrawal, create_withdrawal_request-Answers,
}
use kufi_e_wallet_with_hyper.Settlement.{
  Outcome, parse_outcome, mark_settlement, settle_found, settle_if_found, settle_transaction,
  settle_money, record_outcome,
}
use kufi_e_wallet_with_hyper.Outbox.{enqueue_transaction_event}
use kufi_e_wallet_with_hyper.Settlement.Keeps.{Committed, mark_settlement-Committed}
use kufi_e_wallet_with_hyper.Settlement.Once.{mark_settlement-again}
use kufi_e_wallet_with_hyper.Wallets.{create_wallet}
use kufi_e_wallet_with_hyper.Wallets.Opened.{Returns, create_wallet-Returns}
use kufi_e_wallet_with_hyper.Tests.Sample.{
  alice, bob, env, bad_env, to_number, store, deposit, source, store-IsSoundStore, store-IsFresh,
  transfer, transfer_order, topup, topup_order, withdrawal, withdrawal_order,
}

transfer_accepted : validate_create_transfer to_number transfer ≡ ok transfer_order
unfolding validate_create_transfer check_key check_parties check_partner positive_integer
    normalize_amount normalize_currency trim to_upper text_length
transfer_accepted = refl

topup_accepted : validate_create_topup_intent to_number topup ≡ ok topup_order
unfolding validate_create_topup_intent check_key positive_integer normalize_amount
    normalize_currency trim to_upper text_length
topup_accepted = refl

withdrawal_accepted : validate_create_withdrawal_request to_number withdrawal ≡ ok withdrawal_order
unfolding validate_create_withdrawal_request validate_create_topup_intent check_key positive_integer
    normalize_amount normalize_currency trim to_upper text_length
withdrawal_accepted = refl

create_transfer-Answers_example :
    Answers "k1" "VND" (added transfer_order) store (create_transfer env to_number transfer store)
create_transfer-Answers_example =
    create_transfer-Answers env to_number transfer store transfer_accepted store-IsSoundStore
      store-IsFresh

validate_create_transfer-IsTransferOrder_example : IsTransferOrder transfer_order
validate_create_transfer-IsTransferOrder_example =
    validate_create_transfer-IsTransferOrder to_number transfer transfer_accepted

transfer_order-IsInternal : IsInternal transfer_order
transfer_order-IsInternal = record { internal = refl; receiver_given = refl; other_user = refl }

persist_transfer-Persists_example :
    Persists "k1" "VND" (added transfer_order) store (persist_transfer env transfer_order store)
persist_transfer-Persists_example =
    persist_transfer-Persists env transfer_order store store-IsSoundStore
      (inr transfer_order-IsInternal) store-IsFresh

create_topup_intent-Answers_example :
    Answers "k2" "VND" (pos 0) store (create_topup_intent env to_number topup store)
create_topup_intent-Answers_example =
    create_topup_intent-Answers env to_number topup store topup_accepted store-IsSoundStore
      store-IsFresh

no_credit : credit_of env.transaction_key store ≡ none
unfolding is_credit_of
no_credit = refl

create_withdrawal_request-Answers_example :
    AnswersWithdrawal withdrawal_order store
      (create_withdrawal_request bad_env to_number withdrawal store)
create_withdrawal_request-Answers_example =
    create_withdrawal_request-Answers bad_env to_number withdrawal store withdrawal_accepted
      store-IsSoundStore no_credit

persist_withdrawal-Persists_example :
    Persists "k2" "VND"
      (pos 0 -ℤ pos 40)
      store
      (persist_withdrawal_request env withdrawal_order source store)
persist_withdrawal-Persists_example =
    persist_withdrawal-Persists env withdrawal_order source store store-IsSoundStore

settled_status : parse_outcome "settled" ≡ some Outcome.settled
unfolding parse_outcome trim to_upper
settled_status = refl

mark_settlement-Committed_example :
    Committed Outcome.settled deposit store (mark_settlement env 11 "settled" "" store)
mark_settlement-Committed_example =
    mark_settlement-Committed env 11 "settled" "" store settled_status refl store-IsSoundStore
      store-IsFresh

abbrev after_settlement : Store
after_settlement = (mark_settlement env 11 "settled" "" store).1

settled_once : mark_settlement env 11 "settled" "" store ≡ (ok true, after_settlement)
unfolding mark_settlement settle_found settle_if_found settle_transaction settle_money
    apply_deposit_credit_if_needed credit_deposit wallet_or_new credit_if_active credit_wallet
    record_outcome enqueue_transaction_event is_credit_of owns parse_outcome trim to_upper
settled_once = refl

mark_settlement-again_example :
    Aside after_settlement (mark_settlement bad_env 11 "settled" "again" after_settlement)
mark_settlement-again_example =
    mark_settlement-again env bad_env 11 "settled" "" "again" store after_settlement settled_status
      refl settled_once

vnd_accepted : normalize_currency "vnd" ≡ ok "VND"
unfolding normalize_currency trim to_upper text_length
vnd_accepted = refl

create_wallet-Returns_example :
    Returns env "alice" "VND" store store (create_wallet env (λ s. s) "alice" "vnd" store)
create_wallet-Returns_example = create_wallet-Returns env (λ s. s) "alice" "vnd" store vnd_accepted

transfer_order-IsPayable : IsPayable transfer_order store alice bob
unfolding owns has_key
transfer_order-IsPayable = record {
  unique = store-IsSoundStore.unique;
  new_key = refl;
  sender = refl;
  receiver = refl;
  sender_active = refl;
  receiver_active = refl;
  covered = refl;
}

create_transfer-Pays_example :
    Pays transfer_order alice bob (create_transfer env to_number transfer store)
create_transfer-Pays_example =
    create_transfer-Pays env to_number transfer store alice bob transfer_accepted
      transfer_order-IsInternal transfer_order-IsPayable
