-- ===== src/Tests/Tables.antt =====
-- Funding sources, receipts and the reconciliation, on the small database.
use kufi_e_wallet_with_hyper.Prelude.{
  String, true, false, Option, none, some, [], ◌∷◌, ◌≡◌, refl, arith,
}
use kufi_e_wallet_with_hyper.Prelude.Int.{pos}
use kufi_e_wallet_with_hyper.Prelude.Text.{trim, to_upper, text_length}
use kufi_e_wallet_with_hyper.Entities.{ChainStatus}
use kufi_e_wallet_with_hyper.Store.{Store, ok}
use kufi_e_wallet_with_hyper.Requests.{CreateFundingSourceRequest, validate_create_funding_source}
use kufi_e_wallet_with_hyper.Funding.{create_funding_source, hash_account_ref}
use kufi_e_wallet_with_hyper.Funding.Sources.{ReturnsSource, create_funding_source-Returns}
use kufi_e_wallet_with_hyper.Receipts.{Json, get_transaction}
use kufi_e_wallet_with_hyper.Receipts.Kept.{Finds, get_transaction-Finds}
use kufi_e_wallet_with_hyper.Wallets.{reconcile_wallets}
use kufi_e_wallet_with_hyper.Wallets.Reconciled.{Reconciled, reconcile_wallets-Reconciled}
use kufi_e_wallet_with_hyper.Wallets.Repaired.{FindsNothing, HasKeys, reconcile_wallets-again}
use kufi_e_wallet_with_hyper.Tests.Sample.{env, store, alice, bob, waiting}

abbrev account : CreateFundingSourceRequest
account = record {
  user_id = "bob";
  provider = "BANK";
  account_ref = "987654321";
  provider_token = "";
  display_name = "";
}

account_accepted : validate_create_funding_source account ≡ ok account
unfolding validate_create_funding_source trim to_upper text_length
account_accepted = refl

create_funding_source-Returns_example :
    ReturnsSource "bob" "BANK" "BANK:987654321" store store
      (create_funding_source env (λ s. s) account store)
unfolding hash_account_ref
create_funding_source-Returns_example =
    create_funding_source-Returns env (λ s. s) account store account_accepted

abbrev no_json : String → Option Json
no_json t = none

-- The waiting transfer is anchored, and its receipt is to be refreshed.
abbrev anchored_store : Store
anchored_store = record store {
  transactions =
      record waiting { chain_status = ChainStatus.anchored; chain_tx_id = some "T1" } ∷ [];
}

get_transaction-Finds_example :
    Finds env 12 anchored_store (get_transaction env no_json 12 anchored_store)
get_transaction-Finds_example = get_transaction-Finds env no_json 12 anchored_store

-- The balance of alice is not what the ledger says.
abbrev wrong_store : Store
wrong_store = record store { wallets = record alice { balance = pos 70 } ∷ bob ∷ [] }

wrong_store-HasKeys : HasKeys wrong_store.wallets
wrong_store-HasKeys = (((λ e. ground (arith, e)), tt), (tt, tt))

reconcile_wallets-again_example :
    FindsNothing
      (reconcile_wallets (pos 100) true wrong_store).1
      (reconcile_wallets (pos 100) false (reconcile_wallets (pos 100) true wrong_store).1)
reconcile_wallets-again_example =
    reconcile_wallets-again (pos 100) false wrong_store wrong_store-HasKeys

reconcile_wallets-Reconciled_example :
    Reconciled (pos 100) true wrong_store (reconcile_wallets (pos 100) true wrong_store)
reconcile_wallets-Reconciled_example = reconcile_wallets-Reconciled (pos 100) true wrong_store
