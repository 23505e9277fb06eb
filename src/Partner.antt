-- ===== src/Partner.antt =====
-- submitOutsideTransfer of transactions.service.ts: the call of the outside payment service.
use kufi_e_wallet_with_hyper.Prelude.{
  String, str_eq, Bool, true, ◌||◌, Option, none, some, if◌then◌else◌, or_else,
}
use kufi_e_wallet_with_hyper.Prelude.Text.{is_empty, or_text, or_none}
use kufi_e_wallet_with_hyper.Entities.{
  TransactionEntity, is_deposit, TransactionStatus, SettlementStatus,
}
use kufi_e_wallet_with_hyper.Store.{
  Method, Env, throw, bad_request, Reply, response, failure, InitiateTransferRequest,
  InitiateTransferResponse, save_transaction,
}

abbrev pub initiate_request : TransactionEntity → InitiateTransferRequest
initiate_request tx = record {
  transaction_id = tx.id;
  partner_code = or_else tx.external_partner "";
  account_no = or_else tx.external_account_no "";
  amount = tx.amount;
  currency = tx.currency;
  note = tx.memo;
  transfer_type = if is_deposit tx.kind then "TOPUP" else "WITHDRAWAL";
}

-- The transaction after the response of the partner.
unfoldable pub apply_outside_response :
    TransactionEntity → InitiateTransferResponse → TransactionEntity
apply_outside_response tx r =
    let submitted = record tx { external_ref = or_none r.partner_ref } in
    if str_eq r.status "SUBMITTED" then submitted else record submitted {
      status = TransactionStatus.failed;
      settlement_status = SettlementStatus.failed;
      error_code = some "OUTSIDE_PAYMENT_REJECTED";
      error_message = some (or_text r.partner_message "Outside payment rejected");
    }

-- The transaction after the call has thrown.
unfoldable pub outside_payment_error : TransactionEntity → String → TransactionEntity
outside_payment_error tx message = record tx {
  status = TransactionStatus.failed;
  settlement_status = SettlementStatus.failed;
  error_code = some "OUTSIDE_PAYMENT_ERROR";
  error_message = some (or_text message "Outside payment service unavailable");
}

abbrev lacks : Option String → Bool
lacks none = true
lacks (some t) = is_empty t

unfoldable pub after_outside_call :
    TransactionEntity → Reply InitiateTransferResponse → TransactionEntity
unfolding apply_outside_response outside_payment_error
after_outside_call tx (response r) = apply_outside_response tx r
after_outside_call tx (failure message) = outside_payment_error tx message

unfoldable pub submit_outside_transfer : Env → TransactionEntity → Method TransactionEntity
submit_outside_transfer env tx = elim env.outside_payment [
  | none ↦ throw (bad_request "Outside payment service is not available")
  | some initiate_transfer ↦
      if lacks tx.external_partner || lacks tx.external_account_no
      then throw (bad_request "Missing external partner information")
      else save_transaction (after_outside_call tx (initiate_transfer (initiate_request tx)))
]
