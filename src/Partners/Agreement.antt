-- ===== src/Partners/Agreement.antt =====
-- The transaction service and the outside payment service: submitOutsideTransfer of one calls
-- initiateTransfer of the other.
use mathlib.Core.Path.{subst}
use kufi_e_wallet_with_hyper.Prelude.{
  arith, String, str_eq, true, Bool-cases, some, or_else, ◌≡◌, refl, ap, sym, inl, inr,
}
use kufi_e_wallet_with_hyper.Prelude.Int.{pos}
use kufi_e_wallet_with_hyper.Prelude.Text.{or_none}
use kufi_e_wallet_with_hyper.Entities.{TransactionEntity, TransactionStatus, SettlementStatus}
use kufi_e_wallet_with_hyper.Store.{
  Reply, response, failure, InitiateTransferRequest, InitiateTransferResponse,
}
use kufi_e_wallet_with_hyper.Partner.{
  initiate_request, after_outside_call, apply_outside_response, outside_payment_error,
}
use kufi_e_wallet_with_hyper.Partners.{ExternalTransferStatus, ExternalTransfer, PartnerEnv}
use kufi_e_wallet_with_hyper.Partners.Calls.{status_text}
use kufi_e_wallet_with_hyper.Partners.Initiate.{
  Table, WireAmount, InitiateRequest, initiate_transfer,
}
use kufi_e_wallet_with_hyper.Partners.Directory.{view}
use kufi_e_wallet_with_hyper.Partners.Repeats.{Answered, initiate_transfer-Answered}

-- The request as gRPC carries it
unfoldable pub over_the_wire : InitiateTransferRequest → InitiateRequest
over_the_wire r = record {
  transaction_id = r.transaction_id;
  partner_code = r.partner_code;
  account_no = r.account_no;
  amount = WireAmount.long (pos r.amount);
  currency = r.currency;
  note = or_else r.note "";
  transfer_type = r.transfer_type;
}

-- The transaction waits for a transfer that the outside service has as submitted, or has failed.
pub data Agrees (tx after : TransactionEntity) (t : Table) : Type 0 where
  waits :
      (row : ExternalTransfer)
      → view t tx.id ≡ some row
      → row.status ≡ ExternalTransferStatus.submitted
      → after ≡ record tx { external_ref = or_none row.partner_ref }
      → Agrees tx after t
  failed :
      after.status ≡ TransactionStatus.failed
      → after.settlement_status ≡ SettlementStatus.failed
      → Agrees tx after t

submitted_text :
    (status : ExternalTransferStatus)
    → str_eq (status_text status) "SUBMITTED" ≡ true
    → status ≡ ExternalTransferStatus.submitted
submitted_text ExternalTransferStatus.submitted h = refl
submitted_text ExternalTransferStatus.settled h = ground arith
submitted_text ExternalTransferStatus.failed h = ground arith

apply_outside_response-Agrees :
    (tx : TransactionEntity) (r : InitiateRequest) (a : InitiateTransferResponse) (t : Table)
    → r.transaction_id ≡ tx.id
    → Answered r (response a, t)
    → Agrees tx (apply_outside_response tx a) t
unfolding Answered apply_outside_response
apply_outside_response-Agrees tx r a t same_id found =
    elim (Bool-cases (str_eq a.status "SUBMITTED")) [
      | inl hit ↦
          waits found.0 (subst (λ id. view t id ≡ some found.0) same_id found.1)
            (submitted_text found.0.status (subst (λ x. str_eq x "SUBMITTED" ≡ true) found.3 hit))
            (rw hit (ap (λ ref. record tx { external_ref = or_none ref }) (sym found.2)))
      | inr miss ↦ failed (rw miss refl) (rw miss refl)
    ]

error-Agrees :
    (tx : TransactionEntity) (message : String) (t : Table)
    → Agrees tx (outside_payment_error tx message) t
unfolding outside_payment_error
error-Agrees tx message t = failed refl refl

-- Whatever the outside payment service answers to a transaction that is submitted to it, the
-- transaction is failed, or waits under the reference of a transfer of its own that is stored there
-- as submitted.
pub after_outside_call-Agrees :
    (env : PartnerEnv) (tx : TransactionEntity) (t : Table)
    → (let called = initiate_transfer env (over_the_wire (initiate_request tx)) t in
        Agrees tx (after_outside_call tx called.0) called.1)
unfolding after_outside_call over_the_wire
after_outside_call-Agrees env tx t =
    go (initiate_transfer env (over_the_wire (initiate_request tx)) t)
      (initiate_transfer-Answered env (over_the_wire (initiate_request tx)) t)
  where
    go :
        (out : Reply InitiateTransferResponse × Table)
        → Answered (over_the_wire (initiate_request tx)) out
        → Agrees tx (after_outside_call tx out.0) out.1
    go (failure message, u) h = error-Agrees tx message u
    go (response a, u) h =
        apply_outside_response-Agrees tx (over_the_wire (initiate_request tx)) a u refl h
