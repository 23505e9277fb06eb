-- ===== src/Partners/Repeats.antt =====
-- A request of initiateTransfer in transfers.service.ts that comes again.
use mathlib.Core.Path.{subst}
use kufi_e_wallet_with_hyper.Prelude.{
  ℕ, arith, Option, some, none, [], ◌∷◌, ◌++◌, ◌≡◌, refl, ap, ◌∙◌,
}
use kufi_e_wallet_with_hyper.Prelude.Rows.{find_one}
use kufi_e_wallet_with_hyper.Books.Lookup.{find_one-append_none}
use kufi_e_wallet_with_hyper.Store.{Reply, InitiateTransferResponse, response, failure}
use kufi_e_wallet_with_hyper.Partners.{ExternalTransfer, PartnerEnv}
use kufi_e_wallet_with_hyper.Partners.Initiate.{
  Table, has_transaction, InitiateRequest, initiate_transfer, positive_amount, parse_amount,
  initiate_valid, initiate_amount, answer_of, submit_new,
}
use kufi_e_wallet_with_hyper.Partners.Initiate.Submitted.{
  Submits, not_saved, saved, submit_new-Submits,
}
use kufi_e_wallet_with_hyper.Partners.Calls.{status_text}
use kufi_e_wallet_with_hyper.Partners.Rows.{Distinct}
use kufi_e_wallet_with_hyper.Partners.Directory.{view, initiate_transfer-Refines}
use kufi_e_wallet_with_hyper.Partners.Lifecycle.{Run, Follows, same, answered_as, Run-Follows}

-- What an answered request leaves: a row for its transaction, which gives that answer again
unfoldable pub Answered : InitiateRequest → Reply InitiateTransferResponse × Table → Type 0
Answered r (failure message, t) = Unit
Answered r (response a, t) =
    (row : ExternalTransfer) × (view t r.transaction_id ≡ some row)
    × (row.partner_ref ≡ a.partner_ref)
    × (a.status ≡ status_text row.status)

inserted_row :
    (row : ExternalTransfer) (t : Table) (id : ℕ)
    → row.transaction_id ≡ id
    → view t row.transaction_id ≡ none
    → view (t ++ (row ∷ [])) id ≡ some row
inserted_row row t id e free =
    ground (arith, find_one-append_none (has_transaction id) t (row ∷ []))

Follows-ref : (r v : ExternalTransfer) → Follows r v → v.partner_ref ≡ r.partner_ref
Follows-ref r v same = refl
Follows-ref r v (answered_as e status message) = refl

submitted-Answered :
    (env : PartnerEnv) (r : InitiateRequest) (t : Table)
    → (out : Reply InitiateTransferResponse × Table) → Submits env r t out
    → Answered r out
unfolding Answered answer_of
submitted-Answered env r t out (not_saved message) = tt
submitted-Answered env r t out (saved row e h m k n) =
    (row, inserted_row row t r.transaction_id e n.new_transaction, refl, refl)

valid-Answered :
    (env : PartnerEnv) (r : InitiateRequest) (t : Table) (amount : ℕ)
    (existed : Option ExternalTransfer)
    → find_one (has_transaction r.transaction_id) t ≡ existed
    → Answered r (initiate_valid env r t amount existed)
unfolding initiate_valid Answered answer_of
valid-Answered env r t amount none e =
    submitted-Answered env r t (submit_new env r amount t) (submit_new-Submits env r amount t)
valid-Answered env r t amount (some row) e = (row, e, refl, refl)

amount-Answered :
    (env : PartnerEnv) (r : InitiateRequest) (t : Table) (amount : Option ℕ)
    → Answered r (initiate_amount env r t amount)
unfolding initiate_amount Answered
amount-Answered env r t none = tt
amount-Answered env r t (some amount) =
    valid-Answered env r t amount (find_one (has_transaction r.transaction_id) t) refl

pub initiate_transfer-Answered :
    (env : PartnerEnv) (r : InitiateRequest) (t : Table) → Answered r (initiate_transfer env r t)
unfolding initiate_transfer
initiate_transfer-Answered env r t =
    amount-Answered env r t (positive_amount (parse_amount env r.amount))

-- A request with a valid amount for a transaction that has a row
initiate_transfer-existed :
    (env : PartnerEnv) (r : InitiateRequest) (t : Table) (n : ℕ) (row : ExternalTransfer)
    → positive_amount (parse_amount env r.amount) ≡ some n
    → view t r.transaction_id ≡ some row
    → initiate_transfer env r t ≡ (response (answer_of "Already submitted" row), t)
unfolding initiate_transfer initiate_amount initiate_valid
initiate_transfer-existed env r t n row e f = rw (e, f) refl

-- On a table with its unique indexes, once initiateTransfer has answered a request, a request for
-- the same transaction with a valid amount, after any further calls, changes nothing and answers the
-- same reference of the partner.
pub initiate_transfer-repeated :
    (env : PartnerEnv) (r : InitiateRequest) (t : Table) (a : InitiateTransferResponse)
    (u w : Table) (env' : PartnerEnv) (r' : InitiateRequest) (n : ℕ)
    → Distinct t
    → initiate_transfer env r t ≡ (response a, u)
    → Run u w
    → r'.transaction_id ≡ r.transaction_id
    → positive_amount (parse_amount env' r'.amount) ≡ some n
    → (a' : InitiateTransferResponse) × (initiate_transfer env' r' w ≡ (response a', w))
      × (a'.partner_ref ≡ a.partner_ref)
unfolding Answered answer_of
initiate_transfer-repeated env r t a u w env' r' n d e run same_id valid =
    let left : Answered r (response a, u) =
      subst (Answered r) e (initiate_transfer-Answered env r t) in
    let distinct : Distinct u =
      subst (λ out. Distinct out.1) e (initiate_transfer-Refines env r t d).distinct in
    let after = Run-Follows u w r.transaction_id left.0 run distinct left.1 in
    (
      answer_of "Already submitted" after.0,
      initiate_transfer-existed env' r' w n after.0 valid (ap (view w) same_id ∙ after.1),
      Follows-ref left.0 after.0 after.2 ∙ left.2,
    )
