-- ===== src/Partners/Initiate/Submitted.antt =====
-- What initiateTransfer of transfers.service.ts adds to the table.
use kufi_e_wallet_with_hyper.Prelude.{
  ℕ, arith, ◌==◌, String, Bool, false, Bool-cases, Option, some, none, [], ◌∷◌, ◌++◌, ◌≡◌, ◌≢◌,
  refl, inl, inr, is_some, ◌||◌,
}
use kufi_e_wallet_with_hyper.Prelude.Rows.{find_one}
use kufi_e_wallet_with_hyper.Store.{Reply, response, failure, InitiateTransferResponse}
use kufi_e_wallet_with_hyper.Partners.{
  ExternalTransferStatus, ExternalTransfer, PartnerConfig, PartnerEnv,
}
use kufi_e_wallet_with_hyper.Partners.Payloads.{InitiateData}
use kufi_e_wallet_with_hyper.Partners.Runtime.{resolve_partner_runtime_config}
use kufi_e_wallet_with_hyper.Partners.Calls.Open.{initiate_via_partner_open}
use kufi_e_wallet_with_hyper.Partners.Initiate.{
  Table, has_transaction, has_ref, InitiateRequest, data_of, submission_of, new_transfer,
  insert_transfer, saved_answer, submit_new, answer_of,
}

-- No row has one of the unique keys of the new row.
pub record IsNew (r : ExternalTransfer) (t : Table) : Type 0 where
  pub new_id : find_one (λ x. x.id == r.id) t ≡ none
  pub new_transaction : find_one (has_transaction r.transaction_id) t ≡ none
  pub new_ref : find_one (has_ref r.partner_ref) t ≡ none

pub data Inserted (r : ExternalTransfer) (t : Table) : Reply ExternalTransfer × Table → Type 0 where
  refused : (message : String) → Inserted r t (failure message, t)
  added : IsNew r t → Inserted r t (response r, t ++ (r ∷ []))

none_of : {A : Type 0} (o : Option A) → is_some o ≡ false → o ≡ none
none_of none e = refl
none_of (some a) e = ground arith

all_false : (a b c : Bool) → (a || b || c) ≡ false → (a ≡ false) × (b ≡ false) × (c ≡ false)
all_false a b c e = ground arith

all-IsNew :
    (r : ExternalTransfer) (t : Table)
    → (is_some (find_one (λ x. x.id == r.id) t)
        || is_some (find_one (has_transaction r.transaction_id) t)
        || is_some (find_one (has_ref r.partner_ref) t))
      ≡ false
    → IsNew r t
all-IsNew r t e =
    let free =
      all_false (is_some (find_one (λ x. x.id == r.id) t))
        (is_some (find_one (has_transaction r.transaction_id) t))
        (is_some (find_one (has_ref r.partner_ref) t)) e in
    record {
      new_id = none_of (find_one (λ x. x.id == r.id) t) free.0;
      new_transaction = none_of (find_one (has_transaction r.transaction_id) t) free.1;
      new_ref = none_of (find_one (has_ref r.partner_ref) t) free.2;
    }

pub insert_transfer-Inserted :
    (r : ExternalTransfer) (t : Table) → Inserted r t (insert_transfer r t)
unfolding insert_transfer
insert_transfer-Inserted r t =
    elim (Bool-cases (
      is_some (find_one (λ x. x.id == r.id) t)
      || is_some (find_one (has_transaction r.transaction_id) t)
      || is_some (find_one (has_ref r.partner_ref) t))) [
        | inl taken ↦ rw taken (refused "duplicate key value violates unique constraint")
        | inr free ↦ rw free (added (all-IsNew r t free))
      ]

-- What the table and the answer are after a valid request for a new transaction
pub data Submits (env : PartnerEnv) (r : InitiateRequest) (t : Table)
    : Reply InitiateTransferResponse × Table → Type 0 where
  not_saved : (message : String) → Submits env r t (failure message, t)
  saved :
      (row : ExternalTransfer)
      → row.transaction_id ≡ r.transaction_id
      → row.status ≢ ExternalTransferStatus.settled
      → (message : String) → row.partner_message ≡ some message
      → IsNew row t
      → Submits env r t (response (answer_of "" row), t ++ (row ∷ []))

submission_of_open :
    (env : PartnerEnv) (d : InitiateData) (config : Option PartnerConfig)
    → (submission_of env d config).status ≢ ExternalTransferStatus.settled
unfolding submission_of
submission_of_open env d none = ground arith
submission_of_open env d (some config) = initiate_via_partner_open env config d

saved_answer-Submits :
    (env : PartnerEnv) (r : InitiateRequest) (row : ExternalTransfer) (t : Table)
    → row.transaction_id ≡ r.transaction_id
    → row.status ≢ ExternalTransferStatus.settled
    → (message : String) → row.partner_message ≡ some message
    → (out : Reply ExternalTransfer × Table) → Inserted row t out
    → Submits env r t (saved_answer out)
unfolding saved_answer
saved_answer-Submits env r row t e h m k out (refused message) = not_saved message
saved_answer-Submits env r row t e h m k out (added n) = saved row e h m k n

pub submit_new-Submits :
    (env : PartnerEnv) (r : InitiateRequest) (amount : ℕ) (t : Table)
    → Submits env r t (submit_new env r amount t)
unfolding submit_new new_transfer
submit_new-Submits env r amount t =
    let d = data_of r amount in
    let config = resolve_partner_runtime_config env d.partner_code in
    let row = new_transfer env r amount (submission_of env d config) in
    saved_answer-Submits env r row t refl (submission_of_open env d config)
      (submission_of env d config).partner_message refl (insert_transfer row t)
      (insert_transfer-Inserted row t)
