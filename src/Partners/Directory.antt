-- ===== src/Partners/Directory.antt =====
-- What the outside payment service promises of its table, as a directory: one transfer at most for a
-- transaction, whichever the order of the rows.
use mathlib.Core.Path.{fun_ext}
use kufi_e_wallet_with_hyper.Prelude.{
  ℕ, arith, ◌==◌, String, Option, some, none, [], ◌∷◌, ◌++◌, ◌≡◌, ◌≢◌, refl, if◌then◌else◌,
}
use kufi_e_wallet_with_hyper.Prelude.Rows.{find_one}
use kufi_e_wallet_with_hyper.Store.{Reply, InitiateTransferResponse}
use kufi_e_wallet_with_hyper.Partners.{ExternalTransferStatus, ExternalTransfer, PartnerEnv}
use kufi_e_wallet_with_hyper.Partners.Initiate.{
  Table, has_transaction, has_ref, InitiateRequest, initiate_transfer, positive_amount,
  parse_amount, submit_new, initiate_valid, initiate_amount,
}
use kufi_e_wallet_with_hyper.Partners.Initiate.Submitted.{
  Submits, not_saved, saved, submit_new-Submits,
}
use kufi_e_wallet_with_hyper.Partners.Check.{CheckRequest, check_transfer}
use kufi_e_wallet_with_hyper.Partners.Check.News.{
  answered, Checks, kept, news, check_transfer-Checks,
}
use kufi_e_wallet_with_hyper.Partners.Rows.{
  Distinct, None-Apart, append-Distinct, save-Distinct, find_one-saved, found_by_transaction,
}

abbrev pub Directory : Type 0
Directory = ℕ → Option ExternalTransfer

abbrev pub view : Table → Directory
view t id = find_one (has_transaction id) t

abbrev pub put : ExternalTransfer → Directory → Directory
put r d id = if r.transaction_id == id then some r else d id

-- A step of the directory: nothing, a transfer for a transaction that had none and that is not
-- settled at once, or the answer of a partner for one that is submitted.
pub data DirectoryStep (d e : Directory) : Type 0 where
  unchanged : e ≡ d → DirectoryStep d e
  submit :
      (r : ExternalTransfer)
      → d r.transaction_id ≡ none
      → r.status ≢ ExternalTransferStatus.settled
      → e ≡ put r d
      → DirectoryStep d e
  answer :
      (r : ExternalTransfer) (status : ExternalTransferStatus) (message : String)
      → d r.transaction_id ≡ some r
      → r.status ≡ ExternalTransferStatus.submitted
      → e ≡ put (answered r status message) d
      → DirectoryStep d e

-- A table with its unique indexes, and the step that it is of the directory
pub record Refines (t u : Table) : Type 0 where
  pub distinct : Distinct u
  pub step : DirectoryStep (view t) (view u)

view-append :
    (r : ExternalTransfer) (t : Table)
    → find_one (has_transaction r.transaction_id) t ≡ none
    → view (t ++ (r ∷ [])) ≡ put r (view t)
view-append r t e = fun_ext (λ id. pointwise r t id e)
  where
    pointwise :
        (r : ExternalTransfer) (t : Table) (id : ℕ)
        → find_one (has_transaction r.transaction_id) t ≡ none
        → view (t ++ (r ∷ [])) id ≡ put r (view t) id
    pointwise r [] id e = refl
    pointwise r (x ∷ xs) id e = ground (arith, pointwise r xs id)

Submits-Refines :
    (env : PartnerEnv) (r : InitiateRequest) (t : Table)
    → Distinct t
    → (out : Reply InitiateTransferResponse × Table) → Submits env r t out
    → Refines t out.1
Submits-Refines env r t d out (not_saved message) = record { distinct = d; step = unchanged refl }
Submits-Refines env r t d out (saved row e waiting m k n) = record {
  distinct = append-Distinct row t d (None-Apart row t n.new_id n.new_transaction n.new_ref);
  step = submit row n.new_transaction waiting (view-append row t n.new_transaction);
}

Checks-Refines :
    (q : CheckRequest) (t : Table) → Distinct t → (u : Table) → Checks q t u → Refines t u
Checks-Refines q t d u kept = record { distinct = d; step = unchanged refl }
Checks-Refines q t d u (news r status message e waiting) = record {
  distinct =
      save-Distinct (has_ref q.partner_ref) t r (answered r status message) e (refl, refl, refl) d;
  step = answer r status message (found_by_transaction (has_ref q.partner_ref) t r e d) waiting (
      fun_ext (λ id.
        find_one-saved (has_ref q.partner_ref) id t r (answered r status message) e
          (refl, refl, refl) d));
}

initiate_valid-Refines :
    (env : PartnerEnv) (r : InitiateRequest) (t : Table) (amount : ℕ)
    → Distinct t
    → (existed : Option ExternalTransfer) → Refines t (initiate_valid env r t amount existed).1
unfolding initiate_valid
initiate_valid-Refines env r t amount d (some row) = record { distinct = d; step = unchanged refl }
initiate_valid-Refines env r t amount d none =
    Submits-Refines env r t d (submit_new env r amount t) (submit_new-Submits env r amount t)

initiate_amount-Refines :
    (env : PartnerEnv) (r : InitiateRequest) (t : Table)
    → Distinct t
    → (amount : Option ℕ) → Refines t (initiate_amount env r t amount).1
unfolding initiate_amount
initiate_amount-Refines env r t d none = record { distinct = d; step = unchanged refl }
initiate_amount-Refines env r t d (some amount) =
    initiate_valid-Refines env r t amount d (find_one (has_transaction r.transaction_id) t)

pub initiate_transfer-Refines :
    (env : PartnerEnv) (r : InitiateRequest) (t : Table)
    → Distinct t
    → Refines t (initiate_transfer env r t).1
unfolding initiate_transfer
initiate_transfer-Refines env r t d =
    initiate_amount-Refines env r t d (positive_amount (parse_amount env r.amount))

pub check_transfer-Refines :
    (env : PartnerEnv) (q : CheckRequest) (t : Table)
    → Distinct t
    → Refines t (check_transfer env q t).1
check_transfer-Refines env q t d =
    Checks-Refines q t d (check_transfer env q t).1 (check_transfer-Checks env q t)

-- On a table with its unique indexes, initiateTransfer and checkTransfer keep them, and each is a step
-- of the directory: it changes nothing, adds a transfer that is not settled for a transaction that
-- had none, or gives one submitted transfer the answer of its partner.
pub calls-Refines :
    (env : PartnerEnv) (r : InitiateRequest) (q : CheckRequest) (t : Table)
    → Distinct t
    → Refines t (initiate_transfer env r t).1 × Refines t (check_transfer env q t).1
calls-Refines env r q t d = (initiate_transfer-Refines env r t d, check_transfer-Refines env q t d)
