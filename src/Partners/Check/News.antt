-- ===== src/Partners/Check/News.antt =====
-- What checkTransfer of transfers.service.ts changes in the table.
use kufi_e_wallet_with_hyper.Prelude.{
  arith, String, true, Bool-cases, Option, some, none, ◌≡◌, refl, inl, inr,
}
use kufi_e_wallet_with_hyper.Prelude.Text.{or_text}
use kufi_e_wallet_with_hyper.Prelude.Rows.{find_one, save}
use kufi_e_wallet_with_hyper.Partners.{ExternalTransferStatus, ExternalTransfer, PartnerEnv}
use kufi_e_wallet_with_hyper.Partners.Settings.{normalize_known_partner_code}
use kufi_e_wallet_with_hyper.Partners.Runtime.{resolve_partner_runtime_config}
use kufi_e_wallet_with_hyper.Partners.Initiate.{Table, has_ref}
use kufi_e_wallet_with_hyper.Partners.Rows.{row_id}
use kufi_e_wallet_with_hyper.Partners.Check.{
  CheckRequest, check_news, save_news, is_submitted, check_submitted, check_found, check_reference,
  check_transfer,
}

-- A row with the status and the message of an answer
abbrev pub answered : ExternalTransfer → ExternalTransferStatus → String → ExternalTransfer
answered r status message = record r { status = status; partner_message = some message }

-- What the table is after a check: itself, or with one submitted row answered
pub data Checks (q : CheckRequest) (t : Table) : Table → Type 0 where
  kept : Checks q t t
  news :
      (r : ExternalTransfer) (status : ExternalTransferStatus) (message : String)
      → find_one (has_ref q.partner_ref) t ≡ some r
      → r.status ≡ ExternalTransferStatus.submitted
      → Checks q t (save row_id (answered r status message) t)

save_news-Checks :
    (env : PartnerEnv) (q : CheckRequest) (r : ExternalTransfer) (t : Table)
    → find_one (has_ref q.partner_ref) t ≡ some r
    → r.status ≡ ExternalTransferStatus.submitted
    → (change : Option (ExternalTransferStatus × String)) → Checks q t (save_news env r change t).1
unfolding save_news
save_news-Checks env q r t e h none = kept
save_news-Checks env q r t e h (some (status, message)) = news r status message e h

submitted_of :
    (status : ExternalTransferStatus)
    → is_submitted status ≡ true
    → status ≡ ExternalTransferStatus.submitted
submitted_of ExternalTransferStatus.submitted e = refl
submitted_of ExternalTransferStatus.settled e = ground arith
submitted_of ExternalTransferStatus.failed e = ground arith

check_found-Checks :
    (env : PartnerEnv) (q : CheckRequest) (r : ExternalTransfer) (t : Table)
    → find_one (has_ref q.partner_ref) t ≡ some r
    → Checks q t (check_found env q r t).1
unfolding check_found check_submitted
check_found-Checks env q r t e = elim (Bool-cases (is_submitted r.status)) [
  | inl waiting ↦
      let code = normalize_known_partner_code (or_text r.partner_code q.partner_code) in
      rw waiting (
        save_news-Checks env q r t e (submitted_of r.status waiting)
          (check_news env code r (resolve_partner_runtime_config env code)))
  | inr final ↦ rw final kept
]

check_reference-Checks :
    (env : PartnerEnv) (q : CheckRequest) (t : Table) (found : Option ExternalTransfer)
    → find_one (has_ref q.partner_ref) t ≡ found
    → Checks q t (check_reference env q t found).1
unfolding check_reference
check_reference-Checks env q t none e = kept
check_reference-Checks env q t (some r) e = check_found-Checks env q r t e

pub check_transfer-Checks :
    (env : PartnerEnv) (q : CheckRequest) (t : Table) → Checks q t (check_transfer env q t).1
unfolding check_transfer
check_transfer-Checks env q t =
    check_reference-Checks env q t (find_one (has_ref q.partner_ref) t) refl
