-- ===== src/Partners/Lifecycle.antt =====
-- A transfer of the outside payment service, from its request to its end, whichever calls of the
-- service run in between.
use mathlib.Core.Path.{subst}
use kufi_e_wallet_with_hyper.Prelude.{
  ℕ, arith, ◌==◌, String, Bool-cases, Option, some, none, ◌≡◌, refl, sym, ap, ◌∙◌, inl, inr,
}
use kufi_e_wallet_with_hyper.Partners.{ExternalTransferStatus, ExternalTransfer, PartnerEnv}
use kufi_e_wallet_with_hyper.Partners.Initiate.{Table, InitiateRequest, initiate_transfer}
use kufi_e_wallet_with_hyper.Partners.Check.{CheckRequest, check_transfer}
use kufi_e_wallet_with_hyper.Partners.Check.News.{answered}
use kufi_e_wallet_with_hyper.Partners.Rows.{Distinct}
use kufi_e_wallet_with_hyper.Partners.Directory.{
  view, put, Directory, DirectoryStep, unchanged, submit, answer, Refines,
  initiate_transfer-Refines, check_transfer-Refines,
}

-- The calls of the service, one after another, each with what it sees from outside
pub data Run : Table → Table → Type 0 where
  done : {t : Table} → Run t t
  initiate :
      {t u : Table} (env : PartnerEnv) (r : InitiateRequest)
      → Run (initiate_transfer env r t).1 u
      → Run t u
  check :
      {t u : Table} (env : PartnerEnv) (q : CheckRequest)
      → Run (check_transfer env q t).1 u
      → Run t u

-- A later state of a transfer: the same, or of a submitted one its partner's answer
pub data Follows (r : ExternalTransfer) : ExternalTransfer → Type 0 where
  same : Follows r r
  answered_as :
      r.status ≡ ExternalTransferStatus.submitted
      → (status : ExternalTransferStatus) (message : String) → Follows r (answered r status message)

Follows-trans : (r v w : ExternalTransfer) → Follows r v → Follows v w → Follows r w
Follows-trans r v w same g = g
Follows-trans r v w (answered_as e status message) same = answered_as e status message
Follows-trans r v w (answered_as e status message) (answered_as f status' message') =
    answered_as e status' message'

abbrev pub Later : ExternalTransfer → Option ExternalTransfer → Type 0
Later r found = (v : ExternalTransfer) × (found ≡ some v) × Follows r v

put_new :
    (x : ExternalTransfer) (d : Directory) (id : ℕ) (r : ExternalTransfer)
    → d x.transaction_id ≡ none
    → d id ≡ some r
    → put x d id ≡ some r
put_new x d id r free f = ground arith

put-answered :
    (x : ExternalTransfer) (status : ExternalTransferStatus) (message : String) (d : Directory)
    (id : ℕ) (r : ExternalTransfer)
    → d x.transaction_id ≡ some x
    → x.status ≡ ExternalTransferStatus.submitted
    → d id ≡ some r
    → Later r (put (answered x status message) d id)
put-answered x status message d id r found h f = elim (Bool-cases (x.transaction_id == id)) [
  | inl hit ↦
      let this : r ≡ x = ground arith in
      rw hit (
        subst (λ y. Later y (some (answered x status message))) (sym this)
          (answered x status message, refl, answered_as h status message))
  | inr miss ↦ rw miss (r, f, same)
]

step-Later :
    (d e : Directory) (id : ℕ) (r : ExternalTransfer)
    → DirectoryStep d e
    → d id ≡ some r
    → Later r (e id)
step-Later d e id r (unchanged s) f = (r, ap (λ g. g id) s ∙ f, same)
step-Later d e id r (submit x free h s) f = (r, ap (λ g. g id) s ∙ put_new x d id r free f, same)
step-Later d e id r (answer x status message found h s) f =
    subst (Later r) (sym (ap (λ g. g id) s)) (put-answered x status message d id r found h f)

Refines-Later :
    (t u w : Table) (id : ℕ) (r : ExternalTransfer)
    → Refines t u
    → view t id ≡ some r
    → ((v : ExternalTransfer) → view u id ≡ some v → Later v (view w id))
    → Later r (view w id)
Refines-Later t u w id r m f rest =
    let first = step-Later (view t) (view u) id r m.step f in
    let last = rest first.0 first.1 in
    (last.0, last.1, Follows-trans r first.0 last.0 first.2 last.2)

-- On a table with its unique indexes, a transfer stays in the table through all calls, with its
-- transaction, its partner's reference and its amount: one that is settled or failed never changes,
-- and one that is submitted only takes the status and the message of its partner.
pub Run-Follows :
    (t u : Table) (id : ℕ) (r : ExternalTransfer)
    → Run t u
    → Distinct t
    → view t id ≡ some r
    → Later r (view u id)
Run-Follows t u id r done d f = (r, f, same)
Run-Follows t u id r (initiate env q run) d f =
    let m = initiate_transfer-Refines env q t d in
    Refines-Later t (initiate_transfer env q t).1 u id r m f
      (λ v g. Run-Follows (initiate_transfer env q t).1 u id v run m.distinct g)
Run-Follows t u id r (check env q run) d f =
    let m = check_transfer-Refines env q t d in
    Refines-Later t (check_transfer env q t).1 u id r m f
      (λ v g. Run-Follows (check_transfer env q t).1 u id v run m.distinct g)
