-- ===== src/Partners/Rows.antt =====
-- The unique indexes of the table of external-transfer.entity.ts, and what its queries, inserts and
-- saves keep of them.
use mathlib.Core.Path.{subst}
use mathlib.Core.Option.{some-injective}
use kufi_e_wallet_with_hyper.Prelude.{
  ℕ, arith, ◌==◌, eq_iff, Bool, Bool-cases, some, none, [], ◌∷◌, ◌++◌, ◌≡◌, sym, ap, ◌∙◌, ◌≢◌, inl,
  inr, All, All-append, if◌then◌else◌,
}
use kufi_e_wallet_with_hyper.Prelude.Rows.{find_one, save}
use kufi_e_wallet_with_hyper.Prelude.Rows.Kept.{All-map}
use kufi_e_wallet_with_hyper.Books.Lookup.{All-find_one, All-save, save_head, save_tail}
use kufi_e_wallet_with_hyper.Partners.{ExternalTransfer}
use kufi_e_wallet_with_hyper.Partners.Initiate.{Table, has_transaction, has_ref}

-- No unique index holds the two rows under one key.
abbrev pub Apart : ExternalTransfer → ExternalTransfer → Type 0
Apart r x = (r.id ≢ x.id) × (r.transaction_id ≢ x.transaction_id) × (r.partner_ref ≢ x.partner_ref)

abbrev pub Distinct : Table → Type 0
Distinct [] = Unit
Distinct (x ∷ xs) = All (Apart x) xs × Distinct xs

-- Two rows with the same unique keys
abbrev pub SameKeys : ExternalTransfer → ExternalTransfer → Type 0
SameKeys r x =
    (r.id ≡ x.id) × (r.transaction_id ≡ x.transaction_id) × (r.partner_ref ≡ x.partner_ref)

abbrev pub row_id : ExternalTransfer → ℕ
row_id r = r.id

-- A row that no test finds is apart from all rows.
pub None-Apart :
    (r : ExternalTransfer) (t : Table)
    → find_one (λ x. x.id == r.id) t ≡ none
    → find_one (has_transaction r.transaction_id) t ≡ none
    → find_one (has_ref r.partner_ref) t ≡ none
    → All (λ x. Apart x r) t
None-Apart r [] a b c = tt
None-Apart r (x ∷ xs) a b c =
    let e = eq_iff x.partner_ref r.partner_ref in ground (arith, e, None-Apart r xs)

pub append-Distinct :
    (r : ExternalTransfer) (t : Table)
    → Distinct t
    → All (λ x. Apart x r) t
    → Distinct (t ++ (r ∷ []))
append-Distinct r [] d a = (tt, tt)
append-Distinct r (x ∷ xs) d a =
    (All-append (Apart x) xs (r ∷ []) d.0 (a.0, tt), append-Distinct r xs d.1 a.1)

Apart-SameKeys : (v r y : ExternalTransfer) → SameKeys v r → Apart r y → Apart v y
Apart-SameKeys v r y k a = (λ e. a.0 (sym k.0 ∙ e), λ e. a.1 (sym k.1 ∙ e), λ e. a.2 (sym k.2 ∙ e))

Apart-SameKeys_right : (y r v : ExternalTransfer) → SameKeys v r → Apart y r → Apart y v
Apart-SameKeys_right y r v k a = (λ e. a.0 (e ∙ k.0), λ e. a.1 (e ∙ k.1), λ e. a.2 (e ∙ k.2))

pub save-Distinct :
    (p : ExternalTransfer → Bool) (t : Table) (r v : ExternalTransfer)
    → find_one p t ≡ some r
    → SameKeys v r
    → Distinct t
    → Distinct (save row_id v t)
save-Distinct p [] r v e k d = cc
save-Distinct p (x ∷ xs) r v e k d = elim (Bool-cases (p x)) [
  | inl hit ↦
      let same = some-injective x r (rw hit at e) in
      rw (save_head row_id v x xs (ap row_id same ∙ sym k.0)) (
        All-map (Apart r) (Apart v) xs (λ y a. Apart-SameKeys v r y k a)
            (subst (λ y. All (Apart y) xs) same d.0),
        d.1,
      )
  | inr miss ↦
      let found : find_one p xs ≡ some r = rw miss at e in
      let apart = All-find_one (Apart x) p xs r found d.0 in
      rw (save_tail row_id v x xs (omega (arith, apart.0, k.0))) (
        All-save (Apart x) row_id v xs (Apart-SameKeys_right x r v k apart) d.0,
        save-Distinct p xs r v found k d.1,
      )
]

-- A saved row is found by its transaction, and the other transactions have their rows.
pub find_one-saved :
    (p : ExternalTransfer → Bool) (id : ℕ) (t : Table) (r v : ExternalTransfer)
    → find_one p t ≡ some r
    → SameKeys v r
    → Distinct t
    → find_one (has_transaction id) (save row_id v t)
      ≡ (if r.transaction_id == id then some v else find_one (has_transaction id) t)
find_one-saved p id [] r v e k d = cc
find_one-saved p id (x ∷ xs) r v e k d =
    ground (arith, find_one-saved p id xs r v, All-find_one (Apart x) p xs r)

pub found_by_transaction :
    (p : ExternalTransfer → Bool) (t : Table) (r : ExternalTransfer)
    → find_one p t ≡ some r
    → Distinct t
    → find_one (has_transaction r.transaction_id) t ≡ some r
found_by_transaction p [] r e d = cc
found_by_transaction p (x ∷ xs) r e d =
    ground (arith, found_by_transaction p xs r, All-find_one (Apart x) p xs r)
