-- ===== src/Partners/Answers/Status.antt =====
-- What extractStatus of transfers.service.ts makes of a partner's answer.
use mathlib.Core.Path.{subst}
use Prim.Native.String.append.{nil as append_nil}
use text.Mathlib.TextLemmas.{append-nil}
use kufi_e_wallet_with_hyper.Prelude.{
  arith, inl, inr, sym, ◌↔◌, ◌∙◌, ap, Bool-cases, String, text_append, eq_iff, Bool, true, false,
  List, [], ◌∷◌, ◌≡◌, ◌≢◌, refl,
}
use kufi_e_wallet_with_hyper.Prelude.Text.{is_empty, trim, to_upper}
use kufi_e_wallet_with_hyper.Prelude.Text.Split.{includes}
use kufi_e_wallet_with_hyper.Prelude.Text.Occurs.{Occurs, includes-Occurs, Occurs-includes}
use kufi_e_wallet_with_hyper.Prelude.Rows.Kept.{Among}
use kufi_e_wallet_with_hyper.Partners.{ExternalTransferStatus, FieldMapping, Value}
use kufi_e_wallet_with_hyper.Partners.Answers.{
  Mode, status_of_text, extract_status, matches_any_token,
}

-- A token of the list that is not blank stands, in capitals, somewhere in the text.
abbrev pub Matches : String → List String → Type 0
Matches v tokens =
    (token : String) × Among tokens token
    × (is_empty (to_upper (trim token)) ≡ false)
    × Occurs (to_upper (trim token)) v

later : (v token : String) (tokens : List String) → Matches v tokens → Matches v (token ∷ tokens)
later v token tokens m = (m.0, inr m.1, m.2, m.3)

Occurs-self : (s : String) → Occurs s s
Occurs-self s = (String.[], String.[], sym (append_nil (text_append s String.[]) ∙ append-nil s))

matches-Matches :
    (v : String) (tokens : List String) → matches_any_token v tokens ≡ true → Matches v tokens
unfolding matches_any_token
matches-Matches v [] h = ground arith
matches-Matches v (token ∷ tokens) h =
    let normalized = to_upper (trim token) in
    elim (Bool-cases (matches_any_token v tokens)) [
      | inl more ↦ later v token tokens (matches-Matches v tokens more)
      | inr no_more ↦ elim (Bool-cases (includes normalized v)) [
        | inl found ↦
            (token, inl refl, ground (arith, h, no_more), includes-Occurs normalized v found)
        | inr missed ↦ (
          token,
          inl refl,
          ground (arith, h, no_more),
          let same : v ≡ normalized = ground (arith, h, no_more, missed, eq_iff v normalized) in
              subst (λ t. Occurs normalized t) (sym same) (Occurs-self normalized),
        )
      ]
    ]

Matches-matches :
    (v : String) (tokens : List String) → Matches v tokens → matches_any_token v tokens ≡ true
unfolding matches_any_token
Matches-matches v [] m = absurd m.1
Matches-matches v (token ∷ tokens) (t, inl same, filled, occurs) =
    let filled_token : is_empty (to_upper (trim token)) ≡ false =
      ap (λ x. is_empty (to_upper (trim x))) (sym same) ∙ filled in
    let found : includes (to_upper (trim token)) v ≡ true =
      Occurs-includes (to_upper (trim token)) v
        (subst (λ x. Occurs (to_upper (trim x)) v) same occurs) in
    ground (arith, filled_token, found)
Matches-matches v (token ∷ tokens) (t, inr among, filled, occurs) =
    ground (arith, Matches-matches v tokens (t, among, filled, occurs))

-- matchesAnyToken says yes just when a token of the list that is not blank, trimmed and in capitals,
-- stands somewhere in the text, with whatever text before and after it.
pub matches_any_token_lem :
    (v : String) (tokens : List String) → matches_any_token v tokens ≡ true ↔ Matches v tokens
matches_any_token_lem v tokens = (matches-Matches v tokens, Matches-matches v tokens)

pub extract_status_initiate :
    (v : Value) (ok : Bool) (paths : List String) (m : FieldMapping)
    → extract_status v Mode.initiate ok paths m ≢ ExternalTransferStatus.settled
unfolding extract_status status_of_text
extract_status_initiate v ok paths m = ground arith
