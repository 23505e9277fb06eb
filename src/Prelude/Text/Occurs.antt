-- ===== src/Prelude/Text/Occurs.antt =====
-- What `includes` says: one text stands somewhere in the other.
use Prim.Native.Char.{Char}
use Prim.Native.String.append.{nil as append_nil, cons as append_cons}
use text.Mathlib.TextEquality.{Char-path}
use kufi_e_wallet_with_hyper.Prelude.{
  arith, String, text_append, true, ◌≡◌, refl, sym, ap, ◌∙◌, inl, inr, Bool-cases,
}
use kufi_e_wallet_with_hyper.Prelude.Text.Split.{starts_with, includes}

-- The text has some text before the piece, and some after it.
abbrev pub Occurs : String → String → Type 0
Occurs p s = (before : String) × (after : String) × (s ≡ text_append before (text_append p after))

starts_with-append : (p b : String) → starts_with p (text_append p b) ≡ true
unfolding starts_with
starts_with-append String.[] b = refl
starts_with-append (String.◌∷◌ c p) b =
    rw (append_cons c p b) (ground (arith, starts_with-append p b))

starts_with-split : (p s : String) → starts_with p s ≡ true → (b : String) × (s ≡ text_append p b)
unfolding starts_with
starts_with-split String.[] s h = (s, sym (append_nil s))
starts_with-split (String.◌∷◌ c p) String.[] h = ground arith
starts_with-split (String.◌∷◌ c p) (String.◌∷◌ d s) h =
    let rest = starts_with-split p s (ground (arith, h)) in
    (
      rest.0,
      ap (λ (x : Char). String.◌∷◌ x s) (Char-path d c (ground (arith, h)))
          ∙ ap (λ t. String.◌∷◌ c t) rest.1
          ∙ sym (append_cons c p rest.0),
    )

pub includes-Occurs : (p s : String) → includes p s ≡ true → Occurs p s
unfolding includes
includes-Occurs String.[] String.[] h = (String.[], String.[], refl)
includes-Occurs (String.◌∷◌ c p) String.[] h = ground arith
includes-Occurs p (String.◌∷◌ d s) h = elim (Bool-cases (starts_with p (String.◌∷◌ d s))) [
  | inl here ↦
      let found = starts_with-split p (String.◌∷◌ d s) here in
      (String.[], found.0, found.1 ∙ sym (append_nil (text_append p found.0)))
  | inr later ↦
      let found = includes-Occurs p s (ground (arith, h, later)) in
      (
        String.◌∷◌ d found.0,
        found.1,
        ap (λ t. String.◌∷◌ d t) found.2 ∙ sym (append_cons d found.0 (text_append p found.1)),
      )
]

includes-start : (p s : String) → starts_with p s ≡ true → includes p s ≡ true
unfolding starts_with includes
includes-start String.[] String.[] h = refl
includes-start (String.◌∷◌ c p) String.[] h = ground arith
includes-start p (String.◌∷◌ d s) h = rw h refl

includes-append :
    (before p after : String) → includes p (text_append before (text_append p after)) ≡ true
unfolding includes
includes-append String.[] p after =
    ap (includes p) (append_nil (text_append p after))
    ∙ includes-start p (text_append p after) (starts_with-append p after)
includes-append (String.◌∷◌ d before) p after =
    rw (append_cons d before (text_append p after)) (ground (arith, includes-append before p after))

pub Occurs-includes : (p s : String) → Occurs p s → includes p s ≡ true
Occurs-includes p s o = ap (includes p) o.2 ∙ includes-append o.0 p o.1
