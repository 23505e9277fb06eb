-- ===== src/Prelude/Text/Pieces.antt =====
-- Texts without spaces: what `trim`, `split` and `join` do with them.
use Prim.Native.Char.{Char, code}
use Prim.Native.String.{char_at}
use Prim.Native.String.append.{nil as append_nil, cons as append_cons}
use kufi_e_wallet_with_hyper.Prelude.{
  ℕ, arith, String, text_append, Bool, true, false, not, ◌&&◌, ◌==◌, ◌≡◌, refl, ap, ◌∙◌, List, [],
  ◌∷◌, All, map,
}
use kufi_e_wallet_with_hyper.Prelude.Text.{
  is_empty, is_space, cons_trimmed, trim_start, trim_end, trim,
}
use kufi_e_wallet_with_hyper.Prelude.Text.Split.{split, join, keep_nonempty, trimmed_pieces}

-- No white space in the text
unfoldable pub no_space : String → Bool
unfolding is_space
no_space String.[] = true
no_space (String.◌∷◌ c s) = not (is_space (code c)) && no_space s

-- The text does not have the character.
abbrev pub lacks_char : ℕ → String → Bool
lacks_char d String.[] = true
lacks_char d (String.◌∷◌ c s) = not (code c == d) && lacks_char d s

-- An item of a list that is written with commas
pub record IsItem (s : String) : Type 0 where
  pub nonempty : is_empty s ≡ false
  pub spaceless : no_space s ≡ true
  pub commaless : lacks_char b',' s ≡ true

trim_start_lem : (s : String) → no_space s ≡ true → trim_start s ≡ s
unfolding trim_start no_space
trim_start_lem String.[] h = refl
trim_start_lem (String.◌∷◌ c s) h = ground arith

cons_trimmed_lem :
    (c : Char) (s : String) → is_space (code c) ≡ false → cons_trimmed c s ≡ String.◌∷◌ c s
cons_trimmed_lem c String.[] h = ground arith
cons_trimmed_lem c (String.◌∷◌ d s) h = refl

and_true : (a b : Bool) → (a && b) ≡ true → (a ≡ true) × (b ≡ true)
and_true a b h = ground arith

not-true : (a : Bool) → not a ≡ true → a ≡ false
not-true a h = ground arith

no_space_parts :
    (c : Char) (s : String)
    → no_space (String.◌∷◌ c s) ≡ true
    → (is_space (code c) ≡ false) × (no_space s ≡ true)
unfolding no_space
no_space_parts c s h =
    let parts = and_true (not (is_space (code c))) (no_space s) h in
    (not-true (is_space (code c)) parts.0, parts.1)

trim_end_lem : (s : String) → no_space s ≡ true → trim_end s ≡ s
unfolding trim_end
trim_end_lem String.[] h = refl
trim_end_lem (String.◌∷◌ c s) h =
    let parts = no_space_parts c s h in
    ap (cons_trimmed c) (trim_end_lem s parts.1) ∙ cons_trimmed_lem c s parts.0

pub trim_lem : (s : String) → no_space s ≡ true → trim s ≡ s
unfolding trim
trim_lem s h = rw (trim_start_lem s h) (trim_end_lem s h)

pub no_space-append : (p s : String) → no_space (text_append p s) ≡ (no_space p && no_space s)
unfolding no_space
no_space-append String.[] s = ap no_space (append_nil s)
no_space-append (String.◌∷◌ c p) s = rw (append_cons c p s) (ground (arith, no_space-append p s))

split_at :
    (c : Char) (s : String)
    → split (code c) (text_append (String.◌∷◌ c String.[]) s) ≡ String.[] ∷ split (code c) s
unfolding split
split_at c s =
    ap (split (code c)) (append_cons c String.[] s ∙ ap (String.◌∷◌ c) (append_nil s))
    ∙ ground arith

-- A piece before the character that is split at
pub split-piece :
    (c : Char) (p s : String)
    → lacks_char (code c) p ≡ true
    → split (code c) (text_append p (text_append (String.◌∷◌ c String.[]) s)) ≡ p ∷ split (code c) s
unfolding split
split-piece c String.[] s h =
    ap (split (code c)) (append_nil (text_append (String.◌∷◌ c String.[]) s)) ∙ split_at c s
split-piece c (String.◌∷◌ b p) s h =
    rw (append_cons b p (text_append (String.◌∷◌ c String.[]) s))
      (ground (arith, split-piece c p s))

-- A text without the character is one piece.
pub split_whole : (d : ℕ) (p : String) → lacks_char d p ≡ true → split d p ≡ p ∷ []
unfolding split
split_whole d String.[] h = refl
split_whole d (String.◌∷◌ c p) h = ground (arith, split_whole d p)

split-join :
    (p : String) (ps : List String) → All IsItem (p ∷ ps) → split b',' (join "," (p ∷ ps)) ≡ p ∷ ps
unfolding join
split-join p [] h = split_whole b',' p h.0.commaless
split-join p (q ∷ ps) h =
    split-piece (char_at "," 0) p (join "," (q ∷ ps)) h.0.commaless
    ∙ ap (λ rest. p ∷ rest) (split-join q ps h.1)

pub no_space-join : (ps : List String) → All IsItem ps → no_space (join "," ps) ≡ true
unfolding join no_space
no_space-join [] h = refl
no_space-join (p ∷ []) h = h.0.spaceless
no_space-join (p ∷ q ∷ ps) h =
    no_space-append p (text_append "," (join "," (q ∷ ps)))
    ∙ ground
        (arith, no_space-append "," (join "," (q ∷ ps)), no_space-join (q ∷ ps) h.1, h.0.spaceless)

is_empty-append : (p s : String) → is_empty p ≡ false → is_empty (text_append p s) ≡ false
is_empty-append String.[] s h = ground arith
is_empty-append (String.◌∷◌ c p) s h = ap is_empty (append_cons c p s)

pub is_empty-join :
    (p : String) (ps : List String) → IsItem p → is_empty (join "," (p ∷ ps)) ≡ false
unfolding join
is_empty-join p [] h = h.nonempty
is_empty-join p (q ∷ ps) h = is_empty-append p (text_append "," (join "," (q ∷ ps))) h.nonempty

keep_trimmed : (ps : List String) → All IsItem ps → keep_nonempty (map trim ps) ≡ ps
keep_trimmed [] h = refl
keep_trimmed (p ∷ ps) h = rw (trim_lem p h.0.spaceless, h.0.nonempty, keep_trimmed ps h.1) refl

-- The pieces of a joined list are its items.
pub trimmed_pieces-join :
    (p : String) (ps : List String)
    → All IsItem (p ∷ ps)
    → trimmed_pieces b',' (join "," (p ∷ ps)) ≡ p ∷ ps
unfolding trimmed_pieces
trimmed_pieces-join p ps h = rw (split-join p ps h) (keep_trimmed (p ∷ ps) h)
