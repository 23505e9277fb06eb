-- ===== src/Prelude/Text/Split.antt =====
-- `split`, `join`, `includes`, `startsWith`, `replaceAll`, `String(number)` and the like, as the
-- services call them.
use Prim.Native.Char.{Char, code}
use Prim.Native.String.{char_at}
use kufi_e_wallet_with_hyper.Prelude.{
  ℕ, zero, suc, ◌-◌, ◌/◌, ◌%◌, String, text_append, Bool, true, false, ◌&&◌, ◌||◌, ◌==◌,
  if◌then◌else◌, Option, none, some, List, [], ◌∷◌, map,
}
use kufi_e_wallet_with_hyper.Prelude.Text.{is_empty, trim}

-- `.split(d)` at a character, given by its code; there is always a first piece.
abbrev extend_first : Char → List String → List String
extend_first c [] = String.◌∷◌ c String.[] ∷ []
extend_first c (p ∷ ps) = String.◌∷◌ c p ∷ ps

unfoldable pub split : ℕ → String → List String
split d String.[] = String.[] ∷ []
split d (String.◌∷◌ c s) =
    let rest = split d s in if code c == d then String.[] ∷ rest else extend_first c rest

-- `.join(sep)`
unfoldable pub join : String → List String → String
join sep [] = String.[]
join sep (p ∷ ps) = elim ps [ [] ↦ p | q ∷ qs ↦ text_append p (text_append sep (join sep ps)) ]

-- `.filter(Boolean)` on texts
abbrev pub keep_nonempty : List String → List String
keep_nonempty [] = []
keep_nonempty (p ∷ ps) = if is_empty p then keep_nonempty ps else p ∷ keep_nonempty ps

-- The pieces between commas or dots, trimmed, without the empty ones.
unfoldable pub trimmed_pieces : ℕ → String → List String
unfolding split
trimmed_pieces d s = keep_nonempty (map trim (split d s))

-- `.startsWith(p)`
unfoldable pub starts_with : String → String → Bool
starts_with String.[] s = true
starts_with (String.◌∷◌ c p) String.[] = false
starts_with (String.◌∷◌ c p) (String.◌∷◌ d s) = code c == code d && starts_with p s

-- `.includes(p)`
unfoldable pub includes : String → String → Bool
unfolding starts_with
includes p String.[] = is_empty p
includes p (String.◌∷◌ c s) = starts_with p (String.◌∷◌ c s) || includes p s

chars : String → ℕ
chars String.[] = 0
chars (String.◌∷◌ c s) = suc (chars s)

-- `skip` characters of an occurrence are still to be left out.
replace_from : ℕ → String → String → String → String
unfolding starts_with chars
replace_from skip p r String.[] = String.[]
replace_from (suc skip) p r (String.◌∷◌ c s) = replace_from skip p r s
replace_from zero p r (String.◌∷◌ c s) =
    let here = starts_with p (String.◌∷◌ c s) in
    let rest = replace_from (if here then chars p - 1 else 0) p r s in
    if here then text_append r rest else String.◌∷◌ c rest

-- `.replaceAll(p, r)` for a `p` that is not empty and an `r` without `$`
unfoldable pub replace_all : String → String → String → String
unfolding replace_from
replace_all p r s = replace_from 0 p r s

-- `.slice(0, i)` and `.slice(i + 1)` at the first `i` with a character; none where `indexOf` is -1.
unfoldable pub cut_at : ℕ → String → Option (String × String)
cut_at d String.[] = none
cut_at d (String.◌∷◌ c s) =
    let rest = cut_at d s in
    if code c == d
    then some (String.[], s)
    else elim rest [ none ↦ none | some halves ↦ some (String.◌∷◌ c halves.0, halves.1) ]

-- `.replace(/\/$/, '')`
unfoldable pub drop_end_slash : String → String
drop_end_slash String.[] = String.[]
drop_end_slash (String.◌∷◌ c s) =
    let rest = drop_end_slash s in
    if is_empty s && code c == b'/' then String.[] else String.◌∷◌ c rest

digits_onto : ℕ → ℕ → String → String
digits_onto zero n s = s
digits_onto (suc fuel) n s =
    let more = String.◌∷◌ (char_at "0123456789" (n % 10)) s in
    let rest = digits_onto fuel (n / 10) more in if n / 10 == 0 then more else rest

-- `String(n)`; the whole numbers that JavaScript holds exactly have at most 16 digits.
unfoldable pub decimal : ℕ → String
unfolding digits_onto
decimal n = digits_onto 16 n ""
