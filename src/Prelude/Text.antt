-- ===== src/Prelude/Text.antt =====
-- The string operations of JavaScript that the services call, on texts of Unicode scalar values.
-- `to_upper` and `to_lower` change the ASCII letters, which the codes and currencies are made of.
pub mod Split
pub mod Pieces
pub mod Occurs
use Prim.Native.Char.{Char, code}
use Prim.Native.String.{char_at}
use kufi_e_wallet_with_hyper.Prelude.{
  ℕ, ◌+◌, ◌-◌, String, Bool, true, false, ◌&&◌, ◌||◌, leb, ltb, ◌==◌, if◌then◌else◌, Option, none,
  some,
}

abbrev pub is_empty : String → Bool
is_empty String.[] = true
is_empty (String.◌∷◌ c s) = false

-- `a || b` on texts
abbrev pub or_text : String → String → String
or_text String.[] b = b
or_text (String.◌∷◌ c s) b = String.◌∷◌ c s

-- `a || null` on texts
abbrev pub or_none : String → Option String
or_none String.[] = none
or_none (String.◌∷◌ c s) = some (String.◌∷◌ c s)

-- WhiteSpace and LineTerminator of ECMAScript
is_space : ℕ → Bool
is_space c =
    leb 9 c && leb c 13
    || c == 32
    || c == 0xA0
    || c == 0x1680
    || leb 0x2000 c && leb c 0x200A
    || c == 0x2028
    || c == 0x2029
    || c == 0x202F
    || c == 0x205F
    || c == 0x3000
    || c == 0xFEFF

trim_start : String → String
unfolding is_space
trim_start String.[] = String.[]
trim_start (String.◌∷◌ c s) =
    let rest = trim_start s in if is_space (code c) then rest else String.◌∷◌ c s

-- A space in front of nothing but spaces is dropped.
abbrev cons_trimmed : Char → String → String
cons_trimmed c String.[] = if is_space (code c) then String.[] else String.◌∷◌ c String.[]
cons_trimmed c (String.◌∷◌ d s) = String.◌∷◌ c (String.◌∷◌ d s)

trim_end : String → String
unfolding is_space
trim_end String.[] = String.[]
trim_end (String.◌∷◌ c s) = cons_trimmed c (trim_end s)

unfoldable pub trim : String → String
unfolding trim_start trim_end
trim s = trim_end (trim_start s)

upper_char : Char → Char
upper_char c =
    if leb b'a' (code c) && leb (code c) b'z'
    then char_at "ABCDEFGHIJKLMNOPQRSTUVWXYZ" (code c - b'a')
    else c

unfoldable pub to_upper : String → String
unfolding upper_char
to_upper String.[] = String.[]
to_upper (String.◌∷◌ c s) = String.◌∷◌ (upper_char c) (to_upper s)

-- `.length`: UTF-16 code units
unfoldable pub text_length : String → ℕ
text_length String.[] = 0
text_length (String.◌∷◌ c s) = (if ltb 0xFFFF (code c) then 2 else 1) + text_length s

-- `.replace(/\s+/g, '')`
unfoldable pub remove_spaces : String → String
unfolding is_space
remove_spaces String.[] = String.[]
remove_spaces (String.◌∷◌ c s) =
    let rest = remove_spaces s in if is_space (code c) then rest else String.◌∷◌ c rest

-- `.slice(-4)` of a text of `n` units drops `n - 4`. `drop_units` and `take_units` cut no surrogate
-- pair, as the account references have none.
unfoldable pub drop_units : ℕ → String → String
drop_units n String.[] = String.[]
drop_units n (String.◌∷◌ c s) =
    let rest = drop_units (n - 1) s in if n == 0 then String.◌∷◌ c s else rest

unfoldable pub take_units : ℕ → String → String
take_units n String.[] = String.[]
take_units n (String.◌∷◌ c s) =
    let rest = take_units (n - 1) s in if n == 0 then String.[] else String.◌∷◌ c rest

lower_char : Char → Char
lower_char c =
    if leb b'A' (code c) && leb (code c) b'Z'
    then char_at "abcdefghijklmnopqrstuvwxyz" (code c - b'A')
    else c

unfoldable pub to_lower : String → String
unfolding lower_char
to_lower String.[] = String.[]
to_lower (String.◌∷◌ c s) = String.◌∷◌ (lower_char c) (to_lower s)
