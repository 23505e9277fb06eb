-- ===== src/Auth/Phones.antt =====
-- The phone numbers and the mock users of auth-service, in src/users/users.service.ts and
-- src/auth/auth-internal.controller.ts.
use Prim.Native.Char.{code}
use kufi_e_wallet_with_hyper.Prelude.{
  ℕ, leb, ◌==◌, String, str_eq, text_append, Bool, true, false, ◌&&◌, ◌||◌, if◌then◌else◌, Option,
  some, or_else, List, [], ◌∷◌, ◌++◌,
}
use kufi_e_wallet_with_hyper.Prelude.Text.{is_empty, trim, to_lower, text_length, drop_units}
use kufi_e_wallet_with_hyper.Prelude.Text.Split.{starts_with, includes}
use kufi_e_wallet_with_hyper.Auth.{User}

abbrev is_digit : ℕ → Bool
is_digit c = leb b'0' c && leb c b'9'

-- `.replace(/\D/g, '')`
only_digits : String → String
only_digits String.[] = String.[]
only_digits (String.◌∷◌ c s) =
    let rest = only_digits s in if is_digit (code c) then String.◌∷◌ c rest else rest

-- `/^\d*$/`
unfoldable pub all_digits : String → Bool
all_digits String.[] = true
all_digits (String.◌∷◌ c s) = is_digit (code c) && all_digits s

-- `.endsWith(p)`
ends_with : String → String → Bool
ends_with p String.[] = is_empty p
ends_with p (String.◌∷◌ c s) = str_eq p (String.◌∷◌ c s) || ends_with p s

plus_kept : String → String → String
plus_kept trimmed digits =
    if starts_with "+" trimmed && starts_with "84" digits then text_append "+" digits else digits

-- normalizePhone of users.service.ts
unfoldable pub normalize_phone : String → String
unfolding only_digits plus_kept
normalize_phone raw = plus_kept (trim raw) (only_digits (trim raw))

-- normalizePhoneForStore
unfoldable pub normalize_phone_for_store : String → String
unfolding only_digits
normalize_phone_for_store raw =
    let trimmed = trim raw in
    let digits = only_digits trimmed in
    if starts_with "+" trimmed && starts_with "84" digits
    then text_append "+" digits
    else (if starts_with "84" digits && text_length digits == 11
        then text_append "0" (drop_units 2 digits)
        else digits)

-- normalizePhone of auth-internal.controller.ts
unfoldable pub normalize_sign_up_phone : String → String
unfolding only_digits
normalize_sign_up_phone raw =
    let digits = only_digits raw in
    if starts_with "84" digits && text_length digits == 11
    then text_append "0" (drop_units 2 digits)
    else digits

abbrev between : ℕ → ℕ → ℕ → Bool
between low high n = leb low n && leb n high

-- `/^(0\d{9,10}|84\d{8,10})$/`
unfoldable pub is_ready_phone : String → Bool
unfolding all_digits
is_ready_phone phone =
    all_digits phone
    && (starts_with "0" phone && between 10 11 (text_length phone)
        || starts_with "84" phone && between 10 12 (text_length phone))

-- `/^(0\d{9,10}|84\d{8,10}|\+84\d{8,10})$/`
unfoldable pub is_stored_phone : String → Bool
unfolding is_ready_phone
is_stored_phone phone =
    is_ready_phone phone
    || starts_with "+84" phone
      && all_digits (drop_units 1 phone)
      && between 11 13 (text_length phone)

-- The spellings of one number in the table
variants_of_0 : String → List String
variants_of_0 phone =
    if starts_with "0" phone && leb 10 (text_length phone)
    then text_append "84" (drop_units 1 phone) ∷ text_append "+84" (drop_units 1 phone) ∷ []
    else []

variants_of_84 : String → List String
variants_of_84 phone =
    if starts_with "84" phone && leb 10 (text_length phone)
    then text_append "0" (drop_units 2 phone) ∷ text_append "+" phone ∷ []
    else []

variants_of_plus_84 : String → List String
variants_of_plus_84 phone =
    if starts_with "+84" phone && leb 11 (text_length phone)
    then text_append "0" (drop_units 3 phone) ∷ drop_units 1 phone ∷ []
    else []

unfoldable pub phone_variants : String → List String
unfolding variants_of_0 variants_of_84 variants_of_plus_84
phone_variants phone =
    (phone ∷ variants_of_0 phone) ++ (variants_of_84 phone ++ variants_of_plus_84 phone)

abbrev pub is_member : String → List String → Bool
is_member s [] = false
is_member s (x ∷ xs) = str_eq s x || is_member s xs

-- `${value ?? ''}`.trim().toLowerCase()
abbrev lowered : Option String → String
lowered value = to_lower (trim (or_else value ""))

-- isMockUser
unfoldable pub is_mock_user : User → Bool
unfolding ends_with
is_mock_user u =
    ends_with "@mock.local" (lowered u.email)
    || starts_with "mock-" (lowered (some u.firebase_uid))
    || starts_with "smoke-user" (lowered (some u.firebase_uid))
    || str_eq (lowered u.display_name) "mock user" && includes "mock" (lowered u.email)

-- The same as the query of findByPhone sees it
unfoldable pub ranks_last : User → Bool
unfolding ends_with
ranks_last u =
    ends_with "@mock.local" (to_lower (or_else u.email ""))
    || starts_with "mock-" (to_lower u.firebase_uid)
    || starts_with "smoke-user" (to_lower u.firebase_uid)
    || str_eq (to_lower (or_else u.display_name "")) "mock user"
