-- ===== src/Partners/Objects.antt =====
-- The values of transfers.service.ts as JavaScript reads, writes and prints them, and its helpers
-- readPath, findByKeyDeep, isPlainObject, clonePayload, normalizeJsonField, normalizeCanonicalValue.
use kufi_e_wallet_with_hyper.Prelude.{
  String, str_eq, text_append, Bool, true, false, ◌||◌, if◌then◌else◌, List, [], ◌∷◌,
}
use kufi_e_wallet_with_hyper.Prelude.Text.{is_empty, or_text, trim}
use kufi_e_wallet_with_hyper.Prelude.Text.Split.{trimmed_pieces}
use kufi_e_wallet_with_hyper.Partners.{
  Value, undefined, null, boolean, number, text, array, object, Values, nil, cons, Fields, end,
  field, PartnerEnv,
}

-- `payload[key]`
abbrev pub get_field : String → Fields → Value
get_field key end = undefined
get_field key (field name v rest) = if str_eq name key then v else get_field key rest

abbrev pub has_field : String → Fields → Bool
has_field key end = false
has_field key (field name v rest) = str_eq name key || has_field key rest

-- `payload[key] = v`
abbrev pub set_field : String → Value → Fields → Fields
set_field key v end = field key v end
set_field key v (field name w rest) =
    if str_eq name key then field name v rest else field name w (set_field key v rest)

-- `{ ...payload, ...extra }`
abbrev pub spread : Fields → Fields → Fields
spread payload end = payload
spread payload (field name v rest) = spread (set_field name v payload) rest

abbrev pub is_nullish : Value → Bool
is_nullish undefined = true
is_nullish null = true
is_nullish _ = false

-- `value || other`
abbrev pub or_value : Value → Value → Value
or_value undefined other = other
or_value null other = other
or_value (boolean b) other = if b then boolean true else other
or_value (number n) other = if str_eq n "0" || str_eq n "NaN" then other else number n
or_value (text s) other = if is_empty s then other else text s
or_value (array vs) other = array vs
or_value (object fs) other = object fs

unfoldable mutual
  -- `String(value)`
  pub string_of : Value → String
  string_of undefined = "undefined"
  string_of null = "null"
  string_of (boolean true) = "true"
  string_of (boolean false) = "false"
  string_of (number n) = n
  string_of (text s) = s
  string_of (array vs) = string_of_items vs
  string_of (object fs) = "[object Object]"

  -- The text of an array: its elements with commas between them, where null and undefined are empty.
  pub string_of_items : Values → String
  string_of_items nil = ""
  string_of_items (cons v vs) =
      let item = if is_nullish v then "" else string_of v in
      let rest = string_of_items vs in
      elim vs [ nil ↦ item | cons w ws ↦ text_append item (text_append "," rest) ]

abbrev pub is_plain_object : Value → Bool
is_plain_object (object fs) = true
is_plain_object _ = false

-- clonePayload
abbrev pub clone_payload : Value → Fields
clone_payload (object fs) = fs
clone_payload _ = end

follow : Value → List String → Value
follow cursor [] = cursor
follow cursor (segment ∷ segments) = elim cursor [
  | object fs ↦ follow (get_field segment fs) segments
  | _ ↦ undefined
]

-- readPath
unfoldable pub read_path : Value → String → Value
unfolding follow
read_path obj path = elim (trimmed_pieces b'.' path) [
  | [] ↦ undefined
  | segment ∷ segments ↦ follow obj (segment ∷ segments)
]

unfoldable mutual
  -- findByKeyDeep
  pub find_by_key_deep : String → Value → Value
  find_by_key_deep key (object fs) =
      let deep = find_in_values key fs in if has_field key fs then get_field key fs else deep
  find_by_key_deep key undefined = undefined
  find_by_key_deep key null = undefined
  find_by_key_deep key (boolean b) = undefined
  find_by_key_deep key (number n) = undefined
  find_by_key_deep key (text s) = undefined
  find_by_key_deep key (array vs) = undefined

  -- The loop over `Object.values(obj)`
  pub find_in_values : String → Fields → Value
  find_in_values key end = undefined
  find_in_values key (field name v rest) =
      let found = find_by_key_deep key v in
      let later = find_in_values key rest in if is_nullish found then later else found

-- normalizeJsonField
unfoldable pub normalize_json_field : PartnerEnv → Value → String → String
normalize_json_field env undefined fallback = fallback
normalize_json_field env null fallback = fallback
normalize_json_field env (text s) fallback = or_text (trim s) fallback
normalize_json_field env (boolean b) fallback = env.stringify (boolean b)
normalize_json_field env (number n) fallback = env.stringify (number n)
normalize_json_field env (array vs) fallback = env.stringify (array vs)
normalize_json_field env (object fs) fallback = env.stringify (object fs)

-- normalizeCanonicalValue
unfoldable pub normalize_canonical_value : PartnerEnv → Value → String
unfolding string_of
normalize_canonical_value env undefined = ""
normalize_canonical_value env null = ""
normalize_canonical_value env (text s) = s
normalize_canonical_value env (number n) = n
normalize_canonical_value env (boolean b) = string_of (boolean b)
normalize_canonical_value env (array vs) = env.stringify (array vs)
normalize_canonical_value env (object fs) = env.stringify (object fs)
