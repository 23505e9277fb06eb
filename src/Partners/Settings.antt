-- ===== src/Partners/Settings.antt =====
-- The settings of a partner in transfers.service.ts: normalizeKnownPartnerCode,
-- resolvePartnerRuntimeConfig and the parsers of its settings.
use kufi_e_wallet_with_hyper.Prelude.{
  ℕ, ltb, String, str_eq, ◌||◌, if◌then◌else◌, Option, none, some, or_else, List, [], ◌∷◌, map,
}
use kufi_e_wallet_with_hyper.Prelude.Int.{ℤ, pos}
use kufi_e_wallet_with_hyper.Prelude.Text.{is_empty, or_text, trim, to_upper, to_lower}
use kufi_e_wallet_with_hyper.Prelude.Text.Split.{split, trimmed_pieces, cut_at}
use kufi_e_wallet_with_hyper.Partners.{
  ExternalTransferType, RequestStyle, SignatureMode, SignatureAlgorithm, Value, object, Fields, end,
  PartnerEnv,
}

-- The codes of the partners, from the names that stand for them
canonical_partner_code : String → String
canonical_partner_code raw =
    if str_eq raw "MOMO" || str_eq raw "MOMO_WALLET"
    then "MOMO"
    else (if str_eq raw "VNPAY" || str_eq raw "VN_PAY" || str_eq raw "VNP"
        then "VNPAY"
        else (if str_eq raw "ZALOPAY" || str_eq raw "ZALO_PAY" || str_eq raw "ZLP"
            then "ZALOPAY"
            else (if str_eq raw "TECHCOMBANK" || str_eq raw "TECHCOM" || str_eq raw "TCB"
                then "TECHCOMBANK"
                else (if str_eq raw "VIETCOMBANK" || str_eq raw "VIETCOM" || str_eq raw "VCB"
                    then "VIETCOMBANK"
                    else raw))))

unfoldable pub normalize_known_partner_code : String → String
unfolding canonical_partner_code
normalize_known_partner_code code =
    let raw = to_upper (trim code) in
    if is_empty raw then "BANK_DEFAULT" else canonical_partner_code raw

-- partnerPrefixByCode
unfoldable pub partner_prefix_by_code : String → Option String
partner_prefix_by_code code =
    if str_eq code "MOMO"
      || str_eq code "VNPAY"
      || str_eq code "ZALOPAY"
      || str_eq code "TECHCOMBANK"
      || str_eq code "VIETCOMBANK"
    then some code
    else none

unfoldable pub resolve_request_style : String → RequestStyle → RequestStyle
resolve_request_style raw fallback =
    let normalized = to_upper (trim raw) in
    if str_eq normalized "MOMO"
    then RequestStyle.momo
    else (if str_eq normalized "BANK"
        then RequestStyle.bank
        else (if str_eq normalized "VNPAY"
            then RequestStyle.vnpay
            else (if str_eq normalized "ZALOPAY"
                then RequestStyle.zalopay
                else (if str_eq normalized "GENERIC" then RequestStyle.generic else fallback))))

unfoldable pub resolve_signature_mode : String → SignatureMode → SignatureMode
resolve_signature_mode raw fallback =
    let normalized = to_upper (trim raw) in
    if str_eq normalized "LEGACY_HEADER_SHA256"
    then SignatureMode.legacy_header_sha256
    else (if str_eq normalized "HEADER_CANONICAL"
        then SignatureMode.header_canonical
        else (if str_eq normalized "VNPAY_QUERY_SHA512"
            then SignatureMode.vnpay_query_sha512
            else (if str_eq normalized "ZALOPAY_MAC_SHA256"
                then SignatureMode.zalopay_mac_sha256
                else (if str_eq normalized "PAYLOAD_FIELDS_HMAC"
                    then SignatureMode.payload_fields_hmac
                    else fallback))))

unfoldable pub resolve_signature_algorithm : String → SignatureAlgorithm → SignatureAlgorithm
resolve_signature_algorithm raw fallback =
    let normalized = to_lower (trim raw) in
    if str_eq normalized "sha256"
    then SignatureAlgorithm.sha256
    else (if str_eq normalized "sha512" then SignatureAlgorithm.sha512 else fallback)

abbrev pub nonempty_or : List String → List String → List String
nonempty_or [] fallback = fallback
nonempty_or (v ∷ vs) fallback = v ∷ vs

unfoldable pub parse_string_list : String → List String → List String
parse_string_list raw fallback =
    let text = trim raw in
    if is_empty text then fallback else nonempty_or (trimmed_pieces b',' text) fallback

unfoldable pub parse_token_list : String → List String → List String
unfolding parse_string_list
parse_token_list raw fallback = map to_upper (parse_string_list raw fallback)

abbrev pub set_header : String → String → List (String × String) → List (String × String)
set_header name v [] = (name, v) ∷ []
set_header name v (h ∷ hs) = if str_eq h.0 name then (name, v) ∷ hs else h ∷ set_header name v hs

-- One `key=value` of the header setting
add_header_pair : String → List (String × String) → List (String × String)
add_header_pair item headers = elim (cut_at b'=' (trim item)) [
  | none ↦ headers
  | some halves ↦
      let key = trim halves.0 in
      let v = trim halves.1 in
      if is_empty key || is_empty v then headers else set_header key v headers
]

add_header_pairs : List String → List (String × String) → List (String × String)
unfolding add_header_pair
add_header_pairs [] headers = headers
add_header_pairs (item ∷ items) headers = add_header_pairs items (add_header_pair item headers)

unfoldable pub parse_header_pairs : String → List (String × String)
unfolding add_header_pairs
parse_header_pairs raw = add_header_pairs (split b';' (trim raw)) []

abbrev fields_of : Option Value → Fields
fields_of (some (object fs)) = fs
fields_of _ = end

unfoldable pub parse_json_object : PartnerEnv → String → Fields
parse_json_object env raw =
    let text = trim raw in if is_empty text then end else fields_of (env.parse text)

unfoldable pub parse_transfer_type : String → ExternalTransferType
parse_transfer_type raw =
    if str_eq (to_upper (trim raw)) "TOPUP"
    then ExternalTransferType.topup
    else ExternalTransferType.withdrawal

abbrev pub positive_or_8000 : Option ℤ → ℕ
positive_or_8000 (some (pos n)) = if ltb 0 n then n else 8000
positive_or_8000 _ = 8000

-- `(cfg.get(key) || fallback).trim()`
abbrev pub setting_or : PartnerEnv → String → String → String
setting_or env key fallback = trim (or_text (or_else (env.setting key) "") fallback)
