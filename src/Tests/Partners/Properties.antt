-- ===== src/Tests/Partners/Properties.antt =====
-- The properties of the outside payment service, at its transfer of MOMO.
use kufi_e_wallet_with_hyper.Prelude.{◌↔◌, String, true, false, some, [], ◌∷◌, ◌≡◌, refl}
use kufi_e_wallet_with_hyper.Prelude.Text.{is_empty, trim, to_upper, to_lower}
use kufi_e_wallet_with_hyper.Prelude.Text.Split.{join, trimmed_pieces, cut_at}
use kufi_e_wallet_with_hyper.Prelude.Text.Pieces.{IsItem, no_space, lacks_char}
use kufi_e_wallet_with_hyper.Store.{response, InitiateTransferResponse}
use kufi_e_wallet_with_hyper.Tests.Sample.{deposit}
use kufi_e_wallet_with_hyper.Partner.{initiate_request, after_outside_call}
use kufi_e_wallet_with_hyper.Partners.{
  HttpMethod, SignatureAlgorithm, SignatureMode, RequestStyle, text, end, field, PartnerConfig,
}
use kufi_e_wallet_with_hyper.Partners.Objects.{get_field, string_of}
use kufi_e_wallet_with_hyper.Partners.Defaults.{
  default_field_mapping_for, default_request_style_for, default_signature_mode_for,
  default_signature_algorithm_for, default_signature_payload_field_for,
  default_signature_fields_for, default_signature_joiner_for,
}
use kufi_e_wallet_with_hyper.Partners.Settings.{
  normalize_known_partner_code, parse_string_list, parse_token_list, partner_prefix_by_code,
  resolve_request_style, resolve_signature_mode, resolve_signature_algorithm, parse_header_pairs,
  parse_json_object,
}
use kufi_e_wallet_with_hyper.Partners.Runtime.{resolve_partner_runtime_config}
use kufi_e_wallet_with_hyper.Partners.Signing.{Draft, apply_signature, build_vnpay_canonical}
use kufi_e_wallet_with_hyper.Partners.Answers.{matches_any_token}
use kufi_e_wallet_with_hyper.Partners.Initiate.{initiate_transfer, parse_amount}
use kufi_e_wallet_with_hyper.Partners.Check.{check_transfer, check_response}
use kufi_e_wallet_with_hyper.Partners.Rows.{Distinct}
use kufi_e_wallet_with_hyper.Partners.Directory.{Refines, view, calls-Refines}
use kufi_e_wallet_with_hyper.Partners.Lifecycle.{Later, done, check, Run-Follows}
use kufi_e_wallet_with_hyper.Partners.Repeats.{initiate_transfer-repeated}
use kufi_e_wallet_with_hyper.Partners.Lists.{parse_string_list-join}
use kufi_e_wallet_with_hyper.Partners.Agreement.{Agrees, over_the_wire, after_outside_call-Agrees}
use kufi_e_wallet_with_hyper.Partners.Answers.Status.{Matches, matches_any_token_lem}
use kufi_e_wallet_with_hyper.Partners.Signing.Verified.{apply_signature-verified}
use kufi_e_wallet_with_hyper.Partners.Check.Unreachable.{check_transfer-unreachable}
use kufi_e_wallet_with_hyper.Partners.Initiate.Unreachable.{
  StoredFailed, initiate_transfer-StoredFailed,
}
use kufi_e_wallet_with_hyper.Tests.Partners.{
  paying, silent, momo_request, momo_row, momo_check, momo_initiate,
}

abbrev momo_config : PartnerConfig
momo_config = record {
  partner_code = "MOMO";
  base_url = "https://momo.test/";
  initiate_path = "/transfers";
  status_path = "/transfers/status";
  status_method = HttpMethod.post;
  request_style = RequestStyle.momo;
  timeout_ms = 8000;
  api_key = "";
  api_secret = "";
  client_id = "";
  merchant_id = "";
  bearer_token = "";
  api_key_header = "X-API-Key";
  client_id_header = "X-Client-Id";
  merchant_id_header = "X-Merchant-Id";
  signature_header = "X-Signature";
  extra_headers = [];
  initiate_static_fields = end;
  check_static_fields = end;
  mapping = default_field_mapping_for "MOMO";
  signature_mode = SignatureMode.legacy_header_sha256;
  signature_algorithm = SignatureAlgorithm.sha256;
  signature_payload_field = "signature";
  signature_fields = [];
  signature_joiner = ".";
}

momo_settings :
    resolve_partner_runtime_config silent (normalize_known_partner_code "MOMO") ≡ some momo_config
unfolding normalize_known_partner_code trim to_upper to_lower resolve_partner_runtime_config
    partner_prefix_by_code default_field_mapping_for default_request_style_for
    default_signature_mode_for default_signature_algorithm_for default_signature_payload_field_for
    default_signature_fields_for default_signature_joiner_for parse_string_list parse_token_list
    resolve_request_style resolve_signature_mode resolve_signature_algorithm parse_header_pairs
    parse_json_object trimmed_pieces cut_at
momo_settings = refl

momo_settings_spaced :
    resolve_partner_runtime_config silent (normalize_known_partner_code " momo ") ≡ some momo_config
unfolding normalize_known_partner_code trim to_upper
momo_settings_spaced = momo_settings

one_row : Distinct (momo_row ∷ [])
one_row = (tt, tt)

calls-Refines_example :
    Refines [] (initiate_transfer (paying 10) momo_request []).1
    × Refines [] (check_transfer (paying 10) momo_check []).1
calls-Refines_example = calls-Refines (paying 10) momo_request momo_check [] tt

Run-Follows_example :
    Later momo_row (view (check_transfer (paying 20) momo_check (momo_row ∷ [])).1 5)
Run-Follows_example =
    Run-Follows (momo_row ∷ []) (check_transfer (paying 20) momo_check (momo_row ∷ [])).1 5 momo_row
      (check (paying 20) momo_check done) one_row refl

initiate_transfer-repeated_example :
    (a' : InitiateTransferResponse) × (initiate_transfer (paying 30) momo_request (momo_row ∷ [])
      ≡ (response a', momo_row ∷ []))
    × (a'.partner_ref ≡ "MOMO-10-u")
unfolding parse_amount
initiate_transfer-repeated_example =
    initiate_transfer-repeated (paying 10) momo_request []
      (record {
        status = "SUBMITTED";
        partner_ref = "MOMO-10-u";
        partner_message = "Partner MOMO accepted topup request";
      })
      (momo_row ∷ []) (momo_row ∷ []) (paying 30) momo_request 700 tt momo_initiate done refl refl

check_transfer-unreachable_example :
    check_transfer silent momo_check (momo_row ∷ []) ≡ (check_response momo_row, momo_row ∷ [])
check_transfer-unreachable_example =
    check_transfer-unreachable silent momo_check (momo_row ∷ []) momo_row momo_config
      (λ r. ("timeout", refl)) refl momo_settings

initiate_transfer-StoredFailed_example :
    StoredFailed momo_request [] (initiate_transfer silent momo_request [])
unfolding parse_amount
initiate_transfer-StoredFailed_example =
    initiate_transfer-StoredFailed silent momo_request [] 700 momo_config (λ r. ("timeout", refl))
      refl refl momo_settings_spaced

matches_any_token_lem_example :
    matches_any_token "1006" ("" ∷ "0" ∷ []) ≡ true ↔ Matches "1006" ("" ∷ "0" ∷ [])
matches_any_token_lem_example = matches_any_token_lem "1006" ("" ∷ "0" ∷ [])

word : (s : String) → is_empty s ≡ false → no_space s ≡ true → lacks_char b',' s ≡ true → IsItem s
word s a b c = record { nonempty = a; spaceless = b; commaless = c }

parse_string_list-join_example :
    parse_string_list (join "," ("status" ∷ "data.code" ∷ [])) [] ≡ "status" ∷ "data.code" ∷ []
unfolding no_space
parse_string_list-join_example =
    parse_string_list-join "status" ("data.code" ∷ []) []
      (word "status" refl refl refl, (word "data.code" refl refl refl, tt))

abbrev vnpay_config : PartnerConfig
vnpay_config = record momo_config {
  api_secret = "k";
  signature_mode = SignatureMode.vnpay_query_sha512;
  signature_payload_field = "vnp_SecureHash";
}

abbrev vnpay_draft : Draft
vnpay_draft = record { payload = field "vnp_TxnRef" (text "5") end; headers = [] }

apply_signature-verified_example :
    (let sent =
        (apply_signature silent vnpay_config HttpMethod.post "/pay" "1" vnpay_draft).payload in
      get_field "vnp_SecureHash" sent
      ≡ text (silent.hmac SignatureAlgorithm.sha512 "k" (build_vnpay_canonical silent sent)))
unfolding build_vnpay_canonical string_of join
apply_signature-verified_example =
    apply_signature-verified silent vnpay_config HttpMethod.post "/pay" "1" vnpay_draft refl refl
      refl refl

after_outside_call-Agrees_example :
    (let called = initiate_transfer (paying 10) (over_the_wire (initiate_request deposit)) [] in
      Agrees deposit (after_outside_call deposit called.0) called.1)
after_outside_call-Agrees_example = after_outside_call-Agrees (paying 10) deposit []
