-- ===== src/Tests/Partners.antt =====
-- The outside payment service, with one partner that has settings, MOMO.
mod Properties
use kufi_e_wallet_with_hyper.Prelude.{
  ℕ, String, str_eq, Bool, true, false, Option, some, none, or_else, List, [], ◌∷◌, ◌++◌, ◌≡◌, ◌≢◌,
  refl, if◌then◌else◌, arith,
}
use kufi_e_wallet_with_hyper.Prelude.Int.{ℤ, pos, negsuc}
use kufi_e_wallet_with_hyper.Prelude.Text.{is_empty, trim, to_upper, to_lower}
use kufi_e_wallet_with_hyper.Prelude.Text.Split.{join, decimal, trimmed_pieces, includes}
use kufi_e_wallet_with_hyper.Prelude.Text.Pieces.{IsItem, no_space, lacks_char}
use kufi_e_wallet_with_hyper.Store.{Reply, response, failure, InitiateTransferResponse}
use kufi_e_wallet_with_hyper.Tests.Sample.{deposit}
use kufi_e_wallet_with_hyper.Partner.{initiate_request, after_outside_call}
use kufi_e_wallet_with_hyper.Partners.{
  ExternalTransferStatus, ExternalTransferType, ExternalTransfer, HttpMethod, HttpRequest,
  HttpResponse, SignatureAlgorithm, SignatureMode, RequestStyle, Value, text, number, object,
  Fields, end, field, PartnerConfig, PartnerEnv,
}
use kufi_e_wallet_with_hyper.Partners.Objects.{get_field, read_path, string_of, find_by_key_deep}
use kufi_e_wallet_with_hyper.Partners.Defaults.{
  default_field_mapping_for, default_request_style_for, default_signature_mode_for,
  default_signature_algorithm_for, default_signature_payload_field_for,
  default_signature_fields_for, default_signature_joiner_for,
}
use kufi_e_wallet_with_hyper.Partners.Settings.{
  normalize_known_partner_code, parse_string_list, parse_token_list, parse_transfer_type,
  partner_prefix_by_code, resolve_request_style, resolve_signature_mode,
  resolve_signature_algorithm, parse_header_pairs, parse_json_object,
}
use kufi_e_wallet_with_hyper.Partners.Runtime.{resolve_partner_runtime_config}
use kufi_e_wallet_with_hyper.Partners.Signing.{Draft, apply_signature, build_vnpay_canonical}
use kufi_e_wallet_with_hyper.Partners.Answers.{
  Mode, extract_status, matches_any_token, pick_string, safe_parse_json,
}
use kufi_e_wallet_with_hyper.Partners.Payloads.{currency_of}
use kufi_e_wallet_with_hyper.Partners.Http.{call_partner_api, is_ok}
use kufi_e_wallet_with_hyper.Partners.Calls.{initiate_via_partner}
use kufi_e_wallet_with_hyper.Partners.Initiate.{
  Table, WireAmount, InitiateRequest, initiate_transfer, parse_amount,
}
use kufi_e_wallet_with_hyper.Partners.Check.{CheckRequest, check_transfer, check_response}
use kufi_e_wallet_with_hyper.Partners.Rows.{Distinct}
use kufi_e_wallet_with_hyper.Partners.Directory.{Refines, view, calls-Refines}
use kufi_e_wallet_with_hyper.Partners.Lifecycle.{Later, done, check, Run-Follows}
use kufi_e_wallet_with_hyper.Partners.Repeats.{initiate_transfer-repeated}
use kufi_e_wallet_with_hyper.Partners.Lists.{parse_string_list-join}
use kufi_e_wallet_with_hyper.Partners.Agreement.{Agrees, over_the_wire, after_outside_call-Agrees}
use kufi_e_wallet_with_hyper.Partners.Signing.Verified.{apply_signature-verified}
use kufi_e_wallet_with_hyper.Partners.Check.Unreachable.{check_transfer-unreachable}
use kufi_e_wallet_with_hyper.Partners.Initiate.Unreachable.{
  StoredFailed, initiate_transfer-StoredFailed,
}
use kufi_e_wallet_with_hyper.Partners.Calls.{check_via_partner}

-- The partner answers the text 'paid', which says SUCCESS.
abbrev pub momo_env : (HttpRequest → Reply HttpResponse) → ℕ → PartnerEnv
momo_env fetch now = record {
  setting = λ key. if str_eq key "MOMO_API_BASE_URL" then some "https://momo.test/" else none;
  parse =
      λ t. if str_eq t "paid" then some (object (field "status" (text "SUCCESS") end)) else none;
  stringify = λ v. "{}";
  encode_uri_component = λ t. t;
  query_string = λ pairs. "";
  whole_number = λ t. if str_eq t "1" then some (pos 1) else none;
  finite_number = λ v. none;
  hmac = λ algorithm secret t. t;
  locale_le = λ a b. true;
  fetch = fetch;
  now = now;
  iso_time = "";
  request_id = "q";
  nonce = "n";
  reference_uuid = "u";
  random_below_100000 = 7;
  row_key = now;
}

abbrev pub paying : ℕ → PartnerEnv
paying now = momo_env (λ r. response (record { status = 200; raw_text = "paid" })) now

abbrev pub silent : PartnerEnv
silent = momo_env (λ r. failure "timeout") 50

abbrev pub momo_request : InitiateRequest
momo_request = record {
  transaction_id = 5;
  partner_code = " momo ";
  account_no = "0901";
  amount = WireAmount.halves (pos 0) 700;
  currency = "";
  note = "";
  transfer_type = "topup";
}

abbrev pub momo_row : ExternalTransfer
momo_row = record {
  id = 10;
  transaction_id = 5;
  partner_code = "MOMO";
  account_no = "0901";
  transfer_type = ExternalTransferType.topup;
  amount = 700;
  currency = "VND";
  partner_ref = "MOMO-10-u";
  status = ExternalTransferStatus.submitted;
  partner_message = some "Partner MOMO accepted topup request";
  created_at = 10;
}

-- A request to a partner that answers SUCCESS is submitted, and settled by the first check.
pub momo_initiate : initiate_transfer (paying 10) momo_request [] ≡ (
  response (record {
    status = "SUBMITTED";
    partner_ref = "MOMO-10-u";
    partner_message = "Partner MOMO accepted topup request";
  }),
  momo_row ∷ [],
)
unfolding initiate_transfer normalize_known_partner_code parse_transfer_type currency_of trim
    to_upper to_lower resolve_partner_runtime_config partner_prefix_by_code
    default_field_mapping_for parse_string_list parse_token_list trimmed_pieces decimal
    initiate_via_partner call_partner_api safe_parse_json extract_status matches_any_token includes
    pick_string read_path string_of find_by_key_deep is_ok
momo_initiate = refl

-- A check of a settled partner's answer settles the row.
abbrev pub momo_check : CheckRequest
momo_check = record { partner_code = "MOMO"; partner_ref = "MOMO-10-u" }

momo_settles : check_transfer (paying 20) momo_check (momo_row ∷ []) ≡ (
  record { status = "SETTLED"; partner_message = "Partner MOMO status: SETTLED" },
  record momo_row {
    status = ExternalTransferStatus.settled;
    partner_message = some "Partner MOMO status: SETTLED";
  }
      ∷ [],
)
unfolding check_transfer check_via_partner normalize_known_partner_code trim to_upper
    resolve_partner_runtime_config partner_prefix_by_code default_field_mapping_for
    parse_string_list parse_token_list trimmed_pieces call_partner_api safe_parse_json
    extract_status matches_any_token includes pick_string read_path string_of find_by_key_deep is_ok
    to_lower
momo_settles = refl

-- An answer of 'UNSUCCESSFUL' holds the token 'SUCCESS', and MOMO's code '1006' holds '0'.
abbrev pub says : String → Value
says status = object (field "status" (text status) end)

unsuccessful_settles :
    extract_status
      (says "unsuccessful")
      Mode.check
      true
      (default_field_mapping_for "MOMO").check_status_paths
      (default_field_mapping_for "MOMO")
    ≡ ExternalTransferStatus.settled
unfolding default_field_mapping_for extract_status matches_any_token includes pick_string read_path
    string_of find_by_key_deep trim to_upper trimmed_pieces
unsuccessful_settles = refl

code_1006_settles :
    extract_status
      (says "1006")
      Mode.check
      true
      (default_field_mapping_for "MOMO").check_status_paths
      (default_field_mapping_for "MOMO")
    ≡ ExternalTransferStatus.settled
unfolding default_field_mapping_for extract_status matches_any_token includes pick_string read_path
    string_of find_by_key_deep trim to_upper trimmed_pieces
code_1006_settles = refl
