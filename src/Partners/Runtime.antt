-- ===== src/Partners/Runtime.antt =====
-- The settings of a partner as transfers.service.ts puts them together: resolvePartnerRuntimeConfig,
-- and getMockSettleDelayMs for a partner without settings.
use kufi_e_wallet_with_hyper.Prelude.{
  ℕ, ◌*◌, String, str_eq, text_append, not, ◌||◌, if◌then◌else◌, Option, none, some, or_else,
}
use kufi_e_wallet_with_hyper.Prelude.Int.{pos, negsuc}
use kufi_e_wallet_with_hyper.Prelude.Text.{is_empty, or_text, to_upper, to_lower}
use kufi_e_wallet_with_hyper.Partners.{HttpMethod, FieldMapping, PartnerConfig, PartnerEnv}
use kufi_e_wallet_with_hyper.Partners.Defaults.{
  default_request_style_for, default_signature_mode_for, default_signature_algorithm_for,
  default_signature_payload_field_for, default_signature_fields_for, default_signature_joiner_for,
  default_field_mapping_for,
}
use kufi_e_wallet_with_hyper.Partners.Settings.{
  partner_prefix_by_code, resolve_request_style, resolve_signature_mode,
  resolve_signature_algorithm, parse_string_list, parse_token_list, parse_header_pairs,
  parse_json_object, positive_or_8000, setting_or,
}

-- `cfg.get(key) || ''`
abbrev setting_text : PartnerEnv → String → String
setting_text env key = or_else (env.setting key) ""

status_method_of : String → HttpMethod
status_method_of raw = if str_eq (to_upper raw) "GET" then HttpMethod.get else HttpMethod.post

resolve_mapping : PartnerEnv → String → FieldMapping → FieldMapping
resolve_mapping env prefix standard =
    let of = λ (name : String). setting_text env (text_append prefix name) in
    record {
      initiate_status_paths =
          parse_string_list (of "_INITIATE_STATUS_PATHS") standard.initiate_status_paths;
      initiate_reference_paths =
          parse_string_list (of "_INITIATE_REFERENCE_PATHS") standard.initiate_reference_paths;
      initiate_message_paths =
          parse_string_list (of "_INITIATE_MESSAGE_PATHS") standard.initiate_message_paths;
      check_status_paths = parse_string_list (of "_CHECK_STATUS_PATHS") standard.check_status_paths;
      check_message_paths =
          parse_string_list (of "_CHECK_MESSAGE_PATHS") standard.check_message_paths;
      failed_tokens = parse_token_list (of "_FAILED_TOKENS") standard.failed_tokens;
      success_tokens = parse_token_list (of "_SUCCESS_TOKENS") standard.success_tokens;
      pending_tokens = parse_token_list (of "_PENDING_TOKENS") standard.pending_tokens;
    }

-- The settings of an enabled partner that has an address
partner_settings : PartnerEnv → String → String → PartnerConfig
unfolding status_method_of resolve_mapping
partner_settings env code prefix =
    let of = λ (name fallback : String). setting_or env (text_append prefix name) fallback in
    let mode =
      resolve_signature_mode (setting_text env (text_append prefix "_SIGNATURE_MODE"))
        (default_signature_mode_for code) in
    record {
      partner_code = code;
      base_url = of "_API_BASE_URL" "";
      initiate_path = of "_INITIATE_PATH" "/transfers";
      status_path = of "_STATUS_PATH" "/transfers/status";
      status_method = status_method_of (of "_STATUS_METHOD" "POST");
      request_style =
          resolve_request_style (setting_text env (text_append prefix "_REQUEST_STYLE"))
            (default_request_style_for code);
      timeout_ms =
          positive_or_8000 (
            env.whole_number
              (or_text (setting_text env (text_append prefix "_TIMEOUT_MS")) "8000"));
      api_key = of "_API_KEY" "";
      api_secret = of "_API_SECRET" "";
      client_id = of "_CLIENT_ID" "";
      merchant_id = of "_MERCHANT_ID" "";
      bearer_token = of "_BEARER_TOKEN" "";
      api_key_header = of "_API_KEY_HEADER" "X-API-Key";
      client_id_header = of "_CLIENT_ID_HEADER" "X-Client-Id";
      merchant_id_header = of "_MERCHANT_ID_HEADER" "X-Merchant-Id";
      signature_header = of "_SIGNATURE_HEADER" "X-Signature";
      extra_headers = parse_header_pairs (setting_text env (text_append prefix "_EXTRA_HEADERS"));
      initiate_static_fields =
          parse_json_object env
            (setting_text env (text_append prefix "_INITIATE_STATIC_FIELDS_JSON"));
      check_static_fields =
          parse_json_object env (setting_text env (text_append prefix "_CHECK_STATIC_FIELDS_JSON"));
      mapping = resolve_mapping env prefix (default_field_mapping_for code);
      signature_mode = mode;
      signature_algorithm =
          resolve_signature_algorithm (setting_text env (text_append prefix "_SIGNATURE_ALGORITHM"))
            (default_signature_algorithm_for mode);
      signature_payload_field =
          of "_SIGNATURE_PAYLOAD_FIELD" (default_signature_payload_field_for code);
      signature_fields =
          parse_string_list (setting_text env (text_append prefix "_SIGNATURE_FIELDS"))
            (default_signature_fields_for code);
      signature_joiner = of "_SIGNATURE_JOINER" (default_signature_joiner_for code);
    }

-- `null` for a partner that is not enabled or has no address
configured : PartnerEnv → String → String → Option PartnerConfig
unfolding partner_settings
configured env code prefix =
    let enabled = or_else (env.setting (text_append prefix "_ENABLED")) "true" in
    let config = partner_settings env code prefix in
    if not (str_eq (to_lower enabled) "true")
    then none
    else (if is_empty config.base_url || is_empty config.initiate_path then none else some config)

unfoldable pub resolve_partner_runtime_config : PartnerEnv → String → Option PartnerConfig
unfolding configured
resolve_partner_runtime_config env code = elim (partner_prefix_by_code code) [
  | none ↦ none
  | some prefix ↦ configured env code prefix
]

-- The setting is a whole number of seconds.
unfoldable pub mock_settle_delay_ms : PartnerEnv → ℕ
mock_settle_delay_ms env =
    elim (env.whole_number (or_else (env.setting "EXTERNAL_SETTLE_DELAY_SECONDS") "1")) [
      | none ↦ 1000
      | some seconds ↦ elim seconds [ pos n ↦ n * 1000 | negsuc n ↦ 1000 ]
    ]
