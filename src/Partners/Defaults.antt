-- ===== src/Partners/Defaults.antt =====
-- What transfers.service.ts takes for a partner whose settings say nothing: the default* functions.
use kufi_e_wallet_with_hyper.Prelude.{String, str_eq, ◌||◌, if◌then◌else◌, List, [], ◌∷◌, ◌++◌}
use kufi_e_wallet_with_hyper.Partners.{
  RequestStyle, SignatureMode, SignatureAlgorithm, FieldMapping,
}

unfoldable pub default_request_style_for : String → RequestStyle
default_request_style_for code =
    if str_eq code "MOMO"
    then RequestStyle.momo
    else (if str_eq code "VNPAY"
        then RequestStyle.vnpay
        else (if str_eq code "ZALOPAY"
            then RequestStyle.zalopay
            else (if str_eq code "TECHCOMBANK" || str_eq code "VIETCOMBANK"
                then RequestStyle.bank
                else RequestStyle.generic)))

unfoldable pub default_signature_mode_for : String → SignatureMode
default_signature_mode_for code =
    if str_eq code "VNPAY"
    then SignatureMode.vnpay_query_sha512
    else (if str_eq code "ZALOPAY"
        then SignatureMode.zalopay_mac_sha256
        else SignatureMode.legacy_header_sha256)

unfoldable pub default_signature_algorithm_for : SignatureMode → SignatureAlgorithm
default_signature_algorithm_for SignatureMode.vnpay_query_sha512 = SignatureAlgorithm.sha512
default_signature_algorithm_for _ = SignatureAlgorithm.sha256

unfoldable pub default_signature_payload_field_for : String → String
default_signature_payload_field_for code =
    if str_eq code "VNPAY"
    then "vnp_SecureHash"
    else (if str_eq code "ZALOPAY" then "mac" else "signature")

unfoldable pub default_signature_fields_for : String → List String
default_signature_fields_for code =
    if str_eq code "ZALOPAY"
    then "app_id" ∷ "app_trans_id" ∷ "app_user" ∷ "amount" ∷ "app_time" ∷ "embed_data" ∷ "item" ∷ []
    else []

unfoldable pub default_signature_joiner_for : String → String
default_signature_joiner_for code = if str_eq code "ZALOPAY" then "|" else "."

abbrev base_status_paths : List String
base_status_paths =
    "status" ∷ "state" ∷ "transactionStatus" ∷ "resultStatus" ∷ "resultCode" ∷ "code"
    ∷ "data.status" ∷ "data.state" ∷ "data.transactionStatus" ∷ "data.resultStatus"
    ∷ "data.resultCode" ∷ "data.code" ∷ []

abbrev base_message_paths : List String
base_message_paths =
    "partnerMessage" ∷ "message" ∷ "msg" ∷ "description" ∷ "errorDesc" ∷ "errorMessage"
    ∷ "data.partnerMessage" ∷ "data.message" ∷ "data.msg" ∷ "data.description" ∷ "data.errorDesc"
    ∷ "data.errorMessage" ∷ []

abbrev base_mapping : FieldMapping
base_mapping = record {
  initiate_status_paths = base_status_paths;
  initiate_reference_paths =
      "partnerRef" ∷ "reference" ∷ "ref" ∷ "transId" ∷ "transactionId" ∷ "orderId" ∷ "requestId"
      ∷ "data.partnerRef" ∷ "data.reference" ∷ "data.ref" ∷ "data.transId" ∷ "data.transactionId"
      ∷ "data.orderId" ∷ [];
  initiate_message_paths = base_message_paths;
  check_status_paths = base_status_paths;
  check_message_paths = base_message_paths;
  failed_tokens =
      "FAIL" ∷ "FAILED" ∷ "ERROR" ∷ "REJECT" ∷ "CANCEL" ∷ "DENY" ∷ "DECLINED" ∷ "400" ∷ "401"
      ∷ "403" ∷ "404" ∷ "429" ∷ "500" ∷ [];
  success_tokens = "SUCCESS" ∷ "SUCCEEDED" ∷ "SETTLED" ∷ "COMPLETED" ∷ "DONE" ∷ [];
  pending_tokens = "PENDING" ∷ "PROCESSING" ∷ "SUBMITTED" ∷ "QUEUED" ∷ "ACCEPTED" ∷ [];
}

abbrev momo_mapping : FieldMapping
momo_mapping = record base_mapping {
  initiate_status_paths =
      base_status_paths
      ++ ("resultCode" ∷ "data.resultCode" ∷ "transStatus" ∷ "data.transStatus" ∷ []);
  check_status_paths =
      base_status_paths
      ++ ("resultCode" ∷ "data.resultCode" ∷ "transStatus" ∷ "data.transStatus" ∷ []);
  initiate_reference_paths =
      base_mapping.initiate_reference_paths
      ++ ("transId" ∷ "data.transId" ∷ "orderId" ∷ "data.orderId" ∷ []);
  success_tokens = base_mapping.success_tokens ++ ("0" ∷ "00" ∷ []);
  pending_tokens = base_mapping.pending_tokens ++ ("1" ∷ []);
}

abbrev bank_mapping : FieldMapping
bank_mapping = record base_mapping {
  initiate_status_paths =
      base_status_paths
      ++ ("responseCode" ∷ "data.responseCode" ∷ "transactionState" ∷ "data.transactionState" ∷ []);
  check_status_paths =
      base_status_paths
      ++ ("responseCode" ∷ "data.responseCode" ∷ "transactionState" ∷ "data.transactionState" ∷ []);
  success_tokens = base_mapping.success_tokens ++ ("0" ∷ "00" ∷ "200" ∷ "APPROVED" ∷ []);
  pending_tokens = base_mapping.pending_tokens ++ ("102" ∷ "202" ∷ []);
}

abbrev vnpay_mapping : FieldMapping
vnpay_mapping = record base_mapping {
  initiate_status_paths =
      base_status_paths
      ++ ("vnp_ResponseCode" ∷ "vnp_TransactionStatus" ∷ "data.vnp_ResponseCode"
          ∷ "data.vnp_TransactionStatus" ∷ []);
  check_status_paths =
      base_status_paths
      ++ ("vnp_ResponseCode" ∷ "vnp_TransactionStatus" ∷ "data.vnp_ResponseCode"
          ∷ "data.vnp_TransactionStatus" ∷ []);
  initiate_reference_paths =
      base_mapping.initiate_reference_paths
      ++ ("vnp_TransactionNo" ∷ "vnp_TxnRef" ∷ "data.vnp_TransactionNo" ∷ "data.vnp_TxnRef" ∷ []);
  success_tokens = base_mapping.success_tokens ++ ("00" ∷ []);
  pending_tokens = base_mapping.pending_tokens ++ ("09" ∷ []);
}

abbrev zalopay_mapping : FieldMapping
zalopay_mapping = record base_mapping {
  initiate_status_paths =
      base_status_paths
      ++ ("return_code" ∷ "sub_return_code" ∷ "data.return_code" ∷ "data.sub_return_code" ∷ []);
  check_status_paths =
      base_status_paths
      ++ ("return_code" ∷ "is_processing" ∷ "data.return_code" ∷ "data.is_processing" ∷ []);
  initiate_reference_paths =
      base_mapping.initiate_reference_paths
      ++ ("zp_trans_token" ∷ "zp_trans_id" ∷ "app_trans_id" ∷ "data.zp_trans_token"
          ∷ "data.zp_trans_id" ∷ []);
  success_tokens = base_mapping.success_tokens ++ ("1" ∷ []);
  pending_tokens = base_mapping.pending_tokens ++ ("2" ∷ []);
}

unfoldable pub default_field_mapping_for : String → FieldMapping
default_field_mapping_for code =
    if str_eq code "MOMO"
    then momo_mapping
    else (if str_eq code "TECHCOMBANK" || str_eq code "VIETCOMBANK"
        then bank_mapping
        else (if str_eq code "VNPAY"
            then vnpay_mapping
            else (if str_eq code "ZALOPAY" then zalopay_mapping else base_mapping)))
