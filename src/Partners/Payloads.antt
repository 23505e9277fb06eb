-- ===== src/Partners/Payloads.antt =====
-- The payloads that transfers.service.ts sends to a partner: buildInitiatePayload and
-- buildCheckPayload, one per style of request.
use kufi_e_wallet_with_hyper.Prelude.{ℕ, ◌*◌, String, text_append, or_else, if◌then◌else◌}
use kufi_e_wallet_with_hyper.Prelude.Text.{is_empty, or_text, trim, to_upper}
use kufi_e_wallet_with_hyper.Prelude.Text.Split.{decimal}
use kufi_e_wallet_with_hyper.Partners.{
  ExternalTransfer, ExternalTransferType, RequestStyle, Value, undefined, number, text, Fields, end,
  field, PartnerConfig, PartnerEnv,
}
use kufi_e_wallet_with_hyper.Partners.Objects.{
  get_field, spread, or_value, string_of, normalize_json_field,
}
use kufi_e_wallet_with_hyper.Partners.Settings.{parse_transfer_type}

-- The request after `{ ...data, partnerCode, amount }`. A transaction's key stands as a number that
-- `decimal` writes.
pub record InitiateData : Type 0 where
  pub transaction_id : ℕ
  pub partner_code : String
  pub account_no : String
  pub amount : ℕ
  pub currency : String
  pub note : String
  pub transfer_type : String

abbrev pub id_text : ℕ → String
id_text id = decimal id

abbrev pub transfer_type_text : ExternalTransferType → String
transfer_type_text ExternalTransferType.withdrawal = "WITHDRAWAL"
transfer_type_text ExternalTransferType.topup = "TOPUP"

unfoldable pub currency_of : String → String
currency_of currency = to_upper (or_text currency "VND")

-- `note || 'Transfer <id>'`
abbrev order_info : InitiateData → String
order_info d = or_text d.note (text_append "Transfer " (id_text d.transaction_id))

abbrev type_value : InitiateData → Value
type_value d = text (transfer_type_text (parse_transfer_type d.transfer_type))

-- `String(value).trim() || undefined`
abbrev text_or_undefined : String → Value
text_or_undefined s = if is_empty (trim s) then undefined else text (trim s)

momo_initiate : PartnerEnv → PartnerConfig → InitiateData → Fields
unfolding currency_of
momo_initiate env config d = field "requestId" (text env.request_id) (
    field "orderId" (text (id_text d.transaction_id)) (
      field "partnerCode"
        (text (or_text config.client_id (or_text config.merchant_id d.partner_code)))
        (field "amount" (number (decimal d.amount)) (
          field "orderInfo" (text (order_info d)) (
            field "extraData" (text "") (
              field "lang" (text "vi") (
                field "accountNo" (text d.account_no) (
                  field "currency" (text (currency_of d.currency))
                    (field "transferType" (type_value d) end)))))))))

bank_initiate : PartnerEnv → InitiateData → Fields
unfolding currency_of
bank_initiate env d = field "requestId" (text env.request_id) (
    field "requestTime" (text env.iso_time) (
      field "transactionId" (text (id_text d.transaction_id)) (
        field "referenceId" (text (id_text d.transaction_id)) (
          field "accountNo" (text d.account_no) (
            field "amount" (number (decimal d.amount)) (
              field "currency" (text (currency_of d.currency))
                (field "description" (text d.note) (field "transferType" (type_value d) end))))))))

vnpay_initiate : InitiateData → Fields
unfolding currency_of
vnpay_initiate d = field "vnp_TxnRef" (text (id_text d.transaction_id)) (
    field "vnp_OrderInfo" (text (order_info d)) (
      field "vnp_Amount" (number (decimal (d.amount * 100))) (
        field "vnp_CurrCode" (text (currency_of d.currency))
          (field "vnp_IpAddr" (text "127.0.0.1") (field "transferType" (type_value d) end)))))

-- `app_id || clientId || merchantId`
abbrev app_id_of : PartnerConfig → Value → Value
app_id_of config app_id =
    text_or_undefined
      (string_of (or_value app_id (text (or_text config.client_id config.merchant_id))))

zalopay_initiate : PartnerEnv → PartnerConfig → InitiateData → Fields
unfolding currency_of string_of
zalopay_initiate env config d =
    let static = config.initiate_static_fields in
    let app_user = trim (string_of (or_value (get_field "app_user" static) (text d.account_no))) in
    let app_time =
      or_else
        (env.finite_number (or_value (get_field "app_time" static) (number (decimal env.now))))
        (decimal env.now) in
    field "app_id" (app_id_of config (get_field "app_id" static)) (
      field "app_trans_id" (text (id_text d.transaction_id)) (
        field "app_user" (text (or_text app_user "kufi-user")) (
          field "app_time" (number app_time) (
            field "amount" (number (decimal d.amount)) (
              field "item" (text (normalize_json_field env (get_field "item" static) "[]")) (
                field "embed_data"
                  (text (normalize_json_field env (get_field "embed_data" static) "{}"))
                  (field "currency" (text (currency_of d.currency)) (
                    field "description" (text (order_info d))
                      (field "transferType" (type_value d) end)))))))))

generic_initiate : PartnerEnv → InitiateData → Fields
unfolding currency_of
generic_initiate env d = field "transactionId" (text (id_text d.transaction_id)) (
    field "partnerCode" (text d.partner_code) (
      field "accountNo" (text d.account_no) (
        field "amount" (number (decimal d.amount)) (
          field "currency" (text (currency_of d.currency)) (
            field "transferType" (type_value d) (
              field "note" (text d.note) (
                field "requestId" (text env.request_id)
                  (field "requestTime" (text env.iso_time) end))))))))

initiate_fields : PartnerEnv → PartnerConfig → InitiateData → RequestStyle → Fields
initiate_fields env config d RequestStyle.momo = momo_initiate env config d
initiate_fields env config d RequestStyle.bank = bank_initiate env d
initiate_fields env config d RequestStyle.vnpay = vnpay_initiate d
initiate_fields env config d RequestStyle.zalopay = zalopay_initiate env config d
initiate_fields env config d RequestStyle.generic = generic_initiate env d

-- buildInitiatePayload: the static fields of the settings come last.
unfoldable pub build_initiate_payload : PartnerEnv → PartnerConfig → InitiateData → Fields
unfolding initiate_fields momo_initiate bank_initiate vnpay_initiate zalopay_initiate
    generic_initiate
build_initiate_payload env config d =
    spread (initiate_fields env config d config.request_style) config.initiate_static_fields

check_fields : PartnerEnv → PartnerConfig → ExternalTransfer → RequestStyle → Fields
unfolding string_of
check_fields env config r RequestStyle.momo = field "requestId" (text env.request_id) (
    field "orderId" (text (id_text r.transaction_id)) (field "partnerRef" (text r.partner_ref) end))
check_fields env config r RequestStyle.bank = field "requestId" (text env.request_id) (
    field "requestTime" (text env.iso_time) (
      field "transactionId" (text (id_text r.transaction_id))
        (field "referenceId" (text r.partner_ref) (field "partnerRef" (text r.partner_ref) end))))
check_fields env config r RequestStyle.vnpay =
    field "vnp_TxnRef" (text (id_text r.transaction_id))
      (field "vnp_TransactionNo" (text r.partner_ref) end)
check_fields env config r RequestStyle.zalopay =
    let app_id =
      or_value (get_field "app_id" config.check_static_fields)
        (get_field "app_id" config.initiate_static_fields) in
    field "app_id" (app_id_of config app_id) (
      field "app_trans_id" (text (id_text r.transaction_id))
        (field "zp_trans_id" (text r.partner_ref) end))
check_fields env config r RequestStyle.generic = field "partnerCode" (text config.partner_code) (
    field "partnerRef" (text r.partner_ref) (
      field "transactionId" (text (id_text r.transaction_id))
        (field "requestId" (text env.request_id) (field "requestTime" (text env.iso_time) end))))

-- buildCheckPayload
unfoldable pub build_check_payload : PartnerEnv → PartnerConfig → ExternalTransfer → Fields
unfolding check_fields
build_check_payload env config r =
    spread (check_fields env config r config.request_style) config.check_static_fields
