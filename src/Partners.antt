-- ===== src/Partners.antt =====
-- The outside payment service, e-wallet/outside-payment-service/src/transfers: its table of
-- transfers, the settings of a partner, and what the service gets from outside.
pub mod Objects
pub mod Defaults
pub mod Settings
pub mod Runtime
pub mod Payloads
pub mod Signing
pub mod Answers
pub mod Http
pub mod Calls
pub mod Initiate
pub mod Check
pub mod Rows
pub mod Directory
pub mod Lifecycle
pub mod Repeats
pub mod Lists
pub mod Agreement
use kufi_e_wallet_with_hyper.Prelude.{ℕ, String, Bool, Option, List}
use kufi_e_wallet_with_hyper.Prelude.Int.{ℤ}
use kufi_e_wallet_with_hyper.Store.{Reply}

pub data ExternalTransferStatus : Type 0 where
  submitted settled failed : ExternalTransferStatus

pub data ExternalTransferType : Type 0 where
  withdrawal topup : ExternalTransferType

-- A row of `external_transfers`; its key, its transaction and its partner's reference are unique.
-- `updatedAt`, which nothing reads, is left out.
pub record ExternalTransfer : Type 0 where
  pub id : ℕ
  pub transaction_id : ℕ
  pub partner_code : String
  pub account_no : String
  pub transfer_type : ExternalTransferType
  pub amount : ℕ
  pub currency : String
  pub partner_ref : String
  pub status : ExternalTransferStatus
  pub partner_message : Option String
  pub created_at : ℕ

pub data RequestStyle : Type 0 where
  momo bank vnpay zalopay generic : RequestStyle

pub data SignatureMode : Type 0 where
  legacy_header_sha256 header_canonical vnpay_query_sha512 : SignatureMode
  zalopay_mac_sha256 payload_fields_hmac : SignatureMode

pub data SignatureAlgorithm : Type 0 where
  sha256 sha512 : SignatureAlgorithm

pub data HttpMethod : Type 0 where
  get post : HttpMethod

-- The values of JavaScript that payloads and answers hold. A number stands as the text that
-- `String` makes of it.
mutual
  pub data Value : Type 0 where
    undefined null : Value
    boolean : Bool → Value
    number : String → Value
    text : String → Value
    array : Values → Value
    object : Fields → Value

  pub data Values : Type 0 where
    nil : Values
    cons : Value → Values → Values

  -- The own keys of an object, in the order of their insertion, each once.
  pub data Fields : Type 0 where
    end : Fields
    field : String → Value → Fields → Fields

pub record FieldMapping : Type 0 where
  pub initiate_status_paths : List String
  pub initiate_reference_paths : List String
  pub initiate_message_paths : List String
  pub check_status_paths : List String
  pub check_message_paths : List String
  pub failed_tokens : List String
  pub success_tokens : List String
  pub pending_tokens : List String

pub record PartnerConfig : Type 0 where
  pub partner_code : String
  pub base_url : String
  pub initiate_path : String
  pub status_path : String
  pub status_method : HttpMethod
  pub request_style : RequestStyle
  pub timeout_ms : ℕ
  pub api_key : String
  pub api_secret : String
  pub client_id : String
  pub merchant_id : String
  pub bearer_token : String
  pub api_key_header : String
  pub client_id_header : String
  pub merchant_id_header : String
  pub signature_header : String
  pub extra_headers : List (String × String)
  pub initiate_static_fields : Fields
  pub check_static_fields : Fields
  pub mapping : FieldMapping
  pub signature_mode : SignatureMode
  pub signature_algorithm : SignatureAlgorithm
  pub signature_payload_field : String
  pub signature_fields : List String
  pub signature_joiner : String

pub record HttpRequest : Type 0 where
  pub url : String
  pub method : HttpMethod
  pub headers : List (String × String)
  pub body : Option String
  pub timeout_ms : ℕ

pub record HttpResponse : Type 0 where
  pub status : ℕ
  pub raw_text : String

-- What one call sees from outside, its clock and random texts read once: the settings, `JSON.parse`
-- (none where it throws), `JSON.stringify` (which throws on none of these values), `encodeURIComponent`, `URLSearchParams`, `Number` of
-- a setting that is a whole number and of a value that is finite, HMAC in hexadecimal, the order of
-- `localeCompare`, and `fetch`, which fails with a message.
pub record PartnerEnv : Type 0 where
  pub setting : String → Option String
  pub parse : String → Option Value
  pub stringify : Value → String
  pub encode_uri_component : String → String
  pub query_string : List (String × String) → String
  pub whole_number : String → Option ℤ
  pub finite_number : Value → Option String
  pub hmac : SignatureAlgorithm → String → String → String
  pub locale_le : String → String → Bool
  pub fetch : HttpRequest → Reply HttpResponse
  pub now : ℕ
  pub iso_time : String
  pub request_id : String
  pub nonce : String
  pub reference_uuid : String
  pub random_below_100000 : ℕ
  pub row_key : ℕ
