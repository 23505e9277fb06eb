-- ===== src/Requests.antt =====
-- The checks that a request passes before any table is read: validateCreateTransfer,
-- validateCreateTopupIntent, validateCreateWithdrawalRequest, validateCreateFundingSource,
-- normalizeAmount and normalizeCurrency of transactions.service.ts. A text field that the client
-- leaves out is the empty text, which these checks do not tell from it.
pub mod Accepted
use kufi_e_wallet_with_hyper.Prelude.{
  ℕ, suc, ◌-◌, ◌%◌, ◌^◌, String, str_eq, Bool, true, false, not, ◌&&◌, ◌||◌, Option, none, some,
  ltb, if◌then◌else◌, or_else,
}
use kufi_e_wallet_with_hyper.Prelude.Int.{ℤ, pos, negsuc, eqb_ℤ}
use kufi_e_wallet_with_hyper.Prelude.Text.{is_empty, or_text, or_none, trim, to_upper, text_length}
use kufi_e_wallet_with_hyper.Store.{Error, Result, ok, err, bad_request}

-- A number of JavaScript, as far as the amounts depend on it.
pub data Number : Type 0 where
  whole : ℤ → Number
  fraction : Number
  infinite : Number
  not_a_number : Number

pub data RawAmount : Type 0 where
  number : Number → RawAmount
  text : String → RawAmount
  int64 : (low : ℤ) → (high : Option ℤ) → (unsigned : Bool) → RawAmount
  missing : RawAmount

pub record CreateTransferRequest : Type 0 where
  pub idempotency_key : String
  pub requesting_user_id : String
  pub from_user_id : String
  pub to_user_id : String
  pub amount : RawAmount
  pub currency : String
  pub memo : String
  pub otp_code : String
  pub is_external : Bool
  pub external_partner : String
  pub external_account_no : String

-- The result of validateCreateTransfer.
pub record TransferOrder : Type 0 where
  pub idempotency_key : String
  pub requesting_user_id : String
  pub from_user_id : String
  pub to_user_id : String
  pub amount : ℕ
  pub currency : String
  pub memo : String
  pub is_external : Bool
  pub external_partner : Option String
  pub external_account_no : Option String

pub record CreateTopupIntentRequest : Type 0 where
  pub idempotency_key : String
  pub user_id : String
  pub funding_source_id : String
  pub amount : RawAmount
  pub currency : String
  pub memo : String

-- The result of validateCreateTopupIntent.
pub record TopupOrder : Type 0 where
  pub idempotency_key : String
  pub user_id : String
  pub funding_source_id : String
  pub amount : ℕ
  pub currency : String
  pub memo : String

pub record CreateWithdrawalRequest : Type 0 where
  pub topup : CreateTopupIntentRequest
  pub simulate_failure : Bool

pub record WithdrawalOrder : Type 0 where
  pub topup : TopupOrder
  pub open topup use *
  pub simulate_failure : Bool

pub record CreateFundingSourceRequest : Type 0 where
  pub user_id : String
  pub provider : String
  pub account_ref : String
  pub provider_token : String
  pub display_name : String

infixl 5 ◌>>=◌ ◌>>◌
abbrev ◌>>=◌ : {A B : Type 0} → Result A → (A → Result B) → Result B
ok a >>= f = f a
err e >>= f = err e

abbrev ◌>>◌ : {A B : Type 0} → Result A → Result B → Result B
m >> k = m >>= λ _. k

abbrev refuse_if : Bool → String → Result (Unit {0})
refuse_if true message = err (bad_request message)
refuse_if false message = ok tt

-- `low >>> 0`
unfoldable pub to_uint32 : ℤ → ℤ
to_uint32 (pos n) = pos (n % 2 ^ 32)
to_uint32 (negsuc n) = pos (2 ^ 32 - 1 - n % 2 ^ 32)

finite_or_nan : Number → Number
finite_or_nan infinite = not_a_number
finite_or_nan n = n

-- `to_number` is the language's `Number(text)`.
unfoldable pub normalize_amount : (String → Number) → RawAmount → Number
unfolding finite_or_nan to_uint32
normalize_amount to_number (number n) = finite_or_nan n
normalize_amount to_number (text t) =
    if is_empty (trim t) then not_a_number else finite_or_nan (to_number t)
normalize_amount to_number (int64 low high unsigned) =
    if eqb_ℤ (or_else high (pos 0)) (pos 0)
    then whole (if unsigned then to_uint32 low else low)
    else not_a_number
normalize_amount to_number missing = not_a_number

-- `if (!Number.isInteger(amount) || amount <= 0) throw`
unfoldable pub positive_integer : Number → Result ℕ
positive_integer (whole (pos (suc n))) = ok (suc n)
positive_integer _ = err (bad_request "amount must be positive integer")

unfoldable pub normalize_currency : String → Result String
normalize_currency raw = do
  let currency = to_upper (trim (or_text raw "VND"))
  refuse_if (is_empty currency) "currency is required"
  refuse_if (ltb 16 (text_length currency)) "currency is invalid"
  ok currency

unfoldable pub check_key : String → Result String
check_key raw = do
  let key = trim raw
  refuse_if (is_empty key) "idempotencyKey is required"
  refuse_if (ltb 128 (text_length key)) "idempotencyKey too long"
  ok key

unfoldable pub check_parties : String → String → String → Bool → Result (Unit {0})
check_parties requesting_user_id from_user_id to_user_id is_external = do
  refuse_if (is_empty requesting_user_id || is_empty from_user_id || is_empty to_user_id)
      "requestingUserId, fromUserId, toUserId required"
  refuse_if (not (str_eq requesting_user_id from_user_id)) "requestingUserId must match fromUserId"
  refuse_if (str_eq from_user_id to_user_id && not is_external)
      "fromUserId and toUserId must be different"

unfoldable pub check_partner : Bool → String → String → Result (Unit {0})
check_partner is_external partner account_no =
    refuse_if (is_external && (is_empty partner || is_empty account_no))
      "external transfer requires externalPartner and externalAccountNo"

unfoldable pub validate_create_transfer :
    (String → Number) → CreateTransferRequest → Result TransferOrder
validate_create_transfer to_number r = do
  idempotency_key ← check_key r.idempotency_key
  let requesting_user_id = trim r.requesting_user_id
  let from_user_id = trim r.from_user_id
  let to_user_id = trim r.to_user_id
  check_parties requesting_user_id from_user_id to_user_id r.is_external
  amount ← positive_integer (normalize_amount to_number r.amount)
  currency ← normalize_currency r.currency
  refuse_if (is_empty (trim r.otp_code)) "otpCode required"
  let partner = trim r.external_partner
  let account_no = trim r.external_account_no
  check_partner r.is_external partner account_no
  ok (record {
    idempotency_key = idempotency_key;
    requesting_user_id = requesting_user_id;
    from_user_id = from_user_id;
    to_user_id = to_user_id;
    amount = amount;
    currency = currency;
    memo = trim r.memo;
    is_external = r.is_external;
    external_partner = or_none partner;
    external_account_no = or_none account_no;
  })

unfoldable pub validate_create_topup_intent :
    (String → Number) → CreateTopupIntentRequest → Result TopupOrder
validate_create_topup_intent to_number r = do
  idempotency_key ← check_key r.idempotency_key
  let user_id = trim r.user_id
  refuse_if (is_empty user_id) "userId is required"
  let funding_source_id = trim r.funding_source_id
  refuse_if (is_empty funding_source_id) "fundingSourceId is required"
  amount ← positive_integer (normalize_amount to_number r.amount)
  currency ← normalize_currency r.currency
  ok (record {
    idempotency_key = idempotency_key;
    user_id = user_id;
    funding_source_id = funding_source_id;
    amount = amount;
    currency = currency;
    memo = trim r.memo;
  })

unfoldable pub validate_create_withdrawal_request :
    (String → Number) → CreateWithdrawalRequest → Result WithdrawalOrder
validate_create_withdrawal_request to_number r = do
  normalized ← validate_create_topup_intent to_number r.topup
  ok (record { topup = normalized; simulate_failure = r.simulate_failure })

unfoldable pub validate_create_funding_source :
    CreateFundingSourceRequest → Result CreateFundingSourceRequest
validate_create_funding_source r = do
  let user_id = trim r.user_id
  refuse_if (is_empty user_id) "userId is required"
  let provider = to_upper (trim r.provider)
  refuse_if (is_empty provider) "provider is required"
  refuse_if (ltb 32 (text_length provider)) "provider is invalid"
  let account_ref = trim r.account_ref
  refuse_if (is_empty account_ref) "accountRef is required"
  refuse_if (ltb 128 (text_length account_ref)) "accountRef is invalid"
  ok (record {
    user_id = user_id;
    provider = provider;
    account_ref = account_ref;
    provider_token = trim r.provider_token;
    display_name = trim r.display_name;
  })
