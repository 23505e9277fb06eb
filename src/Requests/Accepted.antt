-- ===== src/Requests/Accepted.antt =====
-- What the validators let through.
use kufi_e_wallet_with_hyper.Prelude.{
  ℕ, ◌≤◌, ◌<◌, ◌≡◌, refl, String, Bool, true, false, Option, none, some, str_eq, eq_iff, arith,
}
use kufi_e_wallet_with_hyper.Prelude.Text.{is_empty, or_none, text_length, trim}
use kufi_e_wallet_with_hyper.Store.{Result, ok, err}
use kufi_e_wallet_with_hyper.Requests.{
  Number, CreateTransferRequest, TransferOrder, check_key, normalize_amount, positive_integer,
  normalize_currency, check_parties, check_partner, validate_create_transfer,
  CreateTopupIntentRequest, CreateWithdrawalRequest, TopupOrder, WithdrawalOrder,
  validate_create_topup_intent, validate_create_withdrawal_request,
}

abbrev IsGiven : Option String → Type 0
IsGiven none = ⊥
IsGiven (some t) = is_empty t ≡ false

-- An order that a transfer request may become.
pub record IsTransferOrder (o : TransferOrder) : Type 0 where
  pub key_given : is_empty o.idempotency_key ≡ false
  pub key_short : text_length o.idempotency_key ≤ 128
  pub sender_given : is_empty o.from_user_id ≡ false
  pub own_money : o.requesting_user_id ≡ o.from_user_id
  pub receiver_given : is_empty o.to_user_id ≡ false
  pub not_to_self : o.is_external ≡ false → str_eq o.from_user_id o.to_user_id ≡ false
  pub positive : 0 < o.amount
  pub currency_given : is_empty o.currency ≡ false
  pub currency_short : text_length o.currency ≤ 16
  pub partner_given : o.is_external ≡ true → IsGiven o.external_partner
  pub account_given : o.is_external ≡ true → IsGiven o.external_account_no

abbrev Ensures : {A : Type 0} → (A → Type 0) → Result A → Type 0
Ensures P (ok a) = P a
Ensures P (err e) = Unit

abbrev FitsText : ℕ → String → Type 0
FitsText n t = (is_empty t ≡ false) × (text_length t ≤ n)

check_key-FitsText : (raw : String) → Ensures (FitsText 128) (check_key raw)
unfolding check_key
check_key-FitsText raw = ground arith

normalize_currency-FitsText : (raw : String) → Ensures (FitsText 16) (normalize_currency raw)
unfolding normalize_currency
normalize_currency-FitsText raw = ground arith

positive_integer-pos : (n : Number) → Ensures (λ a. 0 < a) (positive_integer n)
unfolding positive_integer
positive_integer-pos n = ground arith

-- What check_parties has found when it lets a request pass.
abbrev Parties : String → String → String → Bool → Result (Unit {0}) → Type 0
Parties requesting from to external (err e) = Unit
Parties requesting from to external (ok _) =
    (requesting ≡ from)
    × (is_empty from ≡ false)
    × (is_empty to ≡ false)
    × (external ≡ false → str_eq from to ≡ false)

check_parties-Parties :
    (requesting from to : String) (external : Bool)
    → Parties requesting from to external (check_parties requesting from to external)
unfolding check_parties
check_parties-Parties requesting from to external = ground (arith, eq_iff requesting from)

-- An external order names a partner and an account there.
abbrev Partner : Bool → String → String → Result (Unit {0}) → Type 0
Partner external partner account (err e) = Unit
Partner external partner account (ok _) =
    external ≡ true → (is_empty partner ≡ false) × (is_empty account ≡ false)

check_partner-Partner :
    (external : Bool) (partner account : String)
    → Partner external partner account (check_partner external partner account)
unfolding check_partner
check_partner-Partner external partner account = ground arith

IsGiven-or_none : (t : String) → is_empty t ≡ false → IsGiven (or_none t)
IsGiven-or_none String.[] h = cc
IsGiven-or_none (String.◌∷◌ c s) h = refl

-- Whatever `Number` does to a text, an accepted transfer request becomes an order with a key of at
-- most 128 units, a sender who is the one that asks, a receiver who is another user unless the
-- transfer is external, a positive amount, a currency of 1 to 16 units, and,
-- if it is external, a partner and an account there.
pub validate_create_transfer-IsTransferOrder :
    (to_number : String → Number) (r : CreateTransferRequest) {o : TransferOrder}
    → validate_create_transfer to_number r ≡ ok o
    → IsTransferOrder o
unfolding validate_create_transfer
validate_create_transfer-IsTransferOrder to_number r h = ground (
  arith,
  check_key-FitsText r.idempotency_key,
  positive_integer-pos (normalize_amount to_number r.amount),
  normalize_currency-FitsText r.currency,
  check_parties-Parties (trim r.requesting_user_id) (trim r.from_user_id) (trim r.to_user_id)
      r.is_external,
  check_partner-Partner r.is_external (trim r.external_partner) (trim r.external_account_no),
  IsGiven-or_none (trim r.external_partner),
  IsGiven-or_none (trim r.external_account_no),
)

-- An order for money from or to a funding source.
pub record IsTopupOrder (o : TopupOrder) : Type 0 where
  pub key_given : is_empty o.idempotency_key ≡ false
  pub key_short : text_length o.idempotency_key ≤ 128
  pub user_given : is_empty o.user_id ≡ false
  pub source_given : is_empty o.funding_source_id ≡ false
  pub positive : 0 < o.amount
  pub currency_given : is_empty o.currency ≡ false
  pub currency_short : text_length o.currency ≤ 16

validate_create_topup_intent-IsTopupOrder :
    (to_number : String → Number) (r : CreateTopupIntentRequest) {o : TopupOrder}
    → validate_create_topup_intent to_number r ≡ ok o
    → IsTopupOrder o
unfolding validate_create_topup_intent
validate_create_topup_intent-IsTopupOrder to_number r h = ground (
  arith,
  check_key-FitsText r.idempotency_key,
  positive_integer-pos (normalize_amount to_number r.amount),
  normalize_currency-FitsText r.currency,
)

-- An accepted withdrawal request becomes an order with a key of at most 128 units, a user, a funding
-- source, a positive amount and a currency of 1 to 16 units, and keeps whether a failure is to be
-- simulated.
pub validate_create_withdrawal_request-IsTopupOrder :
    (to_number : String → Number) (r : CreateWithdrawalRequest) {o : WithdrawalOrder}
    → validate_create_withdrawal_request to_number r ≡ ok o
    → IsTopupOrder o.topup × (o.simulate_failure ≡ r.simulate_failure)
unfolding validate_create_withdrawal_request
validate_create_withdrawal_request-IsTopupOrder to_number r {o} h =
    ground (arith, validate_create_topup_intent-IsTopupOrder to_number r.topup {o = o.topup})
