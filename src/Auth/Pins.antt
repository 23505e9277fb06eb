-- ===== src/Auth/Pins.antt =====
-- The PINs of src/users/users.service.ts of auth-service: setPin, verifyPin, hasPin.
use kufi_e_wallet_with_hyper.Prelude.{
  ◌==◌, String, str_eq, text_append, Bool, false, not, ◌&&◌, if◌then◌else◌, Option, none, some,
  or_else, [], ◌∷◌,
}
use kufi_e_wallet_with_hyper.Prelude.Text.{is_empty, trim, text_length}
use kufi_e_wallet_with_hyper.Prelude.Text.Split.{split}
use kufi_e_wallet_with_hyper.Auth.{User, AuthStore, Outcome, plain_error, returns, throws, AuthEnv}
use kufi_e_wallet_with_hyper.Auth.Phones.{all_digits}
use kufi_e_wallet_with_hyper.Auth.Users.{find_by_id, save_user}

unfoldable pub has_pin : User → Bool
has_pin u = not (is_empty (trim (or_else u.hashed_pin "")))

-- hashPin
hash_pin : AuthEnv → String → String
hash_pin env pin = text_append env.random_salt (text_append ":" (env.scrypt pin env.random_salt))

-- verifyPinHash
verify_pin_hash : AuthEnv → String → String → Bool
verify_pin_hash env pin hash = elim (split b':' hash) [
  | [] ↦ false
  | salt ∷ keys ↦ elim keys [
    | [] ↦ false
    | key ∷ more ↦ elim more [
      | [] ↦ str_eq (env.from_hex key) (env.from_hex (env.scrypt pin salt))
      | extra ∷ rest ↦ false
    ]
  ]
]

-- `/^\d{6}$/`
is_pin : String → Bool
is_pin pin = all_digits pin && text_length pin == 6

saved : Outcome User × AuthStore → Outcome (Unit {0}) × AuthStore
saved (throws e, s) = (throws e, s)
saved (returns u, s) = (returns tt, s)

set_pin_of : AuthEnv → String → Option User → AuthStore → Outcome (Unit {0}) × AuthStore
unfolding hash_pin is_pin saved
set_pin_of env pin none s = (throws (plain_error "User not found"), s)
set_pin_of env pin (some u) s =
    if is_pin pin
    then saved (save_user (record u { hashed_pin = some (hash_pin env pin) }) s)
    else (throws (plain_error "PIN must be exactly 6 digits"), s)

unfoldable pub set_pin : AuthEnv → String → String → AuthStore → Outcome (Unit {0}) × AuthStore
unfolding set_pin_of
set_pin env id pin s = set_pin_of env pin (find_by_id id s) s

unfoldable pub verify_pin : AuthEnv → String → String → AuthStore → Bool
unfolding verify_pin_hash
verify_pin env id pin s = elim (find_by_id id s) [
  | none ↦ false
  | some u ↦ elim u.hashed_pin [
    | none ↦ false
    | some hash ↦ if is_empty hash then false else verify_pin_hash env pin hash
  ]
]
