-- ===== src/Auth/Users.antt =====
-- src/users/users.service.ts of auth-service: users, their profiles and their PINs.
use kufi_e_wallet_with_hyper.Prelude.{
  ℕ, String, str_eq, Bool, false, not, ◌&&◌, ◌||◌, if◌then◌else◌, Option, none, some, or_else,
  is_some, ◌≡◌, arith, List,
}
use kufi_e_wallet_with_hyper.Prelude.Text.{is_empty, trim, to_lower}
use kufi_e_wallet_with_hyper.Prelude.Rows.{find_one, select, order_asc, order_desc}
use kufi_e_wallet_with_hyper.Auth.{
  AccountStatus, User, AuthStore, Thrown, Outcome, plain_error, duplicate_key, returns, throws,
  AuthEnv, is_active, save_user_row,
}
use kufi_e_wallet_with_hyper.Auth.Phones.{
  normalize_phone, normalize_phone_for_store, is_stored_phone, phone_variants, is_member,
  is_mock_user, ranks_last,
}

pub record FirebaseUserPayload : Type 0 where
  pub firebase_uid : String
  pub email : Option String
  pub phone : Option String
  pub display_name : Option String

abbrev pub find_by_id : String → AuthStore → Option User
find_by_id id s = find_one (λ u. str_eq u.id id) s.users

abbrev has_email : String → User → Bool
has_email email u = elim u.email [ none ↦ false | some e ↦ str_eq e email ]

abbrev not_mock : Option User → Option User
not_mock none = none
not_mock (some u) = if is_mock_user u then none else some u

unfoldable pub find_by_email : String → AuthStore → Option User
find_by_email email s =
    let normalized = to_lower (trim email) in
    if is_empty normalized then none else not_mock (find_one (has_email normalized) s.users)

abbrev has_phone_in : List String → User → Bool
has_phone_in phones u = elim u.phone [ none ↦ false | some p ↦ is_member p phones ]

abbrev rank : User → ℕ
rank u = if ranks_last u then 1 else 0

unfoldable pub find_by_phone : String → AuthStore → Option User
find_by_phone identifier s =
    let normalized = normalize_phone identifier in
    let candidates = order_asc rank (
      order_desc (λ (u : User). u.created_at)
        (select (has_phone_in (phone_variants normalized)) s.users)) in
    if is_empty normalized then none else find_one (λ u. not (is_mock_user u)) candidates

same_text : Option String → Option String → Bool
same_text (some a) (some b) = str_eq a b
same_text _ _ = false

-- Another row has the Firebase user, the email or the phone of this one.
clashes : User → User → Bool
unfolding same_text
clashes u x =
    not (str_eq x.id u.id)
    && (str_eq x.firebase_uid u.firebase_uid
        || same_text x.email u.email
        || same_text x.phone u.phone)

unfoldable pub save_user : User → AuthStore → Outcome User × AuthStore
unfolding clashes
save_user u s =
    if is_some (find_one (clashes u) s.users)
    then (throws duplicate_key, s)
    else (returns u, record s { users = save_user_row u s.users })

-- `value ?? other`
abbrev pub or_other : Option String → Option String → Option String
or_other none other = other
or_other (some v) other = some v

abbrev map_text : (String → String) → Option String → Option String
map_text f none = none
map_text f (some v) = some (f v)

upserted : AuthEnv → FirebaseUserPayload → Option User → User
upserted env p (some existing) = record existing {
  email = or_other (map_text (λ e. to_lower (trim e)) p.email) existing.email;
  phone = or_other (map_text trim p.phone) existing.phone;
  display_name = or_other p.display_name existing.display_name;
}
upserted env p none = record {
  id = env.new_user_id;
  firebase_uid = p.firebase_uid;
  account_status = AccountStatus.active;
  email = map_text (λ e. to_lower (trim e)) p.email;
  phone = map_text trim p.phone;
  display_name = p.display_name;
  kyc_status = "pending";
  hashed_pin = none;
  created_at = env.now;
}

unfoldable pub upsert_from_firebase :
    AuthEnv → FirebaseUserPayload → AuthStore → Outcome User × AuthStore
unfolding upserted
upsert_from_firebase env p s =
    save_user (upserted env p (find_one (λ u. str_eq u.firebase_uid p.firebase_uid) s.users)) s

-- An upsert changes no session.
pub upsert-sessions :
    (env : AuthEnv) (p : FirebaseUserPayload) (s : AuthStore)
    → (upsert_from_firebase env p s).1.sessions ≡ s.sessions
unfolding upsert_from_firebase save_user
upsert-sessions env p s = ground arith

pub record Recipient : Type 0 where
  pub user_id : String
  pub phone : String
  pub display_name : String
  pub account_status : AccountStatus
  pub kyc_status : String

recipient_of : User → Recipient
recipient_of u = record {
  user_id = u.id;
  phone = or_else u.phone "";
  display_name = or_else u.display_name (or_else u.email "Người dùng");
  account_status = u.account_status;
  kyc_status = u.kyc_status;
}

-- resolveRecipientByPhone; none is `{ found: false }`.
unfoldable pub resolve_recipient_by_phone : String → Option String → AuthStore → Option Recipient
unfolding recipient_of
resolve_recipient_by_phone phone requester s = elim (find_by_phone phone s) [
  | none ↦ none
  | some u ↦
      let asker = or_else requester "" in
      if is_mock_user u
        || not (is_empty asker) && str_eq u.id asker
        || not (is_active u.account_status)
      then none
      else some (recipient_of u)
]

pub record Profile : Type 0 where
  pub user_id : String
  pub email : String
  pub phone : String
  pub display_name : String
  pub kyc_status : String
  pub account_status : AccountStatus

to_profile : User → Profile
to_profile u = record {
  user_id = u.id;
  email = or_else u.email "";
  phone = or_else u.phone "";
  display_name = or_else u.display_name (or_else u.email "");
  kyc_status = u.kyc_status;
  account_status = u.account_status;
}

abbrev user_not_found : Thrown
user_not_found = plain_error "User not found"

unfoldable pub get_profile : String → AuthStore → Outcome Profile
unfolding to_profile
get_profile id s = elim (find_by_id id s) [
  | none ↦ throws user_not_found
  | some u ↦ returns (to_profile u)
]

abbrev set_name : String → User → User
set_name name u = if is_empty name then u else record u { display_name = some name }

-- Is the phone the one of another user?
in_use : User → Option User → Bool
in_use u none = false
in_use u (some other) = not (str_eq other.id u.id)

-- The user with the new phone, or what is thrown
set_phone : String → User → AuthStore → Outcome User
unfolding in_use
set_phone phone u s =
    let normalized = normalize_phone_for_store phone in
    if is_empty phone
    then returns u
    else (if is_empty normalized || not (is_stored_phone normalized)
        then throws (plain_error "Invalid phone format")
        else (if in_use u (find_by_phone normalized s)
            then throws (plain_error "Phone number already in use")
            else returns (record u { phone = some normalized })))

saved_profile : Outcome User × AuthStore → Outcome Profile × AuthStore
unfolding to_profile
saved_profile (throws e, s) = (throws e, s)
saved_profile (returns u, s) = (returns (to_profile u), s)

save_profile : Outcome User → AuthStore → Outcome Profile × AuthStore
unfolding saved_profile
save_profile (throws e) s = (throws e, s)
save_profile (returns u) s = saved_profile (save_user u s)

unfoldable pub update_profile :
    String → Option String → Option String → AuthStore → Outcome Profile × AuthStore
unfolding set_phone save_profile
update_profile id display_name phone s = elim (find_by_id id s) [
  | none ↦ (throws user_not_found, s)
  | some u ↦
      save_profile
        (set_phone (trim (or_else phone "")) (set_name (trim (or_else display_name "")) u) s) s
]
