-- ===== src/Auth.antt =====
-- The auth service, e-wallet/auth-service/src: its tables, and what its methods get from outside.
pub mod Phones
pub mod Users
pub mod Pins
pub mod Sessions
pub mod Logins
pub mod Cleanup
pub mod Otps
pub mod StepUp
pub mod Qr
pub mod SignUp
pub mod Runs
pub mod Kyc
use kufi_e_wallet_with_hyper.Prelude.{
  ℕ, String, str_eq, Bool, true, false, Option, none, some, List, [], ◌∷◌, if◌then◌else◌,
}

pub data AccountStatus : Type 0 where
  active blocked locked : AccountStatus

-- A row of `users`; its id, its Firebase user, its email and its phone are unique. `updatedAt` is
-- left out.
pub record User : Type 0 where
  pub id : String
  pub firebase_uid : String
  pub account_status : AccountStatus
  pub email : Option String
  pub phone : Option String
  pub display_name : Option String
  pub kyc_status : String
  pub hashed_pin : Option String
  pub created_at : ℕ

-- A row of `auth_sessions`; its key and the hash of its token are unique.
pub record AuthSession : Type 0 where
  pub id : ℕ
  pub user_id : String
  pub refresh_token_hash : String
  pub refresh_token_expires_at : ℕ
  pub revoked_at : Option ℕ
  pub last_used_at : Option ℕ
  pub user_agent : Option String
  pub ip_address : Option String

pub data OtpPurpose : Type 0 where
  transfer step_up_email : OtpPurpose

-- A row of `auth_otps`, without the agent and the address, which nothing sets.
pub record AuthOtp : Type 0 where
  pub id : ℕ
  pub user_id : String
  pub purpose : OtpPurpose
  pub otp_hash : String
  pub attempt_count : ℕ
  pub expires_at : ℕ
  pub used_at : Option ℕ
  pub device_id : Option String
  pub created_at : ℕ

-- A row of `auth_step_up_tokens`; its token is unique.
pub record AuthStepUpToken : Type 0 where
  pub id : ℕ
  pub token : String
  pub user_id : String
  pub device_id : Option String
  pub method : Option String
  pub expires_at : ℕ

pub record AuthStore : Type 0 where
  pub users : List User
  pub sessions : List AuthSession
  pub otps : List AuthOtp
  pub step_up_tokens : List AuthStepUpToken

-- What a method throws: an UnauthorizedException, a BadRequestException, an Error with its message,
-- the error of a unique index, or the error of a call to Firebase.
pub data Thrown : Type 0 where
  unauthorized : String → Thrown
  bad_request : String → Thrown
  plain_error : String → Thrown
  duplicate_key : Thrown
  firebase_error : Thrown

pub data Outcome {ℓ} (A : Type ℓ) : Type ℓ where
  returns : A → Outcome A
  throws : Thrown → Outcome A

pub record FirebaseUser : Type 0 where
  pub uid : String
  pub disabled : Bool
  pub email : Option String
  pub phone_number : Option String
  pub display_name : Option String

-- The claims of an access token; `iss`, `aud`, `exp` and `iat` are left to the library of the tokens.
pub record AccessTokenPayload : Type 0 where
  pub sub : Option String
  pub firebase_uid : String
  pub kyc_status : String
  pub jti : String

-- What the token of a QR code carries, and what is read of it: `exp` is none where it is not a finite
-- number, and the user is trimmed.
pub record QrPayload : Type 0 where
  pub v : ℕ
  pub user_id : String
  pub exp : ℕ
  pub nonce : String

pub record QrClaims : Type 0 where
  pub user_id : String
  pub exp : Option ℕ

-- The settings, as whole numbers.
pub record AuthConfig : Type 0 where
  pub access_ttl_seconds : ℕ
  pub refresh_ttl_seconds : ℕ
  pub auth_dev_mode : Bool
  pub otp_ttl_seconds : ℕ
  pub step_up_email_otp_ttl_seconds : ℕ
  pub step_up_token_ttl_seconds : ℕ
  pub signup_email_otp_ttl_seconds : ℕ
  pub qr_transfer_token_ttl_seconds : ℕ
  pub otp_hash_secret : String
  pub qr_transfer_token_secret : String
  pub jwt_secret : String

-- What one call sees from outside: Firebase (none where it throws), the library of access tokens with
-- the issuer and the audience of the settings, hashes in hexadecimal, scrypt, the JSON text of a QR
-- code in base64url and back (none where it is no object), the id made of an email, the notification service
-- (the message of the exception, or none where the mail is sent), the clock in milliseconds, and new
-- keys and random texts.
pub record AuthEnv : Type 0 where
  pub config : AuthConfig
  pub verify_id_token : String → Option String
  pub get_firebase_user : String → Option FirebaseUser
  pub sign_token : AccessTokenPayload → String
  pub verify_token : String → Option AccessTokenPayload
  pub sha256 : String → String
  pub hmac_sha256 : String → String → String
  pub scrypt : String → String → String
  pub from_hex : String → String
  pub hmac_base64url : String → String → String
  pub encode_qr : QrPayload → String
  pub decode_qr : String → Option QrClaims
  pub sign_up_id : String → String
  pub send_email_otp : String → String → ℕ → String → Option String
  pub now : ℕ
  pub new_user_id : String
  pub new_row_id : ℕ
  pub random_token : String
  pub random_code : String
  pub random_salt : String
  pub jti : String
  pub nonce : String

abbrev pub is_active : AccountStatus → Bool
is_active AccountStatus.active = true
is_active _ = false

-- `save` by the id of a user
abbrev pub save_user_row : User → List User → List User
save_user_row u [] = u ∷ []
save_user_row u (x ∷ xs) = if str_eq x.id u.id then u ∷ xs else x ∷ save_user_row u xs

-- `delete` by a condition
abbrev pub delete_where {ℓ} : {A : Type ℓ} → (A → Bool) → List A → List A
delete_where p [] = []
delete_where p (x ∷ xs) = if p x then delete_where p xs else x ∷ delete_where p xs
