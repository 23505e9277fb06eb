-- ===== src/Auth/Kyc.antt =====
-- The submission of a KYC profile, submitKyc of src/auth/auth-internal.controller.ts of auth-service,
-- and its table, src/users/entities/kyc-profile.entity.ts.
pub mod Submitted
use kufi_e_wallet_with_hyper.Prelude.{
  ℕ, String, str_eq, Bool, not, ◌&&◌, ◌||◌, ◌==◌, if◌then◌else◌, Option, none, some, or_else,
  is_some, List,
}
use kufi_e_wallet_with_hyper.Prelude.Text.{is_empty, trim}
use kufi_e_wallet_with_hyper.Prelude.Rows.{find_one, save}
use kufi_e_wallet_with_hyper.Auth.{
  User, AuthStore, bad_request, duplicate_key, Outcome, returns, throws, save_user_row,
}
use kufi_e_wallet_with_hyper.Auth.Users.{find_by_id}
use kufi_e_wallet_with_hyper.Auth.Otps.{user_not_found}

pub data KycStatus : Type 0 where
  unverified pending_review verified rejected : KycStatus

pub data KycRiskLevel : Type 0 where
  low medium high : KycRiskLevel

-- A row of `kyc_profiles`; its key, its user and its national id are unique. A day is its ISO text.
-- `createdAt` and `updatedAt` are left out.
pub record KycProfile : Type 0 where
  pub id : ℕ
  pub user_id : String
  pub full_name : String
  pub national_id : String
  pub date_of_birth : String
  pub id_issue_date : Option String
  pub id_issue_place : Option String
  pub residential_address : String
  pub status : KycStatus
  pub risk_level : KycRiskLevel
  pub rejection_reason : Option String
  pub submitted_at : Option ℕ
  pub reviewed_at : Option ℕ

pub record SubmitKycDto : Type 0 where
  pub full_name : String
  pub national_id : String
  pub date_of_birth : String
  pub id_issue_date : Option String
  pub id_issue_place : Option String
  pub residential_address : String

pub record KycTables : Type 0 where
  pub auth : AuthStore
  pub profiles : List KycProfile

-- What a call sees from outside: the ISO text of a date that is written as a text (none where it is no
-- date), and of a time; the clock; and a new key.
pub record KycEnv : Type 0 where
  pub parse_date : String → Option String
  pub iso_time : ℕ → String
  pub now : ℕ
  pub new_profile_id : ℕ

pub record KycAnswer : Type 0 where
  pub user_id : String
  pub status : KycStatus
  pub full_name : String
  pub national_id : String
  pub date_of_birth : String
  pub id_issue_date : String
  pub id_issue_place : String
  pub residential_address : String
  pub risk_level : KycRiskLevel
  pub rejection_reason : String
  pub submitted_at : String
  pub reviewed_at : String

-- The date of issue, none of it given or an empty one; the whole is none where it is no date.
issue_date : KycEnv → Option String → Option (Option String)
issue_date env none = some none
issue_date env (some t) =
    if is_empty t
    then some none
    else elim (env.parse_date t) [ none ↦ none | some d ↦ some (some d) ]

-- `value?.trim() || null`
trimmed_or_null : Option String → Option String
trimmed_or_null none = none
trimmed_or_null (some t) = if is_empty (trim t) then none else some (trim t)

abbrev pub of_user : String → KycProfile → Bool
of_user user_id p = str_eq p.user_id user_id

-- The profile that is there, or a new one, with what the request says
unfoldable pub filled_profile :
    KycEnv
    → String
    → SubmitKycDto
    → (born : String) → (issued : Option String) → Option KycProfile
    → KycProfile
unfolding trimmed_or_null
filled_profile env user_id dto born issued existing = record {
  id = elim existing [ none ↦ env.new_profile_id | some p ↦ p.id ];
  user_id = elim existing [ none ↦ user_id | some p ↦ p.user_id ];
  full_name = trim dto.full_name;
  national_id = trim dto.national_id;
  date_of_birth = born;
  id_issue_date = issued;
  id_issue_place = trimmed_or_null dto.id_issue_place;
  residential_address = trim dto.residential_address;
  status = KycStatus.pending_review;
  risk_level = KycRiskLevel.low;
  rejection_reason = none;
  submitted_at = some env.now;
  reviewed_at = elim existing [ none ↦ none | some p ↦ p.reviewed_at ];
}

time_text : KycEnv → Option ℕ → String
time_text env none = ""
time_text env (some t) = env.iso_time t

kyc_answer : KycEnv → KycProfile → KycAnswer
unfolding time_text
kyc_answer env p = record {
  user_id = p.user_id;
  status = p.status;
  full_name = p.full_name;
  national_id = p.national_id;
  date_of_birth = p.date_of_birth;
  id_issue_date = or_else p.id_issue_date "";
  id_issue_place = or_else p.id_issue_place "";
  residential_address = p.residential_address;
  risk_level = p.risk_level;
  rejection_reason = or_else p.rejection_reason "";
  submitted_at = time_text env p.submitted_at;
  reviewed_at = time_text env p.reviewed_at;
}

-- Another row has the user or the national id of this one.
profile_clashes : KycProfile → KycProfile → Bool
profile_clashes p x =
    not (x.id == p.id) && (str_eq x.user_id p.user_id || str_eq x.national_id p.national_id)

-- `kycRepo.save`
save_profile : KycProfile → KycTables → Outcome KycProfile × KycTables
unfolding profile_clashes
save_profile p s =
    if is_some (find_one (profile_clashes p) s.profiles)
    then (throws duplicate_key, s)
    else (returns p, record s { profiles = save (λ (x : KycProfile). x.id) p s.profiles })

-- `usersRepo.save` of the user, who waits for a review; it changes none of the unique fields.
save_kyc_status : User → KycTables → KycTables
save_kyc_status u s = record s {
  auth = record s.auth {
    users = save_user_row (record u { kyc_status = "pending_review" }) s.auth.users;
  };
}

-- The profile has been saved, or its save has thrown.
after_save : KycEnv → User → Outcome KycProfile → KycTables → Outcome KycAnswer × KycTables
unfolding kyc_answer save_kyc_status
after_save env u (returns saved) s = (returns (kyc_answer env saved), save_kyc_status u s)
after_save env u (throws e) s = (throws e, s)

-- Two saves, not in a DB transaction: the user's comes after the profile's.
unfoldable pub save_submission :
    KycEnv → User → KycProfile → KycTables → Outcome KycAnswer × KycTables
unfolding save_profile after_save
save_submission env u p s = let (saved, t) = save_profile p s in after_save env u saved t

submit_dated :
    KycEnv
    → String
    → SubmitKycDto
    → User
    → (born : Option String) → (issued : Option (Option String)) → KycTables
    → Outcome KycAnswer × KycTables
unfolding filled_profile save_submission
submit_dated env user_id dto u none issued s = (throws (bad_request "dateOfBirth is invalid"), s)
submit_dated env user_id dto u (some born) none s =
    (throws (bad_request "idIssueDate is invalid"), s)
submit_dated env user_id dto u (some born) (some issued) s =
    save_submission env u
      (filled_profile env user_id dto born issued (find_one (of_user user_id) s.profiles)) s

submit_for :
    KycEnv → String → SubmitKycDto → Option User → KycTables → Outcome KycAnswer × KycTables
unfolding issue_date submit_dated
submit_for env user_id dto none s = (throws user_not_found, s)
submit_for env user_id dto (some u) s =
    submit_dated env user_id dto u (env.parse_date dto.date_of_birth)
      (issue_date env dto.id_issue_date) s

unfoldable pub submit_kyc :
    KycEnv → String → SubmitKycDto → KycTables → Outcome KycAnswer × KycTables
unfolding submit_for
submit_kyc env user_id dto s = submit_for env user_id dto (find_by_id user_id s.auth) s
