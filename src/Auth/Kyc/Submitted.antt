-- ===== src/Auth/Kyc/Submitted.antt =====
-- What submitKyc of auth-service leaves in the tables.
use kufi_e_wallet_with_hyper.Prelude.{
  arith, String, str_eq, eq_iff, Bool, true, Bool-cases, Option, none, some, is_some, List, [], ◌∷◌,
  ◌≡◌, refl, inl, inr,
}
use kufi_e_wallet_with_hyper.Prelude.Rows.{find_one, save}
use kufi_e_wallet_with_hyper.Books.Lookup.{find_one-passes}
use kufi_e_wallet_with_hyper.Auth.{
  duplicate_key, User, Outcome, returns, throws, Thrown, save_user_row,
}
use kufi_e_wallet_with_hyper.Auth.Users.{find_by_id}
use kufi_e_wallet_with_hyper.Auth.Kyc.{
  KycStatus, KycProfile, SubmitKycDto, KycTables, KycEnv, KycAnswer, profile_clashes, of_user,
  filled_profile, save_submission, submit_dated, submit_for, submit_kyc, issue_date,
}

-- The user and the profile of the user after a submission: both wait for a review.
pub record InReview (user_id : String) (s : KycTables) : Type 0 where
  pub user : User
  pub user_found : find_by_id user_id s.auth ≡ some user
  pub user_waits : user.kyc_status ≡ "pending_review"
  pub profile : KycProfile
  pub profile_found : find_one (of_user user_id) s.profiles ≡ some profile
  pub profile_waits : profile.status ≡ KycStatus.pending_review

-- A submission is refused and changes no table, or is in review.
pub data Submitted (user_id : String) (before after : KycTables) : Outcome KycAnswer → Type 0 where
  refused : (e : Thrown) → after ≡ before → Submitted user_id before after (throws e)
  in_review : (a : KycAnswer) → InReview user_id after → Submitted user_id before after (returns a)

find-save_user_row :
    (id : String) (u : User) (xs : List User)
    → u.id ≡ id
    → find_one (λ x. str_eq x.id id) (save_user_row u xs) ≡ some u
find-save_user_row id u [] h = ground (arith, eq_iff u.id id)
find-save_user_row id u (x ∷ xs) h =
    ground (arith, find-save_user_row id u xs h, eq_iff u.id id, eq_iff x.id id, eq_iff x.id u.id)

found-id :
    (id : String) (xs : List User) (u : User)
    → find_one (λ x. str_eq x.id id) xs ≡ some u
    → u.id ≡ id
found-id id xs u h =
    ground (arith, find_one-passes (λ (x : User). str_eq x.id id) xs u h, eq_iff u.id id)

-- The row found before it is saved is found again.
module _ (test : KycProfile → Bool) (p : KycProfile) (passes : test p ≡ true) where
  find-save_known :
      (q : KycProfile) (xs : List KycProfile)
      → find_one test xs ≡ some q
      → q.id ≡ p.id
      → find_one test (save (λ (x : KycProfile). x.id) p xs) ≡ some p
  find-save_known q [] h k = ground arith
  find-save_known q (x ∷ xs) h k = ground (arith, passes, find-save_known q xs)

  find-save_new :
      (xs : List KycProfile)
      → find_one test xs ≡ none
      → find_one test (save (λ (x : KycProfile). x.id) p xs) ≡ some p
  find-save_new [] h = rw passes refl
  find-save_new (x ∷ xs) h = ground (arith, passes, find-save_new xs)

module _ (env : KycEnv) (user_id : String) (dto : SubmitKycDto) (born : String)
    (issued : Option String) where
  abbrev profile_of : Option KycProfile → KycProfile
  profile_of found = filled_profile env user_id dto born issued found

  filled_profile-of_user :
      (xs : List KycProfile) (found : Option KycProfile)
      → find_one (of_user user_id) xs ≡ found
      → of_user user_id (profile_of found) ≡ true
  unfolding filled_profile
  filled_profile-of_user xs none h = ground (arith, eq_iff user_id user_id)
  filled_profile-of_user xs (some q) h = find_one-passes (of_user user_id) xs q h

  find-filled :
      (xs : List KycProfile) (found : Option KycProfile)
      → find_one (of_user user_id) xs ≡ found
      → find_one (of_user user_id) (save (λ (x : KycProfile). x.id) (profile_of found) xs)
        ≡ some (profile_of found)
  unfolding filled_profile
  find-filled xs none h =
      find-save_new (of_user user_id) (profile_of none) (filled_profile-of_user xs none h) xs h
  find-filled xs (some q) h =
      find-save_known (of_user user_id) (profile_of (some q)) (filled_profile-of_user xs (some q) h)
        q xs h refl

  save_submission-Submitted :
      (u : User) (s : KycTables)
      → find_by_id user_id s.auth ≡ some u
      → (let r = save_submission env u (profile_of (find_one (of_user user_id) s.profiles)) s in
          Submitted user_id s r.1 r.0)
  unfolding save_submission filled_profile
  save_submission-Submitted u s h =
      let p = profile_of (find_one (of_user user_id) s.profiles) in
      elim (Bool-cases (is_some (find_one (profile_clashes p) s.profiles))) [
        | inl taken ↦ rw taken (refused duplicate_key refl)
        | inr free ↦ rw free (
            in_review _ (record {
              user = record u { kyc_status = "pending_review" };
              user_found =
                  find-save_user_row user_id (record u { kyc_status = "pending_review" })
                    s.auth.users (found-id user_id s.auth.users u h);
              user_waits = refl;
              profile = p;
              profile_found = find-filled s.profiles (find_one (of_user user_id) s.profiles) refl;
              profile_waits = refl;
            }))
      ]

submit_dated-Submitted :
    (env : KycEnv) (user_id : String) (dto : SubmitKycDto) (u : User) (born : Option String)
    (issued : Option (Option String)) (s : KycTables)
    → find_by_id user_id s.auth ≡ some u
    → (let r = submit_dated env user_id dto u born issued s in Submitted user_id s r.1 r.0)
unfolding submit_dated
submit_dated-Submitted env user_id dto u none issued s h = refused _ refl
submit_dated-Submitted env user_id dto u (some born) none s h = refused _ refl
submit_dated-Submitted env user_id dto u (some born) (some issued) s h =
    save_submission-Submitted env user_id dto born issued u s h

submit_for-Submitted :
    (env : KycEnv) (user_id : String) (dto : SubmitKycDto) (found : Option User) (s : KycTables)
    → find_by_id user_id s.auth ≡ found
    → (let r = submit_for env user_id dto found s in Submitted user_id s r.1 r.0)
unfolding submit_for
submit_for-Submitted env user_id dto none s h = refused _ refl
submit_for-Submitted env user_id dto (some u) s h =
    submit_dated-Submitted env user_id dto u (env.parse_date dto.date_of_birth)
      (issue_date env dto.id_issue_date) s h

-- A KYC submission that throws has changed no table. One that returns has left the user and the user's
-- profile in the tables, and both wait for a review.
pub submit_kyc-Submitted :
    (env : KycEnv) (user_id : String) (dto : SubmitKycDto) (s : KycTables)
    → (let r = submit_kyc env user_id dto s in Submitted user_id s r.1 r.0)
unfolding submit_kyc
submit_kyc-Submitted env user_id dto s =
    submit_for-Submitted env user_id dto (find_by_id user_id s.auth) s refl
