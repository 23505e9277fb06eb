-- ===== src/Auth/Otps/Codes.antt =====
-- A one-time code of auth-internal.controller.ts of auth-service is good for one use.
use mathlib.Core.Path.{subst}
use kufi_e_wallet_with_hyper.Prelude.{
  ℕ, arith, ◌+◌, ◌*◌, ltb, String, str_eq, eq_refl, Bool, true, false, Bool-cases, not, ◌&&◌,
  if◌then◌else◌, none, some, is_some, List, [], ◌∷◌, ◌++◌, ◌≡◌, ◌≢◌, refl, sym, ap, ◌∙◌, inl, inr,
  All,
}
use kufi_e_wallet_with_hyper.Prelude.Text.{is_empty, or_none, trim}
use kufi_e_wallet_with_hyper.Prelude.Rows.{select, save, order_desc}
use kufi_e_wallet_with_hyper.Prelude.Rows.Kept.{order_desc-one, order_desc-nil}
use kufi_e_wallet_with_hyper.Auth.{AuthOtp, OtpPurpose, AuthStore, AuthEnv, delete_where}
use kufi_e_wallet_with_hyper.Auth.Otps.{
  OtpSubject, same_purpose, hash_otp_code, is_of, is_open, new_otp, store_otp_code, first_of,
  newest_open, save_otp, consume_row, consume_otp_code,
}

module _ {A : Type 0} (p r : A → Bool) (narrower : (x : A) → r x ≡ false → p x ≡ false) where
  -- A query sees nothing of what a wider deletion has left.
  select-deleted : (xs ys : List A) → select p (delete_where r xs ++ ys) ≡ select p ys
  select-deleted [] ys = refl
  select-deleted (x ∷ xs) ys = elim (Bool-cases (r x)) [
    | inl gone ↦ rw gone (select-deleted xs ys)
    | inr left ↦ rw (left, narrower x left) (select-deleted xs ys)
  ]

is_open-narrower :
    (env : AuthEnv) (q : OtpSubject) (o : AuthOtp) → is_of q o ≡ false → is_open env q o ≡ false
unfolding is_open
is_open-narrower env q o h = rw h refl

same_device :
    (device : String)
    → (elim (or_none device) [
      | none ↦ is_empty device
      | some d ↦ not (is_empty device) && str_eq d device
    ])
      ≡ true
same_device String.[] = refl
same_device (String.◌∷◌ c s) = eq_refl (String.◌∷◌ c s)

same_purpose_refl : (p : OtpPurpose) → same_purpose p p ≡ true
same_purpose_refl OtpPurpose.transfer = refl
same_purpose_refl OtpPurpose.step_up_email = refl

new_otp-is_of :
    (env : AuthEnv) (q : OtpSubject) (code : String) (ttl : ℕ)
    → is_of q (new_otp env q code ttl) ≡ true
unfolding is_of new_otp
new_otp-is_of env q code ttl =
    rw (eq_refl q.user_id, same_purpose_refl q.purpose) (same_device (trim q.device_id))

new_otp-is_open :
    (env env' : AuthEnv) (q : OtpSubject) (code : String) (ttl : ℕ)
    → ltb env'.now (env.now + ttl * 1000) ≡ true
    → is_open env' q (new_otp env q code ttl) ≡ true
unfolding is_open new_otp
new_otp-is_open env env' q code ttl live = rw (new_otp-is_of env q code ttl, live) refl

save-appended :
    (v o : AuthOtp) (xs : List AuthOtp)
    → v.id ≡ o.id
    → All (λ (x : AuthOtp). x.id ≢ o.id) xs
    → save (λ (x : AuthOtp). x.id) v (xs ++ (o ∷ [])) ≡ xs ++ (v ∷ [])
save-appended v o [] e h = ground arith
save-appended v o (x ∷ xs) e h = ground (arith, save-appended v o xs e h.1)

All-delete_where :
    (P : AuthOtp → Type 0) (p : AuthOtp → Bool) (xs : List AuthOtp)
    → All P xs
    → All P (delete_where p xs)
All-delete_where P p [] h = tt
All-delete_where P p (x ∷ xs) h = elim (Bool-cases (p x)) [
  | inl hit ↦ rw hit (All-delete_where P p xs h.1)
  | inr miss ↦ rw miss (h.0, All-delete_where P p xs h.1)
]

newest_open-kept :
    (env : AuthEnv) (q : OtpSubject) (xs : List AuthOtp) (o : AuthOtp)
    → newest_open env q (delete_where (is_of q) xs ++ (o ∷ []))
      ≡ (if is_open env q o then some o else none)
unfolding newest_open
newest_open-kept env q xs o =
    ap (λ found. first_of (order_desc (λ (x : AuthOtp). x.created_at) found))
      (select-deleted (is_open env q) (is_of q) (is_open-narrower env q) xs (o ∷ []))
    ∙ one (is_open env q o)
  where
    one :
        (b : Bool)
        → first_of (order_desc (λ (x : AuthOtp). x.created_at) (if b then o ∷ [] else []))
          ≡ (if b then some o else none)
    one true = ap first_of (order_desc-one (λ (x : AuthOtp). x.created_at) o)
    one false = ap first_of (order_desc-nil (λ (x : AuthOtp). x.created_at))

abbrev used : AuthEnv → AuthOtp → AuthOtp
used env o = record o { used_at = some env.now }

-- The hash that a code is compared with
abbrev hash_of : AuthEnv → OtpSubject → String → String
hash_of env q code = hash_otp_code env (record q { device_id = trim q.device_id }) code

consume_row-same :
    (env : AuthEnv) (q : OtpSubject) (code : String) (o : AuthOtp) (s : AuthStore)
    → hash_of env q code ≡ o.otp_hash
    → consume_row env q code (some o) s ≡ (true, save_otp (used env o) s)
unfolding consume_row
consume_row-same env q code o s e =
    let same = ap (str_eq o.otp_hash) e ∙ eq_refl o.otp_hash in rw same refl

consume-stored :
    (env env' : AuthEnv) (q : OtpSubject) (code : String) (ttl : ℕ) (s : AuthStore)
    → ltb env'.now (env.now + ttl * 1000) ≡ true
    → hash_of env' q code ≡ hash_of env q code
    → All (λ (x : AuthOtp). x.id ≢ env.new_row_id) s.otps
    → consume_otp_code env' q code (store_otp_code env q code ttl s) ≡ (
      true,
      record s {
        otps = delete_where (is_of q) s.otps ++ (used env' (new_otp env q code ttl) ∷ []);
      },
    )
unfolding consume_otp_code store_otp_code new_otp
consume-stored env env' q code ttl s live same fresh =
    let o = new_otp env q code ttl in
    let t = store_otp_code env q code ttl s in
    ap (λ found. consume_row env' q code found t)
      (newest_open-kept env' q s.otps o
        ∙ ap (λ b. if b then some o else none) (new_otp-is_open env env' q code ttl live))
    ∙ (consume_row-same env' q code o t same
        ∙ ap (λ otps. (true, record s { otps = otps }))
            (save-appended (used env' o) o (delete_where (is_of q) s.otps) refl
              (All-delete_where (λ (x : AuthOtp). x.id ≢ env.new_row_id) (is_of q) s.otps fresh)))

used-closed :
    (env : AuthEnv) (q : OtpSubject) (o : AuthOtp)
    → is_some o.used_at ≡ true
    → is_open env q o ≡ false
unfolding is_open
used-closed env q o h = ground arith

consume-used :
    (env : AuthEnv) (q : OtpSubject) (code : String) (xs : List AuthOtp) (o : AuthOtp)
    (s : AuthStore)
    → is_some o.used_at ≡ true
    → consume_otp_code env q code (record s { otps = delete_where (is_of q) xs ++ (o ∷ []) })
      ≡ (false, record s { otps = delete_where (is_of q) xs ++ (o ∷ []) })
unfolding consume_otp_code consume_row
consume-used env q code xs o s h =
    ap
      (λ found.
        consume_row env q code found (record s { otps = delete_where (is_of q) xs ++ (o ∷ []) }))
      (newest_open-kept env q xs o ∙ ap (λ b. if b then some o else none) (used-closed env q o h))

-- A code that storeOtpCode has stored under a new key is accepted by consumeOtpCode before it expires,
-- where the code hashes as it did; after that, no code is accepted for its subject.
pub consume-store :
    (env env' env'' : AuthEnv) (q : OtpSubject) (code again : String) (ttl : ℕ) (s : AuthStore)
    → ltb env'.now (env.now + ttl * 1000) ≡ true
    → hash_of env' q code ≡ hash_of env q code
    → All (λ (x : AuthOtp). x.id ≢ env.new_row_id) s.otps
    → (let first = consume_otp_code env' q code (store_otp_code env q code ttl s) in
        (first.0 ≡ true) × (consume_otp_code env'' q again first.1 ≡ (false, first.1)))
consume-store env env' env'' q code again ttl s live same fresh =
    let stored = consume-stored env env' q code ttl s live same fresh in
    (
      ap (λ out. out.0) stored,
      subst (λ out. consume_otp_code env'' q again out.1 ≡ (false, out.1)) (sym stored)
          (consume-used env'' q again s.otps (used env' (new_otp env q code ttl)) s refl),
    )
