-- ===== src/Prelude/Rows/Kept.antt =====
-- What the queries keep: a property of all rows, and what they select.
use kufi_e_wallet_with_hyper.Prelude.{
  ℕ, zero, suc, ◌==◌, some, ◌≡◌, refl, Bool, true, false, List, [], ◌∷◌, All, take, drop, arith,
  Bool-cases, inl, inr, ◌⊎◌, ltb,
}
use kufi_e_wallet_with_hyper.Prelude.Rows.{
  find_one, save, select, insert_by, insert_down, order_from, order_asc, order_desc,
}

module _ {ℓ κ} {A : Type ℓ} (P : A → Type κ) where
  pub All-take : (n : ℕ) (xs : List A) → All P xs → All P (take n xs)
  All-take zero xs h = tt
  All-take (suc n) [] h = tt
  All-take (suc n) (x ∷ xs) h = (h.0, All-take n xs h.1)

  pub All-drop : (n : ℕ) (xs : List A) → All P xs → All P (drop n xs)
  All-drop zero xs h = h
  All-drop (suc n) [] h = tt
  All-drop (suc n) (x ∷ xs) h = All-drop n xs h.1

  All-insert_by : (key : A → ℕ) (r : A) (xs : List A) → P r → All P xs → All P (insert_by key r xs)
  unfolding insert_by
  All-insert_by key r [] p h = (p, tt)
  All-insert_by key r (x ∷ xs) p h = elim (Bool-cases (ltb (key r) (key x))) [
    | inl before ↦ rw before (p, h)
    | inr after ↦ rw after (h.0, All-insert_by key r xs p h.1)
  ]

  pub All-insert_down :
      (key : A → ℕ) (r : A) (xs : List A) → P r → All P xs → All P (insert_down key r xs)
  unfolding insert_down
  All-insert_down key r [] p h = (p, tt)
  All-insert_down key r (x ∷ xs) p h = elim (Bool-cases (ltb (key x) (key r))) [
    | inl before ↦ rw before (p, h)
    | inr after ↦ rw after (h.0, All-insert_down key r xs p h.1)
  ]

  All-order_from :
      (put : List A → A → List A)
      → ((done : List A) (x : A) → P x → All P done → All P (put done x))
      → (done xs : List A) → All P done
      → All P xs
      → All P (order_from put done xs)
  unfolding order_from
  All-order_from put keep done [] hd hx = hd
  All-order_from put keep done (x ∷ xs) hd hx =
      All-order_from put keep (put done x) xs (keep done x hx.0 hd) hx.1

  pub All-order_asc : (key : A → ℕ) (xs : List A) → All P xs → All P (order_asc key xs)
  unfolding order_asc
  All-order_asc key xs h =
      All-order_from (λ done x. insert_by key x done) (λ done x p hd. All-insert_by key x done p hd)
        [] xs tt h

  pub All-order_desc : (key : A → ℕ) (xs : List A) → All P xs → All P (order_desc key xs)
  unfolding order_desc
  All-order_desc key xs h =
      All-order_from (λ done x. insert_down key x done)
        (λ done x p hd. All-insert_down key x done p hd) [] xs tt h

-- The rows that a query selects pass its test.
pub All-select {ℓ} : {A : Type ℓ} (p : A → Bool) (xs : List A) → All (λ x. p x ≡ true) (select p xs)
All-select p [] = tt
All-select p (x ∷ xs) = elim (Bool-cases (p x)) [
  | inl passes ↦ rw passes (passes, All-select p xs)
  | inr fails ↦ rw fails (All-select p xs)
]

pub All-map {ℓ κ μ} :
    {A : Type ℓ} (P : A → Type κ) (Q : A → Type μ) (xs : List A)
    → ((x : A) → P x → Q x)
    → All P xs
    → All Q xs
All-map P Q [] f h = tt
All-map P Q (x ∷ xs) f h = (f x h.0, All-map P Q xs f h.1)

module _ {A : Type 0} where
  -- A row of the table
  abbrev pub Among : List A → A → Type 0
  Among [] r = ⊥
  Among (x ∷ xs) r = (r ≡ x) ⊎ Among xs r

  All-Among : (xs : List A) → All (Among xs) xs
  All-Among [] = tt
  All-Among (x ∷ xs) =
      (inl refl, All-map (Among xs) (Among (x ∷ xs)) xs (λ r h. inr h) (All-Among xs))

  All-select_known :
      (P : A → Type 0) (p : A → Bool) (xs : List A)
      → All P xs
      → All (λ x. P x × (p x ≡ true)) (select p xs)
  All-select_known P p [] h = tt
  All-select_known P p (x ∷ xs) h = elim (Bool-cases (p x)) [
    | inl passes ↦ rw passes ((h.0, passes), All-select_known P p xs h.1)
    | inr fails ↦ rw fails (All-select_known P p xs h.1)
  ]

  -- The rows that a query selects are rows of the table, and pass its test.
  pub All-selected :
      (p : A → Bool) (xs : List A) → All (λ x. Among xs x × (p x ≡ true)) (select p xs)
  All-selected p xs = All-select_known (Among xs) p xs (All-Among xs)

module _ {ℓ} {A : Type ℓ} (key : A → ℕ) where
  -- A saved row is found by its key.
  pub find_one-save :
      (r : A) (xs : List A) → find_one (λ x. key x == key r) (save key r xs) ≡ some r
  find_one-save r [] = ground arith
  find_one-save r (x ∷ xs) = ground (arith, find_one-save r xs)

  -- The rows of other keys are found as before.
  pub find_one-save_apart :
      (id : ℕ) (r : A) (xs : List A)
      → (key r == id) ≡ false
      → find_one (λ x. key x == id) (save key r xs) ≡ find_one (λ x. key x == id) xs
  find_one-save_apart id r [] h = ground (arith, h)
  find_one-save_apart id r (x ∷ xs) h = ground (arith, h, find_one-save_apart id r xs)

  pub find_one-key :
      (id : ℕ) (r : A) (xs : List A) → find_one (λ x. key x == id) xs ≡ some r → key r ≡ id
  find_one-key id r [] h = ground arith
  find_one-key id r (x ∷ xs) h = ground (arith, find_one-key id r xs)

-- One row, and none, are in order.
pub order_desc-one {ℓ} : {A : Type ℓ} (key : A → ℕ) (x : A) → order_desc key (x ∷ []) ≡ x ∷ []
unfolding order_desc order_from insert_down
order_desc-one key x = refl

pub order_desc-nil {ℓ} : {A : Type ℓ} (key : A → ℕ) → order_desc key [] ≡ []
unfolding order_desc order_from
order_desc-nil key = refl
