-- ===== src/Prelude/Rows.antt =====
-- A database table as the list of its rows, oldest first, with the queries that the services make.
pub mod Kept
pub mod Sorted
use kufi_e_wallet_with_hyper.Prelude.{
  ℕ, Bool, List, [], ◌∷◌, Option, none, some, ltb, ◌==◌, if◌then◌else◌,
}

module _ {ℓ} {A : Type ℓ} where
  -- `findOne` by a condition
  abbrev pub find_one : (A → Bool) → List A → Option A
  find_one p [] = none
  find_one p (x ∷ xs) = if p x then some x else find_one p xs

  -- `find` by a condition
  abbrev pub select : (A → Bool) → List A → List A
  select p [] = []
  select p (x ∷ xs) = if p x then x ∷ select p xs else select p xs

  -- `save`: the row of the same key is replaced, and a row of a new key is added.
  abbrev pub save : (A → ℕ) → A → List A → List A
  save key r [] = r ∷ []
  save key r (x ∷ xs) = if key x == key r then r ∷ xs else x ∷ save key r xs

  insert_by : (A → ℕ) → A → List A → List A
  insert_by key r [] = r ∷ []
  insert_by key r (x ∷ xs) = if ltb (key r) (key x) then r ∷ x ∷ xs else x ∷ insert_by key r xs

  pub insert_down : (A → ℕ) → A → List A → List A
  insert_down key r [] = r ∷ []
  insert_down key r (x ∷ xs) = if ltb (key x) (key r) then r ∷ x ∷ xs else x ∷ insert_down key r xs

  order_from : (List A → A → List A) → List A → List A → List A
  order_from put done [] = done
  order_from put done (x ∷ xs) = order_from put (put done x) xs

  -- `ORDER BY key ASC`; rows of one key stay in the order of the table.
  pub order_asc : (A → ℕ) → List A → List A
  unfolding insert_by order_from
  order_asc key xs = order_from (λ done x. insert_by key x done) [] xs

  -- `ORDER BY key DESC`
  pub order_desc : (A → ℕ) → List A → List A
  unfolding insert_down order_from
  order_desc key xs = order_from (λ done x. insert_down key x done) [] xs
