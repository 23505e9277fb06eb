-- ===== src/Prelude/Rows/Sorted.antt =====
-- The order of the rows that a query gives, newest first.
use kufi_e_wallet_with_hyper.Prelude.{
  ℕ, zero, suc, ◌≤◌, ltb, List, [], ◌∷◌, All, take, drop, arith, Bool-cases, inl, inr,
}
use kufi_e_wallet_with_hyper.Prelude.Rows.{insert_down, order_from, order_desc}
use kufi_e_wallet_with_hyper.Prelude.Rows.Kept.{All-insert_down, All-take, All-map}

module _ {A : Type 0} (key : A → ℕ) where
  -- No row is followed by one with a larger key.
  abbrev pub Descends : List A → Type 0
  Descends [] = Unit
  Descends (x ∷ xs) = All (λ y. key y ≤ key x) xs × Descends xs

  insert_down-Descends : (r : A) (xs : List A) → Descends xs → Descends (insert_down key r xs)
  unfolding insert_down
  insert_down-Descends r [] h = (tt, tt)
  insert_down-Descends r (x ∷ xs) h = elim (Bool-cases (ltb (key x) (key r))) [
    | inl before ↦ rw before (
      (
        ground (arith, before),
        All-map (λ y. key y ≤ key x) (λ y. key y ≤ key r) xs
            (λ y below. ground (arith, before, below)) h.0,
      ),
      h,
    )
    | inr after ↦ rw after (
      All-insert_down (λ y. key y ≤ key x) key r xs (ground (arith, after)) h.0,
      insert_down-Descends r xs h.1,
    )
  ]

  order_from-Descends :
      (done xs : List A)
      → Descends done
      → Descends (order_from (λ ys x. insert_down key x ys) done xs)
  unfolding order_from
  order_from-Descends done [] h = h
  order_from-Descends done (x ∷ xs) h =
      order_from-Descends (insert_down key x done) xs (insert_down-Descends x done h)

  pub order_desc-Descends : (xs : List A) → Descends (order_desc key xs)
  unfolding order_desc
  order_desc-Descends xs = order_from-Descends [] xs tt

  pub take-Descends : (n : ℕ) (xs : List A) → Descends xs → Descends (take n xs)
  take-Descends zero xs h = tt
  take-Descends (suc n) [] h = tt
  take-Descends (suc n) (x ∷ xs) h =
      (All-take (λ y. key y ≤ key x) n xs h.0, take-Descends n xs h.1)

  pub drop-Descends : (n : ℕ) (xs : List A) → Descends xs → Descends (drop n xs)
  drop-Descends zero xs h = h
  drop-Descends (suc n) [] h = tt
  drop-Descends (suc n) (x ∷ xs) h = drop-Descends n xs h.1
