-- ===== src/Books/Lookup.antt =====
-- Finding and saving wallets in a table with unique keys and owners.
use kufi_e_wallet_with_hyper.Prelude.{
  ℕ, ◌≡◌, refl, ap, ◌≢◌, inl, inr, String, Bool, true, false, none, some, List, [], ◌∷◌, ◌++◌, All,
  All-append, eq_iff, sym, arith, Bool-cases,
}
use mathlib.Core.Path.{subst}
use mathlib.Core.Option.{some-injective}
use kufi_e_wallet_with_hyper.Prelude.Int.{ℤ}
use kufi_e_wallet_with_hyper.Prelude.Rows.{find_one, save}
use kufi_e_wallet_with_hyper.Entities.{Wallet}
use kufi_e_wallet_with_hyper.Store.{owns}
use kufi_e_wallet_with_hyper.Books.{Apart, IsUnique}

abbrev pub wallet_id : Wallet → ℕ
wallet_id w = w.id

module _ {ℓ κ} {A : Type ℓ} (P : A → Type κ) where
  pub All-find_one : (p : A → Bool) (xs : List A) (x : A) → find_one p xs ≡ some x → All P xs → P x
  All-find_one p [] x e h = cc
  All-find_one p (y ∷ ys) x e h = elim (Bool-cases (p y)) [
    | inl hit ↦ subst P (some-injective y x (rw hit at e)) h.0
    | inr miss ↦ All-find_one p ys x (rw miss at e) h.1
  ]

  pub All-save : (key : A → ℕ) (r : A) (xs : List A) → P r → All P xs → All P (save key r xs)
  All-save key r [] h hs = (h, tt)
  All-save key r (x ∷ xs) h hs = ground (arith, All-save key r xs h hs.1)

module _ {ℓ} {A : Type ℓ} where
  pub find_one-append :
      (p : A → Bool) (xs ys : List A) (x : A)
      → find_one p xs ≡ some x
      → find_one p (xs ++ ys) ≡ some x
  find_one-append p [] ys x e = cc
  find_one-append p (y ∷ ys') ys x e = ground (arith, find_one-append p ys' ys x)

  pub find_one-append_none :
      (p : A → Bool) (xs ys : List A) → find_one p xs ≡ none → find_one p (xs ++ ys) ≡ find_one p ys
  find_one-append_none p [] ys e = refl
  find_one-append_none p (y ∷ ys') ys e = ground (arith, find_one-append_none p ys' ys)

module _ {ℓ} {A : Type ℓ} (key : A → ℕ) (r x : A) (xs : List A) where
  pub save_head : key x ≡ key r → save key r (x ∷ xs) ≡ r ∷ xs
  save_head e = ground arith

  pub save_tail : key x ≢ key r → save key r (x ∷ xs) ≡ x ∷ save key r xs
  save_tail h = ground arith

-- A saved wallet is found where its row was, by a test that reads no balance.
pub find_one-save_self :
    (p : Wallet → Bool) (ws : List Wallet) (w v : Wallet)
    → find_one p ws ≡ some w
    → IsUnique ws
    → v.id ≡ w.id
    → p v ≡ true
    → find_one p (save wallet_id v ws) ≡ some v
find_one-save_self p [] w v e u i h = cc
find_one-save_self p (x ∷ xs) w v e u i h =
    ground (arith, find_one-save_self p xs w v, All-find_one (Apart x) p xs w)

pub find_one-save_other :
    (p q : Wallet → Bool) (ws : List Wallet) (w v : Wallet)
    → find_one p ws ≡ some w
    → IsUnique ws
    → v.id ≡ w.id
    → q w ≡ false
    → q v ≡ false
    → find_one q (save wallet_id v ws) ≡ find_one q ws
find_one-save_other p q [] w v e u i h k = cc
find_one-save_other p q (x ∷ xs) w v e u i h k =
    ground (arith, find_one-save_other p q xs w v, All-find_one (Apart x) p xs w)

-- A test on the owner reads no balance.
owns-balance :
    (user currency : String) (w : Wallet) (b : ℤ)
    → owns user currency (record w { balance = b }) ≡ owns user currency w
unfolding owns
owns-balance user currency w b = refl

pub save-IsUnique :
    (p : Wallet → Bool) (ws : List Wallet) (w : Wallet) (b : ℤ)
    → find_one p ws ≡ some w
    → IsUnique ws
    → IsUnique (save wallet_id (record w { balance = b }) ws)
save-IsUnique p [] w b e u = cc
save-IsUnique p (x ∷ xs) w b e u = elim (Bool-cases (p x)) [
  | inl hit ↦
      let same = some-injective x w (rw hit at e) in
      rw (save_head wallet_id (record w { balance = b }) x xs (ap wallet_id same))
        (subst (λ y. All (Apart y) xs) same u.0, u.1)
  | inr miss ↦
      let found : find_one p xs ≡ some w = rw miss at e in
      let apart = All-find_one (Apart x) p xs w found u.0 in
      rw (save_tail wallet_id (record w { balance = b }) x xs (omega (arith, apart.0))) (
        All-save (Apart x) wallet_id (record w { balance = b }) xs
            (apart.0, rw (owns-balance x.user_id x.currency w b) apart.1) u.0,
        save-IsUnique p xs w b found u.1,
      )
]

-- Two owners have two wallets.
owners_apart :
    (p q : Wallet → Bool) (ws : List Wallet) (w v : Wallet)
    → find_one p ws ≡ some w
    → find_one q ws ≡ some v
    → IsUnique ws
    → p v ≡ false
    → p w ≡ true
    → v.id ≢ w.id
owners_apart p q [] w v e f u h k = cc
owners_apart p q (x ∷ xs) w v e f u h k =
    ground
      (arith, owners_apart p q xs w v, All-find_one (Apart x) p xs w, All-find_one (Apart x) q xs v)

module _ {ℓ} {A : Type ℓ} where
  -- What is found passes the test.
  pub find_one-passes : (p : A → Bool) (xs : List A) (x : A) → find_one p xs ≡ some x → p x ≡ true
  find_one-passes p [] x e = cc
  find_one-passes p (y ∷ ys) x e = ground (arith, find_one-passes p ys x)

owns_comm : (w v : Wallet) → owns w.user_id w.currency v ≡ owns v.user_id v.currency w
unfolding owns
owns_comm w v = ground (
  arith,
  eq_iff v.user_id w.user_id,
  eq_iff w.user_id v.user_id,
  eq_iff v.currency w.currency,
  eq_iff w.currency v.currency,
)

-- A new key and a new owner keep the table unique.
pub append-IsUnique :
    (ws : List Wallet) (w : Wallet)
    → find_one (owns w.user_id w.currency) ws ≡ none
    → All (λ v. v.id ≢ w.id) ws
    → IsUnique ws
    → IsUnique (ws ++ w ∷ [])
append-IsUnique [] w f k u = (tt, tt)
append-IsUnique (x ∷ xs) w f k u = elim (Bool-cases (owns w.user_id w.currency x)) [
  | inl taken ↦ ground arith
  | inr free ↦ (
    All-append (Apart x) xs (w ∷ []) u.0 ((λ e. k.0 (sym e), rw (owns_comm x w) free), tt),
    append-IsUnique xs w (rw free at f) k.1 u.1,
  )
]
