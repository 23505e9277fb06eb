-- ===== src/Store/Post.antt =====
-- Rules for what holds after a method: of its result, and of the tables that it leaves.
use kufi_e_wallet_with_hyper.Prelude.{String, Bool, true, false, Option, none, some, ◌≡◌, refl}
use kufi_e_wallet_with_hyper.Store.{
  Store, Error, Result, ok, err, Method, ◌>>=◌, transactional, throw_if, bad_request,
}

module _ {ℓ κ} {A B : Type 0} (m : Method A) (f : A → Method B) (s : Store)
    (Q : Result A × Store → Type ℓ) (P : Result B × Store → Type κ) where
  bind_from :
      (p : Result A × Store)
      → Q p
      → ((a : A) (t : Store) → Q (ok a, t) → P (f a t))
      → ((e : Error) (t : Store) → Q (err e, t) → P (err e, t))
      → P (let (r, t) = p in elim r [ ok a ↦ f a t | err e ↦ (err e, t) ])
  bind_from (ok a, t) q done thrown = done a t q
  bind_from (err e, t) q done thrown = thrown e t q

  -- The rule of sequence: `Q` holds between the two methods.
  pub bind_post :
      Q (m s)
      → ((a : A) (t : Store) → Q (ok a, t) → P (f a t))
      → ((e : Error) (t : Store) → Q (err e, t) → P (err e, t))
      → P ((m >>= f) s)
  bind_post = bind_from (m s)

module _ {ℓ κ} {A : Type 0} (m : Method A) (s : Store) (Q : Result A × Store → Type ℓ)
    (P : Result A × Store → Type κ) where
  transactional_from :
      (p : Result A × Store)
      → Q p
      → ((a : A) (t : Store) → Q (ok a, t) → P (ok a, t))
      → ((e : Error) → P (err e, s))
      → P (transactional (λ _. p) s)
  transactional_from (ok a, t) q done rolled = done a t q
  transactional_from (err e, t) q done rolled = rolled e

  -- A DB transaction commits what it has done, or leaves the tables as they were.
  pub transactional_post :
      Q (m s)
      → ((a : A) (t : Store) → Q (ok a, t) → P (ok a, t))
      → ((e : Error) → P (err e, s))
      → P (transactional m s)
  transactional_post = transactional_from (m s)

module _ {ℓ} {B : Type 0} (test : Bool) (message : String) (k : Method B) (s : Store)
    (P : Result B × Store → Type ℓ) where
  -- A guard passes where its test is false.
  pub guard_post :
      (test ≡ false → P (k s))
      → (test ≡ true → P (err (bad_request message), s))
      → P ((throw_if test message >>= λ _. k) s)
  guard_post pass stop = guard_from test refl
    where
      guard_from : (b : Bool) → test ≡ b → P ((throw_if test message >>= λ _. k) s)
      guard_from true e = rw e (stop e)
      guard_from false e = rw e (pass e)

module _ {ℓ κ} {A : Type ℓ} {B : Type 0} (o : Option A) (missing : Method B) (found : A → Method B)
    (s : Store) (P : Result B × Store → Type κ) where
  option_from :
      (p : Option A)
      → o ≡ p
      → (o ≡ none → P (missing s))
      → ((a : A) → o ≡ some a → P (found a s))
      → P ((elim p as (λ _. Method B) [ none ↦ missing | some a ↦ found a ]) s)
  option_from none e m f = m e
  option_from (some a) e m f = f a e

  -- A look that finds a row or none.
  pub option_post :
      (o ≡ none → P (missing s))
      → ((a : A) → o ≡ some a → P (found a s))
      → P ((elim o as (λ _. Method B) [ none ↦ missing | some a ↦ found a ]) s)
  option_post = option_from o refl
