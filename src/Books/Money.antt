-- ===== src/Books/Money.antt =====
-- What a method does to the books: it leaves the money, or adds an amount to one currency.
use kufi_e_wallet_with_hyper.Prelude.{
  ℕ, ◌≡◌, refl, ap, String, str_eq, Bool, true, none, some, List, [], ◌∷◌, ◌++◌, ◌⊎◌, inr, ◌≤◌, ltb,
  false, is_some, if◌then◌else◌, arith, eq_iff, eq_refl, ◌&&◌,
}
use kufi_e_wallet_with_hyper.Prelude.Int.{ℤ, pos, ◌+ℤ◌, ◌-ℤ◌, ◌≤ℤ◌, ltb_ℤ, int_laws}
use kufi_e_wallet_with_hyper.Prelude.Rows.{find_one, save}
use kufi_e_wallet_with_hyper.Entities.{Wallet, LedgerEntry}
use kufi_e_wallet_with_hyper.Store.{
  Store, Result, ok, err, Env, owns, wallet_of, insert_wallet, new_wallet, transaction_of_key,
}
use kufi_e_wallet_with_hyper.Wallets.{signed_amount}
use kufi_e_wallet_with_hyper.Books.{IsSound, IsSoundStore, IsSolvent, IsFresh, total}
use kufi_e_wallet_with_hyper.Books.Lookup.{
  wallet_id, find_one-append, find_one-append_none, find_one-passes,
}
use kufi_e_wallet_with_hyper.Books.Posting.{
  posted, post-IsSound, open-IsSound, total-save, total-append,
}

-- The store `t` is sound, and has the money, the ledger and the transactions of `s`.
pub record IsSameMoney (s t : Store) : Type 0 where
  pub sound : IsSoundStore t
  pub totals : (currency : String) → total currency t.wallets ≡ total currency s.wallets
  pub kept :
      (p : Wallet → Bool) (w : Wallet)
      → find_one p s.wallets ≡ some w
      → find_one p t.wallets ≡ some w
  pub same_ledger : t.ledger ≡ s.ledger
  pub same_transactions : t.transactions ≡ s.transactions

-- Sound books with so much more of one currency than the wallets before, and as much of any other.
pub record IsCredited (currency : String) (amount : ℤ) (before after : List Wallet)
    (ledger : List LedgerEntry) : Type 0 where
  pub sound : IsSound after ledger
  pub raised :
      (c : String)
      → total c after ≡ (if str_eq currency c then total c before +ℤ amount else total c before)

abbrev pub Credited : String → ℤ → Store → Store → Type 0
Credited currency amount s t = IsCredited currency amount s.wallets t.wallets t.ledger

-- A method that adds so much of one currency to the wallets, or throws and leaves sound books.
abbrev pub Credits : {A : Type 0} → String → ℤ → Store → Result A × Store → Type 0
Credits currency amount s (ok _, t) = Credited currency amount s t
Credits currency amount s (err _, t) = IsSoundStore t

and_right : (a b : Bool) → (a && b) ≡ true → b ≡ true
and_right a b h = ground arith

owned_currency :
    (user currency : String) (s : Store) (w : Wallet)
    → wallet_of user currency s ≡ some w
    → w.currency ≡ currency
unfolding owns
owned_currency user currency s w found =
    (eq_iff w.currency currency).0
      (and_right _ _ (find_one-passes (owns user currency) s.wallets w found))

-- The wallet of a user is posted to, with its entry.
pub post-Credited :
    (user currency : String) (s : Store) (w : Wallet) (e : LedgerEntry)
    → wallet_of user currency s ≡ some w
    → e.wallet_id ≡ w.id
    → e.balance_before ≡ w.balance
    → IsSolvent (posted s.ledger e w)
    → IsSoundStore s
    → IsCredited currency
        (signed_amount e)
        s.wallets
        (save wallet_id (posted s.ledger e w) s.wallets)
        (s.ledger ++ e ∷ [])
post-Credited user currency s w e found i b n h = record {
  sound = post-IsSound (owns user currency) s.wallets s.ledger w e found i b n h;
  raised = λ c.
      rw
        (
          total-save c (owns user currency) s.wallets w (w.balance +ℤ signed_amount e) found
              h.unique,
          owned_currency user currency s w found,
        )
        (ap (λ t. if str_eq currency c then total c s.wallets +ℤ t else total c s.wallets)
          (omega int_laws));
}

pub same_money : (s : Store) → IsSoundStore s → IsSameMoney s s
same_money s h = record {
  sound = h;
  totals = λ c. refl;
  kept = λ p w found. found;
  same_ledger = refl;
  same_transactions = refl;
}

pub Credited-after :
    (s t u : Store) (currency : String) (amount : ℤ)
    → IsSameMoney s t
    → Credited currency amount t u
    → Credited currency amount s u
Credited-after s t u currency amount h k = record {
  sound = k.sound;
  raised = λ c. rw (k.raised c, h.totals c);
}

-- The wallet that is locked is the user's wallet in the table.
abbrev pub Opens : String → String → Store → Result Wallet × Store → Type 0
Opens user currency s (err e, t) = t ≡ s
Opens user currency s (ok w, t) = (wallet_of user currency t ≡ some w) × IsSameMoney s t

pub owns_new :
    (env : Env) (user currency : String) → owns user currency (new_wallet env user currency) ≡ true
unfolding owns
owns_new env user currency = rw (eq_refl user, eq_refl currency)

pub insert-Opens :
    (env : Env) (user currency : String) (s : Store)
    → wallet_of user currency s ≡ none
    → IsSoundStore s
    → IsFresh env.wallet_key s
    → Opens user currency s (insert_wallet (new_wallet env user currency) s)
unfolding insert_wallet
insert-Opens env user currency s missing h f =
    let w = new_wallet env user currency in
    rw missing (
      rw (find_one-append_none (owns user currency) s.wallets (w ∷ []) missing)
          (rw (owns_new env user currency)),
      record {
        sound = open-IsSound s.wallets s.ledger w missing f.new_wallet f.new_entries refl h;
        totals = λ c. total-append c s.wallets w refl;
        kept = λ p v found. find_one-append p s.wallets (w ∷ []) v found;
        same_ledger = refl;
        same_transactions = refl;
      },
    )

pub credited_solvent : (b : ℤ) (a : ℕ) → pos 0 ≤ℤ b → pos 0 ≤ℤ b +ℤ pos a
credited_solvent b a h = omega int_laws

not_ltb : (a b : ℕ) → ltb a b ≡ false → b ≤ a
not_ltb a b h = ground arith

pub debited_solvent : (b : ℤ) (a : ℕ) → ltb_ℤ b (pos a) ≡ false → pos 0 ≤ℤ b +ℤ (pos 0 -ℤ pos a)
debited_solvent b a h = omega (int_laws, not_ltb _ _ h)

pub debit_eq : (b : ℤ) (a : ℕ) → b -ℤ pos a ≡ b +ℤ (pos 0 -ℤ pos a)
debit_eq b a = omega int_laws

-- Inside the DB transaction: what is thrown is rolled back with all that was written.
abbrev pub Booked : {A : Type 0} → String → ℤ → Store → Result A × Store → Type 0
Booked currency amount s (ok a, t) = Credited currency amount s t
Booked currency amount s (err e, t) = Unit

-- The body of a DB transaction for a key: known already, or booked now.
abbrev pub BookedFor : {A : Type 0} → String → String → ℤ → Store → Result A × Store → Type 0
BookedFor key currency amount s (err e, t) = Unit
BookedFor key currency amount s (ok a, t) =
    ((is_some (transaction_of_key key s) ≡ true) × (t ≡ s))
    ⊎ ((is_some (transaction_of_key key s) ≡ false) × Credited currency amount s t)

-- The DB transaction: it may also be rolled back, and then changes nothing.
abbrev pub Persists : {A : Type 0} → String → String → ℤ → Store → Result A × Store → Type 0
Persists key currency amount s (err e, t) = t ≡ s
Persists key currency amount s (ok a, t) = BookedFor key currency amount s (ok a, t)

pub books_new :
    {A : Type 0} (key currency : String) (amount : ℤ) (s : Store) (p : Result A × Store)
    → transaction_of_key key s ≡ none
    → Booked currency amount s p
    → BookedFor key currency amount s p
books_new key currency amount s (ok a, t) new c = inr (rw new, c)
books_new key currency amount s (err e, t) new c = tt

-- Neither the wallets nor the ledger are written.
abbrev pub SameBooks : Store → Store → Type 0
SameBooks s t = (t.wallets ≡ s.wallets) × (t.ledger ≡ s.ledger)

abbrev pub Aside : {A : Type 0} → Store → Result A × Store → Type 0
Aside s (r, t) = SameBooks s t

-- A whole call: an answer to a known key, an answer after its money is booked, or an error, before
-- or after the booking.
abbrev pub Answers : {A : Type 0} → String → String → ℤ → Store → Result A × Store → Type 0
Answers key currency amount s (ok a, t) = BookedFor key currency amount s (ok a, t)
Answers key currency amount s (err e, t) = SameBooks s t ⊎ Credited currency amount s t

pub Answers-Aside :
    {A : Type 0} (key currency : String) (amount : ℤ) (s t : Store) (p : Result A × Store)
    → transaction_of_key key s ≡ none
    → Credited currency amount s t
    → Aside t p
    → Answers key currency amount s p
Answers-Aside key currency amount s t (ok a, u) new c same = inr (rw new, ground (arith, c, same))
Answers-Aside key currency amount s t (err e, u) new c same = inr (ground (arith, c, same))

pub booked_new :
    {A : Type 0} (a : A) (key currency : String) (amount : ℤ) (s t : Store)
    → transaction_of_key key s ≡ none
    → BookedFor key currency amount s (ok a, t)
    → Credited currency amount s t
booked_new a key currency amount s t new booked = ground (arith, new, booked)
