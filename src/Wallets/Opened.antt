-- ===== src/Wallets/Opened.antt =====
-- createWallet, with whatever other calls commit between its look and its insert.
use kufi_e_wallet_with_hyper.Prelude.{
  ◌≡◌, refl, Option, String, none, some, List, [], ◌∷◌, ◌++◌, arith,
}
use kufi_e_wallet_with_hyper.Prelude.Int.{pos}
use kufi_e_wallet_with_hyper.Prelude.Rows.{find_one}
use kufi_e_wallet_with_hyper.Entities.{Wallet}
use kufi_e_wallet_with_hyper.Store.{
  Store, Result, ok, err, Env, Method, pure, on_query_failed, owns, wallet_of, insert_wallet,
  new_wallet,
}
use kufi_e_wallet_with_hyper.Requests.{normalize_currency}
use kufi_e_wallet_with_hyper.Wallets.{find_existing, create_wallet}
use kufi_e_wallet_with_hyper.Books.Lookup.{find_one-append_none}
use kufi_e_wallet_with_hyper.Books.Money.{owns_new}

-- What createWallet does, by what the table has for the user and the currency at its look, and by what
-- the others have made of the table when it inserts: it returns the wallet that is there, or the one
-- that another call has made meanwhile, and changes nothing; or it adds a wallet with no money, and
-- nothing else.
pub data Opens (env : Env) (user currency : String) (before meanwhile : Store) (w : Wallet)
    (t : Store) : Type 0 where
  was_there :
      wallet_of user currency before ≡ some w
      → t ≡ before
      → Opens env user currency before meanwhile w t
  lost_race :
      wallet_of user currency before ≡ none
      → wallet_of user currency meanwhile ≡ some w
      → t ≡ meanwhile
      → Opens env user currency before meanwhile w t
  opened :
      wallet_of user currency before ≡ none
      → wallet_of user currency meanwhile ≡ none
      → w.balance ≡ pos 0
      → t ≡ record meanwhile { wallets = meanwhile.wallets ++ w ∷ [] }
      → Opens env user currency before meanwhile w t

-- A wallet is returned, it is the user's wallet in the table, and it is opened as above.
abbrev pub Returns : Env → String → String → Store → Store → Result Wallet × Store → Type 0
Returns env user currency before meanwhile (ok w, t) =
    (wallet_of user currency t ≡ some w) × Opens env user currency before meanwhile w t
Returns env user currency before meanwhile (err e, t) = ⊥

find_new :
    (env : Env) (user currency : String) (ws : List Wallet)
    → find_one (owns user currency) ws ≡ none
    → find_one (owns user currency) (ws ++ new_wallet env user currency ∷ [])
      ≡ some (new_wallet env user currency)
find_new env user currency ws missing =
    rw (find_one-append_none (owns user currency) ws (new_wallet env user currency ∷ []) missing)
      (rw (owns_new env user currency) refl)

find_existing_there :
    (user currency : String) (s : Store) (w : Wallet)
    → wallet_of user currency s ≡ some w
    → find_existing user currency s ≡ (ok w, s)
unfolding find_existing
find_existing_there user currency s w h = ground (arith, h)

insert_after :
    (env : Env) (user currency : String) (before meanwhile : Store)
    → wallet_of user currency before ≡ none
    → (found : Option Wallet) → wallet_of user currency meanwhile ≡ found
    → Returns env user currency before meanwhile (
        on_query_failed
          (find_existing user currency)
          (insert_wallet (new_wallet env user currency) meanwhile))
unfolding find_existing insert_wallet
insert_after env user currency before meanwhile absent (some w) there =
    rw (there, find_existing_there user currency meanwhile w there)
      (there, lost_race absent there refl)
insert_after env user currency before meanwhile absent none free =
    rw free (find_new env user currency meanwhile.wallets free, opened absent free refl refl)

-- For a currency that is accepted, createWallet does not throw, whatever other calls do between its
-- look and its insert, and returns the wallet that the table has for the user and the currency
-- afterwards. That is the wallet that was there, with no table changed; or else the one that the others
-- have made meanwhile, with the tables as the others have left them; or else a new wallet with no money,
-- which is all that is added to these.
pub create_wallet-Returns :
    (env : Env) (others : Store → Store) (user currency_raw : String) (s : Store)
    {currency : String}
    → normalize_currency currency_raw ≡ ok currency
    → Returns env user currency s (others s) (create_wallet env others user currency_raw s)
unfolding create_wallet
create_wallet-Returns env others user currency_raw s {currency} accepted =
    rw accepted (looked (wallet_of user currency s) refl)
  where
    looked :
        (found : Option Wallet)
        → wallet_of user currency s ≡ found
        → Returns env user currency s (others s) (
            (elim found as (λ _. Method Wallet) [
              | some wallet ↦ pure wallet
              | none ↦ λ t.
                  on_query_failed
                    (find_existing user currency)
                    (insert_wallet (new_wallet env user currency) (others t))
            ])
              s)
    looked (some w) there = (there, was_there there refl)
    looked none absent = insert_after env user currency s (others s) absent _ refl
