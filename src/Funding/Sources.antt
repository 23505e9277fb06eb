-- ===== src/Funding/Sources.antt =====
-- createFundingSource, with whatever other calls commit between its look and its insert.
use kufi_e_wallet_with_hyper.Prelude.{
  ◌≡◌, refl, Option, String, eq_refl, true, none, some, List, [], ◌∷◌, ◌++◌, arith,
}
use kufi_e_wallet_with_hyper.Prelude.Rows.{find_one}
use kufi_e_wallet_with_hyper.Entities.{FundingSource, FundingSourceStatus}
use kufi_e_wallet_with_hyper.Store.{Store, Result, ok, err, Env, Method, pure, on_query_failed}
use kufi_e_wallet_with_hyper.Requests.{CreateFundingSourceRequest, validate_create_funding_source}
use kufi_e_wallet_with_hyper.Funding.{
  hash_account_ref, same_account, source_of_account, insert_funding_source, source_row,
  find_duplicate, create_funding_source,
}
use kufi_e_wallet_with_hyper.Books.Lookup.{find_one-append_none}

-- What createFundingSource does, by what the table has for the account at its look, and by what the
-- others have made of the table when it inserts: it returns the source that is there, or the one that
-- another call has added meanwhile, and changes nothing; or it adds an active source, and nothing else.
pub data Registers (user provider hash : String) (before meanwhile : Store) (f : FundingSource)
    (t : Store) : Type 0 where
  was_there :
      source_of_account user provider hash before ≡ some f
      → t ≡ before
      → Registers user provider hash before meanwhile f t
  lost_race :
      source_of_account user provider hash before ≡ none
      → source_of_account user provider hash meanwhile ≡ some f
      → t ≡ meanwhile
      → Registers user provider hash before meanwhile f t
  added :
      source_of_account user provider hash before ≡ none
      → source_of_account user provider hash meanwhile ≡ none
      → f.status ≡ FundingSourceStatus.active
      → t ≡ record meanwhile { funding_sources = meanwhile.funding_sources ++ f ∷ [] }
      → Registers user provider hash before meanwhile f t

-- A source is returned, it is the one that the table has for the account, and it is registered as above.
abbrev pub ReturnsSource :
    String → String → String → Store → Store → Result FundingSource × Store → Type 0
ReturnsSource user provider hash before meanwhile (ok f, t) =
    (source_of_account user provider hash t ≡ some f)
    × Registers user provider hash before meanwhile f t
ReturnsSource user provider hash before meanwhile (err e, t) = ⊥

same_account-source_row :
    (env : Env) (r : CreateFundingSourceRequest)
    → same_account r.user_id r.provider
        (hash_account_ref env r.provider r.account_ref)
        (source_row env r)
      ≡ true
unfolding same_account
same_account-source_row env r =
    rw
      (
        eq_refl r.user_id,
        eq_refl r.provider,
        eq_refl (hash_account_ref env r.provider r.account_ref),
      )
      refl

find_new :
    (env : Env) (r : CreateFundingSourceRequest) (fs : List FundingSource)
    → find_one
        (same_account r.user_id r.provider (hash_account_ref env r.provider r.account_ref))
        fs
      ≡ none
    → find_one
        (same_account r.user_id r.provider (hash_account_ref env r.provider r.account_ref))
        (fs ++ source_row env r ∷ [])
      ≡ some (source_row env r)
find_new env r fs missing =
    rw
      (find_one-append_none
        (same_account r.user_id r.provider (hash_account_ref env r.provider r.account_ref)) fs
        (source_row env r ∷ []) missing)
      (rw (same_account-source_row env r) refl)

find_duplicate_there :
    (user provider hash : String) (s : Store) (f : FundingSource)
    → source_of_account user provider hash s ≡ some f
    → find_duplicate user provider hash s ≡ (ok f, s)
unfolding find_duplicate
find_duplicate_there user provider hash s f h = ground (arith, h)

module _ (env : Env) (r : CreateFundingSourceRequest) (before meanwhile : Store) where
  abbrev account_hash : String
  account_hash = hash_account_ref env r.provider r.account_ref

  insert_after :
      source_of_account r.user_id r.provider account_hash before ≡ none
      → (found : Option FundingSource)
      → source_of_account r.user_id r.provider account_hash meanwhile ≡ found
      → ReturnsSource r.user_id r.provider account_hash before meanwhile (
          on_query_failed
            (find_duplicate r.user_id r.provider account_hash)
            (insert_funding_source (source_row env r) meanwhile))
  unfolding insert_funding_source
  insert_after absent (some f) there =
      rw (there, find_duplicate_there r.user_id r.provider account_hash meanwhile f there)
        (there, lost_race absent there refl)
  insert_after absent none free =
      rw free (find_new env r meanwhile.funding_sources free, added absent free refl refl)

-- For a request that passes the validator, createFundingSource does not throw, whatever other calls do
-- between its look and its insert, and returns the source that the table has for the user, the provider
-- and the hash of the account afterwards. That is the source that was there, with no table changed; or
-- else the one that the others have added meanwhile, with the tables as the others have left them; or
-- else a new active source, which is all that is added to these: a source is only added where the table
-- has none for the account.
pub create_funding_source-Returns :
    (env : Env) (others : Store → Store) (request : CreateFundingSourceRequest) (s : Store)
    {r : CreateFundingSourceRequest}
    → validate_create_funding_source request ≡ ok r
    → ReturnsSource r.user_id r.provider
        (hash_account_ref env r.provider r.account_ref)
        s
        (others s)
        (create_funding_source env others request s)
unfolding create_funding_source
create_funding_source-Returns env others request s {r} accepted =
    rw accepted (looked (source_of_account r.user_id r.provider hash s) refl)
  where
    hash : String
    hash = hash_account_ref env r.provider r.account_ref

    looked :
        (found : Option FundingSource)
        → source_of_account r.user_id r.provider hash s ≡ found
        → ReturnsSource r.user_id r.provider hash s (others s) (
            (elim found as (λ _. Method FundingSource) [
              | some source ↦ pure source
              | none ↦ λ t.
                  on_query_failed
                    (find_duplicate r.user_id r.provider hash)
                    (insert_funding_source (source_row env r) (others t))
            ])
              s)
    looked (some f) there = (there, was_there there refl)
    looked none absent = insert_after env r s (others s) absent _ refl
