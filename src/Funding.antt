-- ===== src/Funding.antt =====
-- The funding sources of transactions.service.ts: createFundingSource, listFundingSources,
-- getActiveFundingSource, hashAccountRef and maskAccountRef.
pub mod Sources
use kufi_e_wallet_with_hyper.Prelude.{
  ◌-◌, String, str_eq, text_append, Bool, ◌&&◌, Option, none, some, List, [], ◌∷◌, ◌++◌, leb,
  if◌then◌else◌, is_some,
}
use kufi_e_wallet_with_hyper.Prelude.Text.{
  is_empty, or_none, trim, text_length, remove_spaces, take_units, drop_units,
}
use kufi_e_wallet_with_hyper.Prelude.Rows.{find_one, select, order_desc}
use kufi_e_wallet_with_hyper.Entities.{FundingSource, FundingSourceStatus, is_active_source}
use kufi_e_wallet_with_hyper.Store.{
  Store, Method, Env, ok, err, pure, throw, throw_if, gets, of_result, ◌>>=◌, ◌>>◌, bad_request,
  query_failed, on_query_failed,
}
use kufi_e_wallet_with_hyper.Requests.{CreateFundingSourceRequest, validate_create_funding_source}

unfoldable pub hash_account_ref : Env → String → String → String
hash_account_ref env provider account_ref =
    env.sha256_hex (text_append provider (text_append ":" account_ref))

unfoldable mask_account_ref : String → String
mask_account_ref account_ref =
    let compact = remove_spaces account_ref in
    if leb (text_length compact) 4
    then take_units 32 (text_append "***" compact)
    else text_append "****" (drop_units (text_length compact - 4) compact)

-- where: { userId, provider, accountRefHash }
same_account : String → String → String → FundingSource → Bool
same_account user provider hash f =
    str_eq f.user_id user && str_eq f.provider provider && str_eq f.account_ref_hash hash

abbrev source_of_account : String → String → String → Store → Option FundingSource
source_of_account user provider hash s =
    find_one (same_account user provider hash) s.funding_sources

-- The unique index on (userId, provider, accountRefHash) may refuse the row.
insert_funding_source : FundingSource → Method FundingSource
insert_funding_source f s =
    if is_some (source_of_account f.user_id f.provider f.account_ref_hash s)
    then (err query_failed, s)
    else (ok f, record s { funding_sources = s.funding_sources ++ f ∷ [] })

abbrev source_row : Env → CreateFundingSourceRequest → FundingSource
source_row env r = record {
  id = env.funding_key;
  user_id = r.user_id;
  provider = r.provider;
  account_ref_masked = mask_account_ref r.account_ref;
  account_ref_hash = hash_account_ref env r.provider r.account_ref;
  provider_token = or_none r.provider_token;
  display_name = or_none r.display_name;
  status = FundingSourceStatus.active;
  created_at = env.now;
}

-- The second look, after the insert was refused.
find_duplicate : String → String → String → Method FundingSource
find_duplicate user provider hash s = elim (source_of_account user provider hash s) [
  | some duplicate ↦ (ok duplicate, s)
  | none ↦ (err query_failed, s)
]

-- `others` is what other calls commit between the look and the insert.
pub create_funding_source :
    Env → (Store → Store) → CreateFundingSourceRequest → Method FundingSource
create_funding_source env others request = do
  r ← of_result (validate_create_funding_source request)
  let hash = hash_account_ref env r.provider r.account_ref
  existing ← gets (source_of_account r.user_id r.provider hash)
  elim existing [
    | some source ↦ pure source
    | none ↦ λ s.
        on_query_failed (find_duplicate r.user_id r.provider hash)
          (insert_funding_source (source_row env r) (others s))
  ]

unfoldable list_funding_sources : String → Method (List FundingSource)
list_funding_sources user_raw = do
  let user = trim user_raw
  throw_if (is_empty user) "userId is required"
  gets (λ s. order_desc (λ f. f.created_at) (select (λ f. str_eq f.user_id user) s.funding_sources))

-- where: { id, userId, status: ACTIVE }
unfoldable pub is_usable : String → String → FundingSource → Bool
is_usable user id f = str_eq f.id id && str_eq f.user_id user && is_active_source f.status

unfoldable pub get_active_funding_source : String → String → Method FundingSource
get_active_funding_source user id = do
  found ← gets (λ s. find_one (is_usable user id) s.funding_sources)
  elim found [
    | some source ↦ pure source
    | none ↦ throw (bad_request "Funding source not found or inactive")
  ]
