-- ===== src/Topups/Answers.antt =====
-- The whole of createTopupIntent: no money moves before the deposit is settled.
use kufi_e_wallet_with_hyper.Prelude.{
  ◌≡◌, refl, ap, String, Bool, true, false, none, some, arith, inl, if◌then◌else◌, str_eq, ◌∙◌,
}
use kufi_e_wallet_with_hyper.Prelude.Int.{ℤ, pos, ◌+ℤ◌, int_laws}
use kufi_e_wallet_with_hyper.Entities.{Wallet, TransactionEntity, FundingSource}
use kufi_e_wallet_with_hyper.Store.{
  Store, Result, ok, Env, Method, transaction_of_key, ◌>>=◌, insert_transaction,
}
use kufi_e_wallet_with_hyper.Store.Post.{bind_post, option_post, transactional_post}
use kufi_e_wallet_with_hyper.Requests.{
  TopupOrder, Number, CreateTopupIntentRequest, validate_create_topup_intent,
}
use kufi_e_wallet_with_hyper.Funding.{get_active_funding_source}
use kufi_e_wallet_with_hyper.Wallets.{get_wallet}
use kufi_e_wallet_with_hyper.Outbox.{enqueue_transaction_event}
use kufi_e_wallet_with_hyper.Chain.{anchor_to_chain}
use kufi_e_wallet_with_hyper.Partner.{submit_outside_transfer}
use kufi_e_wallet_with_hyper.Transfers.Answers.{submit_outside_transfer-Aside}
use kufi_e_wallet_with_hyper.Books.{IsSoundStore, IsFresh, total}
use kufi_e_wallet_with_hyper.Books.Money.{
  IsSameMoney, Booked, BookedFor, Persists, books_new, Credited, Opens, Aside, Answers,
  Answers-Aside, booked_new,
}
use kufi_e_wallet_with_hyper.Topups.{
  wallet_or_new, store_topup_for, store_topup, book_topup, existing_order, persist_topup_intent,
  anchor_if_failed, new_topup, finish_topup, answer_topup, Persisted, repeated_topup, topup_from,
  create_topup_intent,
}
use kufi_e_wallet_with_hyper.Topups.Keeps.{wallet_or_new-Opens}

plus_none : (b : Bool) (x : ℤ) → x ≡ (if b then x +ℤ pos 0 else x)
plus_none true x = omega int_laws
plus_none false x = refl

-- A wallet that is opened empty adds nothing.
same-Credited : (s t : Store) (currency : String) → IsSameMoney s t → Credited currency (pos 0) s t
same-Credited s t currency h = record {
  sound = h.sound;
  raised = λ c. h.totals c ∙ plus_none (str_eq currency c) (total c s.wallets);
}

store_topup_for-Booked :
    (env : Env) (o : TopupOrder) (source : FundingSource) (w : Wallet) (s t : Store)
    → IsSameMoney s t
    → Booked o.currency (pos 0) s (store_topup_for env o source w t)
unfolding store_topup_for insert_transaction
store_topup_for-Booked env o source w s t h = ground (arith, same-Credited s t o.currency h)

store_topup-Booked :
    (env : Env) (o : TopupOrder) (source : FundingSource) (s : Store)
    → IsSoundStore s
    → IsFresh env.wallet_key s
    → Booked o.currency (pos 0) s (store_topup env o source s)
unfolding store_topup
store_topup-Booked env o source s h f =
    bind_post (wallet_or_new env o.user_id o.currency) (store_topup_for env o source) s
      (Opens o.user_id o.currency s) (Booked o.currency (pos 0) s)
      (wallet_or_new-Opens env o.user_id o.currency s h f)
      (λ w t q. store_topup_for-Booked env o source w s t q.1) (λ e t q. tt)

book_topup-BookedFor :
    (env : Env) (o : TopupOrder) (source : FundingSource) (s : Store)
    → IsSoundStore s
    → IsFresh env.wallet_key s
    → BookedFor o.idempotency_key o.currency (pos 0) s (book_topup env o source s)
unfolding book_topup existing_order
book_topup-BookedFor env o source s h f =
    option_post (transaction_of_key o.idempotency_key s) (store_topup env o source)
      (λ dup. existing_order o.user_id o.currency dup) s
      (BookedFor o.idempotency_key o.currency (pos 0) s)
      (λ new.
        books_new o.idempotency_key o.currency (pos 0) s _ new
          (store_topup-Booked env o source s h f))
      (λ dup known. inl (rw known, refl))

persist_topup-Persists :
    (env : Env) (o : TopupOrder) (source : FundingSource) (s : Store)
    → IsSoundStore s
    → IsFresh env.wallet_key s
    → Persists o.idempotency_key o.currency (pos 0) s (persist_topup_intent env o source s)
unfolding persist_topup_intent
persist_topup-Persists env o source s h f =
    transactional_post (book_topup env o source) s
      (BookedFor o.idempotency_key o.currency (pos 0) s)
      (Persists o.idempotency_key o.currency (pos 0) s) (book_topup-BookedFor env o source s h f)
      (λ a t m. m) (λ e. refl)

anchor_to_chain-Aside :
    (env : Env) (tx : TransactionEntity) (s : Store) → Aside s (anchor_to_chain env tx s)
unfolding anchor_to_chain
anchor_to_chain-Aside env tx s = ground arith

anchor_if_failed-Aside :
    (env : Env) (tx : TransactionEntity) (s : Store) → Aside s (anchor_if_failed env tx s)
unfolding anchor_if_failed
anchor_if_failed-Aside env tx s = ground (arith, anchor_to_chain-Aside env tx s)

then-Aside :
    {A B : Type 0} (m : Method A) (f : A → Method B) (s : Store)
    → Aside s (m s)
    → ((a : A) (t : Store) → Aside t (f a t))
    → Aside s ((m >>= f) s)
then-Aside m f s h k =
    bind_post m f s (Aside s) (Aside s) h (λ a t q. ((k a t).0 ∙ q.0, (k a t).1 ∙ q.1)) (λ e t q. q)

finish_topup-Aside : (env : Env) (p : Persisted) (s : Store) → Aside s (finish_topup env p s)
unfolding finish_topup answer_topup enqueue_transaction_event
finish_topup-Aside env p s =
    then-Aside (submit_outside_transfer env p.transaction)
      (λ submitted. anchor_if_failed env submitted >>= answer_topup env p) s
      (submit_outside_transfer-Aside env p.transaction s)
      (λ tx t.
        then-Aside (anchor_if_failed env tx) (answer_topup env p) t
          (anchor_if_failed-Aside env tx t) (λ saved u. (refl, refl)))

new_topup-Answers :
    (env : Env) (o : TopupOrder) (source : FundingSource) (s : Store)
    → transaction_of_key o.idempotency_key s ≡ none
    → IsSoundStore s
    → IsFresh env.wallet_key s
    → Answers o.idempotency_key o.currency (pos 0) s (new_topup env o source s)
unfolding new_topup
new_topup-Answers env o source s new h f =
    bind_post (persist_topup_intent env o source) (finish_topup env) s
      (Persists o.idempotency_key o.currency (pos 0) s)
      (Answers o.idempotency_key o.currency (pos 0) s) (persist_topup-Persists env o source s h f)
      (λ p t booked.
        Answers-Aside o.idempotency_key o.currency (pos 0) s t (finish_topup env p t) new
          (booked_new p o.idempotency_key o.currency (pos 0) s t new booked)
          (finish_topup-Aside env p t))
      (λ e t same. inl (ap (λ u. u.wallets) same, ap (λ u. u.ledger) same))

repeated_topup-Answers :
    (o : TopupOrder) (dup : TransactionEntity) (s : Store) (amount : ℤ)
    → transaction_of_key o.idempotency_key s ≡ some dup
    → Answers o.idempotency_key o.currency amount s (repeated_topup o dup s)
unfolding repeated_topup get_wallet
repeated_topup-Answers o dup s amount known = ground arith

topup_from-Answers :
    (env : Env) (o : TopupOrder) (source : FundingSource) (s : Store)
    → IsSoundStore s
    → IsFresh env.wallet_key s
    → Answers o.idempotency_key o.currency (pos 0) s (topup_from env o source s)
unfolding topup_from
topup_from-Answers env o source s h f =
    option_post (transaction_of_key o.idempotency_key s) (new_topup env o source)
      (λ dup. repeated_topup o dup) s (Answers o.idempotency_key o.currency (pos 0) s)
      (λ new. new_topup-Answers env o source s new h f)
      (λ dup known. repeated_topup-Answers o dup s (pos 0) known)

-- The look for the funding source changes nothing.
abbrev pub Looks : {A : Type 0} → Store → Result A × Store → Type 0
Looks s (r, t) = t ≡ s

pub get_active_funding_source-Looks :
    (user id : String) (s : Store) → Looks s (get_active_funding_source user id s)
unfolding get_active_funding_source
get_active_funding_source-Looks user id s = ground arith

-- A top-up request that passes the validator adds nothing to any currency, on sound books and with
-- a key for a new wallet that is not in use: an answer with a new idempotency key leaves sound
-- books with the money that there was; an answer with a known one leaves every table as it was;
-- after an error the wallets and the ledger are as they were, or sound with the same money.
pub create_topup_intent-Answers :
    (env : Env) (to_number : String → Number) (r : CreateTopupIntentRequest) (s : Store)
    {o : TopupOrder}
    → validate_create_topup_intent to_number r ≡ ok o
    → IsSoundStore s
    → IsFresh env.wallet_key s
    → Answers o.idempotency_key o.currency (pos 0) s (create_topup_intent env to_number r s)
unfolding create_topup_intent
create_topup_intent-Answers env to_number r s {o} accepted h f = rw accepted (
    bind_post (get_active_funding_source o.user_id o.funding_source_id) (topup_from env o) s
      (Looks s) (Answers o.idempotency_key o.currency (pos 0) s)
      (get_active_funding_source-Looks o.user_id o.funding_source_id s)
      (λ source t same. rw same (topup_from-Answers env o source s h f))
      (λ e t same. inl (ap (λ u. u.wallets) same, ap (λ u. u.ledger) same)))
