-- ===== src/Poller/Reports.antt =====
-- What the settlement service reports, and how it counts.
use kufi_e_wallet_with_hyper.Prelude.{
  ℕ, ◌+◌, ◌≡◌, refl, String, str_eq, Bool, true, false, ◌||◌, ◌⊎◌, inl, inr, Option, none, some,
  List, [], ◌∷◌, length, max, min, or_else, arith, Bool-cases,
}
use kufi_e_wallet_with_hyper.Prelude.Text.{is_empty}
use kufi_e_wallet_with_hyper.Store.{Reply, response, failure}
use kufi_e_wallet_with_hyper.Poller.{
  Candidate, CheckTransferResponse, TransactionService, Verdict, SettlementStats, no_stats,
  PollerConfig, count, report, follow_partner, process_candidate, process_items,
  reconcile_pending_transfers,
}

abbrev counted : SettlementStats → ℕ
counted st = st.settled + st.failed + st.skipped + st.errors

count-one : (v : Option Verdict) (st : SettlementStats) → counted (count v st) ≡ counted st + 1
unfolding count
count-one (some Verdict.settled) st = omega arith
count-one (some Verdict.failed) st = omega arith
count-one (some Verdict.skipped) st = omega arith
count-one none st = omega arith

count-scanned : (v : Option Verdict) (st : SettlementStats) → (count v st).scanned ≡ st.scanned
unfolding count
count-scanned (some Verdict.settled) st = refl
count-scanned (some Verdict.failed) st = refl
count-scanned (some Verdict.skipped) st = refl
count-scanned none st = refl

module _ {S : Type 0} (svc : TransactionService S)
    (check_transfer : String → String → Reply CheckTransferResponse) where
  process_items-counted :
      (items : List Candidate) (st : SettlementStats) (s : S)
      → (counted (process_items svc check_transfer items st s).0 ≡ counted st + length items)
        × ((process_items svc check_transfer items st s).0.scanned ≡ st.scanned)
  unfolding process_items
  process_items-counted [] st s = (omega arith, refl)
  process_items-counted (item ∷ rest) st s =
      let step = process_candidate svc check_transfer item s in
      let later = process_items-counted rest (count step.0 st) step.1 in
      (omega (arith, later.0, count-one step.0 st), omega (arith, later.1, count-scanned step.0 st))

  -- Each candidate is counted once.
  abbrev pub CountsAll : Option SettlementStats × S → Type 0
  CountsAll (none, t) = Unit
  CountsAll (some st, t) = st.scanned ≡ st.settled + st.failed + st.skipped + st.errors

  -- A round that does not throw counts every candidate that it has scanned once, as settled, failed,
  -- skipped or an error, whatever the partners and the transaction service answer.
  pub reconcile_pending_transfers-CountsAll :
      (cfg : PollerConfig) (ready : Bool) (limit : Option ℕ) (s : S)
      → CountsAll (reconcile_pending_transfers svc check_transfer cfg ready limit s)
  unfolding reconcile_pending_transfers
  reconcile_pending_transfers-CountsAll cfg false limit s = refl
  reconcile_pending_transfers-CountsAll cfg true limit s = listed (
      svc.list_settlement_candidates (max 1 (min (or_else limit cfg.settlement_batch_size) 1000)) s)
    where
      listed :
          (p : Reply (List Candidate) × S)
          → CountsAll (
              let (reply, t) = p in
              elim reply as (λ _. Option SettlementStats × S) [
                | failure _ ↦ (none, t)
                | response items ↦
                    let (st, u) =
                      process_items svc check_transfer items
                        (record no_stats { scanned = length items })
                        t in
                    (some st, u)
              ])
      listed (failure m, t) = tt
      listed (response items, t) =
          let all = process_items-counted items (record no_stats { scanned = length items }) t in
          omega (arith, all.0, all.1)

  -- A status is reported, with a verdict unless the call throws.
  abbrev Reported :
      Candidate → String → String → Verdict → Option Verdict → S → Option Verdict × S → Type 0
  Reported item status note verdict thrown s p =
      (p.1 ≡ (svc.mark_settlement item.transaction_id status note s).1)
      × ((p.0 ≡ some verdict) ⊎ (p.0 ≡ thrown))

  -- Why a candidate is handled in the way it is, and what has been reported of it.
  pub data Handled (item : Candidate) (s : S) (p : Option Verdict × S) : Type 0 where
    missing :
        (is_empty item.external_partner || is_empty item.external_ref) ≡ true
        → Reported item "FAILED" "Missing external references" Verdict.failed none s p
        → Handled item s p
    reported_settled :
        (r : CheckTransferResponse)
        → check_transfer item.external_partner item.external_ref ≡ response r
        → str_eq r.status "SETTLED" ≡ true
        → Reported item "SETTLED" r.partner_message Verdict.settled (some Verdict.skipped) s p
        → Handled item s p
    reported_failed :
        (r : CheckTransferResponse)
        → check_transfer item.external_partner item.external_ref ≡ response r
        → str_eq r.status "FAILED" ≡ true
        → Reported item "FAILED" r.partner_message Verdict.failed (some Verdict.skipped) s p
        → Handled item s p
    undecided :
        (r : CheckTransferResponse)
        → check_transfer item.external_partner item.external_ref ≡ response r
        → (str_eq r.status "SETTLED" || str_eq r.status "FAILED") ≡ false
        → p ≡ (some Verdict.skipped, s)
        → Handled item s p
    unreachable :
        (m : String)
        → check_transfer item.external_partner item.external_ref ≡ failure m
        → p ≡ (some Verdict.skipped, s)
        → Handled item s p

  report-Reported :
      (item : Candidate) (status note : String) (verdict : Verdict) (thrown : Option Verdict)
      (s : S)
      → Reported item status note verdict thrown s
          (report svc check_transfer item status note verdict thrown s)
  unfolding report
  report-Reported item status note verdict thrown s =
      answered (svc.mark_settlement item.transaction_id status note s)
    where
      answered :
          (q : Reply Bool × S)
          → ((let (reply, t) = q in
                elim reply as (λ _. Option Verdict × S) [
                  | response _ ↦ (some verdict, t)
                  | failure _ ↦ (thrown, t)
                ]).1
              ≡ q.1)
            × (((let (reply, t) = q in
                    elim reply as (λ _. Option Verdict × S) [
                      | response _ ↦ (some verdict, t)
                      | failure _ ↦ (thrown, t)
                    ]).0
                  ≡ some verdict)
                ⊎ ((let (reply, t) = q in
                      elim reply as (λ _. Option Verdict × S) [
                        | response _ ↦ (some verdict, t)
                        | failure _ ↦ (thrown, t)
                      ]).0
                    ≡ thrown))
      answered (response b, t) = (refl, inl refl)
      answered (failure m, t) = (refl, inr refl)

  followed :
      (item : Candidate) (s : S) (reply : Reply CheckTransferResponse)
      → check_transfer item.external_partner item.external_ref ≡ reply
      → Handled item s (follow_partner svc check_transfer item reply s)
  unfolding follow_partner
  followed item s (failure m) said = Handled.unreachable m said refl
  followed item s (response r) said = elim (Bool-cases (str_eq r.status "SETTLED")) [
    | inl settled ↦ rw settled (
        Handled.reported_settled r said settled (
          report-Reported item "SETTLED" r.partner_message Verdict.settled (some Verdict.skipped)
            s))
    | inr open_yet ↦ elim (Bool-cases (str_eq r.status "FAILED")) [
      | inl failed ↦
          rw (open_yet, failed)
            (Handled.reported_failed r said failed (
              report-Reported item "FAILED" r.partner_message Verdict.failed (some Verdict.skipped)
                s))
      | inr neither ↦
          rw (open_yet, neither) (Handled.undecided r said (rw (open_yet, neither) refl) refl)
    ]
  ]

  -- A candidate is reported as SETTLED only if the partner says so, and as FAILED only if the partner
  -- says so or a reference to the partner is missing; if the partner cannot be asked or says
  -- something else, nothing is reported. At most one report is made of it.
  pub process_candidate-Handled :
      (item : Candidate) (s : S) → Handled item s (process_candidate svc check_transfer item s)
  unfolding process_candidate
  process_candidate-Handled item s =
      elim (Bool-cases (is_empty item.external_partner || is_empty item.external_ref)) [
        | inl lacking ↦ rw lacking (
            Handled.missing lacking
              (report-Reported item "FAILED" "Missing external references" Verdict.failed none s))
        | inr given ↦
            rw given (followed item s (check_transfer item.external_partner item.external_ref) refl)
      ]
