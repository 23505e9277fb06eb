-- ===== src/Poller.antt =====
-- The settlement service, e-wallet/settlement-service/src/settlement/settlement.service.ts: it asks the
-- partners for the state of pending transfers and reports it to the transaction service.
pub mod Reports
use kufi_e_wallet_with_hyper.Prelude.{
  ℕ, ◌+◌, String, str_eq, Bool, true, false, not, ◌||◌, Option, none, some, List, [], ◌∷◌, length,
  max, min, if◌then◌else◌, or_else,
}
use kufi_e_wallet_with_hyper.Prelude.Text.{is_empty}
use kufi_e_wallet_with_hyper.Store.{Reply, response, failure}

pub record Candidate : Type 0 where
  pub transaction_id : ℕ
  pub external_partner : String
  pub external_ref : String

pub record CheckTransferResponse : Type 0 where
  pub status : String
  pub partner_message : String

pub record BalanceReport : Type 0 where
  pub scanned : ℕ
  pub mismatches : ℕ
  pub fixed : ℕ

-- The gRPC interface of the transaction service, over its state.
pub record TransactionService (S : Type 0) : Type 0 where
  pub list_settlement_candidates : ℕ → S → Reply (List Candidate) × S
  pub mark_settlement : ℕ → String → String → S → Reply Bool × S
  pub reconcile_wallets : ℕ → Bool → S → Reply BalanceReport × S

-- What processCandidate returns.
pub data Verdict : Type 0 where
  settled failed skipped : Verdict

pub record SettlementStats : Type 0 where
  pub scanned : ℕ
  pub settled : ℕ
  pub failed : ℕ
  pub skipped : ℕ
  pub errors : ℕ

abbrev no_stats : SettlementStats
no_stats = record { scanned = 0; settled = 0; failed = 0; skipped = 0; errors = 0 }

-- The settings, as whole numbers.
pub record PollerConfig : Type 0 where
  pub settlement_batch_size : ℕ
  pub reconcile_limit : ℕ
  pub reconcile_autofix : Bool

-- The counters after one result; none is a promise that was rejected.
count : Option Verdict → SettlementStats → SettlementStats
count (some Verdict.settled) st = record st { settled = st.settled + 1 }
count (some Verdict.failed) st = record st { failed = st.failed + 1 }
count (some Verdict.skipped) st = record st { skipped = st.skipped + 1 }
count none st = record st { errors = st.errors + 1 }

module _ {S : Type 0} (svc : TransactionService S)
    (check_transfer : String → String → Reply CheckTransferResponse) where
  -- A report, and what comes of it if the call throws.
  report : Candidate → String → String → Verdict → Option Verdict → S → Option Verdict × S
  report item status note verdict thrown s =
      let (reply, t) = svc.mark_settlement item.transaction_id status note s in
      elim reply [ response _ ↦ (some verdict, t) | failure _ ↦ (thrown, t) ]

  -- The branch of a candidate with its references, once the partner has answered.
  follow_partner : Candidate → Reply CheckTransferResponse → S → Option Verdict × S
  follow_partner item (failure _) s = (some Verdict.skipped, s)
  follow_partner item (response r) s =
      if str_eq r.status "SETTLED"
      then report item "SETTLED" r.partner_message Verdict.settled (some Verdict.skipped) s
      else (if str_eq r.status "FAILED"
          then report item "FAILED" r.partner_message Verdict.failed (some Verdict.skipped) s
          else (some Verdict.skipped, s))

  -- processCandidate
  pub process_candidate : Candidate → S → Option Verdict × S
  process_candidate item s =
      if is_empty item.external_partner || is_empty item.external_ref
      then report item "FAILED" "Missing external references" Verdict.failed none s
      else follow_partner item (check_transfer item.external_partner item.external_ref) s

  -- The chunks run one after another, and so do here the candidates of a chunk.
  process_items : List Candidate → SettlementStats → S → SettlementStats × S
  process_items [] st s = (st, s)
  process_items (item ∷ rest) st s =
      let (verdict, t) = process_candidate item s in process_items rest (count verdict st) t

  -- reconcilePendingTransfers; none where it throws. `ready` says that both services are there.
  pub reconcile_pending_transfers : PollerConfig → Bool → Option ℕ → S → Option SettlementStats × S
  reconcile_pending_transfers cfg ready limit s =
      if not ready
      then (some no_stats, s)
      else (let (reply, t) =
            svc.list_settlement_candidates
              (max 1 (min (or_else limit cfg.settlement_batch_size) 1000)) s in
          elim reply [
            | failure _ ↦ (none, t)
            | response items ↦
                let (st, u) = process_items items (record no_stats { scanned = length items }) t in
                (some st, u)
          ])

  -- reconcileWalletBalances; none where it throws.
  unfoldable reconcile_wallet_balances :
      PollerConfig → Bool → Option ℕ → Option Bool → S → Option BalanceReport × S
  reconcile_wallet_balances cfg ready limit auto_fix s =
      if not ready
      then (some (record { scanned = 0; mismatches = 0; fixed = 0 }), s)
      else (let (reply, t) =
            svc.reconcile_wallets (max 1 (min (or_else limit cfg.reconcile_limit) 5000))
              (or_else auto_fix cfg.reconcile_autofix) s in
          elim reply [ failure _ ↦ (none, t) | response r ↦ (some r, t) ])

  -- runSettlementCycle; the reconciliation runs once the settlement has not thrown.
  unfoldable run_settlement_cycle :
      PollerConfig
      → Bool
      → Option ℕ
      → Option ℕ
      → Option Bool
      → S
      → Option (SettlementStats × BalanceReport) × S
  run_settlement_cycle cfg ready settlement_limit reconcile_limit auto_fix s =
      let (settlement, t) = reconcile_pending_transfers cfg ready settlement_limit s in
      elim settlement [
        | none ↦ (none, t)
        | some st ↦
            let (reconcile, u) = reconcile_wallet_balances cfg ready reconcile_limit auto_fix t in
            elim reconcile [ none ↦ (none, u) | some r ↦ (some (st, r), u) ]
      ]

  -- runSettlementJob: `running` is the flag of a cycle that has not ended.
  unfoldable run_settlement_job : PollerConfig → Bool → Bool → S → S
  run_settlement_job cfg ready running s =
      if running then s else (run_settlement_cycle cfg ready none none none s).1
