-- ===== src/Queries.antt =====
-- The lists of transactions.service.ts: listUserTransactions and listSettlementCandidates.
pub mod Pages
use kufi_e_wallet_with_hyper.Prelude.{
  ℕ, String, str_eq, Bool, false, not, ◌&&◌, ◌||◌, Option, none, some, List, take, drop, max, min,
}
use kufi_e_wallet_with_hyper.Prelude.Int.{ℤ, pos, negsuc}
use kufi_e_wallet_with_hyper.Prelude.Rows.{select, order_asc, order_desc}
use kufi_e_wallet_with_hyper.Entities.{
  TransactionEntity, is_failed, is_pending_settlement, is_failed_settlement, is_failed_chain,
}
use kufi_e_wallet_with_hyper.Store.{Method, gets}

-- Math.max(1, Math.min(limit, most))
unfoldable pub clamp_limit : ℕ → ℤ → ℕ
clamp_limit most (pos n) = max 1 (min n most)
clamp_limit most (negsuc n) = 1

-- Math.max(0, offset)
abbrev clamp_offset : ℤ → ℕ
clamp_offset (pos n) = n
clamp_offset (negsuc n) = 0

abbrev is_user : String → Option String → Bool
is_user user none = false
is_user user (some u) = str_eq u user

pub failed_anywhere : TransactionEntity → Bool
failed_anywhere tx =
    is_failed tx.status
    || is_failed_chain tx.chain_status
    || is_failed_settlement tx.settlement_status

-- `fromUserId = :userId OR toUserId = :userId`, and what `andWhere` adds to it: the query puts no
-- brackets around the OR, so the conditions on the three states bind to its second half only.
abbrev pub is_listed : String → Bool → TransactionEntity → Bool
is_listed user include_failed tx =
    str_eq tx.from_user_id user
    || is_user user tx.to_user_id && (include_failed || not (failed_anywhere tx))

pub list_user_transactions : String → ℤ → ℤ → Bool → Method (List TransactionEntity)
list_user_transactions user limit offset include_failed = gets λ s. take (clamp_limit 200 limit) (
    drop (clamp_offset offset)
      (order_desc (λ tx. tx.created_at) (select (is_listed user include_failed) s.transactions)))

-- where: { isExternal: true, settlementStatus: PENDING }
is_candidate : TransactionEntity → Bool
is_candidate tx = tx.is_external && is_pending_settlement tx.settlement_status

pub list_settlement_candidates : ℤ → Method (List TransactionEntity)
list_settlement_candidates limit = gets λ s.
    take (clamp_limit 500 limit)
      (order_asc (λ tx. tx.created_at) (select is_candidate s.transactions))
