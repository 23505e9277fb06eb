-- ===== src/Partners/Initiate/Unreachable.antt =====
-- initiateTransfer of transfers.service.ts while a partner cannot be reached.
use kufi_e_wallet_with_hyper.Prelude.{ℕ, String, some, none, ◌≡◌, refl, [], ◌∷◌, ◌++◌}
use kufi_e_wallet_with_hyper.Prelude.Rows.{find_one}
use kufi_e_wallet_with_hyper.Store.{Reply, response, failure, InitiateTransferResponse}
use kufi_e_wallet_with_hyper.Partners.{
  ExternalTransferStatus, ExternalTransfer, PartnerConfig, PartnerEnv,
}
use kufi_e_wallet_with_hyper.Partners.Settings.{normalize_known_partner_code}
use kufi_e_wallet_with_hyper.Partners.Runtime.{resolve_partner_runtime_config}
use kufi_e_wallet_with_hyper.Partners.Http.Unreachable.{IsUnreachable}
use kufi_e_wallet_with_hyper.Partners.Calls.Open.{initiate_via_partner-unreachable}
use kufi_e_wallet_with_hyper.Partners.Initiate.{
  Table, has_transaction, InitiateRequest, data_of, submission_of, new_transfer, insert_transfer,
  saved_answer, submit_new, initiate_transfer, initiate_amount, initiate_valid, positive_amount,
  parse_amount, answer_of,
}
use kufi_e_wallet_with_hyper.Partners.Initiate.Submitted.{
  Inserted, refused, added, insert_transfer-Inserted,
}

-- A failed transfer is added, or none.
pub data StoredFailed (r : InitiateRequest) (t : Table)
    : Reply InitiateTransferResponse × Table → Type 0 where
  not_stored : (message : String) → StoredFailed r t (failure message, t)
  stored :
      (row : ExternalTransfer)
      → row.transaction_id ≡ r.transaction_id
      → row.status ≡ ExternalTransferStatus.failed
      → StoredFailed r t (response (answer_of "" row), t ++ (row ∷ []))

saved_answer-StoredFailed :
    (r : InitiateRequest) (row : ExternalTransfer) (t : Table)
    → row.transaction_id ≡ r.transaction_id
    → row.status ≡ ExternalTransferStatus.failed
    → (out : Reply ExternalTransfer × Table) → Inserted row t out
    → StoredFailed r t (saved_answer out)
unfolding saved_answer
saved_answer-StoredFailed r row t e h out (refused message) = not_stored message
saved_answer-StoredFailed r row t e h out (added n) = stored row e h

-- While a partner with settings cannot be reached, initiateTransfer of a valid amount for a new
-- transaction stores the transfer as failed and answers so, or throws and stores nothing.
pub initiate_transfer-StoredFailed :
    (env : PartnerEnv) (r : InitiateRequest) (t : Table) (n : ℕ) (config : PartnerConfig)
    → IsUnreachable env
    → positive_amount (parse_amount env r.amount) ≡ some n
    → find_one (has_transaction r.transaction_id) t ≡ none
    → resolve_partner_runtime_config env (normalize_known_partner_code r.partner_code) ≡ some config
    → StoredFailed r t (initiate_transfer env r t)
unfolding initiate_transfer initiate_amount initiate_valid submit_new new_transfer submission_of
initiate_transfer-StoredFailed env r t n config down valid fresh configured =
    let row = new_transfer env r n (submission_of env (data_of r n) (some config)) in
    rw (valid, fresh, configured)
      (saved_answer-StoredFailed r row t refl
        (initiate_via_partner-unreachable env config (data_of r n) down) (insert_transfer row t)
        (insert_transfer-Inserted row t))
