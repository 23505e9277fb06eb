-- ===== src/Partners/Initiate.antt =====
-- initiateTransfer of transfers.service.ts, over the table of the transfers.
pub mod Submitted
pub mod Unreachable
use kufi_e_wallet_with_hyper.Prelude.{
  ℕ, zero, suc, ◌+◌, ◌*◌, ◌-◌, ◌==◌, leb, String, str_eq, text_append, Bool, true, false, not, ◌||◌,
  if◌then◌else◌, Option, none, some, or_else, List, [], ◌∷◌, ◌++◌, is_some,
}
use kufi_e_wallet_with_hyper.Prelude.Int.{ℤ, pos, negsuc}
use kufi_e_wallet_with_hyper.Prelude.Text.{or_text}
use kufi_e_wallet_with_hyper.Prelude.Text.Split.{decimal}
use kufi_e_wallet_with_hyper.Prelude.Rows.{find_one, save}
use kufi_e_wallet_with_hyper.Store.{Reply, response, failure, InitiateTransferResponse}
use kufi_e_wallet_with_hyper.Poller.{CheckTransferResponse}
use kufi_e_wallet_with_hyper.Partners.{
  ExternalTransferStatus, ExternalTransfer, PartnerConfig, PartnerEnv,
}
use kufi_e_wallet_with_hyper.Partners.Settings.{normalize_known_partner_code, parse_transfer_type}
use kufi_e_wallet_with_hyper.Partners.Runtime.{resolve_partner_runtime_config, mock_settle_delay_ms}
use kufi_e_wallet_with_hyper.Partners.Payloads.{InitiateData, currency_of}
use kufi_e_wallet_with_hyper.Partners.Calls.{
  Submission, initiate_via_partner, check_via_partner, status_text, is_failed, dash,
}

-- An int64 as the gRPC loader may give it: a number, a text, a Long with `toNumber`, or its halves,
-- the lower one as `>>> 0` reads it.
pub data WireAmount : Type 0 where
  number : ℤ → WireAmount
  text : String → WireAmount
  long : ℤ → WireAmount
  halves : ℤ → ℕ → WireAmount
  absent : WireAmount

pub record InitiateRequest : Type 0 where
  pub transaction_id : ℕ
  pub partner_code : String
  pub account_no : String
  pub amount : WireAmount
  pub currency : String
  pub note : String
  pub transfer_type : String

-- `high * 4294967296 + low`
abbrev join_halves : ℤ → ℕ → Option ℤ
join_halves (pos high) low = some (pos (high * 4294967296 + low))
join_halves (negsuc high) low = some (
    if leb (suc high * 4294967296) low
    then pos (low - suc high * 4294967296)
    else negsuc (suc high * 4294967296 - low - 1))

-- parseAmount; none is NaN.
unfoldable pub parse_amount : PartnerEnv → WireAmount → Option ℤ
parse_amount env (number n) = some n
parse_amount env (text t) = env.whole_number t
parse_amount env (long n) = some n
parse_amount env (halves high low) = join_halves high low
parse_amount env absent = none

-- `if (!Number.isFinite(amount) || amount <= 0) throw`
abbrev pub positive_amount : Option ℤ → Option ℕ
positive_amount (some (pos (suc n))) = some (suc n)
positive_amount _ = none

abbrev pub has_transaction : ℕ → ExternalTransfer → Bool
has_transaction id r = r.transaction_id == id

abbrev pub has_ref : String → ExternalTransfer → Bool
has_ref ref r = str_eq r.partner_ref ref

abbrev pub Table : Type 0
Table = List ExternalTransfer

unfoldable pub mock_submitted_message : String → String
mock_submitted_message code =
    text_append "Mock partner " (text_append code ": transfer submitted, waiting settlement")

abbrev random_ref : PartnerEnv → String → String
random_ref env code = dash code (dash (decimal env.now) (decimal env.random_below_100000))

-- What the partner, or the mock of one without settings, makes of the request
submission_of : PartnerEnv → InitiateData → Option PartnerConfig → Submission
unfolding mock_submitted_message
submission_of env d none = record {
  status = ExternalTransferStatus.submitted;
  partner_ref = random_ref env (text_append d.partner_code "-MOCK");
  partner_message = mock_submitted_message d.partner_code;
}
submission_of env d (some config) =
    let result = initiate_via_partner env config d in
    record result { partner_ref = or_text result.partner_ref (random_ref env d.partner_code) }

abbrev data_of : InitiateRequest → ℕ → InitiateData
data_of r amount = record {
  transaction_id = r.transaction_id;
  partner_code = normalize_known_partner_code r.partner_code;
  account_no = r.account_no;
  amount = amount;
  currency = r.currency;
  note = r.note;
  transfer_type = r.transfer_type;
}

-- `externalRepo.create`, with the times and the key that the database gives
new_transfer : PartnerEnv → InitiateRequest → ℕ → Submission → ExternalTransfer
new_transfer env r amount result = record {
  id = env.row_key;
  transaction_id = r.transaction_id;
  partner_code = normalize_known_partner_code r.partner_code;
  account_no = r.account_no;
  transfer_type = parse_transfer_type r.transfer_type;
  amount = amount;
  currency = currency_of r.currency;
  partner_ref = result.partner_ref;
  status = result.status;
  partner_message = some result.partner_message;
  created_at = env.now;
}

-- An insert, which the unique indexes of the table may refuse
unfoldable pub insert_transfer : ExternalTransfer → Table → Reply ExternalTransfer × Table
insert_transfer r t =
    if is_some (find_one (λ x. x.id == r.id) t)
      || is_some (find_one (has_transaction r.transaction_id) t)
      || is_some (find_one (has_ref r.partner_ref) t)
    then (failure "duplicate key value violates unique constraint", t)
    else (response r, t ++ (r ∷ []))

unfoldable pub answer_of : String → ExternalTransfer → InitiateTransferResponse
answer_of message r = record {
  status = status_text r.status;
  partner_ref = r.partner_ref;
  partner_message = or_else r.partner_message message;
}

saved_answer : Reply ExternalTransfer × Table → Reply InitiateTransferResponse × Table
unfolding answer_of
saved_answer (failure message, t) = (failure message, t)
saved_answer (response row, t) = (response (answer_of "" row), t)

unfoldable pub submit_new :
    PartnerEnv → InitiateRequest → ℕ → Table → Reply InitiateTransferResponse × Table
unfolding submission_of new_transfer insert_transfer saved_answer
submit_new env r amount t =
    let d = data_of r amount in
    let config = resolve_partner_runtime_config env d.partner_code in
    saved_answer (insert_transfer (new_transfer env r amount (submission_of env d config)) t)

-- A request with a valid amount; `existed` is the transfer of its transaction.
unfoldable pub initiate_valid :
    PartnerEnv
    → InitiateRequest
    → Table
    → ℕ
    → Option ExternalTransfer
    → Reply InitiateTransferResponse × Table
unfolding answer_of submit_new
initiate_valid env r t amount (some existed) = (response (answer_of "Already submitted" existed), t)
initiate_valid env r t amount none = submit_new env r amount t

unfoldable pub initiate_amount :
    PartnerEnv → InitiateRequest → Table → Option ℕ → Reply InitiateTransferResponse × Table
unfolding initiate_valid
initiate_amount env r t none = (failure "Invalid amount", t)
initiate_amount env r t (some amount) =
    initiate_valid env r t amount (find_one (has_transaction r.transaction_id) t)

-- initiateTransfer; a failure is what it throws.
unfoldable pub initiate_transfer :
    PartnerEnv → InitiateRequest → Table → Reply InitiateTransferResponse × Table
unfolding parse_amount initiate_amount
initiate_transfer env r t = initiate_amount env r t (positive_amount (parse_amount env r.amount))
