-- ===== src/Transfers.antt =====
-- createTransfer of transactions.service.ts, and what it calls.
pub mod Locks
pub mod Keeps
pub mod Moves
pub mod Answers
pub mod Pays
use kufi_e_wallet_with_hyper.Prelude.{
  ℕ, String, str_eq, text_append, not, ◌&&◌, Option, none, some, List, [], ◌∷◌, if◌then◌else◌,
  or_else,
}
use kufi_e_wallet_with_hyper.Prelude.Int.{ℤ, pos, ◌+ℤ◌, ◌-ℤ◌, ltb_ℤ}
use kufi_e_wallet_with_hyper.Prelude.Text.{is_empty}
use kufi_e_wallet_with_hyper.Entities.{
  Wallet, is_active, LedgerEntry, LedgerDirection, TransactionEntity, TransactionType,
  TransactionStatus, is_failed, SettlementStatus, ChainStatus,
}
use kufi_e_wallet_with_hyper.Store.{
  Store, Method, Env, ok, pure, throw, throw_if, gets, of_result, transactional, ◌>>=◌, ◌>>◌,
  type_error, wallet_of, transaction_of_key, save_wallet, save_transaction, insert_wallet,
  insert_transaction, add_entries, new_wallet, balance_or_zero,
}
use kufi_e_wallet_with_hyper.Requests.{
  Number, CreateTransferRequest, TransferOrder, validate_create_transfer,
}
use kufi_e_wallet_with_hyper.Wallets.{get_wallet}
use kufi_e_wallet_with_hyper.Outbox.{enqueue_transaction_event}
use kufi_e_wallet_with_hyper.Partner.{submit_outside_transfer}

-- The wallets that the DB transaction has locked: a Map by user, the last `set` first.
abbrev Locked : Type 0
Locked = List (String × Wallet)

abbrev locked_wallet : String → Locked → Option Wallet
locked_wallet user [] = none
locked_wallet user ((u, w) ∷ rest) = if str_eq u user then some w else locked_wallet user rest

-- usersToLock, sorted by localeCompare
pub users_to_lock : Env → TransferOrder → List String
users_to_lock env o =
    if not o.is_external && not (is_empty o.to_user_id) && not (str_eq o.to_user_id o.from_user_id)
    then (if env.locale_le o.from_user_id o.to_user_id
        then o.from_user_id ∷ o.to_user_id ∷ []
        else o.to_user_id ∷ o.from_user_id ∷ [])
    else o.from_user_id ∷ []

-- Only the receiver's wallet is made.
lock_new : Env → TransferOrder → String → Method Wallet
lock_new env o user =
    throw_if (str_eq user o.from_user_id) "Sender wallet not found"
    >> insert_wallet (new_wallet env user o.currency)

-- One round of the locking loop.
lock_wallet : Env → TransferOrder → String → Method Wallet
lock_wallet env o user = do
  found ← gets (wallet_of user o.currency)
  elim found [ some wallet ↦ pure wallet | none ↦ lock_new env o user ]

pub lock_wallets : Env → TransferOrder → List String → Locked → Method Locked
lock_wallets env o [] locked = pure locked
lock_wallets env o (user ∷ users) locked = do
  wallet ← lock_wallet env o user
  lock_wallets env o users ((user, wallet) ∷ locked)

-- `lockedWallets.get(user)!`
get_locked : String → Locked → Method Wallet
get_locked user locked = elim (locked_wallet user locked) [
  | some wallet ↦ pure wallet
  | none ↦ throw type_error
]

locked_or_new : Env → TransferOrder → Locked → Method Wallet
locked_or_new env o locked = elim (locked_wallet o.to_user_id locked) [
  | some wallet ↦ pure wallet
  | none ↦ insert_wallet (new_wallet env o.to_user_id o.currency)
]

-- The receiver's wallet before and after the credit.
credit_internal : Env → TransferOrder → Locked → Method (Option (Wallet × Wallet))
credit_internal env o locked = do
  receiver ← locked_or_new env o locked
  throw_if (not (is_active receiver.status)) "Receiver wallet is not active"
  let credited = record receiver { balance = receiver.balance +ℤ pos o.amount }
  save_wallet credited
  pure (some (receiver, credited))

-- Only an internal transfer has a receiver here.
credit_receiver : Env → TransferOrder → Locked → Method (Option (Wallet × Wallet))
credit_receiver env o locked =
    if not o.is_external && not (is_empty o.to_user_id)
    then credit_internal env o locked
    else pure none

abbrev transfer_row : Env → TransferOrder → TransactionEntity
transfer_row env o = record {
  id = env.transaction_key;
  idempotency_key = o.idempotency_key;
  kind = TransactionType.transfer;
  status = TransactionStatus.pending;
  settlement_status =
      if o.is_external then SettlementStatus.pending else SettlementStatus.not_needed;
  chain_status = ChainStatus.pending;
  requesting_user_id = o.requesting_user_id;
  from_user_id = o.from_user_id;
  to_user_id = some o.to_user_id;
  amount = o.amount;
  currency = o.currency;
  memo = some o.memo;
  is_external = o.is_external;
  external_partner = o.external_partner;
  external_account_no = o.external_account_no;
  external_ref = none;
  chain_tx_id = none;
  receipt_json = none;
  chain_retry_count = 0;
  chain_last_attempt_at = none;
  chain_next_attempt_at = some env.now;
  error_code = none;
  error_message = none;
  created_at = env.now;
}

abbrev transfer_note : String → String → String
transfer_note what currency = text_append what (text_append currency ")")

abbrev debit_entry : TransactionEntity → Wallet → Wallet → LedgerEntry
debit_entry tx before after = record {
  transaction_id = tx.id;
  wallet_id = before.id;
  direction = LedgerDirection.debit;
  amount = tx.amount;
  balance_before = before.balance;
  balance_after = after.balance;
  note = transfer_note "Transfer debit (" tx.currency;
}

abbrev credit_entry : TransactionEntity → Wallet → Wallet → LedgerEntry
credit_entry tx before after = record {
  transaction_id = tx.id;
  wallet_id = before.id;
  direction = LedgerDirection.credit;
  amount = tx.amount;
  balance_before = before.balance;
  balance_after = after.balance;
  note = transfer_note "Transfer credit (" tx.currency;
}

abbrev transfer_entries :
    TransactionEntity → Wallet → Wallet → Option (Wallet × Wallet) → List LedgerEntry
transfer_entries tx before after none = debit_entry tx before after ∷ []
transfer_entries tx before after (some (receiver, credited)) =
    debit_entry tx before after ∷ credit_entry tx receiver credited ∷ []

abbrev receiver_after : Option (Wallet × Wallet) → ℤ
receiver_after none = pos 0
receiver_after (some (receiver, credited)) = credited.balance

pub record Persisted : Type 0 where
  pub transaction : TransactionEntity
  pub sender_balance : ℤ
  pub receiver_balance : ℤ

-- The part of persistTransfer after the wallets are locked.
move_funds : Env → TransferOrder → Locked → Method Persisted
move_funds env o locked = do
  from ← get_locked o.from_user_id locked
  throw_if (not (is_active from.status)) "Sender wallet is not active"
  throw_if (ltb_ℤ from.balance (pos o.amount)) "Insufficient balance"
  let debited = record from { balance = from.balance -ℤ pos o.amount }
  save_wallet debited
  receiver ← credit_receiver env o ((o.from_user_id, debited) ∷ locked)
  tx ← insert_transaction (transfer_row env o)
  add_entries (transfer_entries tx from debited receiver)
  pure (record {
    transaction = tx;
    sender_balance = debited.balance;
    receiver_balance = receiver_after receiver;
  })

abbrev receiver_wallet : TransferOrder → Store → Option Wallet
receiver_wallet o s = if is_empty o.to_user_id then none else wallet_of o.to_user_id o.currency s

-- What persistTransfer answers when the key is already in the table.
transfer_duplicate : TransferOrder → TransactionEntity → Method Persisted
transfer_duplicate o dup s = (
  ok (record {
    transaction = dup;
    sender_balance = balance_or_zero (wallet_of o.from_user_id o.currency s);
    receiver_balance = balance_or_zero (receiver_wallet o s);
  }),
  s,
)

lock_and_move : Env → TransferOrder → Method Persisted
lock_and_move env o = lock_wallets env o (users_to_lock env o) [] >>= move_funds env o

-- The body of the DB transaction.
book_transfer : Env → TransferOrder → Method Persisted
book_transfer env o = do
  dup ← gets (transaction_of_key o.idempotency_key)
  elim dup [ some tx ↦ transfer_duplicate o tx | none ↦ lock_and_move env o ]

pub persist_transfer : Env → TransferOrder → Method Persisted
persist_transfer env o = transactional (book_transfer env o)

-- mapTransferResponse
pub record TransferResponse : Type 0 where
  pub transaction_id : ℕ
  pub kind : TransactionType
  pub status : TransactionStatus
  pub settlement_status : SettlementStatus
  pub sender_balance : ℤ
  pub receiver_balance : ℤ
  pub chain_status : ChainStatus
  pub receipt_json : String
  pub from_user_id : String
  pub to_user_id : String
  pub error_code : String
  pub error_message : String
  pub created_at : ℕ

abbrev pub map_transfer_response : TransactionEntity → ℤ → ℤ → TransferResponse
map_transfer_response tx sender receiver = record {
  transaction_id = tx.id;
  kind = tx.kind;
  status = tx.status;
  settlement_status = tx.settlement_status;
  sender_balance = sender;
  receiver_balance = receiver;
  chain_status = tx.chain_status;
  receipt_json = or_else tx.receipt_json "";
  from_user_id = tx.from_user_id;
  to_user_id = or_else tx.to_user_id "";
  error_code = or_else tx.error_code "";
  error_message = or_else tx.error_message "";
  created_at = tx.created_at;
}

-- Chain anchoring is left to the worker: an internal transfer becomes due at once.
schedule_anchor : Env → TransactionEntity → Method TransactionEntity
schedule_anchor env tx =
    if not tx.is_external && not (is_failed tx.status)
    then save_transaction (record tx { chain_next_attempt_at = some env.now })
    else pure tx

-- Only a transfer to a partner is submitted.
submit_if_external : Env → TransactionEntity → Method TransactionEntity
submit_if_external env tx = if tx.is_external then submit_outside_transfer env tx else pure tx

-- createTransfer once the transfer is in the tables.
finish_transfer : Env → Persisted → Method TransferResponse
finish_transfer env persisted = do
  submitted ← submit_if_external env persisted.transaction
  tx ← schedule_anchor env submitted
  enqueue_transaction_event env tx
  pure (map_transfer_response tx persisted.sender_balance persisted.receiver_balance)

-- createTransfer for a key that is new.
new_transfer : Env → TransferOrder → Method TransferResponse
new_transfer env o = persist_transfer env o >>= finish_transfer env

-- createTransfer for a key that is in the table.
repeated_transfer : TransferOrder → TransactionEntity → Method TransferResponse
repeated_transfer o existing = do
  sender ← get_wallet o.from_user_id o.currency
  receiver ← (if is_empty o.to_user_id then pure none else get_wallet o.to_user_id o.currency)
  pure (map_transfer_response existing (balance_or_zero sender) (balance_or_zero receiver))

pub create_transfer : Env → (String → Number) → CreateTransferRequest → Method TransferResponse
create_transfer env to_number request = do
  o ← of_result (validate_create_transfer to_number request)
  existing ← gets (transaction_of_key o.idempotency_key)
  elim existing [ some tx ↦ repeated_transfer o tx | none ↦ new_transfer env o ]
