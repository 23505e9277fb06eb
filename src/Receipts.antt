-- ===== src/Receipts.antt =====
-- The receipts of anchored transactions, in transactions.service.ts: getTransaction,
-- shouldRefreshReceiptTransparency, normalizeReceiptPayload, refreshAnchoredReceiptTransparency.
pub mod Kept
use kufi_e_wallet_with_hyper.Prelude.{
  ℕ, String, str_eq, Bool, true, false, not, ◌&&◌, ◌||◌, Option, none, some, if◌then◌else◌, or_else,
}
use kufi_e_wallet_with_hyper.Prelude.Text.{is_empty, trim}
use kufi_e_wallet_with_hyper.Entities.{TransactionEntity, is_anchored}
use kufi_e_wallet_with_hyper.Store.{
  Method, Env, pure, gets, ◌>>=◌, Reply, response, failure, ChainService, AnchorTransferResponse,
  transaction_of_id, save_transaction,
}

-- A value of JSON; `JSON.parse` is a parameter, which returns none where it throws.
mutual
  pub data Json : Type 0 where
    null : Json
    boolean : Bool → Json
    scalar : Json
    array : Items → Json
    object : Fields → Json

  pub data Items : Type 0 where
    nil : Items
    cons : Json → Items → Items

  pub data Fields : Type 0 where
    end : Fields
    field : String → Json → Fields → Fields

-- `payload[key]`; JSON.parse keeps the last of two fields of one name.
get_field : String → Fields → Option Json
get_field key end = none
get_field key (field name value rest) = elim (get_field key rest) [
  | some later ↦ some later
  | none ↦ if str_eq name key then some value else none
]

-- The fields of a value for which `typeof` is 'object'; an array has none of those asked for.
abbrev object_fields : Option Json → Option Fields
object_fields (some (object fields)) = some fields
object_fields (some (array items)) = some end
object_fields _ = none

-- normalizeReceiptPayload
normalize_receipt_payload : Fields → Fields
unfolding get_field
normalize_receipt_payload payload = or_else (object_fields (get_field "receipt" payload)) payload

abbrev is_true : Option Json → Bool
is_true (some (boolean b)) = b
is_true _ = false

abbrev has_items : Option Json → Bool
has_items (some (array (cons x xs))) = true
has_items _ = false

abbrev quorum_met : Option Fields → Bool
quorum_met none = false
quorum_met (some transparency) = is_true (get_field "quorum_met" transparency)

-- Is the receipt without observers, or without their quorum?
lacks_transparency : Fields → Bool
unfolding get_field normalize_receipt_payload
lacks_transparency payload =
    let receipt = normalize_receipt_payload payload in
    not (has_items (get_field "observer_confirmations" receipt))
    || not (quorum_met (object_fields (get_field "transparency" receipt)))

unfoldable should_refresh_receipt : (String → Option Json) → Option String → Bool
unfolding lacks_transparency
should_refresh_receipt parse receipt_json =
    let raw = trim (or_else receipt_json "") in
    let decoded = object_fields (parse raw) in
    if is_empty raw
    then true
    else elim decoded [ none ↦ true | some payload ↦ lacks_transparency payload ]

-- The transaction with the receipt that the chain has now, or none where there is no news.
fresh_receipt : Env → TransactionEntity → Reply AnchorTransferResponse → Option TransactionEntity
fresh_receipt env tx (failure message) = none
fresh_receipt env tx (response r) =
    let receipt = trim r.receipt_json in
    if is_empty receipt || str_eq receipt (or_else tx.receipt_json "")
    then none
    else some (record tx { receipt_json = some receipt; chain_last_attempt_at = some env.now })

abbrev save_fresh : TransactionEntity → Option TransactionEntity → Method TransactionEntity
save_fresh tx none = pure tx
save_fresh tx (some fresh) = save_transaction fresh

abbrev ask_chain : Env → TransactionEntity → String → Option ChainService → Method TransactionEntity
ask_chain env tx chain_tx_id none = pure tx
ask_chain env tx chain_tx_id (some chain) =
    if is_empty chain_tx_id
    then pure tx
    else save_fresh tx (fresh_receipt env tx (chain.get_receipt chain_tx_id))

refresh_anchored_receipt : Env → TransactionEntity → Method TransactionEntity
refresh_anchored_receipt env tx = ask_chain env tx (trim (or_else tx.chain_tx_id "")) env.chain

pub get_transaction : Env → (String → Option Json) → ℕ → Method (Option TransactionEntity)
get_transaction env parse id = do
  found ← gets (transaction_of_id id)
  elim found [
    | none ↦ pure none
    | some tx ↦ λ s.
        if is_anchored tx.chain_status && should_refresh_receipt parse tx.receipt_json
        then (refresh_anchored_receipt env tx >>= λ fresh. pure (some fresh)) s
        else pure (some tx) s
  ]
