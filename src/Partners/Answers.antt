-- ===== src/Partners/Answers.antt =====
-- How transfers.service.ts reads a partner's answer: extractStatus, matchesAnyToken, pickString and
-- safeParseJson.
pub mod Status
use kufi_e_wallet_with_hyper.Prelude.{
  String, str_eq, Bool, true, false, not, ◌||◌, ◌&&◌, if◌then◌else◌, Option, none, some, List, [],
  ◌∷◌,
}
use kufi_e_wallet_with_hyper.Prelude.Text.{is_empty, or_text, trim, to_upper}
use kufi_e_wallet_with_hyper.Prelude.Text.Split.{includes}
use kufi_e_wallet_with_hyper.Partners.{
  ExternalTransferStatus, Value, text, object, Fields, end, field, FieldMapping, PartnerEnv,
}
use kufi_e_wallet_with_hyper.Partners.Objects.{
  is_nullish, string_of, read_path, find_by_key_deep, is_plain_object,
}

pub data Mode : Type 0 where
  initiate check : Mode

-- The trimmed text of a value, or '' for null and undefined
value_text : Value → String
value_text v = if is_nullish v then "" else trim (string_of v)

pick_by_path : Value → List String → String
unfolding value_text
pick_by_path payload [] = ""
pick_by_path payload (path ∷ paths) =
    or_text (value_text (read_path payload path)) (pick_by_path payload paths)

pick_by_key : Value → List String → String
unfolding value_text
pick_by_key payload [] = ""
pick_by_key payload (path ∷ paths) =
    let later = pick_by_key payload paths in
    if includes "." path then later else or_text (value_text (find_by_key_deep path payload)) later

-- pickString, which extractString calls
unfoldable pub pick_string : Value → List String → String
unfolding pick_by_path pick_by_key
pick_string payload paths = or_text (pick_by_path payload paths) (pick_by_key payload paths)

unfoldable pub matches_any_token : String → List String → Bool
matches_any_token v [] = false
matches_any_token v (token ∷ tokens) =
    let normalized = to_upper (trim token) in
    let later = matches_any_token v tokens in
    if is_empty normalized then later else str_eq v normalized || includes normalized v || later

-- The answer of a partner that says nothing of the status
abbrev pub status_of_http : Bool → ExternalTransferStatus
status_of_http true = ExternalTransferStatus.submitted
status_of_http false = ExternalTransferStatus.failed

abbrev pub status_of_success : Mode → ExternalTransferStatus
status_of_success Mode.initiate = ExternalTransferStatus.submitted
status_of_success Mode.check = ExternalTransferStatus.settled

status_of_text : String → Mode → Bool → FieldMapping → ExternalTransferStatus
status_of_text raw mode http_ok mapping =
    if is_empty raw
    then status_of_http http_ok
    else (if matches_any_token raw mapping.failed_tokens
        then ExternalTransferStatus.failed
        else (if matches_any_token raw mapping.success_tokens
            then status_of_success mode
            else (if matches_any_token raw mapping.pending_tokens
                then ExternalTransferStatus.submitted
                else status_of_http http_ok)))

-- extractStatus
unfoldable pub extract_status :
    Value → Mode → Bool → List String → FieldMapping → ExternalTransferStatus
unfolding status_of_text
extract_status payload mode http_ok paths mapping =
    status_of_text (to_upper (pick_string payload paths)) mode http_ok mapping

-- safeParseJson
unfoldable pub safe_parse_json : PartnerEnv → String → Value
safe_parse_json env raw_text =
    let trimmed = trim raw_text in
    if is_empty trimmed then object end else elim (env.parse trimmed) [
      | none ↦ object (field "raw" (text trimmed) end)
      | some v ↦ if is_plain_object v then v else object (field "value" v end)
    ]
