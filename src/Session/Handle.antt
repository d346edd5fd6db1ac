-- ===== src/Session/Handle.antt =====
-- `handle` of src/session.rs: the session operations, over what they find outside. serde's derived
-- decoders of the parameters are outside the repository.
use agent_runner_codex.Prelude.{
  ℕ, String, true, false, not, ◌&&◌, ◌==◌, Bytes, List, [], ◌∷◌, Option, none, some, map,
  if◌then◌else◌, keep_if, is_blank, is_some,
}
use agent_runner_codex.Json.{Value, boolean, str, object, get}
use agent_runner_codex.Envelope.{RequestEnvelope, Result, ok, err, ◌>>=◌, ◌>>◌, ok_or, unsupported}
use agent_runner_codex.Account.{home}
use agent_runner_codex.Pages.Store.Charges.{staging_limits}
use agent_runner_codex.Pages.Read.{Outside, Surroundings, read_turns_with_limits, with_request_id}
use agent_runner_codex.Session.{RolloutFile, invalid, not_found, validate_session_id}
use agent_runner_codex.Session.Locate.{locate}
use agent_runner_codex.Session.Rollout.{Calendar, timestamp_ms}
use agent_runner_codex.Session.Turns.{SessionParams, read_turns}
use agent_runner_codex.Session.Walk.{Files, io_failure, rollout_paths}
use agent_runner_codex.Session.Capture.{capture, format_id, source_id}
use agent_runner_codex.Session.Enumerate.{EnumerateParams, enumerate}

-- What the session operations call outside the repository.
pub record Tools : Type 1 where
  pub calendar : Calendar
  pub parse_json : Bytes → Option Value
  pub decode_session : Value → Option SessionParams
  pub decode_enumerate : Value → Option EnumerateParams
  pub to_vec : Value → Bytes
  pub sha256_hex : Bytes → String
  pub pages : Outside

-- What they find: the environment, the directories, the files by their path and their times.
pub record World : Type 0 where
  pub home_var : Option String
  pub files : Files
  pub opened : String → RolloutFile
  pub file_time : RolloutFile → Option (Option ℕ)
  pub paging : Surroundings

-- the operations, by their names
pub data Operation : Type 0 where
  capture_operation enumerate_operation locate_operation read_operation : Operation
  export_operation replace_operation unknown_operation : Operation

unfoldable pub operation_of : String → Operation
operation_of name =
    if name == "session.capture"
    then capture_operation
    else if name == "session.enumerate"
    then enumerate_operation
    else if name == "session.locate_transcript"
    then locate_operation
    else if name == "session.read_turns"
    then read_operation
    else if name == "session.export"
    then export_operation
    else if name == "session.replace"
    then replace_operation
    else unknown_operation

abbrev located_value : String → Option String → Value
located_value id (some path) = object (
    ("located", boolean true)
    ∷ ("path", str path)
    ∷ ("format_id", str format_id)
    ∷ ("source_id", str (source_id id))
    ∷ ("require_existing_observed", boolean true)
    ∷ [])
located_value id none = object (("located", boolean false) ∷ [])

module _ (tools : Tools) (world : World) (request : RequestEnvelope) where
  abbrev request_id : String
  request_id = request.request_id

  -- `account_home`
  unfoldable pub account_home : String → Result String
  unfolding home
  account_home settings_id =
      with_request_id request_id (home world.home_var request.host settings_id)

  -- The rollouts of an account. The walk ends, so that the first case is none.
  unfoldable pub rollouts : String → Result (List RolloutFile)
  unfolding rollout_paths
  rollouts root = elim (rollout_paths request_id world.files root) [
    | none ↦ err (io_failure request_id)
    | some (err e) ↦ err e
    | some (ok paths) ↦ ok (map world.opened paths)
  ]

  -- `parse`
  abbrev parse {ℓ} : {A : Type ℓ} → Option A → Result A
  parse decoded = ok_or decoded (invalid request_id "Invalid session parameters")

  -- the session of `locate_transcript` and `read_turns`, and where its rollout is
  unfoldable pub located : SessionParams → Result (String × Option String)
  unfolding account_home rollouts validate_session_id locate timestamp_ms
  located params = do
    root ← account_home params.settings_id
    id ←
        ok_or (keep_if (λ s. not (is_blank s)) params.session_id)
          (invalid request_id "session_id must be non-empty")
    validate_session_id request_id id
    files ← rollouts root
    found ← locate tools.parse_json (timestamp_ms tools.calendar) request_id id files
    ok (id, found)

  abbrev refused : String → String → Result (Option Value)
  refused code message = err (unsupported request_id code message)

  abbrev returned : Result Value → Result (Option Value)
  returned r = r >>= λ v. ok (some v)

  -- The value is `none` where `read_turns` panics; the other operations have no panic of their own here:
  -- a JSON printer's and an arithmetic underflow's are not modelled.
  unfoldable pub perform : Operation → Result (Option Value)
  unfolding located capture enumerate read_turns
  perform capture_operation = do
    params ← parse (tools.decode_session request.params)
    returned (
        capture tools.calendar tools.parse_json request_id request.params request.host
          (account_home params.settings_id) rollouts world.opened)
  perform enumerate_operation = do
    params ← parse (tools.decode_enumerate request.params)
    returned (
        enumerate request_id tools.calendar tools.parse_json world.file_time tools.to_vec
          tools.sha256_hex params (account_home params.settings_id) rollouts)
  perform locate_operation = do
    params ← parse (tools.decode_session request.params)
    found ← located params
    ok (some (located_value found.0 found.1))
  perform read_operation = do
    params ← parse (tools.decode_session request.params)
    found ← located params
    path ← ok_or found.1 (not_found request_id)
    read_turns tools.calendar tools.parse_json request_id (world.opened path) found.0 params
  perform export_operation =
      refused "session_export_unsupported"
        "Codex rollout projection cannot preserve a faithful canonical transcript for import"
  perform replace_operation =
      refused "session_replace_unsupported"
        "Codex does not expose a stable transcript replacement API"
  perform unknown_operation =
      refused "session_operation_unsupported" "Unsupported Codex session operation"

  -- `session_turn_pages::read_turns`, whose storage stays in the directory
  abbrev read_pages : Result (Option Value)
  read_pages = read_turns_with_limits tools.pages request staging_limits world.paging >>= λ page.
      ok (some page.0)

  unfoldable pub handle : String → Result (Option Value)
  unfolding operation_of perform read_turns_with_limits
  handle name =
      if name == "session.read_turns" && is_some (get request.params "read_protocol")
      then read_pages
      else perform (operation_of name)
