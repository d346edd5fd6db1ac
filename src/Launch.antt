-- ===== src/Launch.antt =====
-- The exec adapter of src/launch.rs: the checks of a request's output delivery and thread identifier,
-- the translation of Codex's events, and how a launch ends. The lifecycle that calls it, its event
-- sink and the session file are of the SDK; what is sent to the sink is a list.

pub mod Laws
pub mod Args
pub mod Failures
use agent_runner_codex.Prelude.{
  ℕ, zero, suc, ◌+◌, String, Bool, true, false, not, ◌||◌, ◌&&◌, ◌==◌, ◌⋯◌, Bytes, List, [], ◌∷◌,
  ◌++◌, Option, none, some, eqb, if◌then◌else◌, bytes, is_blank, is_hexdigit, is_some, length,
  str_len, unwrap_or,
}
use agent_runner_codex.Prelude.Int.{ℤ, pos, is_zero}
use agent_runner_codex.Json.{
  Value, boolean, str, object, as_object, at, get, is_null, is_text, lookup, members, pointer,
  then_str, as_str,
}
use agent_runner_codex.Envelope.{
  HostContext, ProviderFailure, RequestEnvelope, Result, ok, err, ◌>>=◌, ◌>>◌, internal,
  invalid_request, ok_or, refuse_if, unsupported,
}
use agent_runner_codex.Terminal.{
  NativeFailure, classify_with_failure, from_event, host_supports_unavailable,
}
use agent_runner_codex.Terminal.Status.{
  ProcessStatus, cancelled, exited, signal_terminated, exit_code_for_status, process_status_json,
}

abbrev output_protocol : String
output_protocol = "oulipoly.launch_output/v1"

abbrev is_one : Option String → Bool
is_one none = false
is_one (some v) = v == "1"

unfoldable pub host_requested_output : HostContext → Bool
host_requested_output host = is_one (lookup "OULIPOLY_HOST_LAUNCH_OUTPUT_V1" host.env)

-- an object that has its protocol, as a text, and nothing else
abbrev only_protocol : Value → Bool
only_protocol value = elim (as_object value) [
  | none ↦ false
  | some fields ↦ eqb (length (members fields)) 1 && is_some (as_str (at value "protocol"))
]

unfoldable pub output_requested : RequestEnvelope → Result Bool
unfolding host_requested_output
output_requested request = elim (get request.params "output_delivery") [
  | none ↦ ok false
  | some value ↦
      let asked = (do
        refuse_if (not (host_requested_output request.host)) (
            unsupported request.request_id "launch_output_not_selected"
              "params.output_delivery requires host.env.OULIPOLY_HOST_LAUNCH_OUTPUT_V1=1")
        refuse_if (not (only_protocol value)) (
            invalid_request request.request_id "invalid_launch_output_request"
              "output_delivery must contain only its protocol")
        refuse_if (not (is_text (at value "protocol") output_protocol)) (
            unsupported request.request_id "unsupported_launch_output_protocol"
              "Unsupported launch output delivery protocol")
        ok true) in
      if is_null value then ok false else asked
]

-- the tests on the bytes of a thread's identifier from position `i` on
unfoldable pub thread_bytes : ℕ → Bytes → Bool
thread_bytes i [] = true
thread_bytes i (c ∷ cs) =
    let rest = thread_bytes (suc i) cs in
    (if eqb i 8 || eqb i 13 || eqb i 18 || eqb i 23 then eqb c b'-' else is_hexdigit c) && rest

unfoldable pub valid_thread_id : String → Bool
unfolding thread_bytes
valid_thread_id id = eqb (str_len id) 36 && thread_bytes 0 (bytes id)

abbrev failure : String → String → ProviderFailure
failure code message = internal "" code message

pub data Channel : Type 0 where
  stdout stderr : Channel

pub data Emitted : Type 0 where
  data_bytes : Channel → Bytes → Emitted
  marker : String → Value → Emitted

-- the fields of `CodexLaunch` that events change, and the published session file
pub record CodexLaunch : Type 0 where
  pub thread_id : Option String
  pub published : Option String
  pub completed : Bool
  pub assistant_response : Bool
  pub failed : Bool
  pub native_failure : Option NativeFailure

abbrev differs : Option String → String → Bool
differs none id = false
differs (some known) id = not (known == id)

-- What the adapter takes from outside: the parser, the SDK's names for two markers, and the digest of
-- the plan's prompt.
pub record Sdk : Type 0 where
  pub parse_json : Bytes → Option Value
  pub provider_session_marker : String
  pub submitted_user_turn_marker : String
  pub prompt_sha256 : String

-- the patterns of the `match` on an event's type
pub data EventKind : Type 0 where
  thread_start turn_start item_end turn_end turn_failure error_event other_event : EventKind

unfoldable pub kind_of : String → EventKind
kind_of kind =
    if kind == "thread.started"
    then thread_start
    else if kind == "turn.started"
    then turn_start
    else if kind == "item.completed"
    then item_end
    else if kind == "turn.completed"
    then turn_end
    else if kind == "turn.failed"
    then turn_failure
    else if kind == "error"
    then error_event
    else other_event

-- `trim` leaves something
abbrev has_text : String → Bool
has_text text = not (is_blank text)

module _ (sdk : Sdk) where
  -- "thread.started"
  unfoldable pub thread_started : CodexLaunch → Value → Result (CodexLaunch × List Emitted)
  unfolding valid_thread_id
  thread_started s event = elim (then_str (get event "thread_id")) [
    | none ↦ ok (s, [])
    | some id ↦ do
      refuse_if (not (valid_thread_id id))
          (failure "invalid_thread_identity" "Codex returned an invalid thread ID")
      refuse_if (differs s.thread_id id)
          (failure "thread_identity_changed" "Codex returned a different thread ID")
      let s' : CodexLaunch = record {
        thread_id = some id;
        published = some id;
        completed = s.completed;
        assistant_response = s.assistant_response;
        failed = s.failed;
        native_failure = s.native_failure;
      }
      ok (
        s',
        marker sdk.provider_session_marker
              (object (("provider_session_id", str id) ∷ ("source", str "codex.exec.json") ∷ []))
            ∷ [],
      )
  ]

  -- the marker of a user's turn, where the thread is known
  abbrev turn_marker : Option String → List Emitted
  turn_marker none = []
  turn_marker (some id) =
      marker sdk.submitted_user_turn_marker (
        object (
          ("provider_session_id", str id)
          ∷ ("prompt_sha256", str sdk.prompt_sha256)
          ∷ ("source", str "codex.exec.json")
          ∷ []))
      ∷ []

  -- "item.completed": the text of a message of the agent
  abbrev message_text : Value → Option String
  message_text event =
      if unwrap_or (then_str (pointer event ("item" ∷ "type" ∷ []))) "" == "agent_message"
      then then_str (pointer event ("item" ∷ "text" ∷ []))
      else none

  abbrev with_response : CodexLaunch → Bool → CodexLaunch
  with_response s response = record {
    thread_id = s.thread_id;
    published = s.published;
    completed = s.completed;
    assistant_response = s.assistant_response || response;
    failed = s.failed;
    native_failure = s.native_failure;
  }

  abbrev with_end : CodexLaunch → Bool → Bool → Option NativeFailure → CodexLaunch
  with_end s completed failed native_failure = record {
    thread_id = s.thread_id;
    published = s.published;
    completed = completed;
    assistant_response = s.assistant_response;
    failed = failed;
    native_failure = native_failure;
  }

  abbrev pub item_completed : CodexLaunch → Option String → CodexLaunch × List Emitted
  item_completed s none = (s, [])
  item_completed s (some text) =
      (with_response s (has_text text), data_bytes stdout (bytes (text ⋯ "\n")) ∷ [])

  abbrev pub event_type : Value → String
  event_type event = unwrap_or (then_str (get event "type")) ""

  -- the `match` on an event's type; `bs` is its line
  unfoldable pub on_kind :
      EventKind → CodexLaunch → Value → Bytes → Result (CodexLaunch × List Emitted)
  unfolding thread_started
  on_kind thread_start s event bs = thread_started s event
  on_kind turn_start s event bs = ok (s, turn_marker s.thread_id)
  on_kind item_end s event bs = ok (item_completed s (message_text event))
  on_kind turn_end s event bs = ok (with_end s true s.failed s.native_failure, [])
  on_kind turn_failure s event bs =
      ok (with_end s s.completed true (from_event event), data_bytes stderr bs ∷ [])
  on_kind error_event s event bs =
      ok (with_end s s.completed s.failed (from_event event), data_bytes stderr bs ∷ [])
  on_kind other_event s event bs = ok (s, [])

  unfoldable pub on_event : CodexLaunch → Value → Bytes → Result (CodexLaunch × List Emitted)
  unfolding on_kind kind_of
  on_event s event bs = on_kind (kind_of (event_type event)) s event bs

  unfoldable pub output : CodexLaunch → Channel → Bytes → Result (CodexLaunch × List Emitted)
  unfolding on_event
  output s stderr bs = ok (s, data_bytes stderr bs ∷ [])
  output s stdout bs = do
    event ← ok_or (sdk.parse_json bs) (failure "native_json_invalid" "Codex emitted invalid JSON")
    on_event s event bs

  -- the lifecycle's calls of `output`, one after the other
  unfoldable pub outputs :
      CodexLaunch → List (Channel × Bytes) → Result (CodexLaunch × List Emitted)
  unfolding output
  outputs s [] = ok (s, [])
  outputs s ((channel, bs) ∷ more) = do
    first ← output s channel bs
    rest ← outputs first.0 more
    ok (rest.0, first.1 ++ rest.1)

-- `NativeOutcome`: the exit code, the signal, and whether the host stopped the process
pub record NativeOutcome : Type 0 where
  pub code : Option ℤ
  pub signal : Option ℤ
  pub stopped : Bool

-- a clean exit of a turn that was not completed, or that failed, is a failure
unfoldable pub native_code : CodexLaunch → NativeOutcome → ℤ
native_code s outcome =
    let code = unwrap_or outcome.code (pos 1) in
    if is_zero code && (not s.completed || s.failed) then pos 1 else code

unfoldable pub terminal_status : CodexLaunch → NativeOutcome → ProcessStatus
unfolding native_code
terminal_status s outcome = if outcome.stopped then cancelled else elim outcome.signal [
  | some signal ↦ signal_terminated signal
  | none ↦ exited (native_code s outcome)
]

pub record Terminal : Type 0 where
  pub status : Value
  pub terminal_signal : Value
  pub session : Option String
  pub exit_code : ℤ

abbrev pub produced_response : Emitted
produced_response = marker "oulipoly.produced_assistant_response" (boolean true)

-- `accounting` is the sink's summary of what it has sent, `now` the time
module _ (bounded_text : String → ℕ → String) (accounting : List (String × Value)) (now : ℕ) where
  unfoldable pub finish : HostContext → Bool → CodexLaunch → NativeOutcome → Terminal × List Emitted
  unfolding terminal_status
  finish host output_requested s outcome =
      let status = terminal_status s outcome in
      let code = exit_code_for_status status in
      let response =
        if s.completed && not s.failed && s.assistant_response && is_zero code
        then produced_response ∷ []
        else [] in
      let summary =
        if output_requested
        then marker "oulipoly.launch_output_complete/v1"
            (object (accounting ++ ("protocol", str output_protocol) ∷ []))
          ∷ []
        else [] in
      (
        record {
          status = process_status_json status;
          terminal_signal =
              classify_with_failure bounded_text status now s.native_failure
                (host_supports_unavailable host);
          session = s.thread_id;
          exit_code = code;
        },
        response ++ summary,
      )
