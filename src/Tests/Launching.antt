-- ===== src/Tests/Launching.antt =====
-- A launch of one turn.
use agent_runner_codex.Prelude.{
  ℕ, ◌≡◌, refl, String, true, false, Bytes, [], ◌∷◌, List, Option, none, some, eqb, if◌then◌else◌,
  bytes,
}
use agent_runner_codex.Prelude.Int.{pos}
use agent_runner_codex.Json.{Value, get, object, str}
use agent_runner_codex.Envelope.{HostContext, Result, ok, err}
use agent_runner_codex.Terminal.Status.{exit_code_for_status}
use agent_runner_codex.Launch.{
  Channel, stdout, CodexLaunch, Emitted, NativeOutcome, Sdk, finish, outputs,
}
use agent_runner_codex.Launch.Laws.{exit_zero_completed, outputs_keep_thread, some_event}

abbrev thread : String
thread = "0123abcd-0123-0123-0123-0123456789ab"

abbrev started_json : Value
started_json = object (("type", str "thread.started") ∷ ("thread_id", str thread) ∷ [])

abbrev completed_json : Value
completed_json = object (("type", str "turn.completed") ∷ [])

abbrev parse_json : Bytes → Option Value
parse_json [] = none
parse_json (b ∷ bs) = if eqb b b's' then some started_json else some completed_json

abbrev sdk : Sdk
sdk = record {
  parse_json = parse_json;
  provider_session_marker = "session";
  submitted_user_turn_marker = "turn";
  prompt_sha256 = "0";
}

abbrev fresh : CodexLaunch
fresh = record {
  thread_id = none;
  published = none;
  completed = false;
  assistant_response = false;
  failed = false;
  native_failure = none;
}

abbrev lines : List (Channel × Bytes)
lines = (stdout, b's' ∷ []) ∷ (stdout, b'c' ∷ []) ∷ []

abbrev reached : Result (CodexLaunch × List Emitted) → CodexLaunch × List Emitted
reached (ok r) = r
reached (err e) = (fresh, [])

abbrev ended : CodexLaunch × List Emitted
unfolding outputs
ended = reached (outputs sdk fresh lines)

ran : outputs sdk fresh lines ≡ ok ended
unfolding ended outputs get bytes
ran = refl

abbrev once_more : CodexLaunch × List Emitted
unfolding outputs ended
once_more = reached (outputs sdk ended.0 lines)

ran_on : outputs sdk ended.0 lines ≡ ok once_more
unfolding once_more ended outputs get bytes
ran_on = refl

has_thread : ended.0.thread_id ≡ some thread
unfolding ended outputs get bytes
has_thread = refl

outputs_keep_thread_example : once_more.0.thread_id ≡ some thread
outputs_keep_thread_example =
    outputs_keep_thread sdk ended.0 lines once_more thread has_thread ran_on

abbrev host : HostContext
host = record {
  env = [];
  config_root = none;
  data_root = none;
  working_directory = none;
  deadline_unix_ms = none;
}

abbrev outcome : NativeOutcome
outcome = record { code = some (pos 0); signal = none; stopped = false }

abbrev whole_text : String → ℕ → String
whole_text s n = s

exits_zero : (finish whole_text [] 1 host false ended.0 outcome).0.exit_code ≡ pos 0
unfolding finish exit_code_for_status ended outputs get bytes
exits_zero = refl

exit_zero_completed_example :
    (some_event sdk "turn.completed" lines ≡ true) × (some_event sdk "turn.failed" lines ≡ false)
exit_zero_completed_example =
    exit_zero_completed sdk whole_text [] 1 host false fresh lines ended outcome refl ran refl
      exits_zero
