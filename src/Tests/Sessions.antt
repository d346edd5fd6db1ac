-- ===== src/Tests/Sessions.antt =====
-- The session operations at concrete inputs.
use agent_runner_codex.Prelude.{
  ℕ, ◌≡◌, refl, String, true, Bytes, List, [], ◌∷◌, Option, none, some, All, arith, bytes, is_blank,
  strip_prefix, strip_suffix,
}
use agent_runner_codex.Prelude.Decimal.{has_no_colon}
use agent_runner_codex.Prelude.Sorting.{sort_by}
use agent_runner_codex.Account.{is_absolute, join}
use agent_runner_codex.Session.Walk.{in_order}
use agent_runner_codex.Json.{Value, lookup, members, as_str, at, get, object, pointer, str}
use agent_runner_codex.Envelope.{HostContext, RequestEnvelope, Result, ok, err}
use agent_runner_codex.Pages.Pack.{read_frame}
use agent_runner_codex.Session.{RolloutFile, metadata, parse_meta, read_line}
use agent_runner_codex.Session.Rollout.{read_rollout}
use agent_runner_codex.Session.Capture.{candidates, capture}
use agent_runner_codex.Session.Capture.Laws.{Agrees, IsAnswer, capture-Agrees}
use agent_runner_codex.Session.Enumerate.{EnumerateParams, enumerate}
use agent_runner_codex.Session.Enumerate.Laws.{IsPage, enumerate-IsPage}
use agent_runner_codex.Session.Enumerate.Pages.{follow, follow_whole}
use agent_runner_codex.Session.Handle.{Tools, World, handle}
use agent_runner_codex.Tests.Reading.{here, outside}
use agent_runner_codex.Tests.Rollouts.{calendar, file, files, parse_json, watching}

abbrev three : List Value
three = str "a" ∷ str "b" ∷ str "c" ∷ []

follow_whole_example : follow "r" "0f" 4 three 2 none ≡ some (ok three)
unfolding has_no_colon
follow_whole_example = follow_whole "r" "0f" three 2 refl (omega arith) (omega arith)

abbrev everything : EnumerateParams
everything = record {
  settings_id = "codex";
  limit = some 1;
  cursor = none;
  include_cwd = true;
  include_turn_count = true;
  since_unix_ms = some 3;
}

-- a second rollout, whose first record names another session
abbrev other_file : RolloutFile
other_file = record {
  path = "/u/.codex/sessions/rollout-2-o.jsonl";
  name = "rollout-2-o.jsonl";
  stamp = file.stamp;
  content = b'x' ∷ b'\n' ∷ [];
}

abbrev time_of : RolloutFile → Option (Option ℕ)
time_of f = some (some 7)

abbrev no_bytes : Value → Bytes
no_bytes v = []

abbrev print : Bytes → String
print bs = "0f"

abbrev listing : String → Result (List RolloutFile)
listing root = ok (file ∷ other_file ∷ [])

abbrev value_of : Result Value → Value
value_of (ok v) = v
value_of (err e) = str ""

abbrev listed : Value
unfolding enumerate
listed =
    value_of
      (enumerate "r" calendar parse_json time_of no_bytes print everything (ok "/u/.codex") listing)

enumerated :
    enumerate "r" calendar parse_json time_of no_bytes print everything (ok "/u/.codex") listing
    ≡ ok listed
unfolding listed enumerate metadata read_rollout read_line read_frame parse_meta at bytes
enumerated = refl

enumerate-IsPage_example : IsPage "r" calendar parse_json time_of everything listed
enumerate-IsPage_example =
    enumerate-IsPage "r" calendar parse_json time_of no_bytes print everything (ok "/u/.codex")
      listing listed enumerated

abbrev report : Value
report = object (
    ("session_id", str "s")
    ∷ ("invocation_uuid", str "i")
    ∷ ("live_report", object (("provider_session_id", str "s") ∷ ("invocation_uuid", str "i") ∷ []))
    ∷ [])

abbrev host : HostContext
host = record {
  env = ("HOME", "/u") ∷ [];
  config_root = none;
  data_root = none;
  working_directory = some "/w/";
  deadline_unix_ms = none;
}

abbrev opened : String → RolloutFile
opened path = file

abbrev captured_value : Value
unfolding capture
captured_value =
    value_of (capture calendar parse_json "r" report host (ok "/u/.codex") listing opened)

was_captured :
    capture calendar parse_json "r" report host (ok "/u/.codex") listing opened ≡ ok captured_value
unfolding captured_value capture get members is_blank pointer bytes read_frame at strip_suffix
was_captured = refl

capture-Agrees_example :
    All (Agrees report (as_str (at captured_value "provider_session_id"))) candidates
    × IsAnswer calendar parse_json "r" report host listing opened captured_value
capture-Agrees_example =
    capture-Agrees calendar parse_json "r" report host (ok "/u/.codex") listing opened
      captured_value was_captured

abbrev pub tools : Tools
tools = record {
  calendar = calendar;
  parse_json = parse_json;
  decode_session = λ v. some watching;
  decode_enumerate = λ v. some everything;
  to_vec = no_bytes;
  sha256_hex = print;
  pages = outside;
}

abbrev pub world : World
world = record {
  home_var = none;
  files = files;
  opened = opened;
  file_time = time_of;
  paging = here;
}

abbrev pub request : RequestEnvelope
request = record { request_id = "r"; provider_instance_id = some "p"; host = host; params = report }

abbrev option_of : Result (Option Value) → Option Value
option_of (ok o) = o
option_of (err e) = none

abbrev turns : Option Value
unfolding handle
turns = option_of (handle tools world request "session.read_turns")

handled : handle tools world request "session.read_turns" ≡ ok turns
unfolding turns handle get lookup is_absolute is_blank bytes in_order join strip_prefix strip_suffix
    sort_by read_frame at
handled = refl
