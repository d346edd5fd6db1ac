-- ===== src/Tests/Rollouts.antt =====
-- The reading of a rollout, and the walk to it, at concrete inputs.
use agent_runner_codex.Prelude.{
  ℕ, ◌↔◌, ◌≡◌, ◌≤◌, ◌==◌, ◌||◌, refl, String, true, false, Bytes, List, [], ◌∷◌, ◌++◌, Option, none,
  some, All, arith, eqb, if◌then◌else◌, is_some, length, bytes,
}
use agent_runner_codex.Prelude.{strip_prefix, strip_suffix}
use agent_runner_codex.Prelude.Sorting.{sort_by}
use agent_runner_codex.Account.{join}
use agent_runner_codex.Prelude.Int.{pos}
use agent_runner_codex.Json.{Value, at, object, str}
use agent_runner_codex.Envelope.{Result, ok, err}
use agent_runner_codex.Session.{RolloutFile, parse_meta, read_line}
use agent_runner_codex.Pages.Pack.{read_frame}
use agent_runner_codex.Pages.Pack.Frames.{HasNoNewline}
use agent_runner_codex.Session.Rollout.{Calendar, Rollout, read_rollout, started}
use agent_runner_codex.Session.Rollout.Torn.{
  IsLine, marked, over, read_rollout-over, read_rollout-torn, result_of, text_of, with_content,
}
use agent_runner_codex.Session.Turns.{SessionParams, read_turns}
use agent_runner_codex.Session.Turns.Laws.{
  IsObservation, SomeUnreadable, read_turns-IsObservation, read_turns_panics,
}
use agent_runner_codex.Session.Walk.{
  Entry, directory, regular, other, Files, Found, in_order, not_found, found, rollout_paths,
  max_rollouts,
}
use agent_runner_codex.Session.Walk.Laws.{rollout_paths_ends}
use agent_runner_codex.Session.Walk.Sound.{IsRollout, rollout_paths-IsRollout}

-- a calendar whose times are their texts
abbrev pub calendar : Calendar
calendar = record {
  Instant = String;
  parse_rfc3339 = λ s. some s;
  to_rfc3339 = λ s. s;
  timestamp_millis = λ s. pos 5;
  is_after = λ s t. false;
}

abbrev pub meta_json : Value
meta_json = object (
    ("type", str "session_meta")
    ∷ ("payload", object (("id", str "s") ∷ ("cwd", str "/w") ∷ []))
    ∷ [])

abbrev message_json : Value
message_json = object (
    ("type", str "response_item")
    ∷ ("timestamp", str "t")
    ∷ (
      "payload",
      object (("type", str "message") ∷ ("role", str "user") ∷ ("content", str "hello") ∷ []),
    )
    ∷ [])

abbrev pub parse_json : Bytes → Option Value
parse_json [] = none
parse_json (b ∷ bs) =
    if eqb b b'm' then some meta_json else if eqb b b'u' then some message_json else none

abbrev pub lines : List Bytes
lines = (b'm' ∷ []) ∷ (b'u' ∷ []) ∷ (b'u' ∷ []) ∷ []

abbrev pub file : RolloutFile
file = record {
  path = "/u/.codex/sessions/rollout-1-s.jsonl";
  name = "rollout-1-s.jsonl";
  stamp = record { device = 1; inode = 2; len = 6; modified = 0 };
  content = b'm' ∷ b'\n' ∷ b'u' ∷ b'\n' ∷ b'u' ∷ b'\n' ∷ [];
}

abbrev none_read : Rollout
none_read = record {
  meta = record { id = ""; cwd = none; created_unix_ms = none };
  turns = [];
  complete = false;
  task_completed = none;
}

abbrev answer : Result Rollout → Rollout
answer (ok r) = r
answer (err e) = none_read

abbrev rollout : Rollout
unfolding read_rollout
rollout = answer (read_rollout calendar parse_json "r" file (some "s"))

one_plain : (b : ℕ) → eqb b b'\n' ≡ false → HasNoNewline (b ∷ [])
one_plain b h = (λ e. ground (arith, e), tt)

lines-IsLine : All IsLine lines
lines-IsLine = (
  (one_plain b'm' refl, omega arith),
  ((one_plain b'u' refl, omega arith), ((one_plain b'u' refl, omega arith), tt)),
)

read_rollout-over_example :
    read_rollout calendar parse_json "r" (with_content file (text_of lines)) (some "s")
    ≡ result_of calendar parse_json "r"
        (some "s")
        (over calendar parse_json "r" (some "s") started lines)
read_rollout-over_example =
    read_rollout-over calendar parse_json "r" (some "s") file lines lines-IsLine (omega arith)

read_rollout-torn_example :
    read_rollout calendar parse_json "r"
      (with_content file (text_of lines ++ (b'x' ∷ [])))
      (some "s")
    ≡ marked calendar parse_json "r"
        (some "s")
        (read_rollout calendar parse_json "r" (with_content file (text_of lines)) (some "s"))
read_rollout-torn_example =
    read_rollout-torn calendar parse_json "r" (some "s") file lines (b'x' ∷ []) lines-IsLine
      (one_plain b'x' refl) (omega arith) refl refl (omega arith)

abbrev pub watching : SessionParams
watching = record {
  settings_id = "codex";
  session_id = some "s";
  turn_projection = some "user_observation";
  body_tail_limit = some 1;
  after_timestamp = none;
  after_unix_ms = some 3;
}

abbrev value_of : Result (Option Value) → Value
value_of (ok (some v)) = v
value_of _ = str ""

abbrev observation : Value
unfolding read_turns
observation = value_of (read_turns calendar parse_json "r" file "s" watching)

was_observed : read_turns calendar parse_json "r" file "s" watching ≡ ok (some observation)
unfolding observation read_turns read_line read_frame parse_meta at bytes read_rollout
was_observed = refl

read_turns-IsObservation_example : IsObservation calendar parse_json "r" "s" watching observation
read_turns-IsObservation_example =
    read_turns-IsObservation calendar parse_json "r" file "s" watching observation refl was_observed

-- a calendar that writes a time otherwise than it reads it
abbrev late : Calendar
late = record {
  Instant = String;
  parse_rfc3339 = λ s. if s == "t" then some s else none;
  to_rfc3339 = λ s. "+t";
  timestamp_millis = λ s. pos 5;
  is_after = λ s t. false;
}

panicked : read_turns late parse_json "r" file "s" watching ≡ ok none
unfolding read_turns read_line read_frame parse_meta at bytes read_rollout
panicked = refl

read_turns_panics_example :
    (rollout : Rollout) × (read_rollout late parse_json "r" file (some "s") ≡ ok rollout)
    × ((◌≡◌ {A = Option Value} none none) ↔ SomeUnreadable late parse_json "r" rollout.turns)
read_turns_panics_example = read_turns_panics late parse_json "r" file "s" watching none panicked

abbrev regular_entry : String → String → Option Entry
regular_entry path name = some (record { path = path; name = name; file_type = some regular })

abbrev listing : String → Option (List (Option Entry))
listing path =
    if path == "/u/.codex/sessions"
    then some (
        some (record { path = "/u/.codex/sessions/d"; name = "d"; file_type = some directory })
        ∷ some (record { path = "/u/.codex/sessions/l"; name = "l"; file_type = some other })
        ∷ regular_entry "/u/.codex/sessions/notes" "notes"
        ∷ [])
    else if path == "/u/.codex/sessions/d"
    then some (regular_entry "/u/.codex/sessions/d/rollout-1-s.jsonl" "rollout-1-s.jsonl" ∷ [])
    else none

abbrev metadata_of : String → Found
metadata_of path =
    if path == "/u/.codex/sessions" || path == "/u/.codex/sessions/d"
    then found directory
    else not_found

abbrev pub files : Files
files = record { symlink_metadata = metadata_of; read_dir = listing }

rollout_paths_ends_example : is_some (rollout_paths "r" files "/u/.codex") ≡ true
rollout_paths_ends_example = rollout_paths_ends "r" files "/u/.codex"

abbrev only_path : List String
only_path = "/u/.codex/sessions/d/rollout-1-s.jsonl" ∷ []

walked : rollout_paths "r" files "/u/.codex" ≡ some (ok only_path)
unfolding rollout_paths in_order join strip_prefix strip_suffix sort_by
walked = refl

rollout_paths-IsRollout_example :
    All (IsRollout "r" files "/u/.codex") only_path × (length only_path ≤ max_rollouts)
rollout_paths-IsRollout_example = rollout_paths-IsRollout "r" files "/u/.codex" only_path walked
