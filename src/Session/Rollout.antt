-- ===== src/Session/Rollout.antt =====
-- `read_rollout` of src/session.rs: the turns of a rollout. The JSON parser and the calendar are
-- outside the repository.
pub mod Laws
pub mod Torn
use agent_runner_codex.Prelude.{
  ℕ, zero, suc, String, Bool, true, false, not, ◌||◌, ◌&&◌, ◌==◌, ◌⋯◌, Bytes, List, [], ◌∷◌, ◌++◌,
  Option, none, some, ltb, if◌then◌else◌, length, all, is_empty, is_ascii_space, keep_if, or_else,
  unwrap_or, show, str_empty,
}
use agent_runner_codex.Prelude.Int.{ℤ, pos, negsuc}
use agent_runner_codex.Json.{Value, boolean, str, num, array, object, at, as_str, is_text}
use agent_runner_codex.Envelope.{Result, ok, err, ◌>>=◌, ◌>>◌, ok_or, refuse_if, internal}
use agent_runner_codex.Pages.Pack.{ends_newline}
use agent_runner_codex.Session.{
  RolloutFile, RolloutMeta, content_chunks, corrupt, parse_meta, read_line,
}

-- What the source calls of the calendar package: a time by its text, its text in UTC, its
-- milliseconds since 1970, and whether it is after another.
pub record Calendar : Type 1 where
  pub Instant : Type 0
  pub parse_rfc3339 : String → Option Instant
  pub to_rfc3339 : Instant → String
  pub timestamp_millis : Instant → ℤ
  pub is_after : Instant → Instant → Bool

abbrev pub max_rollout_bytes : ℕ
max_rollout_bytes = 536870912

pub record Rollout : Type 0 where
  pub meta : RolloutMeta
  pub turns : List Value
  pub complete : Bool
  pub task_completed : Option Bool

-- the variables of the loop of `read_rollout`
pub record Reading : Type 0 where
  pub meta : Option RolloutMeta
  pub turns : List Value
  pub complete : Bool
  pub task_completed : Option Bool
  pub line_no : ℕ

abbrev pub started : Reading
started = record { meta = none; turns = []; complete = true; task_completed = none; line_no = 0 }

-- `line_no += 1`
abbrev pub numbered : Reading → Reading
numbered s = record {
  meta = s.meta;
  turns = s.turns;
  complete = s.complete;
  task_completed = s.task_completed;
  line_no = suc s.line_no;
}

-- the same with `complete = false`
abbrev pub cut_short : Reading → Reading
cut_short s = record {
  meta = s.meta;
  turns = s.turns;
  complete = false;
  task_completed = s.task_completed;
  line_no = suc s.line_no;
}

-- how a round of the loop ends
pub data Round : Type 0 where
  again last : Reading → Round

abbrev pub after_round : (Reading → Result Reading) → Round → Result Reading
after_round rest (again s) = rest s
after_round rest (last s) = ok s

-- what an event says of the task
unfoldable pub told : Option String → Option Bool
told none = none
told (some kind) =
    if kind == "task_complete" || kind == "task_completed" || kind == "turn_completed"
    then some true
    else if kind == "task_started"
        || kind == "turn_started"
        || kind == "turn_aborted"
        || kind == "error"
    then some false
    else none

abbrev known_role : Option String → Option String
known_role none = none
known_role (some role) = if role == "user" || role == "assistant" then some role else none

unfoldable pub is_final : Value → Bool
is_final payload =
    is_text (at payload "phase") "final_answer" || is_text (at payload "phase") "final"

unfoldable pub is_message : Value → Bool
is_message value = not (
    not (is_text (at value "type") "response_item")
    || not (is_text (at (at value "payload") "type") "message"))

-- `task_completed` after an event, and after a message
abbrev after_event : Value → Option Bool → Option Bool
unfolding told
after_event value before =
    if is_text (at value "type") "event_msg"
    then or_else (told (as_str (at (at value "payload") "type"))) before
    else before

abbrev after_message : String → Bool → Option Bool → Option Bool
after_message role final before =
    let by_user = if role == "user" then some false else before in
    if role == "assistant" && final then some true else by_user

module _ (calendar : Calendar) where
  -- `timestamp_ms`
  abbrev pub non_negative : ℤ → Option ℕ
  non_negative (pos n) = some n
  non_negative (negsuc n) = none

  unfoldable pub timestamp_ms : Option String → Option ℕ
  timestamp_ms none = none
  timestamp_ms (some s) = elim (calendar.parse_rfc3339 s) [
    | none ↦ none
    | some instant ↦ non_negative (calendar.timestamp_millis instant)
  ]

  -- the time of a record in canonical form
  unfoldable pub canonical_time : Value → Option String
  canonical_time value = elim (as_str (at value "timestamp")) [
    | none ↦ none
    | some s ↦ elim (calendar.parse_rfc3339 s) [
      | none ↦ none
      | some instant ↦ some (calendar.to_rfc3339 instant)
    ]
  ]

  unfoldable pub turn_of : String → ℕ → String → String → Value → Value
  unfolding is_final
  turn_of id line_no role timestamp payload = object (
      ("session_id", str id)
      ∷ (
        "turn_id",
        str (
            unwrap_or (keep_if (λ s. not (str_empty s)) (as_str (at payload "id")))
              (id ⋯ ":line:" ⋯ show line_no)),
      )
      ∷ ("role", str role)
      ∷ ("timestamp", str timestamp)
      ∷ ("body", array (content_chunks (at payload "content")))
      ∷ (
        "native",
        object (
            ("message_id", at payload "id")
            ∷ ("phase", at payload "phase")
            ∷ ("line", num line_no)
            ∷ ("completed", boolean (role == "user" || is_final payload))
            ∷ []),
      )
      ∷ [])

  module _ (parse_json : Bytes → Option Value) (request_id : String) where
    -- a record after the first
    unfoldable pub on_record : RolloutMeta → Reading → Value → Result Reading
    unfolding told is_final is_message canonical_time turn_of
    on_record meta s value =
        let payload = at value "payload" in
        let told_state = after_event value s.task_completed in
        let skipped : Reading = record {
          meta = s.meta;
          turns = s.turns;
          complete = s.complete;
          task_completed = told_state;
          line_no = s.line_no;
        } in
        if is_message value
        then elim (known_role (as_str (at payload "role"))) [
          | none ↦ ok skipped
          | some role ↦ (do
            timestamp ← ok_or (canonical_time value) (corrupt request_id)
            ok (record {
              meta = s.meta;
              turns = s.turns ++ (turn_of meta.id s.line_no role timestamp payload ∷ []);
              complete = s.complete;
              task_completed = after_message role (is_final payload) told_state;
              line_no = s.line_no;
            }))
        ]
        else ok skipped

    -- the first record, whose identity is the one that is expected
    unfoldable pub on_first : Option String → Reading → Value → Result Reading
    unfolding timestamp_ms
    on_first expected s value = do
      parsed ← parse_meta request_id parse_json timestamp_ms value
      refuse_if (elim expected [ none ↦ false | some id ↦ not (id == parsed.id) ])
          (corrupt request_id)
      ok (record {
        meta = some parsed;
        turns = s.turns;
        complete = s.complete;
        task_completed = s.task_completed;
        line_no = s.line_no;
      })

    unfoldable pub on_line : Option String → Reading → Bytes → Result Round
    unfolding on_record on_first
    on_line expected s line =
        if all is_ascii_space line then ok (again (numbered s)) else elim (parse_json line) [
          | none ↦ if ends_newline line then err (corrupt request_id) else ok (last (cut_short s))
          | some value ↦ elim s.meta [
            | none ↦ on_first expected (numbered s) value >>= λ s'. ok (again s')
            | some meta ↦ on_record meta (numbered s) value >>= λ s'. ok (again s')
          ]
        ]

    -- The loop: a round reads at least one byte, so more fuel than bytes is enough.
    unfoldable pub read_lines : Option String → ℕ → Reading → Bytes → Result Reading
    unfolding on_line
    read_lines expected zero s bs = err (corrupt request_id)
    read_lines expected (suc fuel) s bs = do
      read ← read_line request_id bs
      let rest : Reading → Result Reading = λ s'. read_lines expected fuel s' read.1
      if is_empty read.0
          then ok s
          else (do round ← on_line expected s read.0; after_round rest round)

    abbrev pub rollout_of : Reading → Result Rollout
    rollout_of s = do
      meta ← ok_or s.meta (corrupt request_id)
      ok (record {
        meta = meta;
        turns = s.turns;
        complete = s.complete;
        task_completed = s.task_completed;
      })

    unfoldable pub read_rollout : RolloutFile → Option String → Result Rollout
    unfolding read_lines
    read_rollout file expected = do
      refuse_if (ltb max_rollout_bytes (length file.content))
          (internal request_id "codex_rollout_capacity" "Codex rollout exceeds the read size limit")
      s ← read_lines expected (suc (length file.content)) started file.content
      rollout_of s
