-- ===== src/Session/Capture.antt =====
-- `capture` of src/session.rs, from the decoded parameters and the account's home on.
pub mod Laws
use agent_runner_codex.Prelude.{
  ℕ, zero, suc, String, Bool, true, false, not, ◌||◌, ◌&&◌, ◌==◌, ◌⋯◌, Bytes, List, [], ◌∷◌, Option,
  none, some, eqb, if◌then◌else◌, length, all, keep_if, is_blank, is_some, str_empty, texts_eq,
}
use agent_runner_codex.Json.{
  Value, Fields, null, boolean, str, array, object, as_object, as_str, at, get, is_null, members,
  pointer, get_field, then_str,
}
use agent_runner_codex.Envelope.{
  HostContext, RequestEnvelope, Result, ok, err, ◌>>=◌, ◌>>◌, ok_or, refuse_if,
}
use agent_runner_codex.Account.Components.{components}
use agent_runner_codex.Session.{RolloutFile, invalid, not_found, validate_session_id}
use agent_runner_codex.Session.Locate.{locate}
use agent_runner_codex.Session.Rollout.{Calendar, Rollout, read_rollout, timestamp_ms}

abbrev pub format_id : String
format_id = "codex.rollout/jsonl"

abbrev pub source_id : String → String
source_id id = "codex.rollout:" ⋯ id

-- Where a request may give the identity, as the keys of its JSON pointer, and what that place is called.
abbrev pub candidates : List (List String × String)
candidates =
    ("live_report" ∷ "provider_session_id" ∷ [], "live_report.provider_session_id")
    ∷ ("launch" ∷ "session" ∷ "provider_session_id" ∷ [], "launch.session.provider_session_id")
    ∷ ("session_id" ∷ [], "session_id")
    ∷ ("pinned_target" ∷ [], "pinned_target")
    ∷ ("start_bound_provider_session_id" ∷ [], "start_bound_provider_session_id")
    ∷ []

-- a member that is a text with something in it
abbrev is_filled : Fields → String → Bool
is_filled fields key = is_some (keep_if (λ s. not (is_blank s)) (then_str (get_field key fields)))

-- two optional texts, compared as paths
unfoldable pub same_path : Option String → Option String → Bool
unfolding components texts_eq
same_path none none = true
same_path (some p) (some q) = texts_eq (components p) (components q)
same_path _ _ = false

abbrev pub same_text : Option String → Option String → Bool
same_text none none = true
same_text (some s) (some t) = s == t
same_text _ _ = false

module _ (request_id : String) where
  -- the checks on `live_report` before the rollout is read
  unfoldable pub check_report : Option Value → Result (Unit {0})
  check_report none = ok tt
  check_report (some report) = do
    fields ← ok_or (as_object report) (invalid request_id "live_report must be an object")
    refuse_if
        (not (eqb (length (members fields)) 2)
          || not (all (is_filled fields) ("provider_session_id" ∷ "invocation_uuid" ∷ [])))
        (invalid request_id "live_report requires a session ID and invocation UUID")

  -- The loop over the candidates, with the identity selected so far.
  unfoldable pub select :
      Value
      → Option (String × String)
      → List (List String × String)
      → Result (Option (String × String))
  unfolding validate_session_id
  select params selected [] = ok selected
  select params selected ((keys, source) ∷ rest) =
      let others : Option (String × String) → Result (Option (String × String)) =
        λ chosen. select params chosen rest in
      elim (keep_if (λ v. not (is_null v)) (pointer params keys)) [
        | none ↦ others selected
        | some value ↦ (do
          id ←
              ok_or (keep_if (λ s. not (str_empty s)) (as_str value))
                (invalid request_id "Session capture identity must be non-empty")
          validate_session_id request_id id
          refuse_if (elim selected [ none ↦ false | some expected ↦ not (expected.0 == id) ])
              (invalid request_id "Conflicting session capture identity evidence")
          others (elim selected [ none ↦ some (id, source) | some first ↦ some first ]))
      ]

  -- the checks on `live_report` against the request and the rollout
  unfoldable pub check_live : Value → HostContext → Rollout → Result (Unit {0})
  unfolding same_path
  check_live params host rollout =
      if is_some (get params "live_report")
      then (do
        let invocation = keep_if (λ s. not (str_empty s)) (as_str (at params "invocation_uuid"))
        let reported = then_str (pointer params ("live_report" ∷ "invocation_uuid" ∷ []))
        refuse_if (not (is_some invocation) || not (same_text invocation reported))
            (invalid request_id "live_report.invocation_uuid must match invocation_uuid")
        let cwd = keep_if (λ s. not (str_empty s)) host.working_directory
        refuse_if (not (is_some cwd) || not (same_path cwd rollout.meta.cwd))
            (invalid request_id "Live report workspace does not match the selected Codex rollout"))
      else ok tt

abbrev optional_bool : Option Bool → Value
optional_bool none = null
optional_bool (some b) = boolean b

abbrev pub no_capture : Value
no_capture = object (
    ("provider_session_id", null)
    ∷ ("state", object (("source", str "none") ∷ ("format_id", str format_id) ∷ []))
    ∷ ("artifacts", array [])
    ∷ [])

abbrev pub capture_of : String → String → String → Rollout → Value
capture_of id source path rollout = object (
    ("provider_session_id", str id)
    ∷ (
      "state",
      object (
          ("source", str source)
          ∷ ("source_id", str (source_id id))
          ∷ ("format_id", str format_id)
          ∷ ("transcript_complete", boolean rollout.complete)
          ∷ ("task_completed", optional_bool rollout.task_completed)
          ∷ []),
    )
    ∷ ("artifacts", array (object (("kind", str "codex-rollout") ∷ ("path", str path) ∷ []) ∷ []))
    ∷ [])

module _ (calendar : Calendar) (parse_json : Bytes → Option Value) (request_id : String) where
  -- what follows once an identity is selected
  unfoldable pub captured :
      Value
      → HostContext
      → Result (List RolloutFile)
      → (String → RolloutFile)
      → String × String
      → Result Value
  unfolding locate timestamp_ms read_rollout check_live
  captured params host listing opened (id, source) = do
    files ← listing
    located ← locate parse_json (timestamp_ms calendar) request_id id files
    path ← ok_or located (not_found request_id)
    rollout ← read_rollout calendar parse_json request_id (opened path) (some id)
    check_live request_id params host rollout
    ok (capture_of id source path rollout)

  abbrev pub capture_selected :
      Value
      → HostContext
      → Result (List RolloutFile)
      → (String → RolloutFile)
      → Option (String × String)
      → Result Value
  unfolding captured
  capture_selected params host listing opened none = ok no_capture
  capture_selected params host listing opened (some chosen) =
      captured params host listing opened chosen

  -- `home` is what `account_home` answers, `listing` what `rollout_paths` does.
  unfoldable pub capture :
      Value
      → HostContext
      → Result String
      → (String → Result (List RolloutFile))
      → (String → RolloutFile)
      → Result Value
  unfolding check_report select capture_selected
  capture params host home listing opened = do
    root ← home
    refuse_if (is_some (get params "evidence"))
        (invalid request_id "The removed evidence field is unsupported")
    check_report request_id (get params "live_report")
    selected ← select request_id params none candidates
    capture_selected params host (listing root) opened selected
