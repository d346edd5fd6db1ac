-- ===== src/Session.antt =====
-- src/session.rs: the identity of Codex rollouts, the search for one, and the text of a message. The
-- JSON parser and the calendar are outside the repository. The child modules model the
-- other operations.

pub mod Locate
pub mod Rollout
pub mod Turns
pub mod Walk
pub mod Enumerate
pub mod Capture
pub mod Handle
use agent_runner_codex.Prelude.{
  ℕ, zero, suc, ◌+◌, ◌-◌, String, Bool, true, false, not, ◌||◌, ◌&&◌, ◌==◌, ◌⋯◌, Bytes, List, [],
  ◌∷◌, ◌++◌, Option, none, some, ltb, eqb, if◌then◌else◌, length, all, is_empty, bytes, is_some,
  keep_if, or_else, is_alphanumeric, is_ascii_space, has_suffix, str_empty, str_len,
}
use agent_runner_codex.Json.{
  Value, Values, null, boolean, number, str, arr, obj, nil, cons, object, at, as_str, get, is_text,
  then_str,
}
use agent_runner_codex.Envelope.{
  ProviderFailure, Result, ok, err, ◌>>=◌, ◌>>◌, ok_or, refuse_if, invalid_request, internal,
  conflict, empty_object,
}
use agent_runner_codex.Pages.Types.{Stamp}
use agent_runner_codex.Pages.Pack.{read_frame, ends_newline}

-- the block of a message's content as a part of a canonical turn
abbrev part : String → String → Value
part kind text = object (("type", str kind) ∷ ("text", str text) ∷ [])

-- the kind that a part's own type stands for
abbrev part_kind : Option String → String
part_kind none = "text"
part_kind (some kind) = if kind == "input_text" || kind == "output_text" then "text" else kind

unfoldable mutual
  pub content_chunks : Value → List Value
  content_chunks (str text) = part "text" text ∷ []
  content_chunks (arr parts) = all_chunks parts
  content_chunks (obj fields) =
      elim (then_str (or_else (get (obj fields) "text") (get (obj fields) "content"))) [
        | none ↦ []
        | some text ↦ part (part_kind (then_str (get (obj fields) "type"))) text ∷ []
      ]
  content_chunks null = []
  content_chunks (boolean b) = []
  content_chunks (number n) = []

  all_chunks : Values → List Value
  all_chunks nil = []
  all_chunks (cons v vs) = content_chunks v ++ all_chunks vs

abbrev pub max_line_bytes : ℕ
max_line_bytes = 16777216

pub record RolloutMeta : Type 0 where
  pub id : String
  pub cwd : Option String
  pub created_unix_ms : Option ℕ

-- a regular file that `rollout_paths` lists, as it is found when it is opened
pub record RolloutFile : Type 0 where
  pub path : String
  pub name : String
  pub stamp : Stamp
  pub content : Bytes

module _ (request_id : String) where
  abbrev pub invalid : String → ProviderFailure
  invalid message = invalid_request request_id "invalid_session_params" message

  abbrev pub corrupt : ProviderFailure
  corrupt =
      internal request_id "codex_rollout_invalid"
        "Codex rollout contains invalid metadata or a malformed complete record"

  abbrev pub not_found : ProviderFailure
  not_found =
      invalid_request request_id "codex_session_not_found"
        "Session was not found in the selected Codex account"

  abbrev line_limit : ProviderFailure
  line_limit =
      internal request_id "codex_rollout_capacity" "Codex rollout record exceeds the size limit"

  unfoldable pub validate_session_id : String → Result (Unit {0})
  validate_session_id id =
      refuse_if
        (str_empty id
          || ltb 256 (str_len id)
          || not (all (λ b. is_alphanumeric b || eqb b b'-' || eqb b b'_') (bytes id)))
        (invalid "Invalid Codex session ID")

  -- a line and what is left
  unfoldable pub read_line : Bytes → Result (Bytes × Bytes)
  read_line bs = do
    let read = read_frame (suc max_line_bytes) bs
    refuse_if (ltb max_line_bytes (length read.0)) line_limit
    ok read

  -- `map_err(|_| corrupt(request))`
  abbrev pub or_corrupt {ℓ} : {A : Type ℓ} → Result A → Result A
  or_corrupt (err e) = err corrupt
  or_corrupt (ok a) = ok a

  module _ (parse_json : Bytes → Option Value) (timestamp_ms : Option String → Option ℕ) where
    unfoldable pub parse_meta : Value → Result RolloutMeta
    unfolding validate_session_id
    parse_meta value = do
      refuse_if (not (is_text (at value "type") "session_meta")) corrupt
      let payload = at value "payload"
      id ← ok_or (keep_if (λ s. not (str_empty s)) (as_str (at payload "id"))) corrupt
      or_corrupt (validate_session_id id)
      ok (record {
        id = id;
        cwd = as_str (at payload "cwd");
        created_unix_ms =
            timestamp_ms
              (or_else (as_str (at payload "timestamp")) (as_str (at value "timestamp")));
      })

    -- The loop of `metadata`: a round reads at least one byte, so more fuel than bytes is enough.
    metadata_from : ℕ → Bytes → Result RolloutMeta
    unfolding parse_meta read_line
    metadata_from zero bs = err corrupt
    metadata_from (suc fuel) bs = do
      read ← read_line bs
      let again = metadata_from fuel read.1
      if is_empty read.0
          then err corrupt
          else if all is_ascii_space read.0
          then again
          else (do value ← ok_or (parse_json read.0) corrupt; parse_meta value)

    unfoldable pub metadata : RolloutFile → Result RolloutMeta
    unfolding metadata_from
    metadata file = metadata_from (suc (length file.content)) file.content
