-- ===== src/Terminal.antt =====
-- src/terminal.rs: what a finished native process means to the host.
-- `decode_params` (serde's derived decoder), `decode_base64`, `bounded_text` and `parse_json` are
-- code outside the repository.
pub mod Status
pub mod Laws
use agent_runner_codex.Prelude.{
  ℕ, String, Bool, true, false, ◌||◌, ◌⊎◌, inl, inr, ◌==◌, ◌⋯◌, Bytes, List, [], ◌∷◌, ◌++◌, Option,
  none, some, eqb, if◌then◌else◌, strip_prefix, has_prefix, unwrap_or, is_some,
}
use agent_runner_codex.Json.{Value, str, num, object, at, get, pointer, as_str, then_str, lookup}
use agent_runner_codex.Envelope.{
  HostContext, ProviderFailure, invalid_request, Result, ok, err, ◌>>=◌,
}
use agent_runner_codex.Terminal.Status.{
  ProcessStatus, exited, unknown, is_failure, signal_kind, signal_evidence,
}

abbrev is_one : Option String → Bool
is_one none = false
is_one (some v) = v == "1"

unfoldable pub host_supports_unavailable : HostContext → Bool
host_supports_unavailable host = is_one (lookup "OULIPOLY_HOST_TERMINAL_UNAVAILABLE_V1" host.env)

pub data NativeFailure : Type 0 where
  quota rate_limit unavailable : NativeFailure

abbrev type_is : Value → String → Bool
type_is event t = elim (as_str (at event "type")) [ none ↦ false | some s ↦ s == t ]

unfoldable pub is_native_error : Value → Bool
is_native_error event = type_is event "turn.failed" || type_is event "error"

-- the tests on the message, in the source's order
unfoldable pub from_message : String → Option NativeFailure
from_message message =
    if message == "Selected model is at capacity. Please try a different model."
    then some unavailable
    else if has_prefix message "You've hit your usage limit."
        || has_prefix message "You've hit your usage limit for "
        || message == "Quota exceeded. Check your plan and billing details."
        || has_prefix message "Your workspace is out of credits."
        || has_prefix message "You hit your spend cap set in your workspace."
        || has_prefix message "You hit your spend cap set by the owner of your workspace."
    then some quota
    else if has_prefix message "rate limit exceeded: "
        || has_prefix message "unexpected status 429 Too Many Requests:"
        || has_prefix message "exceeded retry limit, last status: 429 Too Many Requests"
    then some rate_limit
    else none

-- the field that holds an event's message
unfoldable pub event_message : Value → Option String
event_message event =
    if type_is event "turn.failed"
    then then_str (pointer event ("error" ∷ "message" ∷ []))
    else if type_is event "error"
    then then_str (get event "message")
    else none

abbrev pub compact_prefix : String
compact_prefix = "Error running remote compact task: "

unfoldable pub from_event : Value → Option NativeFailure
unfolding from_message event_message
from_event event = elim (event_message event) [
  | none ↦ none
  | some message ↦ from_message (unwrap_or (strip_prefix message compact_prefix) message)
]

unfoldable pub terminal_signal : String → String → ℕ → Value
terminal_signal kind evidence observed_at_unix_ms = object (
    ("kind", str kind)
    ∷ ("evidence", str evidence)
    ∷ ("observed_at_unix_ms", num observed_at_unix_ms)
    ∷ [])

abbrev pub failure_kind : NativeFailure → Bool → String
failure_kind quota supports = "quota_exhausted_inband"
failure_kind rate_limit supports = "rate_limited"
failure_kind unavailable supports = if supports then "provider_unavailable" else "nonzero_exit"

abbrev pub failure_evidence : NativeFailure → String
failure_evidence quota = "codex.exec: usage limit reached"
failure_evidence rate_limit = "codex.exec: rate limit exceeded"
failure_evidence unavailable = "codex.exec: server_overloaded"

pub record TerminalClassifyParams : Type 0 where
  pub stdout_base64 : String
  pub stderr_base64 : String
  pub status : ProcessStatus
  pub observed_at_unix_ms : ℕ

-- `split(|byte| *byte == b'\n')`
split_from : Bytes → Bytes → List Bytes
split_from line [] = line ∷ []
split_from line (b ∷ bs) =
    let closed = line ∷ split_from [] bs in
    let longer = split_from (line ++ b ∷ []) bs in if eqb b b'\n' then closed else longer

unfoldable pub split_lines : Bytes → List Bytes
unfolding split_from
split_lines = split_from []

module _ (parse_json : Bytes → Option Value) where
  -- one line of standard error
  unfoldable pub note_failure : Option NativeFailure → Bytes → Option NativeFailure
  note_failure failure line = elim (parse_json line) [
    | none ↦ failure
    | some event ↦ if is_native_error event then from_event event else failure
  ]

  unfoldable pub scan_failures : Option NativeFailure → List Bytes → Option NativeFailure
  scan_failures failure [] = failure
  scan_failures failure (line ∷ lines) = scan_failures (note_failure failure line) lines

module _ (bounded_text : String → ℕ → String) where
  unfoldable pub classify_with_failure : ProcessStatus → ℕ → Option NativeFailure → Bool → Value
  classify_with_failure status observed none supports =
      terminal_signal (signal_kind status) (signal_evidence bounded_text status) observed
  classify_with_failure status observed (some failure) supports =
      if is_failure status
      then terminal_signal (failure_kind failure supports) (failure_evidence failure) observed
      else terminal_signal (signal_kind status) (signal_evidence bounded_text status) observed

  pub classify : ProcessStatus → ℕ → Value
  unfolding classify_with_failure
  classify status observed = classify_with_failure status observed none false

  module _ (parse_json : Bytes → Option Value)
      (decode_params : Value → TerminalClassifyParams ⊎ String)
      (decode_base64 : String → Bytes ⊎ String) where
    parse_classify_params : Value → String → Result TerminalClassifyParams
    parse_classify_params params request_id = elim (decode_params params) [
      | inl p ↦ ok p
      | inr e ↦ err (
          invalid_request request_id "invalid_terminal_params"
            ("terminal.classify params are invalid: " ⋯ e))
    ]

    decode_stream : String → String → String → Result Bytes
    decode_stream value request_id name = elim (decode_base64 value) [
      | inl bs ↦ ok bs
      | inr e ↦
          err (invalid_request request_id "invalid_base64" (name ⋯ " is not valid base64: " ⋯ e))
    ]

    unfoldable pub classify_params : Value → String → Bool → Result Value
    unfolding parse_classify_params decode_stream scan_failures
    classify_params params request_id supports = do
      p ← parse_classify_params params request_id
      _stdout ← decode_stream p.stdout_base64 request_id "stdout_base64"
      stderr ← decode_stream p.stderr_base64 request_id "stderr_base64"
      let failure = scan_failures parse_json none (split_lines stderr)
      let signal = classify_with_failure p.status p.observed_at_unix_ms failure supports
      ok (object (("terminal_signal", signal) ∷ []))
