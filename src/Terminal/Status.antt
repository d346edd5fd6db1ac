-- ===== src/Terminal/Status.antt =====
-- `ProcessStatus` and what is read off it.
use agent_runner_codex.Prelude.{ℕ, String, Bool, true, false, not, ◌⋯◌, [], ◌∷◌, if◌then◌else◌}
use agent_runner_codex.Prelude.Int.{ℤ, pos, negsuc, is_zero, add_i32, show_i32}
use agent_runner_codex.Json.{Value, str, number, Number, object}

pub data ProcessStatus : Type 0 where
  exited signal_terminated : ℤ → ProcessStatus
  spawn_error prolonged_silence : String → ProcessStatus
  cancelled unknown : ProcessStatus

-- the statuses that a native failure may explain
abbrev pub is_failure : ProcessStatus → Bool
is_failure (exited code) = not (is_zero code)
is_failure unknown = true
is_failure _ = false

abbrev pub signal_kind : ProcessStatus → String
signal_kind (exited code) = if is_zero code then "clean_exit" else "nonzero_exit"
signal_kind (signal_terminated _) = "signal_exit"
signal_kind (spawn_error _) = "spawn_error"
signal_kind (prolonged_silence _) = "prolonged_silence"
signal_kind cancelled = "cancelled"
signal_kind unknown = "unknown"

-- `TERMINAL_SIGNAL_EVIDENCE_MAX_LEN` is 160
abbrev pub signal_evidence : (String → ℕ → String) → ProcessStatus → String
signal_evidence bounded_text (exited code) = "exit_code=" ⋯ show_i32 code
signal_evidence bounded_text (signal_terminated signal) = "signal=" ⋯ show_i32 signal
signal_evidence bounded_text (spawn_error reason) = bounded_text reason 160
signal_evidence bounded_text (prolonged_silence reason) = bounded_text reason 160
signal_evidence bounded_text cancelled = "cancelled"
signal_evidence bounded_text unknown = "unknown"

abbrev integer : ℤ → Value
integer (pos n) = number (Number.unsigned n)
integer (negsuc n) = number (Number.negative n)

unfoldable pub process_status_json : ProcessStatus → Value
process_status_json (exited code) = object (("kind", str "exited") ∷ ("code", integer code) ∷ [])
process_status_json (signal_terminated signal) =
    object (("kind", str "signal_terminated") ∷ ("signal", integer signal) ∷ [])
process_status_json (spawn_error reason) =
    object (("kind", str "spawn_error") ∷ ("reason", str reason) ∷ [])
process_status_json (prolonged_silence reason) =
    object (("kind", str "prolonged_silence") ∷ ("reason", str reason) ∷ [])
process_status_json cancelled = object (("kind", str "cancelled") ∷ [])
process_status_json unknown = object (("kind", str "unknown") ∷ [])

unfoldable pub exit_code_for_status : ProcessStatus → ℤ
exit_code_for_status (exited code) = code
exit_code_for_status (signal_terminated signal) = add_i32 128 signal
exit_code_for_status (prolonged_silence _) = pos 124
exit_code_for_status cancelled = pos 130
exit_code_for_status (spawn_error _) = pos 1
exit_code_for_status unknown = pos 1
