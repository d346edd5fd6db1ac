-- ===== src/Terminal/Laws.antt =====
-- How a terminal classification is decided.
use agent_runner_codex.Prelude.{
  ℕ, zero, suc, String, ◌≡◌, refl, ◌⊎◌, Bool, true, false, Bytes, List, [], ◌∷◌, ◌++◌, Option, none,
  some, All, arith, ap, ◌∙◌, Bool-cases, has_prefix, Option-cases, inl, inr, ◌⋯◌,
}
use agent_runner_codex.Prelude.Strings.{strip_prefix-⋯}
use agent_runner_codex.Prelude.Int.{pos, negsuc}
use agent_runner_codex.Json.{Value, object, str, at, get, get_field}
use agent_runner_codex.Terminal.{
  NativeFailure, is_native_error, from_event, event_message, compact_prefix, classify_with_failure,
  classify, failure_evidence, failure_kind, quota, rate_limit, terminal_signal, unavailable,
  note_failure, scan_failures, split_lines, classify_params, TerminalClassifyParams,
}
use agent_runner_codex.Envelope.{ok}
use agent_runner_codex.Terminal.Status.{
  ProcessStatus, exited, signal_terminated, spawn_error, prolonged_silence, cancelled, unknown,
  is_failure, signal_kind,
}

-- The statuses that a native failure explains: an exit with another code than 0, and an unknown end.
abbrev pub MayFail : ProcessStatus → Type 0
MayFail (exited code) = code ≡ pos 0 → ⊥
MayFail unknown = Unit
MayFail _ = ⊥

is_failure-MayFail : (status : ProcessStatus) → is_failure status ≡ true → MayFail status
is_failure-MayFail (exited (pos zero)) h = absurd (ground arith)
is_failure-MayFail (exited (pos (suc n))) h = λ same. ground (arith, same)
is_failure-MayFail (exited (negsuc n)) h = λ same. ground (arith, same)
is_failure-MayFail (signal_terminated signal) h = absurd (ground arith)
is_failure-MayFail (spawn_error reason) h = absurd (ground arith)
is_failure-MayFail (prolonged_silence reason) h = absurd (ground arith)
is_failure-MayFail cancelled h = absurd (ground arith)
is_failure-MayFail unknown h = tt

is_failure-unexplained : (status : ProcessStatus) → is_failure status ≡ false → MayFail status → ⊥
is_failure-unexplained (exited (pos zero)) h may = may refl
is_failure-unexplained (exited (pos (suc n))) h may = ground arith
is_failure-unexplained (exited (negsuc n)) h may = ground arith
is_failure-unexplained (signal_terminated signal) h may = may
is_failure-unexplained (spawn_error reason) h may = may
is_failure-unexplained (prolonged_silence reason) h may = may
is_failure-unexplained cancelled h may = may
is_failure-unexplained unknown h may = ground arith

-- What a native failure says of a status that it explains.
abbrev pub Explains : NativeFailure → Bool → Value → Type 0
Explains quota supports signal =
    (at signal "kind" ≡ str "quota_exhausted_inband")
    × (at signal "evidence" ≡ str "codex.exec: usage limit reached")
Explains rate_limit supports signal =
    (at signal "kind" ≡ str "rate_limited")
    × (at signal "evidence" ≡ str "codex.exec: rate limit exceeded")
Explains unavailable true signal =
    (at signal "kind" ≡ str "provider_unavailable")
    × (at signal "evidence" ≡ str "codex.exec: server_overloaded")
Explains unavailable false signal =
    (at signal "kind" ≡ str "nonzero_exit")
    × (at signal "evidence" ≡ str "codex.exec: server_overloaded")

-- The kind of signal that a status has by itself.
abbrev pub KindOf : ProcessStatus → String → Type 0
KindOf (exited (pos zero)) kind = kind ≡ "clean_exit"
KindOf (exited _) kind = kind ≡ "nonzero_exit"
KindOf (signal_terminated signal) kind = kind ≡ "signal_exit"
KindOf (spawn_error reason) kind = kind ≡ "spawn_error"
KindOf (prolonged_silence reason) kind = kind ≡ "prolonged_silence"
KindOf cancelled kind = kind ≡ "cancelled"
KindOf unknown kind = kind ≡ "unknown"

signal_kind-KindOf : (status : ProcessStatus) → KindOf status (signal_kind status)
signal_kind-KindOf (exited (pos zero)) = refl
signal_kind-KindOf (exited (pos (suc n))) = ground arith
signal_kind-KindOf (exited (negsuc n)) = refl
signal_kind-KindOf (signal_terminated signal) = refl
signal_kind-KindOf (spawn_error reason) = refl
signal_kind-KindOf (prolonged_silence reason) = refl
signal_kind-KindOf cancelled = refl
signal_kind-KindOf unknown = refl

explains_lem :
    (failure : NativeFailure) (supports : Bool) (observed : ℕ)
    → Explains failure supports
        (terminal_signal (failure_kind failure supports) (failure_evidence failure) observed)
unfolding terminal_signal at get get_field
explains_lem quota supports observed = (refl, refl)
explains_lem rate_limit supports observed = (refl, refl)
explains_lem unavailable true observed = (refl, refl)
explains_lem unavailable false observed = (refl, refl)

module _ (bounded_text : String → ℕ → String) where
  -- Where a native failure was seen, an exit with another code than 0 and an unknown end are
  -- classified as the failure's kind with its evidence, an overload as unavailable only where the host
  -- supports that; a clean exit, a signal, a spawn error, a silence and a cancellation keep their own
  -- kind, and are classified as with no failure.
  pub classify_precedence :
      (status : ProcessStatus) (observed : ℕ) (failure : NativeFailure) (supports : Bool)
      → (MayFail status
          × Explains failure supports
              (classify_with_failure bounded_text status observed (some failure) supports))
        ⊎ ((MayFail status → ⊥)
            × ((kind : String) × (KindOf status kind)
                × (at
                      (classify_with_failure bounded_text status observed (some failure) supports)
                      "kind"
                    ≡ str kind))
            × (classify_with_failure bounded_text status observed (some failure) supports
                ≡ classify bounded_text status observed))
  unfolding classify classify_with_failure terminal_signal at get get_field
  classify_precedence status observed failure supports = elim (Bool-cases (is_failure status)) [
    | inl fails ↦
        inl (is_failure-MayFail status fails, rw fails (explains_lem failure supports observed))
    | inr other ↦ inr (
      is_failure-unexplained status other,
      (signal_kind status, signal_kind-KindOf status, rw other refl),
      rw other refl,
    )
  ]

module _ (parse_json : Bytes → Option Value) where
  -- A line that is a native error event.
  abbrev pub IsError : Bytes → Value → Type 0
  IsError line event = (parse_json line ≡ some event) × (is_native_error event ≡ true)

  -- A line that is no native error event.
  abbrev pub IsQuiet : Bytes → Type 0
  IsQuiet line = (event : Value) → parse_json line ≡ some event → is_native_error event ≡ false

  note_failure-IsQuiet :
      (failure : Option NativeFailure) (line : Bytes)
      → IsQuiet line
      → note_failure parse_json failure line ≡ failure
  unfolding note_failure
  note_failure-IsQuiet failure line q = elim (Option-cases (parse_json line)) [
    | inl nothing ↦ ground arith
    | inr (event, parsed) ↦ ground (arith, q event)
  ]

  scan_failures-IsQuiet :
      (failure : Option NativeFailure) (lines : List Bytes)
      → All IsQuiet lines
      → scan_failures parse_json failure lines ≡ failure
  unfolding scan_failures
  scan_failures-IsQuiet failure [] q = refl
  scan_failures-IsQuiet failure (line ∷ lines) (q, qs) =
      rw (note_failure-IsQuiet failure line q) (scan_failures-IsQuiet failure lines qs)

  note_failure_error :
      (failure : Option NativeFailure) (line : Bytes) (event : Value)
      → IsError line event
      → note_failure parse_json failure line ≡ from_event event
  unfolding note_failure
  note_failure_error failure line event e = ground arith

  scan_failures_last :
      (failure : Option NativeFailure) (before : List Bytes) (line : Bytes) (after : List Bytes)
      (event : Value)
      → IsError line event
      → All IsQuiet after
      → scan_failures parse_json failure (before ++ line ∷ after) ≡ from_event event
  unfolding scan_failures
  scan_failures_last failure [] line after event (parsed, native) q =
      ap (λ f. scan_failures parse_json f after)
        (note_failure_error failure line event (parsed, native))
      ∙ scan_failures-IsQuiet (from_event event) after q
  scan_failures_last failure (l ∷ before) line after event e q =
      scan_failures_last (note_failure parse_json failure l) before line after event e q

  module _ (bounded_text : String → ℕ → String)
      (decode_params : Value → TerminalClassifyParams ⊎ String)
      (decode_base64 : String → Bytes ⊎ String) where
    -- Of the native error events on standard error only the last counts, also where it is no known
    -- failure: it alone, with the status, the time and the host's support, decides the signal.
    pub last_error_decides :
        (params : Value) (id : String) (supports : Bool) (p : TerminalClassifyParams)
        (out stderr : Bytes) (before : List Bytes) (line : Bytes) (after : List Bytes)
        (event : Value)
        → decode_params params ≡ inl p
        → decode_base64 p.stdout_base64 ≡ inl out
        → decode_base64 p.stderr_base64 ≡ inl stderr
        → split_lines stderr ≡ before ++ line ∷ after
        → IsError line event
        → All IsQuiet after
        → classify_params bounded_text parse_json decode_params decode_base64 params id supports
          ≡ ok (
              object (
                (
                  "terminal_signal",
                  classify_with_failure bounded_text p.status p.observed_at_unix_ms
                      (from_event event)
                      supports,
                )
                ∷ []))
    unfolding classify_params
    last_error_decides params id supports p out stderr before line after event hp ho he hs e q =
        ground (
          arith,
          hs,
          ap (scan_failures parse_json none) hs,
          scan_failures_last none before line after event,
        )

-- A failure event of the remote compaction task, whose message is the task's prefix and a message
-- that does not begin with that prefix again, is classified as an event with that message.
pub compaction_transparent :
    (wrapped plain : Value) (message : String)
    → event_message wrapped ≡ some (compact_prefix ⋯ message)
    → event_message plain ≡ some message
    → has_prefix message compact_prefix ≡ false
    → from_event wrapped ≡ from_event plain
unfolding from_event
compaction_transparent wrapped plain message hw hp h =
    ground (arith, strip_prefix-⋯ compact_prefix message)
