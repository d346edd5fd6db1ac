-- ===== src/Launch/Failures.antt =====
-- The failures of src/launch.rs that answer the errors of the SDK's lifecycle.
use agent_runner_codex.Prelude.{◌≡◌, ◌⊎◌, inl, inr, refl, String, true, arith}
use agent_runner_codex.Envelope.{
  ProviderFailure, conflict, empty_object, internal, retryable_conflict,
}

-- the SDK's errors that the source names
pub data FramingError : Type 0 where
  framing_overflow : FramingError
  framing_io : String → FramingError

pub data CustodyError : Type 0 where
  busy invalid_state journal_missing journal_mismatch journal_overflow : CustodyError
  state_write custody_io : String → CustodyError

pub data LifecycleError : Type 0 where
  lifecycle_busy request_changed reconciliation_required cancelled deadline_elapsed : LifecycleError
  native_stream_invalid native_streams_closed native_drain_incomplete : LifecycleError
  input_stalled input_writer_failed input_incomplete wait_failed accounting_overflow :
      LifecycleError
  custody : CustodyError → LifecycleError
  framing : FramingError → LifecycleError
  lifecycle_io : String → LifecycleError

abbrev failure : String → String → ProviderFailure
failure code message = internal "" code message

abbrev launch_io : String → ProviderFailure
launch_io message = failure "launch_io" message

unfoldable pub framing_failure : FramingError → ProviderFailure
framing_failure framing_overflow =
    failure "launch_output_accounting" "Launch journal byte count overflowed"
framing_failure (framing_io message) = launch_io message

unfoldable pub custody_failure : CustodyError → ProviderFailure
unfolding framing_failure
custody_failure busy =
    retryable_conflict "" "launch_busy" "This request is already executing" empty_object
custody_failure invalid_state = failure "launch_state_invalid" "Invalid launch state"
custody_failure (state_write message) = failure "launch_state_write" message
custody_failure journal_missing =
    failure "launch_journal_invalid" "Completed launch journal is missing"
custody_failure journal_mismatch =
    failure "launch_journal_invalid" "Completed launch journal does not match its durable receipt"
custody_failure journal_overflow = framing_failure framing_overflow
custody_failure (custody_io message) = launch_io message

-- `From<LifecycleError> for ProviderFailure`
unfoldable pub lifecycle_failure : LifecycleError → ProviderFailure
unfolding custody_failure
lifecycle_failure lifecycle_busy = custody_failure busy
lifecycle_failure request_changed =
    conflict "" "request_changed" "Request ID was already used with different inputs" empty_object
lifecycle_failure reconciliation_required =
    conflict "" "launch_reconciliation_required"
      "Prior invocation ended before terminal custody; inspect the Codex session before issuing a new request"
      empty_object
lifecycle_failure cancelled =
    failure "launch_cancelled" "Launch was cancelled before native admission"
lifecycle_failure deadline_elapsed =
    failure "launch_deadline" "Host launch deadline elapsed before native admission"
lifecycle_failure (custody error) = custody_failure error
lifecycle_failure (framing error) = framing_failure error
lifecycle_failure (lifecycle_io message) = launch_io message
lifecycle_failure native_stream_invalid =
    failure "native_stream_invalid" "Codex stream line exceeded 4 MiB or could not be read"
lifecycle_failure native_streams_closed =
    failure "native_streams_closed"
      "Codex closed its streams without exiting; native process group terminated"
lifecycle_failure native_drain_incomplete =
    failure "native_stream_drain_incomplete"
      "Native output pipes remained open after process-group termination"
lifecycle_failure input_stalled =
    failure "stdin_failed" "Codex input pipe remained open after native termination"
lifecycle_failure input_writer_failed = failure "stdin_failed" "Codex input writer failed"
lifecycle_failure input_incomplete =
    failure "stdin_failed" "Could not deliver the complete prompt to Codex"
lifecycle_failure wait_failed = failure "native_wait_failed" "Could not reap the native process"
lifecycle_failure accounting_overflow =
    failure "launch_output_accounting" "Launch output byte count overflowed"

-- Only a launch that is already executing is answered as one to try again.
pub lifecycle_failure-retryable :
    (error : LifecycleError)
    → (lifecycle_failure error).retryable ≡ true
    → (error ≡ lifecycle_busy) ⊎ (error ≡ custody busy)
unfolding lifecycle_failure
lifecycle_failure-retryable lifecycle_busy h = inl refl
lifecycle_failure-retryable (custody busy) h = inr refl
lifecycle_failure-retryable _ h = ground arith
