-- ===== src/Launch/Laws.antt =====
-- What the events of a launch come to.
use agent_runner_codex.Prelude.{
  ℕ, ◌≡◌, refl, sym, ap, ◌∙◌, inl, inr, String, Bool, true, false, ◌||◌, ◌==◌, eq_iff, Bytes, List,
  [], ◌∷◌, Option, none, some, arith, Bool-cases, Option-cases,
}
use agent_runner_codex.Prelude.Int.{pos}
use agent_runner_codex.Json.{Value, get, then_str}
use agent_runner_codex.Envelope.{HostContext, ok, >>=-eq-ok}
use agent_runner_codex.Terminal.Status.{exit_code_for_status}
use agent_runner_codex.Launch.{
  Channel, stdout, stderr, CodexLaunch, Emitted, NativeOutcome, Sdk, event_type, finish,
  native_code, on_event, on_kind, kind_of, item_completed, EventKind, thread_start, turn_start,
  item_end, turn_end, turn_failure, error_event, other_event, output, outputs, terminal_status,
  thread_started, valid_thread_id,
}

module _ (sdk : Sdk) where
  thread_started_lem :
      (s : CodexLaunch) (event : Value) (r : CodexLaunch × List Emitted)
      → thread_started sdk s event ≡ ok r
      → ((r.0.completed ≡ s.completed) × (r.0.failed ≡ s.failed))
  unfolding thread_started
  thread_started_lem s event r h = elim (Option-cases (then_str (get event "thread_id"))) [
    | inl absent ↦ ground (arith, absent)
    | inr (id, named) ↦ elim (Bool-cases (valid_thread_id id)) [
      | inr bad ↦ ground (arith, named, bad)
      | inl good ↦ ground (arith, named, good)
    ]
  ]

  thread_started_keeps :
      (s : CodexLaunch) (event : Value) (r : CodexLaunch × List Emitted) (known : String)
      → s.thread_id ≡ some known
      → thread_started sdk s event ≡ ok r
      → r.0.thread_id ≡ some known
  unfolding thread_started
  thread_started_keeps s event r known k h =
      elim (Option-cases (then_str (get event "thread_id"))) [
        | inl absent ↦ ground (arith, absent)
        | inr (id, named) ↦ elim (Bool-cases (valid_thread_id id)) [
          | inr bad ↦ ground (arith, named, bad)
          | inl good ↦ ground (arith, named, good, eq_iff known id)
        ]
      ]

  -- A line of standard output that is an event of a type.
  abbrev pub is_event : String → Channel × Bytes → Bool
  is_event kind (stderr, bs) = false
  is_event kind (stdout, bs) = elim (sdk.parse_json bs) [
    | none ↦ false
    | some event ↦ event_type sdk event == kind
  ]

  abbrev pub some_event : String → List (Channel × Bytes) → Bool
  some_event kind [] = false
  some_event kind (line ∷ lines) = is_event kind line || some_event kind lines

  on_kind_keeps :
      (kind : EventKind) (s : CodexLaunch) (event : Value) (bs : Bytes)
      (r : CodexLaunch × List Emitted) (known : String)
      → s.thread_id ≡ some known
      → on_kind sdk kind s event bs ≡ ok r
      → r.0.thread_id ≡ some known
  unfolding on_kind
  on_kind_keeps thread_start s event bs r known k h = thread_started_keeps s event r known k h
  on_kind_keeps turn_start s event bs r known k h = ground arith
  on_kind_keeps item_end s event bs r known k h = item_keeps _ h
    where
      item_keeps :
          (o : Option String) → ok (item_completed sdk s o) ≡ ok r → r.0.thread_id ≡ some known
      item_keeps none h = ground arith
      item_keeps (some text) h = ground arith
  on_kind_keeps turn_end s event bs r known k h = ground arith
  on_kind_keeps turn_failure s event bs r known k h = ground arith
  on_kind_keeps error_event s event bs r known k h = ground arith
  on_kind_keeps other_event s event bs r known k h = ground arith

  on_event_keeps :
      (s : CodexLaunch) (event : Value) (bs : Bytes) (r : CodexLaunch × List Emitted)
      (known : String)
      → s.thread_id ≡ some known
      → on_event sdk s event bs ≡ ok r
      → r.0.thread_id ≡ some known
  unfolding on_event
  on_event_keeps s event bs r known k h =
      on_kind_keeps (kind_of (event_type sdk event)) s event bs r known k h

  abbrev ends : EventKind → Bool
  ends turn_end = true
  ends _ = false

  abbrev fails : EventKind → Bool
  fails turn_failure = true
  fails _ = false

  Kinds : String → Type 0
  Kinds k =
      ((k == "turn.completed") ≡ ends (kind_of k)) × ((k == "turn.failed") ≡ fails (kind_of k))

  kind_of_lem : (k : String) → Kinds k
  unfolding kind_of Kinds
  kind_of_lem k = elim (Bool-cases (k == "thread.started")) [
    | inl p ↦ rw ((eq_iff k "thread.started").0 p) (refl, refl)
    | inr a ↦ elim (Bool-cases (k == "turn.started")) [
      | inl p ↦ rw ((eq_iff k "turn.started").0 p) (refl, refl)
      | inr b ↦ elim (Bool-cases (k == "item.completed")) [
        | inl p ↦ rw ((eq_iff k "item.completed").0 p) (refl, refl)
        | inr c ↦ elim (Bool-cases (k == "turn.completed")) [
          | inl p ↦ rw ((eq_iff k "turn.completed").0 p) (refl, refl)
          | inr d ↦ elim (Bool-cases (k == "turn.failed")) [
            | inl p ↦ rw ((eq_iff k "turn.failed").0 p) (refl, refl)
            | inr e ↦ (ground arith, ground arith)
          ]
        ]
      ]
    ]
  ]

  on_kind_flags :
      (kind : EventKind) (s : CodexLaunch) (event : Value) (bs : Bytes)
      (r : CodexLaunch × List Emitted)
      → on_kind sdk kind s event bs ≡ ok r
      → (r.0.completed ≡ (s.completed || ends kind)) × (r.0.failed ≡ (s.failed || fails kind))
  unfolding on_kind
  on_kind_flags thread_start s event bs r h =
      let (a, b) = thread_started_lem s event r h in (ground arith, ground arith)
  on_kind_flags turn_start s event bs r h = (ground arith, ground arith)
  on_kind_flags item_end s event bs r h = item_flags _ h
    where
      item_flags :
          (o : Option String)
          → ok (item_completed sdk s o) ≡ ok r
          → (r.0.completed ≡ (s.completed || false)) × (r.0.failed ≡ (s.failed || false))
      item_flags none h = (ground arith, ground arith)
      item_flags (some text) h = (ground arith, ground arith)
  on_kind_flags turn_end s event bs r h = (ground arith, ground arith)
  on_kind_flags turn_failure s event bs r h = (ground arith, ground arith)
  on_kind_flags error_event s event bs r h = (ground arith, ground arith)
  on_kind_flags other_event s event bs r h = (ground arith, ground arith)

  on_event_flags :
      (s : CodexLaunch) (event : Value) (bs : Bytes) (r : CodexLaunch × List Emitted)
      → on_event sdk s event bs ≡ ok r
      → (r.0.completed ≡ (s.completed || event_type sdk event == "turn.completed"))
        × (r.0.failed ≡ (s.failed || event_type sdk event == "turn.failed"))
  unfolding on_event Kinds
  on_event_flags s event bs r h =
      let (a, b) = on_kind_flags (kind_of (event_type sdk event)) s event bs r h in
      let (c, d) = kind_of_lem (event_type sdk event) in
      (a ∙ ap (λ x. s.completed || x) (sym c), b ∙ ap (λ x. s.failed || x) (sym d))

  output_flags :
      (s : CodexLaunch) (channel : Channel) (bs : Bytes) (r : CodexLaunch × List Emitted)
      → output sdk s channel bs ≡ ok r
      → (r.0.completed ≡ (s.completed || is_event "turn.completed" (channel, bs)))
        × (r.0.failed ≡ (s.failed || is_event "turn.failed" (channel, bs)))
  unfolding output
  output_flags s stderr bs r h = (ground arith, ground arith)
  output_flags s stdout bs r h = elim (Option-cases (sdk.parse_json bs)) [
    | inl invalid ↦ absurd (ground (arith, invalid))
    | inr (event, parsed) ↦
        let (a, b) = on_event_flags s event bs r (rw parsed at h) in
        (ground (arith, parsed), ground (arith, parsed))
  ]

  output_keeps :
      (s : CodexLaunch) (channel : Channel) (bs : Bytes) (r : CodexLaunch × List Emitted)
      (known : String)
      → s.thread_id ≡ some known
      → output sdk s channel bs ≡ ok r
      → r.0.thread_id ≡ some known
  unfolding output
  output_keeps s stderr bs r known k h = ground arith
  output_keeps s stdout bs r known k h = elim (Option-cases (sdk.parse_json bs)) [
    | inl invalid ↦ absurd (ground (arith, invalid))
    | inr (event, parsed) ↦ on_event_keeps s event bs r known k (rw parsed at h)
  ]

  -- Once a launch has a thread, every further run of events that is accepted leaves it that thread.
  pub outputs_keep_thread :
      (s : CodexLaunch) (lines : List (Channel × Bytes)) (r : CodexLaunch × List Emitted)
      (known : String)
      → s.thread_id ≡ some known
      → outputs sdk s lines ≡ ok r
      → r.0.thread_id ≡ some known
  unfolding outputs
  outputs_keep_thread s [] r known k h = ground arith
  outputs_keep_thread s ((channel, bs) ∷ lines) r known k h =
      let (first, seen, h1) = >>=-eq-ok (output sdk s channel bs) _ h in
      let (rest, more, h2) = >>=-eq-ok (outputs sdk first.0 lines) _ h1 in
      let same =
        outputs_keep_thread first.0 lines rest known (output_keeps s channel bs first known k seen)
          more in
      ground arith

  outputs_flags :
      (s : CodexLaunch) (lines : List (Channel × Bytes)) (r : CodexLaunch × List Emitted)
      → outputs sdk s lines ≡ ok r
      → (r.0.completed ≡ (s.completed || some_event "turn.completed" lines))
        × (r.0.failed ≡ (s.failed || some_event "turn.failed" lines))
  unfolding outputs
  outputs_flags s [] r h = (ground arith, ground arith)
  outputs_flags s ((channel, bs) ∷ lines) r h =
      let (first, seen, h1) = >>=-eq-ok (output sdk s channel bs) _ h in
      let (rest, more, h2) = >>=-eq-ok (outputs sdk first.0 lines) _ h1 in
      let (a, b) = output_flags s channel bs first seen in
      let (c, d) = outputs_flags first.0 lines rest more in (ground arith, ground arith)

  native_code_zero :
      (s : CodexLaunch) (outcome : NativeOutcome)
      → native_code s outcome ≡ pos 0
      → (s.completed ≡ true) × (s.failed ≡ false)
  unfolding native_code
  native_code_zero s outcome h = (ground arith, ground arith)

  -- A launch that began with no completed turn and was not ended by a signal exits with 0 only if its events told of a completed turn
  -- and of no failed one.
  pub exit_zero_completed :
      (bounded_text : String → ℕ → String) (accounting : List (String × Value)) (now : ℕ)
      (host : HostContext) (requested : Bool) (s : CodexLaunch) (lines : List (Channel × Bytes))
      (r : CodexLaunch × List Emitted) (outcome : NativeOutcome)
      → s.completed ≡ false
      → outputs sdk s lines ≡ ok r
      → outcome.signal ≡ none
      → (finish bounded_text accounting now host requested r.0 outcome).0.exit_code ≡ pos 0
      → (some_event "turn.completed" lines ≡ true) × (some_event "turn.failed" lines ≡ false)
  unfolding finish terminal_status exit_code_for_status
  exit_zero_completed bounded_text accounting now host requested s lines r outcome fresh ran
        unsignalled zero =
      let (a, b) = outputs_flags s lines r ran in
      elim (Bool-cases outcome.stopped) [
        | inl stop ↦ absurd (ground (arith, rw stop at zero))
        | inr ended ↦
            let (c, d) = native_code_zero r.0 outcome (rw (ended, unsignalled) at zero) in
            (ground arith, ground arith)
      ]
