-- ===== src/Session/Turns/Laws.antt =====
-- What a reading of turns gives.
use agent_runner_codex.Prelude.{
  ℕ, zero, suc, ◌-◌, ◌≤◌, ◌≡◌, ◌⊎◌, ◌↔◌, Memᴰ, refl, ap, sym, ◌∙◌, subst, inl, inr, String, Bool,
  true, false, not, ◌==◌, Bytes, List, [], ◌∷◌, ◌++◌, Option, none, some, length, is_some,
  unwrap_or, arith, Bool-cases, Option-cases, All, if◌then◌else◌,
}
use agent_runner_codex.Json.{Value, str, at, as_str, get, get_field, is_text, remove_field}
use agent_runner_codex.Envelope.{ok, >>=-eq-ok, refuse_if-eq-ok}
use agent_runner_codex.Session.{RolloutFile, invalid}
use agent_runner_codex.Session.Rollout.{Calendar, Rollout, read_rollout, turn_of}
use agent_runner_codex.Session.Rollout.Laws.{IsMade, read_rollout-IsMade}
use agent_runner_codex.Session.Turns.{
  SessionParams, ◌then◌, after_time, is_projection, is_tail_limit, is_wanted, observed,
  observed_all, projected, read_turns, turns_result, wanted, without,
}

module _ (calendar : Calendar) (parse_json : Bytes → Option Value) (request_id : String) where
  abbrev Turn : String → Value → Type 0
  Turn = IsMade calendar parse_json request_id

  -- a turn that is kept where only the user's are
  abbrev ByUser : SessionParams → Value → Type 0
  ByUser params turn =
      is_some params.turn_projection ≡ true → is_text (at turn "role") "user" ≡ true

  -- A turn of the projection: the session's, by the user, with no native part.
  abbrev pub IsObserved : String → Value → Type 0
  IsObserved id turn =
      (at turn "session_id" ≡ str id)
      × (is_text (at turn "role") "user" ≡ true)
      × (get turn "native" ≡ none)

  -- one without its body, and one with it
  abbrev pub IsEarlier : String → Value → Type 0
  IsEarlier id turn = IsObserved id turn × (get turn "body" ≡ none)

  abbrev pub IsLater : String → Value → Type 0
  IsLater id turn = IsObserved id turn × (is_some (get turn "body") ≡ true)

  observed-IsEarlier :
      (id : String) (turn : Value)
      → Turn id turn
      → is_text (at turn "role") "user" ≡ true
      → (seen : Value) × (observed true turn ≡ some seen) × IsEarlier id seen
  unfolding observed without remove_field turn_of get get_field at
  observed-IsEarlier id turn (line_no, role, instant, payload, made, spoken) user =
      let by_user : (role == "user") ≡ true =
        sym (ap (λ v. is_text (at v "role") "user") made) ∙ user in
      (_, ap (observed true) made, ((refl, by_user, refl), refl))

  observed-IsLater :
      (id : String) (turn : Value)
      → Turn id turn
      → is_text (at turn "role") "user" ≡ true
      → (seen : Value) × (observed false turn ≡ some seen) × IsLater id seen
  unfolding observed without remove_field turn_of get get_field at
  observed-IsLater id turn (line_no, role, instant, payload, made, spoken) user =
      let by_user : (role == "user") ≡ true =
        sym (ap (λ v. is_text (at v "role") "user") made) ∙ user in
      (_, ap (observed false) made, ((refl, by_user, refl), refl))

  abbrev Kept : String → SessionParams → Value → Type 0
  Kept id params turn = Turn id turn × ByUser params turn

  observed_all_late :
      (id : String) (params : SessionParams)
      → is_some params.turn_projection ≡ true
      → (turns : List Value) → All (Kept id params) turns
      → (seen : List Value) × (observed_all 0 turns ≡ some seen)
        × (All (IsLater id) seen)
        × (length seen ≡ length turns)
  unfolding observed_all
  observed_all_late id params projection [] all = ([], refl, tt, refl)
  observed_all_late id params projection (turn ∷ turns) ((is_turn, by_user), all) =
      let (first, seen_first, late) = observed-IsLater id turn is_turn (by_user projection) in
      let (rest, seen_rest, later, counted) = observed_all_late id params projection turns all in
      (first ∷ rest, rw (seen_first, seen_rest), (late, later), ap suc counted)

  -- The projection splits the turns: the earlier lose their body, the later keep it.
  abbrev IsSplit : String → ℕ → List Value → List Value → Type 0
  IsSplit id early turns seen =
      (earlier : List Value) × (later : List Value) × (seen ≡ earlier ++ later)
      × (All (IsEarlier id) earlier)
      × (All (IsLater id) later)
      × (length later ≡ length turns - early)

  observed_all_lem :
      (id : String) (params : SessionParams)
      → is_some params.turn_projection ≡ true
      → (early : ℕ) (turns : List Value) → All (Kept id params) turns
      → (seen : List Value) × (observed_all early turns ≡ some seen) × IsSplit id early turns seen
  unfolding observed_all
  observed_all_lem id params projection early [] all =
      ([], refl, ([], [], refl, tt, tt, omega arith))
  observed_all_lem id params projection zero (turn ∷ turns) all =
      let (seen, found, late, counted) =
        observed_all_late id params projection (turn ∷ turns) all in
      (seen, found, ([], seen, refl, tt, late, omega (arith, counted)))
  observed_all_lem id params projection (suc early) (turn ∷ turns) ((is_turn, by_user), all) =
      let (first, seen_first, soon) = observed-IsEarlier id turn is_turn (by_user projection) in
      let (rest, seen_rest, (earlier, later, parts, sooner, late, counted)) =
        observed_all_lem id params projection early turns all in
      (
        first ∷ rest,
        rw (seen_first, seen_rest),
        (
          first ∷ earlier,
          later,
          ap (λ l. first ∷ l) parts,
          (soon, sooner),
          late,
          omega (arith, counted),
        ),
      )

  projected_lem :
      (id : String) (params : SessionParams) (turns : List Value)
      → All (Kept id params) turns
      → (seen : List Value) × (projected calendar params turns ≡ some seen)
  unfolding projected
  projected_lem id params turns all = elim (Bool-cases (is_some params.turn_projection)) [
    | inr plain ↦ (turns, rw plain)
    | inl projection ↦
        let (seen, found, split) =
          observed_all_lem id params projection (length turns - unwrap_or params.body_tail_limit 4)
            turns all in
        (seen, rw projection found)
  ]

  read_turns_chain :
      (file : RolloutFile) (id : String) (params : SessionParams) (o : Option Value)
      → read_turns calendar parse_json request_id file id params ≡ ok o
      → (is_tail_limit params.body_tail_limit ≡ true)
        × (after : Option calendar.Instant) × (rollout : Rollout) × (read_rollout calendar
              parse_json request_id file
              (some id)
            ≡ ok rollout)
        × (o ≡ (
            wanted calendar params after rollout.turns then λ kept.
            projected calendar params kept then λ turns.
            some (turns_result calendar rollout.complete turns)))
  unfolding read_turns
  read_turns_chain file id params o h =
      let (supported, h1) =
        refuse_if-eq-ok (not (is_projection params.turn_projection))
          (invalid request_id "Unsupported turn_projection") _ h in
      let (limited, h2) =
        refuse_if-eq-ok (not (is_tail_limit params.body_tail_limit))
          (invalid request_id "body_tail_limit must be between 1 and 16") _ h1 in
      let (after, timed, h3) =
        >>=-eq-ok (after_time calendar parse_json request_id params.after_timestamp) _ h2 in
      let (rollout, read, h4) =
        >>=-eq-ok (read_rollout calendar parse_json request_id file (some id)) _ h3 in
      (ground arith, after, rollout, read, ground arith)

  -- A turn's time that the calendar read from a message, and does not read as it has written it.
  abbrev pub HasUnreadable : Value → Type 0
  HasUnreadable turn =
      (text : String) × (instant : calendar.Instant) × (calendar.parse_rfc3339 text ≡ some instant)
      × (at turn "timestamp" ≡ str (calendar.to_rfc3339 instant))
      × (calendar.parse_rfc3339 (calendar.to_rfc3339 instant) ≡ none)

  is_wanted_or :
      (id : String) (params : SessionParams) (after : Option calendar.Instant) (turn : Value)
      → Turn id turn
      → (HasUnreadable turn × (is_wanted calendar params after turn ≡ none))
        ⊎ ((keep : Bool) × (is_wanted calendar params after turn ≡ some keep)
            × (keep ≡ true → ByUser params turn))
  unfolding is_wanted turn_of at get get_field
  is_wanted_or id params after turn
        (line_no, role, instant, value, made, (t, m, r, u, given, dated, parsed)) =
      let time = calendar.to_rfc3339 instant in
      let dated : as_str (at turn "timestamp") ≡ some time =
        ap (λ v. as_str (at v "timestamp")) made in
      elim (Option-cases (calendar.parse_rfc3339 time)) [
        | inl lost ↦ inl (
          (given, instant, parsed, ap (λ v. at v "timestamp") made, lost),
          ground (arith, dated, lost),
        )
        | inr (again, read) ↦ inr (elim (Option-cases (is_wanted calendar params after turn)) [
          | inl panics ↦ absurd (ground (arith, dated, read, panics))
          | inr (keep, found) ↦ (keep, found, λ kept projection. ground (arith, dated, read, found))
        ])
      ]

  -- Some turn's time is not read again.
  abbrev pub SomeUnreadable : List Value → Type 0
  SomeUnreadable turns = (turn : Value) × Memᴰ turn turns × HasUnreadable turn

  -- The filter loses no turn's time, or one is not read again.
  wanted_or :
      (id : String) (params : SessionParams) (after : Option calendar.Instant) (turns : List Value)
      → All (Turn id) turns
      → (SomeUnreadable turns × (wanted calendar params after turns ≡ none))
        ⊎ ((kept : List Value) × (wanted calendar params after turns ≡ some kept)
            × All (Kept id params) kept)
  unfolding wanted
  wanted_or id params after [] all = inr ([], refl, tt)
  wanted_or id params after (turn ∷ turns) (is_turn, all) =
      elim (is_wanted_or id params after turn is_turn) [
        | inl (lost, panics) ↦ inl ((turn, Memᴰ.head refl, lost), rw panics refl)
        | inr (keep, tested, by_user) ↦ elim (wanted_or id params after turns all) [
          | inl ((other, there, lost), panics) ↦
              inl ((other, Memᴰ.tail there, lost), rw (tested, panics) refl)
          | inr (kept, rest, fit) ↦ inr (elim (Bool-cases keep) [
            | inl yes_keep ↦
                (turn ∷ kept, rw (tested, rest, yes_keep) refl, ((is_turn, by_user yes_keep), fit))
            | inr dropped ↦ (kept, rw (tested, rest, dropped) refl, fit)
          ])
        ]
      ]

  unreadable_lem :
      (params : SessionParams) (after : Option calendar.Instant) (turns : List Value)
      → SomeUnreadable turns
      → wanted calendar params after turns ≡ none
  unfolding wanted is_wanted
  unreadable_lem params after [] (other, there, lost) = elim there [ ]
  unreadable_lem params after (turn ∷ turns)
        (other, Memᴰ.head e, (text, instant, parsed, dated, lost)) =
      let time : as_str (at turn "timestamp") ≡ some (calendar.to_rfc3339 instant) =
        ap as_str (sym (ap (λ v. at v "timestamp") e) ∙ dated) in
      ground (arith, time, lost)
  unreadable_lem params after (turn ∷ turns) (other, Memᴰ.tail there, lost) =
      let rest = unreadable_lem params after turns (other, there, lost) in
      elim (Option-cases (is_wanted calendar params after turn)) [
        | inl panics ↦ rw panics refl
        | inr (keep, tested) ↦ rw (tested, rest) refl
      ]

  -- A reading of turns that returns no failure panics exactly where some turn of the rollout has a time
  -- that the calendar has read from its message and written, but does not read as it is written.
  pub read_turns_panics :
      (file : RolloutFile) (id : String) (params : SessionParams) (o : Option Value)
      → read_turns calendar parse_json request_id file id params ≡ ok o
      → (rollout : Rollout) × (read_rollout calendar parse_json request_id file (some id)
          ≡ ok rollout)
        × ((o ≡ none) ↔ SomeUnreadable rollout.turns)
  read_turns_panics file id params o h =
      let (limited, after, rollout, read, same) = read_turns_chain file id params o h in
      let (named, turns) =
        read_rollout-IsMade calendar parse_json request_id file (some id) rollout read in
      (
        rollout,
        read,
        elim (wanted_or rollout.meta.id params after rollout.turns turns) [
          | inl (lost, panics) ↦ (λ e. lost, λ l. same ∙ rw panics refl)
          | inr (kept, found, fit) ↦
              let (seen, shown) = projected_lem rollout.meta.id params kept fit in
              let done : some (turns_result calendar rollout.complete seen) ≡ o =
                sym (same ∙ rw (found, shown) refl) in
              (
                λ e. absurd (ground (arith, done, e)),
                λ l. absurd (ground (arith, found, unreadable_lem params after rollout.turns l)),
              )
        ],
      )

  -- The answer to a reading with the projection.
  abbrev pub IsObservation : String → SessionParams → Value → Type 0
  IsObservation id params answer =
      (complete : Bool) × (earlier : List Value) × (later : List Value) × (answer
        ≡ turns_result calendar complete (earlier ++ later))
      × (All (IsEarlier id) earlier)
      × (All (IsLater id) later)
      × (length later ≤ unwrap_or params.body_tail_limit 4)

  -- A reading under the projection that gives an answer gives only turns of the session and by the
  -- user, none with a native part; the last ones have their body, as many as the limit at most, and
  -- those before them have none.
  pub read_turns-IsObservation :
      (file : RolloutFile) (id : String) (params : SessionParams) (answer : Value)
      → is_some params.turn_projection ≡ true
      → read_turns calendar parse_json request_id file id params ≡ ok (some answer)
      → IsObservation id params answer
  unfolding projected
  read_turns-IsObservation file id params answer projection h =
      let (limited, after, rollout, read, same) = read_turns_chain file id params (some answer) h in
      let (named, turns) =
        read_rollout-IsMade calendar parse_json request_id file (some id) rollout read in
      elim (wanted_or id params after rollout.turns
        (subst (λ i. All (Turn i) rollout.turns) (sym named) turns)) [
          | inl (lost, panics) ↦ absurd (ground (arith, same, panics))
          | inr (kept, found, fit) ↦
              let (seen, shown, (earlier, later, parts, sooner, late, counted)) =
                observed_all_lem id params projection
                  (length kept - unwrap_or params.body_tail_limit 4) kept fit in
              let all_shown : projected calendar params kept ≡ some (earlier ++ later) =
                rw projection shown ∙ ap some parts in
              let whole : some answer
                  ≡ some (turns_result calendar rollout.complete (earlier ++ later)) =
                same ∙ rw (found, all_shown) in
              (rollout.complete, earlier, later, cc whole, sooner, late, omega (arith, counted))
        ]
