-- ===== src/Session/Rollout/Laws.antt =====
-- Whose turns a rollout gives.
use agent_runner_codex.Prelude.{
  ℕ, zero, suc, ◌≡◌, refl, ap, sym, ◌∙◌, subst, inl, inr, String, true, ◌==◌, ◌⊎◌, eq_iff, Bytes,
  List, [], ◌∷◌, ◌++◌, Option, none, some, length, is_empty, all, is_ascii_space, arith, Bool-cases,
  Option-cases, All, All-append,
}
use agent_runner_codex.Json.{Value, array, as_str, as_str_sound, at, is_text_sound, str}
use agent_runner_codex.Envelope.{ok, ◌>>=◌, >>=-eq-ok, Result-cases}
use agent_runner_codex.Pages.Pack.{ends_newline}
use agent_runner_codex.Session.{RolloutFile, RolloutMeta, content_chunks, parse_meta, read_line}
use agent_runner_codex.Session.Rollout.{
  Calendar, Reading, numbered, Round, again, last, Rollout, canonical_time, is_message, known_role,
  on_first, on_line, on_record, read_lines, read_rollout, started, timestamp_ms, turn_of,
}

module _ (calendar : Calendar) (parse_json : Bytes → Option Value) (request_id : String) where
  -- The record that a turn is made of: a message by this role, with a time that is this instant.
  abbrev pub IsMessage : Value → String → calendar.Instant → Type 0
  IsMessage value role instant =
      (at value "type" ≡ str "response_item")
      × (at (at value "payload") "type" ≡ str "message")
      × (at (at value "payload") "role" ≡ str role)
      × ((role ≡ "user") ⊎ (role ≡ "assistant"))
      × (text : String) × (at value "timestamp" ≡ str text)
      × (calendar.parse_rfc3339 text ≡ some instant)

  -- a turn as `turn_of` makes it
  abbrev pub IsMade : String → Value → Type 0
  IsMade id turn =
      (line_no : ℕ) × (role : String) × (instant : calendar.Instant) × (value : Value) × (turn
        ≡ turn_of calendar id line_no role (calendar.to_rfc3339 instant) (at value "payload"))
      × IsMessage value role instant

  -- A turn of the session `id`: it bears that identity, the role and the content of its message, and
  -- the message's own time as the calendar writes it.
  abbrev pub IsTurn : String → Value → Type 0
  IsTurn id turn =
      (role : String) × (instant : calendar.Instant) × (value : Value) × (IsMessage value role
        instant)
      × (at turn "session_id" ≡ str id)
      × (at turn "role" ≡ str role)
      × (at turn "timestamp" ≡ str (calendar.to_rfc3339 instant))
      × (at turn "body" ≡ array (content_chunks (at (at value "payload") "content")))

  canonical_time_lem :
      (value : Value) (text : String)
      → canonical_time calendar value ≡ some text
      → (instant : calendar.Instant) × (given : String) × (text ≡ calendar.to_rfc3339 instant)
        × (at value "timestamp" ≡ str given)
        × (calendar.parse_rfc3339 given ≡ some instant)
  unfolding canonical_time
  canonical_time_lem value text h = elim (Option-cases (as_str (at value "timestamp"))) [
    | inl missing ↦ absurd (ground (arith, missing))
    | inr (s, found) ↦ elim (Option-cases (calendar.parse_rfc3339 s)) [
      | inl wrong ↦ absurd (ground (arith, found, wrong))
      | inr (instant, parsed) ↦ (
        instant,
        s,
        ground (arith, found, parsed),
        as_str_sound (at value "timestamp") s found,
        parsed,
      )
    ]
  ]

  known_role_lem :
      (o : Option String) (role : String)
      → known_role o ≡ some role
      → (o ≡ some role) × ((role ≡ "user") ⊎ (role ≡ "assistant"))
  known_role_lem none role h = absurd (ground arith)
  known_role_lem (some r) role h = elim (Bool-cases (r == "user")) [
    | inl user ↦ (ground (arith, user), inl (sym (ground arith) ∙ (eq_iff r "user").0 user))
    | inr other ↦ elim (Bool-cases (r == "assistant")) [
      | inl assistant ↦ (
        ground (arith, assistant, other),
        inr (sym (ground arith) ∙ (eq_iff r "assistant").0 assistant),
      )
      | inr neither ↦ absurd (ground arith)
    ]
  ]

  is_message_lem :
      (value : Value)
      → is_message value ≡ true
      → (at value "type" ≡ str "response_item") × (at (at value "payload") "type" ≡ str "message")
  unfolding is_message
  is_message_lem value h = (
    is_text_sound (at value "type") "response_item" (ground arith),
    is_text_sound (at (at value "payload") "type") "message" (ground arith),
  )

  on_record_lem :
      (meta : RolloutMeta) (s : Reading) (value : Value) (s' : Reading)
      → on_record calendar parse_json request_id meta s value ≡ ok s'
      → (s'.meta ≡ s.meta) × (All (IsMade meta.id) s.turns → All (IsMade meta.id) s'.turns)
  unfolding on_record
  on_record_lem meta s value s' h = elim (Bool-cases (is_message value)) [
    | inr other ↦
        let kept : s.turns ≡ s'.turns = ground (arith, other) in
        (ground (arith, other), subst (All (IsMade meta.id)) kept)
    | inl message ↦ elim (Option-cases (known_role (as_str (at (at value "payload") "role")))) [
      | inl foreign ↦
          let kept : s.turns ≡ s'.turns = ground (arith, message, foreign) in
          (ground (arith, message, foreign), subst (All (IsMade meta.id)) kept)
      | inr (role, known) ↦ elim (Option-cases (canonical_time calendar value)) [
        | inl untimed ↦ absurd (ground (arith, message, known, untimed))
        | inr (text, timed) ↦
            let (instant, given, canonical, dated, parsed) = canonical_time_lem value text timed in
            let (spoken, by) =
              known_role_lem (as_str (at (at value "payload") "role")) role known in
            let (typed, of_message) = is_message_lem value message in
            let turn = turn_of calendar meta.id s.line_no role text (at value "payload") in
            let added : s.turns ++ (turn ∷ []) ≡ s'.turns = ground (arith, message, known, timed) in
            (
              ground (arith, message, known, timed),
              λ turns. subst (All (IsMade meta.id)) added (
                  All-append (IsMade meta.id) s.turns (turn ∷ []) turns (
                    (
                      s.line_no,
                      role,
                      instant,
                      value,
                      ap (λ t. turn_of calendar meta.id s.line_no role t (at value "payload"))
                          canonical,
                      (
                        typed,
                        of_message,
                        as_str_sound (at (at value "payload") "role") role spoken,
                        by,
                        given,
                        dated,
                        parsed,
                      ),
                    ),
                    tt,
                  )),
            )
      ]
    ]
  ]

  -- What is expected of the identity, and whose the turns are once there is one.
  abbrev pub IsNamed : Option String → String → Type 0
  IsNamed none id = Unit
  IsNamed (some expected) id = expected ≡ id

  abbrev Belongs : Option String → Option RolloutMeta → List Value → Type 0
  Belongs expected none turns = turns ≡ []
  Belongs expected (some meta) turns = IsNamed expected meta.id × All (IsMade meta.id) turns

  on_first-Belongs :
      (expected : Option String) (s : Reading) (value : Value) (s' : Reading)
      → on_first calendar parse_json request_id expected s value ≡ ok s'
      → s.turns ≡ []
      → Belongs expected s'.meta s'.turns
  unfolding on_first
  on_first-Belongs none s value s' h empty =
      elim (Result-cases (parse_meta request_id parse_json (timestamp_ms calendar) value)) [
        | inr (e, failed) ↦ absurd (ground (arith, failed))
        | inl (meta, parsed) ↦
            let reached : some meta ≡ s'.meta = ground (arith, parsed) in
            let kept : [] ≡ s'.turns = ground (arith, parsed, empty) in
            subst (λ m. Belongs none m s'.turns) reached (tt, subst (All (IsMade meta.id)) kept tt)
      ]
  on_first-Belongs (some id) s value s' h empty =
      elim (Result-cases (parse_meta request_id parse_json (timestamp_ms calendar) value)) [
        | inr (e, failed) ↦ absurd (ground (arith, failed))
        | inl (meta, parsed) ↦ elim (Bool-cases (id == meta.id)) [
          | inr other ↦ absurd (ground (arith, parsed, other))
          | inl same ↦
              let reached : some meta ≡ s'.meta = ground (arith, parsed, same) in
              let kept : [] ≡ s'.turns = ground (arith, parsed, same, empty) in
              subst (λ m. Belongs (some id) m s'.turns) reached
                ((eq_iff id meta.id).0 same, subst (All (IsMade meta.id)) kept tt)
        ]
      ]

  abbrev reading : Round → Reading
  reading (again s) = s
  reading (last s) = s

  on_value-Belongs :
      (expected : Option String) (meta : Option RolloutMeta) (s : Reading) (value : Value)
      (r : Round)
      → s.meta ≡ meta
      → (elim meta [
        | none ↦ on_first calendar parse_json request_id expected s value >>= λ s'. ok (again s')
        | some m ↦ on_record calendar parse_json request_id m s value >>= λ s'. ok (again s')
      ])
        ≡ ok r
      → Belongs expected meta s.turns
      → Belongs expected (reading r).meta (reading r).turns
  on_value-Belongs expected none s value r at_start h belongs =
      let (s', e, done) =
        >>=-eq-ok (on_first calendar parse_json request_id expected s value) _ h in
      let last_round : again s' ≡ r = ground arith in
      subst (λ r. Belongs expected (reading r).meta (reading r).turns) last_round
        (on_first-Belongs expected s value s' e belongs)
  on_value-Belongs expected (some m) s value r at_start h belongs =
      let (s', e, done) = >>=-eq-ok (on_record calendar parse_json request_id m s value) _ h in
      let (same, kept) = on_record_lem m s value s' e in
      let last_round : again s' ≡ r = ground arith in
      subst (λ r. Belongs expected (reading r).meta (reading r).turns) last_round
        (subst (λ m. Belongs expected m s'.turns) (sym (same ∙ at_start))
          (belongs.0, kept belongs.1))

  on_line-Belongs :
      (expected : Option String) (s : Reading) (line : Bytes) (r : Round)
      → on_line calendar parse_json request_id expected s line ≡ ok r
      → Belongs expected s.meta s.turns
      → Belongs expected (reading r).meta (reading r).turns
  unfolding on_line
  on_line-Belongs expected s line r h belongs = elim (Bool-cases (all is_ascii_space line)) [
    | inl blank ↦
        let m : s.meta ≡ (reading r).meta = ground (arith, blank) in
        let t : s.turns ≡ (reading r).turns = ground (arith, blank) in
        subst (λ m. Belongs expected m (reading r).turns) m
          (subst (Belongs expected s.meta) t belongs)
    | inr written ↦ elim (Option-cases (parse_json line)) [
      | inl wrong ↦ elim (Bool-cases (ends_newline line)) [
        | inl whole ↦ absurd (ground (arith, written, wrong, whole))
        | inr cut ↦
            let m : s.meta ≡ (reading r).meta = ground (arith, written, wrong, cut) in
            let t : s.turns ≡ (reading r).turns = ground (arith, written, wrong, cut) in
            subst (λ m. Belongs expected m (reading r).turns) m
              (subst (Belongs expected s.meta) t belongs)
      ]
      | inr (value, parsed) ↦
          on_value-Belongs expected s.meta (numbered s) value r refl
            (ground (arith, written, parsed)) belongs
    ]
  ]

  read_lines-Belongs :
      (expected : Option String) (fuel : ℕ) (s : Reading) (bs : Bytes) (s' : Reading)
      → read_lines calendar parse_json request_id expected fuel s bs ≡ ok s'
      → Belongs expected s.meta s.turns
      → Belongs expected s'.meta s'.turns
  unfolding read_lines
  read_lines-Belongs expected zero s bs s' h belongs = absurd (ground arith)
  read_lines-Belongs expected (suc fuel) s bs s' h belongs =
      elim (Result-cases (read_line request_id bs)) [
        | inr (e, failed) ↦ absurd (ground (arith, failed))
        | inl (read, found) ↦ elim (Bool-cases (is_empty read.0)) [
          | inl stop ↦
              let same : s ≡ s' = ground (arith, found, stop) in
              subst (λ (x : Reading). Belongs expected x.meta x.turns) same belongs
          | inr go ↦
              elim (Result-cases (on_line calendar parse_json request_id expected s read.0)) [
                | inr (e, failed) ↦ absurd (ground (arith, found, go, failed))
                | inl (last s2, done) ↦
                    let same : s2 ≡ s' = ground (arith, found, go, done) in
                    subst (λ (x : Reading). Belongs expected x.meta x.turns) same
                      (on_line-Belongs expected s read.0 (last s2) done belongs)
                | inl (again s2, done) ↦
                    read_lines-Belongs expected fuel s2 read.1 s' (ground (arith, found, go, done))
                      (on_line-Belongs expected s read.0 (again s2) done belongs)
              ]
        ]
      ]

  pub read_rollout-IsMade :
      (file : RolloutFile) (expected : Option String) (rollout : Rollout)
      → read_rollout calendar parse_json request_id file expected ≡ ok rollout
      → IsNamed expected rollout.meta.id × All (IsMade rollout.meta.id) rollout.turns
  unfolding read_rollout
  read_rollout-IsMade file expected rollout h =
      elim (Result-cases (
        read_lines calendar parse_json request_id expected (suc (length file.content)) started
          file.content)) [
            | inr (e, failed) ↦ absurd (ground (arith, failed))
            | inl (s, read) ↦
                let belongs =
                  read_lines-Belongs expected (suc (length file.content)) started file.content s
                    read refl in
                elim (Option-cases s.meta) [
                  | inl missing ↦ absurd (ground (arith, read, missing))
                  | inr (meta, found) ↦
                      let m : meta ≡ rollout.meta = ground (arith, read, found) in
                      let t : s.turns ≡ rollout.turns = ground (arith, read, found) in
                      subst
                        (λ (m : RolloutMeta).
                          IsNamed expected m.id × All (IsMade m.id) rollout.turns)
                        m
                        (subst (λ t. IsNamed expected meta.id × All (IsMade meta.id) t) t
                          (subst (λ o. Belongs expected o s.turns) found belongs))
                ]
          ]
