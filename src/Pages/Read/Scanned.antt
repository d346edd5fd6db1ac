-- ===== src/Pages/Read/Scanned.antt =====
-- What the loop over the records gathers.
use agent_runner_codex.Prelude.{
  ℕ, suc, ◌+◌, ◌≤◌, ◌≡◌, refl, ap, ◌∙◌, ◌⊎◌, inl, inr, String, Bool, true, false, Bytes, List, [],
  ◌∷◌, ◌++◌, Option, none, some, length, arith, eqb, All, Bool-cases, Option-cases, length-append,
  is_empty, if◌then◌else◌, subst,
}
use agent_runner_codex.Json.{Value}
use agent_runner_codex.Envelope.{ok, err, >>=-eq-ok, refuse_if-eq-ok}
use agent_runner_codex.Pages.Types.{Cursor, Params, capacity}
use agent_runner_codex.Pages.Pack.{ends_newline}
use agent_runner_codex.Pages.Project.{Printer, ReadAccounting, Turn, project}
use agent_runner_codex.Pages.Scan.{
  Progress, add_projected, advance, admit_turn, at_record_end, omitted, page_fits, record_value,
  scan_record, scan_records, split_inclusive,
}

-- The bytes of the lines.
abbrev pub total_length : List Bytes → ℕ
total_length [] = 0
total_length (line ∷ lines) = length line + total_length lines

cons_total :
    (b : ℕ) (rest : List Bytes)
    → total_length (elim rest [ [] ↦ (b ∷ []) ∷ [] | line ∷ lines ↦ (b ∷ line) ∷ lines ])
      ≡ suc (total_length rest)
cons_total b [] = refl
cons_total b (line ∷ lines) = omega arith

pub split_inclusive_total : (bs : Bytes) → total_length (split_inclusive bs) ≡ length bs
unfolding split_inclusive
split_inclusive_total [] = refl
split_inclusive_total (b ∷ bs) =
    ground (arith, split_inclusive_total bs, cons_total b (split_inclusive bs))

module _ (printer : Printer) (parse_json : Bytes → Option Value) (request_id : String)
    (token_of : Cursor → String) (observing : Bool) (p : Params) (state : Cursor)
    (examined : ReadAccounting) where
  admit_turn_lem :
      (candidate : Cursor) (turns : List Turn) (turn : Turn) (more : List Turn)
      → length turns ≤ p.max_turns
      → admit_turn printer parse_json request_id token_of observing p state examined candidate turns
          turn
        ≡ ok (some more)
      → length more ≤ p.max_turns
  unfolding admit_turn
  admit_turn_lem candidate turns turn more le h =
      let a = length-append turns (turn ∷ []) in
      let b = length-append turns (omitted turn ∷ []) in
      elim (Bool-cases (eqb (length turns) p.max_turns)) [
        | inl full ↦ absurd (ground (arith, rw full at h))
        | inr room ↦
            elim (Bool-cases (
              page_fits printer parse_json request_id token_of observing p state examined candidate
                (turns ++ turn ∷ []))) [
                  | inl fit ↦
                      let same : turns ++ turn ∷ [] ≡ more = ground (arith, rw (room, fit) at h) in
                      subst (λ l. length l ≤ p.max_turns) same (ground (arith, a, room))
                  | inr big ↦
                      elim (Bool-cases (
                        page_fits printer parse_json request_id token_of observing p state examined
                          candidate (turns ++ omitted turn ∷ []))) [
                            | inl fit ↦
                                let same : turns ++ omitted turn ∷ [] ≡ more =
                                  ground (arith, rw (room, big, fit) at h) in
                                subst (λ l. length l ≤ p.max_turns) same (ground (arith, b, room))
                            | inr large ↦
                                absurd (refused (is_empty turns) (rw (room, big, large) at h))
                          ]
                ]
      ]
    where
      refused :
          (e : Bool) {more : List Turn}
          → (if e
              then err (capacity request_id "Response budget cannot hold the next turn metadata")
              else ok none)
            ≡ ok (some more)
          → ⊥
      refused true h = ground arith
      refused false h = ground arith

  -- The cursor and the consumed bytes move to the end of the record.
  Advanced : ℕ → Progress → Bytes → Progress → Type 0
  Advanced record_start g line g' =
      (g'.consumed ≡ g.consumed + length line)
      × ((g'.next.offset ≡ record_start + g.consumed + length line)
          × (length g'.turns ≤ p.max_turns))

  record_end_lem :
      (record_start : ℕ) (g : Progress) (line : Bytes) (turns : List Turn) (g' : Progress)
      → length turns ≤ p.max_turns
      → ok (
          some (
            advance printer parse_json request_id token_of observing p state examined g
              (at_record_end g.next (record_start + g.consumed + length line))
              (length line)
              turns))
        ≡ ok (some g')
      → Advanced record_start g line g'
  unfolding Advanced
  record_end_lem record_start g line turns g' le h =
      let q =
        advance printer parse_json request_id token_of observing p state examined g
          (at_record_end g.next (record_start + g.consumed + length line)) (length line) turns in
      let same : q ≡ g' = ground arith in
      subst
        (λ (x : Progress).
          (x.consumed ≡ g.consumed + length line)
          × ((x.next.offset ≡ record_start + g.consumed + length line)
              × (length x.turns ≤ p.max_turns)))
        same (refl, (refl, le))

  add_projected_lem :
      (record_start : ℕ) (g g' : Progress) (line : Bytes) (o : Option Turn)
      → length g.turns ≤ p.max_turns
      → add_projected printer parse_json request_id token_of observing p state examined g
          (at_record_end g.next (record_start + g.consumed + length line))
          (length line)
          o
        ≡ ok (some g')
      → Advanced record_start g line g'
  unfolding add_projected
  add_projected_lem record_start g g' line none le h =
      record_end_lem record_start g line g.turns g' le h
  add_projected_lem record_start g g' line (some turn) le h =
      let candidate = at_record_end g.next (record_start + g.consumed + length line) in
      let (admitted, seen, rest) =
        >>=-eq-ok
          (admit_turn printer parse_json request_id token_of observing p state examined candidate
            g.turns turn)
          _ h in
      elim (Option-cases admitted) [
        | inl ended ↦ absurd (ground (arith, ended))
        | inr (turns, kept) ↦
            record_end_lem record_start g line turns g'
              (admit_turn_lem candidate g.turns turn turns le (seen ∙ ap ok kept)) (rw kept at rest)
      ]

  scan_record_lem :
      (record_start : ℕ) (g g' : Progress) (line : Bytes)
      → length g.turns ≤ p.max_turns
      → scan_record printer parse_json request_id token_of observing p state examined record_start g
          line
        ≡ ok (some g')
      → Advanced record_start g line g'
  unfolding scan_record
  scan_record_lem record_start g g' line le h =
      let (value, _a, h1) =
        >>=-eq-ok
          (record_value printer parse_json request_id token_of observing p state examined line) _
          h in
      let (_b, h2) = refuse_if-eq-ok _ _ _ h1 in
      let (projected, _c, h3) =
        >>=-eq-ok
          (project printer request_id value p (record_start + g.consumed)
            (state.sequence + length g.turns))
          _ h2 in
      add_projected_lem record_start g g' line projected le h3

  -- Where the loop over complete records ends: it has consumed exactly the lines of `front`, which are
  -- whole records, and left the others; the cursor stands at the end of the last one taken, and there
  -- are at most `max_turns` turns.
  pub record IsScanned (record_start : ℕ) (g g' : Progress) (lines : List Bytes) : Type 0 where
    pub front : List Bytes
    pub left : List Bytes
    pub split : lines ≡ front ++ left
    pub whole : All (λ line. ends_newline line ≡ true) front
    pub exact : g'.consumed ≡ g.consumed + total_length front
    pub few : length g'.turns ≤ p.max_turns
    pub forward : g.consumed ≤ g'.consumed
    pub inside : g'.consumed ≤ g.consumed + total_length lines
    pub place :
        ((g'.consumed ≡ g.consumed) × (g'.next ≡ g.next))
        ⊎ (g'.next.offset ≡ record_start + g'.consumed)

  stopped :
      (record_start : ℕ) (g : Progress) (lines : List Bytes)
      → length g.turns ≤ p.max_turns
      → IsScanned record_start g g lines
  stopped record_start g lines le = record {
    front = [];
    left = lines;
    split = refl;
    whole = tt;
    exact = omega arith;
    few = le;
    forward = omega arith;
    inside = omega arith;
    place = inl (refl, refl);
  }

  taken :
      (record_start : ℕ) (g m g' : Progress) (line : Bytes) (lines : List Bytes)
      → ends_newline line ≡ true
      → Advanced record_start g line m
      → IsScanned record_start m g' lines
      → IsScanned record_start g g' (line ∷ lines)
  unfolding Advanced
  taken record_start g m g' line lines closed (moved, (place, few)) s = record {
    front = line ∷ s.front;
    left = s.left;
    split = ap (λ (l : List Bytes). line ∷ l) s.split;
    whole = (closed, s.whole);
    exact = omega (arith, s.exact, moved);
    few = s.few;
    forward = omega (arith, s.forward, moved);
    inside = omega (arith, s.inside, moved);
    place = inr (elim s.place [
      | inl (same, kept) ↦ ap (λ (c : Cursor). c.offset) kept ∙ omega (arith, place, moved, same)
      | inr there ↦ there
    ]);
  }

  -- Started with at most the turns that were asked for, the loop over the records keeps that limit,
  -- consumes exactly some whole records from the front, byte for byte, and leaves the cursor at the end
  -- of the last one taken, or where it was if there is none.
  pub scan_records-IsScanned :
      (record_start : ℕ) (g g' : Progress) (lines : List Bytes)
      → length g.turns ≤ p.max_turns
      → scan_records printer parse_json request_id token_of observing p state examined record_start
          g lines
        ≡ ok g'
      → IsScanned record_start g g' lines
  unfolding scan_records
  scan_records-IsScanned record_start g g' [] le h =
      let same : g ≡ g' = ground arith in
      subst (λ x. IsScanned record_start g x []) same (stopped record_start g [] le)
  scan_records-IsScanned record_start g g' (line ∷ lines) le h =
      elim (Bool-cases (ends_newline line)) [
        | inr unfinished ↦
            let same : g ≡ g' = ground (arith, rw unfinished at h) in
            subst (λ x. IsScanned record_start g x (line ∷ lines)) same
              (stopped record_start g (line ∷ lines) le)
        | inl whole ↦
            let (o, seen, rest) =
              >>=-eq-ok
                (scan_record printer parse_json request_id token_of observing p state examined
                  record_start g line)
                _ (rw whole at h) in
            elim (Option-cases o) [
              | inl ended ↦
                  let same : g ≡ g' = ground (arith, rw ended at rest) in
                  subst (λ x. IsScanned record_start g x (line ∷ lines)) same
                    (stopped record_start g (line ∷ lines) le)
              | inr (m, scanned) ↦
                  let step = scan_record_lem record_start g m line le (seen ∙ ap ok scanned) in
                  taken record_start g m g' line lines whole step (
                    scan_records-IsScanned record_start m g' lines (unfold Advanced in step.1.1)
                      (rw scanned at rest))
            ]
      ]
