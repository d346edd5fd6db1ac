-- ===== src/Session/Rollout/Torn.antt =====
-- A rollout as the sequence of its records, and one whose last record is being written.
use agent_runner_codex.Prelude.{
  ℕ, zero, suc, ◌≤◌, ◌<◌, ◌≡◌, refl, ap, sym, ◌∙◌, inl, inr, String, true, false, Bytes, List, [],
  ◌∷◌, ◌++◌, Option, none, length, is_empty, all, is_ascii_space, arith, Bool-cases, Option-cases,
  All, append_assoc, append-nil, length-append,
}
use agent_runner_codex.Json.{Value}
use agent_runner_codex.Envelope.{Result, ok, err, ◌>>=◌, Result-cases}
use agent_runner_codex.Pages.Pack.{read_frame, ends_newline}
use agent_runner_codex.Pages.Pack.Frames.{
  HasNoNewline, ends_newline-line, ends_newline-tail, read_frame-line, read_frame-tail,
}
use agent_runner_codex.Session.{RolloutFile, max_line_bytes, read_line}
use agent_runner_codex.Session.Rollout.{
  Calendar, Reading, Rollout, again, last, after_round, cut_short, max_rollout_bytes, numbered,
  on_first, on_line, on_record, read_lines, read_rollout, rollout_of, started,
}

abbrev pub text_of : List Bytes → Bytes
text_of [] = []
text_of (line ∷ lines) = line ++ b'\n' ∷ text_of lines

-- a record without its line end, within the limit that the provider has for one
abbrev pub IsLine : Bytes → Type 0
IsLine line = HasNoNewline line × (length line < max_line_bytes)

abbrev pub with_content : RolloutFile → Bytes → RolloutFile
with_content file content = record {
  path = file.path;
  name = file.name;
  stamp = file.stamp;
  content = content;
}

-- the rollout, marked incomplete
abbrev pub incomplete : Rollout → Rollout
incomplete r = record {
  meta = r.meta;
  turns = r.turns;
  complete = false;
  task_completed = r.task_completed;
}

read_line-line :
    (request_id : String) (line rest : Bytes)
    → IsLine line
    → read_line request_id (line ++ b'\n' ∷ rest) ≡ ok (line ++ b'\n' ∷ [], rest)
unfolding read_line
read_line-line request_id line rest (plain, short) = ground (
  arith,
  read_frame-line (suc max_line_bytes) line rest plain (omega arith),
  length-append line (b'\n' ∷ []),
)

read_line-tail :
    (request_id : String) (tail : Bytes)
    → HasNoNewline tail
    → length tail ≤ max_line_bytes
    → read_line request_id tail ≡ ok (tail, [])
unfolding read_line
read_line-tail request_id tail plain short =
    ground (arith, read_frame-tail (suc max_line_bytes) tail plain (omega arith))

module _ (calendar : Calendar) (parse_json : Bytes → Option Value) (request_id : String)
    (expected : Option String) where
  -- the records one after the other, with no bytes, no limits and no fuel
  unfoldable pub over : Reading → List Bytes → Result Reading
  over s [] = ok s
  over s (line ∷ lines) =
      on_line calendar parse_json request_id expected s (line ++ b'\n' ∷ [])
      >>= after_round (λ s'. over s' lines)

  on_line-again :
      (s : Reading) (line : Bytes) (s' : Reading)
      → ends_newline line ≡ true
      → on_line calendar parse_json request_id expected s line ≡ ok (last s')
      → ⊥
  unfolding on_line
  on_line-again s line s' whole h = elim (Bool-cases (all is_ascii_space line)) [
    | inl blank ↦ ground (arith, blank)
    | inr written ↦ elim (Option-cases (parse_json line)) [
      | inl wrong ↦ ground (arith, written, wrong)
      | inr (value, parsed) ↦ elim (Option-cases s.meta) [
        | inl first ↦
            elim (Result-cases
              (on_first calendar parse_json request_id expected (numbered s) value)) [
                | inl (t, done) ↦ ground (arith, written, parsed, first, done)
                | inr (e, failed) ↦ ground (arith, written, parsed, first, failed)
              ]
        | inr (meta, later) ↦
            elim (Result-cases (on_record calendar parse_json request_id meta (numbered s) value)) [
              | inl (t, done) ↦ ground (arith, written, parsed, later, done)
              | inr (e, failed) ↦ ground (arith, written, parsed, later, failed)
            ]
      ]
    ]
  ]

  abbrev from : ℕ → Bytes → Reading → Result Reading
  from fuel bs s = read_lines calendar parse_json request_id expected fuel s bs

  is_empty-line : (line rest : Bytes) → is_empty (line ++ b'\n' ∷ rest) ≡ false
  is_empty-line [] rest = refl
  is_empty-line (b ∷ line) rest = refl

  read_lines-line :
      (s : Reading) (line rest : Bytes) (fuel : ℕ)
      → IsLine line
      → from (suc fuel) (line ++ b'\n' ∷ rest) s ≡ (
          on_line calendar parse_json request_id expected s (line ++ b'\n' ∷ [])
          >>= after_round (from fuel rest))
  unfolding read_lines
  read_lines-line s line rest fuel is_line =
      ground (arith, read_line-line request_id line rest is_line, is_empty-line line [])

  -- The loop takes the whole records first, and has fuel left for what follows.
  read_lines-over :
      (s : Reading) (lines : List Bytes) (tail : Bytes) (fuel : ℕ)
      → All IsLine lines
      → length (text_of lines ++ tail) < fuel
      → (left : ℕ) × (length tail < left)
        × (from fuel (text_of lines ++ tail) s ≡ (over s lines >>= from left tail))
  unfolding over
  read_lines-over s [] tail fuel fit enough = (fuel, enough, refl)
  read_lines-over s (line ∷ lines) tail zero fit enough = elim enough [ ]
  read_lines-over s (line ∷ lines) tail (suc fuel) (is_line, fit) enough =
      let split = append_assoc line (b'\n' ∷ text_of lines) tail in
      let fewer : length (text_of lines ++ tail) < fuel =
        omega (arith, length-append line (b'\n' ∷ text_of lines ++ tail), ap length split) in
      let round =
        ap (λ bs. from (suc fuel) bs s) split
        ∙ read_lines-line s line (text_of lines ++ tail) fuel is_line in
      elim (Result-cases (on_line calendar parse_json request_id expected s (line ++ b'\n' ∷ []))) [
        | inr (e, failed) ↦ (suc (length tail), omega arith, round ∙ rw failed)
        | inl (last s', stopped) ↦
            absurd (on_line-again s (line ++ b'\n' ∷ []) s' (ends_newline-line line) stopped)
        | inl (again s', went_on) ↦
            let (left, more, same) = read_lines-over s' lines tail fuel fit fewer in
            (left, more, round ∙ rw (went_on, same))
      ]

  -- the end of a rollout whose records are all written
  from-end : (s : Reading) (fuel : ℕ) → 0 < fuel → from fuel [] s ≡ ok s
  unfolding read_lines read_line read_frame
  from-end s zero h = elim h [ ]
  from-end s (suc fuel) h = refl

  -- the end of a rollout whose last record is being written
  from-torn :
      (s : Reading) (tail : Bytes) (fuel : ℕ)
      → length tail < fuel
      → HasNoNewline tail
      → length tail ≤ max_line_bytes
      → all is_ascii_space tail ≡ false
      → parse_json tail ≡ none
      → from fuel tail s ≡ ok (cut_short s)
  unfolding read_lines on_line
  from-torn s tail zero enough plain short written wrong = elim enough [ ]
  from-torn s [] (suc fuel) enough plain short written wrong = absurd (ground arith)
  from-torn s (b ∷ tail) (suc fuel) enough plain short written wrong =
      ground (
        arith,
        read_line-tail request_id (b ∷ tail) plain short,
        ends_newline-tail (b ∷ tail) plain,
      )

  abbrev pub result_of : Result Reading → Result Rollout
  result_of (ok s) = rollout_of calendar parse_json request_id s
  result_of (err e) = err e

  abbrev pub marked : Result Rollout → Result Rollout
  marked (ok r) = ok (incomplete r)
  marked (err e) = err e

  read_rollout-from :
      (file : RolloutFile) (r : Result Reading)
      → length file.content ≤ max_rollout_bytes
      → from (suc (length file.content)) file.content started ≡ r
      → read_rollout calendar parse_json request_id file expected ≡ result_of r
  unfolding read_rollout
  read_rollout-from file (ok s) small same = ground (arith, same)
  read_rollout-from file (err e) small same = ground (arith, same)

  -- Where every record is within the limit and so is the whole, the loop over a rollout's bytes reads
  -- its records one after the other, and ends with its last.
  pub read_rollout-over :
      (file : RolloutFile) (lines : List Bytes)
      → All IsLine lines
      → length (text_of lines) ≤ max_rollout_bytes
      → read_rollout calendar parse_json request_id (with_content file (text_of lines)) expected
        ≡ result_of (over started lines)
  read_rollout-over file lines fit small =
      let content = append-nil (text_of lines) in
      let enough : length (text_of lines ++ []) < suc (length (text_of lines)) =
        omega (arith, ap length content) in
      let (left, more, same) =
        read_lines-over started lines [] (suc (length (text_of lines))) fit enough in
      read_rollout-from (with_content file (text_of lines)) (over started lines) small (
        sym (ap (λ bs. from (suc (length (text_of lines))) bs started) content)
        ∙ same
        ∙ finished (over started lines) left more)
    where
      finished : (r : Result Reading) (left : ℕ) → 0 < left → (r >>= from left []) ≡ r
      finished (err e) left more = refl
      finished (ok s) left more = from-end s left more

  -- Where a rollout of at most 512 MiB is whole records within the record limit of 16 MiB with a record
  -- behind them that is being written, within that limit too, which is not blank and no JSON text, what
  -- is read of it is what is read of its whole records, marked incomplete; and where those fail, it
  -- fails as they do.
  pub read_rollout-torn :
      (file : RolloutFile) (lines : List Bytes) (tail : Bytes)
      → All IsLine lines
      → HasNoNewline tail
      → length tail ≤ max_line_bytes
      → all is_ascii_space tail ≡ false
      → parse_json tail ≡ none
      → length (text_of lines ++ tail) ≤ max_rollout_bytes
      → read_rollout calendar parse_json request_id
          (with_content file (text_of lines ++ tail))
          expected
        ≡ marked (
            read_rollout calendar parse_json request_id
              (with_content file (text_of lines))
              expected)
  read_rollout-torn file lines tail fit plain short written wrong small =
      let (left, more, same) =
        read_lines-over started lines tail (suc (length (text_of lines ++ tail))) fit
          (omega arith) in
      let smaller : length (text_of lines) ≤ max_rollout_bytes =
        omega (arith, length-append (text_of lines) tail) in
      read_rollout-from (with_content file (text_of lines ++ tail)) (cut (over started lines)) small
        (same ∙ stopped (over started lines) left more)
      ∙ agree (over started lines)
      ∙ ap marked (sym (read_rollout-over file lines fit smaller))
    where
      cut : Result Reading → Result Reading
      cut (err e) = err e
      cut (ok s) = ok (cut_short s)

      stopped :
          (r : Result Reading) (left : ℕ) → length tail < left → (r >>= from left tail) ≡ cut r
      stopped (err e) left more = refl
      stopped (ok s) left more = from-torn s tail left more plain short written wrong

      agree : (r : Result Reading) → result_of (cut r) ≡ marked (result_of r)
      agree (err e) = refl
      agree (ok s) = elim (Option-cases s.meta) [
        | inl missing ↦ rw missing
        | inr (meta, found) ↦ rw found
      ]
