-- ===== src/Pages/Scan.antt =====
-- The loop of `read_turns_with_limits` over the records that were read.
use agent_runner_codex.Prelude.{
  ℕ, ◌+◌, String, Bool, not, ◌||◌, ◌&&◌, ◌==◌, Bytes, List, [], ◌∷◌, ◌++◌, Option, none, some, eqb,
  if◌then◌else◌, length, all, is_empty, is_ascii_space,
}
use agent_runner_codex.Json.{Value, null, at, is_text}
use agent_runner_codex.Envelope.{Result, ok, err, ◌>>=◌, ◌>>◌, ok_or, refuse_if}
use agent_runner_codex.Pages.Types.{Cursor, Params, capacity, invalid, stale}
use agent_runner_codex.Pages.Pack.{ends_newline}
use agent_runner_codex.Pages.Project.{Printer, ReadAccounting, Turn, fits, page_result, project}

-- `split_inclusive(|b| *b == b'\n')`
unfoldable pub split_inclusive : Bytes → List Bytes
split_inclusive [] = []
split_inclusive (b ∷ bs) =
    let rest = split_inclusive bs in
    if eqb b b'\n'
    then (b ∷ []) ∷ rest
    else elim rest [ [] ↦ (b ∷ []) ∷ [] | line ∷ lines ↦ (b ∷ line) ∷ lines ]

-- what the loop has gathered
pub record Progress : Type 0 where
  pub next : Cursor
  pub turns : List Turn
  pub consumed : ℕ

-- the cursor at the end of a complete record
abbrev pub at_record_end : Cursor → ℕ → Cursor
at_record_end next proposed_offset = record {
  kind = next.kind;
  binding = next.binding;
  budgets = next.budgets;
  stamp = next.stamp;
  snapshot = next.snapshot;
  offset = proposed_offset;
  page = next.page;
  sequence = next.sequence;
  partial_record = none;
}

-- the turn without its inline body
abbrev pub omitted : Turn → Turn
omitted turn =
    if turn.body_state == "inline"
    then (record { body_state = "omitted_oversize"; body = null; fields = turn.fields })
    else turn

module _ (printer : Printer) (parse_json : Bytes → Option Value) (request_id : String)
    (token_of : Cursor → String) (observing : Bool) (p : Params) (state : Cursor)
    (examined : ReadAccounting) where
  -- whether a page with these turns, up to a record's end, fits the response budget
  abbrev pub page_fits : Cursor → List Turn → Bool
  page_fits candidate turns =
      fits printer request_id
        (page_result printer request_id token_of observing state candidate turns examined
          (eqb candidate.offset state.stamp.len)).0
        p

  -- the turns with one more, if it may be added; `none` ends the page before its record
  unfoldable pub admit_turn : Cursor → List Turn → Turn → Result (Option (List Turn))
  admit_turn candidate turns turn =
      if eqb (length turns) p.max_turns
      then ok none
      else if page_fits candidate (turns ++ turn ∷ [])
      then ok (some (turns ++ turn ∷ []))
      else if page_fits candidate (turns ++ omitted turn ∷ [])
      then ok (some (turns ++ omitted turn ∷ []))
      else if is_empty turns
      then err (capacity request_id "Response budget cannot hold the next turn metadata")
      else ok none

  abbrev pub record_value : Bytes → Result Value
  record_value line =
      if all is_ascii_space line
      then ok null
      else ok_or (parse_json line) (invalid request_id "Malformed complete Codex rollout record")

  -- the progress after a record of `size` bytes that ends where `candidate` stands
  abbrev pub advance : Progress → Cursor → ℕ → List Turn → Progress
  advance g candidate size turns = record {
    next = candidate;
    turns = turns;
    consumed = g.consumed + size;
  }

  unfoldable pub add_projected : Progress → Cursor → ℕ → Option Turn → Result (Option Progress)
  unfolding admit_turn
  add_projected g candidate size none = ok (some (advance g candidate size g.turns))
  add_projected g candidate size (some turn) = do
    admitted ← admit_turn candidate g.turns turn
    elim admitted [ none ↦ ok none | some turns ↦ ok (some (advance g candidate size turns)) ]

  -- one complete record; `none` ends the page before it
  unfoldable pub scan_record : ℕ → Progress → Bytes → Result (Option Progress)
  unfolding add_projected
  scan_record record_start g line = do
    let offset = record_start + g.consumed
    let proposed_offset = offset + length line
    value ← record_value line
    refuse_if
        (eqb offset 0
          && (not (is_text (at value "type") "session_meta")
              || not (is_text (at (at value "payload") "id") p.session_id)))
        (stale request_id)
    projected ← project printer request_id value p offset (state.sequence + length g.turns)
    add_projected g (at_record_end g.next proposed_offset) (length line) projected

  unfoldable pub scan_records : ℕ → Progress → List Bytes → Result Progress
  unfolding scan_record
  scan_records record_start g [] = ok g
  scan_records record_start g (line ∷ lines) =
      let more = (do
        scanned ← scan_record record_start g line
        elim scanned [ none ↦ ok g | some g' ↦ scan_records record_start g' lines ]) in
      if ends_newline line then more else ok g
