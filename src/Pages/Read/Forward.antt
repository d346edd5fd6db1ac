-- ===== src/Pages/Read/Forward.antt =====
-- How far a page gets.
use agent_runner_codex.Prelude.{
  ℕ, ◌+◌, ◌-◌, ◌≤◌, ◌≡◌, ◌≢◌, refl, sym, subst, ◌⊎◌, inl, inr, String, Bool, true, false, not, ◌&&◌,
  Bytes, [], ◌++◌, length, arith, Bool-cases, eqb, eqb_iff, ltb, length-append, drop, contains_byte,
}
use agent_runner_codex.Envelope.{ok, >>=-eq-ok, refuse_if-eq-ok}
use agent_runner_codex.Session.{RolloutFile}
use agent_runner_codex.Pages.Types.{Cursor, Params}
use agent_runner_codex.Pages.Project.{ReadAccounting}
use agent_runner_codex.Pages.Scan.{Progress, scan_records, split_inclusive}
use agent_runner_codex.Pages.Storage.{PageStorage, is_observation, storage_stage, storage_token}
use agent_runner_codex.Pages.Read.{
  Outside, Page, finish_page, framed_page, partial_page, whole_page,
}
use agent_runner_codex.Pages.Read.Scanned.{IsScanned, scan_records-IsScanned, split_inclusive_total}

module _ (outside : Outside) (request_id : String) (p : Params) (storage : PageStorage)
    (file : RolloutFile) (state : Cursor) (metadata_bytes : ℕ) where
  -- At most `max_turns` turns; no byte is passed over that was not read; and the page is complete or
  -- its cursor has moved.
  pub record IsForward (native : Bytes) (page : Page) : Type 0 where
    pub few : length page.turns ≤ p.max_turns
    pub reached : page.next.offset ≤ state.offset + length native
    pub moved : (page.complete ≡ true) ⊎ (page.next.offset ≢ state.offset)

  -- What is known of a page before its last check.
  Reached : Bytes → Page → Type 0
  Reached native page =
      (length page.turns ≤ p.max_turns) × (page.next.offset ≤ state.offset + length native)

  start : Progress
  start = record { next = state; turns = []; consumed = 0 }

  reached_of :
      (prefix native : Bytes) (examined : ReadAccounting) (g : Progress)
      → length prefix ≤ state.offset
      → IsScanned outside.printer outside.parse_json request_id
          (storage_token outside.platform outside.wire storage)
          (is_observation storage)
          p
          state
          examined
          (state.offset - length prefix)
          start
          g
          (split_inclusive (prefix ++ native))
      → g.next.offset ≤ state.offset + length native
  unfolding start
  reached_of prefix native examined g le s =
      let size = split_inclusive_total (prefix ++ native) in
      let both = length-append prefix native in
      elim s.place [
        | inl (same, kept) ↦
            subst (λ (c : Cursor). c.offset ≤ state.offset + length native) (sym kept) (omega arith)
        | inr there ↦ omega (arith, there, s.inside, size, both)
      ]

  finish_page_lem :
      (prefix native : Bytes) (examined : ReadAccounting) (g : Progress) (page : Page)
      → length prefix ≤ state.offset
      → length g.turns ≤ p.max_turns
      → g.next.offset ≤ state.offset + length native
      → finish_page outside request_id p storage file state metadata_bytes
          (prefix ++ native)
          (state.offset - length prefix)
          examined
          g
        ≡ ok page
      → Reached native page
  unfolding finish_page Reached
  finish_page_lem prefix native examined g page le few there h =
      let both = length-append prefix native in
      elim (Bool-cases (
        ltb g.consumed (length (prefix ++ native))
        && not (contains_byte b'\n' (drop g.consumed (prefix ++ native))))) [
          | inr whole ↦
              let same : whole_page outside request_id p storage file state metadata_bytes examined
                    g
                  ≡ page =
                ground (arith, rw whole at h) in
              subst
                (λ (x : Page).
                  (length x.turns ≤ p.max_turns) × (x.next.offset ≤ state.offset + length native))
                same (few, there)
          | inl unfinished ↦
              let (staged, _a, rest) =
                >>=-eq-ok
                  (storage_stage outside.platform outside.wire request_id storage
                    (state.offset - length prefix + g.consumed)
                    (drop g.consumed (prefix ++ native)))
                  _ (rw unfinished at h) in
              let q =
                partial_page outside request_id p storage file state metadata_bytes
                  (state.offset - length prefix + length (prefix ++ native)) examined g staged in
              let same : q ≡ page = ground (arith, rest) in
              subst
                (λ (x : Page).
                  (length x.turns ≤ p.max_turns) × (x.next.offset ≤ state.offset + length native))
                same (few, omega arith)
        ]

  -- A page that is made from a retained prefix, no longer than the cursor's offset, and what was read
  -- after it has at most the turns that were asked for, ends within what was read, and is complete or
  -- has moved the cursor.
  pub framed_page-IsForward :
      (prefix native : Bytes) (examined : ReadAccounting) (page : Page)
      → length prefix ≤ state.offset
      → framed_page outside request_id p storage file state metadata_bytes prefix native examined
        ≡ ok page
      → IsForward native page
  unfolding framed_page start Reached
  framed_page-IsForward prefix native examined page le h =
      let (g, scanned, h1) =
        >>=-eq-ok
          (scan_records outside.printer outside.parse_json request_id
            (storage_token outside.platform outside.wire storage) (is_observation storage) p state
            examined (state.offset - length prefix) start (split_inclusive (prefix ++ native)))
          _ h in
      let (q, made, h2) =
        >>=-eq-ok
          (finish_page outside request_id p storage file state metadata_bytes (prefix ++ native)
            (state.offset - length prefix) examined g)
          _ h1 in
      let (test, done) =
        refuse_if-eq-ok (eqb q.next.offset state.offset && not q.complete) _ _ h2 in
      let s =
        scan_records-IsScanned outside.printer outside.parse_json request_id
          (storage_token outside.platform outside.wire storage) (is_observation storage) p state
          examined (state.offset - length prefix) start g (split_inclusive (prefix ++ native))
          (omega arith) scanned in
      let (few, there) =
        finish_page_lem prefix native examined g q le s.few
          (reached_of prefix native examined g le s) made in
      let same : q ≡ page = ground (arith, done) in
      subst (IsForward native) same (record {
        few = few;
        reached = there;
        moved = moved_of q.next.offset state.offset q.complete test;
      })
    where
      moved_of : (a b : ℕ) (c : Bool) → (eqb a b && not c) ≡ false → (c ≡ true) ⊎ (a ≢ b)
      moved_of a b true h = inl refl
      moved_of a b false h = inr (λ e. ground (arith, eqb_iff a b))
