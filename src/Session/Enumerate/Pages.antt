-- ===== src/Session/Enumerate/Pages.antt =====
-- The pages of an enumeration make up the whole.
use agent_runner_codex.Prelude.{
  ℕ, zero, suc, ◌+◌, ◌-◌, ◌^◌, ◌≤◌, ◌<◌, ◌≡◌, refl, ap, sym, ◌∙◌, inl, inr, String, true, ◌⋯◌,
  eq_refl, List, [], ◌∷◌, ◌++◌, Option, none, some, length, take, drop, eqb, arith, Bool-cases,
  show, take-append-drop, length-drop,
}
use agent_runner_codex.Prelude.Slices.{take-length}
use agent_runner_codex.Prelude.Decimal.{
  has_no_colon, parse_usize-show, show-IsNumeral, split_colon-last, split_colon-⋯,
}
use agent_runner_codex.Json.{Value}
use agent_runner_codex.Envelope.{Result, ok, err, ◌>>=◌}
use agent_runner_codex.Session.Enumerate.{
  Slice, slice_at, cursor_at, offset_of, page, page_end, pieces_offset,
}

abbrev put_before : List Value → Option (Result (List Value)) → Option (Result (List Value))
put_before sessions none = none
put_before sessions (some (err e)) = some (err e)
put_before sessions (some (ok more)) = some (ok (sessions ++ more))

abbrev continued :
    (Option String → Option (Result (List Value)))
    → List Value
    → Option String
    → Option (Result (List Value))
continued rest sessions none = some (ok sessions)
continued rest sessions (some next) = put_before sessions (rest (some next))

abbrev answered :
    (Option String → Option (Result (List Value))) → Result Slice → Option (Result (List Value))
answered rest (err e) = some (err e)
answered rest (ok slice) = continued rest slice.sessions slice.next_cursor

drop-nil {ℓ} : {A : Type ℓ} (n : ℕ) → drop {A = A} n [] ≡ []
drop-nil zero = refl
drop-nil (suc n) = refl

drop-drop {ℓ} : {A : Type ℓ} (b a : ℕ) (xs : List A) → drop a (drop b xs) ≡ drop (b + a) xs
drop-drop zero a xs = ap (λ n. drop n xs) (omega arith)
drop-drop (suc b) a [] = drop-nil a ∙ sym (drop-nil (suc b + a))
drop-drop (suc b) a (x ∷ xs) =
    let sum : suc (b + a) ≡ suc b + a = omega arith in
    drop-drop b a xs ∙ ap (λ n. drop n (x ∷ xs)) sum

module _ (request_id : String) (fingerprint : String) where
  -- A cursor that is given out points where its page ended.
  pub offset_of-cursor_at :
      (count n : ℕ)
      → has_no_colon fingerprint ≡ true
      → n ≤ count
      → count < 2 ^ 64
      → offset_of request_id fingerprint count (some (cursor_at fingerprint n)) ≡ ok n
  unfolding offset_of pieces_offset has_no_colon
  offset_of-cursor_at count n plain le small =
      ap (pieces_offset request_id fingerprint count) (
        split_colon-⋯ "codex-v1" (fingerprint ⋯ (":" ⋯ show n)) refl
        ∙ ap (λ l. "codex-v1" ∷ l)
            (split_colon-⋯ fingerprint (show n) plain
              ∙ ap (λ l. fingerprint ∷ l) (split_colon-last (show n) (show-IsNumeral n).1)))
      ∙ ground (arith, eq_refl fingerprint, parse_usize-show n (omega arith))

  -- The listing that a client gets that asks for a page and then follows each next cursor.
  unfoldable pub follow : ℕ → List Value → ℕ → Option String → Option (Result (List Value))
  unfolding page
  follow zero entries limit cursor = none
  follow (suc requests) entries limit cursor =
      answered (follow requests entries limit) (page request_id fingerprint entries limit cursor)

  follow_from :
      (requests : ℕ) (entries : List Value) (limit : ℕ) (cursor : Option String) (n : ℕ)
      → has_no_colon fingerprint ≡ true
      → 1 ≤ limit
      → length entries < 2 ^ 64
      → n ≤ length entries
      → length entries - n < requests
      → offset_of request_id fingerprint (length entries) cursor ≡ ok n
      → follow requests entries limit cursor ≡ some (ok (drop n entries))
  unfolding follow page
  follow_from zero entries limit cursor n plain some_each small le enough at_n = elim enough [ ]
  follow_from (suc requests) entries limit cursor n plain some_each small le enough at_n =
      let last = page_end n limit (length entries) in
      let rest = follow requests entries limit in
      let paged =
        ap (λ r. answered rest (r >>= λ offset. ok (slice_at fingerprint entries limit offset)))
          at_n in
      elim (Bool-cases (eqb last (length entries))) [
        | inl complete ↦
            let all : take (last - n) (drop n entries) ≡ drop n entries =
              take-length (drop n entries) (last - n)
                (ground (arith, complete, length-drop n entries)) in
            paged ∙ rw complete (ap (λ l. some (ok l)) all)
        | inr more ↦
            let later : rest (some (cursor_at fingerprint last)) ≡ some (ok (drop last entries)) =
              follow_from requests entries limit (some (cursor_at fingerprint last)) last plain
                some_each small (omega arith) (ground (arith, more))
                (offset_of-cursor_at (length entries) last plain (omega arith) small) in
            let split : take (last - n) (drop n entries) ++ drop last entries ≡ drop n entries =
              ap (λ l. take (last - n) (drop n entries) ++ l)
                (ap (λ k. drop k entries) (omega arith) ∙ sym (drop-drop n (last - n) entries))
              ∙ take-append-drop (last - n) (drop n entries) in
            paged
            ∙ rw more (
                ap (put_before (take (last - n) (drop n entries))) later
                ∙ ap (λ l. some (ok l)) split)
      ]

  -- Where the fingerprint has no colon, a page has room for an entry, and there are fewer than 2^64 of
  -- them: a client that follows the cursors from the first page on gets every entry once and in their
  -- order, with one request more than there are entries at most.
  pub follow_whole :
      (entries : List Value) (limit : ℕ)
      → has_no_colon fingerprint ≡ true
      → 1 ≤ limit
      → length entries < 2 ^ 64
      → follow (suc (length entries)) entries limit none ≡ some (ok entries)
  unfolding offset_of
  follow_whole entries limit plain some_each small =
      follow_from (suc (length entries)) entries limit none 0 plain some_each small (omega arith)
        (omega arith) refl
