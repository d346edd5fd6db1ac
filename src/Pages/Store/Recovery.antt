-- ===== src/Pages/Store/Recovery.antt =====
-- A writer that dies while it appends a frame.
use agent_runner_codex.Prelude.{
  ℕ, ◌≤◌, ◌<◌, ◌≡◌, ◌⊎◌, refl, Option, ap, sym, ◌∙◌, String, false, Bytes, List, [], ◌++◌, none,
  some, length, take, arith, All, Option-cases, Bool-cases, inl, inr,
}
use mathlib.Core.Path.{fun_ext}
use agent_runner_codex.Pages.Store.RoundTrip.{pack-ne-legacy, find-write_self}
use agent_runner_codex.Pages.Store.Usage.{IsBelowMax}
use agent_runner_codex.Prelude.Slices.{take-append}
use agent_runner_codex.Envelope.{ok, err}
use agent_runner_codex.Pages.Types.{Cursor, stale}
use agent_runner_codex.Pages.Directory.{
  Directory, Name, legacy, Node, file, find, name_eq, name_eq_sound,
}
use agent_runner_codex.Pages.Pack.{frame_limit, scan_bytes, frame_of, last_match, pack_of}
use agent_runner_codex.Pages.Pack.Frames.{HasNoNewline}
use agent_runner_codex.Pages.Pack.Scan.{IsBody}
use agent_runner_codex.Pages.Pack.Sound.{IsPack}
use agent_runner_codex.Pages.Pack.Append.{scan_bytes-IsPack, torn-IsPack}
use agent_runner_codex.Pages.Store.{Platform, stored, scan_pack, pack_path, file_bytes}
use agent_runner_codex.Pages.Store.Charges.{Admission, Limits, staging_limits}
use agent_runner_codex.Pages.Store.Stored.{IsPlatform}
use agent_runner_codex.Pages.Store.{load, persist}
use agent_runner_codex.Pages.Store.Outcome.{Outcome, persist-Outcome}

-- What the pack of a new frame is before its write: absent, with no frames, or a file that holds its
-- complete frames and what an earlier write left of another.
abbrev pub IsBefore : Platform → Option Node → List Bytes → Type 0
IsBefore p node bodies =
    ((node ≡ none) × (bodies ≡ []))
    ⊎ ((left : Bytes) × (node ≡ some (file (pack_of p.sha256_hex bodies ++ left)))
        × (HasNoNewline left)
        × (length left ≤ frame_limit)
        × (length (pack_of p.sha256_hex bodies ++ left) ≤ staging_limits.0))

-- `torn` is `d` after a process died in the write of `body`'s frame: the pack of `body`, which may be
-- new, holds its complete frames and a part of the new one, and nothing else has changed.
pub record IsTorn (p : Platform) (d torn : Directory) (body : Bytes) : Type 0 where
  pub bodies : List Bytes
  pub cut : ℕ
  pub valid : All IsBody bodies
  pub new : IsBody body
  pub part : cut < length (frame_of p.sha256_hex body)
  pub before : IsBefore p (find (pack_path (p.sha256_hex body)) d) bodies
  pub after :
      find (pack_path (p.sha256_hex body)) torn
      ≡ some (file (pack_of p.sha256_hex bodies ++ take cut (frame_of p.sha256_hex body)))
  pub others :
      (n : Name) → name_eq (pack_path (p.sha256_hex body)) n ≡ false → find n torn ≡ find n d
  pub small :
      length (pack_of p.sha256_hex bodies ++ take cut (frame_of p.sha256_hex body))
      ≤ staging_limits.0

module _ (p : Platform) (law : IsPlatform p) (id : String) (d torn : Directory) (body : Bytes)
    (t : IsTorn p d torn body) where
  open p use {sha256_hex, encode}

  abbrev path : Name
  path = pack_path (sha256_hex body)

  whole-IsPack :
      (left : Bytes)
      → HasNoNewline left
      → length left ≤ frame_limit
      → IsPack sha256_hex (pack_of sha256_hex t.bodies ++ left)
  whole-IsPack left clean short = record {
    bodies = t.bodies;
    tail = left;
    split = refl;
    valid = t.valid;
    clean = clean;
    short = short;
  }

  scan_whole :
      (suffix : String) (left : Bytes)
      → HasNoNewline left
      → length left ≤ frame_limit
      → scan_bytes sha256_hex suffix (pack_of sha256_hex t.bodies ++ left)
        ≡ some (last_match sha256_hex suffix t.bodies none, length (pack_of sha256_hex t.bodies))
  unfolding whole-IsPack
  scan_whole suffix left clean short =
      scan_bytes-IsPack sha256_hex law.digest suffix _ (whole-IsPack left clean short)

  scan_torn :
      (suffix : String)
      → scan_bytes sha256_hex suffix
          (pack_of sha256_hex t.bodies ++ take t.cut (frame_of sha256_hex body))
        ≡ some (last_match sha256_hex suffix t.bodies none, length (pack_of sha256_hex t.bodies))
  unfolding torn-IsPack
  scan_torn suffix =
      scan_bytes-IsPack sha256_hex law.digest suffix _
        (torn-IsPack sha256_hex law.digest t.bodies body t.cut t.valid t.new t.part)

  torn_legacy : (suffix : String) → find (legacy suffix) torn ≡ find (legacy suffix) d
  torn_legacy suffix = t.others (legacy suffix) (pack-ne-legacy (sha256_hex body) suffix)

  scan_other :
      (name : Name) (suffix : String)
      → find name torn ≡ find name d
      → scan_pack p name suffix torn ≡ scan_pack p name suffix d
  unfolding scan_pack
  scan_other name suffix same = rw (same, scan_pack)

  stored_bucket :
      (suffix : String)
      → find (legacy suffix) d ≡ none
      → pack_path suffix ≡ path
      → stored p id torn suffix ≡ stored p id d suffix
  unfolding stored scan_pack
  stored_bucket suffix absent same = elim t.before [
    | inl (missing, empty) ↦
        let unmatched : last_match sha256_hex suffix t.bodies none ≡ none =
          unfold last_match in ap (λ bodies. last_match sha256_hex suffix bodies none) empty in
        ground (
          arith,
          torn_legacy suffix,
          ap (λ n. find n d) same,
          ap (λ n. find n torn) same,
          missing,
          t.after,
          unmatched,
          scan_torn suffix,
          t.small,
        )
    | inr (left, here, clean, short, small) ↦ ground (
      arith,
      torn_legacy suffix,
      ap (λ n. find n d) same,
      ap (λ n. find n torn) same,
      here,
      t.after,
      scan_whole suffix left clean short,
      scan_torn suffix,
      small,
      t.small,
    )
  ]

  stored_elsewhere :
      (suffix : String)
      → find (legacy suffix) d ≡ none
      → find (pack_path suffix) torn ≡ find (pack_path suffix) d
      → stored p id torn suffix ≡ stored p id d suffix
  unfolding stored
  stored_elsewhere suffix absent same =
      rw (torn_legacy suffix) (rw absent (rw (scan_other (pack_path suffix) suffix same)))

  stored_file :
      (suffix : String) (n : Node)
      → find (legacy suffix) d ≡ some n
      → stored p id torn suffix ≡ stored p id d suffix
  unfolding stored
  stored_file suffix n here = ground (arith, torn_legacy suffix)

  stored_torn : (suffix : String) → stored p id torn suffix ≡ stored p id d suffix
  stored_torn suffix = elim (Option-cases (find (legacy suffix) d)) [
    | inr (n, here) ↦ stored_file suffix n here
    | inl absent ↦ elim (Bool-cases (name_eq path (pack_path suffix))) [
      | inl hit ↦ stored_bucket suffix absent (sym (name_eq_sound path (pack_path suffix) hit))
      | inr miss ↦ stored_elsewhere suffix absent (t.others (pack_path suffix) miss)
    ]
  ]

  -- Every token loads as it did before the write began.
  pub load_torn : (value : String) → load p id torn value ≡ load p id d value
  unfolding load
  load_torn value = rw (fun_ext stored_torn)

  frames_end :
      (content : Bytes) (k : IsPack sha256_hex content)
      → content ≡ pack_of sha256_hex t.bodies ++ take t.cut (frame_of sha256_hex body)
      → length (pack_of sha256_hex k.bodies) ≡ length (pack_of sha256_hex t.bodies)
  frames_end content k same =
      let run = scan_bytes-IsPack sha256_hex law.digest "" content k in
      ground (arith, run, ap (scan_bytes sha256_hex "") same, scan_torn "")

  completed :
      (d' : Directory) (limits : Limits)
      → Outcome p law id torn d' body limits
      → stored p id torn (sha256_hex body) ≡ err (stale id)
      → find path d' ≡ some (file (pack_of sha256_hex t.bodies ++ frame_of sha256_hex body))
  completed d' limits (inl (_, was)) missing = absurd (ground arith)
  completed d' limits (inr new) missing =
      let content = file_bytes (find path torn) in
      let torn_content = pack_of sha256_hex t.bodies ++ take t.cut (frame_of sha256_hex body) in
      let here : content ≡ torn_content = ap file_bytes t.after in
      let kept : take (length (pack_of sha256_hex new.view.k.bodies)) content
          ≡ pack_of sha256_hex t.bodies =
        ap (take (length (pack_of sha256_hex new.view.k.bodies))) here
        ∙ take-append (pack_of sha256_hex t.bodies) _ _ (frames_end content new.view.k here) in
      ap (find path) new.written
      ∙ find-write_self path _ torn
      ∙ ap (λ x. some (file (x ++ frame_of sha256_hex body))) kept

-- After a process died at any byte of a frame's write, to a new pack, or to one of complete frames that
-- may end with what an earlier write left, every token loads what it loaded before, or fails as it
-- failed. The pack, before and after, is within the staging limit.
pub torn_loads :
    (p : Platform) (law : IsPlatform p) (id : String) (d torn : Directory) (body : Bytes)
    (t : IsTorn p d torn body) (value : String)
    → load p id torn value ≡ load p id d value
torn_loads p law id d torn body t value = load_torn p law id d torn body t value

-- Where a process died in the write of a new cursor's frame, to a new pack or to one of complete frames
-- that may end with what an earlier write left, and that cursor is persisted again, its pack is the one
-- that the first write was to leave: the cut frame is gone and the whole one follows the complete
-- frames. The pack was within the staging limit, and the limits are below the largest `u64`.
pub torn_completes :
    (p : Platform) (law : IsPlatform p) (id : String) (d torn : Directory) (c : Cursor)
    (t : IsTorn p d torn (p.encode c)) (admission : Admission) (limits : Limits) (d' : Directory)
    (a : Admission)
    → stored p id d (p.sha256_hex (p.encode c)) ≡ err (stale id)
    → IsBelowMax limits
    → persist p id torn admission limits c ≡ ok (d', a)
    → find (pack_path (p.sha256_hex (p.encode c))) d'
      ≡ some (file (pack_of p.sha256_hex t.bodies ++ frame_of p.sha256_hex (p.encode c)))
torn_completes p law id d torn c t admission limits d' a fresh below h =
    completed p law id d torn (p.encode c) t d' limits
      (persist-Outcome p law id torn admission limits c d' a below h)
      (stored_torn p law id d torn (p.encode c) t (p.sha256_hex (p.encode c)) ∙ fresh)
