-- ===== src/Pages/Store/Outcome.antt =====
-- What a `persist` that succeeds has done: nothing, or written one new frame within the limits.
use agent_runner_codex.Prelude.{
  ℕ, ◌+◌, ◌≤◌, ◌≡◌, ap, sym, ◌∙◌, ◌⊎◌, inl, inr, String, true, Bytes, ◌++◌, Option, none, some,
  length, take, arith, bytes_eq, bytes_eq_sound, ltb, Bool-cases, Option-cases, length-append,
  length-take,
}
use agent_runner_codex.Envelope.{ok, >>=-eq-ok}
use agent_runner_codex.Pages.Types.{Cursor}
use agent_runner_codex.Pages.Directory.{Directory, legacy, Node, find, write}
use agent_runner_codex.Pages.Pack.{frame_of, last_match, pack_of}
use agent_runner_codex.Pages.Pack.Scan.{IsBody}
use agent_runner_codex.Pages.Store.{
  Platform, stored, persist, persist_pack, append_frame, scan_pack, pack_path, file_bytes,
  read_name,
}
use agent_runner_codex.Pages.Store.Charges.{Admission, Limits, charged_bytes, reserve_growth}
use agent_runner_codex.Pages.Store.Usage.{
  usage, usage-write, length-write, old_charge-le-usage, IsBelowMax, reserve_growth_lem,
}
use agent_runner_codex.Pages.Store.Stored.{IsPlatform, View, scan-View, encoded-IsBody}

module _ (p : Platform) (law : IsPlatform p) (id : String) where
  open p use {sha256_hex, encode}

  -- The directory after a frame for `bs` has been written.
  abbrev pub appended : Directory → Bytes → ℕ → Directory
  appended d bs end =
      write (pack_path (sha256_hex bs))
        (take end (file_bytes (find (pack_path (sha256_hex bs)) d)) ++ frame_of sha256_hex bs) d

  -- How a cursor came to be stored: `bs` is a new frame of its pack.
  pub record Appended (d d' : Directory) (bs : Bytes) (limits : Limits) : Type 0 where
    pub scanned : Option Bytes × ℕ × ℕ
    pub view : View p law id (find (pack_path (sha256_hex bs)) d) (sha256_hex bs) scanned
    pub absent : find (legacy (sha256_hex bs)) d ≡ none
    pub fresh : last_match sha256_hex (sha256_hex bs) view.k.bodies none ≡ none
    pub body : IsBody bs
    pub written : d' ≡ appended d bs (length (pack_of sha256_hex view.k.bodies))
    pub fits : usage d' ≤ limits.0
    pub few : length d' ≤ limits.1

  abbrev pub Outcome : Directory → Directory → Bytes → Limits → Type 0
  Outcome d d' bs limits =
      ((d' ≡ d) × (stored p id d (sha256_hex bs) ≡ ok bs)) ⊎ Appended d d' bs limits

  append_outcome :
      (d : Directory) (admission : Admission) (limits : Limits) (bs : Bytes)
      (r : Option Bytes × ℕ × ℕ) (d' : Directory) (a : Admission)
      → IsBelowMax limits
      → IsBody bs
      → find (legacy (sha256_hex bs)) d ≡ none
      → View p law id (find (pack_path (sha256_hex bs)) d) (sha256_hex bs) r
      → r.0 ≡ none
      → append_frame p id d admission limits
          (pack_path (sha256_hex bs))
          r.1
          r.2
          (frame_of sha256_hex bs)
        ≡ ok (d', a)
      → Appended d d' bs limits
  unfolding append_frame
  append_outcome d admission limits bs r d' a below body absent v fresh h =
      let path = pack_path (sha256_hex bs) in
      let (reserved, granted, done) = >>=-eq-ok (reserve_growth id d admission _ _ limits) _ h in
      let (room, few) = reserve_growth_lem id d admission _ _ limits reserved below granted in
      let end : ℕ = length (pack_of sha256_hex v.k.bodies) in
      let old = file_bytes (find path d) in
      let written : d' ≡ appended d bs end = cc (done, v.valid_end) in
      let kept : length (take end old) ≡ end = omega (
        arith,
        length-take end old,
        ap length v.k.split,
        length-append (pack_of sha256_hex v.k.bodies) v.k.tail,
      ) in
      let frame = frame_of sha256_hex bs in
      let size : length (take end old ++ frame) ≡ r.1 + length frame =
        omega (arith, kept, length-append (take end old) frame, v.valid_end) in
      let used = usage-write path (take end old ++ frame) d in
      record {
        scanned = r;
        view = v;
        absent = absent;
        fresh = sym v.match ∙ fresh;
        body = body;
        written = written;
        fits = omega (
          arith,
          ap usage written,
          used,
          ap charged_bytes size,
          room,
          v.charge,
          old_charge-le-usage path d,
        );
        few =
            omega
              (arith, ap length written, length-write path (take end old ++ frame) d, few, v.count);
      }

  persist_small :
      (d : Directory) (admission : Admission) (limits : Limits) (c : Cursor)
      (r : Directory × Admission)
      → persist p id d admission limits c ≡ ok r
      → length (encode c) ≤ 32768
  unfolding persist
  persist_small d admission limits c r h = elim (Bool-cases (ltb 32768 (length (encode c)))) [
    | inl long ↦ absurd (ground (arith, long))
    | inr fits ↦ ground (arith, fits)
  ]

  persist_legacy :
      (d : Directory) (admission : Admission) (limits : Limits) (c : Cursor) (n : Node)
      (d' : Directory) (a : Admission)
      → persist p id d admission limits c ≡ ok (d', a)
      → find (legacy (sha256_hex (encode c))) d ≡ some n
      → (d' ≡ d) × (read_name p (legacy (sha256_hex (encode c))) 32768 d ≡ some (encode c))
  unfolding persist
  persist_legacy d admission limits c n d' a h here =
      elim (Option-cases (read_name p (legacy (sha256_hex (encode c))) 32768 d)) [
        | inl failed ↦ absurd (ground (arith, here, failed))
        | inr (existing, got) ↦
            let same : bytes_eq existing (encode c) ≡ true = ground (arith, here, got) in
            (
              ground (arith, here, got, same),
              got ∙ ap some (bytes_eq_sound existing (encode c) same),
            )
      ]

  stored-legacy :
      (d : Directory) (suffix : String) (bs : Bytes) (n : Node)
      → find (legacy suffix) d ≡ some n
      → read_name p (legacy suffix) 32768 d ≡ some bs
      → stored p id d suffix ≡ ok bs
  unfolding stored
  stored-legacy d suffix bs n here got = ground arith

  persist-pack :
      (d : Directory) (admission : Admission) (limits : Limits) (c : Cursor)
      (r : Directory × Admission)
      → persist p id d admission limits c ≡ ok r
      → find (legacy (sha256_hex (encode c))) d ≡ none
      → persist_pack p id d admission limits (encode c) ≡ ok r
  unfolding persist
  persist-pack d admission limits c r h absent = elim (Bool-cases (ltb 32768 (length (encode c)))) [
    | inl long ↦ absurd (ground (arith, long))
    | inr fits ↦ ground (arith, fits)
  ]

  pack-Outcome :
      (d : Directory) (admission : Admission) (limits : Limits) (bs : Bytes) (d' : Directory)
      (a : Admission)
      → IsBelowMax limits
      → IsBody bs
      → find (legacy (sha256_hex bs)) d ≡ none
      → persist_pack p id d admission limits bs ≡ ok (d', a)
      → Outcome d d' bs limits
  unfolding persist_pack
  pack-Outcome d admission limits bs d' a below body absent h =
      let path = pack_path (sha256_hex bs) in
      elim (Option-cases (scan_pack p path (sha256_hex bs) d)) [
        | inl failed ↦ absurd (ground (arith, failed))
        | inr (r, scanned) ↦ elim (Option-cases r.0) [
          | inl fresh ↦ inr (
              append_outcome d admission limits bs r d' a below body absent
                (scan-View p law id d path (sha256_hex bs) r scanned) fresh
                (ground (arith, scanned, fresh)))
          | inr (existing, found) ↦
              let same : bytes_eq existing bs ≡ true = ground (arith, scanned, found) in
              inl (
                ground (arith, scanned, found, same),
                unfold stored in
                    ground (arith, scanned, found, absent, bytes_eq_sound existing bs same),
              )
        ]
      ]

  -- A cursor that is persisted was stored already, or is a new frame.
  pub persist-Outcome :
      (d : Directory) (admission : Admission) (limits : Limits) (c : Cursor) (d' : Directory)
      (a : Admission)
      → IsBelowMax limits
      → persist p id d admission limits c ≡ ok (d', a)
      → Outcome d d' (encode c) limits
  persist-Outcome d admission limits c d' a below h =
      elim (Option-cases (find (legacy (sha256_hex (encode c))) d)) [
        | inl absent ↦
            pack-Outcome d admission limits (encode c) d' a below
              (encoded-IsBody p law id c (persist_small d admission limits c (d', a) h)) absent
              (persist-pack d admission limits c (d', a) h absent)
        | inr (n, here) ↦
            let (same, got) = persist_legacy d admission limits c n d' a h here in
            inl (same, stored-legacy d _ (encode c) n here got)
      ]
