-- ===== src/Pages/Store/Stored.antt =====
-- What the store finds behind a digest: in a cursor file, or in the frames of a pack.
use agent_runner_codex.Prelude.{
  ℕ, ◌≤◌, ◌≡◌, refl, inl, inr, String, true, eq_refl, Bytes, [], Option, none, some, length, arith,
  if◌then◌else◌, is_some, Option-cases,
}
use agent_runner_codex.Prelude.Strings.{strip_prefix-⋯}
use agent_runner_codex.Envelope.{ok}
use agent_runner_codex.Pages.Types.{Cursor, token_prefix}
use agent_runner_codex.Pages.Directory.{Directory, Name, legacy, Node, file, special, find}
use agent_runner_codex.Pages.Pack.{scan_bytes, last_match, pack_of}
use agent_runner_codex.Pages.Pack.Frames.{HasNoNewline}
use agent_runner_codex.Pages.Pack.Scan.{IsHexDigest, IsBody}
use agent_runner_codex.Pages.Pack.Sound.{IsPack, scan_from_sound}
use agent_runner_codex.Pages.Pack.Append.{scan_bytes-IsPack}
use agent_runner_codex.Pages.Store.{
  Platform, token, stored, load, scan_pack, pack_path, file_bytes, is_digest,
}
use agent_runner_codex.Pages.Store.Charges.{staging_limits, charged_bytes}
use agent_runner_codex.Pages.Store.Usage.{old_charge, is_new}

-- What the code outside the repository promises: hexadecimal digests, an encoding of cursors as one
-- line of JSON that decodes, and a read that gives the file's bytes where they are within the bound.
pub record IsPlatform (p : Platform) : Type 0 where
  pub digest : IsHexDigest p.sha256_hex
  pub decoded : (c : Cursor) → p.decode (p.encode c) ≡ some c
  pub one_line : (c : Cursor) → HasNoNewline (p.encode c)
  pub some_byte : (c : Cursor) → 1 ≤ length (p.encode c)
  pub read_all : (bs : Bytes) (n : ℕ) → length bs ≤ n → p.read_bounded bs n ≡ some bs

module _ (p : Platform) (law : IsPlatform p) (id : String) where
  open p use {sha256_hex, encode}

  is_digest-sha256_hex : (bs : Bytes) → is_digest (sha256_hex bs) ≡ true
  is_digest-sha256_hex bs = ground (arith, law.digest.size bs, law.digest.hex bs)

  -- Loading a token is reading the stored bytes of its digest.
  pub load-token :
      (d : Directory) (c : Cursor)
      → stored p id d (sha256_hex (encode c)) ≡ ok (encode c)
      → load p id d (token p c) ≡ ok c
  unfolding load token
  load-token d c h = ground (
    arith,
    strip_prefix-⋯ token_prefix (sha256_hex (encode c)),
    is_digest-sha256_hex (encode c),
    h,
    eq_refl (sha256_hex (encode c)),
    law.decoded c,
  )

  pub encoded-IsBody : (c : Cursor) → length (encode c) ≤ 32768 → IsBody (encode c)
  encoded-IsBody c h = record { line = law.one_line c; some_byte = law.some_byte c; bounded = h }

  -- The frame file of a digest, and what is found there.
  pub stored_in_pack :
      (d : Directory) (suffix : String) (content body : Bytes) (k : IsPack sha256_hex content)
      → find (legacy suffix) d ≡ none
      → find (pack_path suffix) d ≡ some (file content)
      → length content ≤ staging_limits.0
      → last_match sha256_hex suffix k.bodies none ≡ some body
      → stored p id d suffix ≡ ok body
  unfolding stored
  stored_in_pack d suffix content body k absent here small match =
      ground (arith, absent, here, scan_bytes-IsPack sha256_hex law.digest suffix content k, match)

  -- What a scan has found out about a name's file, or about the lack of one.
  pub record View (o : Option Node) (digest : String) (r : Option Bytes × ℕ × ℕ) : Type 0 where
    pub k : IsPack sha256_hex (file_bytes o)
    pub match : r.0 ≡ last_match sha256_hex digest k.bodies none
    pub valid_end : r.1 ≡ length (pack_of sha256_hex k.bodies)
    pub charge : (if is_some o then charged_bytes r.2 else 0) ≡ old_charge o
    pub count : (if is_some o then 0 else 1) ≡ is_new o
    pub small : length (file_bytes o) ≤ staging_limits.0

  file-View :
      (digest : String) (content : Bytes) (r : Option Bytes × ℕ × ℕ) (s : Option Bytes × ℕ)
      → scan_bytes sha256_hex digest content ≡ some s
      → length content ≤ staging_limits.0
      → (s.0, s.1, length content) ≡ r
      → View (some (file content)) digest r
  file-View digest content r s scanned small same =
      let k = scan_from_sound sha256_hex law.digest _ digest content 0 none s scanned in
      let run = scan_bytes-IsPack sha256_hex law.digest digest content k in
      record {
        k = k;
        match = ground (arith, run, scanned);
        valid_end = ground (arith, run, scanned);
        charge = ground arith;
        count = refl;
        small = small;
      }

  empty-IsPack : IsPack sha256_hex []
  unfolding pack_of
  empty-IsPack = record {
    bodies = [];
    tail = [];
    split = refl;
    valid = tt;
    clean = tt;
    short = omega arith;
  }

  pub scan-View :
      (d : Directory) (name : Name) (digest : String) (r : Option Bytes × ℕ × ℕ)
      → scan_pack p name digest d ≡ some r
      → View (find name d) digest r
  unfolding scan_pack empty-IsPack last_match pack_of
  scan-View d name digest r = go (find name d) refl
    where
      go :
          (o : Option Node) → find name d ≡ o → scan_pack p name digest d ≡ some r → View o digest r
      go none e h =
          let got : (none, 0, 0) ≡ r = ground (arith, e) in
          record {
            k = empty-IsPack;
            match = ground arith;
            valid_end = ground arith;
            charge = refl;
            count = refl;
            small = omega arith;
          }
      go (some special) e h = absurd (ground (arith, e))
      go (some (file content)) e h = elim (Option-cases (scan_bytes sha256_hex digest content)) [
        | inl failed ↦ absurd (ground (arith, e, failed))
        | inr (s, scanned) ↦
            file-View digest content r s scanned (ground (arith, e)) (ground (arith, e, scanned))
      ]
