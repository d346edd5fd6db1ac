-- ===== src/Pages/Store/RoundTrip.antt =====
-- Tokens: what is persisted is loaded again, and stays loadable.
use agent_runner_codex.Prelude.{
  ◌≤◌, ◌≡◌, refl, ap, sym, ◌∙◌, subst, ◌⊎◌, inl, inr, String, false, ◌==◌, eq_iff, eq_refl, Bytes,
  ◌++◌, Option, none, some, length, take, arith, Bool-cases, Option-cases, keep_if, strip_prefix,
}
use agent_runner_codex.Envelope.{ok, ok_or, >>=-eq-ok}
use agent_runner_codex.Pages.Types.{Cursor, stale, token_prefix}
use agent_runner_codex.Pages.Directory.{
  Directory, Name, legacy, Node, file, special, find, write, find-write, name_eq, name_eq_refl,
  name_eq_sound,
}
use agent_runner_codex.Pages.Pack.{scan_bytes, frame_of, last_match, if_digest, pack_of}
use agent_runner_codex.Pages.Pack.Sound.{IsPack}
use agent_runner_codex.Pages.Pack.Append.{scan_bytes-IsPack, last_match-append, appended-IsPack}
use agent_runner_codex.Pages.Store.{
  Platform, token, stored, load, persist, scan_pack, pack_path, file_bytes, is_digest,
}
use agent_runner_codex.Pages.Store.Charges.{Admission, Limits, staging_limits, charged_bytes}
use agent_runner_codex.Pages.Store.Usage.{
  usage, old_charge, old_charge-le-usage, IsBelowMax, le-charged_bytes,
}
use agent_runner_codex.Pages.Store.Stored.{IsPlatform, load-token, stored_in_pack}
use agent_runner_codex.Pages.Store.Outcome.{Appended, Outcome, persist-Outcome}

pub find-write_self :
    (n : Name) (bs : Bytes) (d : Directory) → find n (write n bs d) ≡ some (file bs)
find-write_self n bs d = ground (arith, find-write n n bs d, name_eq_refl n)

pub find-write_ne :
    (n m : Name) (bs : Bytes) (d : Directory)
    → name_eq n m ≡ false
    → find m (write n bs d) ≡ find m d
find-write_ne n m bs d h = ground (arith, find-write n m bs d)

pub pack-ne-legacy : (a b : String) → name_eq (pack_path a) (legacy b) ≡ false
unfolding name_eq pack_path
pack-ne-legacy a b = refl

module _ (p : Platform) (law : IsPlatform p) (id : String) where
  open p use {sha256_hex, encode}

  module _ (d d' : Directory) (bs : Bytes) (limits : Limits)
      (new : Appended p law id d d' bs limits) (below : IsBelowMax limits)
      (production : limits.0 ≤ staging_limits.0) where
    path : Name
    path = pack_path (sha256_hex bs)

    -- The pack after the write.
    content : Bytes
    content =
        take (length (pack_of sha256_hex new.view.k.bodies)) (file_bytes (find path d))
        ++ frame_of sha256_hex bs

    content-IsPack : IsPack sha256_hex content
    unfolding content path pack_path
    content-IsPack = appended-IsPack sha256_hex law.digest _ bs new.view.k new.body

    find-content : find path d' ≡ some (file content)
    unfolding content path
    find-content = ap (find path) new.written ∙ find-write_self path content d

    find_legacy : (suffix : String) → find (legacy suffix) d' ≡ find (legacy suffix) d
    find_legacy suffix =
        ap (find (legacy suffix)) new.written
        ∙ find-write_ne (pack_path (sha256_hex bs)) (legacy suffix) _ d
            (pack-ne-legacy (sha256_hex bs) suffix)

    content_small : length content ≤ staging_limits.0
    content_small =
        let charge : charged_bytes (length content) ≤ usage d' =
          subst (λ o. old_charge o ≤ usage d') find-content (old_charge-le-usage path d') in
        omega (arith, le-charged_bytes (length content), new.fits, below.bytes)

    content_match :
        (suffix : String)
        → last_match sha256_hex suffix content-IsPack.bodies none
          ≡ if_digest sha256_hex suffix bs (last_match sha256_hex suffix new.view.k.bodies none)
    unfolding content-IsPack appended-IsPack
    content_match suffix = last_match-append sha256_hex law.digest suffix new.view.k.bodies bs none

    stored_new : stored p id d' (sha256_hex bs) ≡ ok bs
    stored_new =
        stored_in_pack p law id d' (sha256_hex bs) content bs content-IsPack
          (find_legacy (sha256_hex bs) ∙ new.absent) (unfold path in find-content) content_small
          (ground (arith, content_match (sha256_hex bs), eq_refl (sha256_hex bs)))

    -- A digest of the same bucket finds what it found, since the new frame's digest was not there.
    stored_same_bucket :
        (suffix : String) (body : Bytes)
        → find (legacy suffix) d ≡ none
        → pack_path suffix ≡ path
        → last_match sha256_hex suffix new.view.k.bodies none ≡ some body
        → stored p id d' suffix ≡ ok body
    stored_same_bucket suffix body absent same found =
        let other : (sha256_hex bs == suffix) ≡ false =
          elim (Bool-cases (sha256_hex bs == suffix)) [
            | inl equal ↦ absurd (
                let e = (eq_iff (sha256_hex bs) suffix).0 equal in
                ground (arith, new.fresh, found, e))
            | inr differ ↦ differ
          ] in
        stored_in_pack p law id d' suffix content body content-IsPack (find_legacy suffix ∙ absent)
          (ap (λ n. find n d') same ∙ find-content) content_small
          (ground (arith, content_match suffix, other, found))

    -- What a bucket's scan finds, in terms of the pack before the write.
    matched :
        (suffix : String) (body : Bytes) (o : Option Node)
        → find path d ≡ o
        → find (legacy suffix) d ≡ none
        → pack_path suffix ≡ path
        → stored p id d suffix ≡ ok body
        → last_match sha256_hex suffix new.view.k.bodies none ≡ some body
    unfolding stored scan_pack
    matched suffix body none e absent same h = absurd (ground (arith, ap (λ n. find n d) same))
    matched suffix body (some special) e absent same h =
        absurd (ground (arith, ap (λ n. find n d) same))
    matched suffix body (some (file old)) e absent same h =
        let run : scan_bytes sha256_hex suffix old
            ≡ some (
              last_match sha256_hex suffix new.view.k.bodies none,
              length (pack_of sha256_hex new.view.k.bodies),
            ) =
          ap (λ o. scan_bytes sha256_hex suffix (file_bytes o)) (sym e)
          ∙ unfold path in scan_bytes-IsPack sha256_hex law.digest suffix _ new.view.k in
        ground (arith, ap (λ n. find n d) same, run)

    scan_cong :
        (name : Name) (suffix : String)
        → find name d' ≡ find name d
        → scan_pack p name suffix d' ≡ scan_pack p name suffix d
    unfolding scan_pack
    scan_cong name suffix same = rw (same, scan_pack)

    stored_cong :
        (suffix : String) (body : Bytes)
        → find (legacy suffix) d ≡ none
        → find (pack_path suffix) d' ≡ find (pack_path suffix) d
        → stored p id d suffix ≡ ok body
        → stored p id d' suffix ≡ ok body
    unfolding stored
    stored_cong suffix body absent same h =
        rw (find_legacy suffix)
          (rw absent (rw (scan_cong (pack_path suffix) suffix same) (rw absent at h)))

    stored_legacy :
        (suffix : String) (body : Bytes) (n : Node)
        → find (legacy suffix) d ≡ some n
        → stored p id d suffix ≡ ok body
        → stored p id d' suffix ≡ ok body
    unfolding stored scan_pack
    stored_legacy suffix body n here h = ground (arith, find_legacy suffix)

    -- Whatever a digest found before the write, it finds after it.
    stored_kept :
        (suffix : String) (body : Bytes)
        → stored p id d suffix ≡ ok body
        → stored p id d' suffix ≡ ok body
    stored_kept suffix body h = elim (Option-cases (find (legacy suffix) d)) [
      | inr (n, here) ↦ stored_legacy suffix body n here h
      | inl absent ↦ elim (Bool-cases (name_eq path (pack_path suffix))) [
        | inl hit ↦
            let same = sym (name_eq_sound path (pack_path suffix) hit) in
            stored_same_bucket suffix body absent same
              (matched suffix body (find path d) refl absent same h)
        | inr miss ↦
            stored_cong suffix body absent
              (ap (find (pack_path suffix)) new.written
                ∙ unfold path in find-write_ne path (pack_path suffix) _ d miss)
              h
      ]
    ]

  stored_after :
      (d d' : Directory) (bs : Bytes) (limits : Limits)
      → Outcome p law id d d' bs limits
      → IsBelowMax limits
      → limits.0 ≤ staging_limits.0
      → stored p id d' (sha256_hex bs) ≡ ok bs
  stored_after d d' bs limits (inl (same, was)) below production =
      ap (λ x. stored p id x (sha256_hex bs)) same ∙ was
  stored_after d d' bs limits (inr new) below production =
      stored_new d d' bs limits new below production

  -- A cursor that was persisted is what its token loads. The limits are below the largest `u64`, and
  -- the byte limit is at most the provider's own, beyond which a pack is refused.
  pub load-persist :
      (d : Directory) (admission : Admission) (limits : Limits) (c : Cursor) (d' : Directory)
      (a : Admission)
      → IsBelowMax limits
      → limits.0 ≤ staging_limits.0
      → persist p id d admission limits c ≡ ok (d', a)
      → load p id d' (token p c) ≡ ok c
  load-persist d admission limits c d' a below production h = load-token p law id d' c (
      stored_after d d' (encode c) limits
        (persist-Outcome p law id d admission limits c d' a below h) below production)

  load_of_stored :
      (d d' : Directory) (value : String) (c : Cursor)
      → ((suffix : String) (body : Bytes)
          → stored p id d suffix ≡ ok body
          → stored p id d' suffix ≡ ok body)
      → load p id d value ≡ ok c
      → load p id d' value ≡ ok c
  unfolding load
  load_of_stored d d' value c keep h =
      let (suffix, named, rest) =
        >>=-eq-ok (ok_or (keep_if is_digest (strip_prefix value token_prefix)) (stale id)) _ h in
      let (body, was, more) = >>=-eq-ok (stored p id d suffix) _ rest in
      rw named (rw (keep suffix body was) more)

  -- No token that loads is lost: persisting any cursor, under limits below the largest `u64` and a
  -- byte limit of at most the provider's own, leaves what it loads as it was.
  pub persist_keeps :
      (d : Directory) (admission : Admission) (limits : Limits) (c : Cursor) (d' : Directory)
      (a : Admission) (value : String) (old : Cursor)
      → IsBelowMax limits
      → limits.0 ≤ staging_limits.0
      → persist p id d admission limits c ≡ ok (d', a)
      → load p id d value ≡ ok old
      → load p id d' value ≡ ok old
  persist_keeps d admission limits c d' a value old below production h was =
      elim (persist-Outcome p law id d admission limits c d' a below h) [
        | inl (same, _) ↦ ap (λ x. load p id x value) same ∙ was
        | inr new ↦
            load_of_stored d d' value old (stored_kept d d' (encode c) limits new below production)
              was
      ]

  -- A cursor is either stored already, and the directory is left as it is, or the directory is
  -- afterwards within both limits, counting what it held before, where the limits are below the
  -- largest `u64`.
  pub persist_within :
      (d : Directory) (admission : Admission) (limits : Limits) (c : Cursor) (d' : Directory)
      (a : Admission)
      → IsBelowMax limits
      → persist p id d admission limits c ≡ ok (d', a)
      → (d' ≡ d) ⊎ ((usage d' ≤ limits.0) × (length d' ≤ limits.1))
  persist_within d admission limits c d' a below h =
      elim (persist-Outcome p law id d admission limits c d' a below h) [
        | inl (same, _) ↦ inl same
        | inr new ↦ inr (new.fits, new.few)
      ]
