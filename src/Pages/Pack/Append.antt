-- ===== src/Pages/Pack/Append.antt =====
-- Appending one frame to a pack, whole or in part.
use agent_runner_codex.Prelude.{
  ℕ, zero, suc, ◌+◌, ◌≤◌, ◌<◌, ◌≡◌, refl, ap, sym, ◌∙◌, String, Bytes, List, [], ◌∷◌, ◌++◌,
  append_assoc, append-nil, Option, none, some, length, take, arith, All, All-append, length-append,
  length-take,
}
use agent_runner_codex.Prelude.Slices.{take-append}
use agent_runner_codex.Pages.Pack.{scan_bytes, frame_of, pack_of, last_match, if_digest}
use agent_runner_codex.Pages.Pack.Frames.{HasNoNewline}
use agent_runner_codex.Pages.Pack.Scan.{
  IsHexDigest, IsBody, scan_from-pack, length-frame_of, digest_line, digest_line-HasNoNewline,
  frame_of_lem,
}
use agent_runner_codex.Pages.Pack.Sound.{IsPack}

pub HasNoNewline-take : (k : ℕ) (bs : Bytes) → HasNoNewline bs → HasNoNewline (take k bs)
HasNoNewline-take zero bs h = tt
HasNoNewline-take (suc k) [] h = tt
HasNoNewline-take (suc k) (b ∷ bs) (p, h) = (p, HasNoNewline-take k bs h)

pub take-append_le : (k : ℕ) (xs ys : Bytes) → k ≤ length xs → take k (xs ++ ys) ≡ take k xs
take-append_le zero xs ys h = refl
take-append_le (suc k) [] ys h = absurd (omega arith)
take-append_le (suc k) (x ∷ xs) ys h = ap (λ l. x ∷ l) (take-append_le k xs ys (omega arith))

module _ (sha256_hex : Bytes → String) (law : IsHexDigest sha256_hex) where
  length-pack_of : (bodies : List Bytes) → length bodies ≤ length (pack_of sha256_hex bodies)
  unfolding pack_of
  length-pack_of [] = omega arith
  length-pack_of (body ∷ bodies) = omega (
    arith,
    length-frame_of sha256_hex law body,
    length-pack_of bodies,
    length-append (frame_of sha256_hex body) (pack_of sha256_hex bodies),
  )

  -- Whatever the digest, a pack scans to the last content with it and to the end of its frames.
  pub scan_bytes-IsPack :
      (digest : String) (bs : Bytes) (k : IsPack sha256_hex bs)
      → scan_bytes sha256_hex digest bs
        ≡ some (last_match sha256_hex digest k.bodies none, length (pack_of sha256_hex k.bodies))
  scan_bytes-IsPack digest bs k =
      ap (λ b. scan_bytes sha256_hex digest b) k.split
      ∙ scan_from-pack sha256_hex law _ digest k.bodies k.tail 0 none k.valid k.clean k.short (
          omega
            (arith, length-pack_of k.bodies, length-append (pack_of sha256_hex k.bodies) k.tail))
      ∙ ap (λ (n : ℕ). some (last_match sha256_hex digest k.bodies none, n)) (omega arith)

  pub pack_of-append :
      (bodies : List Bytes) (body : Bytes)
      → pack_of sha256_hex (bodies ++ body ∷ [])
        ≡ pack_of sha256_hex bodies ++ frame_of sha256_hex body
  unfolding pack_of
  pack_of-append [] body = append-nil _
  pack_of-append (b ∷ bodies) body =
      ap (λ x. frame_of sha256_hex b ++ x) (pack_of-append bodies body)
      ∙ sym (append_assoc (frame_of sha256_hex b) (pack_of sha256_hex bodies) _)

  pub last_match-append :
      (digest : String) (bodies : List Bytes) (body : Bytes) (found : Option Bytes)
      → last_match sha256_hex digest (bodies ++ body ∷ []) found
        ≡ if_digest sha256_hex digest body (last_match sha256_hex digest bodies found)
  unfolding last_match
  last_match-append digest [] body found = refl
  last_match-append digest (b ∷ bodies) body found = last_match-append digest bodies body _

  -- The frames stay, and the new one follows them in the place of what was unfinished.
  unfoldable pub appended-IsPack :
      (bs body : Bytes) (k : IsPack sha256_hex bs)
      → IsBody body
      → IsPack sha256_hex
          (take (length (pack_of sha256_hex k.bodies)) bs ++ frame_of sha256_hex body)
  appended-IsPack bs body k v = record {
    bodies = k.bodies ++ body ∷ [];
    tail = [];
    split =
        ap (λ x. x ++ frame_of sha256_hex body)
          (ap (take (length (pack_of sha256_hex k.bodies))) k.split
            ∙ take-append (pack_of sha256_hex k.bodies) k.tail _ refl)
        ∙ sym (pack_of-append k.bodies body)
        ∙ sym (append-nil _);
    valid = All-append IsBody k.bodies (body ∷ []) k.valid (v, tt);
    clean = tt;
    short = omega arith;
  }

  -- A write of a frame that was cut off leaves the pack's frames.
  unfoldable pub torn-IsPack :
      (bodies : List Bytes) (body : Bytes) (cut : ℕ)
      → All IsBody bodies
      → IsBody body
      → cut < length (frame_of sha256_hex body)
      → IsPack sha256_hex (pack_of sha256_hex bodies ++ take cut (frame_of sha256_hex body))
  torn-IsPack bodies body cut vs v lt =
      let line = digest_line sha256_hex law body in
      let size = length-frame_of sha256_hex law body in
      let whole : length (frame_of sha256_hex body) ≡ length line + 1 =
        ap length (frame_of_lem sha256_hex law body) ∙ length-append line (b'\n' ∷ []) in
      let cut_line : take cut (frame_of sha256_hex body) ≡ take cut line =
        ap (take cut) (frame_of_lem sha256_hex law body)
        ∙ take-append_le cut line (b'\n' ∷ []) (omega arith) in
      record {
        bodies = bodies;
        tail = take cut line;
        split = ap (λ x. pack_of sha256_hex bodies ++ x) cut_line;
        valid = vs;
        clean = HasNoNewline-take cut line (digest_line-HasNoNewline sha256_hex law body v);
        short = omega (arith, length-take cut line, v.bounded);
      }
