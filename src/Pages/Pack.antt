-- ===== src/Pages/Pack.antt =====
-- Cursor packs of src/session_turn_pages.rs: the frames of one file, and `scan_pack` over its bytes.
-- `sha256_hex` is outside the repository.
pub mod Frames
pub mod Scan
pub mod Sound
pub mod Append
pub mod Fuel
use agent_runner_codex.Prelude.{
  ℕ, zero, suc, ◌+◌, ◌-◌, String, Bool, true, false, not, ◌||◌, ◌==◌, Bytes, List, [], ◌∷◌, ◌++◌,
  Option, none, some, ltb, eqb, if◌then◌else◌, length, take, drop, is_empty, bytes, bytes_eq,
}

-- `take(limit)` and `read_until(b'\n')` on a reader: what is read, and what is left
unfoldable pub read_frame : ℕ → Bytes → Bytes × Bytes
read_frame zero bs = ([], bs)
read_frame (suc n) [] = ([], [])
read_frame (suc n) (b ∷ bs) =
    let more = read_frame n bs in if eqb b b'\n' then (b ∷ [], bs) else (b ∷ more.0, more.1)

-- `last() == Some(&b'\n')`
unfoldable pub ends_newline : Bytes → Bool
ends_newline [] = false
ends_newline (b ∷ []) = eqb b b'\n'
ends_newline (b ∷ c ∷ bs) = ends_newline (c ∷ bs)

abbrev pub byte_at : Bytes → ℕ → ℕ
byte_at [] i = 0
byte_at (b ∷ bs) zero = b
byte_at (b ∷ bs) (suc i) = byte_at bs i

-- `&frame[65..frame.len() - 1]`
abbrev pub frame_body : Bytes → Bytes
frame_body frame = take (length frame - 66) (drop 65 frame)

abbrev pub frame_limit : ℕ
frame_limit = 32834

module _ (sha256_hex : Bytes → String) where
  -- what one complete frame must satisfy; the tests come in the source's order
  unfoldable pub frame_fits : Bytes → Bool
  frame_fits frame = not (ltb (length frame) 67 || not (eqb (byte_at frame 64) b' '))

  unfoldable pub frame_matches : Bytes → Bool
  frame_matches frame = bytes_eq (bytes (sha256_hex (frame_body frame))) (take 64 frame)

  abbrev pub if_digest : String → Bytes → Option Bytes → Option Bytes
  if_digest digest body found = if sha256_hex body == digest then some body else found

  -- The loop of `scan_pack`, on fuel: a round reads at least one byte, so more fuel than bytes is
  -- enough. `none` is an `io::Error`. A complete scan gives the content found and the end of the
  -- complete frames.
  unfoldable pub scan_from : ℕ → String → Bytes → ℕ → Option Bytes → Option (Option Bytes × ℕ)
  unfolding frame_fits frame_matches
  scan_from zero digest bs end found = none
  scan_from (suc fuel) digest bs end found =
      let (frame, rest) = read_frame (suc frame_limit) bs in
      let next =
        scan_from fuel digest rest (end + length frame)
          (if_digest digest (frame_body frame) found) in
      if is_empty frame
      then some (found, end)
      else if ltb frame_limit (length frame)
      then none
      else if not (ends_newline frame)
      then some (found, end)
      else if frame_fits frame
      then (if frame_matches frame then next else none)
      else none

  abbrev pub scan_bytes : String → Bytes → Option (Option Bytes × ℕ)
  scan_bytes digest bs = scan_from (suc (length bs)) digest bs 0 none

  -- `format!("{digest} {}\n", …)`
  unfoldable pub frame_of : Bytes → Bytes
  frame_of body = bytes (sha256_hex body) ++ b' ' ∷ (body ++ b'\n' ∷ [])

  -- The content of the last frame with a digest.
  unfoldable pub last_match : String → List Bytes → Option Bytes → Option Bytes
  last_match digest [] found = found
  last_match digest (body ∷ bodies) found = last_match digest bodies (if_digest digest body found)

  unfoldable pub pack_of : List Bytes → Bytes
  pack_of [] = []
  pack_of (body ∷ bodies) = frame_of body ++ pack_of bodies
