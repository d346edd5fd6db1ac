-- ===== src/Pages/Pack/Scan.antt =====
-- `scan_pack` reads exactly the complete frames of a pack, and ignores an unfinished one at its end.
use agent_runner_codex.Prelude.{
  ℕ, zero, suc, ◌+◌, ◌-◌, ◌≤◌, ◌<◌, ◌≡◌, refl, ap, sym, ◌∙◌, String, true, false, Bytes, List, [],
  ◌∷◌, ◌++◌, append_assoc, Option, some, ltb, length, take, drop, is_empty, bytes, bytes_eq_refl,
  arith, All, length-append, all, is_lower_hex, str_len,
}
use agent_runner_codex.Prelude.Slices.{take-append, drop-append}
use agent_runner_codex.Pages.Pack.{
  read_frame, ends_newline, byte_at, frame_body, frame_limit, frame_fits, frame_matches, if_digest,
  scan_from, frame_of, last_match, pack_of,
}
use agent_runner_codex.Pages.Pack.Frames.{
  HasNoNewline, HasNoNewline-append, read_frame-line, read_frame-tail, ends_newline-line,
  ends_newline-tail,
}

-- What a SHA-256 digest in hexadecimal is: 64 bytes, each a digit or a lower-case letter.
pub record IsHexDigest (sha256_hex : Bytes → String) : Type 0 where
  pub size : (b : Bytes) → str_len (sha256_hex b) ≡ 64
  pub hex : (b : Bytes) → all is_lower_hex (bytes (sha256_hex b)) ≡ true

-- A body that a frame may hold: one line of 1 to 32768 bytes.
pub record IsBody (body : Bytes) : Type 0 where
  pub line : HasNoNewline body
  pub some_byte : 1 ≤ length body
  pub bounded : length body ≤ 32768

hex-HasNoNewline : (bs : Bytes) → all is_lower_hex bs ≡ true → HasNoNewline bs
hex-HasNoNewline [] h = tt
hex-HasNoNewline (b ∷ bs) h = (ground arith, hex-HasNoNewline bs (ground arith))

byte_at-append : (xs ys : Bytes) (n : ℕ) → n ≡ length xs → byte_at (xs ++ ys) n ≡ byte_at ys 0
byte_at-append [] ys zero h = refl
byte_at-append [] ys (suc n) h = absurd (omega arith)
byte_at-append (x ∷ xs) ys zero h = absurd (omega arith)
byte_at-append (x ∷ xs) ys (suc n) h = byte_at-append xs ys n (omega arith)

module _ (sha256_hex : Bytes → String) (law : IsHexDigest sha256_hex) where
  pub digest_line : Bytes → Bytes
  digest_line body = bytes (sha256_hex body) ++ b' ' ∷ body

  pub frame_of_lem : (body : Bytes) → frame_of sha256_hex body ≡ digest_line body ++ b'\n' ∷ []
  unfolding frame_of digest_line
  frame_of_lem body = sym (append_assoc (bytes (sha256_hex body)) (b' ' ∷ body) (b'\n' ∷ []))

  pub length-frame_of : (body : Bytes) → length (frame_of sha256_hex body) ≡ length body + 66
  unfolding frame_of
  length-frame_of body = omega (
    arith,
    law.size body,
    length-append (bytes (sha256_hex body)) (b' ' ∷ (body ++ b'\n' ∷ [])),
    length-append body (b'\n' ∷ []),
  )

  pub frame_body-frame_of : (body : Bytes) → frame_body (frame_of sha256_hex body) ≡ body
  frame_body-frame_of body =
      ap (λ n. take (n - 66) (drop 65 (frame_of sha256_hex body))) (length-frame_of body)
      ∙ ap (take (length body + 66 - 66)) dropped
      ∙ take-append body (b'\n' ∷ []) (length body + 66 - 66) (omega arith)
    where
      dropped : drop 65 (frame_of sha256_hex body) ≡ body ++ b'\n' ∷ []
      dropped =
          unfold frame_of in
          ap (drop 65)
            (sym (append_assoc (bytes (sha256_hex body)) (b' ' ∷ []) (body ++ b'\n' ∷ [])))
          ∙ drop-append (bytes (sha256_hex body) ++ b' ' ∷ []) (body ++ b'\n' ∷ []) 65
              (omega (arith, law.size body, length-append (bytes (sha256_hex body)) (b' ' ∷ [])))

  frame_fits-frame_of :
      (body : Bytes) → 1 ≤ length body → frame_fits sha256_hex (frame_of sha256_hex body) ≡ true
  unfolding frame_fits
  frame_fits-frame_of body h =
      let space : byte_at (frame_of sha256_hex body) 64 ≡ b' ' =
        unfold frame_of in byte_at-append (bytes (sha256_hex body)) _ 64 (sym (law.size body)) in
      ground (arith, length-frame_of body)

  frame_matches-frame_of :
      (body : Bytes) → frame_matches sha256_hex (frame_of sha256_hex body) ≡ true
  unfolding frame_matches
  frame_matches-frame_of body =
      let head : take 64 (frame_of sha256_hex body) ≡ bytes (sha256_hex body) =
        unfold frame_of in take-append (bytes (sha256_hex body)) _ 64 (sym (law.size body)) in
      rw (frame_body-frame_of body) (rw head (bytes_eq_refl _))

  pub digest_line-HasNoNewline : (body : Bytes) → IsBody body → HasNoNewline (digest_line body)
  unfolding digest_line
  digest_line-HasNoNewline body v =
      HasNoNewline-append (bytes (sha256_hex body)) (b' ' ∷ body)
        (hex-HasNoNewline _ (law.hex body)) ((omega arith), v.line)

  is_empty-length : (bs : Bytes) → 1 ≤ length bs → is_empty bs ≡ false
  is_empty-length [] h = absurd (omega arith)
  is_empty-length (b ∷ bs) h = refl

  -- One round of the loop on a frame.
  scan_from-frame :
      (fuel : ℕ) (digest : String) (body rest : Bytes) (end : ℕ) (found : Option Bytes)
      → IsBody body
      → scan_from sha256_hex (suc fuel) digest (frame_of sha256_hex body ++ rest) end found
        ≡ scan_from sha256_hex fuel digest rest
            (end + length (frame_of sha256_hex body))
            (if_digest sha256_hex digest body found)
  unfolding scan_from
  scan_from-frame fuel digest body rest end found v =
      let frame = frame_of sha256_hex body in
      let input : frame ++ rest ≡ digest_line body ++ b'\n' ∷ rest =
        ap (λ f. f ++ rest) (frame_of_lem body)
        ∙ append_assoc (digest_line body) (b'\n' ∷ []) rest in
      let size : length frame ≡ length body + 66 = length-frame_of body in
      let line : length (digest_line body) < 32835 = omega (
        arith,
        size,
        ap length (frame_of_lem body),
        length-append (digest_line body) (b'\n' ∷ []),
        v.bounded,
      ) in
      let got : read_frame 32835 (frame ++ rest) ≡ (frame, rest) =
        ap (read_frame 32835) input
        ∙ read_frame-line 32835 (digest_line body) rest (digest_line-HasNoNewline body v) line
        ∙ ap (λ (f : Bytes). (f, rest)) (sym (frame_of_lem body)) in
      let full : is_empty frame ≡ false = is_empty-length frame (omega (arith, size)) in
      let closed : ends_newline frame ≡ true =
        ap ends_newline (frame_of_lem body) ∙ ends_newline-line (digest_line body) in
      let small : ltb frame_limit (length frame) ≡ false = ground (arith, size, v.bounded) in
      ground (
        arith,
        got,
        full,
        closed,
        small,
        frame_fits-frame_of body v.some_byte,
        frame_matches-frame_of body,
        frame_body-frame_of body,
      )

  -- The end of the file, with an unfinished frame or none.
  scan_from-tail :
      (fuel : ℕ) (digest : String) (tail : Bytes) (end : ℕ) (found : Option Bytes)
      → HasNoNewline tail
      → length tail ≤ frame_limit
      → scan_from sha256_hex (suc fuel) digest tail end found ≡ some (found, end)
  unfolding scan_from
  scan_from-tail fuel digest tail end found h le =
      ground (arith, read_frame-tail 32835 tail h (omega arith), ends_newline-tail tail h)

  -- A pack of complete frames with an unfinished frame behind them scans to the last content with
  -- the digest, and to the end of the complete frames.
  pub scan_from-pack :
      (fuel : ℕ) (digest : String) (bodies : List Bytes) (tail : Bytes) (end : ℕ)
      (found : Option Bytes)
      → All IsBody bodies
      → HasNoNewline tail
      → length tail ≤ frame_limit
      → length bodies < fuel
      → scan_from sha256_hex fuel digest (pack_of sha256_hex bodies ++ tail) end found
        ≡ some (last_match sha256_hex digest bodies found, end + length (pack_of sha256_hex bodies))
  unfolding last_match pack_of
  scan_from-pack zero digest bodies tail end found v h le lt = elim lt [ ]
  scan_from-pack (suc fuel) digest [] tail end found v h le lt =
      scan_from-tail fuel digest tail end found h le ∙ ap (λ (n : ℕ). some (found, n)) (omega arith)
  scan_from-pack (suc fuel) digest (body ∷ bodies) tail end found (v, vs) h le lt =
      ap (λ bs. scan_from sha256_hex (suc fuel) digest bs end found)
        (append_assoc (frame_of sha256_hex body) (pack_of sha256_hex bodies) tail)
      ∙ scan_from-frame fuel digest body (pack_of sha256_hex bodies ++ tail) end found v
      ∙ scan_from-pack fuel digest bodies tail _ _ vs h le (omega arith)
      ∙ ap
          (λ (n : ℕ).
            some (last_match sha256_hex digest bodies (if_digest sha256_hex digest body found), n))
          (omega (arith, length-append (frame_of sha256_hex body) (pack_of sha256_hex bodies)))
