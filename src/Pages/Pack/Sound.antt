-- ===== src/Pages/Pack/Sound.antt =====
-- What a scan that succeeds has read.
use agent_runner_codex.Prelude.{
  ℕ, zero, suc, ◌+◌, ◌-◌, ◌≤◌, ◌<◌, ◌≡◌, ◌≢◌, refl, ap, sym, ◌∙◌, String, Bool, true, false, not,
  ◌||◌, Bytes, List, [], ◌∷◌, ◌++◌, append_assoc, Option, none, some, ltb, eqb, if◌then◌else◌,
  length, take, drop, is_empty, bytes, bytes_eq_sound, arith, All, length-take, length-drop,
  Bool-cases, ◌⊎◌, inl, inr,
}
use agent_runner_codex.Pages.Pack.{
  read_frame, ends_newline, byte_at, frame_body, frame_limit, frame_fits, frame_matches, if_digest,
  scan_from, frame_of, pack_of,
}
use agent_runner_codex.Pages.Pack.Frames.{HasNoNewline, read_frame-append}
use agent_runner_codex.Pages.Pack.Scan.{IsHexDigest, IsBody}

-- A line end stands at most in the last place.
abbrev EndsOnly : Bytes → Type 0
EndsOnly [] = Unit
EndsOnly (b ∷ []) = Unit
EndsOnly (b ∷ c ∷ bs) = (b ≢ b'\n') × EndsOnly (c ∷ bs)

EndsOnly-cons : (b : ℕ) (bs : Bytes) → b ≢ b'\n' → EndsOnly bs → EndsOnly (b ∷ bs)
EndsOnly-cons b [] h k = tt
EndsOnly-cons b (c ∷ bs) h k = (h, k)

read_frame-EndsOnly : (n : ℕ) (bs : Bytes) → EndsOnly (read_frame n bs).0
unfolding read_frame
read_frame-EndsOnly zero bs = tt
read_frame-EndsOnly (suc n) [] = tt
read_frame-EndsOnly (suc n) (b ∷ bs) = elim (Bool-cases (eqb b b'\n')) [
  | inl e ↦ rw e tt
  | inr e ↦ rw e (EndsOnly-cons b _ (ground arith) (read_frame-EndsOnly n bs))
]

EndsOnly-drop : (n : ℕ) (bs : Bytes) → EndsOnly bs → EndsOnly (drop n bs)
EndsOnly-drop zero bs h = h
EndsOnly-drop (suc n) [] h = tt
EndsOnly-drop (suc zero) (b ∷ []) h = tt
EndsOnly-drop (suc (suc n)) (b ∷ []) h = tt
EndsOnly-drop (suc n) (b ∷ c ∷ bs) h = EndsOnly-drop n (c ∷ bs) h.1

ends_newline-drop :
    (n : ℕ) (bs : Bytes) → n < length bs → ends_newline bs ≡ true → ends_newline (drop n bs) ≡ true
unfolding ends_newline
ends_newline-drop zero bs lt h = h
ends_newline-drop (suc n) [] lt h = elim lt [ ]
ends_newline-drop (suc n) (b ∷ []) lt h = absurd (omega arith)
ends_newline-drop (suc n) (b ∷ c ∷ bs) lt h = ends_newline-drop n (c ∷ bs) (omega arith) h

-- A line is its content and its end.
line_split :
    (bs : Bytes) (n : ℕ)
    → suc n ≡ length bs
    → ends_newline bs ≡ true
    → EndsOnly bs
    → (bs ≡ take n bs ++ b'\n' ∷ []) × HasNoNewline (take n bs)
unfolding ends_newline
line_split [] n e h k = absurd (omega arith)
line_split (b ∷ []) zero e h k = (ap (λ (x : ℕ). x ∷ []) (ground arith), tt)
line_split (b ∷ []) (suc n) e h k = absurd (omega arith)
line_split (b ∷ c ∷ bs) zero e h k = absurd (omega arith)
line_split (b ∷ c ∷ bs) (suc n) e h (p, k) =
    let (same, clean) = line_split (c ∷ bs) n (omega arith) h k in
    (ap (λ l. b ∷ l) same, (p, clean))

split_at : (i : ℕ) (xs : Bytes) → i < length xs → xs ≡ take i xs ++ byte_at xs i ∷ drop (suc i) xs
split_at i [] lt = elim lt [ ]
split_at zero (x ∷ xs) lt = refl
split_at (suc i) (x ∷ xs) lt = ap (λ l. x ∷ l) (split_at i xs (omega arith))

fits_inv : (n c : ℕ) → not (ltb n 67 || not (eqb c b' ')) ≡ true → (67 ≤ n) × (c ≡ b' ')
fits_inv n c h = ground arith

small_of : (n : ℕ) → ltb frame_limit n ≡ false → n ≤ frame_limit
small_of n h = ground arith

-- How a round of the loop succeeded: it stopped, or its frame passed all tests.
round_inv {ℓ} :
    {A : Type ℓ} (empty long closed fits matches : Bool) (stop next : Option A) (r : A)
    → (if empty
        then stop
        else if long
        then none
        else if not closed
        then stop
        else if fits
        then (if matches then next else none)
        else none)
      ≡ some r
    → ((empty ≡ true) ⊎ ((long ≡ false) × (closed ≡ false)))
      ⊎ ((long ≡ false) × (closed ≡ true) × (fits ≡ true) × (matches ≡ true) × (next ≡ some r))
round_inv empty long closed fits matches stop next r h = ground arith

module _ (sha256_hex : Bytes → String) (law : IsHexDigest sha256_hex) where
  -- A frame that passes the tests is the frame of its body.
  frame-eq-frame_of :
      (frame : Bytes)
      → EndsOnly frame
      → length frame ≤ frame_limit
      → ends_newline frame ≡ true
      → frame_fits sha256_hex frame ≡ true
      → frame_matches sha256_hex frame ≡ true
      → (frame ≡ frame_of sha256_hex (frame_body frame)) × IsBody (frame_body frame)
  unfolding frame_fits frame_matches frame_of
  frame-eq-frame_of frame only small closed fits matches =
      let (size, space) = fits_inv (length frame) (byte_at frame 64) fits in
      let rest = drop 65 frame in
      let left : length rest ≡ length frame - 65 = length-drop 65 frame in
      let (same, clean) =
        line_split rest (length frame - 66) (omega (arith, left))
          (ends_newline-drop 65 frame (omega arith) closed) (EndsOnly-drop 65 frame only) in
      let head : bytes (sha256_hex (frame_body frame)) ≡ take 64 frame =
        bytes_eq_sound _ _ matches in
      let body_size : length (frame_body frame) ≡ length frame - 66 =
        omega (arith, left, length-take (length frame - 66) rest) in
      (
        split_at 64 frame (omega arith)
            ∙ ap (λ (b : ℕ). take 64 frame ++ b ∷ rest) space
            ∙ ap (λ r. take 64 frame ++ b' ' ∷ r) same
            ∙ ap (λ h. h ++ b' ' ∷ (frame_body frame ++ b'\n' ∷ [])) (sym head),
        record {
          line = clean;
          some_byte = omega (arith, body_size);
          bounded = omega (arith, body_size);
        },
      )

ends_newline-tail_inv :
    (b : ℕ) (bs : Bytes) → ends_newline (b ∷ bs) ≡ false → ends_newline bs ≡ false
unfolding ends_newline
ends_newline-tail_inv b [] h = refl
ends_newline-tail_inv b (c ∷ bs) h = h

-- A frame that is within the limit and not closed is the end of the file.
read_frame_unclosed :
    (n : ℕ) (bs : Bytes)
    → ends_newline (read_frame n bs).0 ≡ false
    → length (read_frame n bs).0 < n
    → HasNoNewline bs × (length bs < n)
unfolding read_frame
read_frame_unclosed zero bs h lt = elim lt [ ]
read_frame_unclosed (suc n) [] h lt = (tt, lt)
read_frame_unclosed (suc n) (b ∷ bs) h lt = elim (Bool-cases (eqb b b'\n')) [
  | inl e ↦ absurd (unfold ends_newline in ground arith)
  | inr e ↦
      let open_end : ends_newline (b ∷ (read_frame n bs).0) ≡ false = ground arith in
      let short : length (read_frame n bs).0 < n = ground arith in
      let (clean, less) = read_frame_unclosed n bs (ends_newline-tail_inv b _ open_end) short in
      (((ground arith), clean), omega arith)
]

-- A pack: complete frames, and behind them at most an unfinished one.
pub record IsPack (sha256_hex : Bytes → String) (bs : Bytes) : Type 0 where
  pub bodies : List Bytes
  pub tail : Bytes
  pub split : bs ≡ pack_of sha256_hex bodies ++ tail
  pub valid : All IsBody bodies
  pub clean : HasNoNewline tail
  pub short : length tail ≤ frame_limit

is_empty-eq : (bs : Bytes) → is_empty bs ≡ true → bs ≡ []
is_empty-eq [] h = refl
is_empty-eq (b ∷ bs) h = ground arith

module _ (sha256_hex : Bytes → String) (law : IsHexDigest sha256_hex) where
  unfinished-IsPack :
      (bs : Bytes)
      → (is_empty (read_frame 32835 bs).0 ≡ true)
        ⊎ ((ltb frame_limit (length (read_frame 32835 bs).0) ≡ false)
            × (ends_newline (read_frame 32835 bs).0 ≡ false))
      → IsPack sha256_hex bs
  unfolding pack_of
  unfinished-IsPack bs stop =
      let frame = (read_frame 32835 bs).0 in
      let shut : (ends_newline frame ≡ false) × (length frame < 32835) = elim stop [
        | inl e ↦
            let nothing = is_empty-eq frame e in
            (
              ap ends_newline nothing ∙ (unfold ends_newline in refl),
              omega (arith, ap length nothing),
            )
        | inr (small, unclosed) ↦ (unclosed, ground arith)
      ] in
      let (clean, less) = read_frame_unclosed 32835 bs shut.0 shut.1 in
      record {
        bodies = [];
        tail = bs;
        split = refl;
        valid = tt;
        clean = clean;
        short = omega arith;
      }

  -- A scan that succeeds has read a pack.
  pub scan_from_sound :
      (fuel : ℕ) (digest : String) (bs : Bytes) (end : ℕ) (found : Option Bytes)
      (r : Option Bytes × ℕ)
      → scan_from sha256_hex fuel digest bs end found ≡ some r
      → IsPack sha256_hex bs
  unfolding scan_from pack_of
  scan_from_sound zero digest bs end found r h = ground arith
  scan_from_sound (suc fuel) digest bs end found r h =
      let frame = (read_frame 32835 bs).0 in
      let rest = (read_frame 32835 bs).1 in
      let body = frame_body frame in
      elim (round_inv (is_empty frame) (ltb frame_limit (length frame)) (ends_newline frame)
        (frame_fits sha256_hex frame) (frame_matches sha256_hex frame) _ _ r h) [
          | inl stop ↦ unfinished-IsPack bs stop
          | inr (long, closed, fits, matches, next) ↦
              let (same, valid) =
                frame-eq-frame_of sha256_hex law frame (read_frame-EndsOnly 32835 bs)
                  (small_of (length frame) long) closed fits matches in
              let more =
                scan_from_sound fuel digest rest (end + length frame)
                  (if_digest sha256_hex digest body found) r next in
              record {
                bodies = body ∷ more.bodies;
                tail = more.tail;
                split =
                    sym (read_frame-append 32835 bs)
                    ∙ ap (λ f. f ++ rest) same
                    ∙ ap (λ x. frame_of sha256_hex body ++ x) more.split
                    ∙ sym (append_assoc (frame_of sha256_hex body) _ more.tail);
                valid = (valid, more.valid);
                clean = more.clean;
                short = more.short;
              }
        ]
