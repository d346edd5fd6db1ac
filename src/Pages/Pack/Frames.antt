-- ===== src/Pages/Pack/Frames.antt =====
-- Reading one frame.
use agent_runner_codex.Prelude.{
  ℕ, zero, suc, ◌≤◌, ◌<◌, ◌≡◌, refl, true, false, Bytes, [], ◌∷◌, ◌++◌, ◌≢◌, length, arith, All,
}
use agent_runner_codex.Pages.Pack.{read_frame, ends_newline}

-- Bytes with no line end among them.
abbrev pub HasNoNewline : Bytes → Type 0
HasNoNewline = All (λ b. b ≢ b'\n')

pub HasNoNewline-append :
    (xs ys : Bytes) → HasNoNewline xs → HasNoNewline ys → HasNoNewline (xs ++ ys)
HasNoNewline-append [] ys h k = k
HasNoNewline-append (x ∷ xs) ys (p, h) k = (p, HasNoNewline-append xs ys h k)

-- A line is read whole where it is within the limit.
pub read_frame-line :
    (n : ℕ) (line rest : Bytes)
    → HasNoNewline line
    → length line < n
    → read_frame n (line ++ b'\n' ∷ rest) ≡ (line ++ b'\n' ∷ [], rest)
unfolding read_frame
read_frame-line zero line rest h lt = elim lt [ ]
read_frame-line (suc n) [] rest h lt = refl
read_frame-line (suc n) (b ∷ line) rest (p, h) lt = ground (arith, read_frame-line n line rest h)

-- An end of file within the limit ends the frame.
pub read_frame-tail :
    (n : ℕ) (tail : Bytes) → HasNoNewline tail → length tail ≤ n → read_frame n tail ≡ (tail, [])
unfolding read_frame
read_frame-tail zero [] h le = refl
read_frame-tail zero (b ∷ tail) h le = absurd (omega arith)
read_frame-tail (suc n) [] h le = refl
read_frame-tail (suc n) (b ∷ tail) (p, h) le = ground (arith, read_frame-tail n tail h)

pub ends_newline-line : (line : Bytes) → ends_newline (line ++ b'\n' ∷ []) ≡ true
unfolding ends_newline
ends_newline-line [] = refl
ends_newline-line (b ∷ []) = refl
ends_newline-line (b ∷ c ∷ line) = ends_newline-line (c ∷ line)

pub ends_newline-tail : (tail : Bytes) → HasNoNewline tail → ends_newline tail ≡ false
unfolding ends_newline
ends_newline-tail [] h = refl
ends_newline-tail (b ∷ []) h = ground arith
ends_newline-tail (b ∷ c ∷ tail) (p, h) = ends_newline-tail (c ∷ tail) h

-- What is read and what is left make up the input.
pub read_frame-append : (n : ℕ) (bs : Bytes) → (read_frame n bs).0 ++ (read_frame n bs).1 ≡ bs
unfolding read_frame
read_frame-append zero bs = refl
read_frame-append (suc n) [] = refl
read_frame-append (suc n) (b ∷ bs) = ground (arith, read_frame-append n bs)
