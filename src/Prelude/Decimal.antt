-- ===== src/Prelude/Decimal.antt =====
-- Rust's `split(':')` and `parse::<usize>()`, and that they read back what `format!` writes.
use Prim.Native.Nat.{ℕ, zero, suc, ◌+◌, ◌-◌, ◌*◌, ◌/◌, ◌%◌, ◌^◌, ◌<◌}
use Prim.Native.Char.{Char, code}
use Prim.Native.String.{String}
use mathlib.Core.Path.{◌≡◌, refl, ap, sym, ◌∙◌, subst}
use mathlib.Core.Bool.{Bool, true, not, ◌&&◌}
use mathlib.Core.List.{List, [], ◌∷◌}
use mathlib.Core.Option.{Option, none, some}
use mathlib.Core.Logic.{inl, inr}
use native.Mathlib.Omega.{arith}
use text.Mathlib.TextLemmas.{nil-append}
use agent_runner_codex.Prelude.Tests.{ltb, eqb, if◌then◌else◌, Bool-cases}
use agent_runner_codex.Prelude.Text.{◌⋯◌, is_digit, keep_if, show, show_on, digit_text, str_empty}
use agent_runner_codex.Prelude.Strings.{cons-⋯}

abbrev first_piece : Char → List String → List String
first_piece c [] = String.◌∷◌ c "" ∷ []
first_piece c (piece ∷ pieces) = String.◌∷◌ c piece ∷ pieces

-- `split(':')`
unfoldable pub split_colon : String → List String
split_colon String.[] = "" ∷ []
split_colon (String.◌∷◌ c s) =
    let rest = split_colon s in if eqb (code c) b':' then "" ∷ rest else first_piece c rest

-- the digits of a text, after a number that they continue
unfoldable pub digits_from : ℕ → String → Option ℕ
digits_from n String.[] = some n
digits_from n (String.◌∷◌ c s) =
    let rest = digits_from (n * 10 + (code c - 48)) s in if is_digit (code c) then rest else none

abbrev without_plus : String → String
without_plus String.[] = ""
without_plus (String.◌∷◌ c s) = if eqb (code c) b'+' then s else String.◌∷◌ c s

-- `parse::<usize>().ok()`
unfoldable pub parse_usize : String → Option ℕ
unfolding digits_from
parse_usize s =
    let digits = without_plus s in
    if str_empty digits then none else keep_if (λ n. ltb n (2 ^ 64)) (digits_from 0 digits)

unfoldable pub has_no_colon : String → Bool
has_no_colon String.[] = true
has_no_colon (String.◌∷◌ c s) = not (eqb (code c) b':') && has_no_colon s

one-⋯ : (c : Char) (t : String) → (String.◌∷◌ c "") ⋯ t ≡ String.◌∷◌ c t
one-⋯ c t = cons-⋯ c "" t ∙ ap (String.◌∷◌ c) (nil-append t)

digits_from-digit_text :
    (n d : ℕ) (t : String) → d < 10 → digits_from n (digit_text d ⋯ t) ≡ digits_from (n * 10 + d) t
unfolding digits_from
digits_from-digit_text n zero t h = ap (digits_from n) (one-⋯ "0" t)
digits_from-digit_text n (suc zero) t h = ap (digits_from n) (one-⋯ "1" t)
digits_from-digit_text n (suc (suc zero)) t h = ap (digits_from n) (one-⋯ "2" t)
digits_from-digit_text n (suc (suc (suc zero))) t h = ap (digits_from n) (one-⋯ "3" t)
digits_from-digit_text n (suc (suc (suc (suc zero)))) t h = ap (digits_from n) (one-⋯ "4" t)
digits_from-digit_text n (suc (suc (suc (suc (suc zero))))) t h = ap (digits_from n) (one-⋯ "5" t)
digits_from-digit_text n (suc (suc (suc (suc (suc (suc zero)))))) t h =
    ap (digits_from n) (one-⋯ "6" t)
digits_from-digit_text n (suc (suc (suc (suc (suc (suc (suc zero))))))) t h =
    ap (digits_from n) (one-⋯ "7" t)
digits_from-digit_text n (suc (suc (suc (suc (suc (suc (suc (suc zero)))))))) t h =
    ap (digits_from n) (one-⋯ "8" t)
digits_from-digit_text n (suc (suc (suc (suc (suc (suc (suc (suc (suc zero))))))))) t h =
    ap (digits_from n) (one-⋯ "9" t)
digits_from-digit_text n (suc (suc (suc (suc (suc (suc (suc (suc (suc (suc d)))))))))) t h =
    absurd (omega arith)

-- The digits that `show_on` puts before a text are those of its number.
digits_from-show_on :
    (f n : ℕ) (t : String) → n < f → digits_from 0 (show_on f n t) ≡ digits_from n t
unfolding show_on
digits_from-show_on zero n t h = elim h [ ]
digits_from-show_on (suc f) n t h = elim (Bool-cases (ltb n 10)) [
  | inl small ↦
      rw small
        (digits_from-digit_text 0 n t (ground arith) ∙ ap (λ k. digits_from k t) (omega arith))
  | inr large ↦ rw large (
      digits_from-show_on f (n / 10) (digit_text (n % 10) ⋯ t) (ground arith)
      ∙ digits_from-digit_text (n / 10) (n % 10) t (omega arith)
      ∙ ap (λ k. digits_from k t) (omega arith))
]

-- `show` begins with a digit.
abbrev BeginsDigit : String → Type 0
BeginsDigit String.[] = ⊥
BeginsDigit (String.◌∷◌ c s) = is_digit (code c) ≡ true

abbrev IsNumeral : String → Type 0
IsNumeral s = BeginsDigit s × (has_no_colon s ≡ true)

digit_text-IsNumeral : (d : ℕ) (t : String) → has_no_colon t ≡ true → IsNumeral (digit_text d ⋯ t)
unfolding has_no_colon
digit_text-IsNumeral zero t h = subst IsNumeral (sym (one-⋯ "0" t)) (refl, h)
digit_text-IsNumeral (suc zero) t h = subst IsNumeral (sym (one-⋯ "1" t)) (refl, h)
digit_text-IsNumeral (suc (suc zero)) t h = subst IsNumeral (sym (one-⋯ "2" t)) (refl, h)
digit_text-IsNumeral (suc (suc (suc zero))) t h = subst IsNumeral (sym (one-⋯ "3" t)) (refl, h)
digit_text-IsNumeral (suc (suc (suc (suc zero)))) t h =
    subst IsNumeral (sym (one-⋯ "4" t)) (refl, h)
digit_text-IsNumeral (suc (suc (suc (suc (suc zero))))) t h =
    subst IsNumeral (sym (one-⋯ "5" t)) (refl, h)
digit_text-IsNumeral (suc (suc (suc (suc (suc (suc zero)))))) t h =
    subst IsNumeral (sym (one-⋯ "6" t)) (refl, h)
digit_text-IsNumeral (suc (suc (suc (suc (suc (suc (suc zero))))))) t h =
    subst IsNumeral (sym (one-⋯ "7" t)) (refl, h)
digit_text-IsNumeral (suc (suc (suc (suc (suc (suc (suc (suc zero)))))))) t h =
    subst IsNumeral (sym (one-⋯ "8" t)) (refl, h)
digit_text-IsNumeral (suc (suc (suc (suc (suc (suc (suc (suc (suc d))))))))) t h =
    subst IsNumeral (sym (one-⋯ "9" t)) (refl, h)

show_on-IsNumeral :
    (f n : ℕ) (t : String) → n < f → has_no_colon t ≡ true → IsNumeral (show_on f n t)
unfolding show_on
show_on-IsNumeral zero n t lt h = elim lt [ ]
show_on-IsNumeral (suc f) n t lt h = elim (Bool-cases (ltb n 10)) [
  | inl small ↦ rw small (digit_text-IsNumeral n t h)
  | inr large ↦ rw large (
      show_on-IsNumeral f (n / 10) (digit_text (n % 10) ⋯ t) (ground arith)
        (digit_text-IsNumeral (n % 10) t h).1)
]

pub show-IsNumeral : (n : ℕ) → IsNumeral (show n)
unfolding show has_no_colon
show-IsNumeral n = show_on-IsNumeral (suc n) n "" (omega arith) refl

digits_from-show : (n : ℕ) → digits_from 0 (show n) ≡ some n
unfolding show digits_from
digits_from-show n = digits_from-show_on (suc n) n "" (omega arith)

-- What `format!` writes of a `usize`, `parse` reads back.
pub parse_usize-show : (n : ℕ) → n < 2 ^ 64 → parse_usize (show n) ≡ some n
unfolding parse_usize
parse_usize-show n lt = read_back (show n) (show-IsNumeral n).0 shown
  where
    shown : digits_from 0 (show n) ≡ some n
    shown = digits_from-show n

    read_back : (s : String) → BeginsDigit s → digits_from 0 s ≡ some n → parse_usize s ≡ some n
    read_back String.[] begins digits = elim begins [ ]
    read_back (String.◌∷◌ c s) begins digits = ground (arith, digits)

-- A piece before a colon, and a last piece.
pub split_colon-⋯ :
    (s t : String) → has_no_colon s ≡ true → split_colon (s ⋯ (":" ⋯ t)) ≡ s ∷ split_colon t
unfolding split_colon has_no_colon
split_colon-⋯ String.[] t h = ap split_colon (nil-append (":" ⋯ t)) ∙ ap split_colon (one-⋯ ":" t)
split_colon-⋯ (String.◌∷◌ c s) t h =
    ap split_colon (cons-⋯ c s (":" ⋯ t)) ∙ ground (arith, split_colon-⋯ s t)

pub split_colon-last : (s : String) → has_no_colon s ≡ true → split_colon s ≡ s ∷ []
unfolding split_colon has_no_colon
split_colon-last String.[] h = refl
split_colon-last (String.◌∷◌ c s) h = ground (arith, split_colon-last s)
