-- ===== src/Prelude/Strings.antt =====
-- Laws of the text operations.
use Prim.Native.Char.{Char, code}
use Prim.Native.String.{String}
use mathlib.Core.Path.{◌≡◌, refl, sym, ap, ap₂, ◌∙◌}
use mathlib.Core.Bool.{true}
use mathlib.Core.List.{List, [], ◌∷◌}
use mathlib.Core.Option.{some}
use text.Mathlib.Text.{◌==◌}
use native.Mathlib.Omega.{arith}
use text.Mathlib.TextEquality.{Char-path, eq_iff}
use text.Mathlib.TextLemmas.{nil-append, cons-append}
use agent_runner_codex.Prelude.Tests.{and-eq-true, eqb_iff}
use agent_runner_codex.Prelude.Text.{◌⋯◌, strip_prefix, texts_eq}

pub cons-⋯ : (c : Char) (s t : String) → (String.◌∷◌ c s) ⋯ t ≡ String.◌∷◌ c (s ⋯ t)
cons-⋯ c s t = cons-append c s t

strip_prefix-cons :
    (c d : Char) (s p r : String)
    → strip_prefix (String.◌∷◌ c s) (String.◌∷◌ d p) ≡ some r
    → (c ≡ d) × (strip_prefix s p ≡ some r)
unfolding strip_prefix
strip_prefix-cons c d s p r h =
    (Char-path c d (ground (arith, eqb_iff (code c) (code d))), ground arith)

-- What is stripped and what is left make up the text.
pub strip_prefix_sound : (s p r : String) → strip_prefix s p ≡ some r → s ≡ p ⋯ r
unfolding strip_prefix
strip_prefix_sound s String.[] r h = cc (nil-append r)
strip_prefix_sound String.[] (String.◌∷◌ d p) r h = ground arith
strip_prefix_sound (String.◌∷◌ c s) (String.◌∷◌ d p) r h =
    let (same, rest) = strip_prefix-cons c d s p r h in
    ap₂ String.◌∷◌ same (strip_prefix_sound s p r rest) ∙ sym (cons-⋯ d p r)

pub strip_prefix-⋯ : (p r : String) → strip_prefix (p ⋯ r) p ≡ some r
unfolding strip_prefix
strip_prefix-⋯ String.[] r = ap some (nil-append r)
strip_prefix-⋯ (String.◌∷◌ d p) r =
    ap (λ s. strip_prefix s (String.◌∷◌ d p)) (cons-⋯ d p r)
    ∙ ground (arith, strip_prefix-⋯ p r, eqb_iff (code d) (code d))

pub texts_eq_sound : (ss ts : List String) → texts_eq ss ts ≡ true → ss ≡ ts
unfolding texts_eq
texts_eq_sound [] [] h = refl
texts_eq_sound (s ∷ ss) (t ∷ ts) h =
    let (same, rest) = and-eq-true (s == t) (texts_eq ss ts) h in
    ap₂ ◌∷◌ ((eq_iff s t).0 same) (texts_eq_sound ss ts rest)
texts_eq_sound [] (t ∷ ts) h = absurd (ground arith)
texts_eq_sound (s ∷ ss) [] h = absurd (ground arith)
