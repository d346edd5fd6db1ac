-- ===== src/Account/Paths.antt =====
-- `Path::is_absolute` and `Path::join` on Unix.
use Prim.Native.Char.{code}
use Prim.Native.String.{String}
use text.Mathlib.TextLemmas.{append_cancel_left}
use agent_runner_codex.Prelude.{◌≡◌, sym, ◌∙◌, arith, Bool, false, ◌⋯◌, eqb, if◌then◌else◌}

unfoldable pub is_absolute : String → Bool
is_absolute String.[] = false
is_absolute (String.◌∷◌ c s) = eqb (code c) b'/'

ends_with_slash : String → Bool
ends_with_slash String.[] = false
ends_with_slash (String.◌∷◌ c String.[]) = eqb (code c) b'/'
ends_with_slash (String.◌∷◌ c (String.◌∷◌ d s)) = ends_with_slash (String.◌∷◌ d s)

-- a separator is added after a text that is not empty and does not end with one
separated : String → String
unfolding ends_with_slash
separated String.[] = ""
separated (String.◌∷◌ c s) =
    let base = String.◌∷◌ c s in if ends_with_slash base then base else base ⋯ "/"

unfoldable pub join : String → String → String
unfolding separated is_absolute
join base path = if is_absolute path then path else separated base ⋯ path

join-relative :
    (base path : String) → is_absolute path ≡ false → join base path ≡ separated base ⋯ path
unfolding join
join-relative base path h = ground (arith, h)

-- Below one base, different relative paths are different places.
pub join_injective :
    (base p q : String)
    → is_absolute p ≡ false
    → is_absolute q ≡ false
    → join base p ≡ join base q
    → p ≡ q
join_injective base p q hp hq e =
    append_cancel_left (separated base) p q
      (sym (join-relative base p hp) ∙ e ∙ join-relative base q hq)
