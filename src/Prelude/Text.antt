-- ===== src/Prelude/Text.antt =====
-- What the program uses of Rust's `str`: bytes, prefixes, byte classes, decimal printing.
use Prim.Native.Nat.{ℕ, zero, suc, ◌+◌, ◌/◌, ◌%◌}
use Prim.Native.Char.{Char, code}
use Prim.Native.String
use Prim.Native.String.{String}
use mathlib.Core.Bool.{Bool, true, false, ◌&&◌, ◌||◌}
use mathlib.Core.List.{List, [], ◌∷◌, ◌++◌}
use mathlib.Core.Option.{Option, none, some}
use agent_runner_codex.Prelude.Tests.{ltb, leb, eqb, if◌then◌else◌}
use text.Mathlib.Text.{◌==◌}
use agent_runner_codex.Prelude.Lists.{Bytes, length}

infixr 66 ◌⋯◌
-- texts one after the other, as `format!` puts them
abbrev pub ◌⋯◌ : String → String → String
s ⋯ t = String.◌++◌ s t

-- the UTF-8 bytes of one code point
pub utf8 : ℕ → Bytes
utf8 c =
    if ltb c 0x80
    then c ∷ []
    else if ltb c 0x800
    then (0xc0 + c / 64) ∷ (0x80 + c % 64) ∷ []
    else if ltb c 0x10000
    then (0xe0 + c / 4096) ∷ (0x80 + c / 64 % 64) ∷ (0x80 + c % 64) ∷ []
    else (0xf0 + c / 262144) ∷ (0x80 + c / 4096 % 64) ∷ (0x80 + c / 64 % 64) ∷ (0x80 + c % 64) ∷ []

-- `as_bytes`
unfoldable pub bytes : String → Bytes
unfolding utf8
bytes String.[] = []
bytes (String.◌∷◌ c s) = utf8 (code c) ++ bytes s

-- `len`, in bytes
abbrev pub str_len : String → ℕ
str_len s = length (bytes s)

abbrev pub str_empty : String → Bool
str_empty String.[] = true
str_empty (String.◌∷◌ c s) = false

-- `strip_prefix(prefix)` of the text
unfoldable pub strip_prefix : String → String → Option String
strip_prefix s String.[] = some s
strip_prefix String.[] (String.◌∷◌ d p) = none
strip_prefix (String.◌∷◌ c s) (String.◌∷◌ d p) =
    let rest = strip_prefix s p in if eqb (code c) (code d) then rest else none

abbrev pub is_some {ℓ} : {A : Type ℓ} → Option A → Bool
is_some none = false
is_some (some a) = true

-- `starts_with(prefix)`
abbrev pub has_prefix : String → String → Bool
has_prefix s p = is_some (strip_prefix s p)

abbrev pub unwrap_or {ℓ} : {A : Type ℓ} → Option A → A → A
unwrap_or none d = d
unwrap_or (some a) d = a

-- `Option::filter`, `ok_or` and `or` in one place
abbrev pub keep_if {ℓ} : {A : Type ℓ} → (A → Bool) → Option A → Option A
keep_if p none = none
keep_if p (some a) = if p a then some a else none

abbrev pub or_else {ℓ} : {A : Type ℓ} → Option A → Option A → Option A
or_else none o = o
or_else (some a) o = some a

abbrev pub is_digit : ℕ → Bool
is_digit b = leb b'0' b && leb b b'9'

-- `is_ascii_alphanumeric`
abbrev pub is_alphanumeric : ℕ → Bool
is_alphanumeric b = is_digit b || (leb b'a' b && leb b b'z') || (leb b'A' b && leb b b'Z')

-- `is_ascii_hexdigit`
abbrev pub is_hexdigit : ℕ → Bool
is_hexdigit b = is_digit b || (leb b'a' b && leb b b'f') || (leb b'A' b && leb b b'F')

-- `b.is_ascii_digit() || (b'a'..=b'f').contains(&b)`
abbrev pub is_lower_hex : ℕ → Bool
is_lower_hex b = is_digit b || (leb b'a' b && leb b b'f')

-- `is_ascii_whitespace`
abbrev pub is_ascii_space : ℕ → Bool
is_ascii_space b = eqb b 32 || eqb b 9 || eqb b 10 || eqb b 12 || eqb b 13

-- `char::is_whitespace`: the code points with Unicode's White_Space property
abbrev pub is_space : ℕ → Bool
is_space c =
    (leb 9 c && leb c 13)
    || eqb c 32
    || eqb c 0x85
    || eqb c 0xa0
    || eqb c 0x1680
    || (leb 0x2000 c && leb c 0x200a)
    || eqb c 0x2028
    || eqb c 0x2029
    || eqb c 0x202f
    || eqb c 0x205f
    || eqb c 0x3000

-- `s.trim().is_empty()`
unfoldable pub is_blank : String → Bool
is_blank String.[] = true
is_blank (String.◌∷◌ c s) = is_space (code c) && is_blank s

abbrev pub digit_text : ℕ → String
digit_text zero = "0"
digit_text (suc zero) = "1"
digit_text (suc (suc zero)) = "2"
digit_text (suc (suc (suc zero))) = "3"
digit_text (suc (suc (suc (suc zero)))) = "4"
digit_text (suc (suc (suc (suc (suc zero))))) = "5"
digit_text (suc (suc (suc (suc (suc (suc zero)))))) = "6"
digit_text (suc (suc (suc (suc (suc (suc (suc zero))))))) = "7"
digit_text (suc (suc (suc (suc (suc (suc (suc (suc zero)))))))) = "8"
digit_text _ = "9"

unfoldable pub show_on : ℕ → ℕ → String → String
show_on zero n acc = acc
show_on (suc f) n acc =
    let done = digit_text n ⋯ acc in
    let more = show_on f (n / 10) (digit_text (n % 10) ⋯ acc) in if ltb n 10 then done else more

-- `to_string` of an unsigned number; `suc n` rounds are more than it has digits
unfoldable pub show : ℕ → String
unfolding show_on
show n = show_on (suc n) n ""

-- `trim_end`
unfoldable pub trim_end : String → String
trim_end String.[] = ""
trim_end (String.◌∷◌ c s) =
    let rest = trim_end s in if str_empty rest && is_space (code c) then "" else String.◌∷◌ c rest

-- `trim_start`
unfoldable pub trim_start : String → String
trim_start String.[] = ""
trim_start (String.◌∷◌ c s) =
    let rest = trim_start s in if is_space (code c) then rest else String.◌∷◌ c s

abbrev put_first : Char → Option String → Option String
put_first c none = none
put_first c (some s) = some (String.◌∷◌ c s)

-- `strip_suffix(suffix)`
unfoldable pub strip_suffix : String → String → Option String
strip_suffix String.[] suffix = if str_empty suffix then some "" else none
strip_suffix (String.◌∷◌ c s) suffix =
    let rest = put_first c (strip_suffix s suffix) in
    if String.◌∷◌ c s == suffix then some "" else rest

-- `ends_with(suffix)`
abbrev pub has_suffix : String → String → Bool
has_suffix s suffix = is_some (strip_suffix s suffix)

-- `ends_with(char::is_whitespace)`
unfoldable pub ends_space : String → Bool
ends_space String.[] = false
ends_space (String.◌∷◌ c s) =
    let rest = ends_space s in if str_empty s then is_space (code c) else rest

-- `replace("\r\n", "\n")` and then `replace('\r', "\n")`, in one pass that knows whether the
-- character before was a carriage return
line_ends : Bool → String → String
line_ends after_return String.[] = ""
line_ends after_return (String.◌∷◌ c s) =
    let marked = line_ends true s in
    let plain = line_ends false s in
    if eqb (code c) 13
    then "\n" ⋯ marked
    else if after_return && eqb (code c) 10
    then plain
    else String.◌∷◌ c plain

unfoldable pub unix_line_ends : String → String
unfolding line_ends
unix_line_ends = line_ends false

-- `==` on lists of texts
unfoldable pub texts_eq : List String → List String → Bool
texts_eq [] [] = true
texts_eq (s ∷ ss) (t ∷ ts) = s == t && texts_eq ss ts
texts_eq _ _ = false
