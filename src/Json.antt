-- ===== src/Json.antt =====
-- The part of `serde_json` that the source uses: the value type and its accessors. The parser and
-- the printer of JSON text are parameters of the modules that call them.
mod Assoc
unfoldable pub use Assoc.{lookup}
use agent_runner_codex.Prelude.{
  ℕ, String, Bool, true, false, Option, none, some, List, [], ◌∷◌, ◌==◌, ◌≡◌, ap, arith, eq_iff,
  is_some, if◌then◌else◌,
}

-- An integer that is not negative, -(n + 1), or a float, kept by its bits.
pub data Number : Type 0 where
  unsigned negative float : ℕ → Number

mutual
  pub data Value : Type 0 where
    null : Value
    boolean : Bool → Value
    number : Number → Value
    str : String → Value
    arr : Values → Value
    obj : Fields → Value

  pub data Values : Type 0 where
    nil : Values
    cons : Value → Values → Values

  pub data Fields : Type 0 where
    end : Fields
    field : String → Value → Fields → Fields

abbrev pub num : ℕ → Value
num n = number (unsigned n)

unfoldable pub values : Values → List Value
values nil = []
values (cons v vs) = v ∷ values vs

abbrev pub array_of : List Value → Values
array_of [] = nil
array_of (v ∷ vs) = cons v (array_of vs)

-- `json!([…])`
abbrev pub array : List Value → Value
array vs = arr (array_of vs)

abbrev pub fields_of : List (String × Value) → Fields
fields_of [] = end
fields_of ((k, v) ∷ m) = field k v (fields_of m)

-- `json!({…})`
abbrev pub object : List (String × Value) → Value
object m = obj (fields_of m)

unfoldable pub members : Fields → List (String × Value)
members end = []
members (field k v m) = (k, v) ∷ members m

unfoldable pub get_field : String → Fields → Option Value
get_field k end = none
get_field k (field j v m) = if j == k then some v else get_field k m

-- `value.get(key)`
unfoldable pub get : Value → String → Option Value
unfolding get_field
get (obj m) k = get_field k m
get _ k = none

unfoldable pub remove_field : String → Fields → Fields
remove_field k end = end
remove_field k (field j v m) =
    let rest = remove_field k m in if j == k then rest else field j v rest

-- a member that is there, with another value
unfoldable pub replace_field : String → Value → Fields → Fields
replace_field k w end = end
replace_field k w (field j v m) =
    let rest = replace_field k w m in if j == k then field j w rest else field j v rest

-- `value[key]`
unfoldable pub at : Value → String → Value
unfolding get
at v k = elim (get v k) [ none ↦ null | some w ↦ w ]

-- `value.pointer("/k1/k2")`, the keys being no array positions
unfoldable pub pointer : Value → List String → Option Value
unfolding get
pointer v [] = some v
pointer v (k ∷ ks) = elim (get v k) [ none ↦ none | some w ↦ pointer w ks ]

abbrev pub as_str : Value → Option String
as_str (str s) = some s
as_str _ = none

abbrev pub as_u64 : Value → Option ℕ
as_u64 (number (unsigned n)) = some n
as_u64 _ = none

abbrev pub as_bool : Value → Option Bool
as_bool (boolean b) = some b
as_bool _ = none

abbrev pub as_object : Value → Option Fields
as_object (obj m) = some m
as_object _ = none

abbrev pub as_array : Value → Option (List Value)
as_array (arr vs) = some (values vs)
as_array _ = none

abbrev pub is_null : Value → Bool
is_null null = true
is_null _ = false

abbrev pub is_object : Value → Bool
is_object v = is_some (as_object v)

abbrev pub then_str : Option Value → Option String
then_str none = none
then_str (some v) = as_str v

-- `value == "text"`
abbrev pub is_text : Value → String → Bool
is_text (str s) t = s == t
is_text _ t = false

-- A value that is read as a text is that text.
pub as_str_sound : (v : Value) (s : String) → as_str v ≡ some s → v ≡ str s
as_str_sound null s h = absurd (ground arith)
as_str_sound (boolean b) s h = absurd (ground arith)
as_str_sound (number n) s h = absurd (ground arith)
as_str_sound (str t) s h = ground arith
as_str_sound (arr vs) s h = absurd (ground arith)
as_str_sound (obj m) s h = absurd (ground arith)

pub is_text_sound : (v : Value) (t : String) → is_text v t ≡ true → v ≡ str t
is_text_sound null t h = absurd (ground arith)
is_text_sound (boolean b) t h = absurd (ground arith)
is_text_sound (number n) t h = absurd (ground arith)
is_text_sound (str s) t h = ap str ((eq_iff s t).0 h)
is_text_sound (arr vs) t h = absurd (ground arith)
is_text_sound (obj m) t h = absurd (ground arith)
