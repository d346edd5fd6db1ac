-- ===== src/Policy/Catalog/Entries.antt =====
-- What the entries of a model catalog that is validated satisfy.
use agent_runner_codex.Prelude.{
  ◌≡◌, ◌++◌, ◌∙◌, sym, ap, refl, Option, none, some, eq_refl, inl, inr, String, Bool, true, false,
  List, [], ◌∷◌, arith, Bool-cases, All,
}
use agent_runner_codex.Json.{
  Value, null, boolean, number, str, arr, obj, nil, cons, array, at, get, is_text, is_text_sound,
  values,
}
use agent_runner_codex.Envelope.{ok, >>=-eq-ok}
use agent_runner_codex.Session.Locate.{keep}
use agent_runner_codex.Policy.Config.{
  check_slug, check_slugs, entries_for, is_given_bool, is_given_nothing, is_given_null,
  is_restricted,
}

-- A list with one element of a kind: it stands between elements that are not.
keep_one {ℓ} :
    {A : Type ℓ} (test : A → Bool) (xs : List A) → keep test xs ≡ [] → All (λ x. test x ≡ false) xs
keep_one test [] h = tt
keep_one test (x ∷ xs) h = elim (Bool-cases (test x)) [
  | inl kept ↦ absurd (ground (arith, kept))
  | inr other ↦ (other, keep_one test xs (ground (arith, other)))
]

keep_single {ℓ} :
    {A : Type ℓ} (test : A → Bool) (xs : List A) (y : A)
    → keep test xs ≡ y ∷ []
    → (before : List A) × (after : List A) × (xs ≡ before ++ y ∷ after)
      × (test y ≡ true)
      × (All (λ x. test x ≡ false) before)
      × (All (λ x. test x ≡ false) after)
keep_single test [] y h = absurd (ground arith)
keep_single test (x ∷ xs) y h = elim (Bool-cases (test x)) [
  | inl kept ↦
      let same : x ≡ y = ground (arith, kept) in
      let rest : keep test xs ≡ [] = ground (arith, kept) in
      ([], xs, ap (λ a. a ∷ xs) same, sym (ap test same) ∙ kept, tt, keep_one test xs rest)
  | inr other ↦
      let (before, after, split, is, none_before, none_after) =
        keep_single test xs y (ground (arith, other)) in
      (x ∷ before, after, ap (λ l. x ∷ l) split, is, (other, none_before), none_after)
]

-- The entry turns off every override of the native tools: no patch tool, no tool mode, no agents of the
-- second version, no node console, no search tool and no experimental tools.
abbrev pub IsRestricted : Value → Type 0
IsRestricted entry =
    (get entry "apply_patch_tool_type" ≡ some null)
    × (get entry "tool_mode" ≡ some null)
    × (get entry "multi_agent_version" ≡ some null)
    × (get entry "node_repl_disabled" ≡ some (boolean true))
    × (get entry "supports_search_tool" ≡ some (boolean false))
    × (get entry "experimental_supported_tools" ≡ some (array []))

-- The catalog has one entry for the model, and it disables the native tools.
abbrev pub IsDefined : List Value → String → Type 0
IsDefined entries slug =
    (before : List Value) × (entry : Value) × (after : List Value) × (entries
      ≡ before ++ entry ∷ after)
    × (at entry "slug" ≡ str slug)
    × (All (λ other. at other "slug" ≡ str slug → ⊥) before)
    × (All (λ other. at other "slug" ≡ str slug → ⊥) after)
    × IsRestricted entry

null_lem : (o : Option Value) → is_given_null o ≡ true → o ≡ some null
null_lem none h = absurd (ground arith)
null_lem (some null) h = refl
null_lem (some (boolean b)) h = absurd (ground arith)
null_lem (some (number n)) h = absurd (ground arith)
null_lem (some (str t)) h = absurd (ground arith)
null_lem (some (arr vs)) h = absurd (ground arith)
null_lem (some (obj m)) h = absurd (ground arith)

bool_lem : (b : Bool) (o : Option Value) → is_given_bool b o ≡ true → o ≡ some (boolean b)
bool_lem true none h = absurd (ground arith)
bool_lem false none h = absurd (ground arith)
bool_lem true (some (boolean true)) h = refl
bool_lem true (some (boolean false)) h = absurd (ground arith)
bool_lem false (some (boolean true)) h = absurd (ground arith)
bool_lem false (some (boolean false)) h = refl
bool_lem true (some null) h = absurd (ground arith)
bool_lem false (some null) h = absurd (ground arith)
bool_lem true (some (number n)) h = absurd (ground arith)
bool_lem false (some (number n)) h = absurd (ground arith)
bool_lem true (some (str t)) h = absurd (ground arith)
bool_lem false (some (str t)) h = absurd (ground arith)
bool_lem true (some (arr vs)) h = absurd (ground arith)
bool_lem false (some (arr vs)) h = absurd (ground arith)
bool_lem true (some (obj m)) h = absurd (ground arith)
bool_lem false (some (obj m)) h = absurd (ground arith)

nothing_lem : (o : Option Value) → is_given_nothing o ≡ true → o ≡ some (array [])
unfolding values
nothing_lem none h = absurd (ground arith)
nothing_lem (some null) h = absurd (ground arith)
nothing_lem (some (boolean b)) h = absurd (ground arith)
nothing_lem (some (number n)) h = absurd (ground arith)
nothing_lem (some (str t)) h = absurd (ground arith)
nothing_lem (some (arr nil)) h = refl
nothing_lem (some (arr (cons v vs))) h = absurd (ground arith)
nothing_lem (some (obj m)) h = absurd (ground arith)

is_restricted-IsRestricted : (entry : Value) → is_restricted entry ≡ true → IsRestricted entry
unfolding is_restricted
is_restricted-IsRestricted entry h = (
  null_lem (get entry "apply_patch_tool_type") (ground arith),
  null_lem (get entry "tool_mode") (ground arith),
  null_lem (get entry "multi_agent_version") (ground arith),
  bool_lem true (get entry "node_repl_disabled") (ground arith),
  bool_lem false (get entry "supports_search_tool") (ground arith),
  nothing_lem (get entry "experimental_supported_tools") (ground arith),
)

none_named :
    (slug : String) (entries : List Value)
    → All (λ e. is_text (at e "slug") slug ≡ false) entries
    → All (λ e. at e "slug" ≡ str slug → ⊥) entries
none_named slug [] all = tt
none_named slug (e ∷ entries) (other, all) = (
  λ named.
      let hit : is_text (at e "slug") slug ≡ true = ap (λ v. is_text v slug) named ∙ eq_refl slug in
      ground (arith, hit, other),
  none_named slug entries all,
)

single-IsDefined :
    (entries : List Value) (slug : String) (entry : Value)
    → entries_for slug entries ≡ entry ∷ []
    → is_restricted entry ≡ true
    → IsDefined entries slug
single-IsDefined entries slug entry one restricted =
    let (before, after, split, named, b, a) =
      keep_single (λ e. is_text (at e "slug") slug) entries entry one in
    (
      before,
      entry,
      after,
      split,
      is_text_sound (at entry "slug") slug named,
      none_named slug before b,
      none_named slug after a,
      is_restricted-IsRestricted entry restricted,
    )

check_slug-IsDefined :
    (entries : List Value) (slug : String) (done : Unit {0})
    → check_slug entries slug ≡ ok done
    → IsDefined entries slug
unfolding check_slug
check_slug-IsDefined entries slug done h = by_count (entries_for slug entries) refl
  where
    by_count : (found : List Value) → entries_for slug entries ≡ found → IsDefined entries slug
    by_count [] e = absurd (ground (arith, e))
    by_count (entry ∷ other ∷ more) e = absurd (ground (arith, e))
    by_count (entry ∷ []) e = elim (Bool-cases (is_restricted entry)) [
      | inl restricted ↦ single-IsDefined entries slug entry e restricted
      | inr open_tools ↦ absurd (ground (arith, e, open_tools))
    ]

pub check_slugs-IsDefined :
    (entries : List Value) (slugs : List String) (done : Unit {0})
    → check_slugs entries slugs ≡ ok done
    → All (IsDefined entries) slugs
unfolding check_slugs
check_slugs-IsDefined entries [] done h = tt
check_slugs-IsDefined entries (slug ∷ slugs) done h =
    let (one, first, rest) = >>=-eq-ok (check_slug entries slug) _ h in
    (check_slug-IsDefined entries slug one first, check_slugs-IsDefined entries slugs done rest)
