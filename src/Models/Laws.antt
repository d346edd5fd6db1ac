-- ===== src/Models/Laws.antt =====
-- What the labels of src/models.rs select, as a relation, and what the catalog lists.
use mathlib.Core.List.{Memᴰ}
use agent_runner_codex.Prelude.{
  String, ◌≡◌, ◌≢◌, ◌↔◌, refl, sym, ap, ◌∙◌, Option, none, some, List, [], ◌∷◌, arith, ◌==◌, eq_iff,
  ◌⋯◌, strip_prefix, Option-cases, All, All-mem, unwrap_or, map, ◌++◌, inl, inr, Bool-cases, subst,
}
use agent_runner_codex.Prelude.Strings.{strip_prefix_sound}
use agent_runner_codex.Models.{
  route, catalog, args, CatalogEntry, families, efforts, find_effort, find_family, native_route,
  sol, luna, gpt, bench, catalog_entry, with_model, collect, family_labels, catalog_names,
  known_effort,
}

-- The labels: the default, the benchmark, and a family's prefix with an effort.
pub data Selects (name model effort : String) : Type 0 where
  default : name ≡ gpt → model ≡ sol → effort ≡ "high" → Selects name model effort
  benchmark : name ≡ bench → model ≡ luna → effort ≡ "low" → Selects name model effort
  labelled :
      (prefix : String)
      → Memᴰ (prefix, model) families
      → Memᴰ effort efforts
      → name ≡ prefix ⋯ effort
      → Selects name model effort

find_effort_sound :
    (effort : String) (es : List String) {e : String}
    → find_effort effort es ≡ some e
    → (e ≡ effort) × Memᴰ effort es
unfolding find_effort
find_effort_sound effort [] h = ground arith
find_effort_sound effort (x ∷ es) {e} h = elim (Bool-cases (x == effort)) [
  | inl same ↦
      let p : x ≡ effort = (eq_iff x effort).0 same in (ground (arith, p), Memᴰ.head (sym p))
  | inr other ↦
      let (p, m) = find_effort_sound effort es (rw (other, find_effort) at h) in (p, Memᴰ.tail m)
]

with_model_sound :
    (model : String) (o : Option String) {m e : String}
    → with_model model o ≡ some (m, e)
    → (m ≡ model) × (o ≡ some e)
with_model_sound model none h = ground arith
with_model_sound model (some x) h = ground arith

known_effort_sound :
    (o : Option String) {e : String} → known_effort o ≡ some e → (o ≡ some e) × Memᴰ e efforts
known_effort_sound none h = cc
known_effort_sound (some x) {e} h =
    let (same, m) = find_effort_sound x efforts h in
    (ap some (sym same), subst (λ y. Memᴰ y efforts) (sym same) m)

native_route_sound :
    (name prefix model m e : String)
    → native_route name prefix model ≡ some (m, e)
    → (m ≡ model) × Memᴰ e efforts × (name ≡ prefix ⋯ e)
unfolding native_route
native_route_sound name prefix model m e h =
    let (same, known) = with_model_sound model _ h in
    let (stripped, listed) = known_effort_sound (strip_prefix name prefix) known in
    (same, listed, strip_prefix_sound name prefix e stripped)

find_family_sound :
    (name : String) (fs : List (String × String)) (m e : String)
    → find_family name fs ≡ some (m, e)
    → (prefix : String) × Memᴰ (prefix, m) fs × Memᴰ e efforts × (name ≡ prefix ⋯ e)
unfolding find_family
find_family_sound name [] m e h = ground arith
find_family_sound name ((prefix, model) ∷ fs) m e h =
    elim (Option-cases (native_route name prefix model)) [
      | inl missed ↦
          let (p, listed, effort, same) = find_family_sound name fs m e (ground arith) in
          (p, Memᴰ.tail listed, effort, same)
      | inr ((m', e'), found) ↦
          let (same, effort, text) = native_route_sound name prefix model m e (ground arith) in
          (prefix, Memᴰ.head (ap (λ (x : String). (prefix, x)) same), effort, text)
    ]

route_sound : (name m e : String) → route name ≡ some (m, e) → Selects name m e
unfolding route
route_sound name m e h = elim (Bool-cases (name == gpt)) [
  | inl is_gpt ↦ default ((eq_iff name gpt).0 is_gpt) (ground arith) (ground arith)
  | inr not_gpt ↦ elim (Bool-cases (name == bench)) [
    | inl is_bench ↦ benchmark ((eq_iff name bench).0 is_bench) (ground arith) (ground arith)
    | inr not_bench ↦
        let (p, listed, effort, same) = find_family_sound name families m e (ground arith) in
        labelled p listed effort same
  ]
]

abbrev Routes : String × String → Type 0
Routes f = All (λ e. route (f.0 ⋯ e) ≡ some (f.1, e)) efforts

families-Routes : All Routes families
unfolding route
families-Routes = (
  (refl, (refl, (refl, (refl, (refl, tt))))),
  (
    (refl, (refl, (refl, (refl, (refl, tt))))),
    (
      (refl, (refl, (refl, (refl, (refl, tt))))),
      (
        (refl, (refl, (refl, (refl, (refl, tt))))),
        ((refl, (refl, (refl, (refl, (refl, tt))))), tt),
      ),
    ),
  ),
)

route_default : (route gpt ≡ some (sol, "high")) × (route bench ≡ some (luna, "low"))
unfolding route
route_default = (refl, refl)

route_complete : (name m e : String) → Selects name m e → route name ≡ some (m, e)
route_complete name m e (default n p q) = cc route_default.0
route_complete name m e (benchmark n p q) = cc route_default.1
route_complete name m e (labelled prefix f effort n) =
    ap route n
    ∙ All-mem (λ e. route (prefix ⋯ e) ≡ some (m, e)) efforts
        (All-mem Routes families families-Routes f) effort

-- A label routes to a model and an effort exactly when it is the default label, the benchmark's,
-- or a family's prefix followed by one of the five efforts, with that family's model.
pub route_iff : (name m e : String) → (route name ≡ some (m, e)) ↔ Selects name m e
route_iff name m e = (route_sound name m e, route_complete name m e)

mem-append-left {ℓ} : {A : Type ℓ} (xs ys : List A) {a : A} → Memᴰ a xs → Memᴰ a (xs ++ ys)
mem-append-left [] ys m = elim m [ ]
mem-append-left (x ∷ xs) ys (Memᴰ.head e) = Memᴰ.head e
mem-append-left (x ∷ xs) ys (Memᴰ.tail m) = Memᴰ.tail (mem-append-left xs ys m)

mem-append-right {ℓ} : {A : Type ℓ} (xs ys : List A) {a : A} → Memᴰ a ys → Memᴰ a (xs ++ ys)
mem-append-right [] ys m = m
mem-append-right (x ∷ xs) ys m = Memᴰ.tail (mem-append-right xs ys m)

mem-map {ℓ κ} :
    {A : Type ℓ} {B : Type κ} (f : A → B) (xs : List A) {a : A} → Memᴰ a xs → Memᴰ (f a) (map f xs)
mem-map f [] m = elim m [ ]
mem-map f (x ∷ xs) (Memᴰ.head e) = Memᴰ.head (ap f e)
mem-map f (x ∷ xs) (Memᴰ.tail m) = Memᴰ.tail (mem-map f xs m)

collect-cons :
    (o : Option CatalogEntry) (os : List (Option CatalogEntry)) (l : List CatalogEntry)
    → collect (o ∷ os) ≡ some l
    → (e : CatalogEntry) × (r : List CatalogEntry) × (o ≡ some e)
      × (collect os ≡ some r)
      × (l ≡ e ∷ r)
unfolding collect
collect-cons none os l c = ground arith
collect-cons (some e) os l c = elim (Option-cases (collect os)) [
  | inl missing ↦ ground (arith, missing)
  | inr (r, more) ↦ (e, r, refl, more, ground (arith, more))
]

-- What the collected list holds, for what is collected.
collect-mem :
    (os : List (Option CatalogEntry)) (l : List CatalogEntry) {e : CatalogEntry}
    → collect os ≡ some l
    → Memᴰ (some e) os
    → Memᴰ e l
collect-mem [] l c m = elim m [ ]
collect-mem (o ∷ os) l {e} c (Memᴰ.head p) =
    let (first, r, here, more, shape) = collect-cons o os l c in
    subst (λ z. Memᴰ e z) (sym shape) (Memᴰ.head (ground arith))
collect-mem (o ∷ os) l {e} c (Memᴰ.tail m) =
    let (first, r, here, more, shape) = collect-cons o os l c in
    subst (λ z. Memᴰ e z) (sym shape) (Memᴰ.tail (collect-mem os r more m))

family_labels-mem :
    (fs : List (String × String)) (prefix model effort : String)
    → Memᴰ (prefix, model) fs
    → Memᴰ effort efforts
    → Memᴰ (prefix ⋯ effort) (family_labels fs)
unfolding family_labels
family_labels-mem [] prefix model effort f e = elim f [ ]
family_labels-mem ((p, m) ∷ fs) prefix model effort (Memᴰ.head same) e =
    mem-append-left (map (λ x. p ⋯ x) efforts) (family_labels fs) (
      subst (λ (q : String). Memᴰ (q ⋯ effort) (map (λ x. p ⋯ x) efforts))
        (sym (ap (λ (t : String × String). t.0) same)) (mem-map (λ x. p ⋯ x) efforts e))
family_labels-mem ((p, m) ∷ fs) prefix model effort (Memᴰ.tail f) e =
    mem-append-right (map (λ x. p ⋯ x) efforts) (family_labels fs)
      (family_labels-mem fs prefix model effort f e)

catalog_names-mem : (name m e : String) → Selects name m e → name ≢ bench → Memᴰ name catalog_names
unfolding catalog_names
catalog_names-mem name m e (default n _ _) h = Memᴰ.head n
catalog_names-mem name m e (benchmark n _ _) h = absurd (h n)
catalog_names-mem name m e (labelled prefix f effort n) h = Memᴰ.tail (
    subst (λ z. Memᴰ z (family_labels families)) (sym n)
      (family_labels-mem families prefix m e f effort))

abbrev pub Agrees : CatalogEntry → Type 0
Agrees entry =
    (effort : String) × (route entry.name ≡ some (entry.provider_model, effort))
    × (entry.provider_args ≡ args entry.provider_model effort)

catalog_entry-Agrees :
    (name : String) {entry : CatalogEntry} → catalog_entry name ≡ some entry → Agrees entry
unfolding catalog_entry
catalog_entry-Agrees name {entry} h = elim (Option-cases (route name)) [
  | inl missing ↦ ground (arith, missing)
  | inr ((m, e), routed) ↦ (e, ground (arith, routed), ground (arith, routed))
]

collect-Agrees :
    (names : List String) (l : List CatalogEntry)
    → collect (map catalog_entry names) ≡ some l
    → All Agrees l
collect-Agrees [] l c =
    let same : List.[] ≡ l = unfold collect in ground arith in subst (All Agrees) same tt
collect-Agrees (n ∷ names) l c =
    let (first, r, here, more, shape) = collect-cons (catalog_entry n) _ l c in
    subst (All Agrees) (sym shape) (catalog_entry-Agrees n here, collect-Agrees names r more)

abbrev pub entries : List CatalogEntry
entries = unwrap_or catalog []

catalog-eq-entries : catalog ≡ some entries
unfolding catalog route args
catalog-eq-entries = refl

-- Building the catalog does not panic, and each entry's name routes to the entry's model with the
-- effort that its arguments carry.
pub catalog-Agrees : (catalog ≡ some entries) × All Agrees entries
catalog-Agrees =
    (catalog-eq-entries, unfold catalog in collect-Agrees catalog_names entries catalog-eq-entries)

-- Every label that routes, except the benchmark's, has an entry of the catalog with its model and
-- its arguments.
pub catalog_complete :
    (name m e : String)
    → route name ≡ some (m, e)
    → name ≢ bench
    → Memᴰ (record { name = name; provider_model = m; provider_args = args m e }) entries
unfolding catalog catalog_entry
catalog_complete name m e routed h =
    let entry : CatalogEntry = record {
      name = name;
      provider_model = m;
      provider_args = args m e;
    } in
    let built : catalog_entry name ≡ some entry = ground (arith, routed) in
    let listed = catalog_names-mem name m e (route_sound name m e routed) h in
    collect-mem (map catalog_entry catalog_names) entries catalog-eq-entries (
      subst (λ o. Memᴰ o (map catalog_entry catalog_names)) built
        (mem-map catalog_entry catalog_names listed))
