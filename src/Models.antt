-- ===== src/Models.antt =====
-- src/models.rs: labels, their native model and effort, and the catalog.
pub mod Laws
use agent_runner_codex.Prelude.{
  String, Bool, Option, none, some, List, [], ◌∷◌, ◌++◌, map, ◌==◌, ◌⋯◌, strip_prefix,
  if◌then◌else◌, or_else,
}

abbrev pub astra : String
astra = "gpt-6-astra"

abbrev pub luna : String
luna = "gpt-6-luna"

abbrev pub terra : String
terra = "gpt-5.6-terra"

abbrev pub sol : String
sol = "gpt-6.1-sol"

abbrev pub efforts : List String
efforts = "low" ∷ "medium" ∷ "high" ∷ "xhigh" ∷ "max" ∷ []

abbrev pub bench : String
bench = "codex-exec-bench"

abbrev pub gpt : String
gpt = "gpt"

abbrev pub families : List (String × String)
families =
    ("gpt-", sol)
    ∷ ("gpt-astra-", astra)
    ∷ ("gpt-luna-", luna)
    ∷ ("gpt-terra-", terra)
    ∷ ("gpt-sol-", sol)
    ∷ []

-- `EFFORTS.iter().find(|value| **value == effort)`
find_effort : String → List String → Option String
find_effort effort [] = none
find_effort effort (e ∷ es) = if e == effort then some e else find_effort effort es

abbrev with_model : String → Option String → Option (String × String)
with_model model none = none
with_model model (some effort) = some (model, effort)

abbrev known_effort : Option String → Option String
known_effort none = none
known_effort (some effort) = find_effort effort efforts

native_route : String → String → String → Option (String × String)
unfolding find_effort
native_route name prefix model = with_model model (known_effort (strip_prefix name prefix))

-- `FAMILIES.iter().find_map(…)`
find_family : String → List (String × String) → Option (String × String)
find_family name [] = none
find_family name ((prefix, model) ∷ fs) =
    or_else (native_route name prefix model) (find_family name fs)

unfoldable pub route : String → Option (String × String)
unfolding find_family native_route strip_prefix
route name =
    if name == gpt
    then some (sol, "high")
    else if name == bench
    then some (luna, "low")
    else find_family name families

unfoldable pub args : String → String → List String
args model effort = "-m" ∷ model ∷ "-c" ∷ ("model_reasoning_effort=\"" ⋯ effort ⋯ "\"") ∷ []

-- the JSON entry's fields; `eligible_accounts` is `account::ACCOUNTS` for every entry
pub record CatalogEntry : Type 0 where
  pub name : String
  pub provider_model : String
  pub provider_args : List String

-- `none` is the panic of `expect`
catalog_entry : String → Option CatalogEntry
catalog_entry name = elim (route name) [
  | none ↦ none
  | some r ↦ some (record { name = name; provider_model = r.0; provider_args = args r.0 r.1 })
]

family_labels : List (String × String) → List String
family_labels [] = []
family_labels ((prefix, model) ∷ fs) = map (λ effort. prefix ⋯ effort) efforts ++ family_labels fs

catalog_names : List String
unfolding family_labels
catalog_names = gpt ∷ family_labels families

collect : List (Option CatalogEntry) → Option (List CatalogEntry)
collect [] = some []
collect (none ∷ es) = none
collect (some e ∷ es) = elim (collect es) [ none ↦ none | some rest ↦ some (e ∷ rest) ]

unfoldable pub catalog : Option (List CatalogEntry)
unfolding collect catalog_entry catalog_names
catalog = collect (map catalog_entry catalog_names)
