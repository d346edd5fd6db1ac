-- ===== src/Json/Assoc.antt =====
-- Maps with text keys, as association lists whose first entry for a key counts.
use agent_runner_codex.Prelude.{String, Option, none, some, List, [], ◌∷◌, ◌==◌, if◌then◌else◌}

-- `get` of a map
unfoldable pub lookup {ℓ} : {V : Type ℓ} → String → List (String × V) → Option V
lookup name [] = none
lookup name ((key, value) ∷ entries) =
    let later = lookup name entries in if key == name then some value else later
