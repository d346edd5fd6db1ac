-- ===== src/Account/Components.antt =====
-- `Path::components` on Unix, by which paths are compared.
use Prim.Native.Char.{Char, code}
use Prim.Native.String.{String}
use agent_runner_codex.Prelude.{◌||◌, ◌==◌, List, [], ◌∷◌, eqb, if◌then◌else◌, str_empty}

abbrev first_name : Char → List String → List String
first_name c [] = String.◌∷◌ c "" ∷ []
first_name c (name ∷ names) = String.◌∷◌ c name ∷ names

-- the names between the separators
unfoldable names : String → List String
names String.[] = "" ∷ []
names (String.◌∷◌ c s) =
    let rest = names s in if eqb (code c) b'/' then "" ∷ rest else first_name c rest

-- an empty name and `.` are no components, but for the first
proper : List String → List String
proper [] = []
proper (name ∷ names) =
    let rest = proper names in if str_empty name || name == "." then rest else name ∷ rest

from_first : String → List String → List String
unfolding proper
from_first path [] = []
from_first path (first ∷ names) =
    if str_empty path
    then []
    else if str_empty first
    then "/" ∷ proper names
    else first ∷ proper names

unfoldable pub components : String → List String
unfolding from_first names
components path = from_first path (names path)
