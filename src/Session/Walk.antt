-- ===== src/Session/Walk.antt =====
-- `rollout_paths` of src/session.rs: the walk of an account's directories. What the file system
-- answers is outside the repository; it is one answer for each directory.
pub mod Laws
pub mod Sound
use agent_runner_codex.Prelude.{
  ℕ, zero, suc, ◌+◌, ◌*◌, String, Bool, true, false, ◌&&◌, Bytes, List, [], ◌∷◌, ◌++◌, Option, none,
  some, ltb, eqb, if◌then◌else◌, length, map, bytes, has_prefix, has_suffix,
}
use agent_runner_codex.Prelude.Sorting.{bytes_leb, sort_by}
use agent_runner_codex.Envelope.{ProviderFailure, Result, ok, err, ◌>>=◌, ◌>>◌, refuse_if, internal}
use agent_runner_codex.Account.{join}

abbrev pub max_rollouts : ℕ
max_rollouts = 100000

-- the type of an entry, links not followed
pub data FileType : Type 0 where
  directory regular other : FileType

pub record Entry : Type 0 where
  pub path : String
  pub name : String
  pub file_type : Option FileType

-- `symlink_metadata` of a path
pub data Found : Type 0 where
  not_found unreadable : Found
  found : FileType → Found

-- The answers of the file system. `none` is an `io::Error`, of the listing or of one entry.
pub record Files : Type 0 where
  pub symlink_metadata : String → Found
  pub read_dir : String → Option (List (Option Entry))

-- the order of paths, which is that of their components
path_bytes : Bytes → Bytes
path_bytes = map (λ b. if eqb b b'/' then 0 else suc b)

unfoldable pub path_leb : String → String → Bool
unfolding path_bytes
path_leb p q = bytes_leb (path_bytes (bytes p)) (path_bytes (bytes q))

-- the variables of the walk; the directory that is taken next comes first
pub record Walk : Type 0 where
  pub pending : List String
  pub visited : ℕ
  pub paths : List String

abbrev pub is_rollout_name : String → Bool
is_rollout_name name = has_prefix name "rollout-" && has_suffix name ".jsonl"

-- A round for each directory: the two that are given, and those among the visited entries.
unfoldable pub walk_fuel : ℕ
walk_fuel = 3 + max_rollouts * 4

abbrev pub at_start : String → Walk
at_start root = record {
  pending = join root "archived_sessions" ∷ join root "sessions" ∷ [];
  visited = 0;
  paths = [];
}

abbrev with_visited : Walk → ℕ → Walk
with_visited w n = record { pending = w.pending; visited = n; paths = w.paths }

abbrev pub taken : Walk → List String → Walk
taken w pending = record { pending = pending; visited = w.visited; paths = w.paths }

-- `paths.sort()` where the walk succeeded
unfoldable pub in_order : Option (Result (List String)) → Option (Result (List String))
unfolding path_leb
in_order none = none
in_order (some (err e)) = some (err e)
in_order (some (ok paths)) = some (ok (sort_by path_leb paths))

module _ (request_id : String) where
  abbrev pub io_failure : ProviderFailure
  io_failure =
      internal request_id "codex_rollout_io"
        "Could not read the selected Codex account's rollout files"

  abbrev over_capacity : String → ProviderFailure
  over_capacity message = internal request_id "codex_rollout_capacity" message

  -- an entry whose type is known
  unfoldable pub on_entry : Walk → Entry → FileType → Result Walk
  on_entry w entry directory =
      ok (record { pending = entry.path ∷ w.pending; visited = w.visited; paths = w.paths })
  on_entry w entry regular =
      if is_rollout_name entry.name
      then (do
        refuse_if (ltb max_rollouts (suc (length w.paths)))
            (over_capacity "Codex account exceeds the rollout capacity")
        ok (record {
          pending = w.pending;
          visited = w.visited;
          paths = w.paths ++ (entry.path ∷ []);
        }))
      else ok w
  on_entry w entry other = ok w

  -- one round of the loop over the entries
  unfoldable pub visit : Walk → Option Entry → Result Walk
  unfolding on_entry
  visit w none = err io_failure
  visit w (some entry) = elim entry.file_type [
    | none ↦ err io_failure
    | some file_type ↦ (do
      refuse_if (ltb (max_rollouts * 4) (suc w.visited))
          (over_capacity "Codex rollout directory exceeds the scan capacity")
      on_entry (with_visited w (suc w.visited)) entry file_type)
  ]

  unfoldable pub visit_all : Walk → List (Option Entry) → Result Walk
  unfolding visit
  visit_all w [] = ok w
  visit_all w (entry ∷ entries) = visit w entry >>= λ w'. visit_all w' entries

  module _ (files : Files) where
    -- one directory that was taken from those pending
    unfoldable pub enter : Walk → String → Result Walk
    unfolding visit_all
    enter w path = elim (files.symlink_metadata path) [
      | not_found ↦ ok w
      | unreadable ↦ err io_failure
      | found directory ↦ elim (files.read_dir path) [
        | none ↦ err io_failure
        | some entries ↦ visit_all w entries
      ]
      | found regular ↦ ok w
      | found other ↦ ok w
    ]

    -- The loop over the pending directories. `none` is a loop that ran out of fuel.
    unfoldable pub walk : ℕ → Walk → Option (Result (List String))
    unfolding enter
    walk zero w = none
    walk (suc fuel) w = elim w.pending [
      | [] ↦ some (ok w.paths)
      | path ∷ pending ↦ elim (enter (taken w pending) path) [
        | err e ↦ some (err e)
        | ok w' ↦ walk fuel w'
      ]
    ]

    unfoldable pub rollout_paths : String → Option (Result (List String))
    unfolding walk walk_fuel
    rollout_paths root = in_order (walk walk_fuel (at_start root))
