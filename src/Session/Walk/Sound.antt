-- ===== src/Session/Walk/Sound.antt =====
-- Which files the walk finds.
use agent_runner_codex.Prelude.{
  ℕ, zero, suc, ◌≤◌, ◌≡◌, refl, subst, inl, inr, String, true, List, [], ◌∷◌, ◌++◌, Option, none,
  some, length, length-append, Memᴰ, arith, Bool-cases, Option-cases, All, All-append,
}
use agent_runner_codex.Prelude.Sorting.{length-sort_by, sort_by, sort_by-All}
use agent_runner_codex.Envelope.{Result, ok, err, Result-cases}
use agent_runner_codex.Account.{join}
use agent_runner_codex.Session.Walk.{
  Entry, directory, regular, other, Files, Found, at_start, not_found, unreadable, found, Walk,
  at_start, enter, in_order, is_rollout_name, max_rollouts, on_entry, path_leb, rollout_paths,
  taken, visit, visit_all, walk, walk_fuel,
}

module _ (request_id : String) (files : Files) (root : String) where
  abbrev IsListing : String → List (Option Entry) → Type 0
  IsListing path entries =
      (files.symlink_metadata path ≡ found directory) × (files.read_dir path ≡ some entries)

  -- A directory of the account that is reached through directories only, never through a link.
  pub data IsBelow : String → Type 0 where
    sessions : IsBelow (join root "sessions")
    archived : IsBelow (join root "archived_sessions")
    child :
        (path : String) (entries : List (Option Entry)) (entry : Entry)
        → IsBelow path
        → IsListing path entries
        → Memᴰ (some entry) entries
        → entry.file_type ≡ some directory
        → IsBelow entry.path

  -- a regular file with a rollout's name in such a directory
  abbrev pub IsRollout : String → Type 0
  IsRollout path =
      (parent : String) × (entries : List (Option Entry)) × (entry : Entry) × (IsBelow parent)
      × (IsListing parent entries)
      × (Memᴰ (some entry) entries)
      × (entry.file_type ≡ some regular)
      × (is_rollout_name entry.name ≡ true)
      × (path ≡ entry.path)

  record IsInside (w : Walk) : Type 0 where
    below : All IsBelow w.pending
    rollouts : All IsRollout w.paths
    bounded : length w.paths ≤ max_rollouts

  unchanged : (w w' : Walk) → w.pending ≡ w'.pending → w.paths ≡ w'.paths → IsInside w → IsInside w'
  unchanged w w' p q inside = record {
    below = subst (All IsBelow) p inside.below;
    rollouts = subst (All IsRollout) q inside.rollouts;
    bounded = subst (λ l. length l ≤ max_rollouts) q inside.bounded;
  }

  visit-IsInside :
      (path : String) (entries : List (Option Entry))
      → IsBelow path
      → IsListing path entries
      → (w : Walk) (entry : Option Entry) (w' : Walk) → Memᴰ entry entries
      → visit request_id w entry ≡ ok w'
      → IsInside w
      → IsInside w'
  unfolding visit on_entry
  visit-IsInside path entries here listing w none w' listed h inside = absurd (ground arith)
  visit-IsInside path entries here listing w (some entry) w' listed h inside =
      elim (Option-cases entry.file_type) [
        | inl missing ↦ absurd (ground (arith, missing))
        | inr (directory, known) ↦
            let p : entry.path ∷ w.pending ≡ w'.pending = ground (arith, known) in
            let q : w.paths ≡ w'.paths = ground (arith, known) in
            record {
              below =
                  subst (All IsBelow) p
                    (child path entries entry here listing listed known, inside.below);
              rollouts = subst (All IsRollout) q inside.rollouts;
              bounded = subst (λ l. length l ≤ max_rollouts) q inside.bounded;
            }
        | inr (other, known) ↦ unchanged w w' (ground (arith, known)) (ground (arith, known)) inside
        | inr (regular, known) ↦ elim (Bool-cases (is_rollout_name entry.name)) [
          | inr foreign ↦
              unchanged w w' (ground (arith, known, foreign)) (ground (arith, known, foreign))
                inside
          | inl named ↦
              let p : w.pending ≡ w'.pending = ground (arith, known, named) in
              let q : w.paths ++ (entry.path ∷ []) ≡ w'.paths = ground (arith, known, named) in
              let few : suc (length w.paths) ≤ max_rollouts = ground (arith, known, named) in
              record {
                below = subst (All IsBelow) p inside.below;
                rollouts = subst (All IsRollout) q (
                    All-append IsRollout w.paths (entry.path ∷ []) inside.rollouts
                      ((path, entries, entry, here, listing, listed, known, named, refl), tt));
                bounded =
                    subst (λ l. length l ≤ max_rollouts) q
                      (omega (arith, length-append w.paths (entry.path ∷ [])));
              }
        ]
      ]

  visit_all-IsInside :
      (path : String) (entries : List (Option Entry))
      → IsBelow path
      → IsListing path entries
      → (w : Walk) (rest : List (Option Entry)) (w' : Walk)
      → ((e : Option Entry) → Memᴰ e rest → Memᴰ e entries)
      → visit_all request_id w rest ≡ ok w'
      → IsInside w
      → IsInside w'
  unfolding visit_all
  visit_all-IsInside path entries here listing w [] w' listed h inside =
      let same : w ≡ w' = ground arith in subst IsInside same inside
  visit_all-IsInside path entries here listing w (entry ∷ rest) w' listed h inside =
      elim (Result-cases (visit request_id w entry)) [
        | inr (e, failed) ↦ absurd (ground (arith, failed))
        | inl (w1, done) ↦
            visit_all-IsInside path entries here listing w1 rest w' (λ e m. listed e (Memᴰ.tail m))
              (ground (arith, done))
              (visit-IsInside path entries here listing w entry w1 (listed entry (Memᴰ.head refl))
                done inside)
      ]

  enter-IsInside :
      (w : Walk) (path : String) (w' : Walk)
      → enter request_id files w path ≡ ok w'
      → IsBelow path
      → IsInside w
      → IsInside w'
  unfolding enter
  enter-IsInside w path w' h here inside = enter_as (files.symlink_metadata path) refl
    where
      stay : ok w ≡ ok w' → IsInside w'
      stay e = let same : w ≡ w' = ground arith in subst IsInside same inside

      enter_as : (f : Found) → files.symlink_metadata path ≡ f → IsInside w'
      enter_as not_found e = stay (ground (arith, e))
      enter_as unreadable e = absurd (ground (arith, e))
      enter_as (found regular) e = stay (ground (arith, e))
      enter_as (found other) e = stay (ground (arith, e))
      enter_as (found directory) e = elim (Option-cases (files.read_dir path)) [
        | inl failed ↦ absurd (ground (arith, e, failed))
        | inr (entries, listed) ↦
            visit_all-IsInside path entries here (e, listed) w entries w' (λ x m. m)
              (ground (arith, e, listed)) inside
      ]

  walk-IsRollout :
      (fuel : ℕ) (w : Walk) (paths : List String)
      → walk request_id files fuel w ≡ some (ok paths)
      → IsInside w
      → All IsRollout paths × (length paths ≤ max_rollouts)
  unfolding walk
  walk-IsRollout zero w paths h inside = absurd (ground arith)
  walk-IsRollout (suc fuel) w paths h inside =
      walk_from w.pending refl λ w' rest fit. walk-IsRollout fuel w' paths rest fit
    where
      walk_from :
          (pending : List String)
          → w.pending ≡ pending
          → ((w' : Walk)
              → walk request_id files fuel w' ≡ some (ok paths)
              → IsInside w'
              → All IsRollout paths × (length paths ≤ max_rollouts))
          → All IsRollout paths × (length paths ≤ max_rollouts)
      walk_from [] e again =
          let same : w.paths ≡ paths = ground (arith, e) in
          (
            subst (All IsRollout) same inside.rollouts,
            subst (λ l. length l ≤ max_rollouts) same inside.bounded,
          )
      walk_from (path ∷ pending) e again =
          let below : All IsBelow (path ∷ pending) = subst (All IsBelow) e inside.below in
          let left : IsInside (taken w pending) = record {
            below = below.1;
            rollouts = inside.rollouts;
            bounded = inside.bounded;
          } in
          elim (Result-cases (enter request_id files (taken w pending) path)) [
            | inr (failure, failed) ↦ absurd (ground (arith, e, failed))
            | inl (w', done) ↦
                again w' (ground (arith, e, done))
                  (enter-IsInside (taken w pending) path w' done below.0 left)
          ]

  -- Every path that is found is a regular file's with a rollout's name, in a directory that is reached
  -- from the account's two through directories only, never through a link, and there are at most
  -- 100000 of them.
  pub rollout_paths-IsRollout :
      (paths : List String)
      → rollout_paths request_id files root ≡ some (ok paths)
      → All IsRollout paths × (length paths ≤ max_rollouts)
  unfolding rollout_paths in_order
  rollout_paths-IsRollout paths h =
      in_order_lem (walk request_id files walk_fuel (at_start root)) refl h
    where
      begins : IsInside (at_start root)
      begins = record { below = (archived, (sessions, tt)); rollouts = tt; bounded = omega arith }

      in_order_lem :
          (o : Option (Result (List String)))
          → walk request_id files walk_fuel (at_start root) ≡ o
          → in_order o ≡ some (ok paths)
          → All IsRollout paths × (length paths ≤ max_rollouts)
      in_order_lem none e k = absurd (ground arith)
      in_order_lem (some (err failure)) e k = absurd (ground arith)
      in_order_lem (some (ok walked)) e k =
          let (rollouts, few) = walk-IsRollout walk_fuel (at_start root) walked e begins in
          let same : sort_by path_leb walked ≡ paths = ground arith in
          (
            subst (All IsRollout) same (sort_by-All path_leb IsRollout walked rollouts),
            subst (λ l. length l ≤ max_rollouts) same
                (omega (arith, few, length-sort_by path_leb walked)),
          )
