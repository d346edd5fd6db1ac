-- ===== src/Session/Walk/Laws.antt =====
-- What the walk finds, and that it ends.
use agent_runner_codex.Prelude.{
  ℕ, zero, suc, ◌+◌, ◌-◌, ◌*◌, ◌≤◌, ◌<◌, ◌≡◌, refl, ap, subst, inl, inr, String, true, List, [],
  ◌∷◌, Option, none, some, length, is_some, arith, Option-cases,
}
use agent_runner_codex.Envelope.{Result, ok, err, Result-cases}
use agent_runner_codex.Session.Walk.{
  Entry, in_order, directory, regular, other, Files, Found, not_found, unreadable, found, Walk,
  at_start, enter, max_rollouts, on_entry, rollout_paths, visit, visit_all, walk, taken, walk_fuel,
}

abbrev cap : ℕ
cap = max_rollouts * 4

-- Directories are added no faster than entries are counted, and those are counted up to the capacity.
abbrev IsPaced : Walk → Walk → Type 0
IsPaced w w' = (length w'.pending + w.visited ≤ length w.pending + w'.visited) × (w'.visited ≤ cap)

module _ (request_id : String) where
  visit-IsPaced :
      (w : Walk) (entry : Option Entry) (w' : Walk)
      → visit request_id w entry ≡ ok w'
      → IsPaced w w'
  unfolding visit on_entry
  visit-IsPaced w none w' h = absurd (ground arith)
  visit-IsPaced w (some entry) w' h = elim (Option-cases entry.file_type) [
    | inl missing ↦ absurd (ground (arith, missing))
    | inr (directory, known) ↦ ground (arith, known)
    | inr (other, known) ↦ ground (arith, known)
    | inr (regular, known) ↦ ground (arith, known)
  ]

  visit_all-IsPaced :
      (w : Walk) (entries : List (Option Entry)) (w' : Walk)
      → visit_all request_id w entries ≡ ok w'
      → w.visited ≤ cap
      → IsPaced w w'
  unfolding visit_all
  visit_all-IsPaced w [] w' h within =
      let same : w ≡ w' = ground arith in subst (IsPaced w) same (omega arith, within)
  visit_all-IsPaced w (entry ∷ entries) w' h within =
      elim (Result-cases (visit request_id w entry)) [
        | inr (e, failed) ↦ absurd (ground (arith, failed))
        | inl (w1, done) ↦
            let first = visit-IsPaced w entry w1 done in
            let later = visit_all-IsPaced w1 entries w' (ground (arith, done)) first.1 in
            (omega (arith, first.0, later.0), later.1)
      ]

  module _ (files : Files) where
    enter-IsPaced :
        (w : Walk) (path : String) (w' : Walk)
        → enter request_id files w path ≡ ok w'
        → w.visited ≤ cap
        → IsPaced w w'
    unfolding enter
    enter-IsPaced w path w' h within = enter_as (files.symlink_metadata path) refl
      where
        stay : ok w ≡ ok w' → IsPaced w w'
        stay e = let same : w ≡ w' = ground arith in subst (IsPaced w) same (omega arith, within)

        enter_as : (f : Found) → files.symlink_metadata path ≡ f → IsPaced w w'
        enter_as not_found e = stay (ground (arith, e))
        enter_as unreadable e = absurd (ground (arith, e))
        enter_as (found regular) e = stay (ground (arith, e))
        enter_as (found other) e = stay (ground (arith, e))
        enter_as (found directory) e = elim (Option-cases (files.read_dir path)) [
          | inl failed ↦ absurd (ground (arith, e, failed))
          | inr (entries, listed) ↦
              visit_all-IsPaced w entries w' (ground (arith, e, listed)) within
        ]

    walk_ends :
        (fuel : ℕ) (w : Walk)
        → w.visited ≤ cap
        → length w.pending + (cap - w.visited) < fuel
        → is_some (walk request_id files fuel w) ≡ true
    unfolding walk
    walk_ends zero w within enough = elim enough [ ]
    walk_ends (suc fuel) w within enough =
        walk_from w.pending refl λ w' bounded less. walk_ends fuel w' bounded less
      where
        walk_from :
            (pending : List String)
            → w.pending ≡ pending
            → ((w' : Walk)
                → w'.visited ≤ cap
                → length w'.pending + (cap - w'.visited) < fuel
                → is_some (walk request_id files fuel w') ≡ true)
            → is_some (walk request_id files (suc fuel) w) ≡ true
        walk_from [] e again = rw e
        walk_from (path ∷ pending) e again =
            elim (Result-cases (enter request_id files (taken w pending) path)) [
              | inr (failure, failed) ↦ ground (arith, e, failed)
              | inl (w', done) ↦
                  let paced = enter-IsPaced (taken w pending) path w' done within in
                  let later = again w' paced.1 (omega (arith, ap length e, paced.0)) in
                  ground (arith, e, done)
            ]

    in_order-is_some :
        (o : Option (Result (List String))) → is_some o ≡ true → is_some (in_order o) ≡ true
    unfolding in_order
    in_order-is_some none h = h
    in_order-is_some (some (err e)) h = refl
    in_order-is_some (some (ok paths)) h = refl

    -- The walk ends, whatever the file system answers.
    pub rollout_paths_ends : (root : String) → is_some (rollout_paths request_id files root) ≡ true
    unfolding rollout_paths walk_fuel
    rollout_paths_ends root =
        in_order-is_some (walk request_id files walk_fuel (at_start root))
          (walk_ends walk_fuel (at_start root) (omega arith) (omega arith))
