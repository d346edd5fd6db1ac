-- ===== src/Session/Locate.antt =====
-- `locate` and `locate_page_source` of src/session.rs.
pub mod Laws
use agent_runner_codex.Prelude.{
  ℕ, zero, suc, ◌+◌, ◌-◌, ◌≤◌, ◌≡◌, refl, ap, sym, subst, ◌∙◌, ◌⊎◌, inl, inr, String, Bool, true,
  false, not, ◌||◌, ◌&&◌, ◌==◌, ◌⋯◌, Bytes, List, [], ◌∷◌, ◌++◌, Option, none, some, ltb, eqb,
  if◌then◌else◌, length, is_empty, is_some, has_suffix, arith, Bool-cases, Option-cases,
}
use agent_runner_codex.Json.{Value}
use agent_runner_codex.Envelope.{
  ProviderFailure, Result, ok, err, ◌>>=◌, ◌>>◌, ok_or, refuse_if, invalid_request, conflict,
  empty_object, >>=-eq-ok, refuse_if-eq-ok, ok_or-eq-ok, Result-cases,
}
use agent_runner_codex.Pages.Types.{Stamp}
use agent_runner_codex.Pages.Pack.{read_frame, ends_newline}
use agent_runner_codex.Session.{RolloutFile, RolloutMeta, corrupt, not_found, metadata, parse_meta}

-- the names that Codex gives to a session's rollout
abbrev rollout_suffix : String → String
rollout_suffix id = "-" ⋯ id ⋯ ".jsonl"

abbrev pub keep {ℓ} : {A : Type ℓ} → (A → Bool) → List A → List A
keep test [] = []
keep test (x ∷ xs) = let rest = keep test xs in if test x then x ∷ rest else rest

-- a file that has the identity that is asked for, if one is
abbrev pub is_source : Option (ℕ × ℕ) → RolloutFile → Bool
is_source none f = true
is_source (some (device, inode)) f = eqb f.stamp.device device && eqb f.stamp.inode inode

module _ (parse_json : Bytes → Option Value) (timestamp_ms : Option String → Option ℕ)
    (request_id : String) (id : String) where
  abbrev ambiguous : String → ProviderFailure
  ambiguous message = conflict request_id "codex_session_ambiguous" message empty_object

  abbrev too_small : String → ProviderFailure
  too_small message = invalid_request request_id "session_turn_page_budget_too_small" message

  -- The loop of `locate`, with the path found so far.
  unfoldable pub locate_from : Option String → List RolloutFile → Result (Option String)
  unfolding metadata
  locate_from found [] = ok found
  locate_from found (file ∷ files) =
      let skipped = locate_from found files in
      let taken = locate_from (some file.path) files in
      elim (metadata request_id parse_json timestamp_ms file) [
        | err e ↦ if has_suffix file.name (rollout_suffix id) then err e else skipped
        | ok meta ↦
            if meta.id == id
            then (if is_some found
                then err (ambiguous "More than one rollout claims this Codex session")
                else taken)
            else skipped
      ]

  unfoldable pub locate : List RolloutFile → Result (Option String)
  unfolding locate_from
  locate files = locate_from none files

  -- the first record of a rollout, read with what is left of the budget
  unfoldable pub read_identity : ℕ → RolloutFile → Result (ℕ × RolloutMeta)
  unfolding parse_meta
  read_identity remaining file = do
    refuse_if (eqb remaining 0) (too_small "Source budget cannot admit rollout identity metadata")
    let first = (read_frame remaining file.content).0
    refuse_if (not (ends_newline first))
        (too_small "Source budget cannot admit the complete rollout identity record")
    value ← ok_or (parse_json first) (corrupt request_id)
    meta ← parse_meta request_id parse_json timestamp_ms value
    ok (length first, meta)

  -- The loop of `locate_page_source`: the bytes examined and the file found so far. A file that is
  -- asked for by its identity ends it.
  unfoldable pub page_source_from :
      Option (ℕ × ℕ)
      → ℕ
      → ℕ
      → Option (RolloutFile × ℕ)
      → List RolloutFile
      → Result (Option (RolloutFile × ℕ) × ℕ)
  unfolding read_identity
  page_source_from identity maximum examined found [] = ok (found, examined)
  page_source_from identity maximum examined found (file ∷ files) =
      let skipped = page_source_from identity maximum examined found files in
      let read = (do
        first ← read_identity (maximum - examined) file
        let examined' = examined + first.0
        let passed = page_source_from identity maximum examined' found files
        let taken = page_source_from identity maximum examined' (some (file, first.0)) files
        if first.1.id == id
            then (do
              refuse_if (is_some found)
                  (ambiguous "More than one native rollout claims this session")
              if is_some identity then ok (some (file, first.0), examined') else taken)
            else passed) in
      if is_source identity file then read else skipped

  -- The files whose first record is read.
  abbrev pub candidates : Option (ℕ × ℕ) → List RolloutFile → List RolloutFile
  candidates identity files =
      let named = keep (λ f. has_suffix f.name (rollout_suffix id)) files in
      if is_some identity || is_empty named then files else named

  -- `locate_page_source`: the file, the bytes examined, and where its first record ends
  unfoldable pub locate_page_source :
      Option (ℕ × ℕ) → ℕ → List RolloutFile → Result (RolloutFile × ℕ × ℕ)
  unfolding page_source_from
  locate_page_source identity maximum files = do
    seen ← page_source_from identity maximum 0 none (candidates identity files)
    found ← ok_or seen.0 (not_found request_id)
    ok (found.0, seen.1, found.1)
