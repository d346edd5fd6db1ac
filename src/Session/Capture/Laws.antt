-- ===== src/Session/Capture/Laws.antt =====
-- Which session a capture gives.
use agent_runner_codex.Prelude.{
  ◌≡◌, ◌⊎◌, refl, ap, sym, ◌∙◌, subst, inl, inr, String, Bool, true, not, ◌==◌, eq_iff, Bytes, List,
  [], ◌∷◌, Option, none, some, arith, Bool-cases, Option-cases, All, is_some, keep_if, str_empty,
}
use agent_runner_codex.Json.{Value, str, as_str, at, get, get_field, is_null, pointer}
use agent_runner_codex.Envelope.{
  HostContext, Result, ok, >>=-eq-ok, ok_injective, ok_or, ok_or-eq-ok, refuse_if-eq-ok,
  Result-cases,
}
use agent_runner_codex.Session.{RolloutFile, invalid, not_found, validate_session_id}
use agent_runner_codex.Session.Locate.{locate}
use agent_runner_codex.Session.Rollout.{Calendar, Rollout, read_rollout, timestamp_ms}
use agent_runner_codex.Session.Capture.{
  candidates, capture, capture_of, capture_selected, captured, no_capture, check_live, check_report,
  select,
}

abbrev present : Option Value → Option Value
present = keep_if (λ v. not (is_null v))

-- Where the request names a session in one of the places, it is the one selected.
abbrev pub Agrees : Value → Option String → List String × String → Type 0
Agrees params selected (keys, source) =
    (v : Value)
    → present (pointer params keys) ≡ some v
    → (id : String) × (selected ≡ some id) × (v ≡ str id)

abbrev name_of : Option (String × String) → Option String
name_of none = none
name_of (some (id, source)) = some id

-- what was selected stays selected
abbrev IsKept : Option (String × String) → Option (String × String) → Type 0
IsKept selected chosen = is_some selected ≡ true → chosen ≡ selected

as_str_lem : (v : Value) (s : String) → as_str v ≡ some s → v ≡ str s
as_str_lem (str t) s h = ground arith
as_str_lem _ s h = absurd (ground arith)

keep_if_lem {ℓ} :
    {A : Type ℓ} (p : A → Bool) (o : Option A) (a : A) → keep_if p o ≡ some a → o ≡ some a
keep_if_lem p none a h = absurd (ground arith)
keep_if_lem p (some b) a h = elim (Bool-cases (p b)) [
  | inl yes_kept ↦ ground (arith, yes_kept)
  | inr dropped ↦ absurd (ground (arith, dropped))
]

module _ (request_id : String) where
  -- a place that was read, and the places after it
  agree_with :
      (params : Value) (keys : List String) (source : String) (places : List (List String × String))
      (value : Value) (id : String) (chosen : Option (String × String)) (first : String × String)
      → present (pointer params keys) ≡ some value
      → keep_if (λ s. not (str_empty s)) (as_str value) ≡ some id
      → first.0 ≡ id
      → IsKept (some first) chosen
      → All (Agrees params (name_of chosen)) places
      → All (Agrees params (name_of chosen)) ((keys, source) ∷ places)
  agree_with params keys source places value id chosen first given text same kept rest =
      let spelled =
        as_str_lem value id (keep_if_lem (λ s. not (str_empty s)) (as_str value) id text) in
      (
        λ v named.
            let it : value ≡ v = ground (arith, given, named) in
            (id, ap name_of (kept refl) ∙ ap some same, sym it ∙ spelled),
        rest,
      )

  select-Agrees :
      (params : Value) (selected : Option (String × String)) (places : List (List String × String))
      (chosen : Option (String × String))
      → select request_id params selected places ≡ ok chosen
      → IsKept selected chosen × All (Agrees params (name_of chosen)) places
  unfolding select
  select-Agrees params selected [] chosen h = (λ some_id. ground arith, tt)
  select-Agrees params selected ((keys, source) ∷ places) chosen h =
      elim (Option-cases (present (pointer params keys))) [
        | inl absent ↦
            let (kept, rest) =
              select-Agrees params selected places chosen (ground (arith, absent)) in
            (kept, (λ v named. absurd (ground (arith, absent, named)), rest))
        | inr (value, given) ↦
            elim (Option-cases (keep_if (λ s. not (str_empty s)) (as_str value))) [
              | inl wrong ↦ absurd (ground (arith, given, wrong))
              | inr (id, text) ↦ elim (Result-cases (validate_session_id request_id id)) [
                | inr (e, bad) ↦ absurd (ground (arith, given, text, bad))
                | inl (done, valid) ↦ elim (Option-cases selected) [
                  | inl new ↦
                      let (kept, rest) =
                        select-Agrees params (some (id, source)) places chosen
                          (ground (arith, given, text, valid, new)) in
                      (
                        λ some_id. absurd (ground (arith, new, some_id)),
                        agree_with params keys source places value id chosen (id, source) given text
                            refl kept rest,
                      )
                  | inr (first, old) ↦ elim (Bool-cases (first.0 == id)) [
                    | inr other ↦ absurd (ground (arith, given, text, valid, old, other))
                    | inl same ↦
                        let (kept, rest) =
                          select-Agrees params (some first) places chosen
                            (ground (arith, given, text, valid, old, same)) in
                        (
                          λ some_id. kept refl ∙ sym old,
                          agree_with params keys source places value id chosen first given text
                              ((eq_iff first.0 id).0 same) kept rest,
                        )
                  ]
                ]
              ]
            ]
      ]

module _ (calendar : Calendar) (parse_json : Bytes → Option Value) (request_id : String) where
  -- A capture with an identity: the rollout it was read from, which passed the checks on a live report.
  abbrev pub IsCapture :
      Value
      → HostContext
      → Result (List RolloutFile)
      → (String → RolloutFile)
      → String × String
      → Value
      → Type 0
  IsCapture params host listing opened (id, source) answer =
      (files : List RolloutFile) × (path : String) × (rollout : Rollout) × (listing ≡ ok files)
      × (locate parse_json (timestamp_ms calendar) request_id id files ≡ ok (some path))
      × (read_rollout calendar parse_json request_id (opened path) (some id) ≡ ok rollout)
      × (check_live request_id params host rollout ≡ ok tt)
      × (answer ≡ capture_of id source path rollout)

  captured-IsCapture :
      (params : Value) (host : HostContext) (listing : Result (List RolloutFile))
      (opened : String → RolloutFile) (chosen : String × String) (answer : Value)
      → captured calendar parse_json request_id params host listing opened chosen ≡ ok answer
      → IsCapture params host listing opened chosen answer
  unfolding captured
  captured-IsCapture params host listing opened (id, source) answer h =
      let (files, listed, h1) = >>=-eq-ok listing _ h in
      let (located, searched, h2) =
        >>=-eq-ok (locate parse_json (timestamp_ms calendar) request_id id files) _ h1 in
      let (path, found, h3) = >>=-eq-ok (ok_or located (not_found request_id)) _ h2 in
      let (rollout, read, h4) =
        >>=-eq-ok (read_rollout calendar parse_json request_id (opened path) (some id)) _ h3 in
      let (done, checked, h5) = >>=-eq-ok (check_live request_id params host rollout) _ h4 in
      let there = ok_or-eq-ok located (not_found request_id) found in
      (
        files,
        path,
        rollout,
        listed,
        searched ∙ ap ok there,
        read,
        checked,
        sym (ok_injective (capture_of id source path rollout) answer h5),
      )

  -- What a capture answers: nothing was selected, or a rollout with the identity that was.
  abbrev pub IsAnswer :
      Value
      → HostContext
      → (String → Result (List RolloutFile))
      → (String → RolloutFile)
      → Value
      → Type 0
  IsAnswer params host listing opened answer =
      (answer ≡ no_capture)
      ⊎ ((root : String) × (chosen : String × String) × IsCapture params host (listing root) opened
            chosen answer)

  capture_selected_lem :
      (params : Value) (host : HostContext) (listing : String → Result (List RolloutFile))
      (root : String) (opened : String → RolloutFile) (selected : Option (String × String))
      (answer : Value)
      → capture_selected calendar parse_json request_id params host (listing root) opened selected
        ≡ ok answer
      → All (Agrees params (name_of selected)) candidates
      → All (Agrees params (as_str (at answer "provider_session_id"))) candidates
        × IsAnswer params host listing opened answer
  unfolding capture_selected at get get_field
  capture_selected_lem params host listing root opened none answer h all =
      let empty : no_capture ≡ answer = ok_injective no_capture answer h in
      (
        subst (λ a. All (Agrees params (as_str (at a "provider_session_id"))) candidates) empty all,
        inl (sym empty),
      )
  capture_selected_lem params host listing root opened (some (id, source)) answer h all =
      let is_capture = captured-IsCapture params host (listing root) opened (id, source) answer h in
      let (files, path, rollout, listed, searched, read, checked, made) = is_capture in
      (
        subst (λ a. All (Agrees params (as_str (at a "provider_session_id"))) candidates) (sym made)
            all,
        inr (root, (id, source), is_capture),
      )

  -- A capture that succeeds gives the one identity that every place of the request gives that names
  -- one, and gives none only where no place names one; and an identity that it gives was read from
  -- the rollout that claims it, which passed the checks on a live report.
  pub capture-Agrees :
      (params : Value) (host : HostContext) (home : Result String)
      (listing : String → Result (List RolloutFile)) (opened : String → RolloutFile)
      (answer : Value)
      → capture calendar parse_json request_id params host home listing opened ≡ ok answer
      → All (Agrees params (as_str (at answer "provider_session_id"))) candidates
        × IsAnswer params host listing opened answer
  unfolding capture
  capture-Agrees params host home listing opened answer h =
      let (root, at_home, h1) = >>=-eq-ok home _ h in
      let (supported, h2) =
        refuse_if-eq-ok (is_some (get params "evidence"))
          (invalid request_id "The removed evidence field is unsupported") _ h1 in
      let (checked, reported, h3) =
        >>=-eq-ok (check_report request_id (get params "live_report")) _ h2 in
      let (selected, chosen, h4) = >>=-eq-ok (select request_id params none candidates) _ h3 in
      let (kept, all) = select-Agrees request_id params none candidates selected chosen in
      capture_selected_lem params host listing root opened selected answer h4 all
