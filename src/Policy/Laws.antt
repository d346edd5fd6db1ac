-- ===== src/Policy/Laws.antt =====
-- What a plan is, and what an evaluation answers.
use agent_runner_codex.Prelude.{
  ◌≡◌, ◌⊎◌, refl, ap, sym, ◌∙◌, subst, inl, inr, String, Bool, true, false, not, ◌&&◌, ◌==◌, eq_iff,
  eq_refl, List, [], ◌∷◌, ◌++◌, Option, none, some, map, arith, Bool-cases, is_some, keep_if,
  is_blank, str_empty, texts_eq, unwrap_or,
}
use agent_runner_codex.Json.{
  Value, array, at, boolean, get, get_field, lookup, object, str, then_str,
}
use agent_runner_codex.Envelope.{
  ProviderFailure, RequestEnvelope, Result, ok, err, ◌>>=◌, >>=-eq-ok, ok_injective, ok_or,
  ok_or-eq-ok, refuse_if-eq-ok, Result-cases,
}
use agent_runner_codex.Account.{home}
use agent_runner_codex.Models.{args, route}
use agent_runner_codex.Policy.{
  Plan, Sdk, accepted, env_value, evaluate, judged, rejected, admit_exploration, args_mismatch,
  bad_argv, bad_model_args, given_args, given_argv, given_prompt, missing_prompt, missing_settings,
  named_model, unknown_model, unmanaged_argv, unsupported_mode, canonical_argv, decode_texts,
  is_mode, launch_env, managed_prompt, required, with_carrier, insert, instructions_key, launch_of,
  plan, plan_env, selected_route,
}

-- What was put into a map is found, and all else is as it was.
lookup-insert :
    (key value : String) (env : List (String × String))
    → lookup key (insert key value env) ≡ some value
unfolding insert lookup
lookup-insert key value [] = ground (arith, eq_refl key)
lookup-insert key value ((k, v) ∷ env) = ground (arith, eq_refl key, lookup-insert key value env)

lookup-insert_other :
    (key other value : String) (env : List (String × String))
    → (key == other) ≡ false
    → lookup other (insert key value env) ≡ lookup other env
unfolding insert lookup
lookup-insert_other key other value [] differ = ground (arith, differ)
lookup-insert_other key other value ((k, v) ∷ env) differ = elim (Bool-cases (k == key)) [
  | inr no_match ↦ ground (arith, no_match, lookup-insert_other key other value env differ)
  | inl match ↦
      let same = (eq_iff k key).0 match in
      let not_k : (k == other) ≡ false = ap (λ s. s == other) same ∙ differ in
      ground (arith, match, not_k, differ)
]

module _ (sdk : Sdk) (home_var : Option String) (request : RequestEnvelope) where
  -- The account and the route of the request.
  abbrev IsRoute : String × String × String × String → Type 0
  IsRoute (settings_id, codex_home, model, effort) =
      (then_str (get request.params "settings_id") ≡ some settings_id)
      × (home home_var request.host settings_id ≡ ok codex_home)
      × (route (named_model request.params) ≡ some (model, effort))

  selected_route-IsRoute :
      (selected : String × String × String × String)
      → selected_route sdk home_var request ≡ ok selected
      → IsRoute selected
  unfolding selected_route
  selected_route-IsRoute selected h =
      let given_id = then_str (get request.params "settings_id") in
      let (settings_id, given, h1) = >>=-eq-ok (ok_or given_id missing_settings) _ h in
      let (codex_home, at_home, h2) = >>=-eq-ok (home home_var request.host settings_id) _ h1 in
      let (found, routed, h3) =
        >>=-eq-ok (ok_or (route (named_model request.params)) unknown_model) _ h2 in
      let (provider_args, decoded, h4) =
        >>=-eq-ok (ok_or (decode_texts (given_args request.params)) bad_model_args) _ h3 in
      let (matching, h5) =
        refuse_if-eq-ok (not (texts_eq provider_args (args found.0 found.1))) args_mismatch _ h4 in
      let (mode, h6) =
        refuse_if-eq-ok (not (is_mode sdk (then_str (get request.params "mode")))) unsupported_mode
          _ h5 in
      subst IsRoute (ok_injective (settings_id, codex_home, found.0, found.1) selected h6) (
        ok_or-eq-ok given_id missing_settings given,
        at_home,
        ok_or-eq-ok (route (named_model request.params)) unknown_model routed,
      )

  managed_prompt-str_empty :
      (launch : Value) (settings_id : String) (canonical : List String) (prompt : String)
      → managed_prompt sdk request.params launch settings_id canonical ≡ ok prompt
      → str_empty prompt ≡ false
  unfolding managed_prompt
  managed_prompt-str_empty launch settings_id canonical prompt h =
      let given = given_prompt request.params launch in
      let (filled, h1) = refuse_if-eq-ok (str_empty given) missing_prompt _ h in
      let (supplied, decoded, h2) =
        >>=-eq-ok (ok_or (decode_texts (given_argv launch)) bad_argv) _ h1 in
      let argv = with_carrier sdk settings_id supplied in
      let (managed, h3) =
        refuse_if-eq-ok
          (not (texts_eq argv canonical) && not (texts_eq argv (canonical ++ (given ∷ []))))
          unmanaged_argv _ h2 in
      ap str_empty (sym (ok_injective given prompt h3)) ∙ filled

  -- What a plan binds: the account's home for both of Codex's stores, the route and its arguments, a
  -- prompt, and for a policy the carrier of instructions, if only to reset it.
  pub record IsPlan (is_policy : Bool) (p : Plan sdk) : Type 0 where
    pub account :
        (codex_home : String) × (home home_var request.host p.settings_id ≡ ok codex_home)
        × (lookup "CODEX_HOME" p.env ≡ some codex_home)
        × (lookup "CODEX_SQLITE_HOME" p.env ≡ some codex_home)
    pub routed : route (named_model request.params) ≡ some (p.model, p.effort)
    pub managed : p.argv ≡ canonical_argv sdk p.settings_id (args p.model p.effort)
    pub prompted : str_empty p.prompt ≡ false
    pub carried : is_policy ≡ true → is_some (lookup (instructions_key sdk) p.env) ≡ true

  plan_env_lem :
      (is_policy : Bool) (launch : Value) (codex_home : String) (env : List (String × String))
      → let planned = plan_env sdk is_policy launch codex_home env in
        (lookup "CODEX_HOME" planned ≡ some codex_home)
        × (lookup "CODEX_SQLITE_HOME" planned ≡ some codex_home)
        × (is_policy ≡ true → is_some (lookup (instructions_key sdk) planned) ≡ true)
  unfolding plan_env
  plan_env_lem false launch codex_home env = (
    lookup-insert_other "CODEX_SQLITE_HOME" "CODEX_HOME" codex_home
          (insert "CODEX_HOME" codex_home env) refl
        ∙ lookup-insert "CODEX_HOME" codex_home env,
    lookup-insert "CODEX_SQLITE_HOME" codex_home (insert "CODEX_HOME" codex_home env),
    λ policy. absurd (ground arith),
  )
  plan_env_lem true launch codex_home env =
      let override =
        unwrap_or (keep_if (λ s. not (is_blank s)) (then_str (get launch "system_prompt_override")))
          "" in
      let home_bound = insert "CODEX_HOME" codex_home env in
      let bound = insert "CODEX_SQLITE_HOME" codex_home home_bound in
      (
        lookup-insert_other (instructions_key sdk) "CODEX_HOME" override bound refl
            ∙ lookup-insert_other "CODEX_SQLITE_HOME" "CODEX_HOME" codex_home home_bound refl
            ∙ lookup-insert "CODEX_HOME" codex_home env,
        lookup-insert_other (instructions_key sdk) "CODEX_SQLITE_HOME" override bound refl
            ∙ lookup-insert "CODEX_SQLITE_HOME" codex_home home_bound,
        λ policy. ap is_some (lookup-insert (instructions_key sdk) override bound),
      )

  pub plan-IsPlan :
      (is_policy : Bool) (p : Plan sdk)
      → plan sdk home_var request is_policy ≡ ok p
      → IsPlan is_policy p
  unfolding plan
  plan-IsPlan is_policy p h =
      let launch = launch_of sdk is_policy request.params in
      let (selected, routed, h1) = >>=-eq-ok (selected_route sdk home_var request) _ h in
      let canonical = canonical_argv sdk selected.0 (args selected.2 selected.3) in
      let (prompt, prompted, h2) =
        >>=-eq-ok (managed_prompt sdk request.params launch selected.0 canonical) _ h1 in
      let (env, given, h3) = >>=-eq-ok (launch_env sdk request launch) _ h2 in
      let (mediation, required_one, h4) =
        >>=-eq-ok (required sdk (sdk.required_by_host request.host.env env)) _ h3 in
      let (exploration, admitted, h5) =
        >>=-eq-ok (admit_exploration sdk request env mediation) _ h4 in
      let made : Plan sdk = record {
        settings_id = selected.0;
        model = selected.2;
        effort = selected.3;
        prompt = prompt;
        env = plan_env sdk is_policy launch selected.1 env;
        argv = canonical;
        mediation = mediation;
        exploration = exploration;
      } in
      let (settings, at_home, route_found) = selected_route-IsRoute selected routed in
      let (codex, sqlite, carrier) = plan_env_lem is_policy launch selected.1 env in
      let is_plan : IsPlan is_policy made = record {
        account = (selected.1, at_home, codex, sqlite);
        routed = route_found;
        managed = refl;
        prompted = managed_prompt-str_empty launch selected.0 canonical prompt prompted;
        carried = carrier;
      } in
      subst (IsPlan is_policy) (ok_injective made p h5) is_plan

  -- The answer that accepts a plan: its arguments, its environment and its prompt.
  abbrev pub IsAccepted : Plan sdk → Value → Type 0
  IsAccepted p answer =
      (at answer "accepted" ≡ boolean true)
      × (at answer "argv" ≡ array (map str p.argv))
      × (at answer "env" ≡ object (map (λ e. (e.0, str e.1)) p.env))
      × (at answer "stdin" ≡ str p.prompt)
      × (at answer "prompt" ≡ str p.prompt)
      × (at answer "diagnostics" ≡ array [])

  -- The answer that rejects: one diagnostic, with the failure's code and message, and nothing to run.
  abbrev pub IsRejected : ProviderFailure → Value → Type 0
  IsRejected e answer =
      (at answer "accepted" ≡ boolean false)
      × (at answer "diagnostics"
          ≡ array (
              object
                (("severity", str "error") ∷ ("code", str e.code) ∷ ("message", str e.message) ∷ [])
              ∷ []))
      × (get answer "argv" ≡ none)
      × (get answer "env" ≡ none)
      × (get answer "prompt" ≡ none)

  accepted-IsAccepted : (p : Plan sdk) → IsAccepted p (accepted sdk p)
  unfolding accepted env_value at get get_field
  accepted-IsAccepted p = (refl, refl, refl, refl, refl, refl)

  rejected-IsRejected : (e : ProviderFailure) → IsRejected e (rejected sdk e)
  unfolding rejected at get get_field
  rejected-IsRejected e = (refl, refl, refl, refl, refl)

  -- An evaluation whose request has a plan, as `plan-IsPlan` says it, and a configuration that is valid
  -- for it, is accepted, with that plan's arguments, environment and prompt; where either fails, it is
  -- rejected with one diagnostic of that failure's code and message, and gives no arguments, no
  -- environment and no prompt.
  pub evaluate_lem :
      (configured : Bool → Result (Unit {0}))
      → ((p : Plan sdk) × (plan sdk home_var request true ≡ ok p)
          × (configured (is_some p.mediation) ≡ ok tt)
          × (IsPlan true p)
          × (IsAccepted p (evaluate sdk home_var request configured)))
        ⊎ ((e : ProviderFailure) × ((plan sdk home_var request true ≡ err e)
              ⊎ ((p : Plan sdk) × (plan sdk home_var request true ≡ ok p)
                  × (configured (is_some p.mediation) ≡ err e)))
            × (IsRejected e (evaluate sdk home_var request configured)))
  unfolding evaluate
  evaluate_lem configured = elim (Result-cases (plan sdk home_var request true)) [
    | inr (e, failed) ↦ inr (
      e,
      inl failed,
      subst (IsRejected e) (sym (ap (λ r. judged sdk (r >>= next)) failed)) (rejected-IsRejected e),
    )
    | inl (p, planned) ↦ elim (Result-cases (configured (is_some p.mediation))) [
      | inl (done, valid) ↦ inl (
        p,
        planned,
        valid,
        plan-IsPlan true p planned,
        subst (IsAccepted p)
            (sym (
              ap (λ r. judged sdk (r >>= next)) planned
              ∙ ap (λ r. judged sdk (r >>= λ done. ok p)) valid))
            (accepted-IsAccepted p),
      )
      | inr (e, unfit) ↦ inr (
        e,
        inr (p, planned, unfit),
        subst (IsRejected e)
            (sym (
              ap (λ r. judged sdk (r >>= next)) planned
              ∙ ap (λ r. judged sdk (r >>= λ done. ok p)) unfit))
            (rejected-IsRejected e),
      )
    ]
  ]
    where
      next : Plan sdk → Result (Plan sdk)
      next p = configured (is_some p.mediation) >>= λ done. ok p
