-- ===== src/Policy.antt =====
-- src/policy.rs: `plan` and `evaluate`. The tool mediation and the exploration offers are of the
-- contract's package, and so are a parameter; serde's decoders are those of lists and maps of texts.
pub mod Config
pub mod Catalog
pub mod Laws
use agent_runner_codex.Prelude.{
  ℕ, String, Bool, true, false, not, ◌||◌, ◌&&◌, ◌==◌, ◌⋯◌, ◌⊎◌, inl, inr, Bytes, List, [], ◌∷◌,
  ◌++◌, Option, none, some, if◌then◌else◌, any, all, map, keep_if, or_else, unwrap_or,
  contains_byte, bytes, is_blank, is_some, str_empty, texts_eq, is_empty,
}
use agent_runner_codex.Json.{
  Value, Values, Fields, null, boolean, number, str, arr, obj, nil, cons, end, field, array, object,
  as_object, as_str, as_array, at, get, is_null, members, pointer, then_str, lookup,
}
use agent_runner_codex.Envelope.{
  HostContext, ProviderFailure, RequestEnvelope, Result, ok, err, ◌>>=◌, ◌>>◌, ok_or, refuse_if,
  invalid_settings, empty_object,
}
use agent_runner_codex.Account.{home, is_absolute}
use agent_runner_codex.Models.{args, route}

abbrev Env : Type 0
Env = List (String × String)

abbrev pub invalid : String → String → ProviderFailure
invalid code message = invalid_settings "" code message empty_object

abbrev missing_settings : ProviderFailure
missing_settings = invalid "missing_settings_id" "settings_id is required"

abbrev unknown_model : ProviderFailure
unknown_model =
    invalid "unknown_model"
      "Select a standard gpt-* Sol label or a gpt-astra-*, gpt-luna-*, gpt-terra-*, or gpt-sol-* label with low/medium/high/xhigh/max effort, or the separately named Codex benchmark"

abbrev bad_model_args : ProviderFailure
bad_model_args = invalid "invalid_model_args" "model.provider_args must be an array"

abbrev args_mismatch : ProviderFailure
args_mismatch =
    invalid "model_args_mismatch" "Model arguments do not match the selected catalog label"

abbrev unsupported_mode : ProviderFailure
unsupported_mode =
    invalid "unsupported_mode" "Codex provider supports noninteractive arg and stdin modes"

abbrev missing_prompt : ProviderFailure
missing_prompt = invalid "missing_prompt" "A nonempty prompt is required"

abbrev bad_argv : ProviderFailure
bad_argv = invalid "invalid_argv" "argv must be an array"

abbrev unmanaged_argv : ProviderFailure
unmanaged_argv =
    invalid "unmanaged_argv"
      "Launch arguments must match the selected Codex route; additional runtime, model, or tool overrides are not allowed"

abbrev named_model : Value → String
named_model params = unwrap_or (then_str (pointer params ("model" ∷ "name" ∷ []))) ""

abbrev given_args : Value → Value
given_args params = unwrap_or (pointer params ("model" ∷ "provider_args" ∷ [])) null

abbrev given_argv : Value → Value
given_argv launch = unwrap_or (get launch "argv") null

abbrev given_prompt : Value → Value → String
given_prompt params launch =
    unwrap_or
      (or_else (then_str (pointer params ("model" ∷ "inputs" ∷ "prompt" ∷ [])))
        (then_str (get launch "prompt")))
      ""

abbrev put_text : Option String → Option (List String) → Option (List String)
put_text (some s) (some ss) = some (s ∷ ss)
put_text _ _ = none

decode_all : Values → Option (List String)
decode_all nil = some []
decode_all (cons v vs) = put_text (as_str v) (decode_all vs)

-- `from_value` into `Vec<String>`
unfoldable pub decode_texts : Value → Option (List String)
unfolding decode_all
decode_texts (arr vs) = decode_all vs
decode_texts _ = none

abbrev put_entry : String → Option String → Option Env → Option Env
put_entry key (some s) (some env) = some ((key, s) ∷ env)
put_entry key _ _ = none

decode_entries : Fields → Option Env
decode_entries end = some []
decode_entries (field key v fields) = put_entry key (as_str v) (decode_entries fields)

-- `from_value` into `BTreeMap<String, String>`
unfoldable pub decode_env : Value → Option Env
unfolding decode_entries
decode_env (obj fields) = decode_entries fields
decode_env _ = none

-- `insert` into a map
unfoldable pub insert : String → String → Env → Env
insert key value [] = (key, value) ∷ []
insert key value ((k, v) ∷ env) =
    let rest = insert key value env in if k == key then (key, value) ∷ env else (k, v) ∷ rest

-- the names and values that no process can be given
abbrev pub is_bad_entry : String × String → Bool
is_bad_entry (key, value) =
    str_empty key
    || contains_byte b'=' (bytes key)
    || contains_byte 0 (bytes key)
    || contains_byte 0 (bytes value)

-- What `exploration::admit` may answer, with the error's text.
pub data ExplorationError : Type 0 where
  invalid_offer not_selected without_mediation no_ingress : String → ExplorationError

-- What the source calls of the contract's package, and whether a path is that of the running program.
pub record Sdk : Type 1 where
  pub ToolMediation : Type 0
  pub Exploration : Type 0
  pub required_by_host : Env → Env → String ⊎ Option ToolMediation
  pub admit : Env → Env → Option ToolMediation → ExplorationError ⊎ Option Exploration
  pub mediation_marker : String
  pub exploration_marker : String
  pub mediation_effective : ToolMediation → String → List String → Value
  pub exploration_effective : Exploration → String → Value
  pub is_current_exe : String → Bool

module _ (sdk : Sdk) where
  pub record Plan : Type 0 where
    pub settings_id : String
    pub model : String
    pub effort : String
    pub prompt : String
    pub env : Env
    pub argv : List String
    pub mediation : Option sdk.ToolMediation
    pub exploration : Option sdk.Exploration

  exploration_code : ExplorationError → String × String
  exploration_code (invalid_offer text) = ("exploration_invalid", text)
  exploration_code (not_selected text) = ("exploration_not_selected", text)
  exploration_code (without_mediation text) = ("exploration_without_mediation", text)
  exploration_code (no_ingress text) = ("exploration_ingress_unavailable", text)

  abbrev refused_exploration :
      ExplorationError ⊎ Option sdk.Exploration → Result (Option sdk.Exploration)
  unfolding exploration_code
  refused_exploration (inl e) = err (invalid (exploration_code e).0 (exploration_code e).1)
  refused_exploration (inr offer) = ok offer

  unfoldable pub admit_exploration :
      RequestEnvelope → Env → Option sdk.ToolMediation → Result (Option sdk.Exploration)
  unfolding refused_exploration
  admit_exploration request env mediation =
      refused_exploration (sdk.admit request.host.env env mediation)

  abbrev required : String ⊎ Option sdk.ToolMediation → Result (Option sdk.ToolMediation)
  required (inl text) = err (invalid "tool_mediation_invalid" text)
  required (inr mediation) = ok mediation

  abbrev is_mode : Option String → Bool
  is_mode none = false
  is_mode (some mode) = mode == "arg" || mode == "stdin"

  -- the carrier that is the running program stands for the account
  abbrev with_carrier : String → List String → List String
  with_carrier settings_id [] = []
  with_carrier settings_id (carrier ∷ supplied) =
      if is_absolute carrier && sdk.is_current_exe carrier
      then settings_id ∷ supplied
      else carrier ∷ supplied

  abbrev pub canonical_argv : String → List String → List String
  canonical_argv settings_id provider_args =
      settings_id ∷ "exec" ∷ "--dangerously-bypass-approvals-and-sandbox" ∷ provider_args

  abbrev is_empty_value : Value → Bool
  is_empty_value (obj end) = true
  is_empty_value (arr nil) = true
  is_empty_value _ = false

  -- restrictions that the provider's one tool policy does not meet
  unfoldable pub is_foreign : Option Value → Bool
  is_foreign none = false
  is_foreign (some restrictions) =
      not (elim (then_str (get restrictions "kind")) [ none ↦ false | some k ↦ k == "codex" ])
      || elim (as_object restrictions) [
        | none ↦ true
        | some fields ↦ any (λ m. not (m.0 == "kind") && not (is_empty_value m.1)) (members fields)
      ]

  abbrev pub instructions_key : String
  instructions_key = "AGENT_RUNNER_CODEX_DEVELOPER_INSTRUCTIONS"

  -- the environment of the plan
  unfoldable pub plan_env : Bool → Value → String → Env → Env
  unfolding insert
  plan_env is_policy launch codex_home env =
      let bound = insert "CODEX_SQLITE_HOME" codex_home (insert "CODEX_HOME" codex_home env) in
      let override =
        keep_if (λ s. not (is_blank s)) (then_str (get launch "system_prompt_override")) in
      if is_policy then insert instructions_key (unwrap_or override "") bound else bound

  -- the checks on the route, the arguments and the mode: the account's home, the route, and the
  -- provider's arguments
  unfoldable pub selected_route :
      Option String → RequestEnvelope → Result (String × String × String × String)
  unfolding home route args decode_texts pointer get
  selected_route home_var request = do
    let params = request.params
    settings_id ← ok_or (then_str (get params "settings_id")) missing_settings
    codex_home ← home home_var request.host settings_id
    let name = named_model params
    found ← ok_or (route name) unknown_model
    provider_args ← ok_or (decode_texts (given_args params)) bad_model_args
    refuse_if (not (texts_eq provider_args (args found.0 found.1))) args_mismatch
    refuse_if (not (is_mode (then_str (get params "mode")))) unsupported_mode
    ok (settings_id, codex_home, found.0, found.1)

  -- the prompt, and the check that the arguments are the canonical ones, with it or without it
  unfoldable pub managed_prompt : Value → Value → String → List String → Result String
  unfolding decode_texts pointer get
  managed_prompt params launch settings_id canonical = do
    let prompt = given_prompt params launch
    refuse_if (str_empty prompt) missing_prompt
    supplied ← ok_or (decode_texts (given_argv launch)) bad_argv
    let given = with_carrier settings_id supplied
    refuse_if (not (texts_eq given canonical) && not (texts_eq given (canonical ++ (prompt ∷ []))))
        unmanaged_argv
    ok prompt

  -- the environment that the launch gives
  unfoldable pub launch_env : RequestEnvelope → Value → Result Env
  unfolding decode_env is_foreign
  launch_env request launch = do
    refuse_if (is_foreign (keep_if (λ v. not (is_null v)) (get launch "tool_restrictions"))) (
        invalid "unsupported_tool_restrictions"
          "The managed Codex provider enforces its sole Agent Bash tool policy")
    env ←
        ok_or
          (decode_env (unwrap_or (keep_if (λ v. not (is_null v)) (get launch "env")) empty_object))
          (invalid "invalid_env" "env must map names to strings")
    refuse_if (any is_bad_entry env || any is_bad_entry request.host.env) (
        invalid "invalid_env"
          "Environment names and values must be valid process environment entries")
    ok env

  abbrev pub launch_of : Bool → Value → Value
  launch_of is_policy params = if is_policy then at params "launch" else params

  -- `plan`
  unfoldable pub plan : Option String → RequestEnvelope → Bool → Result Plan
  unfolding selected_route managed_prompt launch_env admit_exploration plan_env
  plan home_var request is_policy = do
    let params = request.params
    let launch = launch_of is_policy params
    selected ← selected_route home_var request
    let canonical = canonical_argv selected.0 (args selected.2 selected.3)
    prompt ← managed_prompt params launch selected.0 canonical
    env ← launch_env request launch
    mediation ← required (sdk.required_by_host request.host.env env)
    exploration ← admit_exploration request env mediation
    ok (record {
      settings_id = selected.0;
      model = selected.2;
      effort = selected.3;
      prompt = prompt;
      env = plan_env is_policy launch selected.1 env;
      argv = canonical;
      mediation = mediation;
      exploration = exploration;
    })

  abbrev mediated_tool : String
  mediated_tool = "mcp__agent_bash__bash"

  abbrev explore_tool : String
  explore_tool = "mcp__agent_bash__explore"

  -- `native_tools`
  unfoldable pub native_tools : Plan → List String
  native_tools p = mediated_tool ∷ (if is_some p.exploration then explore_tool ∷ [] else [])

  abbrev marker : String → Value → Value
  marker name value = object (("name", str name) ∷ ("value", value) ∷ [])

  markers : Plan → List Value
  unfolding native_tools
  markers p =
      marker "codex.route" (
          object (
            ("account", str p.settings_id)
            ∷ ("model", str p.model)
            ∷ ("effort", str p.effort)
            ∷ []))
        ∷ elim p.mediation [
          | none ↦ []
          | some m ↦
              marker sdk.mediation_marker (sdk.mediation_effective m mediated_tool (native_tools p))
              ∷ []
        ]
      ++ elim p.exploration [
        | none ↦ []
        | some offer ↦
            marker sdk.exploration_marker (sdk.exploration_effective offer explore_tool) ∷ []
      ]

  unfoldable pub env_value : Env → Value
  env_value env = object (map (λ e. (e.0, str e.1)) env)

  unfoldable pub accepted : Plan → Value
  unfolding markers env_value
  accepted p = object (
      ("accepted", boolean true)
      ∷ ("argv", array (map str p.argv))
      ∷ ("env", env_value p.env)
      ∷ ("stdin", str p.prompt)
      ∷ ("prompt", str p.prompt)
      ∷ ("diagnostics", array [])
      ∷ ("markers", array (markers p))
      ∷ [])

  unfoldable pub rejected : ProviderFailure → Value
  rejected e = object (
      ("accepted", boolean false)
      ∷ (
        "diagnostics",
        array (
            object
              (("severity", str "error") ∷ ("code", str e.code) ∷ ("message", str e.message) ∷ [])
            ∷ []),
      )
      ∷ ("markers", array [])
      ∷ [])

  abbrev judged : Result Plan → Value
  unfolding accepted rejected
  judged (ok p) = accepted p
  judged (err e) = rejected e

  -- `evaluate`; `configured` is the loading of the runtime configuration and its validation, which
  -- needs less of it under a mediation
  unfoldable pub evaluate : Option String → RequestEnvelope → (Bool → Result (Unit {0})) → Value
  unfolding plan judged
  evaluate home_var request configured =
      judged
        (plan home_var request true >>= λ p. (configured (is_some p.mediation) >>= λ done. ok p))
