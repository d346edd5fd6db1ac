-- ===== src/Launch/Args.antt =====
-- `native_args` of src/launch.rs: the arguments of the native process. The JSON printer, the names of
-- the provider's own environment and the contract's constants are outside the repository.
use agent_runner_codex.Prelude.{
  ◌≡◌, ap, ◌∙◌, String, true, not, ◌||◌, ◌==◌, ◌⋯◌, List, [], ◌∷◌, ◌++◌, Option, none, some, map,
  unwrap_or, is_some, if◌then◌else◌, strip_suffix,
}
use agent_runner_codex.Prelude.Sorting.{sort_by, text_leb}
use agent_runner_codex.Json.{Value, boolean, num, str, array, lookup}
use agent_runner_codex.Account.{join}
use agent_runner_codex.Models.{args}
use agent_runner_codex.Policy.{Plan, Sdk}
use agent_runner_codex.Policy.Config.{RuntimeConfig, parent}
use agent_runner_codex.Session.Enumerate.{dedup}
use agent_runner_codex.Session.Locate.{keep}

abbrev Env : Type 0
Env = List (String × String)

-- What the arguments take from outside: the printer, the names in the process's own environment, the
-- path of its executable, and constants of the contract.
pub record Native : Type 0 where
  pub print : Value → String
  pub process_names : List String
  pub current_exe : Option String
  pub exploration_env : String
  pub explore_tool : String
  pub bridge_subcommand : String

abbrev pub keys : Env → List String
keys = map (λ e. e.0)

-- `-c` and a setting, for each
abbrev settings : List String → List String
settings [] = []
settings (pair ∷ pairs) = "-c" ∷ pair ∷ settings pairs

abbrev disabled_features : List String
disabled_features =
    "shell_tool" ∷ "unified_exec" ∷ "multi_agent" ∷ "multi_agent_v2" ∷ "apps" ∷ "plugins"
    ∷ "remote_plugin" ∷ "hooks" ∷ "image_generation" ∷ "view_image" ∷ "browser_use" ∷ "computer_use"
    ∷ "code_mode" ∷ "code_mode_host" ∷ "goals" ∷ "sleep_tool" ∷ "skill_search" ∷ "personality"
    ∷ "memories" ∷ "workspace_dependencies" ∷ "tool_suggest" ∷ []

abbrev instructions_name : String
instructions_name = "AGENT_RUNNER_CODEX_DEVELOPER_INSTRUCTIONS"

module _ (native : Native) (sdk : Sdk) where
  -- `bridge_executable`, with an empty text where it fails
  unfoldable pub bridge_executable : String
  bridge_executable = elim native.current_exe [
    | none ↦ ""
    | some exe ↦ unwrap_or (strip_suffix exe " (deleted)") exe
  ]

  -- the set of names that the tool server is given
  unfoldable pub env_vars : Plan sdk → List String → List String
  unfolding dedup
  env_vars plan given = dedup (
      sort_by text_leb (
        keep (λ key. not (key == native.exploration_env) || is_some plan.exploration)
          (native.process_names ++ given)))

  -- the settings of the one tool server
  unfoldable pub server_settings : RuntimeConfig → Plan sdk → List String → List String
  unfolding env_vars bridge_executable
  server_settings config plan given =
      let tools = "bash" ∷ (if is_some plan.exploration then native.explore_tool ∷ [] else []) in
      let command = if is_some plan.mediation then str bridge_executable else str config.bun_bin in
      let server_args =
        if is_some plan.mediation
        then array (str native.bridge_subcommand ∷ [])
        else array (str "--no-install" ∷ str config.bash_mcp_path ∷ []) in
      settings (
        map
          (λ (pair : String × Value).
            "mcp_servers.agent_bash." ⋯ pair.0 ⋯ "=" ⋯ native.print pair.1)
          (("command", command)
            ∷ ("args", server_args)
            ∷ ("env_vars", array (map str (env_vars plan given)))
            ∷ ("enabled_tools", array (map str tools))
            ∷ ("required", boolean true)
            ∷ ("startup_timeout_sec", num 20)
            ∷ ("tool_timeout_sec", num 86400)
            ∷ []))

  abbrev instructions : Option String → List String
  instructions none = []
  instructions (some text) = settings (("developer_instructions=" ⋯ native.print (str text)) ∷ [])

  -- the arguments, from the names of the environment and the developer's instructions
  unfoldable pub managed_args :
      RuntimeConfig → Plan sdk → List String → Option String → Option (List String)
  unfolding parent server_settings args join
  managed_args config plan given told = elim (parent config.bash_mcp_path) [
    | none ↦ none
    | some directory ↦ some (
        "--dangerously-bypass-approvals-and-sandbox" ∷ args plan.model plan.effort
        ++ settings (
            ("model_instructions_file=" ⋯ native.print (str config.system_prompt_file))
            ∷ ("model_catalog_json=" ⋯ native.print (str (join directory "models.json")))
            ∷ "web_search=\"disabled\""
            ∷ "shell_environment_policy.inherit=\"all\""
            ∷ "shell_environment_policy.ignore_default_excludes=true"
            ∷ "mcp_servers={}"
            ∷ [])
        ++ settings (map (λ feature. "features." ⋯ feature ⋯ "=false") disabled_features)
        ++ server_settings config plan given
        ++ instructions told)
  ]

  abbrev resumed : Option String → List String
  resumed none = []
  resumed (some id) = "resume" ∷ id ∷ []

  -- `managed_native_args`; `none` is the panic of `unwrap` on the parent of the integration's path
  unfoldable pub managed_native_args : RuntimeConfig → Plan sdk → Env → Option (List String)
  unfolding managed_args
  managed_native_args config plan env =
      managed_args config plan (keys env) (lookup instructions_name env)

  abbrev executed : Option String → Option (List String) → Option (List String)
  executed session none = none
  executed session (some managed) = some (
      "exec" ∷ "--ignore-user-config" ∷ "--ignore-rules" ∷ managed
      ++ ("--skip-git-repo-check" ∷ "--json" ∷ "--color" ∷ "never" ∷ [])
      ++ resumed session
      ++ ("-" ∷ []))

  unfoldable pub native_args : RuntimeConfig → Plan sdk → Env → Option String → Option (List String)
  unfolding managed_native_args
  native_args config plan env session = executed session (managed_native_args config plan env)

  -- The arguments depend on the environment by its names and the developer's instructions alone: two
  -- environments with the same names in the same order, and the same instructions, give the same
  -- arguments.
  pub native_args_secret :
      (config : RuntimeConfig) (plan : Plan sdk) (env env' : Env) (session : Option String)
      → keys env ≡ keys env'
      → lookup instructions_name env ≡ lookup instructions_name env'
      → native_args config plan env session ≡ native_args config plan env' session
  unfolding native_args managed_native_args
  native_args_secret config plan env env' session same told =
      ap (λ given. executed session (managed_args config plan given (lookup instructions_name env)))
        same
      ∙ ap (λ text. executed session (managed_args config plan (keys env') text)) told
