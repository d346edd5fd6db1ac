-- ===== src/Policy/Config.antt =====
-- `RuntimeConfig` of src/policy.rs. The files, the TOML parser and the JSON parser are outside the
-- repository.
use agent_runner_codex.Prelude.{
  ℕ, ◌*◌, String, Bool, true, false, not, ◌||◌, ◌&&◌, ◌==◌, ◌⋯◌, Bytes, List, [], ◌∷◌, Option, none,
  some, ltb, if◌then◌else◌, any, is_some, is_empty, length, unwrap_or,
}
use agent_runner_codex.Json.{Value, null, boolean, at, as_array, get, is_text}
use agent_runner_codex.Envelope.{
  HostContext, RequestEnvelope, Result, ok, err, ◌>>=◌, ◌>>◌, ok_or, refuse_if,
}
use agent_runner_codex.Account.{is_absolute, join, user_home}
use agent_runner_codex.Account.Components.{components}
use agent_runner_codex.Models.{astra, luna, sol, terra}
use agent_runner_codex.Session.Locate.{keep}
use agent_runner_codex.Policy.{Sdk, evaluate, invalid}

pub record RuntimeConfig : Type 0 where
  pub codex_bin : String
  pub bun_bin : String
  pub bash_mcp_path : String
  pub system_prompt_file : String
  pub agent_bash_bin : String
  pub agent_runner_bin : String

-- What the configuration is read from: `is_file`, a read of at most some bytes, and the decoders.
pub record Disk : Type 0 where
  pub is_file : String → Bool
  pub read_file_bounded : String → ℕ → Option Bytes
  pub from_utf8 : Bytes → Option String
  pub from_toml : String → Option RuntimeConfig
  pub parse_json : Bytes → Option Value

abbrev without_last : List String → Option (List String)
without_last [] = none
without_last (name ∷ []) = if name == "/" then none else some []
without_last (name ∷ next ∷ names) = elim (without_last (next ∷ names)) [
  | none ↦ none
  | some rest ↦ some (name ∷ rest)
]

abbrev joined : String → List String → String
joined base [] = base
joined base (name ∷ names) = joined (join base name) names

-- `Path::parent`, up to the spelling of the separators
unfoldable pub parent : String → Option String
unfolding components
parent path = elim (without_last (components path)) [
  | none ↦ none
  | some names ↦ some (joined "" names)
]

abbrev pub supported : List String
supported = astra ∷ luna ∷ terra ∷ sol ∷ []

abbrev pub is_given_null : Option Value → Bool
is_given_null (some null) = true
is_given_null _ = false

abbrev pub is_given_bool : Bool → Option Value → Bool
is_given_bool true (some (boolean true)) = true
is_given_bool false (some (boolean false)) = true
is_given_bool _ _ = false

abbrev pub is_given_nothing : Option Value → Bool
is_given_nothing none = false
is_given_nothing (some v) = elim (as_array v) [ none ↦ false | some l ↦ is_empty l ]

-- an entry of the catalog that disables the native tools
unfoldable pub is_restricted : Value → Bool
unfolding get
is_restricted entry = not (
    any (λ key. not (is_given_null (get entry key)))
      ("apply_patch_tool_type" ∷ "tool_mode" ∷ "multi_agent_version" ∷ [])
    || not (is_given_bool true (get entry "node_repl_disabled"))
    || not (is_given_bool false (get entry "supports_search_tool"))
    || not (is_given_nothing (get entry "experimental_supported_tools")))

abbrev pub entries_for : String → List Value → List Value
entries_for slug = keep (λ entry. is_text (at entry "slug") slug)

-- the one entry for a model
unfoldable pub check_slug : List Value → String → Result (Unit {0})
unfolding is_restricted
check_slug entries slug = elim (entries_for slug entries) [
  | entry ∷ [] ↦ refuse_if (not (is_restricted entry)) (
      invalid "model_catalog_tools_unrestricted"
        "The managed Codex model catalog must disable native tool overrides for every supported model")
  | _ ↦ err (
      invalid "model_catalog_invalid"
        "The managed Codex model catalog must uniquely define every supported model")
]

unfoldable pub check_slugs : List Value → List String → Result (Unit {0})
unfolding check_slug
check_slugs entries [] = ok tt
check_slugs entries (slug ∷ slugs) = check_slug entries slug >> check_slugs entries slugs

-- the paths of a configuration, and whether the SDK's bridge stands for them under a mediation
abbrev pub dependencies : RuntimeConfig → List (String × String × Bool)
dependencies c =
    ("codex_bin", c.codex_bin, false)
    ∷ ("bun_bin", c.bun_bin, true)
    ∷ ("bash_mcp_path", c.bash_mcp_path, true)
    ∷ ("system_prompt_file", c.system_prompt_file, false)
    ∷ ("agent_bash_bin", c.agent_bash_bin, true)
    ∷ ("agent_runner_bin", c.agent_runner_bin, true)
    ∷ []

module _ (disk : Disk) where
  unfoldable pub check_paths : Bool → List (String × String × Bool) → Result (Unit {0})
  check_paths mediated [] = ok tt
  check_paths mediated ((name, path, bridged) ∷ paths) =
      let rest = check_paths mediated paths in
      if mediated && bridged
      then rest
      else refuse_if (not (is_absolute path) || not (disk.is_file path)) (
          invalid "runtime_dependency_missing"
            (name ⋯ (" must name an existing absolute file: " ⋯ path)))
        >> rest

  -- the models of the catalog
  unfoldable pub read_catalog : RuntimeConfig → Result (List Value)
  unfolding parent get
  read_catalog c = do
    refuse_if (not (is_absolute c.bash_mcp_path)) (
        invalid "runtime_dependency_missing"
          "bash_mcp_path must locate an absolute model catalog directory")
    directory ←
        ok_or (parent c.bash_mcp_path)
          (invalid "model_catalog_unreadable" "Model catalog directory is unavailable")
    content ←
        ok_or (disk.read_file_bounded (join directory "models.json") (4 * 1024 * 1024)) (
          invalid "model_catalog_unreadable" "Cannot read the required managed Codex model catalog")
    value ←
        ok_or (disk.parse_json content)
          (invalid "model_catalog_invalid" "The managed Codex model catalog must be valid JSON")
    ok_or (elim (get value "models") [ none ↦ none | some v ↦ as_array v ])
        (invalid "model_catalog_invalid" "The managed Codex model catalog must contain models")

  unfoldable pub check_prompt : RuntimeConfig → Result (Unit {0})
  check_prompt c = do
    prompt ←
        ok_or (disk.read_file_bounded c.system_prompt_file (1024 * 1024))
          (invalid "system_prompt_unreadable" "Cannot read the bounded configured system prompt")
    refuse_if
        (is_empty prompt
          || ltb (1024 * 1024) (length prompt)
          || not (is_some (disk.from_utf8 prompt)))
        (invalid "system_prompt_invalid" "System prompt must be nonempty UTF-8, at most 1 MiB")

  -- `validate_for_mediation`
  unfoldable pub validate_for_mediation : RuntimeConfig → Bool → Result (Unit {0})
  unfolding check_paths read_catalog check_slugs check_prompt
  validate_for_mediation c mediated = do
    check_paths mediated (dependencies c)
    entries ← read_catalog c
    check_slugs entries supported
    check_prompt c

  default_config : String → String → String → RuntimeConfig
  default_config user root install = record {
    codex_bin = join user ".npm-global/bin/codex";
    bun_bin = join user ".bun/bin/bun";
    bash_mcp_path = join install "integrations/codex/agent-bash-mcp.ts";
    system_prompt_file = join user "ai/AGENTS.md";
    agent_bash_bin = join root "agent-bash/agent-bash";
    agent_runner_bin = join root "runner/oulipoly-agent-runner";
  }

  -- `RuntimeConfig::load`
  unfoldable pub load : Option String → HostContext → Result RuntimeConfig
  unfolding default_config join
  load home_var host = do
    user ← user_home home_var host
    let root = unwrap_or host.config_root (join user ".config/oulipoly-agent-runner")
    let install = join root "agent-runner-codex"
    let path = join install "config.toml"
    if disk.is_file path
        then (do
          content ← ok_or (disk.read_file_bounded path (64 * 1024)) (
              invalid "runtime_config_unreadable"
                "Cannot read bounded Codex provider configuration")
          text ←
              ok_or (disk.from_utf8 content)
                (invalid "runtime_config_invalid" "Codex provider configuration must be UTF-8")
          ok_or (disk.from_toml text)
              (invalid "runtime_config_invalid" "Invalid Codex provider configuration"))
        else ok (default_config user root install)

  -- the check of the configuration in `evaluate`
  unfoldable pub configured : Option String → HostContext → Bool → Result (Unit {0})
  unfolding load validate_for_mediation
  configured home_var host mediated = load home_var host >>= λ c. validate_for_mediation c mediated

  -- `evaluate`, with that check
  unfoldable pub evaluate_configured : Sdk → Option String → RequestEnvelope → Value
  unfolding evaluate
  evaluate_configured sdk home_var request =
      evaluate sdk home_var request (configured home_var request.host)
