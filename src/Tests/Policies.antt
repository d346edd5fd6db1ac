-- ===== src/Tests/Policies.antt =====
-- A policy's plan, and the configuration it needs, at concrete inputs.
use agent_runner_codex.Prelude.{
  ◌≡◌, ◌⊎◌, inr, refl, String, Bool, true, false, List, [], ◌∷◌, none, some, is_some, ◌==◌, ◌||◌,
  map,
}
use agent_runner_codex.Account.{is_absolute}
use agent_runner_codex.Json.{Value, at, values, array, boolean, null, object, str}
use agent_runner_codex.Envelope.{ProviderFailure, RequestEnvelope, Result, ok, err}
use agent_runner_codex.Models.{luna, astra, sol, terra}
use agent_runner_codex.Policy.{Plan, Sdk, evaluate, plan}
use agent_runner_codex.Policy.Catalog.{HasPaths, HasPrompt, validate_for_mediation-IsDefined}
use agent_runner_codex.Policy.Catalog.Entries.{IsDefined}
use agent_runner_codex.Policy.Config.{Disk, RuntimeConfig, read_catalog, validate_for_mediation}
use agent_runner_codex.Policy.Laws.{IsAccepted, IsRejected, IsPlan, evaluate_lem}

-- a contract with no mediation, run by another program than the carrier
abbrev pub sdk : Sdk
sdk = record {
  ToolMediation = String;
  Exploration = String;
  required_by_host = λ host env. inr none;
  admit = λ host env mediation. inr none;
  mediation_marker = "mediation";
  exploration_marker = "exploration";
  mediation_effective = λ m tool tools. null;
  exploration_effective = λ e tool. null;
  is_current_exe = λ path. false;
}

abbrev texts : List String → Value
texts ts = array (map str ts)

abbrev request : RequestEnvelope
request = record {
  request_id = "r";
  provider_instance_id = none;
  host = record {
    env = ("HOME", "/u") ∷ [];
    config_root = none;
    data_root = none;
    working_directory = none;
    deadline_unix_ms = none;
  };
  params = object (
      ("settings_id", str "codex2")
      ∷ (
        "model",
        object (
            ("name", str "gpt-luna-low")
            ∷ (
              "provider_args",
              array (
                  str "-m"
                  ∷ str "gpt-6-luna"
                  ∷ str "-c"
                  ∷ str "model_reasoning_effort=\"low\""
                  ∷ []),
            )
            ∷ []),
      )
      ∷ ("mode", str "arg")
      ∷ (
        "launch",
        object (
            ("prompt", str "hello")
            ∷ (
              "argv",
              array (
                  str "codex2"
                  ∷ str "exec"
                  ∷ str "--dangerously-bypass-approvals-and-sandbox"
                  ∷ str "-m"
                  ∷ str "gpt-6-luna"
                  ∷ str "-c"
                  ∷ str "model_reasoning_effort=\"low\""
                  ∷ []),
            )
            ∷ []),
      )
      ∷ []);
}

abbrev pub planned : Plan sdk
planned = record {
  settings_id = "codex2";
  model = luna;
  effort = "low";
  prompt = "hello";
  env =
      ("CODEX_HOME", "/u/.codex2")
      ∷ ("CODEX_SQLITE_HOME", "/u/.codex2")
      ∷ ("AGENT_RUNNER_CODEX_DEVELOPER_INSTRUCTIONS", "")
      ∷ [];
  argv =
      "codex2" ∷ "exec" ∷ "--dangerously-bypass-approvals-and-sandbox" ∷ "-m" ∷ "gpt-6-luna" ∷ "-c"
      ∷ "model_reasoning_effort=\"low\"" ∷ [];
  mediation = none;
  exploration = none;
}

abbrev fit : Bool → Result (Unit {0})
fit mediated = ok tt

evaluate_lem_example :
    ((p : Plan sdk) × (plan sdk none request true ≡ ok p)
      × (fit (is_some p.mediation) ≡ ok tt)
      × (IsPlan sdk none request true p)
      × (IsAccepted sdk none request p (evaluate sdk none request fit)))
    ⊎ ((e : ProviderFailure) × ((plan sdk none request true ≡ err e)
          ⊎ ((p : Plan sdk) × (plan sdk none request true ≡ ok p)
              × (fit (is_some p.mediation) ≡ err e)))
        × (IsRejected sdk none request e (evaluate sdk none request fit)))
evaluate_lem_example = evaluate_lem sdk none request fit

abbrev entry : String → Value
entry slug = object (
    ("slug", str slug)
    ∷ ("apply_patch_tool_type", null)
    ∷ ("tool_mode", null)
    ∷ ("multi_agent_version", null)
    ∷ ("node_repl_disabled", boolean true)
    ∷ ("supports_search_tool", boolean false)
    ∷ ("experimental_supported_tools", array [])
    ∷ [])

abbrev catalog_json : Value
catalog_json =
    object (("models", array (entry astra ∷ entry luna ∷ entry terra ∷ entry sol ∷ [])) ∷ [])

abbrev pub disk : Disk
disk = record {
  is_file = λ path. path == "/b/codex" || path == "/b/prompt";
  read_file_bounded = λ path limit. some (0 ∷ []);
  from_utf8 = λ bs. some "prompt";
  from_toml = λ s. none;
  parse_json = λ bs. some catalog_json;
}

abbrev pub config : RuntimeConfig
config = record {
  codex_bin = "/b/codex";
  bun_bin = "bun";
  bash_mcp_path = "/m/mcp.ts";
  system_prompt_file = "/b/prompt";
  agent_bash_bin = "";
  agent_runner_bin = "";
}

validated : validate_for_mediation disk config true ≡ ok tt
unfolding validate_for_mediation is_absolute values at
validated = refl

validate_for_mediation-IsDefined_example :
    (HasPaths disk config true)
    × (entries : List Value) × (read_catalog disk config ≡ ok entries)
    × (IsDefined entries "gpt-6-astra")
    × (IsDefined entries "gpt-6-luna")
    × (IsDefined entries "gpt-5.6-terra")
    × (IsDefined entries "gpt-6.1-sol")
    × (HasPrompt disk config)
validate_for_mediation-IsDefined_example =
    validate_for_mediation-IsDefined disk config true validated
