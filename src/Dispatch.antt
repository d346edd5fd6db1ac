-- ===== src/Dispatch.antt =====
-- src/dispatch.rs and src/discovery.rs: one invocation of the provider, from its arguments and its
-- input to what it writes and its exit code. The contract's schemas, serde's decoders and the writer
-- are outside the repository; the launch and the preparation of resident sessions are given.
pub mod Laws
use agent_runner_codex.Prelude.{
  ℕ, String, Bool, true, false, not, ◌||◌, ◌&&◌, ◌==◌, ◌⋯◌, ◌⊎◌, Bytes, List, [], ◌∷◌, ◌++◌, Option,
  none, some, ltb, if◌then◌else◌, has_prefix, is_some, length, map, str_len, unwrap_or,
}
use agent_runner_codex.Prelude.Int.{ℤ, pos}
use agent_runner_codex.Json.{
  Value, Fields, null, boolean, str, obj, array, object, as_str, at, get, is_text, lookup,
  replace_field,
}
use agent_runner_codex.Envelope.{
  HostContext, ProviderFailure, RequestEnvelope, Result, ok, err, ◌>>=◌, ◌>>◌, ok_or, refuse_if,
  failure_response, internal, invalid_request, max_request_envelope_bytes, max_request_id_bytes,
  success_response, unsupported,
}
use agent_runner_codex.Account.{accounts}
use agent_runner_codex.Models.{CatalogEntry, catalog}
use agent_runner_codex.Terminal.{TerminalClassifyParams, classify_params, host_supports_unavailable}
use agent_runner_codex.Launch.{host_requested_output}
use agent_runner_codex.Policy.{Sdk}
use agent_runner_codex.Policy.Config.{Disk, configured, evaluate_configured}
use agent_runner_codex.Quota.{Meter, Probe}
use agent_runner_codex.Quota
use agent_runner_codex.Session.Handle.{Tools, World}
use agent_runner_codex.Session.Handle

-- Where an invocation writes: what a write leaves, with the text of its error where it fails.
pub record Writer : Type 1 where
  pub State : Type 0
  pub write_text : String → State → State
  pub write_json : Value → State → State × Option String
  pub write_newline : State → State × Option String

-- What an invocation calls, beside the writer: the contract's package, serde's decoders, and what the
-- operations call and find.
pub record Services : Type 1 where
  pub contract : String
  pub version : String
  pub prepare_name : String
  pub parse_json : Bytes → Option Value
  pub has_schema : String → Bool
  pub validates : String → Value → Bool
  pub decode_request : Value → Option RequestEnvelope
  pub advertised : HostContext → List (String × Value)
  pub bounded_text : String → ℕ → String
  pub decode_classify : Value → TerminalClassifyParams ⊎ String
  pub decode_base64 : String → Bytes ⊎ String
  pub sdk : Sdk
  pub disk : Disk
  pub meter : Meter
  pub decode_quota : Value → Option String
  pub probe : Probe meter
  pub tools : Tools
  pub world : World
  pub prepare : RequestEnvelope → Result Value

abbrev flag : String → Bool → String × Value
flag name set = (name, boolean set)

abbrev texts : List String → Value
texts ts = array (map str ts)

-- `discovery::accounts`
unfoldable pub discovered_accounts : Value
discovered_accounts = object (
    ("accounts", array (map (λ name. object (("id", str name) ∷ [])) accounts))
    ∷ ("warnings", array [])
    ∷ [])

abbrev entry_value : CatalogEntry → Value
entry_value e = object (
    ("name", str e.name)
    ∷ ("provider_model", str e.provider_model)
    ∷ ("provider_args", texts e.provider_args)
    ∷ ("eligible_accounts", texts accounts)
    ∷ [])

-- `discovery::models`; `none` is the panic of the catalog
unfoldable pub discovered_models : Option Value
unfolding catalog
discovered_models = elim catalog [
  | none ↦ none
  | some entries ↦
      some (object (("models", array (map entry_value entries)) ∷ ("warnings", array []) ∷ []))
]

abbrev is_one : Option String → Bool
is_one none = false
is_one (some s) = s == "1"

-- the failures of the configuration, as a list of at most one
abbrev diagnostics : Result (Unit {0}) → List Value
diagnostics (ok done) = []
diagnostics (err e) =
    object (("severity", str "error") ∷ ("code", str e.code) ∷ ("message", str e.message) ∷ []) ∷ []

abbrev is_valid : Result (Unit {0}) → Bool
is_valid (ok done) = true
is_valid (err e) = false

install_plan : Value
install_plan =
    let step =
      λ (text : String). object (("kind", str "manual") ∷ ("description", str text) ∷ []) in
    object (
      (
        "steps",
        array (
            step
              "Build this repository with cargo build --release, then run python3 scripts/install-provider.py."
            ∷ step
                "Stage and activate the Codex labels with scripts/install-labels.py after validating the provider."
            ∷ []),
      )
      ∷ [])

-- the envelope with empty parameters, where it has any
abbrev pub without_params : Value → Value
without_params (obj fields) = obj (replace_field "params" (object []) fields)
without_params v = v

-- `args.get(1)`
abbrev pub argument : List String → Option String
argument (program ∷ operation ∷ rest) = some operation
argument _ = none

abbrev returned : Result Value → Result (Option Value)
returned r = r >>= λ v. ok (some v)

-- `error.request_id = request_id`
abbrev pub with_id : String → ProviderFailure → ProviderFailure
with_id id e = record {
  request_id = id;
  category = e.category;
  code = e.code;
  message = e.message;
  details = e.details;
  retryable = e.retryable;
  exit_code = e.exit_code;
}

module _ (s : Services) where
  -- `describe`
  unfoldable pub describe : HostContext → Value
  unfolding host_requested_output
  describe host = object (
      ("provider_id", str "codex")
      ∷ ("display_name", str "Codex")
      ∷ ("contract_versions", texts (s.contract ∷ []))
      ∷ ("preferred_contract", str s.contract)
      ∷ (
        "capabilities",
        object (
            (flag "launch" true
              ∷ flag "policy" true
              ∷ flag "quota" true
              ∷ flag "session" true
              ∷ flag "session_enumerate" true
              ∷ flag "terminal" true
              ∷ flag "rotation" false
              ∷ flag "discovery" true
              ∷ flag "settings" false
              ∷ flag "setup_brain" false
              ∷ flag "setup" true
              ∷ flag "migration" false
              ∷ [])
            ++ (if host_requested_output host then flag "launch_output_v1" true ∷ [] else [])
            ++ (if is_one (lookup "OULIPOLY_HOST_SESSION_TURN_PAGES_V1" host.env)
                then flag "session_turn_pages_v1" true ∷ []
                else [])
            ++ s.advertised host),
      )
      ∷ (
        "concurrency",
        object (
            flag "safe_for_parallel_invocation" true
            ∷ flag "stdout_protocol_only" true
            ∷ (
              "notes",
              str
                  "One codex exec process per invocation; account-isolated native sessions; durable request replay and per-session locks.",
            )
            ∷ []),
      )
      ∷ [])

  -- `admit_request`
  unfoldable pub admit_request : String → Value → Result (Unit {0})
  unfolding replace_field
  admit_request operation instance =
      refuse_if
        (not (
          if s.has_schema operation
          then s.validates operation instance
          else s.validates "describe" (without_params instance)))
        (invalid_request "" "invalid_request"
          "Request does not satisfy the SDK provider/v1 contract")

  unfoldable pub parse_instance : Bytes → Result Value
  parse_instance input = do
    refuse_if (ltb max_request_envelope_bytes (length input))
        (invalid_request "" "request_too_large" "Request exceeds 4 MiB")
    ok_or (s.parse_json input)
        (invalid_request "" "invalid_request" "Expected a provider request JSON envelope")

  -- what `request_id` holds after the parse
  abbrev pub known_id : Result Value → String
  known_id (err e) = ""
  known_id (ok instance) = unwrap_or (as_str (at instance "request_id")) ""

  -- the request, and whether its host gives an environment
  unfoldable pub admit : String → Value → Result (RequestEnvelope × Bool)
  unfolding admit_request get
  admit operation instance = do
    admit_request operation instance
    request ←
        ok_or (s.decode_request instance)
          (invalid_request "" "invalid_request" "Request cannot be represented by SDK DTOs")
    refuse_if (ltb max_request_id_bytes (str_len request.request_id))
        (invalid_request "" "invalid_envelope" "Request ID exceeds the adapter's 256-byte bound")
    ok (request, is_some (get (at instance "host") "env"))

  -- the configuration's validation, of `setup.detect` and `setup.sync_plan`
  abbrev setup : RequestEnvelope → Result (Unit {0})
  unfolding configured
  setup request = configured s.disk s.world.home_var request.host false

  -- The operations but for the launch. The value is `none` where `read_turns` or
  -- the catalog panics.
  unfoldable pub perform : String → String → RequestEnvelope → Result (Option Value)
  unfolding describe discovered_models discovered_accounts evaluate_configured Quota.handle
      classify_params Handle.handle setup install_plan
  perform operation request_id request =
      if operation == "describe"
      then ok (some (describe request.host))
      else if operation == "discovery.models"
      then ok discovered_models
      else if operation == "discovery.accounts"
      then ok (some discovered_accounts)
      else if operation == "policy.evaluate"
      then ok (some (evaluate_configured s.disk s.sdk s.world.home_var request))
      else if operation == s.prepare_name
      then returned (s.prepare request)
      else if has_prefix operation "quota."
      then returned (Quota.handle s.meter s.decode_quota s.world.home_var s.probe operation request)
      else if operation == "terminal.classify"
      then returned (
          classify_params s.bounded_text s.parse_json s.decode_classify s.decode_base64
            request.params request_id (host_supports_unavailable request.host))
      else if has_prefix operation "session."
      then Handle.handle s.tools s.world request operation
      else if operation == "setup.detect"
      then ok (
          some (
            object (
              flag "installed" (is_valid (setup request))
              ∷ ("profiles", array [])
              ∷ ("warnings", array (diagnostics (setup request)))
              ∷ [])))
      else if operation == "setup.install_plan"
      then ok (some install_plan)
      else if operation == "setup.sync_plan"
      then ok (
          some (
            object (
              ("operations", array [])
              ∷ ("diagnostics", array (diagnostics (setup request)))
              ∷ [])))
      else err (
          unsupported "" "unsupported_operation"
            ("Codex temporary provider does not implement " ⋯ operation))

  module _ (writer : Writer)
      (run_wire : RequestEnvelope → Bool → writer.State → Result ℤ × writer.State) where
    -- the end of a failed invocation: the errors of these writes are ignored
    unfoldable pub failed : String → ProviderFailure → writer.State → ℤ × writer.State
    unfolding failure_response
    failed id e state =
        let response = failure_response s.contract (with_id id e) in
        let written = (writer.write_json response state).0 in
        (pos e.exit_code, (writer.write_newline written).0)

    abbrev output_failed : String → ProviderFailure
    output_failed text = internal "" "output_failed" text

    -- the end of an invocation that has a result
    unfoldable pub succeeded : String → Value → writer.State → ℤ × writer.State
    unfolding success_response failed
    succeeded id value state =
        let (written, problem) = writer.write_json (success_response s.contract id value) state in
        let (ended, late) = writer.write_newline written in
        elim problem [
          | some text ↦ failed id (output_failed text) written
          | none ↦ elim late [
            | some text ↦ failed id (output_failed text) ended
            | none ↦ (pos 0, ended)
          ]
        ]

    abbrev launched : String → Result ℤ × writer.State → ℤ × writer.State
    launched id (ok code, state) = (code, state)
    launched id (err e, state) = failed id e state

    abbrev concluded : String → writer.State → Result (Option Value) → Option (ℤ × writer.State)
    concluded id state (err e) = some (failed id e state)
    concluded id state (ok none) = none
    concluded id state (ok (some value)) = some (succeeded id value state)

    abbrev carried_out :
        String → String → writer.State → Result (RequestEnvelope × Bool) → Option (ℤ × writer.State)
    unfolding perform
    carried_out operation id state (err e) = some (failed id e state)
    carried_out operation id state (ok (request, present)) =
        if operation == "launch"
        then some (launched id (run_wire request present state))
        else concluded id state (perform operation id request)

    -- `write_invocation`; `none` is a panic
    unfoldable pub write_invocation : List String → Bytes → writer.State → Option (ℤ × writer.State)
    unfolding parse_instance admit carried_out failed succeeded
    write_invocation args input state =
        let operation = unwrap_or (argument args) "" in
        let instance = parse_instance input in
        if operation == "--version"
        then some (pos 0, writer.write_text ("agent-runner-codex " ⋯ s.version ⋯ "\n") state)
        else carried_out operation (known_id instance) state (instance >>= λ v. admit operation v)
