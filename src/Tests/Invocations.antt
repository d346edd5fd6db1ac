-- ===== src/Tests/Invocations.antt =====
-- One invocation, and a probe of the quota, at concrete inputs.
use agent_runner_codex.Prelude.{
  ℕ, ◌≡◌, ◌≤◌, inl, inr, refl, String, Bool, true, List, [], ◌∷◌, some, length, bytes, leb, ◌-◌,
}
use agent_runner_codex.Prelude.Int.{ℤ, pos}
use agent_runner_codex.Json.{Value, at, array, boolean, lookup, null, num, object, str}
use agent_runner_codex.Envelope.{RequestEnvelope, Result, ok, success_response}
use agent_runner_codex.Dispatch.{Services, write_invocation}
use agent_runner_codex.Dispatch.Laws.{IsResponse, recorder, write_invocation-IsResponse}
use agent_runner_codex.Launch.Args.{Native, native_args, native_args_secret}
use agent_runner_codex.Quota.{Meter, Probe, project}
use agent_runner_codex.Quota.Laws.{AreWindows, project-AreWindows}
use agent_runner_codex.Tests.Policies.{config, disk, planned, sdk}
use agent_runner_codex.Tests.Sessions.{request, tools, world}

-- whole percentages, whose ratio is kept as its hundredths
abbrev meter : Meter
meter = record {
  Percent = ℕ;
  is_finite = λ p. true;
  float = λ n. n;
  float_leb = leb;
  subtract = λ a b. a - b;
  divide = λ a b. a;
  float_value = num;
  decode_usage = λ bs. some ((25, "t") ∷ []);
  timestamp_millis = λ s. some (pos 9);
}

abbrev windows : List Value
windows = object (("remaining_ratio", num 75) ∷ ("resets_at_unix_ms", num 9) ∷ []) ∷ []

was_projected : project meter [] ≡ inl windows
unfolding project
was_projected = refl

project-AreWindows_example :
    (us : List (ℕ × String)) × (meter.decode_usage [] ≡ some us)
    × (AreWindows meter us windows)
    × (1 ≤ length windows)
    × (length windows ≤ 16)
project-AreWindows_example = project-AreWindows meter [] windows was_projected

abbrev probe : Probe meter
probe = record { is_file = λ path. true; now_ms = 4; run = λ helper auth codex_home. inl (some []) }

abbrev services : Services
services = record {
  contract = "oulipoly.provider/v1";
  version = "1";
  prepare_name = "resident.prepare";
  parse_json = λ bs. some (object (("request_id", str "r") ∷ []));
  has_schema = λ name. true;
  validates = λ name instance. true;
  decode_request = λ instance. some request;
  advertised = λ host. [];
  bounded_text = λ s n. s;
  decode_classify = λ v. inr "no";
  decode_base64 = λ s. inr "no";
  sdk = sdk;
  disk = disk;
  meter = meter;
  decode_quota = λ v. some "codex";
  probe = probe;
  tools = tools;
  world = world;
  prepare = λ r. ok null;
}

abbrev no_launch : RequestEnvelope → Bool → List Value → Result ℤ × List Value
no_launch r present state = (ok (pos 0), state)

abbrev arguments : List String
arguments = "agent-runner-codex" ∷ "quota.probe" ∷ []

abbrev answer : Value
answer = success_response "oulipoly.provider/v1" "r" (
    object (
      ("available", boolean true)
      ∷ ("checked_at_unix_ms", num 4)
      ∷ ("windows", array windows)
      ∷ []))

answered : write_invocation services recorder no_launch arguments [] [] ≡ some (pos 0, answer ∷ [])
unfolding write_invocation success_response bytes lookup at
answered = refl

write_invocation-IsResponse_example :
    (response : Value) × (answer ∷ [] ≡ response ∷ [])
    × IsResponse services no_launch "quota.probe" [] (pos 0) response
write_invocation-IsResponse_example =
    write_invocation-IsResponse services no_launch arguments [] (pos 0) (answer ∷ []) refl refl
      answered

abbrev native : Native
native = record {
  print = λ v. "?";
  process_names = "PATH" ∷ "HOME" ∷ [];
  current_exe = some "/b/agent-runner-codex";
  exploration_env = "EXPLORE";
  explore_tool = "explore";
  bridge_subcommand = "bridge";
}

native_args_secret_example :
    native_args native sdk config planned (("TOKEN", "one") ∷ []) (some "s")
    ≡ native_args native sdk config planned (("TOKEN", "two") ∷ []) (some "s")
unfolding lookup
native_args_secret_example =
    native_args_secret native sdk config planned (("TOKEN", "one") ∷ []) (("TOKEN", "two") ∷ [])
      (some "s") refl refl
