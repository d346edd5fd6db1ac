-- ===== src/Tests/Routing.antt =====
-- Labels, accounts and terminal events at concrete inputs.
use mathlib.Core.List.{Memᴰ}
use agent_runner_codex.Prelude.{
  ◌≡◌, ◌≢◌, ◌⊎◌, ◌↔◌, inl, refl, String, true, false, Bytes, [], ◌∷◌, ◌++◌, Option, none, some,
  bytes, All, strip_prefix, has_prefix, ◌⋯◌, eq_iff, arith, ℕ,
}
use agent_runner_codex.Json.{lookup, Value, str, object, at, get, pointer}
use agent_runner_codex.Envelope.{HostContext, ok}
use agent_runner_codex.Models.{route, args, bench, sol}
use agent_runner_codex.Models.Laws.{Selects, route_iff, catalog_complete, entries}
use agent_runner_codex.Account.{home, is_absolute, join}
use agent_runner_codex.Account.Laws.{canonical, home_isolated}
use agent_runner_codex.Terminal.{
  quota, TerminalClassifyParams, classify, classify_with_failure, classify_params, compact_prefix,
  event_message, from_event, is_native_error, split_lines,
}
use agent_runner_codex.Terminal.Status.{exited}
use agent_runner_codex.Terminal.Laws.{
  Explains, IsError, IsQuiet, KindOf, MayFail, classify_precedence, compaction_transparent,
  last_error_decides,
}
use agent_runner_codex.Prelude.Int.{pos}

route_iff_example : (route "gpt-low" ≡ some (sol, "low")) ↔ Selects "gpt-low" sol "low"
route_iff_example = route_iff "gpt-low" sol "low"

routed : route "gpt-terra-max" ≡ some ("gpt-5.6-terra", "max")
unfolding route
routed = refl

no_bench : "gpt-terra-max" ≢ bench
no_bench e = absurd (ground (arith, (eq_iff "gpt-terra-max" bench)))

catalog_complete_example :
    Memᴰ
      (record {
        name = "gpt-terra-max";
        provider_model = "gpt-5.6-terra";
        provider_args = args "gpt-5.6-terra" "max";
      })
      entries
catalog_complete_example = catalog_complete "gpt-terra-max" "gpt-5.6-terra" "max" routed no_bench

abbrev host : HostContext
host = record {
  env = ("HOME", "/u") ∷ [];
  config_root = none;
  data_root = none;
  working_directory = none;
  deadline_unix_ms = none;
}

home_first : home none host "codex" ≡ ok "/u/.codex"
unfolding home lookup is_absolute join
home_first = refl

home_again : home none host "codex1" ≡ ok "/u/.codex"
unfolding home lookup is_absolute join
home_again = refl

home_isolated_example : canonical "codex" ≡ canonical "codex1"
home_isolated_example = home_isolated none host "codex" "codex1" "/u/.codex" home_first home_again

abbrev whole_text : String → ℕ → String
whole_text s n = s

classify_precedence_example :
    (MayFail (exited (pos 3))
      × Explains quota true (classify_with_failure whole_text (exited (pos 3)) 7 (some quota) true))
    ⊎ ((MayFail (exited (pos 3)) → ⊥)
        × ((kind : String) × (KindOf (exited (pos 3)) kind)
            × (at (classify_with_failure whole_text (exited (pos 3)) 7 (some quota) true) "kind"
                ≡ str kind))
        × (classify_with_failure whole_text (exited (pos 3)) 7 (some quota) true
            ≡ classify whole_text (exited (pos 3)) 7))
classify_precedence_example = classify_precedence whole_text (exited (pos 3)) 7 quota true

abbrev capacity_event : Value
capacity_event = object (
    ("type", str "error")
    ∷ ("message", str "Selected model is at capacity. Please try a different model.")
    ∷ [])

abbrev parse_json : Bytes → Option Value
parse_json [] = none
parse_json (b ∷ bs) = some capacity_event

abbrev one_failure : TerminalClassifyParams
one_failure = record {
  stdout_base64 = "";
  stderr_base64 = "e\n";
  status = exited (pos 1);
  observed_at_unix_ms = 9;
}

abbrev decode_params : Value → TerminalClassifyParams ⊎ String
decode_params v = inl one_failure

abbrev decode_base64 : String → Bytes ⊎ String
unfolding bytes
decode_base64 s = inl (bytes s)

streams : (decode_base64 "" ≡ inl []) × (decode_base64 "e\n" ≡ inl (b'e' ∷ b'\n' ∷ []))
unfolding decode_base64 bytes
streams = (refl, refl)

lines : split_lines (b'e' ∷ b'\n' ∷ []) ≡ [] ++ (b'e' ∷ []) ∷ ([] ∷ [])
unfolding split_lines
lines = refl

capacity-IsError : IsError parse_json (b'e' ∷ []) capacity_event
unfolding is_native_error at get
capacity-IsError = (refl, refl)

nothing_after : All (IsQuiet parse_json) ([] ∷ [])
nothing_after = ((λ event parsed. absurd (ground (arith, parsed))), tt)

last_error_decides_example :
    classify_params whole_text parse_json decode_params decode_base64 (object []) "r" false
    ≡ ok (
        object (
          (
            "terminal_signal",
            classify_with_failure whole_text (exited (pos 1)) 9 (from_event capacity_event) false,
          )
          ∷ []))
last_error_decides_example =
    last_error_decides parse_json whole_text decode_params decode_base64 (object []) "r" false
      one_failure [] (b'e' ∷ b'\n' ∷ []) [] (b'e' ∷ []) ([] ∷ []) capacity_event refl streams.0
      streams.1 lines capacity-IsError nothing_after

abbrev error_event : String → Value
error_event message = object (("type", str "error") ∷ ("message", str message) ∷ [])

messages :
    (event_message (error_event (compact_prefix ⋯ "Quota exceeded."))
      ≡ some (compact_prefix ⋯ "Quota exceeded."))
    × ((event_message (error_event "Quota exceeded.") ≡ some "Quota exceeded.")
        × (has_prefix "Quota exceeded." compact_prefix ≡ false))
unfolding event_message at get pointer strip_prefix
messages = (refl, (refl, refl))

compaction_transparent_example :
    from_event (error_event (compact_prefix ⋯ "Quota exceeded."))
    ≡ from_event (error_event "Quota exceeded.")
compaction_transparent_example =
    compaction_transparent (error_event (compact_prefix ⋯ "Quota exceeded."))
      (error_event "Quota exceeded.") "Quota exceeded." messages.0 messages.1.0 messages.1.1
