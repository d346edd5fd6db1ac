-- ===== src/Quota.antt =====
-- src/quota.rs: `handle` and `project`. The adapter process that `probe` runs, serde's decoders, the
-- numbers of a percentage and the calendar are outside the repository.
pub mod Laws
use agent_runner_codex.Prelude.{
  ℕ, String, Bool, true, false, not, ◌||◌, ◌&&◌, ◌==◌, ◌⋯◌, ◌⊎◌, inl, inr, Bytes, List, [], ◌∷◌,
  Option, none, some, ltb, if◌then◌else◌, is_empty, length,
}
use agent_runner_codex.Prelude.Int.{ℤ, pos, negsuc}
use agent_runner_codex.Json.{Value, boolean, num, str, array, object}
use agent_runner_codex.Envelope.{
  RequestEnvelope, Result, ok, err, ◌>>=◌, ok_or, invalid_request, unsupported,
}
use agent_runner_codex.Account.{home, join, user_home}

-- What the source calls outside: the arithmetic of `f64`, with the float of a whole number and
-- the value that serde makes of a float, the decoder of the usage, and the calendar.
pub record Meter : Type 1 where
  pub Percent : Type 0
  pub is_finite : Percent → Bool
  pub float : ℕ → Percent
  pub float_leb : Percent → Percent → Bool
  pub subtract : Percent → Percent → Percent
  pub divide : Percent → Percent → Percent
  pub float_value : Percent → Value
  pub decode_usage : Bytes → Option (List (Percent × String))
  pub timestamp_millis : String → Option ℤ

abbrev no_quota : String
no_quota = "Quota adapter returned an invalid reset timestamp"

module _ (meter : Meter) where
  -- `(0.0..=100.0).contains(…)`
  unfoldable pub is_percentage : meter.Percent → Bool
  is_percentage used =
      meter.float_leb (meter.float 0) used && meter.float_leb used (meter.float 100)

  -- `(100.0 - …) / 100.0`
  unfoldable pub remaining_ratio : meter.Percent → Value
  remaining_ratio used =
      meter.float_value (meter.divide (meter.subtract (meter.float 100) used) (meter.float 100))

  -- a window, or what is wrong with it
  unfoldable pub project_window : meter.Percent × String → Value ⊎ String
  unfolding is_percentage remaining_ratio
  project_window (used, resets_at) =
      if not (meter.is_finite used) || not (is_percentage used)
      then inr "Quota adapter returned an invalid usage percentage"
      else elim (meter.timestamp_millis resets_at) [
        | none ↦ inr no_quota
        | some (negsuc n) ↦ inr no_quota
        | some (pos n) ↦
            inl (
              object
                (("remaining_ratio", remaining_ratio used) ∷ ("resets_at_unix_ms", num n) ∷ []))
      ]

  abbrev before : Value ⊎ String → List Value ⊎ String → List Value ⊎ String
  before (inr message) rest = inr message
  before (inl window) (inr message) = inr message
  before (inl window) (inl windows) = inl (window ∷ windows)

  -- `map(…).collect()`: the first failure, or all
  unfoldable pub project_all : List (meter.Percent × String) → List Value ⊎ String
  unfolding project_window
  project_all [] = inl []
  project_all (window ∷ windows) = before (project_window window) (project_all windows)

  unfoldable pub project : Bytes → List Value ⊎ String
  unfolding project_all
  project bs = elim (meter.decode_usage bs) [
    | none ↦ inr "Quota adapter returned invalid usage data"
    | some windows ↦
        if is_empty windows || ltb 16 (length windows)
        then inr "Quota adapter returned no usable quota windows"
        else project_all windows
  ]

  -- what the adapter printed, read up to one byte more than the limit
  abbrev pub max_output_bytes : ℕ
  max_output_bytes = 65536

  unfoldable pub read_output : Option Bytes → Bytes ⊎ String
  read_output none = inr "Quota output capture unavailable"
  read_output (some bs) =
      if ltb max_output_bytes (length bs) then inr "Quota adapter exceeded output limit" else inl bs

  unfoldable pub unavailable : ℕ → String → Value
  unavailable now detail = object (
      ("available", boolean false)
      ∷ ("checked_at_unix_ms", num now)
      ∷ ("windows", array [])
      ∷ ("detail", str detail)
      ∷ [])

  unfoldable pub available : ℕ → List Value → Value
  available now windows = object (
      ("available", boolean true)
      ∷ ("checked_at_unix_ms", num now)
      ∷ ("windows", array windows)
      ∷ [])

  -- What a quota operation finds: which files there are, the time, and what the adapter's process
  -- printed, `none` where that cannot be read, or why it could not be had; the arguments are the adapter, the account's authentication
  -- and its home.
  pub record Probe : Type 0 where
    pub is_file : String → Bool
    pub now_ms : ℕ
    pub run : String → String → String → Option Bytes ⊎ String

  abbrev then_project : Bytes ⊎ String → List Value ⊎ String
  then_project (inl bs) = project bs
  then_project (inr message) = inr message

  abbrev windows_of : Option Bytes ⊎ String → List Value ⊎ String
  unfolding read_output
  windows_of (inl printed) = then_project (read_output printed)
  windows_of (inr message) = inr message

  unfoldable pub probed : Probe → List Value ⊎ String → Value
  unfolding available unavailable
  probed found (inl windows) = available found.now_ms windows
  probed found (inr message) = unavailable found.now_ms message

  -- `handle`; the parameters are decoded to the account that they name
  unfoldable pub handle :
      (Value → Option String) → Option String → Probe → String → RequestEnvelope → Result Value
  unfolding home user_home join project read_output probed unavailable
  handle decode_params home_var found operation request =
      if operation == "quota.refresh_auth"
      then err (
          unsupported request.request_id "auth_refresh_unsupported"
            "Codex refreshes its authentication during native execution; standalone refresh is unavailable")
      else (do
        settings_id ← ok_or (decode_params request.params) (
            invalid_request request.request_id "invalid_quota_params"
              "Expected quota settings_id and optional model_name/context")
        codex_home ← home home_var request.host settings_id
        user ← user_home home_var request.host
        let auth = join codex_home "auth.json"
        let helper = join user ".local/bin/chatgpt-usage"
        let present = found.is_file helper && found.is_file auth
        if operation == "quota.source"
            then ok (
                object (
                  ("has_source", boolean present)
                  ∷ ("source_id", str (settings_id ⋯ ".native_auth"))
                  ∷ ("freshness", str "live_probe")
                  ∷ []))
            else if operation == "quota.probe"
            then ok (
                if present
                then probed found (windows_of (found.run helper auth codex_home))
                else unavailable found.now_ms "Native auth or quota adapter is unavailable")
            else err (
                unsupported request.request_id "unsupported_quota_operation"
                  "Unknown quota operation"))
