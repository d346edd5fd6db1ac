-- ===== src/Pages/Storage.antt =====
-- `PageStorage` of src/session_turn_pages.rs: canonical pages keep their cursors in the directory, an
-- observation's tokens carry theirs.
use agent_runner_codex.Prelude.{
  ℕ, String, Bool, true, false, Bytes, length, leb, if◌then◌else◌, ◌==◌,
}
use agent_runner_codex.Envelope.{Result, ok, ◌>>=◌, ◌>>◌, refuse_if}
use agent_runner_codex.Pages.Types.{
  Binding, Cursor, Params, PartialRecord, max_record_bytes, record_limit,
}
use agent_runner_codex.Pages.Directory.{Directory}
use agent_runner_codex.Pages.Store.{Platform, load, partial_bytes, persist, stage_partial, token}
use agent_runner_codex.Pages.Store.Charges.{Admission, Limits, acquired}
use agent_runner_codex.Pages.Observation.{
  Wire, is_token, observation_load, observation_token, reconstruct,
}

pub data PageStorage : Type 0 where
  canonical : Directory → Admission → Limits → PageStorage
  observation : Directory → Bytes → PageStorage

abbrev pub is_observation : PageStorage → Bool
is_observation (canonical d admission limits) = false
is_observation (observation d key) = true

-- `key` is the outcome of reading the authentication key
unfoldable pub new_storage : Directory → Result Bytes → Params → Limits → Result PageStorage
new_storage d key p limits =
    if p.turn_projection == "user_observation"
    then (do k ← key; ok (observation d k))
    else ok (canonical d acquired limits)

module _ (platform : Platform) (wire : Wire) where
  abbrev pub storage_token : PageStorage → Cursor → String
  storage_token (canonical d admission limits) cursor = token platform cursor
  storage_token (observation d key) cursor = observation_token wire key cursor

  module _ (request_id : String) where
    abbrev pub storage_load : PageStorage → String → Binding → Result Cursor
    storage_load (canonical d admission limits) value binding = load platform request_id d value
    storage_load (observation d key) value binding =
        if is_token value
        then observation_load wire request_id key value binding
        else load platform request_id d value

    abbrev pub storage_prefix : PageStorage → Bytes → Cursor → Result Bytes
    storage_prefix (canonical d admission limits) file state =
        partial_bytes platform request_id d state
    storage_prefix (observation d key) file state = reconstruct wire request_id file state

    abbrev pub storage_stage : PageStorage → ℕ → Bytes → Result (PartialRecord × PageStorage)
    storage_stage (canonical d admission limits) start bs = do
      staged ← stage_partial platform request_id d admission limits start bs
      ok (staged.0, canonical staged.1 staged.2 limits)
    storage_stage (observation d key) start bs = do
      refuse_if (leb max_record_bytes (length bs)) (record_limit request_id)
      ok (record { start = start; sha256 = platform.sha256_hex bs }, observation d key)

    abbrev pub storage_persist : PageStorage → Cursor → Result PageStorage
    storage_persist (canonical d admission limits) cursor = do
      saved ← persist platform request_id d admission limits cursor
      ok (canonical saved.0 saved.1 limits)
    storage_persist (observation d key) cursor = ok (observation d key)
