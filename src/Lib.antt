-- ===== src/Lib.antt =====
-- A verification library of the Codex provider: the program that an agent runner starts to route a
-- model label to Codex, to choose an account, to launch `codex exec`, to classify how it ended, and
-- to read the sessions that Codex keeps on disk page by page.
--
-- The parts and their files:
-- - Prelude: shared names, tests on numbers, lists, texts (Rust's `str` by its UTF-8 bytes).
-- - Json, Envelope: `serde_json::Value`, and src/envelope.rs with the fields that the provider reads
--   of the contract's request; `Result` is Rust's `Result<_, ProviderFailure>`.
-- - Models (src/models.rs): `route`, `args`, `catalog`. Account (src/account.rs): `user_home`, `home`.
-- - Terminal (src/terminal.rs): native error events, and the classification of a finished process.
-- - Pages (src/session_turn_pages.rs): Types has its data and failures; Pack the frames of one cursor
--   file and `scan_pack` over its bytes; Directory the files of the state directory; Store `token`,
--   `load`, `persist`, `partial_bytes`, `stage_partial` and the admission of new files; Params which
--   requests are admitted; Observation the tokens of src/session_turn_pages/observation.rs; Storage
--   `PageStorage`; Project the projection of records and the page's result; Scan and Read
--   `read_turns_with_limits`, its loop and the rest.
-- - Session (src/session.rs): the identity of a rollout; Session/Locate the search for one, Walk
--   `rollout_paths`, Rollout `read_rollout`, Turns `read_turns`, Enumerate `enumerate`, Capture
--   `capture`, and Handle `handle`, which composes them with the pages.
-- - Policy (src/policy.rs): `plan` and `evaluate`; Policy/Config `RuntimeConfig`.
-- - Quota (src/quota.rs): `handle` and `project`. Dispatch (src/dispatch.rs, src/discovery.rs): one
--   invocation, `write_invocation`, which admits a request and calls the operation that it names.
-- - Launch (src/launch.rs): the events of `codex exec --json` and how a launch ends, by the adapter's
--   `output` and `finish`, as functions from its state to a new state and what is sent; Launch/Args
--   `native_args`, and Launch/Failures what answers the errors of the lifecycle.
-- - Tests: the properties at concrete inputs, with an encoding of cursors written for them.
--
-- How the state corresponds: the state directory is an association list from names to files, and an
-- operation of the store is a function from it to a result with the new directory. All run under the
-- directory's lock, so each is one step; another writer's death in the middle of a write is the
-- directory that it leaves (`IsTorn`). A system call that fails although the directory allows it is
-- not modelled.
--
-- Fuel: `scan_from`, `metadata_from` and `read_lines` read at least one byte a round and are given
-- more fuel than the file has bytes. `walk` takes one directory a round: the two that it begins with,
-- and those among the 400000 entries that the source visits at most, so that 400003 rounds are enough.
-- A panic of `read_turns` in Turns, of the catalog's `expect`, and of the parent of the
-- integration's path in Launch/Args, is the value `none`. Other panics are not modelled: of paging
-- the `unwrap` of a printer's result and of a continuation's cursor, which `params` has made sure
-- of, and an underflow of its lengths, where the subtraction here stops at 0.
--
-- Not modelled, and why: the code of other repositories (the digest, the JSON parser and printer,
-- serde's derived decoders, the calendar, the SDK's lifecycle, framing, durable files, mediation and
-- exploration offers) is a parameter wherever the code calls it; what a page finds outside (the
-- rollouts, the directory, the key, the file's generation afterwards) is given as `Surroundings`, and
-- what the other session operations find (the answers of the file system, the files by their path and
-- their times) as `World`; a file that is found is taken to be one that can be opened. The making of
-- the key file is not modelled; the processes, pipes, signals and terminals of src/launch.rs,
-- src/native_process.rs, src/interactive.rs and src/resident.rs are input and output; src/main.rs and
-- src/registration.rs assemble texts and files; the process that src/quota.rs runs is given by what it
-- printed, and what src/dispatch.rs calls of src/launch.rs and src/resident.rs as functions.
pub mod Prelude
pub mod Json
pub mod Envelope
pub mod Models
pub mod Account
pub mod Terminal
pub mod Pages
pub mod Session
pub mod Launch
pub mod Tests
pub mod Dispatch
pub mod Policy
pub mod Quota
