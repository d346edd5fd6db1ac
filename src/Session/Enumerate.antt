-- ===== src/Session/Enumerate.antt =====
-- `enumerate` of src/session.rs. serde's decoder and printer, SHA-256, and the time of a file are
-- outside the repository.
pub mod Laws
pub mod Pages
use agent_runner_codex.Prelude.{
  ℕ, zero, suc, ◌+◌, ◌-◌, ◌^◌, String, Bool, true, false, not, ◌||◌, ◌&&◌, ◌==◌, ◌⋯◌, Bytes, List,
  [], ◌∷◌, ◌++◌, Option, none, some, ltb, leb, eqb, if◌then◌else◌, length, take, drop, any, or_else,
  unwrap_or, is_some, keep_if, min, map, show,
}
use agent_runner_codex.Prelude.Sorting.{sort_by, text_leb}
use agent_runner_codex.Prelude.Decimal.{parse_usize, split_colon}
use agent_runner_codex.Json.{Value, null, boolean, str, num, array, object, at, as_str, as_u64}
use agent_runner_codex.Envelope.{
  ProviderFailure, Result, ok, err, ◌>>=◌, ◌>>◌, ok_or, refuse_if, conflict, empty_object,
}
use agent_runner_codex.Session.{RolloutFile, RolloutMeta, invalid, metadata}
use agent_runner_codex.Session.Rollout.{Calendar, read_rollout, timestamp_ms}
use agent_runner_codex.Session.Walk.{io_failure}

pub record EnumerateParams : Type 0 where
  pub settings_id : String
  pub limit : Option ℕ
  pub cursor : Option String
  pub include_cwd : Bool
  pub include_turn_count : Bool
  pub since_unix_ms : Option ℕ

abbrev pub max_page_size : ℕ
max_page_size = 1000

abbrev optional_num : Option ℕ → Value
optional_num none = null
optional_num (some n) = num n

abbrev optional_str : Option String → Value
optional_str none = null
optional_str (some s) = str s

-- `Option`'s order: nothing comes first
abbrev pub rank : Option ℕ → ℕ
rank none = 0
rank (some n) = suc n

abbrev pub name_leb : Option String → Option String → Bool
name_leb none t = true
name_leb (some s) none = false
name_leb (some s) (some t) = text_leb s t

-- the order of entries: the latest first, then by identity
unfoldable pub entry_leb : Value → Value → Bool
entry_leb a b =
    let age = rank (as_u64 (at a "updated_unix_ms")) in
    let age' = rank (as_u64 (at b "updated_unix_ms")) in
    if ltb age' age
    then true
    else if eqb age' age
    then name_leb (as_str (at a "provider_session_id")) (as_str (at b "provider_session_id"))
    else false

-- `dedup`
unfoldable pub dedup : List String → List String
dedup [] = []
dedup (s ∷ []) = s ∷ []
dedup (s ∷ t ∷ texts) = let rest = dedup (t ∷ texts) in if s == t then rest else s ∷ rest

-- the test on `since_unix_ms`
unfoldable pub is_older : Option ℕ → Option ℕ → Bool
is_older (some since) (some updated) = ltb updated since
is_older _ _ = false

unfoldable pub entry_of : EnumerateParams → String → RolloutMeta → Option ℕ → Option ℕ → Value
entry_of params path meta updated turn_count = object (
    (("provider_session_id", str meta.id)
      ∷ ("created_unix_ms", optional_num meta.created_unix_ms)
      ∷ ("updated_unix_ms", optional_num updated)
      ∷ ("source", object (("kind", str "codex.rollout") ∷ ("detail", str path) ∷ []))
      ∷ [])
    ++ ((if params.include_cwd then ("cwd", optional_str meta.cwd) ∷ [] else [])
        ++ (if params.include_turn_count
            then ("turn_count", optional_num turn_count) ∷ []
            else [])))

abbrev texts : List String → List Value
texts = map str

-- the entries, and the warnings
pub record Population : Type 0 where
  pub entries : List Value
  pub warnings : List String

abbrev with_entry : Bool → Value → Population → Population
with_entry skip entry p = record {
  entries = if skip then p.entries else entry ∷ p.entries;
  warnings = p.warnings;
}

abbrev with_warning : Bool → String → Population → Population
with_warning warn warning p = record {
  entries = p.entries;
  warnings = if warn then warning ∷ p.warnings else p.warnings;
}

-- A page: the entries from the offset on, whether they are the last, and the next cursor.
pub record Slice : Type 0 where
  pub sessions : List Value
  pub complete : Bool
  pub next_cursor : Option String

abbrev pub cursor_at : String → ℕ → String
cursor_at fingerprint n = "codex-v1" ⋯ (":" ⋯ (fingerprint ⋯ (":" ⋯ show n)))

-- the end of a page, with `saturating_add`
abbrev pub page_end : ℕ → ℕ → ℕ → ℕ
page_end offset limit count = min (min (offset + limit) (2 ^ 64 - 1)) count

-- what the fingerprint of a listing covers
abbrev pub fingerprinted : EnumerateParams → String → List Value → List String → Value
fingerprinted params root entries warnings = object (
    ("root", str root)
    ∷ ("settings_id", str params.settings_id)
    ∷ ("entries", array entries)
    ∷ ("include_cwd", boolean params.include_cwd)
    ∷ ("include_turn_count", boolean params.include_turn_count)
    ∷ ("since_unix_ms", optional_num params.since_unix_ms)
    ∷ ("warnings", array (texts warnings))
    ∷ [])

abbrev pub listing_answer : Slice → List String → Value
listing_answer slice warnings = object (
    ("sessions", array slice.sessions)
    ∷ ("complete", boolean slice.complete)
    ∷ ("next_cursor", optional_str slice.next_cursor)
    ∷ ("warnings", array (texts warnings))
    ∷ [])

-- the page that begins at an offset
abbrev pub slice_at : String → List Value → ℕ → ℕ → Slice
slice_at fingerprint entries limit offset =
    let last = page_end offset limit (length entries) in
    let complete = eqb last (length entries) in
    record {
      sessions = take (last - offset) (drop offset entries);
      complete = complete;
      next_cursor = if complete then none else some (cursor_at fingerprint last);
    }

module _ (request_id : String) where
  stale_cursor : ProviderFailure
  stale_cursor =
      conflict request_id "codex_session_cursor_stale"
        "Enumeration cursor does not match this account or its current session population"
        empty_object

  -- where the pieces of a cursor point, among `count` entries
  unfoldable pub pieces_offset : String → ℕ → List String → Result ℕ
  unfolding stale_cursor parse_usize
  pieces_offset fingerprint count (version ∷ print ∷ offset ∷ []) =
      if not (version == "codex-v1") || not (print == fingerprint)
      then err stale_cursor
      else ok_or (keep_if (λ n. leb n count) (parse_usize offset))
          (invalid request_id "Invalid Codex enumeration cursor")
  pieces_offset fingerprint count _ = err stale_cursor

  unfoldable pub offset_of : String → ℕ → Option String → Result ℕ
  unfolding pieces_offset split_colon
  offset_of fingerprint count none = ok 0
  offset_of fingerprint count (some cursor) = pieces_offset fingerprint count (split_colon cursor)

  -- from the cursor to the answer
  unfoldable pub page : String → List Value → ℕ → Option String → Result Slice
  unfolding offset_of
  page fingerprint entries limit cursor = do
    offset ← offset_of fingerprint (length entries) cursor
    ok (slice_at fingerprint entries limit offset)

  -- What is outside: the calendar, the JSON parser and printer, SHA-256 in hexadecimal, and the time of
  -- a file: `none` where its metadata cannot be had, and `some none` where it has no time since 1970.
  module _ (calendar : Calendar) (parse_json : Bytes → Option Value)
      (file_time : RolloutFile → Option (Option ℕ)) where
    -- `include_turn_count`: the number of turns, and whether the rollout is incomplete
    unfoldable pub counted : Bool → RolloutFile → String → Result (Option ℕ × Bool)
    unfolding read_rollout
    counted false file id = ok (none, false)
    counted true file id = do
      rollout ← read_rollout calendar parse_json request_id file (some id)
      ok (some (length rollout.turns), not rollout.complete)

    -- The loop over the rollouts, with the identities seen so far.
    unfoldable pub population : EnumerateParams → List String → List RolloutFile → Result Population
    unfolding metadata timestamp_ms counted entry_of is_older
    population params identities [] = ok (record { entries = []; warnings = [] })
    population params identities (file ∷ files) =
        let skipped = population params identities files in
        let others : String → Result Population = λ id. population params (id ∷ identities) files in
        elim (metadata request_id parse_json (timestamp_ms calendar) file) [
          | err e ↦ skipped >>= λ rest.
              ok (with_warning true "Skipped an unreadable or malformed Codex rollout" rest)
          | ok meta ↦ (do
            refuse_if (any (λ id. id == meta.id) identities) (
                conflict request_id "codex_session_ambiguous"
                  "Multiple rollouts claim the same Codex session" empty_object)
            modified ← ok_or (file_time file) (io_failure request_id)
            let updated = or_else modified meta.created_unix_ms
            turns ← counted params.include_turn_count file meta.id
            rest ← others meta.id
            ok (
                with_warning turns.1 "A Codex rollout has an incomplete final record" (
                  with_entry (is_older params.since_unix_ms updated)
                    (entry_of params file.path meta updated turns.0) rest)))
        ]

    module _ (to_vec : Value → Bytes) (sha256_hex : Bytes → String) where
      -- `enumerate`, from the decoded parameters on, with what `account_home` and `rollout_paths` answer
      unfoldable pub enumerate :
          EnumerateParams → Result String → (String → Result (List RolloutFile)) → Result Value
      unfolding population page dedup entry_leb
      enumerate params home listing = do
        let limit = unwrap_or params.limit 100
        refuse_if (eqb limit 0 || ltb max_page_size limit)
            (invalid request_id "Enumeration limit must be between 1 and 1000")
        root ← home
        files ← listing root
        found ← population params [] files
        let entries = sort_by entry_leb found.entries
        let warnings = dedup (sort_by text_leb found.warnings)
        let fingerprint = sha256_hex (to_vec (fingerprinted params root entries warnings))
        slice ← page fingerprint entries limit params.cursor
        ok (listing_answer slice warnings)
