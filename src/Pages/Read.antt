-- ===== src/Pages/Read.antt =====
-- `read_turns_with_limits` of src/session_turn_pages.rs. What it finds outside is given: the rollouts
-- that `rollout_paths` lists, the state directory, the outcome of reading the authentication key, and
-- the generation of the file when the page has been made.
pub mod Scanned
pub mod Response
pub mod Forward
use agent_runner_codex.Prelude.{
  ℕ, ◌+◌, ◌-◌, min, String, Bool, true, false, not, ◌||◌, ◌&&◌, ◌==◌, Bytes, List, [], ◌∷◌, ◌++◌,
  Option, none, some, eqb, ltb, if◌then◌else◌, length, take, drop, is_some, is_blank, keep_if,
  or_else, contains_byte,
}
use agent_runner_codex.Json.{Value}
use agent_runner_codex.Envelope.{
  ProviderFailure, RequestEnvelope, Result, ok, err, ◌>>=◌, ◌>>◌, ok_or, refuse_if,
}
use agent_runner_codex.Account.{home, is_absolute, join, user_home}
use agent_runner_codex.Session.{RolloutFile}
use agent_runner_codex.Session.Locate.{locate_page_source}
use agent_runner_codex.Pages.Types.{
  Binding, Budgets, Cursor, Params, PartialRecord, Stamp, binding_eq, budgets_eq, capacity, invalid,
  max_record_bytes, stale,
}
use agent_runner_codex.Pages.Directory.{Directory}
use agent_runner_codex.Pages.Store.{Platform}
use agent_runner_codex.Pages.Store.Charges.{Limits}
use agent_runner_codex.Pages.Observation.{Wire}
use agent_runner_codex.Pages.Params.{params}
use agent_runner_codex.Pages.Project.{Printer, ReadAccounting, Turn, fits, page_result}
use agent_runner_codex.Pages.Storage.{
  PageStorage, is_observation, new_storage, storage_load, storage_persist, storage_prefix,
  storage_stage, storage_token,
}
use agent_runner_codex.Pages.Scan.{Progress, omitted, scan_records, split_inclusive}

-- What the reader calls outside the repository.
pub record Outside : Type 0 where
  pub platform : Platform
  pub wire : Wire
  pub printer : Printer
  pub parse_json : Bytes → Option Value
  pub timestamp_ms : Option String → Option ℕ
  pub decode_params : Value → Option Params
  pub encode_snapshot : Binding → Stamp → ℕ → Budgets → Bytes

-- What the reader finds.
pub record Surroundings : Type 0 where
  pub home_var : Option String
  pub rollouts : Result (List RolloutFile)
  pub directory : Directory
  pub key : Result Bytes
  pub later : Stamp

abbrev pub budgets_of : Params → Budgets
budgets_of p = record {
  turns = p.max_turns;
  response = p.max_response_bytes;
  source = p.max_source_bytes;
  inline = p.max_inline_body_bytes;
}

-- `map_err` of `account_home`
abbrev pub with_request_id {ℓ} : {A : Type ℓ} → String → Result A → Result A
with_request_id request_id (ok a) = ok a
with_request_id request_id (err e) = err (record {
  request_id = request_id;
  category = e.category;
  code = e.code;
  message = e.message;
  details = e.details;
  retryable = e.retryable;
  exit_code = e.exit_code;
})

-- a missing file is a stale cursor where a cursor was bound to it
abbrev bound_error {ℓ} : {A : Type ℓ} → Bool → String → Result A → Result A
bound_error bound request_id (ok a) = ok a
bound_error bound request_id (err e) =
    if bound && (e.code == "codex_session_not_found") then err (stale request_id) else err e

-- `require_generation`
unfoldable pub require_generation : String → Stamp → Stamp → Result (Unit {0})
require_generation request_id old current =
    refuse_if
      (not (eqb old.device current.device)
        || not (eqb old.inode current.inode)
        || ltb current.len old.len
        || eqb current.len old.len && not (eqb old.modified current.modified))
      (stale request_id)

abbrev if_some {ℓ} : {A : Type ℓ} → Option A → (A → Bool) → Bool
if_some none test = false
if_some (some a) test = test a

-- a cursor's fields from `persist`'s view: the offset, and the record that is left unfinished
abbrev with_partial : Cursor → ℕ → PartialRecord → Cursor
with_partial next offset staged = record {
  kind = next.kind;
  binding = next.binding;
  budgets = next.budgets;
  stamp = next.stamp;
  snapshot = next.snapshot;
  offset = offset;
  page = next.page;
  sequence = next.sequence;
  partial_record = some staged;
}

abbrev at_offset : Cursor → ℕ → Cursor
at_offset next offset = record {
  kind = next.kind;
  binding = next.binding;
  budgets = next.budgets;
  stamp = next.stamp;
  snapshot = next.snapshot;
  offset = offset;
  page = next.page;
  sequence = next.sequence;
  partial_record = next.partial_record;
}

-- where the last line ends, in a read that starts at `start`; 0 where no line does
unfoldable pub last_line_end : ℕ → Bytes → ℕ
last_line_end start [] = 0
last_line_end start (b ∷ bs) =
    let later = last_line_end (start + 1) bs in
    if eqb later 0 then (if eqb b b'\n' then start + 1 else 0) else later

-- a page before it is written
pub record Page : Type 0 where
  pub next : Cursor
  pub turns : List Turn
  pub examined : ReadAccounting
  pub complete : Bool
  pub checkpoint : Option Cursor
  pub storage : PageStorage

module _ (outside : Outside) (request_id : String) where
  open outside use {platform, wire, printer, parse_json, encode_snapshot}

  -- the cursor that the page starts from
  unfoldable pub start_state : Params → Binding → Option Cursor → Stamp → ℕ → Result Cursor
  start_state p binding old current metadata_end =
      let offset : ℕ = elim old [ none ↦ metadata_end | some s ↦ s.offset ] in
      let fresh : Cursor = record {
        kind = "page";
        binding = binding;
        budgets = budgets_of p;
        stamp = current;
        snapshot = platform.sha256_hex (encode_snapshot binding current offset (budgets_of p));
        offset = offset;
        page = 0;
        sequence = 0;
        partial_record = elim old [ none ↦ none | some s ↦ s.partial_record ];
      } in
      if p.start_mode == "continuation"
      then (do
        s ← ok_or old (stale request_id)
        refuse_if
            (not (s.kind == "page")
              || not (budgets_eq s.budgets (budgets_of p))
              || not (if_some p.snapshot_id (λ t. s.snapshot == t)))
            (stale request_id)
        ok s)
      else (do refuse_if (if_some old (λ s. not (s.kind == "resume"))) (stale request_id); ok fresh)

  module _ (p : Params) (storage : PageStorage) (file : RolloutFile) (state : Cursor)
      (metadata_bytes : ℕ) where
    -- the branch for the start mode "tail"
    unfoldable pub tail_page : Result Page
    unfolding last_line_end
    tail_page = do
      let start = file.stamp.len - (p.max_source_bytes - metadata_bytes)
      let bs = take (file.stamp.len - start) (drop start file.content)
      refuse_if (not (eqb (length bs) (file.stamp.len - start))) (stale request_id)
      let offset = last_line_end start bs
      refuse_if (eqb offset 0 && ltb 0 file.stamp.len)
          (capacity request_id "Tail budget cannot locate a complete record boundary")
      ok (record {
        next = at_offset state offset;
        turns = [];
        examined = record { metadata = metadata_bytes; forward = length bs; reconstruction = 0 };
        complete = true;
        checkpoint = none;
        storage = storage;
      })

    -- the page at the last complete record
    abbrev pub whole_page : ReadAccounting → Progress → Page
    whole_page examined g = record {
      next = g.next;
      turns = g.turns;
      examined = examined;
      complete = eqb g.next.offset state.stamp.len;
      checkpoint = none;
      storage = storage;
    }

    -- the page at the end of what was read, with the record there retained
    abbrev pub partial_page : ℕ → ReadAccounting → Progress → PartialRecord × PageStorage → Page
    partial_page offset examined g staged = record {
      next = with_partial g.next offset staged.0;
      turns = g.turns;
      examined = examined;
      complete = eqb offset state.stamp.len;
      checkpoint = if ltb 0 g.consumed then some g.next else none;
      storage = staged.1;
    }

    -- an unfinished record at the end of what was read is retained
    unfoldable pub finish_page : Bytes → ℕ → ReadAccounting → Progress → Result Page
    finish_page bs record_start examined g =
        let suffix = drop g.consumed bs in
        let retained = (do
          staged ← storage_stage platform wire request_id storage (record_start + g.consumed) suffix
          ok (partial_page (record_start + length bs) examined g staged)) in
        if ltb g.consumed (length bs) && not (contains_byte b'\n' suffix)
        then retained
        else ok (whole_page examined g)

    -- the records that were read, from the retained prefix on
    unfoldable pub framed_page : Bytes → Bytes → ReadAccounting → Result Page
    unfolding scan_records split_inclusive finish_page
    framed_page prefix native examined = do
      let bs = prefix ++ native
      let record_start = state.offset - length prefix
      let none_yet : Progress = record { next = state; turns = []; consumed = 0 }
      g ←
          scan_records printer parse_json request_id (storage_token platform wire storage)
            (is_observation storage) p state examined record_start none_yet (split_inclusive bs)
      page ← finish_page bs record_start examined g
      refuse_if (eqb page.next.offset state.offset && not page.complete)
          (capacity request_id "Source budget cannot hold the next complete JSONL record")
      ok page

    -- the branch for the other start modes
    unfoldable pub forward_page : Result Page
    unfolding framed_page
    forward_page = do
      let maximum = min (state.stamp.len - state.offset) (p.max_source_bytes - metadata_bytes)
      prefix ← storage_prefix platform wire request_id storage file.content state
      let quantum = min maximum (max_record_bytes - length prefix)
      let native = take quantum (drop state.offset file.content)
      refuse_if (is_observation storage && not (eqb (length native) quantum)) (stale request_id)
      framed_page prefix native (record {
        metadata = metadata_bytes;
        forward = length native;
        reconstruction = if is_observation storage then length prefix else 0;
      })

  module _ (p : Params) (state : Cursor) (page : Page) where
    abbrev result_of : Cursor → List Turn → Bool → Value × Cursor
    result_of next turns complete =
        page_result printer request_id (storage_token platform wire page.storage)
          (is_observation page.storage) state next turns page.examined complete

    abbrev rev_onto {ℓ} : {A : Type ℓ} → List A → List A → List A
    rev_onto [] ys = ys
    rev_onto (x ∷ xs) ys = rev_onto xs (x ∷ ys)

    -- the loop that leaves out inline bodies, the last turn's first; its first list is reversed
    unfoldable pub shrink : List Turn → List Turn → List Turn
    shrink [] after = after
    shrink (turn ∷ before) after =
        let shorter = shrink before (omitted turn ∷ after) in
        if fits printer request_id
          (result_of page.next (rev_onto (turn ∷ before) after) page.complete).0 p
        then rev_onto (turn ∷ before) after
        else shorter

    -- the page's result and its cursor: the whole page, or the one at the last complete record
    unfoldable pub final_result : Value × Cursor
    unfolding shrink
    final_result =
        let turns = shrink (rev_onto page.turns []) [] in
        let whole = result_of page.next turns page.complete in
        if fits printer request_id whole.0 p then whole else elim page.checkpoint [
          | none ↦ whole
          | some checkpoint ↦ result_of checkpoint turns false
        ]

    unfoldable pub publish : Result (Value × PageStorage)
    unfolding final_result
    publish = do
      refuse_if (not (fits printer request_id final_result.0 p))
          (capacity request_id "Response budget cannot hold paging metadata")
      storage ← storage_persist platform wire request_id page.storage final_result.1
      ok (final_result.0, storage)

-- the cursor's binding, the storage and the cursor of the request's token
pub record Opened : Type 0 where
  pub binding : Binding
  pub storage : PageStorage
  pub old : Option Cursor

-- the file, the bytes of the records examined to find it, the end of its own record
pub record Located : Type 0 where
  pub file : RolloutFile
  pub metadata_bytes : ℕ
  pub metadata_end : ℕ

module _ (outside : Outside) (request : RequestEnvelope) (here : Surroundings) (p : Params) where
  abbrev request_id : String
  request_id = request.request_id

  -- The path of the state directory, whose files are `here.directory`; that it is created is not
  -- modelled.
  unfoldable pub state_root : Result String
  state_root = do
    base ← elim request.host.data_root [
      | none ↦ do
        user ← user_home here.home_var request.host
        ok (join user ".local/share/agent-runner-codex")
      | some path ↦
          if is_absolute path
          then ok path
          else err (invalid request_id "host.data_root must be absolute")
    ]
    ok (join base "provider-state/codex/session-pages-v1")

  unfoldable pub open_request : Limits → Result Opened
  unfolding state_root
  open_request limits = do
    provider ←
        ok_or (keep_if (λ s. not (is_blank s)) request.provider_instance_id)
          (invalid request_id "provider_instance_id is required")
    account ← with_request_id request_id (home here.home_var request.host p.settings_id)
    let binding : Binding = record {
      provider = provider;
      account = account;
      settings = p.settings_id;
      session = p.session_id;
      projection = p.turn_projection;
      nonce = p.expected_delivery_nonce;
    }
    _root ← state_root
    storage ← new_storage here.directory here.key p limits
    old ← elim (or_else p.page_token p.after_token) [
      | none ↦ ok none
      | some t ↦ do
        c ← storage_load outside.platform outside.wire request_id storage t binding
        ok (some c)
    ]
    refuse_if (if_some old (λ s. not (binding_eq s.binding binding))) (stale request_id)
    ok (record { binding = binding; storage = storage; old = old })

  unfoldable pub locate_file : Option Cursor → Result Located
  unfolding require_generation
  locate_file old = do
    rollouts ← here.rollouts
    located ← bound_error (is_some old) request_id (
        locate_page_source outside.parse_json outside.timestamp_ms request_id p.session_id
          (elim old [ none ↦ none | some s ↦ some (s.stamp.device, s.stamp.inode) ])
          p.max_source_bytes rollouts)
    let file = located.0
    elim old [
      | none ↦ ok tt
      | some s ↦ do
        refuse_if (ltb file.stamp.len s.offset) (stale request_id)
        require_generation request_id s.stamp file.stamp
    ]
    ok (record { file = file; metadata_bytes = located.1; metadata_end = located.2 })

  -- the page for a start mode
  unfoldable pub build_page : Opened → Located → Cursor → Result Page
  unfolding tail_page forward_page
  build_page opened located state =
      if p.start_mode == "tail"
      then tail_page outside request_id p opened.storage located.file state located.metadata_bytes
      else forward_page outside request_id p opened.storage located.file state
          located.metadata_bytes

unfoldable pub read_turns_with_limits :
    Outside → RequestEnvelope → Limits → Surroundings → Result (Value × PageStorage)
unfolding start_state open_request locate_file build_page publish require_generation
read_turns_with_limits outside request limits here = do
  p ← params outside.decode_params request
  opened ← open_request outside request here p limits
  located ← locate_file outside request here p opened.old
  state ←
      start_state outside request.request_id p opened.binding opened.old located.file.stamp
        located.metadata_end
  page ← build_page outside request here p opened located state
  require_generation request.request_id located.file.stamp here.later
  publish outside request.request_id p state page
