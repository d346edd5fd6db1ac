-- ===== src/Tests/Reading.antt =====
-- The search for a rollout, a page of it, and observation tokens at concrete inputs.
use agent_runner_codex.Prelude.{
  ℕ, zero, suc, ◌≡◌, refl, ap, String, false, Bytes, [], ◌∷◌, ◌++◌, ◌⋯◌, Option, none, some, map,
  arith, eqb, if◌then◌else◌, bytes, strip_suffix, is_blank,
}
use agent_runner_codex.Json.{Value, str, null, object, lookup, at, get}
use agent_runner_codex.Envelope.{RequestEnvelope, Result, ok, err}
use agent_runner_codex.Account.{home, is_absolute, join, user_home}
use agent_runner_codex.Session.{RolloutFile, metadata}
use agent_runner_codex.Session.Locate.{locate, locate_page_source, keep}
use agent_runner_codex.Session.Locate.Laws.{claims, listed, locate_unique}
use agent_runner_codex.Pages.Types.{Binding, Cursor, Params, protocol, Stamp}
use agent_runner_codex.Pages.Store.{Platform, partial_bytes, persist}
use agent_runner_codex.Pages.Pack.{ends_newline, frame_of, read_frame}
use agent_runner_codex.Pages.Directory.{find}
use agent_runner_codex.Pages.Observation.{
  Wire, ObservationCursor, authenticate, observation_load, observation_prefix, observation_token,
}
use agent_runner_codex.Pages.Observation.RoundTrip.{
  IsCarried, IsWire, observation_load-token, observation_load_sound,
}
use agent_runner_codex.Pages.Params.{IsAdmitted, params, params-IsAdmitted}
use agent_runner_codex.Pages.Project.{Printer, ReadAccounting, fits, project}
use agent_runner_codex.Pages.Scan.{Progress, scan_records}
use agent_runner_codex.Pages.Storage.{PageStorage, new_storage, observation}
use agent_runner_codex.Pages.Store.Charges.{Limits, reserve_growth}
use agent_runner_codex.Pages.Read.{Outside, Page, Surroundings, framed_page, read_turns_with_limits}
use agent_runner_codex.Pages.Read.Scanned.{IsScanned, scan_records-IsScanned}
use agent_runner_codex.Pages.Read.Forward.{IsForward, framed_page-IsForward}
use agent_runner_codex.Pages.Read.Response.{IsWithin, read_turns-IsWithin}
use agent_runner_codex.Tests.Codec.{observation_cursor, spelled, unspelled, unspelled-spelled}

abbrev zeros : ℕ → Bytes
zeros zero = []
zeros (suc n) = 0 ∷ zeros n

abbrev first_of : Option (ObservationCursor × Bytes) → Option ObservationCursor
first_of none = none
first_of (some r) = some r.0

abbrev pub wire : Wire
unfolding observation_cursor
wire = record {
  sha256 = λ bs. zeros 32;
  sha256_hex = λ bs. "0";
  encode_base64 = spelled;
  decode_base64 = unspelled;
  encode_binding = λ b. [];
  encode_cursor = λ c. observation_cursor.enc c;
  decode_cursor = λ bs. first_of (observation_cursor.dec (bs ++ []));
}

wire-IsWire : IsWire wire
unfolding wire
wire-IsWire = record {
  digest_size = λ bs. refl;
  base64 = unspelled-spelled;
  cursor = λ c. ap first_of (observation_cursor.dec-enc c []);
}

abbrev a_binding : Binding
a_binding = record {
  provider = "p";
  account = "/u/.codex";
  settings = "codex";
  session = "s";
  projection = "user_observation";
  nonce = none;
}

abbrev a_stamp : Stamp
a_stamp = record { device = 1; inode = 2; len = 4; modified = 0 }

abbrev a_cursor : Cursor
a_cursor = record {
  kind = "";
  binding = a_binding;
  budgets = record { turns = 1; response = 2; source = 1; inline = 0 };
  stamp = a_stamp;
  snapshot = "";
  offset = 2;
  page = 0;
  sequence = 0;
  partial_record = none;
}

observation_load-token_example :
    observation_load wire "r" (zeros 32) (observation_token wire (zeros 32) a_cursor) a_binding
    ≡ ok a_cursor
observation_load-token_example =
    observation_load-token wire wire-IsWire "r" (zeros 32) a_cursor (omega arith)

loaded :
    observation_load wire "r" (zeros 32) (observation_token wire (zeros 32) a_cursor) a_binding
    ≡ ok a_cursor
loaded = observation_load-token wire wire-IsWire "r" (zeros 32) a_cursor (omega arith)

observation_load_sound_example :
    (text : Bytes) × (k : ObservationCursor) × (observation_token wire (zeros 32) a_cursor
      ≡ observation_prefix ⋯ wire.encode_base64 (text ++ authenticate wire (zeros 32) text))
    × IsCarried wire wire-IsWire "r" a_binding a_cursor text k
observation_load_sound_example =
    observation_load_sound wire wire-IsWire "r" (zeros 32)
      (observation_token wire (zeros 32) a_cursor) a_binding a_cursor loaded

-- a rollout of two records: the session's own, and a message
abbrev meta_json : Value
meta_json = object (("type", str "session_meta") ∷ ("payload", object (("id", str "s") ∷ [])) ∷ [])

abbrev message_json : Value
message_json = object (
    ("type", str "response_item")
    ∷ ("timestamp", str "t")
    ∷ (
      "payload",
      object (("type", str "message") ∷ ("role", str "user") ∷ ("content", str "hello") ∷ []),
    )
    ∷ [])

abbrev parse_json : Bytes → Option Value
parse_json [] = none
parse_json (b ∷ bs) = if eqb b b'm' then some meta_json else some message_json

abbrev no_time : Option String → Option ℕ
no_time t = none

abbrev rollout : RolloutFile
rollout = record {
  path = "/u/.codex/sessions/rollout-1-s.jsonl";
  name = "rollout-1-s.jsonl";
  stamp = a_stamp;
  content = b'm' ∷ b'\n' ∷ b'u' ∷ b'\n' ∷ [];
}

was_located : locate parse_json no_time "r" "s" (rollout ∷ []) ≡ ok (some rollout.path)
unfolding locate metadata read_frame at bytes
was_located = refl

locate_unique_example :
    map (λ (f : RolloutFile). f.path) (keep (claims parse_json no_time "r" "s") (rollout ∷ []))
    ≡ listed parse_json no_time "r" "s" (some rollout.path)
locate_unique_example =
    locate_unique parse_json no_time "r" "s" (rollout ∷ []) (some rollout.path) was_located

abbrev some_params : Params
some_params = record {
  settings_id = "codex";
  session_id = "s";
  read_protocol = protocol;
  turn_projection = "canonical_ingest";
  expected_delivery_nonce = none;
  start_mode = "beginning";
  after_token = none;
  snapshot_id = none;
  page_token = none;
  max_turns = 2;
  max_response_bytes = 1024;
  max_source_bytes = 100;
  max_inline_body_bytes = 10;
}

abbrev decode_params : Value → Option Params
decode_params v = some some_params

abbrev request : RequestEnvelope
request = record {
  request_id = "r";
  provider_instance_id = some "p";
  host = record {
    env = ("HOME", "/u") ∷ [];
    config_root = none;
    data_root = none;
    working_directory = none;
    deadline_unix_ms = none;
  };
  params = object (
      ("settings_id", null)
      ∷ ("session_id", null)
      ∷ ("read_protocol", null)
      ∷ ("turn_projection", null)
      ∷ ("start_mode", null)
      ∷ ("after_token", null)
      ∷ ("snapshot_id", null)
      ∷ ("page_token", null)
      ∷ ("max_turns", null)
      ∷ ("max_response_bytes", null)
      ∷ ("max_source_bytes", null)
      ∷ ("max_inline_body_bytes", null)
      ∷ []);
}

were_accepted : params decode_params request ≡ ok some_params
unfolding params get bytes
were_accepted = refl

params-IsAdmitted_example : IsAdmitted decode_params request some_params
params-IsAdmitted_example = params-IsAdmitted decode_params request some_params were_accepted

abbrev printer : Printer
printer = record {
  contract = "c";
  normal_timestamp = λ s. some s;
  chunks_to_vec = λ ts. 1 ∷ [];
  to_vec = λ v. 1 ∷ 2 ∷ [];
  digest = λ bs. "0";
}

abbrev plain_platform : Platform
plain_platform = record {
  sha256_hex = λ bs. "00";
  encode = λ c. b'c' ∷ [];
  decode = λ bs. none;
  read_bounded = λ bs n. some bs;
}

abbrev pub outside : Outside
outside = record {
  platform = plain_platform;
  wire = wire;
  printer = printer;
  parse_json = parse_json;
  timestamp_ms = no_time;
  decode_params = decode_params;
  encode_snapshot = λ b s o u. [];
}

abbrev pub here : Surroundings
here = record {
  home_var = none;
  rollouts = ok (rollout ∷ []);
  directory = [];
  key = ok [];
  later = a_stamp;
}

abbrev page_limits : Limits
page_limits = (65536, 3)

abbrev answer : Result (Value × PageStorage) → Value × PageStorage
answer (ok r) = r
answer (err e) = (null, observation [] [])

abbrev page_read : Value × PageStorage
unfolding read_turns_with_limits
page_read = answer (read_turns_with_limits outside request page_limits here)

read_page : read_turns_with_limits outside request page_limits here ≡ ok page_read
unfolding page_read read_turns_with_limits params get bytes locate_page_source strip_suffix
    ends_newline read_frame at home user_home lookup is_absolute join is_blank new_storage
    partial_bytes project fits persist find reserve_growth frame_of
read_page = refl

read_turns-IsWithin_example : IsWithin outside request page_read
read_turns-IsWithin_example =
    read_turns-IsWithin outside request page_limits here page_read read_page

abbrev examined : ReadAccounting
examined = record { metadata = 2; forward = 2; reconstruction = 0 }

abbrev token_text : Cursor → String
token_text c = "t"

abbrev nothing_yet : Progress
nothing_yet = record { next = a_cursor; turns = []; consumed = 0 }

abbrev gathered : Result Progress → Progress
gathered (ok g) = g
gathered (err e) = nothing_yet

abbrev last_progress : Progress
unfolding scan_records
last_progress = gathered (
    scan_records printer parse_json "r" token_text false some_params a_cursor examined 2 nothing_yet
      ((b'u' ∷ b'\n' ∷ []) ∷ []))

scanned :
    scan_records printer parse_json "r" token_text false some_params a_cursor examined 2 nothing_yet
      ((b'u' ∷ b'\n' ∷ []) ∷ [])
    ≡ ok last_progress
unfolding last_progress scan_records ends_newline project at fits
scanned = refl

scan_records-IsScanned_example :
    IsScanned printer parse_json "r" token_text false some_params a_cursor examined 2 nothing_yet
      last_progress
      ((b'u' ∷ b'\n' ∷ []) ∷ [])
scan_records-IsScanned_example =
    scan_records-IsScanned printer parse_json "r" token_text false some_params a_cursor examined 2
      nothing_yet last_progress ((b'u' ∷ b'\n' ∷ []) ∷ []) (omega arith) scanned

abbrev storage : PageStorage
storage = observation [] (zeros 32)

abbrev paged : Result Page → Page
paged (ok g) = g
paged (err e) = record {
  next = a_cursor;
  turns = [];
  examined = examined;
  complete = false;
  checkpoint = none;
  storage = storage;
}

abbrev framed : Page
unfolding framed_page
framed =
    paged (
      framed_page outside "r" some_params storage rollout a_cursor 2 [] (b'u' ∷ b'\n' ∷ [])
        examined)

framed_once :
    framed_page outside "r" some_params storage rollout a_cursor 2 [] (b'u' ∷ b'\n' ∷ []) examined
    ≡ ok framed
unfolding framed framed_page ends_newline project at fits
framed_once = refl

framed_page-IsForward_example :
    IsForward outside "r" some_params storage rollout a_cursor 2 (b'u' ∷ b'\n' ∷ []) framed
framed_page-IsForward_example =
    framed_page-IsForward outside "r" some_params storage rollout a_cursor 2 [] (b'u' ∷ b'\n' ∷ [])
      examined framed (omega arith) framed_once
