-- ===== src/Pages/Project.antt =====
-- The projection of one record to a turn, and the page's result, of src/session_turn_pages.rs.
use agent_runner_codex.Prelude.{
  ℕ, ◌+◌, String, Bool, true, false, not, ◌||◌, ◌&&◌, ◌==◌, ◌⋯◌, Bytes, List, [], ◌∷◌, Option, none,
  some, ltb, leb, eqb, if◌then◌else◌, length, all, is_empty, is_some, map, bytes, show, unwrap_or,
  strip_suffix, ends_space, trim_end, trim_start, unix_line_ends, str_empty,
}
use agent_runner_codex.Json.{
  Value, null, boolean, num, str, object, array, at, get, as_str, as_array, is_null, is_object,
  is_text,
}
use agent_runner_codex.Envelope.{Result, ok, ◌>>=◌, ok_or, success_response}
use agent_runner_codex.Session.{content_chunks}
use agent_runner_codex.Pages.Types.{Cursor, Params, invalid, protocol}

-- What the projection calls outside the repository: a time stamp read and written again in its
-- canonical form, the JSON of the text chunks and of a value, the digest.
pub record Printer : Type 0 where
  pub contract : String
  pub normal_timestamp : String → Option String
  pub chunks_to_vec : List String → Bytes
  pub to_vec : Value → Bytes
  pub digest : Bytes → String

abbrev text_of_type : Option String → Bool
text_of_type none = false
text_of_type (some kind) = kind == "input_text" || kind == "output_text"

abbrev is_text_part : Value → Bool
is_text_part part = text_of_type (as_str (at part "type")) && is_some (as_str (at part "text"))

-- the `match` on the classification of the content
abbrev kinds_agree : Option Value → ℕ → Bool
kinds_agree none count = true
kinds_agree (some kinds) count = is_null kinds || elim (as_array kinds) [
  | none ↦ false
  | some ks ↦ eqb (length ks) count && all (λ k. is_text k "user.text") ks
]

unfoldable pub observable_user_text : Value → Bool
observable_user_text payload = elim (as_array (at payload "content")) [
  | none ↦ false
  | some content ↦
      let metadata = at payload "internal_chat_message_metadata_passthrough" in
      if is_empty content || not (all is_text_part content)
      then false
      else if is_null metadata
      then true
      else is_object metadata && kinds_agree (get metadata "content_item_kinds") (length content)
]

abbrev body_state_inline : String
body_state_inline = "inline"

-- a turn: the fields that a page may still change, and the others
pub record Turn : Type 0 where
  pub body_state : String
  pub body : Value
  pub fields : List (String × Value)

unfoldable pub turn_json : Turn → Value
turn_json turn = object (("body_state", str turn.body_state) ∷ ("body", turn.body) ∷ turn.fields)

-- the texts of the parts that have one
abbrev texts : List Value → List String
texts [] = []
texts (part ∷ parts) = elim (as_str (at part "text")) [
  | none ↦ texts parts
  | some text ↦ text ∷ texts parts
]

abbrev joined : List String → String
joined [] = ""
joined (t ∷ ts) = t ⋯ joined ts

-- the text without the marker of its delivery, when it ends with it
abbrev without_marker : String → List String → Option String
without_marker nonce parts =
    elim (strip_suffix (trim_end (joined parts)) ("[OULIPOLY-DELIVERY " ⋯ nonce ⋯ "]")) [
      | none ↦ none
      | some prefix ↦ if str_empty prefix || ends_space prefix then some (trim_end prefix) else none
    ]

-- the chunks: the texts of the content, or the one text that a delivery marker leaves
abbrev chunks : Option String → List String → List String
chunks none parts = parts
chunks (some nonce) parts = elim (without_marker nonce parts) [
  | none ↦ parts
  | some text ↦ text ∷ []
]

abbrev text_chunk : String → Value
text_chunk text = object (("type", str "text") ∷ ("text", str text) ∷ [])

abbrev unless_empty : List String → Value → Value
unless_empty [] v = null
unless_empty (t ∷ ts) v = v

module _ (printer : Printer) (request_id : String) where
  open printer use {contract, normal_timestamp, chunks_to_vec, to_vec, digest}

  -- the end of `project`
  unfoldable pub turn_of : Params → ℕ → ℕ → String → String → List String → Turn
  turn_of p offset sequence role timestamp cs =
      let encoded = chunks_to_vec cs in
      let text = unix_line_ends (joined cs) in
      let state =
        if is_empty cs
        then "absent"
        else if ltb p.max_inline_body_bytes (length encoded)
        then "omitted_oversize"
        else body_state_inline in
      record {
        body_state = state;
        body = if state == body_state_inline then array (map text_chunk cs) else null;
        fields =
            ("session_id", str p.session_id)
            ∷ ("turn_id", str (p.session_id ⋯ ":byte:" ⋯ show offset))
            ∷ ("snapshot_sequence", num sequence)
            ∷ ("timestamp", str timestamp)
            ∷ ("role", str role)
            ∷ ("parent_turn_id", null)
            ∷ ("is_sidechain", boolean false)
            ∷ ("is_compaction_boundary", boolean false)
            ∷ ("body_bytes", unless_empty cs (num (length encoded)))
            ∷ ("body_sha256", unless_empty cs (str (digest encoded)))
            ∷ (
              "canonical_text_sha256",
              unless_empty cs (str (digest (bytes (trim_start (trim_end text))))),
            )
            ∷ [];
      }

  unfoldable pub project : Value → Params → ℕ → ℕ → Result (Option Turn)
  unfolding turn_of observable_user_text
  project value p offset sequence =
      let payload = at value "payload" in
      let role = unwrap_or (as_str (at payload "role")) "" in
      let observing = p.turn_projection == "user_observation" in
      let turn = (do
        timestamp ←
            ok_or
              (elim (as_str (at value "timestamp")) [ none ↦ none | some s ↦ normal_timestamp s ])
              (invalid request_id "Rollout message timestamp is invalid")
        let cs = chunks p.expected_delivery_nonce (texts (content_chunks (at payload "content")))
        ok (some (turn_of p offset sequence role timestamp cs))) in
      if not (is_text (at value "type") "response_item")
        || not (is_text (at payload "type") "message")
      then ok none
      else if not (role == "user" || role == "assistant") || observing && not (role == "user")
      then ok none
      else if observing && not (observable_user_text payload)
      then ok none
      else turn

pub record ReadAccounting : Type 0 where
  pub metadata : ℕ
  pub forward : ℕ
  pub reconstruction : ℕ

abbrev pub total : ReadAccounting → ℕ
total examined = examined.metadata + examined.forward + examined.reconstruction

-- the warnings of an observation's page
abbrev warnings : Bool → ReadAccounting → List Value
warnings false examined = []
warnings true examined =
    str (
      "codex_observation_io_v1:forward="
      ⋯ show examined.forward
      ⋯ ";reconstruction="
      ⋯ show examined.reconstruction
      ⋯ ";metadata="
      ⋯ show examined.metadata)
    ∷ []

-- the cursor that a page hands out
unfoldable pub next_cursor : Cursor → Cursor → List Turn → Bool → Cursor
next_cursor state next turns complete = record {
  kind = if complete then "resume" else "page";
  binding = next.binding;
  budgets = next.budgets;
  stamp = next.stamp;
  snapshot = next.snapshot;
  offset = next.offset;
  page = state.page + 1;
  sequence = state.sequence + length turns;
  partial_record = next.partial_record;
}

-- `observing` tells the storage's kind; `token_of` is the storage's `token`
module _ (printer : Printer) (request_id : String) (token_of : Cursor → String)
    (observing : Bool) where
  unfoldable pub page_result : Cursor → Cursor → List Turn → ReadAccounting → Bool → Value × Cursor
  unfolding next_cursor turn_json
  page_result state next turns examined complete =
      let cursor = next_cursor state next turns complete in
      let token = str (token_of cursor) in
      (
        object (
            ("read_protocol", str protocol)
            ∷ ("provider_instance_id", str state.binding.provider)
            ∷ ("settings_id", str state.binding.settings)
            ∷ ("session_id", str state.binding.session)
            ∷ ("turn_projection", str state.binding.projection)
            ∷ ("snapshot_id", str state.snapshot)
            ∷ ("page_index", num state.page)
            ∷ ("page_start_sequence", num state.sequence)
            ∷ ("turns", array (map (turn_json) turns))
            ∷ ("page_turn_count", num (length turns))
            ∷ ("source_bytes_examined", num (total examined))
            ∷ (
              "scan_progress",
              boolean (not complete && is_empty turns && ltb state.offset cursor.offset),
            )
            ∷ ("snapshot_complete", boolean complete)
            ∷ ("next_page_token", if complete then null else token)
            ∷ ("resume_token", if complete then token else null)
            ∷ ("source_final", boolean false)
            ∷ ("warnings", array (warnings observing examined))
            ∷ []),
        cursor,
      )

module _ (printer : Printer) (request_id : String) where
  unfoldable pub fits : Value → Params → Bool
  unfolding success_response
  fits value p =
      leb (length (printer.to_vec (success_response printer.contract request_id value)) + 1)
        p.max_response_bytes
