-- ===== src/Pages/Types.antt =====
-- The data of src/session_turn_pages.rs and its failures.
use agent_runner_codex.Prelude.{ℕ, String, Bool, true, ◌&&◌, ◌==◌, Option, none, some, eqb}
use agent_runner_codex.Envelope.{
  ProviderFailure, invalid_request, conflict, internal, unsupported, empty_object,
}

pub record PartialRecord : Type 0 where
  pub start : ℕ
  pub sha256 : String

pub record Binding : Type 0 where
  pub provider : String
  pub account : String
  pub settings : String
  pub session : String
  pub projection : String
  pub nonce : Option String

pub record Budgets : Type 0 where
  pub turns : ℕ
  pub response : ℕ
  pub source : ℕ
  pub inline : ℕ

pub record Stamp : Type 0 where
  pub device : ℕ
  pub inode : ℕ
  pub len : ℕ
  pub modified : ℕ

pub record Cursor : Type 0 where
  pub kind : String
  pub binding : Binding
  pub budgets : Budgets
  pub stamp : Stamp
  pub snapshot : String
  pub offset : ℕ
  pub page : ℕ
  pub sequence : ℕ
  pub partial_record : Option PartialRecord

-- serde's derived decoder of the request's `params`
pub record Params : Type 0 where
  pub settings_id : String
  pub session_id : String
  pub read_protocol : String
  pub turn_projection : String
  pub expected_delivery_nonce : Option String
  pub start_mode : String
  pub after_token : Option String
  pub snapshot_id : Option String
  pub page_token : Option String
  pub max_turns : ℕ
  pub max_response_bytes : ℕ
  pub max_source_bytes : ℕ
  pub max_inline_body_bytes : ℕ

abbrev pub protocol : String
protocol = "oulipoly.session_turn_pages/v1"

abbrev pub token_prefix : String
token_prefix = "codex-stp1-"

abbrev pub max_record_bytes : ℕ
max_record_bytes = 8388608

abbrev opt_eq : Option String → Option String → Bool
opt_eq none none = true
opt_eq (some a) (some b) = a == b
opt_eq _ _ = Bool.false

-- the derived `==`
unfoldable pub binding_eq : Binding → Binding → Bool
binding_eq a b =
    a.provider == b.provider
    && a.account == b.account
    && a.settings == b.settings
    && a.session == b.session
    && a.projection == b.projection
    && opt_eq a.nonce b.nonce

unfoldable pub budgets_eq : Budgets → Budgets → Bool
budgets_eq a b =
    eqb a.turns b.turns
    && eqb a.response b.response
    && eqb a.source b.source
    && eqb a.inline b.inline

-- the failures, for the request's identifier
module _ (request_id : String) where
  abbrev pub invalid : String → ProviderFailure
  invalid message = invalid_request request_id "invalid_session_read_turns_params" message

  abbrev pub stale : ProviderFailure
  stale =
      conflict request_id "session_turn_page_token_stale"
        "Cursor does not match the selected account, session, projection, budgets, or append-only rollout generation"
        empty_object

  abbrev pub io_error : ProviderFailure
  io_error =
      internal request_id "session_turn_page_io"
        "Could not read or persist bounded session paging state"

  abbrev pub capacity : String → ProviderFailure
  capacity message = invalid_request request_id "session_turn_page_budget_too_small" message

  abbrev pub record_limit : ProviderFailure
  record_limit =
      unsupported request_id "session_turn_record_ceiling_exceeded"
        "JSONL record exceeds the supported 8388608-byte framing ceiling; checkpoint retained"

  abbrev pub storage_limit : ProviderFailure
  storage_limit =
      unsupported request_id "session_turn_staging_capacity_exceeded"
        "Paging staging capacity exhausted; checkpoint retained; operator intervention required"
