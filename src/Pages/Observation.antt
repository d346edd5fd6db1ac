-- ===== src/Pages/Observation.antt =====
-- src/session_turn_pages/observation.rs: tokens that carry their cursor, authenticated with a key.
-- The digests, base64 and serde's encodings are outside the repository; how the key file is made and
-- read is not modelled.
pub mod RoundTrip
use agent_runner_codex.Prelude.{
  ℕ, zero, suc, ◌+◌, ◌-◌, ◌*◌, ◌/◌, ◌%◌, String, Bool, true, false, not, ◌||◌, ◌==◌, ◌⋯◌, Bytes,
  List, [], ◌∷◌, ◌++◌, Option, none, some, ltb, leb, eqb, if◌then◌else◌, length, take, drop,
  has_prefix, strip_prefix, contains_byte,
}
use agent_runner_codex.Envelope.{Result, ok, err, ◌>>=◌, ◌>>◌, ok_or, refuse_if}
use agent_runner_codex.Pages.Types.{
  Binding, Budgets, Cursor, PartialRecord, Stamp, max_record_bytes, stale,
}

abbrev pub observation_prefix : String
observation_prefix = "codex-obs1-"

pub record ObservationCursor : Type 0 where
  pub binding : String
  pub kind : String
  pub budgets : Budgets
  pub stamp : Stamp
  pub snapshot : String
  pub offset : ℕ
  pub page : ℕ
  pub sequence : ℕ
  pub partial_record : Option PartialRecord

-- What is outside the repository.
pub record Wire : Type 0 where
  pub sha256 : Bytes → Bytes
  pub sha256_hex : Bytes → String
  pub encode_base64 : Bytes → String
  pub decode_base64 : String → Option Bytes
  pub encode_binding : Binding → Bytes
  pub encode_cursor : ObservationCursor → Bytes
  pub decode_cursor : Bytes → Option ObservationCursor

-- `^` of two bytes, bit by bit
xor_bits : ℕ → ℕ → ℕ → ℕ
xor_bits zero a b = 0
xor_bits (suc n) a b = (if eqb (a % 2) (b % 2) then 0 else 1) + 2 * xor_bits n (a / 2) (b / 2)

-- a pad of `n` bytes, its first ones combined with the key's
key_pad : ℕ → ℕ → Bytes → Bytes
unfolding xor_bits
key_pad zero byte key = []
key_pad (suc n) byte [] = byte ∷ key_pad n byte []
key_pad (suc n) byte (k ∷ key) = xor_bits 8 byte k ∷ key_pad n byte key

-- whether a byte differs from the one beside it
unfoldable pub any_differs : Bytes → Bytes → Bool
any_differs (a ∷ xs) (b ∷ bs) = not (eqb a b) || any_differs xs bs
any_differs _ _ = false

unfoldable pub is_token : String → Bool
is_token value = has_prefix value observation_prefix

module _ (wire : Wire) where
  open wire use {
    sha256, sha256_hex, encode_base64, decode_base64, encode_binding, encode_cursor, decode_cursor,
  }

  unfoldable pub binding_digest : Binding → String
  binding_digest binding = sha256_hex (encode_binding binding)

  pub authenticate : Bytes → Bytes → Bytes
  unfolding key_pad
  authenticate key bs = sha256 (key_pad 64 0x5c key ++ sha256 (key_pad 64 0x36 key ++ bs))

  abbrev pub compact : Cursor → ObservationCursor
  compact cursor = record {
    binding = binding_digest cursor.binding;
    kind = cursor.kind;
    budgets = cursor.budgets;
    stamp = cursor.stamp;
    snapshot = cursor.snapshot;
    offset = cursor.offset;
    page = cursor.page;
    sequence = cursor.sequence;
    partial_record = cursor.partial_record;
  }

  unfoldable pub observation_token : Bytes → Cursor → String
  observation_token key cursor =
      let payload = encode_cursor (compact cursor) in
      observation_prefix ⋯ encode_base64 (payload ++ authenticate key payload)

  -- the cursor of a binding from what the token carries
  abbrev pub expand : Binding → ObservationCursor → Cursor
  expand binding c = record {
    kind = c.kind;
    binding = binding;
    budgets = c.budgets;
    stamp = c.stamp;
    snapshot = c.snapshot;
    offset = c.offset;
    page = c.page;
    sequence = c.sequence;
    partial_record = c.partial_record;
  }

  module _ (request_id : String) where
    unfoldable pub observation_load : Bytes → String → Binding → Result Cursor
    observation_load key value binding = do
      encoded ← ok_or (strip_prefix value observation_prefix) (stale request_id)
      bs ← ok_or (decode_base64 encoded) (stale request_id)
      refuse_if (ltb (length bs) 32 || not (encode_base64 bs == encoded)) (stale request_id)
      let payload = take (length bs - 32) bs
      let supplied_mac = drop (length bs - 32) bs
      refuse_if (any_differs supplied_mac (authenticate key payload)) (stale request_id)
      c ← ok_or (decode_cursor payload) (stale request_id)
      refuse_if (not (c.binding == binding_digest binding) || ltb c.stamp.len c.offset)
          (stale request_id)
      ok (expand binding c)

    -- the prefix of an unfinished record, read again from the rollout
    unfoldable pub reconstruct : Bytes → Cursor → Result Bytes
    reconstruct file state = elim state.partial_record [
      | none ↦ ok []
      | some r ↦ do
        refuse_if (ltb state.offset r.start) (stale request_id)
        let len = state.offset - r.start
        refuse_if (eqb len 0 || leb max_record_bytes len) (stale request_id)
        let bs = take len (drop r.start file)
        refuse_if
            (not (eqb (length bs) len) || not (sha256_hex bs == r.sha256) || contains_byte b'\n' bs)
            (stale request_id)
        ok bs
    ]
