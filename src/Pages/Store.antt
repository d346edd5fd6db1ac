-- ===== src/Pages/Store.antt =====
-- Cursor storage of src/session_turn_pages.rs: tokens, packs, staged prefixes and their admission.
-- Every operation runs under the directory's lock and is a function of the directory; a system call
-- that fails although the directory allows it is not modelled.
pub mod Charges
pub mod Usage
pub mod Stored
pub mod Outcome
pub mod RoundTrip
pub mod Recovery
use agent_runner_codex.Prelude.{
  ℕ, suc, ◌+◌, ◌-◌, ◌*◌, ◌/◌, min, String, Bool, true, false, not, ◌||◌, ◌&&◌, ◌==◌, ◌⋯◌, Bytes,
  List, [], ◌∷◌, ◌++◌, Option, none, some, ltb, leb, eqb, if◌then◌else◌, length, take, all, bytes,
  bytes_eq, str_len, strip_prefix, keep_if, is_lower_hex, contains_byte, is_some,
}
use agent_runner_codex.Envelope.{Result, ok, err, ◌>>=◌, ◌>>◌, ok_or, refuse_if}
use agent_runner_codex.Pages.Types.{
  Cursor, PartialRecord, stale, io_error, record_limit, storage_limit, token_prefix,
  max_record_bytes,
}
use agent_runner_codex.Pages.Directory.{
  Directory, Name, legacy, pack, part, Node, file, special, find, write,
}
use agent_runner_codex.Pages.Pack.{scan_bytes, frame_of}
use agent_runner_codex.Pages.Store.Charges.{
  Admission, Limits, staging_limits, charged_bytes, reserve, reserve_growth,
}
use Prim.Native.String

-- What is outside the repository: the digest, serde's encoding of a cursor, the bounded read.
pub record Platform : Type 0 where
  pub sha256_hex : Bytes → String
  pub encode : Cursor → Bytes
  pub decode : Bytes → Option Cursor
  pub read_bounded : Bytes → ℕ → Option Bytes

-- `&digest[..2]`
unfoldable pub bucket : String → String
bucket (String.◌∷◌ a (String.◌∷◌ b s)) = String.◌∷◌ a (String.◌∷◌ b "")
bucket s = s

unfoldable pub pack_path : String → Name
unfolding bucket
pack_path digest = pack (bucket digest)

-- 64 digits, as `load` and `partial_bytes` test them
abbrev pub is_digest : String → Bool
is_digest s = eqb (str_len s) 64 && all is_lower_hex (bytes s)

-- the bytes behind an open file, none where it has just been created
abbrev pub file_bytes : Option Node → Bytes
file_bytes none = []
file_bytes (some (file bs)) = bs
file_bytes (some special) = []

module _ (p : Platform) where
  open p use {sha256_hex, encode, decode, read_bounded}

  unfoldable pub token : Cursor → String
  token cursor = token_prefix ⋯ sha256_hex (encode cursor)

  -- `read_file_bounded` on a name; `none` where there is no regular file or it is too long
  abbrev pub read_name : Name → ℕ → Directory → Option Bytes
  read_name name limit d = elim (find name d) [
    | none ↦ none
    | some n ↦ elim n [ file bs ↦ read_bounded bs limit | special ↦ none ]
  ]

  -- `scan_pack`: the content found, the end of the complete frames, the physical length
  unfoldable pub scan_pack : Name → String → Directory → Option (Option Bytes × ℕ × ℕ)
  scan_pack name digest d = elim (find name d) [
    | none ↦ some (none, 0, 0)
    | some n ↦ elim n [
      | special ↦ none
      | file bs ↦
          if ltb staging_limits.0 (length bs)
          then none
          else elim (scan_bytes sha256_hex digest bs) [
            | none ↦ none
            | some r ↦ some (r.0, r.1, length bs)
          ]
    ]
  ]

  module _ (request_id : String) where
    -- the bytes that a token's digest names
    unfoldable pub stored : Directory → String → Result Bytes
    unfolding scan_pack
    stored d suffix =
        if is_some (find (legacy suffix) d)
        then ok_or (read_name (legacy suffix) 32768 d) (stale request_id)
        else elim (scan_pack (pack_path suffix) suffix d) [
          | none ↦ err (stale request_id)
          | some r ↦ ok_or r.0 (stale request_id)
        ]

    unfoldable pub load : Directory → String → Result Cursor
    load d value = do
      suffix ← ok_or (keep_if is_digest (strip_prefix value token_prefix)) (stale request_id)
      bs ← stored d suffix
      refuse_if (not (sha256_hex bs == suffix)) (stale request_id)
      ok_or (decode bs) (stale request_id)

    -- what a frame adds to the charge of its pack
    abbrev pub growth : Bool → ℕ → ℕ → ℕ → ℕ
    growth exists physical_len valid_end frame_len =
        charged_bytes (valid_end + frame_len) - (if exists then charged_bytes physical_len else 0)

    -- the end of `persist`, when no frame holds the cursor yet
    unfoldable pub append_frame :
        Directory → Admission → Limits → Name → ℕ → ℕ → Bytes → Result (Directory × Admission)
    append_frame d admission limits path valid_end physical_len frame = do
      let exists = is_some (find path d)
      reserved ←
          reserve_growth request_id d admission
            (growth exists physical_len valid_end (length frame)) (if exists then 0 else 1) limits
      ok (write path (take valid_end (file_bytes (find path d)) ++ frame) d, reserved)

    unfoldable pub persist_pack :
        Directory → Admission → Limits → Bytes → Result (Directory × Admission)
    unfolding append_frame scan_pack
    persist_pack d admission limits bs = do
      let digest = sha256_hex bs
      let path = pack_path digest
      scanned ← ok_or (scan_pack path digest d) (io_error request_id)
      elim scanned.0 [
        | some existing ↦ if bytes_eq existing bs then ok (d, admission) else err (stale request_id)
        | none ↦ append_frame d admission limits path scanned.1 scanned.2 (frame_of sha256_hex bs)
      ]

    unfoldable pub persist :
        Directory → Admission → Limits → Cursor → Result (Directory × Admission)
    unfolding persist_pack
    persist d admission limits cursor = do
      let bs = encode cursor
      refuse_if (ltb 32768 (length bs)) (io_error request_id)
      let path = legacy (sha256_hex bs)
      if is_some (find path d)
          then (do
            existing ← ok_or (read_name path 32768 d) (io_error request_id)
            if bytes_eq existing bs then ok (d, admission) else err (stale request_id))
          else persist_pack d admission limits bs

    -- the retained prefix of a record that the last page left unfinished
    unfoldable pub partial_bytes : Directory → Cursor → Result Bytes
    partial_bytes d state = elim state.partial_record [
      | none ↦ ok []
      | some r ↦ do
        refuse_if (ltb state.offset r.start) (stale request_id)
        let len = state.offset - r.start
        refuse_if (eqb len 0 || leb max_record_bytes len || not (is_digest r.sha256))
            (stale request_id)
        bs ← ok_or (read_name (part r.sha256) len d) (stale request_id)
        refuse_if
            (not (eqb (length bs) len) || not (sha256_hex bs == r.sha256) || contains_byte b'\n' bs)
            (stale request_id)
        ok bs
    ]

    unfoldable pub stage_partial :
        Directory → Admission → Limits → ℕ → Bytes → Result (PartialRecord × Directory × Admission)
    stage_partial d admission limits start bs = do
      refuse_if (leb max_record_bytes (length bs)) (record_limit request_id)
      let sha256 = sha256_hex bs
      let path = part sha256
      let staged : PartialRecord = record { start = start; sha256 = sha256 }
      if is_some (find path d)
          then (do
            existing ← ok_or (read_name path (length bs) d) (stale request_id)
            if bytes_eq existing bs then ok (staged, d, admission) else err (stale request_id))
          else (do
            reserved ← reserve request_id d admission (length bs) limits
            ok (staged, write path bs d, reserved))
