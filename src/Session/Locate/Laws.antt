-- ===== src/Session/Locate/Laws.antt =====
-- What the searches find.
use agent_runner_codex.Prelude.{
  ℕ, ◌≤◌, ◌≡◌, take, inl, inr, String, Bool, true, false, ◌==◌, Bytes, List, [], ◌∷◌, Option, map,
  ◌++◌, none, some, arith, Bool-cases, Option-cases,
}
use agent_runner_codex.Json.{Value, at, str}
use agent_runner_codex.Envelope.{ok, err, Result-cases}
use agent_runner_codex.Pages.Pack.{ends_newline}
use agent_runner_codex.Session.{RolloutFile, metadata}
use agent_runner_codex.Session.Locate.{keep, locate, locate_from}

module _ (parse_json : Bytes → Option Value) (timestamp_ms : Option String → Option ℕ)
    (request_id : String) (id : String) where
  -- What a file's own first record says: that it is this session's.
  abbrev pub claims : RolloutFile → Bool
  claims file = elim (metadata request_id parse_json timestamp_ms file) [
    | err e ↦ false
    | ok meta ↦ meta.id == id
  ]

  abbrev pub listed : Option String → List String
  listed none = []
  listed (some path) = path ∷ []

  locate_from_lem :
      (found : Option String) (files : List RolloutFile) (o : Option String)
      → locate_from parse_json timestamp_ms request_id id found files ≡ ok o
      → listed found ++ map (λ (f : RolloutFile). f.path) (keep claims files) ≡ listed o
  unfolding locate_from
  locate_from_lem none [] o h = ground arith
  locate_from_lem (some p) [] o h = ground arith
  locate_from_lem found (file ∷ files) o h =
      elim (Result-cases (metadata request_id parse_json timestamp_ms file)) [
        | inr (e, failed) ↦
            let rest = locate_from_lem found files o (ground (arith, failed)) in
            ground (arith, failed)
        | inl (meta, parsed) ↦ elim (Bool-cases (meta.id == id)) [
          | inr other ↦
              let rest = locate_from_lem found files o (ground (arith, parsed, other)) in
              ground (arith, parsed, other)
          | inl same ↦ elim (Option-cases found) [
            | inl first ↦
                let rest =
                  locate_from_lem (some file.path) files o (ground (arith, parsed, same, first)) in
                ground (arith, parsed, same, first)
            | inr (p, again) ↦ absurd (ground (arith, parsed, same, again))
          ]
        ]
      ]

  -- A search that succeeds has found the path of the one file whose own first record names the
  -- session, or nothing where none does; with two such files it does not succeed.
  pub locate_unique :
      (files : List RolloutFile) (o : Option String)
      → locate parse_json timestamp_ms request_id id files ≡ ok o
      → map (λ (f : RolloutFile). f.path) (keep claims files) ≡ listed o
  unfolding locate
  locate_unique files o h = locate_from_lem none files o h

  -- The first `end` bytes of a file are a whole record, and that names the session.
  abbrev pub Names : RolloutFile → ℕ → Type 0
  Names file end =
      (ends_newline (take end file.content) ≡ true)
      × (value : Value) × (parse_json (take end file.content) ≡ some value)
      × (at value "type" ≡ str "session_meta")
      × (at (at value "payload") "id" ≡ str id)

  -- The file is the one with the device and the inode, where they are given.
  abbrev pub IsAt : Option (ℕ × ℕ) → RolloutFile → Type 0
  IsAt none file = Unit
  IsAt (some (device, inode)) file = (file.stamp.device ≡ device) × (file.stamp.inode ≡ inode)

  -- What has been found lies within what has been examined, is where it is asked to be, and names the
  -- session.
  abbrev IsFound : Option (ℕ × ℕ) → ℕ → Option (RolloutFile × ℕ) → Type 0
  IsFound identity examined none = Unit
  IsFound identity examined (some (f, end)) = (end ≤ examined) × (IsAt identity f × Names f end)
