-- ===== src/Pages/Params.antt =====
-- `params` of src/session_turn_pages.rs: which requests are admitted. serde's derived decoder of the
-- request's `params` is outside the repository.
use agent_runner_codex.Prelude.{
  ℕ, ◌≤◌, ◌≡◌, ◌⊎◌, inl, inr, Bool-cases, refl, subst, String, Bool, true, false, not, ◌||◌, ◌&&◌,
  ◌==◌, eq_iff, List, [], ◌∷◌, Option, none, some, ltb, leb, eqb, all, arith, bytes, is_some,
  is_alphanumeric, is_lower_hex, str_empty, str_len,
}
use agent_runner_codex.Json.{Value, get}
use agent_runner_codex.Envelope.{
  RequestEnvelope, Result, ok, ◌>>=◌, ◌>>◌, ok_or, refuse_if, >>=-eq-ok,
}
use agent_runner_codex.Pages.Types.{Params, invalid, protocol}

abbrev required : List String
required =
    "settings_id" ∷ "session_id" ∷ "read_protocol" ∷ "turn_projection" ∷ "start_mode"
    ∷ "after_token" ∷ "snapshot_id" ∷ "page_token" ∷ "max_turns" ∷ "max_response_bytes"
    ∷ "max_source_bytes" ∷ "max_inline_body_bytes" ∷ []

abbrev between : ℕ → ℕ → ℕ → Bool
between low n high = leb low n && leb n high

abbrev pub is_none {ℓ} : {A : Type ℓ} → Option A → Bool
is_none o = not (is_some o)

-- the bytes that a session's identifier may have
abbrev pub is_id_byte : ℕ → Bool
is_id_byte b = is_alphanumeric b || eqb b b'-' || eqb b b'_'

abbrev identity_fits : Params → Bool
identity_fits p = not (
    not (p.read_protocol == protocol)
    || str_empty p.settings_id
    || ltb 1024 (str_len p.settings_id)
    || str_empty p.session_id
    || ltb 256 (str_len p.session_id)
    || not (all is_id_byte (bytes p.session_id)))

abbrev budgets_fit : Params → Bool
budgets_fit p = not (
    not (between 1 p.max_turns 256)
    || not (between 1024 p.max_response_bytes 524288)
    || not (between 1 p.max_source_bytes 8388608)
    || ltb 65536 p.max_inline_body_bytes)

abbrev pub nonce_fits : Option String → Bool
nonce_fits none = false
nonce_fits (some n) = eqb (str_len n) 64 && all is_lower_hex (bytes n)

-- the `match` on the projection and the nonce; the second argument is the request's own field
unfoldable pub projection_fits : Params → Option Value → Bool
projection_fits p field =
    (p.turn_projection == "canonical_ingest" && is_none p.expected_delivery_nonce && is_none field)
    || (p.turn_projection == "user_observation" && nonce_fits p.expected_delivery_nonce)

-- the `match` on the start mode
unfoldable pub start_fits : Params → Bool
start_fits p =
    (p.start_mode == "beginning" && is_none p.snapshot_id && is_none p.page_token)
    || (p.start_mode == "tail"
        && p.turn_projection == "user_observation"
        && is_none p.after_token
        && is_none p.snapshot_id
        && is_none p.page_token)
    || (p.start_mode == "continuation"
        && is_none p.after_token
        && is_some p.snapshot_id
        && is_some p.page_token)

abbrev token_fits : Option String → Bool
token_fits none = true
token_fits (some t) = not (str_empty t || ltb 4096 (str_len t))

module _ (decode_params : Value → Option Params) (request : RequestEnvelope) where
  abbrev bad : String → Bool → Result (Unit {0})
  bad message fits = refuse_if (not fits) (invalid request.request_id message)

  unfoldable pub params : Result Params
  unfolding projection_fits start_fits
  params = do
    bad "Missing required paging field" (all (λ key. is_some (get request.params key)) required)
    p ←
        ok_or (decode_params request.params)
          (invalid request.request_id "Invalid paging parameters")
    bad "Invalid paging protocol or identity" (identity_fits p)
    bad "Paging budgets are outside supported bounds" (budgets_fit p)
    bad "Invalid projection or delivery nonce"
        (projection_fits p (get request.params "expected_delivery_nonce"))
    bad "Invalid paging start mode or token combination" (start_fits p)
    bad "Invalid paging token length"
        (token_fits p.after_token && token_fits p.snapshot_id && token_fits p.page_token)
    ok p

  -- The three ways to start, each with the tokens that it may have: a beginning may follow a token, the
  -- tail is an observation's and has none, and a continuation has its snapshot's and its page's alone.
  abbrev pub IsStart : Params → Type 0
  IsStart p =
      ((p.start_mode ≡ "beginning") × (p.snapshot_id ≡ none) × (p.page_token ≡ none))
      ⊎ (((p.start_mode ≡ "tail")
            × (p.turn_projection ≡ "user_observation")
            × (p.after_token ≡ none)
            × (p.snapshot_id ≡ none)
            × (p.page_token ≡ none))
          ⊎ ((p.start_mode ≡ "continuation")
              × (p.after_token ≡ none)
              × ((snapshot : String) × (p.snapshot_id ≡ some snapshot))
              × ((page : String) × (p.page_token ≡ some page))))

  -- A token that is given has 1 to 4096 bytes.
  abbrev pub IsTokenSize : Option String → Type 0
  IsTokenSize none = Unit
  IsTokenSize (some t) = (str_empty t ≡ false) × (str_len t ≤ 4096)

  -- A nonce: 64 hexadecimal digits.
  abbrev pub IsNonce : Option String → Type 0
  IsNonce none = ⊥
  IsNonce (some n) = (str_len n ≡ 64) × (all is_lower_hex (bytes n) ≡ true)

  -- The protocol is the one, the budgets are within their bounds, the projection is one of two, and
  -- exactly the observation has a delivery nonce.
  pub record IsAdmitted (p : Params) : Type 0 where
    pub turns : (1 ≤ p.max_turns) × (p.max_turns ≤ 256)
    pub response : (1024 ≤ p.max_response_bytes) × (p.max_response_bytes ≤ 524288)
    pub source : (1 ≤ p.max_source_bytes) × (p.max_source_bytes ≤ 8388608)
    pub inline : p.max_inline_body_bytes ≤ 65536
    pub protocol_named : p.read_protocol ≡ protocol
    pub settings : (str_empty p.settings_id ≡ false) × (str_len p.settings_id ≤ 1024)
    pub session :
        (str_empty p.session_id ≡ false)
        × (all is_id_byte (bytes p.session_id) ≡ true)
        × (str_len p.session_id ≤ 256)
    pub tokens : IsTokenSize p.after_token × (IsTokenSize p.snapshot_id × IsTokenSize p.page_token)
    pub projection :
        ((p.turn_projection ≡ "canonical_ingest") × (p.expected_delivery_nonce ≡ none))
        ⊎ ((p.turn_projection ≡ "user_observation") × IsNonce p.expected_delivery_nonce)
    pub start : IsStart p

  is_none_sound : {A : Type 0} (o : Option A) → is_none o ≡ true → o ≡ none
  is_none_sound none h = refl
  is_none_sound (some a) h = ground arith

  nonce_lem : (nonce : Option String) → nonce_fits nonce ≡ true → IsNonce nonce
  nonce_lem none h = ground arith
  nonce_lem (some n) h = (ground arith, ground arith)

  token_lem : (t : Option String) → token_fits t ≡ true → IsTokenSize t
  token_lem none h = tt
  token_lem (some t) h = (ground arith, ground arith)

  is_some_sound : (o : Option String) → is_some o ≡ true → (s : String) × (o ≡ some s)
  is_some_sound none h = absurd (ground arith)
  is_some_sound (some s) h = (s, refl)

  projection_lem :
      (p : Params) (field : Option Value)
      → projection_fits p field ≡ true
      → ((p.turn_projection ≡ "canonical_ingest") × (p.expected_delivery_nonce ≡ none))
        ⊎ ((p.turn_projection ≡ "user_observation") × IsNonce p.expected_delivery_nonce)
  unfolding projection_fits
  projection_lem p field h = elim (Bool-cases (p.turn_projection == "canonical_ingest")) [
    | inl canonical ↦ elim (Bool-cases (is_none p.expected_delivery_nonce)) [
      | inl alone ↦ inl (
        (eq_iff p.turn_projection "canonical_ingest").0 canonical,
        is_none_sound p.expected_delivery_nonce alone,
      )
      | inr nonced ↦ inr (observing (ground (arith, nonced)))
    ]
    | inr other ↦ inr (observing (ground (arith, other)))
  ]
    where
      observing :
          (p.turn_projection == "user_observation" && nonce_fits p.expected_delivery_nonce) ≡ true
          → (p.turn_projection ≡ "user_observation") × IsNonce p.expected_delivery_nonce
      observing k = (
        (eq_iff p.turn_projection "user_observation").0 (ground (arith, k)),
        nonce_lem p.expected_delivery_nonce (ground (arith, k)),
      )

  -- the three cases of the start mode
  abbrev begins : Params → Bool
  begins p = p.start_mode == "beginning" && is_none p.snapshot_id && is_none p.page_token

  abbrev at_tail : Params → Bool
  at_tail p =
      p.start_mode == "tail"
      && p.turn_projection == "user_observation"
      && is_none p.after_token
      && is_none p.snapshot_id
      && is_none p.page_token

  abbrev continues : Params → Bool
  continues p =
      p.start_mode == "continuation"
      && is_none p.after_token
      && is_some p.snapshot_id
      && is_some p.page_token

  start_lem : (p : Params) → start_fits p ≡ true → IsStart p
  unfolding start_fits
  start_lem p h = elim (Bool-cases (begins p)) [
    | inl b ↦ inl (
      (eq_iff p.start_mode "beginning").0 (ground (arith, b)),
      is_none_sound p.snapshot_id (ground (arith, b)),
      is_none_sound p.page_token (ground (arith, b)),
    )
    | inr no_beginning ↦ inr (elim (Bool-cases (at_tail p)) [
      | inl t ↦ inl (
        (eq_iff p.start_mode "tail").0 (ground (arith, t)),
        (eq_iff p.turn_projection "user_observation").0 (ground (arith, t)),
        is_none_sound p.after_token (ground (arith, t)),
        is_none_sound p.snapshot_id (ground (arith, t)),
        is_none_sound p.page_token (ground (arith, t)),
      )
      | inr no_tail ↦
          let c : continues p ≡ true = ground (arith, h, no_beginning, no_tail) in
          inr (
            (eq_iff p.start_mode "continuation").0 (ground (arith, c)),
            is_none_sound p.after_token (ground (arith, c)),
            is_some_sound p.snapshot_id (ground (arith, c)),
            is_some_sound p.page_token (ground (arith, c)),
          )
    ])
  ]

  bad-eq-ok :
      {B : Type 0} (message : String) (fits : Bool) (k : Result B) {b : B}
      → (bad message fits >> k) ≡ ok b
      → (fits ≡ true) × (k ≡ ok b)
  bad-eq-ok message true k h = (refl, h)
  bad-eq-ok message false k h = absurd (ground arith)

  -- Parameters that are accepted name the protocol, have their budgets within bounds, a settings
  -- identifier of 1 to 1024 bytes and a session identifier of 1 to 256 plain bytes, a nonce of 64
  -- hexadecimal digits exactly for an observation, exactly the tokens that their start mode allows and
  -- needs, and tokens of 1 to 4096 bytes.
  pub params-IsAdmitted : (p : Params) → params ≡ ok p → IsAdmitted p
  unfolding params
  params-IsAdmitted p h =
      let (_a, h1) =
        bad-eq-ok "Missing required paging field"
          (all (λ key. is_some (get request.params key)) required) _ h in
      let (q, _b, h2) =
        >>=-eq-ok
          (ok_or (decode_params request.params)
            (invalid request.request_id "Invalid paging parameters"))
          _ h1 in
      let (identity, h3) = bad-eq-ok "Invalid paging protocol or identity" (identity_fits q) _ h2 in
      let (budgets, h4) =
        bad-eq-ok "Paging budgets are outside supported bounds" (budgets_fit q) _ h3 in
      let (projection, h5) =
        bad-eq-ok "Invalid projection or delivery nonce"
          (projection_fits q (get request.params "expected_delivery_nonce")) _ h4 in
      let (start, h6) =
        bad-eq-ok "Invalid paging start mode or token combination" (start_fits q) _ h5 in
      let (sizes, h7) =
        bad-eq-ok "Invalid paging token length"
          (token_fits q.after_token && token_fits q.snapshot_id && token_fits q.page_token) _ h6 in
      let same : q ≡ p = ground arith in
      subst IsAdmitted same (record {
        turns = ground (arith, budgets);
        response = ground (arith, budgets);
        source = ground (arith, budgets);
        inline = ground (arith, budgets);
        protocol_named = (eq_iff q.read_protocol protocol).0 (ground (arith, identity));
        settings = (ground (arith, identity), ground (arith, identity));
        session = (ground (arith, identity), ground (arith, identity), ground (arith, identity));
        tokens = (
          token_lem q.after_token (ground (arith, sizes)),
          (
            token_lem q.snapshot_id (ground (arith, sizes)),
            token_lem q.page_token (ground (arith, sizes)),
          ),
        );
        projection = projection_lem q (get request.params "expected_delivery_nonce") projection;
        start = start_lem q start;
      })
