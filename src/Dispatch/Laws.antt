-- ===== src/Dispatch/Laws.antt =====
-- What one invocation answers, where its writes succeed.
use agent_runner_codex.Prelude.{
  ◌≤◌, ◌≡◌, ◌⊎◌, refl, ap, sym, subst, inl, inr, String, Bool, false, ◌==◌, Bytes, List, [], ◌∷◌,
  Option, none, some, arith, length, is_some, str_len, ltb, unwrap_or,
}
use agent_runner_codex.Prelude.Int.{ℤ, pos}
use agent_runner_codex.Json.{Value, at, get}
use agent_runner_codex.Envelope.{
  ProviderFailure, RequestEnvelope, Result, ok, err, ◌>>=◌, >>=-eq-ok, failure_response,
  invalid_request, ok_injective, ok_or, refuse_if-eq-ok, success_response,
  max_request_envelope_bytes, max_request_id_bytes,
}
use agent_runner_codex.Dispatch.{
  Services, Writer, admit, admit_request, argument, carried_out, concluded, failed, known_id,
  parse_instance, perform, succeeded, with_id, write_invocation,
}

-- A writer whose writes succeed, and which keeps the responses that were written.
abbrev pub recorder : Writer
recorder = record {
  State = List Value;
  write_text = λ text state. state;
  write_json = λ value state. (value ∷ state, none);
  write_newline = λ state. (state, none);
}

module _ (s : Services)
    (run_wire : RequestEnvelope → Bool → List Value → Result ℤ × List Value) where
  -- The one response of an invocation: a success's, for an admitted request that was carried out, with
  -- the exit code 0; or a failure's, with that failure's exit code.
  abbrev pub IsResponse : String → Bytes → ℤ → Value → Type 0
  IsResponse operation input code response =
      ((instance : Value) × (request : RequestEnvelope) × (present : Bool) × (value : Value)
        × (parse_instance s input ≡ ok instance)
        × (admit s operation instance ≡ ok (request, present))
        × (perform s operation (known_id s (parse_instance s input)) request ≡ ok (some value))
        × (length input ≤ max_request_envelope_bytes)
        × (str_len request.request_id ≤ max_request_id_bytes)
        × (code ≡ pos 0)
        × (response ≡ success_response s.contract (known_id s (parse_instance s input)) value))
      ⊎ ((e : ProviderFailure) × (code ≡ pos e.exit_code)
          × (response
              ≡ failure_response s.contract (with_id (known_id s (parse_instance s input)) e)))

  parse_instance-within :
      (input : Bytes) (instance : Value)
      → parse_instance s input ≡ ok instance
      → length input ≤ max_request_envelope_bytes
  unfolding parse_instance
  parse_instance-within input instance h =
      let (small, h1) =
        refuse_if-eq-ok (ltb max_request_envelope_bytes (length input))
          (invalid_request "" "request_too_large" "Request exceeds 4 MiB") _ h in
      ground (arith, small)

  admit-within :
      (operation : String) (instance : Value) (request : RequestEnvelope) (present : Bool)
      → admit s operation instance ≡ ok (request, present)
      → str_len request.request_id ≤ max_request_id_bytes
  unfolding admit
  admit-within operation instance request present h =
      let (done, admitted, h1) = >>=-eq-ok (admit_request s operation instance) _ h in
      let (decoded, represented, h2) =
        >>=-eq-ok
          (ok_or (s.decode_request instance)
            (invalid_request "" "invalid_request" "Request cannot be represented by SDK DTOs"))
          _ h1 in
      let (short, h3) =
        refuse_if-eq-ok (ltb max_request_id_bytes (str_len decoded.request_id))
          (invalid_request "" "invalid_envelope" "Request ID exceeds the adapter's 256-byte bound")
          _ h2 in
      let same =
        ok_injective (decoded, is_some (get (at instance "host") "env")) (request, present) h3 in
      let within : str_len decoded.request_id ≤ max_request_id_bytes = ground (arith, short) in
      subst (λ (r : RequestEnvelope × Bool). str_len r.0.request_id ≤ max_request_id_bytes) same
        within

  abbrev code_of : Option (ℤ × List Value) → ℤ
  code_of none = pos 0
  code_of (some (code, written)) = code

  abbrev written_of : Option (ℤ × List Value) → List Value
  written_of none = []
  written_of (some (code, written)) = written

  abbrev IsOutcome : String → String → Result (RequestEnvelope × Bool) → ℤ → List Value → Type 0
  IsOutcome operation id admitted code written =
      ((request : RequestEnvelope) × (present : Bool) × (value : Value) × (admitted
          ≡ ok (request, present))
        × (perform s operation id request ≡ ok (some value))
        × (code ≡ pos 0)
        × (written ≡ success_response s.contract id value ∷ []))
      ⊎ ((e : ProviderFailure) × (code ≡ pos e.exit_code)
          × (written ≡ failure_response s.contract (with_id id e) ∷ []))

  concluded_lem :
      (operation id : String) (request : RequestEnvelope) (present : Bool)
      (r : Result (Option Value)) (code : ℤ) (written : List Value)
      → perform s operation id request ≡ r
      → concluded s recorder run_wire id [] r ≡ some (code, written)
      → IsOutcome operation id (ok (request, present)) code written
  unfolding failed succeeded
  concluded_lem operation id request present (err e) code written done h =
      inr (e, sym (ap code_of h), sym (ap written_of h))
  concluded_lem operation id request present (ok none) code written done h = absurd (ground arith)
  concluded_lem operation id request present (ok (some value)) code written done h =
      inl (request, present, value, refl, done, sym (ap code_of h), sym (ap written_of h))

  carried_out_lem :
      (operation id : String) (admitted : Result (RequestEnvelope × Bool)) (code : ℤ)
      (written : List Value)
      → (operation == "launch") ≡ false
      → carried_out s recorder run_wire operation id [] admitted ≡ some (code, written)
      → IsOutcome operation id admitted code written
  unfolding failed carried_out
  carried_out_lem operation id (err e) code written no_launch h =
      inr (e, sym (ap code_of h), sym (ap written_of h))
  carried_out_lem operation id (ok (request, present)) code written no_launch h =
      concluded_lem operation id request present (perform s operation id request) code written refl
        (rw no_launch at h)

  -- Every invocation but for the version and a launch, where its writes succeed and it does not panic,
  -- writes one response and no other, under the request's own identifier: a success's with the exit
  -- code 0, for a request within 4 MiB that was admitted, with
  -- an identifier within 256 bytes, and carried out, or a failure's with its exit code.
  pub write_invocation-IsResponse :
      (args : List String) (input : Bytes) (code : ℤ) (written : List Value)
      → (unwrap_or (argument args) "" == "--version") ≡ false
      → (unwrap_or (argument args) "" == "launch") ≡ false
      → write_invocation s recorder run_wire args input [] ≡ some (code, written)
      → (response : Value) × (written ≡ response ∷ [])
        × IsResponse (unwrap_or (argument args) "") input code response
  unfolding write_invocation
  write_invocation-IsResponse args input code written no_version no_launch h =
      let operation = unwrap_or (argument args) "" in
      let instance = parse_instance s input in
      let id = known_id s instance in
      elim (carried_out_lem operation id (instance >>= λ v. admit s operation v) code written
        no_launch (rw no_version at h)) [
          | inr (e, exits, says) ↦ (_, says, inr (e, exits, refl))
          | inl (request, present, value, admitted, done, exits, says) ↦
              let (v, parsed, fits) = >>=-eq-ok instance (λ v. admit s operation v) admitted in
              (
                _,
                says,
                inl (
                  v,
                  request,
                  present,
                  value,
                  parsed,
                  fits,
                  done,
                  parse_instance-within input v parsed,
                  admit-within operation v request present fits,
                  exits,
                  refl,
                ),
              )
        ]
