-- ===== src/Envelope.antt =====
-- src/envelope.rs, and the fields of the contract's `HostContext` and `RequestEnvelope` that the
-- provider reads.
use agent_runner_codex.Prelude.{
  ◌≡◌, ◌⊎◌, inl, inr, refl, arith, ℕ, String, Bool, ◌*◌, true, false, Option, none, List, [], ◌∷◌,
  if◌then◌else◌,
}
use agent_runner_codex.Json.{Value, str, boolean, object, is_object}

pub record HostContext : Type 0 where
  pub env : List (String × String)
  pub config_root : Option String
  pub data_root : Option String
  pub working_directory : Option String
  pub deadline_unix_ms : Option ℕ

pub record RequestEnvelope : Type 0 where
  pub request_id : String
  pub provider_instance_id : Option String
  pub host : HostContext
  pub params : Value

abbrev pub max_request_envelope_bytes : ℕ
max_request_envelope_bytes = 4 * 1024 * 1024

abbrev pub max_request_id_bytes : ℕ
max_request_id_bytes = 256

pub record ProviderFailure : Type 0 where
  pub request_id : String
  pub category : String
  pub code : String
  pub message : String
  pub details : Value
  pub retryable : Bool
  pub exit_code : ℕ

abbrev provider_failure : String → String → String → String → Value → Bool → ℕ → ProviderFailure
provider_failure request_id category code message details retryable exit_code = record {
  request_id = request_id;
  category = category;
  code = code;
  message = message;
  details = details;
  retryable = retryable;
  exit_code = exit_code;
}

abbrev pub empty_object : Value
empty_object = object []

abbrev pub invalid_request : String → String → String → ProviderFailure
invalid_request request_id code message =
    provider_failure request_id "invalid_request" code message empty_object false 2

abbrev pub unsupported : String → String → String → ProviderFailure
unsupported request_id code message =
    provider_failure request_id "unsupported" code message empty_object false 3

abbrev pub invalid_settings : String → String → String → Value → ProviderFailure
invalid_settings request_id code message details =
    provider_failure request_id "invalid_settings" code message details false 2

abbrev pub conflict : String → String → String → Value → ProviderFailure
conflict request_id code message details =
    provider_failure request_id "conflict" code message details false 2

abbrev pub retryable_conflict : String → String → String → Value → ProviderFailure
retryable_conflict request_id code message details =
    provider_failure request_id "conflict" code message details true 2

abbrev pub internal : String → String → String → ProviderFailure
internal request_id code message =
    provider_failure request_id "failed" code message empty_object false 1

-- `Result<A, ProviderFailure>`
pub data Result {ℓ} (A : Type ℓ) : Type ℓ where
  ok : A → Result A
  err : ProviderFailure → Result A

infixl 5 ◌>>=◌ ◌>>◌
abbrev pub ◌>>=◌ {ℓ κ} : {A : Type ℓ} {B : Type κ} → Result A → (A → Result B) → Result B
err failure >>= next = err failure
ok found >>= next = next found

abbrev pub ◌>>◌ {ℓ} : {B : Type ℓ} → Result (Unit {0}) → Result B → Result B
first >> second = first >>= λ _. second

-- an early `return Err(…)` under a test
abbrev pub refuse_if : Bool → ProviderFailure → Result (Unit {0})
refuse_if true e = err e
refuse_if false e = ok tt

abbrev pub ok_or {ℓ} : {A : Type ℓ} → Option A → ProviderFailure → Result A
ok_or none e = err e
ok_or (Option.some a) e = ok a

-- `CONTRACT` is the contract package's version text
module _ (contract : String) where
  unfoldable pub success_response : String → Value → Value
  success_response request_id result = object (
      ("contract", str contract)
      ∷ ("request_id", str request_id)
      ∷ ("ok", boolean true)
      ∷ ("result", result)
      ∷ [])

  object_details : Value → Value
  object_details details = if is_object details then details else empty_object

  error_response : String → String → String → String → Value → Bool → Value
  unfolding object_details
  error_response request_id category code message details retryable = object (
      ("contract", str contract)
      ∷ ("request_id", str request_id)
      ∷ ("ok", boolean false)
      ∷ (
        "error",
        object (
            ("category", str category)
            ∷ ("code", str code)
            ∷ ("message", str message)
            ∷ ("details", object_details details)
            ∷ ("retryable", boolean retryable)
            ∷ []),
      )
      ∷ [])

  unfoldable pub failure_response : ProviderFailure → Value
  unfolding error_response
  failure_response f = error_response f.request_id f.category f.code f.message f.details f.retryable

-- How a chain of fallible steps succeeded.
pub >>=-eq-ok {ℓ κ} :
    {A : Type ℓ} {B : Type κ} (first : Result A) (next : A → Result B) {last : B}
    → (first >>= next) ≡ ok last
    → (found : A) × (first ≡ ok found) × (next found ≡ ok last)
>>=-eq-ok (err failure) next done = cc
>>=-eq-ok (ok found) next done = (found, refl, done)

pub ok_or-eq-ok {ℓ} :
    {A : Type ℓ} (o : Option A) (e : ProviderFailure) {a : A} → ok_or o e ≡ ok a → o ≡ Option.some a
ok_or-eq-ok none e h = cc
ok_or-eq-ok (Option.some x) e h = ground arith

pub refuse_if-eq-ok {ℓ} :
    {B : Type ℓ} (test : Bool) (e : ProviderFailure) (k : Result B) {b : B}
    → (refuse_if test e >> k) ≡ ok b
    → (test ≡ false) × (k ≡ ok b)
refuse_if-eq-ok true e k h = cc
refuse_if-eq-ok false e k h = (refl, h)

pub ok_injective {ℓ} : {A : Type ℓ} (a b : A) → ok a ≡ ok b → a ≡ b
ok_injective a b e = cc e

pub Result-cases {ℓ} :
    {A : Type ℓ} (r : Result A) → ((a : A) × (r ≡ ok a)) ⊎ ((e : ProviderFailure) × (r ≡ err e))
Result-cases (ok a) = inl (a, refl)
Result-cases (err e) = inr (e, refl)
