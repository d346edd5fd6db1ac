-- ===== src/Session/Turns.antt =====
-- `read_turns` of src/session.rs, and the parameters of the session operations. serde's derived
-- decoder of the parameters is outside the repository.
pub mod Laws
use agent_runner_codex.Prelude.{
  ℕ, zero, suc, ◌+◌, ◌-◌, ◌^◌, String, Bool, true, false, not, ◌||◌, ◌&&◌, ◌==◌, Bytes, List, [],
  ◌∷◌, Option, none, some, ltb, leb, if◌then◌else◌, length, is_some, unwrap_or,
}
use agent_runner_codex.Prelude.Int.{ℤ, pos, negsuc}
use agent_runner_codex.Json.{
  Value, boolean, obj, num, array, object, at, as_str, is_text, remove_field,
}
use agent_runner_codex.Envelope.{Result, ok, err, ◌>>=◌, ◌>>◌, ok_or, refuse_if}
use agent_runner_codex.Session.{RolloutFile, invalid}
use agent_runner_codex.Session.Rollout.{Calendar, Rollout, read_rollout}

pub record SessionParams : Type 0 where
  pub settings_id : String
  pub session_id : Option String
  pub turn_projection : Option String
  pub body_tail_limit : Option ℕ
  pub after_timestamp : Option String
  pub after_unix_ms : Option ℕ

abbrev pub is_projection : Option String → Bool
is_projection none = true
is_projection (some s) = s == "user_observation"

abbrev pub is_tail_limit : Option ℕ → Bool
is_tail_limit none = true
is_tail_limit (some n) = leb 1 n && leb n 16

-- `timestamp_millis() > i64::try_from(after).unwrap_or(i64::MAX)`
abbrev millis_after : ℤ → ℕ → Bool
millis_after (pos n) after = ltb (if ltb after (2 ^ 63) then after else 2 ^ 63 - 1) n
millis_after (negsuc n) after = false

-- What may panic gives `none`: `unwrap` of a missing value.
infixl 5 ◌then◌
abbrev pub ◌then◌ {ℓ κ} : {A : Type ℓ} {B : Type κ} → Option A → (A → Option B) → Option B
none then next = none
some a then next = next a

-- `turn.as_object_mut().unwrap().remove(key)`
unfoldable pub without : String → Value → Option Value
without key (obj fields) = some (obj (remove_field key fields))
without key _ = none

-- a turn of the projection; the flag says that its index is below `body_start`
unfoldable pub observed : Bool → Value → Option Value
unfolding without
observed early turn =
    without "native" turn then λ bare. if early then without "body" bare else some bare

-- the loop over the turns, whose first `early` lose their body
unfoldable pub observed_all : ℕ → List Value → Option (List Value)
unfolding observed
observed_all early [] = some []
observed_all zero (turn ∷ turns) =
    observed false turn then λ t. observed_all zero turns then λ ts. some (t ∷ ts)
observed_all (suc early) (turn ∷ turns) =
    observed true turn then λ t. observed_all early turns then λ ts. some (t ∷ ts)

module _ (calendar : Calendar) where
  -- the closure of `filter`
  unfoldable pub is_wanted : SessionParams → Option calendar.Instant → Value → Option Bool
  is_wanted params after turn = as_str (at turn "timestamp") then λ text.
      calendar.parse_rfc3339 text then λ timestamp. some (
        elim after [ none ↦ true | some a ↦ calendar.is_after timestamp a ]
        && elim params.after_unix_ms [
          | none ↦ true
          | some a ↦ millis_after (calendar.timestamp_millis timestamp) a
        ]
        && (not (is_some params.turn_projection) || is_text (at turn "role") "user"))

  unfoldable pub wanted : SessionParams → Option calendar.Instant → List Value → Option (List Value)
  unfolding is_wanted
  wanted params after [] = some []
  wanted params after (turn ∷ turns) = is_wanted params after turn then λ keep.
      wanted params after turns then λ rest. some (if keep then turn ∷ rest else rest)

  unfoldable pub projected : SessionParams → List Value → Option (List Value)
  unfolding observed_all
  projected params turns =
      if is_some params.turn_projection
      then observed_all (length turns - unwrap_or params.body_tail_limit 4) turns
      else some turns

  abbrev pub turns_result : Bool → List Value → Value
  turns_result complete turns = object (
      ("turn_count", num (length turns))
      ∷ ("turns", array turns)
      ∷ ("complete", boolean complete)
      ∷ [])

  module _ (parse_json : Bytes → Option Value) (request_id : String) where
    unfoldable pub after_time : Option String → Result (Option calendar.Instant)
    after_time none = ok none
    after_time (some s) = do
      instant ←
          ok_or (calendar.parse_rfc3339 s)
            (invalid request_id "after_timestamp must be an RFC3339 timestamp")
      ok (some instant)

    -- The value is `none` where the source panics.
    unfoldable pub read_turns : RolloutFile → String → SessionParams → Result (Option Value)
    unfolding wanted projected after_time
    read_turns file id params = do
      refuse_if (not (is_projection params.turn_projection))
          (invalid request_id "Unsupported turn_projection")
      refuse_if (not (is_tail_limit params.body_tail_limit))
          (invalid request_id "body_tail_limit must be between 1 and 16")
      after ← after_time params.after_timestamp
      rollout ← read_rollout calendar parse_json request_id file (some id)
      ok (
          wanted params after rollout.turns then λ kept.
          projected params kept then λ turns. some (turns_result rollout.complete turns))
