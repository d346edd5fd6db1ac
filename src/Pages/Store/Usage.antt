-- ===== src/Pages/Store/Usage.antt =====
-- What a reservation counts is what the directory holds.
use agent_runner_codex.Prelude.{
  ℕ, ◌+◌, ◌≤◌, ◌<◌, ◌≡◌, refl, String, false, Bytes, [], ◌∷◌, Option, none, some, length, arith,
  Bool-cases, inl, inr,
}
use agent_runner_codex.Envelope.{ok, >>=-eq-ok, refuse_if-eq-ok}
use agent_runner_codex.Pages.Directory.{Directory, Name, Node, file, special, find, write}
use agent_runner_codex.Pages.Store.Charges.{
  Admission, Limits, u64_max, charged_bytes, retained, reserve_growth, sat_add, over,
}

-- The charge of all files, and their number, without any bound.
unfoldable pub usage : Directory → ℕ
usage [] = 0
usage ((n, file bs) ∷ d) = charged_bytes (length bs) + usage d
usage ((n, special) ∷ d) = usage d

-- Limits that no sum of charges within them can overflow.
pub record IsBelowMax (limits : Limits) : Type 0 where
  pub bytes : limits.0 < u64_max
  pub objects : limits.1 < u64_max

-- A charge covers the bytes.
pub le-charged_bytes : (n : ℕ) → charged_bytes n < u64_max → n ≤ charged_bytes n
unfolding charged_bytes
le-charged_bytes n h = omega arith

within : (limits : Limits) (b o : ℕ) → over limits b o ≡ false → (b ≤ limits.0) × (o ≤ limits.1)
within limits b o h = ground arith

-- The loop over the directory adds up the charges and counts the files, if it succeeds.
pub retained_lem :
    (id : String) (limits : Limits) (b o : ℕ) (d : Directory) (r : ℕ × ℕ)
    → IsBelowMax limits
    → b ≤ limits.0
    → o ≤ limits.1
    → retained id limits b o d ≡ ok r
    → (r.0 ≡ b + usage d) × (r.1 ≡ o + length d)
unfolding retained usage
retained_lem id limits b o [] r m hb ho h = (ground arith, ground arith)
retained_lem id limits b o ((n, special) ∷ d) r m hb ho h = ground arith
retained_lem id limits b o ((n, file bs) ∷ d) r m hb ho h =
    let c = charged_bytes (length bs) in
    elim (Bool-cases (over limits (sat_add b c) (sat_add o 1))) [
      | inl e ↦ ground (arith, e)
      | inr e ↦
          let (small, few) = within limits (sat_add b c) (sat_add o 1) e in
          let (bytes, objects) =
            retained_lem id limits (sat_add b c) (sat_add o 1) d r m small few
              (ground (arith, e)) in
          (omega (arith, bytes, m.bytes), omega (arith, objects, m.objects))
    ]

-- A reservation that is granted stays within the limits, on top of all that the directory holds.
pub reserve_growth_lem :
    (id : String) (d : Directory) (admission : Admission) (bytes objects : ℕ) (limits : Limits)
    (r : Admission)
    → IsBelowMax limits
    → reserve_growth id d admission bytes objects limits ≡ ok r
    → (usage d + bytes ≤ limits.0) × (length d + objects ≤ limits.1)
unfolding reserve_growth
reserve_growth_lem id d admission bytes objects limits r m h =
    let (kept, counted, rest) = >>=-eq-ok (retained id limits 0 0 d) _ h in
    let (sum, count) = retained_lem id limits 0 0 d kept m (omega arith) (omega arith) counted in
    let (fits, done) = refuse_if-eq-ok _ _ _ rest in
    let (small, few) = within limits _ _ fits in
    (omega (arith, sum, small, m.bytes), omega (arith, count, few, m.objects))

-- The charge of the file that a name has.
abbrev pub old_charge : Option Node → ℕ
old_charge none = 0
old_charge (some (file bs)) = charged_bytes (length bs)
old_charge (some special) = 0

abbrev pub is_new : Option Node → ℕ
is_new none = 1
is_new (some x) = 0

pub usage-write :
    (n : Name) (bs : Bytes) (d : Directory)
    → usage (write n bs d) + old_charge (find n d) ≡ usage d + charged_bytes (length bs)
unfolding usage write find
usage-write n bs [] = omega arith
usage-write n bs ((m, file x) ∷ d) = ground (arith, usage-write n bs d)
usage-write n bs ((m, special) ∷ d) = ground (arith, usage-write n bs d)

pub length-write :
    (n : Name) (bs : Bytes) (d : Directory) → length (write n bs d) ≡ length d + is_new (find n d)
unfolding write find
length-write n bs [] = refl
length-write n bs ((m, x) ∷ d) = ground (arith, length-write n bs d)

pub old_charge-le-usage : (n : Name) (d : Directory) → old_charge (find n d) ≤ usage d
unfolding usage find
old_charge-le-usage n [] = omega arith
old_charge-le-usage n ((m, file x) ∷ d) = ground (arith, old_charge-le-usage n d)
old_charge-le-usage n ((m, special) ∷ d) = ground (arith, old_charge-le-usage n d)
