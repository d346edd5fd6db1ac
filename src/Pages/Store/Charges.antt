-- ===== src/Pages/Store/Charges.antt =====
-- `StagingAdmission`: what the directory is charged for, and the reservation of one more write.
use agent_runner_codex.Prelude.{
  ℕ, ◌+◌, ◌*◌, ◌/◌, ◌-◌, ◌^◌, min, String, Bool, ◌||◌, [], ◌∷◌, ltb, if◌then◌else◌, length,
}
use agent_runner_codex.Envelope.{Result, ok, err, ◌>>=◌, ◌>>◌, refuse_if}
use agent_runner_codex.Pages.Types.{storage_limit}
use agent_runner_codex.Pages.Directory.{Directory, file, special}

pub record Admission : Type 0 where
  pub bytes : ℕ
  pub objects : ℕ

-- bytes and objects
abbrev pub Limits : Type 0
Limits = ℕ × ℕ

abbrev pub staging_limits : Limits
staging_limits = (512 * 1024 * 1024, 512 * 1024 * 1024 / 4096)

-- `acquire`
abbrev pub acquired : Admission
acquired = record { bytes = 0; objects = 0 }

abbrev pub u64_max : ℕ
u64_max = 2 ^ 64 - 1

-- `saturating_add` of `u64`
abbrev pub sat_add : ℕ → ℕ → ℕ
sat_add a b = min (a + b) u64_max

unfoldable pub charged_bytes : ℕ → ℕ
charged_bytes len = sat_add (sat_add len 4095 / 4096 * 4096) 4096

abbrev pub over : Limits → ℕ → ℕ → Bool
over limits bytes objects = ltb limits.0 bytes || ltb limits.1 objects

module _ (request_id : String) where
  -- the loop over `read_dir`
  unfoldable pub retained : Limits → ℕ → ℕ → Directory → Result (ℕ × ℕ)
  unfolding charged_bytes
  retained limits bytes objects [] = ok (bytes, objects)
  retained limits bytes objects ((n, special) ∷ d) = err (storage_limit request_id)
  retained limits bytes objects ((n, file bs) ∷ d) =
      let bytes' = sat_add bytes (charged_bytes (length bs)) in
      let objects' = sat_add objects 1 in
      let rest = retained limits bytes' objects' d in
      if over limits bytes' objects' then err (storage_limit request_id) else rest

  unfoldable pub reserve_growth : Directory → Admission → ℕ → ℕ → Limits → Result Admission
  unfolding retained
  reserve_growth d admission bytes objects limits = do
    kept ← retained limits 0 0 d
    let bytes' = sat_add kept.0 bytes
    let objects' = sat_add kept.1 objects
    refuse_if (over limits bytes' objects') (storage_limit request_id)
    ok (record { bytes = bytes'; objects = objects' })

  unfoldable pub reserve : Directory → Admission → ℕ → Limits → Result Admission
  unfolding reserve_growth
  reserve d admission bytes limits = reserve_growth d admission (charged_bytes bytes) 1 limits
