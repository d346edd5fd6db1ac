-- ===== src/Quota/Laws.antt =====
-- Which windows a quota probe gives.
use agent_runner_codex.Prelude.{
  ℕ, suc, ◌≤◌, ◌≡◌, ◌⊎◌, refl, ap, sym, subst, inl, inr, String, true, false, not, ◌||◌, Bytes,
  List, [], ◌∷◌, some, arith, Bool-cases, Option-cases, is_empty, length, ltb,
}
use agent_runner_codex.Prelude.Int.{pos, negsuc}
use agent_runner_codex.Json.{Value, num, object}
use agent_runner_codex.Quota.{
  Meter, before, is_percentage, remaining_ratio, project, project_all, project_window,
}

module _ (meter : Meter) where
  -- A window that is given is that of a finite reading from 0 to 100, with a time since 1970; its ratio
  -- is what is left of 100, over 100.
  abbrev pub IsWindow : meter.Percent × String → Value → Type 0
  IsWindow (used, resets_at) window =
      (meter.is_finite used ≡ true)
      × (meter.float_leb (meter.float 0) used ≡ true)
      × (meter.float_leb used (meter.float 100) ≡ true)
      × (reset : ℕ) × (meter.timestamp_millis resets_at ≡ some (pos reset))
      × (window
          ≡ object (
              (
                "remaining_ratio",
                meter.float_value
                    (meter.divide (meter.subtract (meter.float 100) used) (meter.float 100)),
              )
              ∷ ("resets_at_unix_ms", num reset)
              ∷ []))

  -- Each window is that of the reading in its place.
  abbrev pub AreWindows : List (meter.Percent × String) → List Value → Type 0
  AreWindows [] [] = Unit
  AreWindows (u ∷ us) (w ∷ ws) = IsWindow u w × AreWindows us ws
  AreWindows _ _ = ⊥

  project_window-IsWindow :
      (u : meter.Percent × String) (window : Value)
      → project_window meter u ≡ inl window
      → IsWindow u window
  unfolding project_window is_percentage remaining_ratio
  project_window-IsWindow (used, resets_at) window h =
      elim (Bool-cases (not (meter.is_finite used) || not (is_percentage meter used))) [
        | inl bad ↦ absurd (ground (arith, bad))
        | inr good ↦ elim (Option-cases (meter.timestamp_millis resets_at)) [
          | inl untimed ↦ absurd (ground (arith, good, untimed))
          | inr (negsuc n, early) ↦ absurd (ground (arith, good, early))
          | inr (pos n, timed) ↦ (
            ground (arith, good),
            ground (arith, good),
            ground (arith, good),
            n,
            timed,
            ground (arith, good, timed),
          )
        ]
      ]

  before-inl :
      (first : Value ⊎ String) (rest : List Value ⊎ String) (windows : List Value)
      → before meter first rest ≡ inl windows
      → (w : Value) × (ws : List Value) × (first ≡ inl w) × (rest ≡ inl ws) × (windows ≡ w ∷ ws)
  before-inl (inr message) rest windows h = absurd (ground arith)
  before-inl (inl w) (inr message) windows h = absurd (ground arith)
  before-inl (inl w) (inl ws) windows h = (w, ws, refl, refl, ground arith)

  project_all-AreWindows :
      (us : List (meter.Percent × String)) (windows : List Value)
      → project_all meter us ≡ inl windows
      → AreWindows us windows
  unfolding project_all
  project_all-AreWindows [] [] h = tt
  project_all-AreWindows [] (w ∷ ws) h = absurd (ground arith)
  project_all-AreWindows (u ∷ us) windows h =
      let (w, ws, first, rest, made) =
        before-inl (project_window meter u) (project_all meter us) windows h in
      subst (AreWindows (u ∷ us)) (sym made)
        (project_window-IsWindow u w first, project_all-AreWindows us ws rest)

  length-AreWindows :
      (us : List (meter.Percent × String)) (windows : List Value)
      → AreWindows us windows
      → length windows ≡ length us
  length-AreWindows [] [] are = refl
  length-AreWindows [] (w ∷ ws) are = absurd are
  length-AreWindows (u ∷ us) [] are = absurd are
  length-AreWindows (u ∷ us) (w ∷ ws) (is, are) = ap suc (length-AreWindows us ws are)

  some_reading : (us : List (meter.Percent × String)) → is_empty us ≡ false → 1 ≤ length us
  some_reading [] h = absurd (ground arith)
  some_reading (u ∷ us) h = omega arith

  -- The windows that are projected are those of all readings in their order, one at least and sixteen
  -- at most: each reading is finite, from 0 to 100, with a time since 1970, and its window has the ratio
  -- (100 - used) / 100 and that time.
  pub project-AreWindows :
      (bs : Bytes) (windows : List Value)
      → project meter bs ≡ inl windows
      → (us : List (meter.Percent × String)) × (meter.decode_usage bs ≡ some us)
        × (AreWindows us windows)
        × (1 ≤ length windows)
        × (length windows ≤ 16)
  unfolding project
  project-AreWindows bs windows h = elim (Option-cases (meter.decode_usage bs)) [
    | inl wrong ↦ absurd (ground (arith, wrong))
    | inr (us, decoded) ↦ elim (Bool-cases (is_empty us || ltb 16 (length us))) [
      | inl bad ↦ absurd (ground (arith, decoded, bad))
      | inr good ↦
          let are = project_all-AreWindows us windows (ground (arith, decoded, good)) in
          let same = length-AreWindows us windows are in
          let filled : is_empty us ≡ false = ground (arith, good) in
          let few : length us ≤ 16 = ground (arith, good) in
          (us, decoded, are, omega (arith, same, some_reading us filled), omega (arith, same))
    ]
  ]
