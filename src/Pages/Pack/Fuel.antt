-- ===== src/Pages/Pack/Fuel.antt =====
-- What the loop of `scan_pack` answers, whatever the bytes, on more fuel than there are of them.
use agent_runner_codex.Prelude.{
  ℕ, zero, suc, ◌+◌, ◌<◌, ◌≡◌, ◌⊎◌, ◌∙◌, none, some, Option-cases, ap, String, false, Bytes, [],
  ◌∷◌, ◌++◌, Option, length, is_empty, arith, length-append, Bool-cases, inl, inr,
}
use agent_runner_codex.Pages.Pack.{
  read_frame, frame_body, if_digest, last_match, pack_of, scan_bytes, scan_from,
}
use agent_runner_codex.Pages.Pack.Scan.{IsHexDigest}
use agent_runner_codex.Pages.Pack.Sound.{IsPack, scan_from_sound}
use agent_runner_codex.Pages.Pack.Append.{scan_bytes-IsPack}
use agent_runner_codex.Pages.Pack.Frames.{read_frame-append}

read_frame_shorter :
    (n : ℕ) (bs : Bytes)
    → is_empty (read_frame n bs).0 ≡ false
    → length (read_frame n bs).1 < length bs
read_frame_shorter n bs h = sized (read_frame n bs).0 (read_frame n bs).1 (read_frame-append n bs) h
  where
    sized : (f r : Bytes) → f ++ r ≡ bs → is_empty f ≡ false → length r < length bs
    sized [] r e k = absurd (ground (arith, k))
    sized (b ∷ f) r e k = omega (arith, ap length e, length-append f r)

-- More fuel than bytes: the loop's answer does not depend on how much more.
scan_from_fuel :
    (sha256_hex : Bytes → String) (f g : ℕ) (digest : String) (bs : Bytes) (end : ℕ)
    (found : Option Bytes)
    → length bs < f
    → length bs < g
    → scan_from sha256_hex f digest bs end found ≡ scan_from sha256_hex g digest bs end found
unfolding scan_from
scan_from_fuel sha256_hex zero g digest bs end found hf hg = elim hf [ ]
scan_from_fuel sha256_hex (suc f) zero digest bs end found hf hg = elim hg [ ]
scan_from_fuel sha256_hex (suc f) (suc g) digest bs end found hf hg =
    elim (Bool-cases (is_empty (read_frame 32835 bs).0)) [
      | inl stop ↦ rw stop
      | inr go ↦
          let less = read_frame_shorter 32835 bs go in
          rw (
            scan_from_fuel sha256_hex f g digest (read_frame 32835 bs).1
              (end + length (read_frame 32835 bs).0)
              (if_digest sha256_hex digest (frame_body (read_frame 32835 bs).0) found) (omega arith)
              (omega arith))
    ]

-- With more fuel than bytes the scan loop answers, whatever the bytes: where they are a pack, which is
-- complete frames and at most an unfinished one behind them, it gives the content of the last frame with
-- the digest, and the end of the complete frames; it gives nothing only where they are none.
pub scan_from-IsPack :
    (sha256_hex : Bytes → String) (law : IsHexDigest sha256_hex) (fuel : ℕ) (digest : String)
    (bs : Bytes)
    → length bs < fuel
    → ((k : IsPack sha256_hex bs) × (scan_from sha256_hex fuel digest bs 0 none
          ≡ some
              (last_match sha256_hex digest k.bodies none, length (pack_of sha256_hex k.bodies))))
      ⊎ ((IsPack sha256_hex bs → ⊥) × (scan_from sha256_hex fuel digest bs 0 none ≡ none))
scan_from-IsPack sha256_hex law fuel digest bs enough =
    let same : scan_from sha256_hex fuel digest bs 0 none ≡ scan_bytes sha256_hex digest bs =
      scan_from_fuel sha256_hex fuel (suc (length bs)) digest bs 0 none enough (omega arith) in
    elim (Option-cases (scan_bytes sha256_hex digest bs)) [
      | inr (r, scanned) ↦
          let k = scan_from_sound sha256_hex law (suc (length bs)) digest bs 0 none r scanned in
          inl (k, same ∙ scan_bytes-IsPack sha256_hex law digest bs k)
      | inl refused ↦ inr (
        λ k. ground (arith, refused, scan_bytes-IsPack sha256_hex law digest bs k),
        same ∙ refused,
      )
    ]
