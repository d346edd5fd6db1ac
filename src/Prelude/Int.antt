-- ===== src/Prelude/Int.antt =====
-- Rust's `i32`: the integers from -2^31 to 2^31 - 1. `negsuc n` is -(n + 1).
use Prim.Native.Nat.{ℕ, zero, suc, ◌+◌, ◌-◌, ◌%◌, ◌^◌}
use Prim.Native.String.{String}
use mathlib.Core.Bool.{Bool, true, false}
use agent_runner_codex.Prelude.Tests.{ltb, if◌then◌else◌}
use agent_runner_codex.Prelude.Text.{◌⋯◌, show}

pub data ℤ : Type 0 where
  pos : ℕ → ℤ
  negsuc : ℕ → ℤ

abbrev pub is_zero : ℤ → Bool
is_zero (pos zero) = true
is_zero _ = false

-- the integer that 32 bits stand for
abbrev of_bits : ℕ → ℤ
of_bits n = if ltb n (2 ^ 31) then pos n else negsuc (2 ^ 32 - 1 - n)

-- the 32 bits of an `i32`
abbrev to_bits : ℤ → ℕ
to_bits (pos n) = n % 2 ^ 32
to_bits (negsuc n) = 2 ^ 32 - 1 - n % 2 ^ 32

-- `k + i`, which wraps in a release build
unfoldable pub add_i32 : ℕ → ℤ → ℤ
add_i32 k i = of_bits ((k + to_bits i) % 2 ^ 32)

-- `to_string`
unfoldable pub show_i32 : ℤ → String
show_i32 (pos n) = show n
show_i32 (negsuc n) = "-" ⋯ show (suc n)
