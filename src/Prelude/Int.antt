-- ===== src/Prelude/Int.antt =====
-- Go's signed integers: values of ℤ, and the conversion `int32(n)` with its wrap-around.
use Prim.Native.Nat.{ℕ, ◌-◌, ◌%◌, ◌<◌}
use mathlib.Core.Path.{◌≡◌}
use mathlib.Core.Bool.{Bool, true, false}
use native.Mathlib.Omega.{arith}
use pvpool.Prelude.Tests.{ltb, if◌then◌else◌}

-- `negsuc n` is -(n + 1).
pub data ℤ : Type 0 where
  pos : ℕ → ℤ
  negsuc : ℕ → ℤ

abbrev pub ltb_ℤ : ℤ → ℤ → Bool
ltb_ℤ (pos a) (pos b) = ltb a b
ltb_ℤ (pos a) (negsuc b) = false
ltb_ℤ (negsuc a) (pos b) = true
ltb_ℤ (negsuc a) (negsuc b) = ltb b a

-- `int32(n)` of an unsigned value: the low 32 bits in two's complement.
abbrev pub to_int32 : ℕ → ℤ
to_int32 n = let m = n % 4294967296 in if ltb m 2147483648 then pos m else negsuc (4294967295 - m)

-- A value below 2 ^ 31 is kept.
pub to_int32-small : (n : ℕ) → n < 2147483648 → to_int32 n ≡ pos n
to_int32-small n h = ground arith
