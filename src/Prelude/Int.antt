-- ===== src/Prelude/Int.antt =====
-- Go's signed integers, where a program tests their sign or multiplies them.
use Prim.Native.Nat.{ℕ, ◌-◌, ◌*◌, ◌%◌, ◌^◌}
use mathlib.Core.Bool.{Bool, false}
use zadodb.Prelude.Tests.{ltb, if◌then◌else◌}

-- `negsuc n` is -(n + 1).
pub data ℤ : Type 0 where
  pos : ℕ → ℤ
  negsuc : ℕ → ℤ

-- `if n < 0 { n = 0 }`
abbrev pub at_least_zero : ℤ → ℕ
at_least_zero (pos n) = n
at_least_zero (negsuc n) = 0

-- `n > 0`.
abbrev pub is_positive : ℤ → Bool
is_positive (pos n) = ltb 0 n
is_positive (negsuc n) = false

-- An int64 from its bit pattern, and its pattern.
unfoldable pub int64_of : ℕ → ℤ
int64_of n = if ltb n (2 ^ 63) then pos n else negsuc (2 ^ 64 - 1 - n)

unfoldable pub pattern_of : ℤ → ℕ
pattern_of (pos n) = n % 2 ^ 64
pattern_of (negsuc n) = 2 ^ 64 - 1 - n % 2 ^ 64

-- The product of an int64 and a positive constant, which wraps.
unfoldable pub times : ℤ → ℕ → ℤ
unfolding int64_of pattern_of
times z k = int64_of ((pattern_of z * k) % 2 ^ 64)
