-- ===== src/Common/Int.antt =====
-- Signed integers over the native numbers, and the cast of a `u64` to an `i64`.
use Prim.Native.Nat.{ℕ, ◌-◌, ◌^◌}
use jw_swarm.Common.Tests.{ltb, if◌then◌else◌}
use jw_swarm.Common.{Bool, leb, false, true}

-- `negsuc n` is -(n + 1).
pub data ℤ : Type 0 where
  pos : ℕ → ℤ
  negsuc : ℕ → ℤ

-- `n as i64` for a `u64`: two's complement.
unfoldable pub as_i64 : ℕ → ℤ
as_i64 n = if ltb n (2 ^ 63) then pos n else negsuc (2 ^ 64 - 1 - n)

-- `a >= b` and `a <= b` against a bound that is not negative
abbrev pub ge_ℕ : ℤ → ℕ → Bool
ge_ℕ (pos n) b = leb b n
ge_ℕ (negsuc n) b = false

abbrev pub le_ℕ : ℤ → ℕ → Bool
le_ℕ (pos n) b = leb n b
le_ℕ (negsuc n) b = true
