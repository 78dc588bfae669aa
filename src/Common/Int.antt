-- ===== src/Common/Int.antt =====
-- Go's signed integers and durations as they reach a constructor, and the units of time. Past the
-- constructors a duration is a natural number of nanoseconds, and so is an instant.
use Prim.Native.Nat.{ℕ, zero, suc, ◌*◌, ◌<◌}
use native.Mathlib.Omega.{arith}

-- `negsuc n` is -(n + 1).
pub data ℤ : Type 0 where
  pos : ℕ → ℤ
  negsuc : ℕ → ℤ

-- if x <= 0 { x = d }
abbrev pub positive_or : ℤ → ℕ → ℕ
positive_or (pos zero) d = d
positive_or (pos (suc n)) d = suc n
positive_or (negsuc n) d = d

pub positive_or-pos : (x : ℤ) (d : ℕ) → 0 < d → 0 < positive_or x d
positive_or-pos (pos zero) d h = h
positive_or-pos (pos (suc n)) d h = omega arith
positive_or-pos (negsuc n) d h = h

abbrev pub second : ℕ
second = 1_000_000_000

abbrev pub minute : ℕ
minute = 60 * 1_000_000_000
