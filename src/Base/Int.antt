-- ===== src/Base/Int.antt =====
-- Integers over the native numbers, as far as the program needs them.
use Prim.Native.Nat.{ℕ}
use mathlib.Core.Bool.{Bool, false, not}
use ha_reolink_battery.Base.Tests.{nat_eq}

-- `negsuc n` is -(n + 1).
pub data ℤ : Type 0 where
  pos : ℕ → ℤ
  negsuc : ℕ → ℤ

-- `0 < n`
abbrev pub is_positive : ℤ → Bool
is_positive (pos n) = not (nat_eq n 0)
is_positive (negsuc n) = false

abbrev pub is_zero : ℤ → Bool
is_zero (pos n) = nat_eq n 0
is_zero (negsuc n) = false
