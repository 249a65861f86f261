-- ===== src/Base/Numbers.antt =====
-- The signed results of the calls of a file system.
use Prim.Native.Nat.{ℕ, zero, suc, ◌-◌, ◌%◌, ◌^◌}
use mathlib.Core.Bool.{Bool, true, false}
use pingfs.Base.Logic.{ltb, if◌then◌else◌}

-- `negsuc n` is the number -(n + 1).
pub data ℤ : Type 0 where
  pos : ℕ → ℤ
  negsuc : ℕ → ℤ

unfoldable pub neg : ℕ → ℤ
neg zero = ℤ.pos 0
neg (suc n) = ℤ.negsuc n

-- The value of a 64-bit number as an `int`.
unfoldable pub to_int : ℕ → ℤ
to_int n =
    let low = n % 2 ^ 32 in if ltb low (2 ^ 31) then ℤ.pos low else ℤ.negsuc (2 ^ 32 - 1 - low)

-- `n == 0`.
unfoldable pub is_zero : ℤ → Bool
is_zero (ℤ.pos zero) = true
is_zero _ = false
