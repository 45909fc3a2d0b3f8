-- ===== src/Common/Ints.antt =====
-- Signed integers over the native numbers, under the library's names.
use Prim.Native.Nat.{ℕ, suc, ◌-◌, ◌%◌, ◌^◌, ◌<◌}
use mathlib.Core.Bool.{Bool, true, false}
use jointprof.Common.Tests.{ltb, if◌then◌else◌}

-- `negsuc n` is -(n + 1).
pub data ℤ : Type 0 where
  pos : ℕ → ℤ
  negsuc : ℕ → ℤ

-- The two's complement reading of a bit pattern below 2 ^ 32.
abbrev pub signed32 : ℕ → ℤ
signed32 w = if ltb w (2 ^ 31) then pos w else negsuc (2 ^ 32 - 1 - w)

-- The conversion of a wider integer to `int`: the low 32 bits.
abbrev pub to_int : ℤ → ℤ
to_int (pos n) = signed32 (n % 2 ^ 32)
to_int (negsuc n) = signed32 (2 ^ 32 - 1 - n % 2 ^ 32)

-- The values of int64.
abbrev pub IsInt64 : ℤ → Type 0
IsInt64 (pos n) = n < 2 ^ 63
IsInt64 (negsuc n) = n < 2 ^ 63

abbrev pub is_negative : ℤ → Bool
is_negative (pos n) = false
is_negative (negsuc n) = true

abbrev pub magnitude : ℤ → ℕ
magnitude (pos n) = n
magnitude (negsuc n) = suc n
