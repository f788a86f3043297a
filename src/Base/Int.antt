-- ===== src/Base/Int.antt =====
-- C's `int` results, and the wrap-around of the unsigned types.
use Prim.Native.Nat.{ℕ, ◌-◌, ◌%◌, ◌^◌}

-- `negsuc n` is -(n + 1).
pub data ℤ : Type 0 where
  pos : ℕ → ℤ
  negsuc : ℕ → ℤ

-- The two results that the library's functions return.
abbrev pub success : ℤ
success = pos 0

abbrev pub failure : ℤ
failure = negsuc 0

-- The conversion of a signed value to a w-bit unsigned type.
unfoldable pub to_unsigned : ℕ → ℤ → ℕ
to_unsigned w (pos n) = n % 2 ^ w
to_unsigned w (negsuc n) = (2 ^ w - 1) - n % 2 ^ w
