-- ===== src/Common/Integers.antt =====
-- Signed 64-bit numbers and their conversions to machine words.
use mathlib.Core.Bool.{Bool}
use Prim.Native.Nat.{ℕ, suc, ◌+◌, ◌-◌, ◌^◌, ◌%◌}
use neo_init_ware.Common.Tests.{ltb, if◌then◌else◌}

-- `negsuc n` is -1 - n.
pub data ℤ : Type 0 where
  pos negsuc : ℕ → ℤ

infixl 6 ◌+ℤ◌
abbrev pub ◌+ℤ◌ : ℤ → ℤ → ℤ
pos m +ℤ pos n = pos (m + n)
pos m +ℤ negsuc n = if ltb n m then pos (m - suc n) else negsuc (n - m)
negsuc m +ℤ pos n = if ltb m n then pos (n - suc m) else negsuc (m - n)
negsuc m +ℤ negsuc n = negsuc (suc (m + n))

-- The number is one of `int64_t`.
abbrev pub fits_int64 : ℤ → Bool
fits_int64 (pos n) = ltb n (2 ^ 63)
fits_int64 (negsuc n) = ltb n (2 ^ 63)

-- The conversion to `size_t`.
abbrev pub size_word : ℤ → ℕ
size_word (pos n) = n % 2 ^ 64
size_word (negsuc n) = 2 ^ 64 - 1 - n % 2 ^ 64

-- The conversion to `int`, as the word that stands for it.
abbrev pub int_word : ℤ → ℕ
int_word z = size_word z % 2 ^ 32

-- The `int` that a word stands for.
abbrev pub int_of : ℕ → ℤ
int_of n = if ltb (n % 2 ^ 32) (2 ^ 31) then pos (n % 2 ^ 32) else negsuc (2 ^ 32 - 1 - n % 2 ^ 32)
