-- ===== src/Base/Int.antt =====
-- The integers, over the native numbers, and the sums of C on 32 bits.
use Prim.Native.Nat.{ℕ, ◌+◌, ◌-◌, ◌^◌, ◌<◌}
use anfs.Base.Tests.{ltb, if◌then◌else◌}

-- `negsuc n` is - (n + 1).
pub data ℤ : Type 0 where
  pos : ℕ → ℤ
  negsuc : ℕ → ℤ

infixl 60 ◌+ℤ◌
abbrev pub ◌+ℤ◌ : ℤ → ℤ → ℤ
pos a +ℤ pos b = pos (a + b)
pos a +ℤ negsuc b = if ltb b a then pos (a - (b + 1)) else negsuc (b - a)
negsuc a +ℤ pos b = if ltb a b then pos (b - (a + 1)) else negsuc (a - b)
negsuc a +ℤ negsuc b = negsuc (a + b + 1)

-- The value of a `LONG`, for an integer that is at most one wrap away
abbrev pub wrap32 : ℤ → ℤ
wrap32 (pos n) = if ltb n (2 ^ 31) then pos n else negsuc (2 ^ 32 - 1 - n)
wrap32 (negsuc n) = if ltb n (2 ^ 31) then negsuc n else pos (2 ^ 32 - 1 - n)

-- The integer fits in a `LONG`.
abbrev pub IsLong : ℤ → Type 0
IsLong (pos n) = n < 2 ^ 31
IsLong (negsuc n) = n < 2 ^ 31
