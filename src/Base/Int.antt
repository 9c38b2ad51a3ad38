-- ===== src/Base/Int.antt =====
-- Signed integers over the native numbers, and the `i64` operations that the program uses.
use Prim.Native.Nat.{ℕ, suc, ◌+◌, ◌-◌, ◌%◌, ◌^◌, ◌≤◌, ◌<◌}
use mathlib.Core.Path.{◌≡◌}
use mathlib.Core.Bool.{Bool}
use native.Mathlib.Omega.{arith}
use minara_connect.Base.Tests.{ltb, leb, if◌then◌else◌}

-- `negsuc n` is -(n + 1).
pub data ℤ : Type 0 where
  pos : ℕ → ℤ
  negsuc : ℕ → ℤ

abbrev pub pos_part : ℤ → ℕ
pos_part (pos n) = n
pos_part (negsuc n) = 0

abbrev pub neg_part : ℤ → ℕ
neg_part (pos n) = 0
neg_part (negsuc n) = suc n

-- a - b, as an integer.
abbrev pub sub_ℕ : ℕ → ℕ → ℤ
sub_ℕ a b = if leb b a then pos (a - b) else negsuc (b - a - 1)

infixl 65 ◌-ℤ◌
infix 50 ◌≤ℤ◌
unfoldable pub ◌-ℤ◌ : ℤ → ℤ → ℤ
a -ℤ b = sub_ℕ (pos_part a + neg_part b) (neg_part a + pos_part b)

abbrev pub ◌≤ℤ◌ : ℤ → ℤ → Type 0
a ≤ℤ b = pos_part a + neg_part b ≤ pos_part b + neg_part a

abbrev pub ltb_ℤ : ℤ → ℤ → Bool
ltb_ℤ a b = ltb (pos_part a + neg_part b) (pos_part b + neg_part a)

abbrev pub leb_ℤ : ℤ → ℤ → Bool
leb_ℤ a b = leb (pos_part a + neg_part b) (pos_part b + neg_part a)

abbrev pub i64_min : ℤ
i64_min = negsuc (2 ^ 63 - 1)

-- The bit pattern below 2^64, read as a signed 64-bit integer.
abbrev from_bits : ℕ → ℤ
from_bits r = if ltb r (2 ^ 63) then pos r else negsuc (2 ^ 64 - 1 - r)

-- Two's complement wrap-around of an `i64` operation.
abbrev pub wrap_i64 : ℤ → ℤ
wrap_i64 (pos n) = from_bits (n % 2 ^ 64)
wrap_i64 (negsuc n) = from_bits (2 ^ 64 - 1 - n % 2 ^ 64)

-- `a - b` on `i64`, as a release build computes it.
unfoldable pub sub_i64 : ℤ → ℤ → ℤ
unfolding ◌-ℤ◌
sub_i64 a b = wrap_i64 (a -ℤ b)

abbrev clamp_i64 : ℤ → ℤ
clamp_i64 (pos n) = if ltb n (2 ^ 63) then pos n else pos (2 ^ 63 - 1)
clamp_i64 (negsuc n) = if ltb n (2 ^ 63) then negsuc n else i64_min

-- `a.saturating_sub(b)` on `i64`
unfoldable pub saturating_sub_i64 : ℤ → ℤ → ℤ
unfolding ◌-ℤ◌
saturating_sub_i64 a b = clamp_i64 (a -ℤ b)

-- Between two times that are not negative, the subtraction does not wrap.
pub sub_i64-pos : (a b : ℕ) → a < 2 ^ 63 → b < 2 ^ 63 → sub_i64 (pos a) (pos b) ≡ sub_ℕ a b
unfolding sub_i64
sub_i64-pos a b h k = ground arith

pub saturating_sub_i64-pos :
    (a b : ℕ) → a < 2 ^ 63 → b < 2 ^ 63 → saturating_sub_i64 (pos a) (pos b) ≡ sub_ℕ a b
unfolding saturating_sub_i64
saturating_sub_i64-pos a b h k = ground arith
