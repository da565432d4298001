-- ===== src/Base/Int.antt =====
-- Signed integers over the native numbers, for the counters that can fall below zero.
use Prim.Native.Nat.{ℕ, suc, ◌+◌, ◌-◌}
use mathlib.Core.Path.{◌≡◌}
use mathlib.Core.Bool.{Bool, false}
use native.Mathlib.Omega.{arith}
use radix_graph.Base.Tests.{leb, ◌==◌, if◌then◌else◌}

-- `negsuc n` is -(n + 1).
pub data ℤ : Type 0 where
  pos : ℕ → ℤ
  negsuc : ℕ → ℤ

abbrev pub pos_part : ℤ → ℕ
pos_part (pos n) = n
pos_part (negsuc n) = 0

abbrev pub neg_part : ℤ → ℕ
neg_part (pos n) = 0
neg_part (negsuc n) = suc n

abbrev pub sub_ℕ : ℕ → ℕ → ℤ
sub_ℕ a b = if leb b a then pos (a - b) else negsuc (b - a - 1)

infixl 65 ◌+ℤ◌
unfoldable pub ◌+ℤ◌ : ℤ → ℤ → ℤ
a +ℤ b = sub_ℕ (pos_part a + pos_part b) (neg_part a + neg_part b)

-- `n == z`, for a number and an integer.
abbrev pub eq_ℤ : ℕ → ℤ → Bool
eq_ℤ n (pos m) = n == m
eq_ℤ n (negsuc m) = false

-- A count that goes up by p and down by q.
pub add_change : (n p q m : ℕ) → n + q ≡ p + m → pos m +ℤ sub_ℕ p q ≡ pos n
unfolding ◌+ℤ◌
add_change n p q m h = ground arith
