-- ===== src/Bits.antt =====
-- Bit operations at variables: a mask of ones is a remainder, and the single-bit updates of a byte.
-- The code uses them in the bitmaps of src/utils.h and in the child index of src/sort.cpp.
use Prim.Native.Nat.{min, bit_and, bit_or, digits, bit_and-bitwise}
use native.Mathlib.Nat.{pow-suc, zero-div}
use radix_graph.Base.{
  ℕ, zero, suc, ◌+◌, ◌-◌, ◌*◌, ◌/◌, ◌%◌, ◌^◌, ◌≤◌, ◌<◌, ◌≡◌, refl, Bool, true, false, not, ◌&&◌,
  ◌||◌, arith, ◌==◌, ltb, ltb→lt, if◌then◌else◌, Bool-cases, inl, inr, ◌∙◌,
}

pub two_pow_pos : (k : ℕ) → 0 < 2 ^ k
two_pow_pos zero = omega arith
two_pow_pos (suc k) = omega (arith, pow-suc 2 k, two_pow_pos k)

mod_double : (a p : ℕ) → 0 < p → a / 2 % p * 2 + a % 2 ≡ a % (2 * p)
mod_double a p h = grind arith

-- The digits of a mask of ones, with any fuel that is enough.
digits_mask : (k n a : ℕ) → a ≤ n → digits (λ b. zero) min n a (2 ^ k - 1) ≡ a % 2 ^ k
digits_mask k zero zero h = omega arith
digits_mask k (suc n) zero h = omega arith
digits_mask k zero (suc a) h = absurd (omega arith)
digits_mask zero (suc n) (suc a) h =
    let rest = digits_mask zero n (suc a / 2) (omega arith) in omega (arith, rest)
digits_mask (suc k) (suc n) (suc a) h =
    let doubled : 2 ^ suc k ≡ 2 * 2 ^ k = omega (arith, pow-suc 2 k) in
    let some_one = two_pow_pos k in
    let halved : (2 ^ suc k - 1) / 2 ≡ 2 ^ k - 1 = omega arith in
    let odd : (2 ^ suc k - 1) % 2 ≡ 1 = omega arith in
    let rest = digits_mask k n (suc a / 2) (omega arith) in
    rw (halved, odd, rest, doubled) (omega (arith, mod_double (suc a) (2 ^ k) some_one))

-- `a & ((1 << k) - 1)` keeps the k low bits.
pub bit_and-mask : (a k : ℕ) → bit_and a (2 ^ k - 1) ≡ a % 2 ^ k
bit_and-mask a k = bit_and-bitwise a _ ∙ digits_mask k a a (omega arith)

-- `(w >> c) & 1`, as a test.
unfoldable pub test_bit : ℕ → ℕ → Bool
test_bit w c = bit_and (w / 2 ^ c) 1 == 1

pub test_bit-zero : (c : ℕ) → test_bit 0 c ≡ false
unfolding test_bit
test_bit-zero c = rw zero-div refl

every : (ℕ → Bool) → ℕ → Bool
every p zero = true
every p (suc n) = let rest = every p n in if p n then rest else false

every_at : (p : ℕ → Bool) (n x : ℕ) → x < n → every p n ≡ true → p x ≡ true
unfolding every
every_at p zero x below h = absurd (omega arith)
every_at p (suc n) x below h = elim (Bool-cases (x == n)) [
  | inl here ↦ let e : x ≡ n = ground arith in rw e (ground arith)
  | inr before ↦ every_at p n x (ground arith) (ground arith)
]

-- What holds of every byte and of every two positions in it.
all_bytes : (ℕ → ℕ → ℕ → Bool) → Bool
unfolding every
all_bytes p = every (λ w. every (λ b. every (λ c. p w b c) 8) 8) 256

all_bytes_sound :
    (p : ℕ → ℕ → ℕ → Bool)
    → all_bytes p ≡ true
    → (w b c : ℕ) → w < 256
    → b < 8
    → c < 8
    → p w b c ≡ true
unfolding all_bytes
all_bytes_sound p h w b c hw hb hc = every_at (p w b) 8 c hc (
    every_at (λ b. every (λ c. p w b c) 8) 8 b hb
      (every_at (λ w. every (λ b. every (λ c. p w b c) 8) 8) 256 w hw h))

infix 4 ◌=b◌
abbrev ◌=b◌ : Bool → Bool → Bool
true =b b = b
false =b b = not b

eq_of_=b : (a b : Bool) → (a =b b) ≡ true → a ≡ b
eq_of_=b a b h = ground arith

or_table :
    all_bytes (λ w b c.
      (test_bit (bit_or w (2 ^ b)) c =b (b == c) || test_bit w c) && ltb (bit_or w (2 ^ b)) 256)
    ≡ true
unfolding all_bytes test_bit
or_table = refl

and_table :
    all_bytes (λ w b c.
      (test_bit (bit_and w (255 - 2 ^ b)) c =b not (b == c) && test_bit w c)
      && ltb (bit_and w (255 - 2 ^ b)) 256)
    ≡ true
unfolding all_bytes test_bit
and_table = refl

and_split : (a b : Bool) → (a && b) ≡ true → (a ≡ true) × (b ≡ true)
and_split a b h = ground arith

module _ (w b : ℕ) (byte : w < 256) (place : b < 8) where
  -- `w |= 1 << b` sets position b of the byte and no other.
  pub test_bit-or : (c : ℕ) → c < 8 → test_bit (bit_or w (2 ^ b)) c ≡ ((b == c) || test_bit w c)
  test_bit-or c h = eq_of_=b _ _ (and_split _ _ (all_bytes_sound _ or_table w b c byte place h)).0

  pub or-lt : bit_or w (2 ^ b) < 256
  or-lt = ltb→lt _ _ (and_split _ _ (all_bytes_sound _ or_table w b 0 byte place (omega arith))).1

  -- `w &= ~(1 << b)` clears position b of the byte and no other.
  pub test_bit-and :
      (c : ℕ) → c < 8 → test_bit (bit_and w (255 - 2 ^ b)) c ≡ (not (b == c) && test_bit w c)
  test_bit-and c h = eq_of_=b _ _ (and_split _ _ (all_bytes_sound _ and_table w b c byte place h)).0

  pub and-lt : bit_and w (255 - 2 ^ b) < 256
  and-lt = ltb→lt _ _ (and_split _ _ (all_bytes_sound _ and_table w b 0 byte place (omega arith))).1
