-- ===== src/Sort/Digits.antt =====
-- The child index of src/sort.cpp cuts an ID into the digits of a mixed radix, from the top: over all
-- levels two IDs take the same path exactly when their low bits are the same.
use native.Mathlib.Nat.{
  pow-suc, div-add-mod, div-lt_iff_lt-mul, mod-lt, mod-mod_of_dvd, mod-one, dvd-mul_left,
}
use radix_graph.Base.{
  ℕ, zero, suc, ◌+◌, ◌-◌, ◌*◌, ◌/◌, ◌%◌, ◌^◌, ◌≤◌, ◌<◌, ◌≡◌, refl, ap, true, ◌&&◌, List, [], ◌∷◌,
  length, get_or, ltb, ◌==◌, arith, Bool-cases, inl, inr, ==→≡, ==→≢, ==_refl,
}
use radix_graph.Bits.{bit_and-mask, two_pow_pos}
use radix_graph.Sort.{num_now, child_index, fanout}
use radix_graph.Sort.Config.{prefix_sums}
use radix_graph.Sort.Trie.Laws.{agree, InRange}

-- The sum of the first k widths.
unfoldable pub sum_take : List ℕ → ℕ → ℕ
sum_take bs zero = 0
sum_take [] (suc k) = 0
sum_take (b ∷ bs) (suc k) = b + sum_take bs k

get_or-prefix_sums :
    (acc : ℕ) (bs : List ℕ) (k : ℕ)
    → k < length bs
    → get_or (prefix_sums acc bs) k 0 ≡ acc + sum_take bs (suc k)
unfolding prefix_sums sum_take
get_or-prefix_sums acc [] k h = absurd (omega arith)
get_or-prefix_sums acc (b ∷ bs) zero h = omega arith
get_or-prefix_sums acc (b ∷ bs) (suc k) h =
    omega (arith, get_or-prefix_sums (acc + b) bs k (omega arith))

pub sum_take-suc :
    (bs : List ℕ) (k : ℕ) → k < length bs → sum_take bs (suc k) ≡ sum_take bs k + get_or bs k 0
unfolding sum_take
sum_take-suc [] k h = absurd (omega arith)
sum_take-suc (b ∷ bs) zero h = omega arith
sum_take-suc (b ∷ bs) (suc k) h = omega (arith, sum_take-suc bs k (omega arith))

pub sum_take_mono : (bs : List ℕ) (j k : ℕ) → j ≤ k → sum_take bs j ≤ sum_take bs k
unfolding sum_take
sum_take_mono bs zero k h = omega arith
sum_take_mono bs (suc j) zero h = absurd (omega arith)
sum_take_mono [] (suc j) (suc k) h = omega arith
sum_take_mono (b ∷ bs) (suc j) (suc k) h = omega (arith, sum_take_mono bs j k (omega arith))

-- The bits of an ID that are left at level i, and those of all levels.
pub bits_left : List ℕ → ℕ → ℕ
bits_left bs i = sum_take bs (length bs) - sum_take bs i

bits_left_step :
    (bs : List ℕ) (i : ℕ) → i < length bs → bits_left bs i ≡ get_or bs i 0 + bits_left bs (suc i)
unfolding bits_left
bits_left_step bs i h = omega (arith, sum_take-suc bs i h, sum_take_mono bs (suc i) (length bs) h)

pub bits_left_root : (bs : List ℕ) → bits_left bs 0 ≡ sum_take bs (length bs)
unfolding bits_left sum_take
bits_left_root bs = omega arith

pub bits_left_end : (bs : List ℕ) → bits_left bs (length bs) ≡ 0
unfolding bits_left
bits_left_end bs = omega arith

pub pow_add : (a b : ℕ) → 2 ^ (a + b) ≡ 2 ^ a * 2 ^ b
pow_add zero b = let e : 0 + b ≡ b = omega arith in rw e (omega arith)
pow_add (suc a) b =
    let e : suc a + b ≡ suc (a + b) = omega arith in
    rw e (rw (pow-suc, pow-suc, pow_add a b) (grind arith))

-- A number is its quotient and its remainder.
split_eq : (x y p : ℕ) → ((x / p == y / p) && (x % p == y % p)) ≡ (x == y)
split_eq x y p = elim (Bool-cases (x == y)) [
  | inl same ↦ let e = ==→≡ _ _ same in rw (same, e, ==_refl (y / p), ==_refl (y % p)) refl
  | inr apart ↦ elim (Bool-cases ((x / p == y / p) && (x % p == y % p))) [
    | inr differ ↦ rw (differ, apart)
    | inl both ↦
        let q : x / p ≡ y / p = ground arith in
        let r : x % p ≡ y % p = ground arith in
        absurd (
          ==→≢ _ _ apart (omega (arith, div-add-mod x p, div-add-mod y p, ap (λ (k : ℕ). p * k) q)))
  ]
]

module _ (bs : List ℕ) where
  abbrev sums : List ℕ
  sums = prefix_sums 0 bs

  abbrev pub path : ℕ → ℕ → ℕ
  path id i = child_index (prefix_sums 0 bs) (length bs) id i

  shift-bits_left :
      (i : ℕ)
      → i < length bs
      → get_or sums (length bs - 1) 0 - get_or sums i 0 ≡ bits_left bs (suc i)
  unfolding bits_left
  shift-bits_left i h =
      let n : suc (length bs - 1) ≡ length bs = omega arith in
      let last = rw n at (get_or-prefix_sums 0 bs (length bs - 1) (omega arith)) in
      omega (arith, last, get_or-prefix_sums 0 bs i h)

  num_now-bits_left : (i : ℕ) → i < length bs → num_now sums (length bs) i ≡ bits_left bs i
  unfolding bits_left sum_take
  num_now-bits_left zero h =
      let n : suc (length bs - 1) ≡ length bs = omega arith in
      let last = rw n at (get_or-prefix_sums 0 bs (length bs - 1) (omega arith)) in
      ground (arith, last)
  num_now-bits_left (suc i) h =
      let back : suc i - 1 ≡ i = omega arith in
      let test : ltb 0 (suc i) ≡ true = ground arith in
      rw (test, back) (shift-bits_left i (omega arith))

  -- The digit at level i.
  pub path-digit :
      (id i : ℕ) → i < length bs → path id i ≡ id % 2 ^ bits_left bs i / 2 ^ bits_left bs (suc i)
  unfolding child_index
  path-digit id i h =
      rw (shift-bits_left i h, num_now-bits_left i h, bit_and-mask id (bits_left bs i))

  pub two_pow_step :
      (i : ℕ) → i < length bs → 2 ^ bits_left bs i ≡ 2 ^ get_or bs i 0 * 2 ^ bits_left bs (suc i)
  two_pow_step i h = rw (bits_left_step bs i h) (pow_add _ _)

  pub path-lt : (id i : ℕ) → i < length bs → path id i < fanout bs i
  path-lt id i h =
      let p = two_pow_pos (bits_left bs (suc i)) in
      rw (path-digit id i h) (
        (div-lt_iff_lt-mul p).1
          (rw (← two_pow_step i h) (mod-lt id (two_pow_pos (bits_left bs i)))))

  -- For widths of the levels and any ID, the child index at each of the last h levels is below the
  -- fanout of its level, so that the walks stay inside the arrays of children.
  pub path-InRange : (id h i : ℕ) → h + i ≡ length bs → InRange (fanout bs) (path id) h i
  path-InRange id zero i e = tt
  path-InRange id (suc h) i e =
      (path-lt id i (omega arith), path-InRange id h (i + 1) (omega arith))

  pub mod_again :
      (id i : ℕ)
      → i < length bs
      → id % 2 ^ bits_left bs i % 2 ^ bits_left bs (suc i) ≡ id % 2 ^ bits_left bs (suc i)
  mod_again id i h = mod-mod_of_dvd _ id (rw (two_pow_step i h) (dvd-mul_left _ _))

  -- Two IDs take the same path from level i on exactly when the bits that are left are the same.
  pub agree-bits_left :
      (a b h i : ℕ)
      → h + i ≡ length bs
      → agree (path a) (path b) h i ≡ (a % 2 ^ bits_left bs i == b % 2 ^ bits_left bs i)
  agree-bits_left a b zero i e =
      let none_left : bits_left bs i ≡ 0 = unfold bits_left in rw (← e) (ground arith) in
      rw none_left (rw (mod-one a, mod-one b) refl)
  agree-bits_left a b (suc h) i e =
      let lt : i < length bs = omega arith in
      let one_more : i + 1 ≡ suc i = omega arith in
      let rest = rw one_more at (agree-bits_left a b h (i + 1) (omega arith)) in
      rw
        (
          path-digit a i lt,
          path-digit b i lt,
          one_more,
          rest,
          ← mod_again a i lt,
          ← mod_again b i lt,
        )
        (split_eq (a % 2 ^ bits_left bs i) (b % 2 ^ bits_left bs i) (2 ^ bits_left bs (suc i)))

-- The child indices cut an ID into digits from the top: for widths of the levels, two IDs take the
-- same path from the root to the last level exactly when they are equal in the low bits, as many
-- as the widths have in sum.
pub agree_root :
    (bs : List ℕ) (a b : ℕ)
    → agree (path bs a) (path bs b) (length bs) 0
      ≡ (a % 2 ^ sum_take bs (length bs) == b % 2 ^ sum_take bs (length bs))
agree_root bs a b = rw (← bits_left_root bs) (agree-bits_left bs a b (length bs) 0 (omega arith))
