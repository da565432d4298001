-- ===== src/Base/Sums.antt =====
-- Sums over the numbers below a bound.
use radix_graph.Base.{
  if◌then◌else◌, ℕ, zero, suc, ◌+◌, ◌*◌, ◌<◌, ◌≡◌, refl, ap, ◌∙◌, Bool, true, false, ◌&&◌, bit, ltb,
  ◌==◌, arith, Bool-cases, inl, inr, ==→≡,
}

abbrev pub sum_below : (ℕ → ℕ) → ℕ → ℕ
sum_below f zero = 0
sum_below f (suc n) = sum_below f n + f n

pub sum_below_ext :
    (f g : ℕ → ℕ) (n : ℕ) → ((i : ℕ) → i < n → f i ≡ g i) → sum_below f n ≡ sum_below g n
sum_below_ext f g zero h = refl
sum_below_ext f g (suc n) h =
    rw (h n (omega arith), sum_below_ext f g n (λ i lt. h i (omega (arith, lt))))

pub sum_below-none : (n : ℕ) → sum_below (λ i. 0) n ≡ 0
sum_below-none zero = refl
sum_below-none (suc n) = omega (arith, sum_below-none n)

pub sum_below_add :
    (f g : ℕ → ℕ) (n : ℕ) → sum_below (λ i. f i + g i) n ≡ sum_below f n + sum_below g n
sum_below_add f g zero = refl
sum_below_add f g (suc n) = omega (arith, sum_below_add f g n)

-- A sum with one term.
pub sum_below_one :
    (h : ℕ → ℕ) (w n : ℕ)
    → sum_below (λ i. if w == i then h i else 0) n ≡ (if ltb w n then h w else 0)
sum_below_one h w zero = ground arith
sum_below_one h w (suc n) = elim (Bool-cases (w == n)) [
  | inl last ↦
      let at : w ≡ n = ==→≡ _ _ last in
      let before : ltb w n ≡ false = ground (arith, last) in
      let after : ltb w (suc n) ≡ true = ground (arith, last) in
      rw (last, after, sum_below_one h w n, before) (let same = ap h at in omega (arith, same))
  | inr other ↦
      let same : ltb w (suc n) ≡ ltb w n = ground (arith, other) in
      rw (other, same, sum_below_one h w n) (omega arith)
]

-- A term that is there for each time that i is in a list.
pub sum_below_times :
    (h : ℕ → ℕ) (w n : ℕ) (t : ℕ → ℕ)
    → sum_below (λ i. (bit (w == i) + t i) * h i) n
      ≡ (if ltb w n then h w else 0) + sum_below (λ i. t i * h i) n
sum_below_times h w n t =
    sum_below_ext _ _ n (λ i lt. split i)
    ∙ sum_below_add (λ i. if w == i then h i else 0) (λ i. t i * h i) n
    ∙ ap (λ k. k + sum_below (λ i. t i * h i) n) (sum_below_one h w n)
  where
    split : (i : ℕ) → (bit (w == i) + t i) * h i ≡ (if w == i then h i else 0) + t i * h i
    split i = elim (Bool-cases (w == i)) [
      | inl here ↦ rw here (grind arith)
      | inr other ↦ rw other (grind arith)
    ]

-- A factor of all terms that is 0 or 1.
pub sum_below-bit :
    (b : Bool) (c : ℕ → Bool) (n : ℕ)
    → sum_below (λ i. bit (b && c i)) n ≡ bit b * sum_below (λ i. bit (c i)) n
sum_below-bit true c n = omega arith
sum_below-bit false c n = sum_below-none n ∙ omega arith
