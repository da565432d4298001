-- ===== src/Sort/Transform/Prefixes.antt =====
-- The bits of an ID above a level: the number that `Transform` of src/sort.cpp gives to a node there.
use native.Mathlib.Nat.{div-add-mod', mod-one, mul-le-mul_right, div-eq_of_lt, mul-add-div_right}
use radix_graph.Base.{
  ℕ, zero, suc, ◌+◌, ◌*◌, ◌/◌, ◌%◌, ◌^◌, ◌≤◌, ◌<◌, ◌≡◌, ap, ◌∙◌, sym, List, length, get_or, arith,
}
use radix_graph.Sort.{fanout}
use radix_graph.Sort.Digits.{
  sum_take, sum_take-suc, bits_left, bits_left_root, bits_left_end, pow_add, path, path-digit,
  two_pow_step, mod_again,
}

module _ (bs : List ℕ) where
  abbrev pub prefix : ℕ → ℕ → ℕ
  prefix id zero = 0
  prefix id (suc i) = prefix id i * fanout bs i + path bs id i

  -- With the bits below the level it is the ID, in the bits that the tree looks at.
  prefix-bits_left :
      (id i : ℕ)
      → i ≤ length bs
      → prefix id i * 2 ^ bits_left bs i + id % 2 ^ bits_left bs i
        ≡ id % 2 ^ sum_take bs (length bs)
  prefix-bits_left id zero h = rw (bits_left_root bs) (omega arith)
  prefix-bits_left id (suc i) h =
      let lt : i < length bs = omega arith in
      let low = 2 ^ bits_left bs (suc i) in
      let here = id % 2 ^ bits_left bs i in
      let cut : path bs id i * low + id % low ≡ here =
        rw (path-digit bs id i lt, ← mod_again bs id i lt) (div-add-mod' here low) in
      let wide : 2 ^ bits_left bs i ≡ fanout bs i * low = two_pow_step bs i lt in
      spread (prefix id i) (fanout bs i) (path bs id i) low (id % low) here cut
      ∙ ap (λ (k : ℕ). prefix id i * k + here) (sym wide)
      ∙ prefix-bits_left id i (omega arith)
    where
      spread : (p f d l m x : ℕ) → d * l + m ≡ x → (p * f + d) * l + m ≡ p * (f * l) + x
      spread p f d l m x e = grind arith

  -- At the vertices it is the ID, in the bits that the tree looks at.
  pub prefix-all : (id : ℕ) → prefix id (length bs) ≡ id % 2 ^ sum_take bs (length bs)
  prefix-all id =
      let e = rw (bits_left_end bs) at (prefix-bits_left id (length bs) (omega arith)) in
      omega (arith, e, mod-one id)

  -- A child's number stays below the number of nodes that its level may have.
  pub child_number-lt :
      (u j i : ℕ)
      → i < length bs
      → u < 2 ^ sum_take bs i
      → j < fanout bs i
      → u * fanout bs i + j < 2 ^ sum_take bs (suc i)
  child_number-lt u j i lt hu hj =
      rw (sum_take-suc bs i lt, pow_add (sum_take bs i) (get_or bs i 0))
        (bound u j (2 ^ sum_take bs i) (fanout bs i) hu hj)
    where
      bound : (u j m f : ℕ) → u < m → j < f → u * f + j < m * f
      bound u j m f hu hj =
          let up : (u + 1) * f ≤ m * f = mul-le-mul_right f (omega (arith, hu)) in
          let e : (u + 1) * f ≡ u * f + f = grind arith in omega (arith, up, e, hj)

-- Two numbers with one digit behind are equal only if both parts are.
pub digit_unique : (f u k p q : ℕ) → k < f → q < f → u * f + k ≡ p * f + q → (u ≡ p) × (k ≡ q)
digit_unique f u k p q hk hq e =
    let pos : 0 < f = omega arith in
    let same : u ≡ p = quotient u k hk ∙ ap (λ (n : ℕ). n / f) e ∙ sym (quotient p q hq) in
    (same, omega (arith, e, ap (λ (n : ℕ). n * f) same))
  where
    quotient : (x y : ℕ) → y < f → x ≡ (x * f + y) / f
    quotient x y h =
        let pos : 0 < f = omega arith in
        let none_over : y / f ≡ 0 = div-eq_of_lt h in
        sym (mul-add-div_right pos x y ∙ omega (arith, none_over))
