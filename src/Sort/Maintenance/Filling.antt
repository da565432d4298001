-- ===== src/Sort/Maintenance/Filling.antt =====
-- The two loops of the constructors of src/sort.cpp against `Prune` and the sums of the widths.
use mathlib.Core.Path.{ap₂}
use radix_graph.Base.{
  ℕ, suc, ◌+◌, ◌-◌, ◌≡◌, refl, ap, ◌∙◌, sym, true, false, List, [], ◌∷◌, ◌++◌, append-nil,
  append_assoc, length, get_or, take, replicate, if◌then◌else◌, ltb, ◌==◌, arith, Bool-cases, inl,
  inr, set-append, length-append, get_or-append_left, get_or-append_right,
}
use radix_graph.Edges.{Weight}
use radix_graph.Sort.{new}
use radix_graph.Sort.Config.{prune, prefix_sums}
use radix_graph.Sort.Maintenance.{Filled, count_widths, fill, fill_step, new_from_array}

count_widths-prune : (widths : List ℕ) → count_widths widths ≡ length (prune widths)
unfolding count_widths prune
count_widths-prune [] = refl
count_widths-prune (b ∷ widths) = elim (Bool-cases (b == 0)) [
  | inl zero_width ↦ rw zero_width (count_widths-prune widths)
  | inr width ↦ rw width (ap suc (count_widths-prune widths))
]

-- The sum so far stands at the last place that is filled.
abbrev last_sum : List ℕ → ℕ
last_sum sums = if ltb 0 (length sums) then get_or sums (length sums - 1) 0 else 0

last_sum-append : (sums : List ℕ) (s : ℕ) → last_sum (sums ++ s ∷ []) ≡ s
last_sum-append sums s =
    let n : length (sums ++ s ∷ []) ≡ length sums + 1 = length-append sums (s ∷ []) in
    let test : ltb 0 (length sums + 1) ≡ true = ground arith in
    let at : length sums + 1 - 1 ≡ length sums + 0 = omega arith in
    rw (n, test, at) (get_or-append_right sums (s ∷ []) 0 0)

-- The vectors, filled as far as the place j.
abbrev partly : List ℕ → List ℕ → ℕ → Filled
partly bits sums n = record {
  j = length bits;
  num_bits = bits ++ replicate n 0;
  sum_bits = sums ++ replicate n 0;
}

Filled_ext :
    {i j : ℕ} {a b c d : List ℕ}
    → i ≡ j
    → a ≡ b
    → c ≡ d
    → ◌≡◌ {A = Filled}
        (record { j = i; num_bits = a; sum_bits = c })
        (record { j = j; num_bits = b; sum_bits = d })
Filled_ext e f g = rw (e, f, g)

last_sum-partly :
    (sums rest : List ℕ)
    → (if ltb 0 (length sums) then get_or (sums ++ rest) (length sums - 1) 0 else 0) ≡ last_sum sums
last_sum-partly sums rest = elim (Bool-cases (ltb 0 (length sums))) [
  | inl some_sum ↦
      rw some_sum (get_or-append_left sums rest (length sums - 1) 0 (ground (arith, some_sum)))
  | inr no_sum ↦ rw no_sum
]

fill_step-partly :
    (bits sums : List ℕ) (b n : ℕ)
    → length bits ≡ length sums
    → (b == 0) ≡ false
    → fill_step b (partly bits sums (suc n))
      ≡ partly (bits ++ b ∷ []) (sums ++ (last_sum sums + b) ∷ []) n
unfolding fill_step
fill_step-partly bits sums b n same width = rw width (
    Filled_ext (sym (length-append bits (b ∷ [])))
      (set-append bits (replicate n 0) 0 b ∙ sym (append_assoc bits (b ∷ []) (replicate n 0)))
      (rw (same, last_sum-partly sums (0 ∷ replicate n 0))
        (set-append sums (replicate n 0) 0 (last_sum sums + b)
          ∙ sym (append_assoc sums ((last_sum sums + b) ∷ []) (replicate n 0)))))

fill-partly :
    (widths bits sums : List ℕ)
    → length bits ≡ length sums
    → fill widths (partly bits sums (length (prune widths)))
      ≡ partly (bits ++ prune widths) (sums ++ prefix_sums (last_sum sums) (prune widths)) 0
unfolding fill prune prefix_sums
fill-partly [] bits sums same =
    Filled_ext (ap length (sym (append-nil bits))) (ap (λ l. l ++ []) (sym (append-nil bits)))
      (ap (λ l. l ++ []) (sym (append-nil sums)))
fill-partly (b ∷ widths) bits sums same = elim (Bool-cases (b == 0)) [
  | inl zero_width ↦
      let skip : fill_step b (partly bits sums (length (prune widths)))
          ≡ partly bits sums (length (prune widths)) =
        unfold fill_step in rw zero_width in
      rw (zero_width, skip) (fill-partly widths bits sums same)
  | inr width ↦
      let n = length (prune widths) in
      let s = last_sum sums + b in
      let longer : length (bits ++ b ∷ []) ≡ length (sums ++ s ∷ []) =
        omega (arith, same, length-append bits (b ∷ []), length-append sums (s ∷ [])) in
      rw (width, fill_step-partly bits sums b n same width)
        (fill-partly widths (bits ++ b ∷ []) (sums ++ s ∷ []) longer
          ∙ ap₂ (λ x y. partly x y 0) (append_assoc bits (b ∷ []) (prune widths))
              (ap (λ k. (sums ++ s ∷ []) ++ prefix_sums k (prune widths)) (last_sum-append sums s)
                ∙ append_assoc sums (s ∷ []) (prefix_sums s (prune widths))))
]

module _ {W : Type 0} ⦃weight : Weight W⦄ where
  -- The constructor from an array, which counts the widths that are not 0 and then fills two
  -- vectors of that length, makes the tree that has the first d widths without the zeros, and
  -- their sums from the front.
  pub new_from_array-new :
      (d : ℕ) (widths : List ℕ) → new_from_array {W = W} d widths ≡ new (take d widths)
  unfolding new_from_array new
  new_from_array-new d widths =
      let a = take d widths in
      let run = fill-partly a [] [] refl in
      rw (count_widths-prune a, run)
        (rw (append-nil (prune a), append-nil (prefix_sums 0 (prune a))) refl)
