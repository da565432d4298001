-- ===== src/Components/Labels.antt =====
-- The labels of src/GAPBS/cc_sv.cc: each leads to a smaller vertex of the same component.
use radix_graph.Base.{
  ℕ, zero, suc, ◌+◌, ◌≤◌, ◌<◌, ◌≡◌, refl, ap, ◌∙◌, sym, subst, Bool, true, List, [], ◌∷◌, length,
  set, ◌==◌, arith, Bool-cases, inl, inr, ==→≡, ==→≢, length-set, get_or-set_self, get_or-set_ne,
}
use radix_graph.Components.{at, init_comp}

-- The vertices that the edges of `link` join, in whatever direction.
pub data Linked (link : ℕ → ℕ → Bool) : ℕ → ℕ → Type 0 where
  alone : {a : ℕ} → Linked link a a
  edge : {a b : ℕ} → link a b ≡ true → Linked link a b
  turn : {a b : ℕ} → Linked link a b → Linked link b a
  join : {a b c : ℕ} → Linked link a b → Linked link b c → Linked link a c

abbrev pub total : List ℕ → ℕ
total [] = 0
total (x ∷ xs) = x + total xs

pub total-set :
    (xs : List ℕ) (i v : ℕ) → i < length xs → total (set xs i v) + at xs i ≡ total xs + v
total-set [] i v h = absurd (omega (arith, h))
total-set (x ∷ xs) zero v h = omega arith
total-set (x ∷ xs) (suc i) v h =
    let rest = total-set xs i v (omega (arith, h)) in omega (arith, rest)

pub length-init_comp : (left n : ℕ) → length (init_comp left n) ≡ left
length-init_comp zero n = refl
length-init_comp (suc left) n = ap suc (length-init_comp left (n + 1))

pub at-init_comp : (left n i : ℕ) → i < left → at (init_comp left n) i ≡ n + i
at-init_comp zero n i h = absurd (omega (arith, h))
at-init_comp (suc left) n zero h = omega arith
at-init_comp (suc left) n (suc i) h =
    let rest = at-init_comp left (n + 1) i (omega (arith, h)) in omega (arith, rest)

module _ (link : ℕ → ℕ → Bool) (n : ℕ) where
  pub record IsLabels (comp : List ℕ) : Type 0 where
    pub sized : length comp ≡ n
    pub below : (i : ℕ) → i < n → at comp i ≤ i
    pub linked : (i : ℕ) → i < n → Linked link i (at comp i)

  -- Every label is its own.
  abbrev pub FlatBelow : ℕ → List ℕ → Type 0
  FlatBelow m comp = (i : ℕ) → i < m → at comp (at comp i) ≡ at comp i

  pub init_comp-IsLabels : IsLabels (init_comp n 0)
  init_comp-IsLabels = record {
    sized = length-init_comp n 0;
    below = λ i lt. let e = at-init_comp n 0 i lt in omega (arith, e);
    linked = λ i lt.
        let e : at (init_comp n 0) i ≡ i = at-init_comp n 0 i lt ∙ omega arith in
        subst (Linked link i) (sym e) alone;
  }

  module _ (comp : List ℕ) (v : IsLabels comp) (i d : ℕ) (lt : i < n) where
    pub at_self : at (set comp i d) i ≡ d
    at_self = get_or-set_self comp i d 0 (omega (arith, lt, v.sized))

    pub at_other : (j : ℕ) → (i ≡ j → ⊥) → at (set comp i d) j ≡ at comp j
    at_other j off = get_or-set_ne comp i j d 0 off

    -- A smaller label of the same component.
    pub set-IsLabels : d ≤ i → Linked link i d → IsLabels (set comp i d)
    set-IsLabels le way = record {
      sized = length-set comp i d ∙ v.sized;
      below = λ j h. elim (Bool-cases (i == j)) [
        | inl same ↦
            subst (λ k. at (set comp i d) k ≤ k) (==→≡ _ _ same) (omega (arith, at_self, le))
        | inr apart ↦
            let kept = at_other j (==→≢ _ _ apart) in
            let under = v.below j h in omega (arith, kept, under)
      ];
      linked = λ j h. elim (Bool-cases (i == j)) [
        | inl same ↦
            subst (λ k. Linked link k (at (set comp i d) k)) (==→≡ _ _ same)
              (subst (Linked link i) (sym at_self) way)
        | inr apart ↦ subst (Linked link j) (sym (at_other j (==→≢ _ _ apart))) (v.linked j h)
      ];
    }
