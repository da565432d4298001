-- ===== src/Sort/Transform/Known.antt =====
-- `Transform` of src/sort.cpp for known vertices: the root of the old tree stands in the list that the
-- new tree is built from.
use native.Mathlib.Nat.{div-one}
use radix_graph.Base.{
  ℕ, zero, suc, ◌+◌, ◌-◌, ◌%◌, ◌^◌, ◌≡◌, refl, ap, ◌∙◌, sym, Bool, true, false, ◌||◌, Option, none,
  some, ◌>>=◌, List, [], ◌∷◌, length, get_or, if◌then◌else◌, ◌==◌, arith, Bool-cases, Option-cases,
  inl, inr,
}
use radix_graph.Edges.{Weight}
use radix_graph.Sort.{Sort, root_of}
use radix_graph.Sort.Digits.{sum_take}
use radix_graph.Sort.Laws.{IsTree, lookup, key, key-agree, find-agree, modulus}
use radix_graph.Sort.Trie.{Node, child, find}
use radix_graph.Sort.Transform.{
  walk, walk_all, as_pointers, shifted, frontiers_of, rebuilt, transform,
}
use radix_graph.Sort.Transform.Levels.{or_else}
use radix_graph.Sort.Transform.Rebuilt.{first}
use radix_graph.Sort.Transform.Laws.{rebuilt-first, taken, transform_run}

-- A vertex that is found is reached by the walk.
walk-find :
    (f : ℕ → ℕ) (h i : ℕ) (n : Node h) (p : ℕ)
    → find f h i n ≡ some p
    → walk f h i n ≡ some (some p)
unfolding walk find
walk-find f zero i n p e = ap some e
walk-find f (suc zero) i kids p e = elim (Option-cases (child zero kids (f i))) [
  | inl missing ↦ absurd (none_ne_some (rw missing at e))
  | inr (c, there) ↦ ap some (there ∙ (rw there at e))
]
  where
    none_ne_some : {A : Type 0} {a : A} → none ≡ some a → ⊥
    none_ne_some e = cc
walk-find f (suc (suc h)) i kids p e = elim (Option-cases (child (suc h) kids (f i))) [
  | inl missing ↦ absurd (none_ne_some (rw missing at e))
  | inr (c, there) ↦ rw (there, walk) (walk-find f (suc h) (i + 1) c p (rw there at e))
]
  where
    none_ne_some : {A : Type 0} {a : A} → none ≡ some a → ⊥
    none_ne_some e = cc

-- No bit is shifted out when the number of levels stays.
shifted_none : (sums : List ℕ) (d : ℕ) (us : List ℕ) → shifted sums d d us ≡ us
shifted_none sums d [] = refl
shifted_none sums d (u ∷ us) =
    let no_shift : get_or sums (d - 1) 0 - get_or sums (d - 1) 0 ≡ 0 = omega arith in
    rw (no_shift, shifted_none sums d us) (ap (λ k. k ∷ us) (div-one u))

or_else_if :
    (c : Bool) (p : ℕ) (o : Option ℕ)
    → or_else (if c then some p else none) o ≡ (if c then some p else o)
or_else_if true p o = refl
or_else_if false p o = refl

-- Whether an ID is one of a list, in the bits that the tree looks at.
abbrev pub listed : ℕ → List ℕ → ℕ → Bool
listed m [] j = false
listed m (u ∷ us) j = (u % m == j % m) || listed m us j

module _ {W : Type 0} ⦃weight : Weight W⦄ where
  abbrev pub AllFound : Sort W → List ℕ → Type 0
  AllFound t [] = Unit
  AllFound t (u ∷ us) = ((p : ℕ) × (lookup t u ≡ some p)) × AllFound t us

  -- The pointers of the known vertices.
  abbrev known : (t : Sort W) (us : List ℕ) → AllFound t us → List (ℕ × ℕ)
  known t [] all = []
  known t (u ∷ us) all = (all.0.0, u) ∷ known t us all.1

  walk_all-known :
      (t : Sort W) (r : Node t.depth) (us : List ℕ) (all : AllFound t us)
      → t.root ≡ some r
      → walk_all (key t) t.depth r us ≡ some (as_pointers (known t us all))
  unfolding walk_all root_of
  walk_all-known t r [] all there = refl
  walk_all-known t r (u ∷ us) all there =
      let hit : find (key t u) t.depth 0 r ≡ some all.0.0 = rw there at all.0.1 in
      rw (walk-find (key t u) t.depth 0 r all.0.0 hit, walk_all-known t r us all.1 there)

  first-known :
      (t : Sort W) (v : IsTree t) (us : List ℕ) (all : AllFound t us) (j : ℕ)
      → first (modulus t) (known t us all) j
        ≡ (if listed (modulus t) us j then lookup t j else none)
  first-known t v [] all j = refl
  first-known t v (u ∷ us) all j = elim (Bool-cases (u % modulus t == j % modulus t)) [
    | inl same ↦ rw same (
        sym all.0.1
        ∙ find-agree (key t u) (key t j) t.depth 0 (root_of t) (key-agree t v u j ∙ same))
    | inr apart ↦ rw apart (first-known t v us all.1 j)
  ]

  frontiers_of-known :
      (root_pointer : ℕ) (t : Sort W) (r : Node t.depth) (u : ℕ) (us : List ℕ)
      (all : AllFound t (u ∷ us))
      → t.root ≡ some r
      → frontiers_of root_pointer t t.depth r (u ∷ us)
        ≡ some (as_pointers ((root_pointer, 0) ∷ known t (u ∷ us) all))
  unfolding frontiers_of
  frontiers_of-known root_pointer t r u us all there =
      ap (λ l. walk_all (key t) t.depth r l >>= (λ rest. some ((some root_pointer, 0) ∷ rest)))
        (shifted_none t.sum_bits t.depth (u ∷ us))
      ∙ ap (λ o. o >>= (λ rest. some ((some root_pointer, 0) ∷ rest)))
          (walk_all-known t r (u ∷ us) all there)

  -- `Transform` with a list of known vertices that are all found, of a tree with a root whose
  -- nodes fit its configuration, to widths of the same number and the same sum: it ends without a
  -- crash. The IDs that the tree does not tell apart from 0 then lead to what the pointer to the
  -- old root is as a vertex; of the others those that are listed are found as before, and no more.
  pub transform_known :
      (root_pointer : ℕ) (t : Sort W) (v : IsTree t) (widths : List ℕ) (r : Node t.depth)
      → t.root ≡ some r
      → length widths ≡ t.depth
      → sum_take widths (length widths) ≡ sum_take t.num_bits (length t.num_bits)
      → (u : ℕ) (us : List ℕ) → AllFound t (u ∷ us)
      → (s : Sort W) × (transform root_pointer t t.depth widths (u ∷ us) ≡ some s)
        × ((j : ℕ)
            → lookup s j ≡ (
                if 0 % modulus t == j % modulus t
                then some root_pointer
                else if listed (modulus t) (u ∷ us) j
                then lookup t j
                else none))
  transform_known root_pointer t v widths r there same sums u us all =
      let entries = (root_pointer, 0) ∷ known t (u ∷ us) all in
      let made = rebuilt-first t v widths same entries in
      (
        rebuilt t widths (as_pointers entries),
        transform_run root_pointer t widths r (u ∷ us) (as_pointers entries) there
            (frontiers_of-known root_pointer t r u us all there)
            (taken root_pointer t v widths r there same sums),
        λ j.
            made.1 j
            ∙ ap
                (λ n.
                  or_else (if 0 % 2 ^ n == j % 2 ^ n then some root_pointer else none)
                    (first (2 ^ n) (known t (u ∷ us) all) j))
                sums
            ∙ ap (or_else (if 0 % modulus t == j % modulus t then some root_pointer else none))
                (first-known t v (u ∷ us) all j)
            ∙ or_else_if (0 % modulus t == j % modulus t) root_pointer _,
      )
