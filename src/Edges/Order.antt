-- ===== src/Edges/Order.antt =====
-- The order of the edges: a sort of the neighbours, `std::sort` in src/radixgraph.cpp, moves edges
-- and changes none.
use radix_graph.Base.{
  ℕ, suc, ◌+◌, ◌≤◌, ◌≡◌, refl, ap, ◌∙◌, Bool, true, false, Option, none, some, List, [], ◌∷◌,
  length, leb, bit, arith, Bool-cases, inl, inr,
}
use radix_graph.Edges.{Weight, WeightedEdge}
use radix_graph.Edges.View.{goes_to, find, count, AllLive, Shows}

-- One list is the other in another order.
pub data Permutes {A : Type 0} : List A → List A → Type 0 where
  same : (l : List A) → Permutes l l
  keep : (x : A) {l k : List A} → Permutes l k → Permutes (x ∷ l) (x ∷ k)
  swap : (x y : A) (l : List A) → Permutes (x ∷ y ∷ l) (y ∷ x ∷ l)
  trans : {l k m : List A} → Permutes l k → Permutes k m → Permutes l m

-- Internal IDs from the smallest on; an edge that is not written has -1.
abbrev pub idx_le : {W : Type 0} → WeightedEdge W → WeightedEdge W → Bool
idx_le a b = elim a.idx [ none ↦ true | some i ↦ elim b.idx [ none ↦ false | some j ↦ leb i j ] ]

abbrev pub IsSorted : {W : Type 0} → List (WeightedEdge W) → Type 0
IsSorted [] = Unit
IsSorted (a ∷ []) = Unit
IsSorted (a ∷ b ∷ l) = (idx_le a b ≡ true) × IsSorted (b ∷ l)

-- `std::sort` with the comparison of internal IDs, as the C++ standard documents it.
pub record Sorter (W : Type 0) : Type 0 where
  pub sort_by_idx : List (WeightedEdge W) → List (WeightedEdge W)
  pub permutes : (l : List (WeightedEdge W)) → Permutes l (sort_by_idx l)
  pub sorted : (l : List (WeightedEdge W)) → IsSorted (sort_by_idx l)

pub length-Permutes : {A : Type 0} {l k : List A} → Permutes l k → length k ≡ length l
length-Permutes (same l) = refl
length-Permutes (keep x p) = ap suc (length-Permutes p)
length-Permutes (swap x y l) = refl
length-Permutes (trans p q) = length-Permutes q ∙ length-Permutes p

module _ {W : Type 0} where
  pub count-Permutes : {l k : List (WeightedEdge W)} (d : ℕ) → Permutes l k → count d k ≡ count d l
  count-Permutes d (same l) = refl
  count-Permutes d (keep x p) = ap (λ n. bit (goes_to x d) + n) (count-Permutes d p)
  count-Permutes d (swap x y l) = omega arith
  count-Permutes d (trans p q) = count-Permutes d q ∙ count-Permutes d p

  -- Where each destination stands at most once, the first edge to it is the only one.
  pub find-Permutes :
      {l k : List (WeightedEdge W)} (d : ℕ) → Permutes l k → count d l ≤ 1 → find d k ≡ find d l
  find-Permutes d (same l) h = refl
  find-Permutes d (keep x {l} {k} p) h = elim (Bool-cases (goes_to x d)) [
    | inl yes_here ↦ rw yes_here
    | inr other ↦ rw other (find-Permutes d p (omega arith))
  ]
  find-Permutes d (swap x y l) h = ground arith
  find-Permutes d (trans {l} {k} {m} p q) h =
      find-Permutes d q (omega (arith, count-Permutes d p)) ∙ find-Permutes d p h

module _ {W : Type 0} ⦃weight : Weight W⦄ where
  AllLive-Permutes : {l k : List (WeightedEdge W)} → Permutes l k → AllLive l → AllLive k
  AllLive-Permutes (same l) h = h
  AllLive-Permutes (keep x p) h = (h.0, AllLive-Permutes p h.1)
  AllLive-Permutes (swap x y l) h = (h.1.0, (h.0, h.1.1))
  AllLive-Permutes (trans p q) h = AllLive-Permutes q (AllLive-Permutes p h)

  pub Shows-Permutes :
      {f : ℕ → Option W} {l k : List (WeightedEdge W)} → Permutes l k → Shows f l → Shows f k
  Shows-Permutes p s = record {
    found = λ d. find-Permutes d p (s.once d) ∙ s.found d;
    once = λ d. omega (arith, count-Permutes d p, s.once d);
    live = AllLive-Permutes p s.live;
  }
