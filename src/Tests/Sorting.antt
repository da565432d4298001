-- ===== src/Tests/Sorting.antt =====
-- A sort of edges that does what `std::sort` is asked for in src/radixgraph.cpp: by insertion.
use radix_graph.Base.{◌≡◌, true, false, List, [], ◌∷◌, if◌then◌else◌, arith, Bool-cases, inl, inr}
use radix_graph.Edges.{WeightedEdge}
use radix_graph.Edges.Order.{Permutes, IsSorted, Sorter, idx_le}

module _ {W : Type 0} where
  place : WeightedEdge W → List (WeightedEdge W) → List (WeightedEdge W)
  place e [] = e ∷ []
  place e (x ∷ l) = if idx_le e x then e ∷ x ∷ l else x ∷ place e l

  by_insertion : List (WeightedEdge W) → List (WeightedEdge W)
  by_insertion [] = []
  by_insertion (e ∷ l) = place e (by_insertion l)

  place-Permutes : (e : WeightedEdge W) (l : List (WeightedEdge W)) → Permutes (e ∷ l) (place e l)
  unfolding place
  place-Permutes e [] = Permutes.same _
  place-Permutes e (x ∷ l) = elim (Bool-cases (idx_le e x)) [
    | inl first ↦ rw first (Permutes.same _)
    | inr later ↦
        rw later (Permutes.trans (Permutes.swap e x l) (Permutes.keep x (place-Permutes e l)))
  ]

  by_insertion-Permutes : (l : List (WeightedEdge W)) → Permutes l (by_insertion l)
  unfolding by_insertion
  by_insertion-Permutes [] = Permutes.same []
  by_insertion-Permutes (e ∷ l) =
      Permutes.trans (Permutes.keep e (by_insertion-Permutes l)) (place-Permutes e (by_insertion l))

  le_total : (a b : WeightedEdge W) → idx_le a b ≡ false → idx_le b a ≡ true
  le_total a b h = ground arith

  place-IsSorted :
      (e : WeightedEdge W) (l : List (WeightedEdge W)) → IsSorted l → IsSorted (place e l)
  unfolding place
  place-IsSorted e [] s = tt
  place-IsSorted e (x ∷ []) s = elim (Bool-cases (idx_le e x)) [
    | inl first ↦ rw first (first, tt)
    | inr later ↦ rw later (le_total e x later, tt)
  ]
  place-IsSorted e (x ∷ y ∷ l) s = elim (Bool-cases (idx_le e x)) [
    | inl first ↦ rw first (first, s)
    | inr later ↦ elim (Bool-cases (idx_le e y)) [
      | inl second ↦ rw (later, second) (le_total e x later, (second, s.1))
      | inr third ↦
          let rest = rw third at (place-IsSorted e (y ∷ l) s.1) in rw (later, third) (s.0, rest)
    ]
  ]

  by_insertion-IsSorted : (l : List (WeightedEdge W)) → IsSorted (by_insertion l)
  unfolding by_insertion
  by_insertion-IsSorted [] = tt
  by_insertion-IsSorted (e ∷ l) = place-IsSorted e (by_insertion l) (by_insertion-IsSorted l)

  pub insertion : Sorter W
  insertion = record {
    sort_by_idx = by_insertion;
    permutes = by_insertion-Permutes;
    sorted = by_insertion-IsSorted;
  }
