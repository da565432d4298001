-- ===== src/Edges/Sorted.antt =====
-- The sort of a snapshot in `CreateSnapshots` of src/radixgraph.cpp.
use radix_graph.Base.{
  ℕ, ◌≤◌, ◌≡◌, refl, ap, ◌∙◌, sym, subst, false, some, List, ◌++◌, length, drop, arith,
  length-append, length-drop, pos,
}
use radix_graph.Edges.{Weight, WeightedEdge, WeightedEdgeArray, edge_at, edges}
use radix_graph.Edges.Compaction.Laws.{IsSnapshot-prefix, is_written_of_live}
use radix_graph.Edges.Neighbours.Laws.{prefix-Shows}
use radix_graph.Edges.Order.{Sorter, IsSorted, length-Permutes, Shows-Permutes}
use radix_graph.Edges.Prefix.{prefix, length-prefix, prefix-append}
use radix_graph.Edges.Survivors.{survivors, length-survivors_snapshot}
use radix_graph.Edges.Valid.{IsSnapshot, IsValid, IsCounted, view}
use radix_graph.Edges.View.{current, Shows}

module _ {W : Type 0} ⦃weight : Weight W⦄ (sorter : Sorter W) where
  -- `std::sort(edge, edge + n)`
  unfoldable pub sort_edges : ℕ → List (WeightedEdge W) → List (WeightedEdge W)
  sort_edges n es = sorter.sort_by_idx (prefix es n) ++ drop n es

  module _ (es : List (WeightedEdge W)) (n : ℕ) (fits : n ≤ length es) where
    length-sorted : length (sorter.sort_by_idx (prefix es n)) ≡ n
    length-sorted = length-Permutes (sorter.permutes (prefix es n)) ∙ length-prefix es n 0

    pub length-sort_edges : length (sort_edges n es) ≡ length es
    unfolding sort_edges
    length-sort_edges = omega (
      arith,
      length-append (sorter.sort_by_idx (prefix es n)) (drop n es),
      length-sorted,
      length-drop n es fits,
    )

    pub prefix-sort_edges : prefix (sort_edges n es) n ≡ sorter.sort_by_idx (prefix es n)
    unfolding sort_edges
    prefix-sort_edges =
        ap (prefix (sorter.sort_by_idx (prefix es n) ++ drop n es)) (sym length-sorted)
        ∙ prefix-append (sorter.sort_by_idx (prefix es n)) (drop n es)

    pub sort_edges-Shows :
        IsSnapshot es n
        → IsSnapshot (sort_edges n es) n
          × ((d : ℕ) → current (sort_edges n es) n d ≡ current es n d)
    sort_edges-Shows snap = IsSnapshot-prefix (sort_edges n es) n (
        subst (Shows (current es n)) (sym prefix-sort_edges)
          (Shows-Permutes (sorter.permutes (prefix es n)) (prefix-Shows es n snap)))

  -- A snapshot without logs, sorted: in order, with the same edges.
  module _ (a : WeightedEdgeArray W) (v : IsValid a) (c : IsCounted a)
      (bare : a.snapshot_deg ≡ a.physical_size) where
    abbrev pub sorted_array : WeightedEdgeArray W
    sorted_array = record a { edge = some (sort_edges a.physical_size (edges a)) }

    fits : a.physical_size ≤ length (edges a)
    fits = omega (arith, v.room, v.fits)

    shown :
        IsSnapshot (sort_edges a.physical_size (edges a)) a.physical_size
        × ((d : ℕ) → current (sort_edges a.physical_size (edges a)) a.physical_size d ≡ view a d)
    shown =
        sort_edges-Shows (edges a) a.physical_size fits
          (subst (IsSnapshot (edges a)) bare v.snapshot)

    pub sorted_array-IsValid : IsValid sorted_array
    sorted_array-IsValid = record {
      held = refl;
      room = length-sort_edges (edges a) a.physical_size fits ∙ v.room;
      fits = v.fits;
      below = v.below;
      written = λ i h.
          is_written_of_live (edge_at (sort_edges a.physical_size (edges a)) i) (shown.0.live i h);
      snapshot = subst (IsSnapshot (sort_edges a.physical_size (edges a))) (sym bare) shown.0;
    }

    pub view-sorted_array : (d : ℕ) → view sorted_array d ≡ view a d
    view-sorted_array = shown.1

    all_live :
        (es : List (WeightedEdge W))
        → IsSnapshot es a.physical_size
        → length (survivors es a.snapshot_deg a.physical_size (λ d. false)) ≡ a.physical_size
    all_live es snap =
        length-survivors_snapshot es a.snapshot_deg a.physical_size (omega (arith, bare)) snap.live

    pub sorted_array-IsCounted : IsCounted sorted_array
    sorted_array-IsCounted =
        c
        ∙ ap pos (
            all_live (edges a) (subst (IsSnapshot (edges a)) bare v.snapshot)
            ∙ sym (all_live (sort_edges a.physical_size (edges a)) shown.0))

    pub sorted_array-IsSorted : IsSorted (prefix (edges sorted_array) a.physical_size)
    sorted_array-IsSorted =
        subst IsSorted (sym (prefix-sort_edges (edges a) a.physical_size fits))
          (sorter.sorted (prefix (edges a) a.physical_size))
