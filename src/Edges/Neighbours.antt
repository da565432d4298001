-- ===== src/Edges/Neighbours.antt =====
-- `RadixGraph::GetNeighbours(Vertex*, ...)` of src/radixgraph.cpp, run by one thread alone.
pub mod Laws
use radix_graph.Base.{
  ℕ, zero, suc, ◌+◌, ◌-◌, Bool, true, false, ◌&&◌, ◌||◌, not, Option, none, some, ◌>>=◌, List, [],
  ◌∷◌, ◌++◌, get_or, if◌then◌else◌, leb, ltb, ◌==◌,
}
use radix_graph.Bitmap.Interface.{Bitmap}
use radix_graph.Edges.{Weight, WeightedEdge, WeightedEdgeArray, edge_at, edges}
use radix_graph.Edges.Compaction.{clear_loop}

module _ {W : Type 0} ⦃weight : Weight W⦄ where
  -- `resize` and the copy: the edges from index i on.
  unfoldable pub first_edges : List (WeightedEdge W) → ℕ → ℕ → List (WeightedEdge W)
  first_edges es zero i = []
  first_edges es (suc left) i = edge_at es i ∷ first_edges es left (i + 1)

  -- The search for the last log that is visible at `timestamp`, among the first k edges. The result
  -- is `cnt` and what is in `neighbours`.
  unfoldable pub visible_loop :
      List ℕ → List (WeightedEdge W) → ℕ → ℕ → List (WeightedEdge W) → ℕ → ℕ × List (WeightedEdge W)
  unfolding first_edges
  visible_loop ts es snapshot_deg timestamp out zero = (zero, out)
  visible_loop ts es snapshot_deg timestamp out (suc i) =
      let rest = visible_loop ts es snapshot_deg timestamp out i in
      if leb (get_or ts (i - snapshot_deg) 0) timestamp
      then (suc i, out)
      else if i == snapshot_deg
      then (0, first_edges es snapshot_deg 0)
      else rest

  -- `cnt` and `neighbours` before the loop over the edges. Without timestamps all is visible.
  unfoldable pub visible :
      Option (List ℕ)
      → List (WeightedEdge W)
      → ℕ
      → ℕ
      → List (WeightedEdge W)
      → ℕ
      → ℕ × List (WeightedEdge W)
  unfolding visible_loop
  visible none es snapshot_deg timestamp out cnt = (cnt, out)
  visible (some ts) es snapshot_deg timestamp out cnt =
      visible_loop ts es snapshot_deg timestamp out cnt

module _ {W B : Type 0} ⦃weight : Weight W⦄ ⦃bitmap : Bitmap B⦄ where
  -- The body of the loop over the edges, at index i.
  unfoldable pub visit :
      ℕ → ℕ → WeightedEdge W → B × List (WeightedEdge W) → B × List (WeightedEdge W)
  visit snapshot_deg i e (bits, out) = elim e.idx [
    | none ↦ (bits, out)
    | some v ↦ if bitmap.get_bit bits v then (bits, out) else (
      if leb snapshot_deg i then bitmap.set_bit bits v else bits,
      if weight.is_zero e.weight then out else out ++ e ∷ [],
    )
  ]

  -- From the last of cnt edges to the first.
  unfoldable pub visit_loop :
      List (WeightedEdge W) → ℕ → ℕ → B × List (WeightedEdge W) → B × List (WeightedEdge W)
  unfolding visit
  visit_loop es snapshot_deg zero s = s
  visit_loop es snapshot_deg (suc i) s =
      visit_loop es snapshot_deg i (visit snapshot_deg i (edge_at es i) s)

  -- The read of one version, once it is chosen.
  unfoldable pub read_array :
      WeightedEdgeArray W → ℕ → B → List (WeightedEdge W) → B × List (WeightedEdge W)
  unfolding visible visit_loop
  read_array a timestamp bits neighbours =
      let es = edges a in
      let snapshot_deg = a.snapshot_deg in
      if ltb snapshot_deg a.physical_size
      then (let (cnt, out) =
            visible a.timestamp es snapshot_deg timestamp neighbours a.physical_size in
          let (marked, found) = visit_loop es snapshot_deg cnt (bits, out) in
          (clear_loop es (cnt - snapshot_deg) snapshot_deg marked, found))
      else (bits, first_edges es a.physical_size 0)
