-- ===== src/Edges/Valid.antt =====
-- The well-formedness of the newest `WeightedEdgeArray` of a vertex, between two calls of src/radixgraph.cpp.
use radix_graph.Base.{ℕ, ◌≤◌, ◌<◌, ◌≡◌, true, false, Option, some, List, length, pos}
use radix_graph.Edges.{Weight, WeightedEdge, WeightedEdgeArray, edge_at, edges}
use radix_graph.Edges.View.{is_written, is_live, times, current}
use radix_graph.Edges.Survivors.{survivors}

module _ {W : Type 0} ⦃weight : Weight W⦄ where
  -- A snapshot holds each destination once, with a weight that is not 0.
  pub record IsSnapshot (es : List (WeightedEdge W)) (s : ℕ) : Type 0 where
    pub once : (d : ℕ) → times es s d ≤ 1
    pub live : (i : ℕ) → i < s → is_live (edge_at es i) ≡ true

  -- The written edges fill the array from the left, a snapshot first.
  pub record IsValid (a : WeightedEdgeArray W) : Type 0 where
    pub held : a.edge ≡ some (edges a)
    pub room : length (edges a) ≡ a.cap
    pub fits : a.physical_size ≤ a.cap
    pub below : a.snapshot_deg ≤ a.physical_size
    pub written : (i : ℕ) → i < a.physical_size → is_written (edge_at (edges a) i) ≡ true
    pub snapshot : IsSnapshot (edges a) a.snapshot_deg

  -- The edges that the logs of the array leave.
  abbrev pub live_edges : WeightedEdgeArray W → List (WeightedEdge W)
  live_edges a = survivors (edges a) a.snapshot_deg a.physical_size (λ d. false)

  -- `deg` counts them.
  abbrev pub IsCounted : WeightedEdgeArray W → Type 0
  IsCounted a = a.deg ≡ pos (length (live_edges a))

  -- The abstract state: the weight of the edge to each destination.
  abbrev pub view : WeightedEdgeArray W → ℕ → Option W
  view a = current (edges a) a.physical_size
