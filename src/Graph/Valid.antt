-- ===== src/Graph/Valid.antt =====
-- When a graph of src/radixgraph.cpp is in order, between two calls, and the map from two IDs to the
-- weight of an edge that it stands for.
use radix_graph.Base.{
  ℕ, ◌≤◌, ◌<◌, ◌≡◌, refl, Option, none, ◌>>=◌, List, [], ◌∷◌, length, get_or, arith,
}
use radix_graph.Bitmap.Interface.{Bitmap, IsClean}
use radix_graph.Edges.{Weight, WeightedEdgeArray, Vertex, GlobalInfo, new_array}
use radix_graph.Edges.Valid as EdgesValid
use radix_graph.Edges.Valid.{IsCounted, view}
use radix_graph.Edges.View.{current, last_log, times}
use radix_graph.Edges.Survivors.{survivors}
use radix_graph.Sort.{Sort, new_vertex}
use radix_graph.Sort.Laws as SortLaws
use radix_graph.Sort.Laws.{lookup, no_vertex}
use radix_graph.Graph.{Graph}

module _ {W : Type 0} ⦃weight : Weight W⦄ where
  abbrev pub newest : Vertex W → WeightedEdgeArray W
  newest v = elim v.versions [ [] ↦ new_array 0 | a ∷ older ↦ a ]

  abbrev pub older_than : Vertex W → List (WeightedEdgeArray W)
  older_than v = elim v.versions [ [] ↦ [] | a ∷ older ↦ older ]

  -- The weight of the edge to the vertex with the internal ID d.
  abbrev pub out_edge : Vertex W → ℕ → Option W
  out_edge v = view (newest v)

  -- The newest version of a vertex is fully written and rightly counted.
  pub record VertexIsValid (v : Vertex W) : Type 0 where
    pub some_version : v.versions ≡ newest v ∷ older_than v
    pub array : EdgesValid.IsValid (newest v)
    pub full : (newest v).size ≡ (newest v).physical_size
    pub counted : IsCounted (newest v)

  -- A vertex that the index makes is in order, and has no edge.
  pub new_vertex-VertexIsValid :
      (stale : ℕ → ℕ) (info : GlobalInfo) (id i : ℕ) → VertexIsValid (new_vertex stale info id i)
  unfolding new_vertex new_array survivors times
  new_vertex-VertexIsValid stale info id i = record {
    some_version = refl;
    array = record {
      held = refl;
      room = refl;
      fits = omega arith;
      below = omega arith;
      written = λ j h. absurd (omega arith);
      snapshot = record { once = λ d. omega arith; live = λ j h. absurd (omega arith) };
    };
    full = refl;
    counted = refl;
  }

  pub out_edge-new_vertex :
      (stale : ℕ → ℕ) (info : GlobalInfo) (id i d : ℕ)
      → out_edge (new_vertex stale info id i) d ≡ none
  unfolding new_vertex new_array current last_log
  out_edge-new_vertex stale info id i d = refl

  -- The vertices of an index: each is in order, and its edges go to vertices of the index.
  pub record VerticesValid (vs : List (Vertex W)) : Type 0 where
    pub each : (p : ℕ) → p < length vs → VertexIsValid (get_or vs p no_vertex)
    pub closed :
        (p d : ℕ) → p < length vs → length vs ≤ d → out_edge (get_or vs p no_vertex) d ≡ none

  pub record TableIsValid (t : Sort W) : Type 0 where
    pub index : SortLaws.IsValid t
    pub vertices : VerticesValid t.vertex_table

  -- The weight of the edge between two vertices that may have been found.
  abbrev pub edge_in : List (Vertex W) → Option ℕ → Option ℕ → Option W
  edge_in vs o o' = o >>= (λ p. o' >>= (λ q. out_edge (get_or vs p no_vertex) q))

  -- The abstract state: the weight of the edge between two IDs.
  abbrev pub edge : Sort W → ℕ → ℕ → Option W
  edge t a b = edge_in t.vertex_table (lookup t a) (lookup t b)

pub record IsValid {R W B : Type 0} ⦃weight : Weight W⦄ ⦃bitmap : Bitmap B⦄ (IsClear : B → Type 0)
    (no_bits : B) (thread : ℕ) (g : Graph R W B) : Type 0 where
  pub table : TableIsValid g.vertex_index
  pub has_bits : thread < length g.bitmap
  pub clean : IsClean bitmap IsClear (get_or g.bitmap thread no_bits)
