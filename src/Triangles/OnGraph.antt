-- ===== src/Triangles/OnGraph.antt =====
-- `OrderedCount` of src/GAPBS/tc.cc on a graph of src/radixgraph.cpp, which it reads by
-- `GetNeighboursByOffset`.
use radix_graph.Base.{ℕ, ◌+◌, ◌≤◌, ◌<◌, ◌≡◌, refl, true, List, length}
use radix_graph.Bitmap.Interface.{Bitmap, BitmapLaws}
use radix_graph.Edges.{Weight}
use radix_graph.Graph.{Graph}
use radix_graph.Graph.Valid.{IsValid, newest}
use radix_graph.Reader.{by_offset}
use radix_graph.Reader.Offset.{in_table, next_at, IsReady, by_offset-ReaderLaws}
use radix_graph.Triangles.{ordered_count}
use radix_graph.Triangles.Laws.{IsSorted}
use radix_graph.Triangles.Correct.{SortLaws, cliques, looped, ordered_count-cliques_reads}

module _ {R W B : Type 0} ⦃weight : Weight W⦄ ⦃bitmap : Bitmap B⦄ {IsClear : B → Type 0}
    (laws : BitmapLaws bitmap IsClear) (no_bits : B) (stale : ℕ → ℕ) (thread t : ℕ)
    (sort : List ℕ → List ℕ) (sorts : SortLaws sort) (g : Graph R W B)
    (v : IsValid IsClear no_bits thread g) where
  -- `OrderedCount` on a graph in order, with bitmaps and a sort that obey their laws, a time of
  -- the reads at or after each newest snapshot, and, where is_sorted is set, reads that come
  -- sorted. The count is the number of cliques u > v > w, u below the bound, for which the reads
  -- see edges from u to v, from u to w and from v to w, and besides, for each such u, of the edges
  -- from u to a smaller v that has an edge to itself, and, if u has an edge to itself, of the
  -- edges from u to any w that is at most u. The graph is in order with the same vertices.
  pub ordered_count-cliques :
      ((p : ℕ)
        → p < length g.vertex_index.vertex_table
        → (newest (in_table g.vertex_index.vertex_table p)).snapshot_timestamp ≤ t)
      → (g.is_sorted ≡ true
          → (h : Graph R W B)
          → IsReady IsClear no_bits thread g.vertex_index.vertex_table g.is_sorted h
          → (u : ℕ) → IsSorted ((by_offset no_bits stale thread t).read h u).1)
      → (num_vertices : ℕ)
      → IsReady IsClear no_bits thread g.vertex_index.vertex_table g.is_sorted
          (ordered_count (by_offset no_bits stale thread t) sort g num_vertices).0
        × ((ordered_count (by_offset no_bits stale thread t) sort g num_vertices).1
            ≡ cliques (next_at g.vertex_index.vertex_table t) num_vertices
              + looped (next_at g.vertex_index.vertex_table t) num_vertices)
  ordered_count-cliques seen in_order num_vertices =
      let vs = g.vertex_index.vertex_table in
      ordered_count-cliques_reads (by_offset no_bits stale thread t) sort sorts (next_at vs t)
        (IsReady IsClear no_bits thread vs g.is_sorted)
        (by_offset-ReaderLaws laws no_bits stale thread t vs g.is_sorted seen) g
        (record { valid = v; table = refl; sorted = refl }) in_order num_vertices
