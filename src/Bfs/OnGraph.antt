-- ===== src/Bfs/OnGraph.antt =====
-- `DOBFS` of src/GAPBS/bfs.cc on a graph of src/radixgraph.cpp, which it reads by
-- `GetNeighboursByOffset`.
use radix_graph.Base.{
  ℕ, suc, ◌≤◌, ◌<◌, ◌≡◌, refl, ◌∙◌, sym, ap, true, Option, some, ◌>>=◌, List, length, arith,
}
use radix_graph.Bitmap.Interface.{Bitmap, BitmapLaws}
use radix_graph.Edges.{Weight}
use radix_graph.Sort.Laws.{lookup}
use radix_graph.Graph.{Graph, vertex_at}
use radix_graph.Graph.Valid.{IsValid, newest}
use radix_graph.Graph.Reads.{searched, searched-IsValid, search}
use radix_graph.Reader.{by_offset}
use radix_graph.Reader.Offset.{in_table, next_at, IsReady, by_offset-ReaderLaws}
use radix_graph.Bfs.{dobfs}
use radix_graph.Bfs.Stores.{Queue, QueueLaws, Front, FrontLaws}
use radix_graph.Bfs.Parents.{Found}
use radix_graph.Bfs.Correct.{dobfs-Found_reads}

module _ {R W B Q F : Type 0} ⦃weight : Weight W⦄ ⦃bitmap : Bitmap B⦄ {IsClear : B → Type 0}
    (laws : BitmapLaws bitmap IsClear) (no_bits : B) (stale : ℕ → ℕ) (thread t : ℕ)
    (queue : Queue Q) (fronts : Front F) (alpha beta : ℕ) (g : Graph R W B)
    (v : IsValid IsClear no_bits thread g) (id source : ℕ)
    (there : lookup g.vertex_index id ≡ some source) where
  located :
      (by_offset no_bits stale thread t).find g id
      ≡ (searched laws no_bits stale thread g v, some source)
  located =
      ap (λ r. (r.0, r.1 >>= (λ p. (vertex_at r.0.vertex_index p).idx)))
        (search laws no_bits stale thread g v id)
      ∙ (rw (there, v.table.index.placed source (v.table.index.owned id source there).0))

  -- `DOBFS` from the ID of a vertex, on a graph in order, with alpha and beta positive, bitmaps
  -- and a queue that obey their laws, and a time of the reads at or after each newest snapshot,
  -- where every edge that the reads see has its reverse: one round more than there are vertices is
  -- enough fuel, and the search ends, whichever direction it takes. The graph is in order with the
  -- same vertices, and `parent` has a place for each vertex. Exactly those that a walk from the
  -- source reaches have a parent; that of the source is the source, and that of any other vertex
  -- is reached and has an edge to the vertex.
  pub dobfs-Found :
      0 < alpha
      → 0 < beta
      → ((p : ℕ)
          → p < length g.vertex_index.vertex_table
          → (newest (in_table g.vertex_index.vertex_table p)).snapshot_timestamp ≤ t)
      → ((a b : ℕ)
          → next_at g.vertex_index.vertex_table t a b ≡ next_at g.vertex_index.vertex_table t b a)
      → QueueLaws queue (length g.vertex_index.vertex_table)
      → FrontLaws fronts (length g.vertex_index.vertex_table)
      → (edge_num : ℕ) (src_out_degree : Option ℕ)
      → (h : Graph R W B) × (parent : List (Option ℕ)) × (dobfs
            (by_offset no_bits stale thread t)
            queue
            fronts
            (length g.vertex_index.vertex_table)
            alpha
            beta
            (suc (length g.vertex_index.vertex_table))
            g
            id
            edge_num
            src_out_degree
          ≡ some (h, parent))
        × IsReady IsClear no_bits thread g.vertex_index.vertex_table g.is_sorted h
        × Found
            (next_at g.vertex_index.vertex_table t)
            source
            (length g.vertex_index.vertex_table)
            parent
  dobfs-Found positive positive' seen both_ways queues bits edge_num src_out_degree =
      let vs = g.vertex_index.vertex_table in
      dobfs-Found_reads (by_offset no_bits stale thread t) queue fronts (length vs) alpha beta
        source (next_at vs t) (IsReady IsClear no_bits thread vs g.is_sorted) queues bits
        (by_offset-ReaderLaws laws no_bits stale thread t vs g.is_sorted seen)
        (λ a b e. first_inside b a (sym (both_ways a b) ∙ e)) both_ways
        (searched laws no_bits stale thread g v)
        (record {
          valid = searched-IsValid laws no_bits stale thread g v;
          table = refl;
          sorted = refl;
        })
        edge_num src_out_degree (v.table.index.owned id source there).0 g id located
    where
      first_inside :
          (a b : ℕ)
          → next_at g.vertex_index.vertex_table t a b ≡ true
          → a < length g.vertex_index.vertex_table
      first_inside a b e = ground (arith, e)
