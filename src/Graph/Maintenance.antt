-- ===== src/Graph/Maintenance.antt =====
-- `CreateSnapshots` and `SetNumThreads` of src/radixgraph.cpp, and its constructors from the widths of
-- the tree.
pub mod Laws
pub mod Start
use radix_graph.Base.{
  ℕ, zero, suc, ◌+◌, ◌≤◌, Bool, true, false, ◌&&◌, Option, none, some, ◌>>=◌, List, [], ◌∷◌, length,
  get_or, set, replicate, if◌then◌else◌, ltb, ◌==◌, pos_part,
}
use radix_graph.Bitmap.Interface.{Bitmap}
use radix_graph.Edges.{
  Weight, WeightedEdge, WeightedEdgeArray, Vertex, GlobalInfo, edges, new_array,
}
use radix_graph.Edges.Compaction.{Context, log_compaction}
use radix_graph.Edges.Order.{Sorter}
use radix_graph.Edges.Sorted.{sort_edges}
use radix_graph.Graph.{Graph, vertex_at}
use radix_graph.Sort as SortIndex
use radix_graph.Sort.Maintenance as SortMaintenance

module _ {R W B : Type 0} ⦃weight : Weight W⦄ ⦃bitmap : Bitmap B⦄ (no_bits : B) where
  -- `no_bits` is a bitmap that is new and reset.
  unfoldable pub set_num_threads : Graph R W B → ℕ → Graph R W B
  set_num_threads g nth =
      if g.num_threads == nth
      then g
      else record g { num_threads = nth; bitmap = replicate nth no_bits }

  -- `expand_rate` is 2.0.
  unfoldable pub new : R → GlobalInfo → List ℕ → ℕ → Graph R W B
  new two info num_bits num_threads = record {
    vertex_index = SortIndex.new num_bits;
    bitmap = replicate num_threads no_bits;
    is_sorted = false;
    expand_rate = two;
    num_threads = num_threads;
    info = info;
  }

  -- The constructor that asks the optimizer for the widths: `widths` is what it returns.
  unfoldable pub new_optimized : R → GlobalInfo → List ℕ → ℕ → Graph R W B
  new_optimized two info widths num_threads = record {
    vertex_index = SortMaintenance.new_optimal widths true;
    bitmap = replicate num_threads no_bits;
    is_sorted = false;
    expand_rate = two;
    num_threads = num_threads;
    info = info;
  }

module _ {W : Type 0} ⦃weight : Weight W⦄ (sorter : Sorter W) (sort_neighbours : Bool) where
  -- The sort after the compaction.
  unfoldable pub sort_array : WeightedEdgeArray W → WeightedEdgeArray W
  unfolding sort_edges
  sort_array a =
      if sort_neighbours && ltb 1 a.physical_size
      then record a { edge = some (sort_edges sorter a.physical_size (edges a)) }
      else a

module _ {R W : Type 0} ⦃weight : Weight W⦄ (scale : R → ℕ → ℕ → ℕ) (make_dense : Bool) where
  -- The capacity of the new array.
  unfoldable pub snapshot_cap : R → WeightedEdgeArray W → ℕ
  snapshot_cap rate a = let deg = pos_part a.deg in if make_dense then deg else scale rate deg 8

module _ {R W B : Type 0} ⦃weight : Weight W⦄ ⦃bitmap : Bitmap B⦄ (no_bits : B)
    (scale : R → ℕ → ℕ → ℕ) (stale : ℕ → ℕ) (sorter : Sorter W) (thread : ℕ)
    (sort_neighbours make_dense : Bool) where
  -- The body of the loop over the vertices, with the versions of vertex p. The version that is
  -- replaced is deleted, and leaves the list.
  unfoldable pub snapshot_versions :
      Graph R W B → ℕ → List (WeightedEdgeArray W) → Option (Graph R W B)
  snapshot_versions g p [] = none
  snapshot_versions g p (next ∷ older) = do
    let v = vertex_at g.vertex_index p
    (compacted, ctx) ←
        log_compaction stale next (new_array (snapshot_cap scale make_dense g.expand_rate next))
          (record { info = g.info; bits = get_or g.bitmap thread no_bits })
    some (record g {
      vertex_index = record g.vertex_index {
        vertex_table =
            set g.vertex_index.vertex_table p
              (record v { versions = sort_array sorter sort_neighbours compacted ∷ older });
      };
      bitmap = set g.bitmap thread ctx.bits;
      info = ctx.info;
    })

  -- The vertices from p on, as many as are left.
  unfoldable pub snapshot_loop : ℕ → ℕ → Graph R W B → Option (Graph R W B)
  unfolding snapshot_versions
  snapshot_loop zero p g = some g
  snapshot_loop (suc left) p g =
      snapshot_versions g p (vertex_at g.vertex_index p).versions >>= snapshot_loop left (p + 1)

  unfoldable pub create_snapshots : Graph R W B → Option (Graph R W B)
  unfolding snapshot_loop
  create_snapshots g = do
    h ← snapshot_loop g.vertex_index.cnt 0 g
    some (record h { is_sorted = sort_neighbours })
