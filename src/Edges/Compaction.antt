-- ===== src/Edges/Compaction.antt =====
-- `RadixGraph::LogCompaction` of src/radixgraph.cpp.
mod Loops
pub mod Laws
use radix_graph.Base.{
  ℕ, zero, suc, ◌+◌, ◌-◌, Bool, Option, none, some, ◌>>=◌, List, get_or, set, if◌then◌else◌, leb,
  pos, eq_ℤ, replicate,
}
use radix_graph.Bitmap.Interface.{Bitmap}
use radix_graph.Edges.{
  Weight, WeightedEdge, WeightedEdgeArray, GlobalInfo, get_global_timestamp, blank, edge_at, edges,
  new_array, fresh_ints,
}

-- The variables of the merge loop: the thread's bitmap, and the new array with its edges so far.
pub record Merge (W B : Type 0) : Type 0 where
  pub bits : B
  pub cap : ℕ
  pub edge : List (WeightedEdge W)
  pub num : ℕ

-- What an operation that may compact works on, besides the vertex: `global_info`, and the bitmap of
-- the thread that runs.
pub record Context (B : Type 0) : Type 0 where
  pub info : GlobalInfo
  pub bits : B

module _ {W : Type 0} ⦃weight : Weight W⦄ where
  -- `for (j = i; left more rounds; j++) to[j] = from[j]`
  unfoldable pub copy_edges :
      List (WeightedEdge W) → ℕ → ℕ → List (WeightedEdge W) → List (WeightedEdge W)
  copy_edges from zero i to = to
  copy_edges from (suc left) i to = copy_edges from left (i + 1) (set to i (edge_at from i))

module _ {W B : Type 0} ⦃weight : Weight W⦄ ⦃bitmap : Bitmap B⦄ where
  -- A full array is replaced by one with room for eight more.
  unfoldable pub enlarge : Merge W B → Merge W B
  enlarge s =
      if leb s.cap s.num
      then record s {
        cap = s.num + 8;
        edge = copy_edges s.edge s.num 0 (replicate (s.num + 8) blank);
      }
      else s

  unfoldable pub push : WeightedEdge W → Merge W B → Merge W B
  push e s = let t = enlarge s in record t { edge = set t.edge t.num e; num = t.num + 1 }

  -- The body of the merge loop at index i, for an edge to v.
  unfoldable pub merge_step : ℕ → ℕ → ℕ → WeightedEdge W → Merge W B → Merge W B
  merge_step snapshot_deg i v e s =
      if bitmap.get_bit s.bits v
      then s
      else (let t = if weight.is_zero e.weight then s else push e s in
          record t { bits = if leb snapshot_deg i then bitmap.set_bit t.bits v else t.bits })

  -- The merge loop, from the last of n edges to the first. A slot that is not written would be read
  -- at position -1 of the bitmap: none.
  unfoldable pub merge_loop : List (WeightedEdge W) → ℕ → ℕ → Merge W B → Option (Merge W B)
  merge_loop es snapshot_deg zero s = some s
  merge_loop es snapshot_deg (suc i) s =
      let e = edge_at es i in
      elim e.idx [
        | none ↦ none
        | some v ↦ merge_loop es snapshot_deg i (merge_step snapshot_deg i v e s)
      ]

  -- The loop that clears the bits of the logs, from index i on.
  unfoldable pub clear_loop : List (WeightedEdge W) → ℕ → ℕ → B → B
  clear_loop es zero i bits = bits
  clear_loop es (suc left) i bits =
      clear_loop es left (i + 1)
        (elim (edge_at es i).idx [ none ↦ bits | some v ↦ bitmap.clear_bit bits v ])

  -- The assignments at the end.
  unfoldable pub finish :
      (ℕ → ℕ) → WeightedEdgeArray W → ℕ → Context B → WeightedEdgeArray W × Context B
  finish stale new_arr num ctx =
      let (now, info) = get_global_timestamp ctx.info in
      (
        record new_arr {
          size = num;
          snapshot_deg = num;
          deg = pos num;
          physical_size = num;
          timestamp =
              if info.is_mixed_workloads
              then some (fresh_ints stale (new_arr.cap - num) 0)
              else new_arr.timestamp;
          snapshot_timestamp = now;
        },
        record ctx { info = info },
      )

  unfoldable pub log_compaction :
      (ℕ → ℕ)
      → WeightedEdgeArray W
      → WeightedEdgeArray W
      → Context B
      → Option (WeightedEdgeArray W × Context B)
  log_compaction stale old_arr new_arr ctx =
      let n = old_arr.physical_size in
      let old = edges old_arr in
      if eq_ℤ n old_arr.deg
      then some
          (finish stale (record new_arr { edge = some (copy_edges old n 0 (edges new_arr)) }) n ctx)
      else (do
        s ←
            merge_loop old old_arr.snapshot_deg n
              (record { bits = ctx.bits; cap = new_arr.cap; edge = edges new_arr; num = 0 })
        let bits = clear_loop old (n - old_arr.snapshot_deg) old_arr.snapshot_deg s.bits
        some (
            finish stale (record new_arr { cap = s.cap; edge = some s.edge }) s.num
              (record ctx { bits = bits })))
