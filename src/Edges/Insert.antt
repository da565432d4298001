-- ===== src/Edges/Insert.antt =====
-- `RadixGraph::Insert` of src/radixgraph.cpp, run by one thread alone. A wait that nobody ends, and a
-- loop that outlasts its fuel, are none.
pub mod Laws
use radix_graph.Base.{
  ℕ, zero, suc, ◌+◌, ◌-◌, Bool, Option, none, some, ◌>>=◌, List, [], ◌∷◌, set, if◌then◌else◌, leb,
  ◌==◌, ℤ, pos_part, ◌+ℤ◌,
}
use radix_graph.Bitmap.Interface.{Bitmap}
use radix_graph.Edges.{
  Weight, WeightedEdge, WeightedEdgeArray, GlobalInfo, get_global_timestamp, edges, new_array,
}
use radix_graph.Edges.Compaction.{Context, log_compaction}

-- What a call works on: the versions of the vertex, newest first, and the context.
pub record Local (W B : Type 0) : Type 0 where
  pub next : WeightedEdgeArray W
  pub older : List (WeightedEdgeArray W)
  pub ctx : Context B

-- `if (next->timestamp) next->timestamp[j] = GetGlobalTimestamp()`
unfoldable pub stamp : Option (List ℕ) → ℕ → GlobalInfo → Option (List ℕ) × GlobalInfo
stamp none j info = (none, info)
stamp (some ts) j info =
    let (now, later) = get_global_timestamp info in (some (set ts j now), later)

module _ {W : Type 0} where
  -- `delete tmp` of the version before, unless somebody reads it.
  unfoldable pub drop_previous : List (WeightedEdgeArray W) → List (WeightedEdgeArray W)
  drop_previous [] = []
  drop_previous (tmp ∷ older) = if tmp.threads_read == 0 then older else tmp ∷ older

  -- The version that has been replaced, and those behind it.
  unfoldable pub retire :
      WeightedEdgeArray W → List (WeightedEdgeArray W) → List (WeightedEdgeArray W)
  unfolding drop_previous
  retire next older =
      if next.threads_read == 0
      then record next { edge = none; timestamp = none } ∷ drop_previous older
      else next ∷ older

-- `scale deg extra` is `deg * expand_rate + extra`, a double, as an int.
module _ {W B : Type 0} ⦃weight : Weight W⦄ ⦃bitmap : Bitmap B⦄ (scale : ℕ → ℕ → ℕ)
    (stale : ℕ → ℕ) where
  -- The body of the loop under `next == src->next.load()`, which holds when one thread runs alone.
  unfoldable pub expand : Local W B → Option (Local W B)
  unfolding retire
  expand s =
      let next = s.next in
      if next.physical_size == next.cap
      then (do
        let deg = pos_part next.deg
        (new_arr, ctx) ←
            log_compaction stale next (new_array (scale deg (next.size - next.cap + 1 + 8))) s.ctx
        some (record { next = new_arr; older = retire next s.older; ctx = ctx }))
      else none

  -- `i = next->size.fetch_add(1)`
  unfoldable pub reserve : Local W B → ℕ × Local W B
  reserve s = (s.next.size, record s { next = record s.next { size = s.next.size + 1 } })

  -- `while (i >= next->cap)`
  unfoldable pub reserve_loop : ℕ → ℕ × Local W B → Option (ℕ × Local W B)
  unfolding expand reserve
  reserve_loop zero (i, s) = none
  reserve_loop (suc fuel) (i, s) =
      let again = expand s >>= (λ t. reserve_loop fuel (reserve t)) in
      if leb s.next.cap i then again else some (i, s)

  -- The writes after the loop; a null `timestamp` is left alone, and the clock with it.
  unfoldable pub write_log : ℕ → WeightedEdge W → ℤ → Local W B → Local W B
  unfolding stamp
  write_log i e delta_deg s =
      let next = s.next in
      let (timestamp, info) = stamp next.timestamp (i - next.snapshot_deg) s.ctx.info in
      record s {
        next = record next {
          timestamp = timestamp;
          deg = next.deg +ℤ delta_deg;
          edge = some (set (edges next) i e);
          physical_size = next.physical_size + 1;
        };
        ctx = record s.ctx { info = info };
      }

  -- Three rounds are enough: an array that comes out of a compaction full is twice compacted.
  unfoldable pub insert : Local W B → ℕ → W → ℤ → Option (Local W B)
  unfolding reserve_loop write_log
  insert s des w delta_deg = do
    (i, t) ← reserve_loop 3 (reserve s)
    some (write_log i (record { weight = w; idx = some des }) delta_deg t)
