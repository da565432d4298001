-- ===== src/Edges/Writers.antt =====
-- Several threads in `Insert` of src/radixgraph.cpp, on one edge array, as a step relation: each
-- `fetch_add` and each write is a step of one thread, in any order. A thread that reserves a place
-- from `cap` on has no further step here: it waits for the expansion. The time stamp and the degree,
-- which no thread waits for, are left out. `counted`, which no step reads,
-- holds the places whose writer has counted itself in `physical_size`.
pub mod Threads
pub mod Laws
pub mod Progress
use radix_graph.Base.{
  ℕ, zero, suc, ◌+◌, ◌≤◌, ◌<◌, ◌≡◌, Bool, true, false, Option, none, some, List, length, set,
  if◌then◌else◌, ltb, ◌==◌,
}
use radix_graph.Base.Counts.{update}
use radix_graph.Edges.{Weight, WeightedEdge, edge_at}

-- Where a thread is: outside, with a place reserved, or with the edge written there.
pub data Place : Type 0 where
  idle : Place
  reserved : ℕ → Place
  written : ℕ → Place

abbrev pub place_of : Place → Option ℕ
place_of idle = none
place_of (reserved i) = some i
place_of (written i) = some i

pub record Writers (W : Type 0) : Type 0 where
  pub size : ℕ
  pub physical_size : ℕ
  pub edge : List (WeightedEdge W)
  pub thread : ℕ → Place
  pub counted : ℕ → Bool

abbrev pub is_written : {W : Type 0} → WeightedEdge W → Bool
is_written e = elim e.idx [ none ↦ false | some d ↦ true ]

module _ {W : Type 0} where
  -- `i = next->size.fetch_add(1)`
  abbrev pub reserve : Writers W → ℕ → Writers W
  reserve s k = record s { size = s.size + 1; thread = update s.thread k (reserved s.size) }

  -- `next->edge[i] = {weight, des}`
  abbrev pub write : Writers W → ℕ → ℕ → W → ℕ → Writers W
  write s k i w des = record s {
    edge = set s.edge i (record { weight = w; idx = some des });
    thread = update s.thread k (written i);
  }

  -- `next->physical_size.fetch_add(1)`
  abbrev pub count_in : Writers W → ℕ → ℕ → Writers W
  count_in s k i = record s {
    physical_size = s.physical_size + 1;
    thread = update s.thread k idle;
    counted = update s.counted i true;
  }

module _ {W : Type 0} (cap : ℕ) where
  pub data Step : Writers W → Writers W → Type 0 where
    reserves : {s : Writers W} (k : ℕ) → s.thread k ≡ idle → Step s (reserve s k)
    writes :
        {s : Writers W} (k i : ℕ) (w : W) (des : ℕ)
        → s.thread k ≡ reserved i
        → i < cap
        → Step s (write s k i w des)
    counts : {s : Writers W} (k i : ℕ) → s.thread k ≡ written i → Step s (count_in s k i)

module _ {W : Type 0} ⦃weight : Weight W⦄ (cap : ℕ) where
  -- An array that no thread is in: all its places below `size` are written.
  pub record Quiet (s : Writers W) : Type 0 where
    pub room : (length s.edge ≡ cap) × (s.size ≤ cap)
    pub same : s.physical_size ≡ s.size
    pub nobody : (k : ℕ) → s.thread k ≡ idle
    pub counts : (i : ℕ) → s.counted i ≡ ltb i s.size
    pub all : (i : ℕ) → i < s.size → is_written (edge_at s.edge i) ≡ true

  -- The states that any order of steps reaches.
  pub data Reach : Writers W → Type 0 where
    start : {s : Writers W} → Quiet s → Reach s
    later : {s t : Writers W} → Reach s → Step cap s t → Reach t
