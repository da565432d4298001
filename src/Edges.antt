-- ===== src/Edges.antt =====
-- The edge store of one vertex: `WeightedEdge`, `WeightedEdgeArray` and `Vertex` of src/utils.h, and
-- the functions of src/radixgraph.cpp that read and write them, in the modules below.
pub mod Compaction
pub mod Insert
pub mod Neighbours
pub mod View
pub mod Survivors
pub mod Marks
pub mod Prefix
pub mod Valid
pub mod Order
pub mod Sorted
pub mod Writers
use radix_graph.Base.{
  ℕ, zero, suc, ◌+◌, ◌≡◌, Bool, true, Option, none, some, List, [], ◌∷◌, get_or, replicate, ℤ, pos,
}

-- `float` is no part of the program: a type with its zero and the test `w == 0`.
pub record Weight (W : Type 0) : Type 0 where
  pub zero_weight : W
  pub is_zero : W → Bool
  pub is_zero_zero : is_zero zero_weight ≡ true

-- `idx` is none for the -1 of a slot that is not written.
pub record WeightedEdge (W : Type 0) : Type 0 where
  pub weight : W
  pub idx : Option ℕ

-- The links `prev_arr` and `next_arr` are the order of the versions in `Vertex`. A null `edge` or
-- `timestamp` is none.
pub record WeightedEdgeArray (W : Type 0) : Type 0 where
  pub size : ℕ
  pub cap : ℕ
  pub physical_size : ℕ
  pub edge : Option (List (WeightedEdge W))
  pub timestamp : Option (List ℕ)
  pub snapshot_timestamp : ℕ
  pub snapshot_deg : ℕ
  pub deg : ℤ
  pub threads_read : ℕ

-- `next` with the versions behind it, newest first. The lock is free whenever one thread runs alone.
pub record Vertex (W : Type 0) : Type 0 where
  pub node : ℕ
  pub idx : Option ℕ
  pub del_time : Option ℕ
  pub versions : List (WeightedEdgeArray W)

pub record GlobalInfo : Type 0 where
  pub global_timestamp : ℕ
  pub is_mixed_workloads : Bool

-- `GetGlobalTimestamp` returns the old value and counts on. The counter stays below 2 ^ 31.
abbrev pub get_global_timestamp : GlobalInfo → ℕ × GlobalInfo
get_global_timestamp g =
    (g.global_timestamp, record g { global_timestamp = g.global_timestamp + 1 })

module _ {W : Type 0} ⦃weight : Weight W⦄ where
  abbrev pub blank : WeightedEdge W
  blank = record { weight = weight.zero_weight; idx = none }

  abbrev pub edge_at : List (WeightedEdge W) → ℕ → WeightedEdge W
  edge_at es i = get_or es i blank

  abbrev pub edges : WeightedEdgeArray W → List (WeightedEdge W)
  edges a = elim a.edge [ none ↦ [] | some es ↦ es ]

  -- The constructor `WeightedEdgeArray(m)`.
  unfoldable pub new_array : ℕ → WeightedEdgeArray W
  new_array m = record {
    size = 0;
    cap = m;
    physical_size = 0;
    edge = some (replicate m blank);
    timestamp = none;
    snapshot_timestamp = 0;
    snapshot_deg = 0;
    deg = pos 0;
    threads_read = 0;
  }

-- `new int[n]`: each place holds what the memory held.
unfoldable pub fresh_ints : (ℕ → ℕ) → ℕ → ℕ → List ℕ
fresh_ints stale zero i = []
fresh_ints stale (suc left) i = stale i ∷ fresh_ints stale left (i + 1)
