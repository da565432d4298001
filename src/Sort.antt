-- ===== src/Sort.antt =====
-- `SORT` of src/sort.h and src/sort.cpp: the radix tree that finds a vertex by its ID. A node with h
-- levels below it is an array of pointers to nodes with fewer, null is none, and what the last
-- level points to is a vertex, by its place in `vertex_table`, which never moves.
pub mod Trie
pub mod Config
pub mod Digits
pub mod Laws
pub mod Insertion
pub mod Start
pub mod Existence
pub mod Replacement
pub mod Maintenance
pub mod Transform
use Prim.Native.Nat.{bit_and}
use radix_graph.Base.{
  ℕ, zero, suc, ◌+◌, ◌-◌, ◌/◌, ◌^◌, Bool, true, false, Option, none, some, List, [], ◌∷◌, ◌++◌,
  length, get_or, set, if◌then◌else◌, ltb, ◌==◌,
}
use radix_graph.Edges.{Weight, Vertex, GlobalInfo, WeightedEdgeArray, new_array, fresh_ints}
use Trie.{Node, exists, retrieve, fresh}
use Config.{prefix_sums, prune}

-- The tree with its configuration; `space` is never read.
pub record Sort (W : Type 0) : Type 0 where
  pub num_bits : List ℕ
  pub sum_bits : List ℕ
  pub depth : ℕ
  pub root : Option (Node depth)
  pub vertex_table : List (Vertex W)
  pub cnt : ℕ

-- `num_now` and `idx` at level i: the next bits of the ID, from the top.
abbrev pub num_now : List ℕ → ℕ → ℕ → ℕ
num_now sum_bits depth i =
    get_or sum_bits (depth - 1) 0 - (if ltb 0 i then get_or sum_bits (i - 1) 0 else 0)

unfoldable pub child_index : List ℕ → ℕ → ℕ → ℕ → ℕ
child_index sum_bits depth id i =
    bit_and id (2 ^ num_now sum_bits depth i - 1)
    / 2 ^ (get_or sum_bits (depth - 1) 0 - get_or sum_bits i 0)

-- `1 << num_bits[i]`
abbrev pub fanout : List ℕ → ℕ → ℕ
fanout num_bits i = 2 ^ get_or num_bits i 0

module _ {W : Type 0} ⦃weight : Weight W⦄ where
  -- The constructor from a list of widths, with no vertex and no root.
  unfoldable pub new : List ℕ → Sort W
  new widths =
      let num_bits = prune widths in
      record {
        num_bits = num_bits;
        sum_bits = prefix_sums 0 num_bits;
        depth = length num_bits;
        root = none;
        vertex_table = [];
        cnt = 0;
      }

  -- The vertex that `InsertVertex` makes in the slot that `grow_by` adds.
  unfoldable pub new_vertex : (ℕ → ℕ) → GlobalInfo → ℕ → ℕ → Vertex W
  new_vertex stale info id i =
      let a = new_array 8 in
      record {
        node = id;
        idx = some i;
        del_time = none;
        versions =
            record a {
              timestamp = if info.is_mixed_workloads then some (fresh_ints stale 8 0) else none;
            }
            ∷ [];
      }

  -- The tree, once the root is there.
  unfoldable pub root_of : (t : Sort W) → Node t.depth
  root_of t = elim t.root [ none ↦ fresh (fanout t.num_bits) t.depth 0 | some r ↦ r ]

  unfoldable pub check_existence : Sort W → ℕ → Bool
  unfolding exists
  check_existence t id = elim t.root [
    | none ↦ false
    | some r ↦ exists (child_index t.sum_bits t.depth id) t.depth 0 r
  ]

  -- The result is the vertex, by its place. The root is made also by a search.
  unfoldable pub retrieve_vertex : (ℕ → ℕ) → GlobalInfo → Sort W → ℕ → Bool → Sort W × Option ℕ
  unfolding root_of
  retrieve_vertex stale info t id insert_mode =
      let (r, found, grown) =
        retrieve (fanout t.num_bits) (child_index t.sum_bits t.depth id) (length t.vertex_table)
          insert_mode t.depth 0 (root_of t) in
      (
        if grown
            then record t {
              root = some r;
              vertex_table = t.vertex_table ++ new_vertex stale info id t.cnt ∷ [];
              cnt = t.cnt + 1;
            }
            else record t { root = some r },
        found,
      )
