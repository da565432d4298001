-- ===== src/Sort/Maintenance.antt =====
-- The other operations of src/sort.cpp: the constructors from an array and from the optimizer's
-- widths, `InsertSimpleVertex`, `DeleteVertex` and `Size`.
pub mod Filling
pub mod Counting
pub mod Laws
use radix_graph.Base.{
  ℕ, zero, suc, ◌+◌, ◌-◌, Bool, true, false, Option, none, some, List, [], ◌∷◌, ◌++◌, length,
  get_or, set, take, replicate, if◌then◌else◌, ltb, ◌==◌,
}
use radix_graph.Edges.{Weight, Vertex, GlobalInfo}
use radix_graph.Sort.{Sort, child_index, fanout, root_of, retrieve_vertex}
use radix_graph.Sort.Config.{prune, prefix_sums}
use radix_graph.Sort.Laws.{no_vertex}
use radix_graph.Sort.Trie.{Node, child, insert}

-- The first loop of the constructor: how many widths are not 0.
unfoldable pub count_widths : List ℕ → ℕ
count_widths [] = 0
count_widths (b ∷ widths) = if b == 0 then count_widths widths else suc (count_widths widths)

-- The second one, from the place j of `num_bits` and `sum_bits` on.
pub record Filled : Type 0 where
  pub j : ℕ
  pub num_bits : List ℕ
  pub sum_bits : List ℕ

unfoldable pub fill_step : ℕ → Filled → Filled
fill_step b s = if b == 0 then s else record s {
  num_bits = set s.num_bits s.j b;
  sum_bits = set s.sum_bits s.j ((if ltb 0 s.j then get_or s.sum_bits (s.j - 1) 0 else 0) + b);
  j = s.j + 1;
}

unfoldable pub fill : List ℕ → Filled → Filled
fill [] s = s
fill (b ∷ widths) s = fill widths (fill_step b s)

-- An entry of the queue of `Size`: a node, or the vertex that a pointer of the last level leads to,
-- with its level.
pub record Visit : Type 0 where
  pub level : ℕ
  pub height : ℕ
  pub node : Node height

-- The loop over the children of a node.
unfoldable pub enqueue : (h level : ℕ) → Node (suc h) → ℕ → ℕ → List Visit
enqueue h level kids zero i = []
enqueue h level kids (suc left) i =
    let rest = enqueue h level kids left (i + 1) in
    elim (child h kids i) [
      | none ↦ rest
      | some c ↦ record { level = level + 1; height = h; node = c } ∷ rest
    ]

module _ (size : ℕ → ℕ) where
  -- What one round makes of the node at the front of the queue: the children to add, and the number
  -- to add to `sz`.
  unfoldable pub visit : (h d : ℕ) → Node h → List Visit × ℕ
  unfolding enqueue
  visit zero d u = ([], 0)
  visit (suc zero) d u = ([], size d)
  visit (suc (suc h)) d u = (enqueue (suc h) d u (size d) 0, size d)

  -- The loop of `Size`, none when the fuel is used up.
  unfoldable pub size_loop : ℕ → List Visit → ℕ → Option ℕ
  size_loop fuel [] sz = some sz
  size_loop zero (u ∷ queue) sz = none
  size_loop (suc fuel) (u ∷ queue) sz =
      let (kids, n) = visit u.height u.level u.node in size_loop fuel (queue ++ kids) (sz + n)

module _ {W : Type 0} ⦃weight : Weight W⦄ where
  -- The constructor from the first d numbers of an array.
  unfoldable pub new_from_array : ℕ → List ℕ → Sort W
  new_from_array d widths =
      let a = take d widths in
      let n = count_widths a in
      let s = fill a (record { j = 0; num_bits = replicate n 0; sum_bits = replicate n 0 }) in
      record {
        num_bits = s.num_bits;
        sum_bits = s.sum_bits;
        depth = n;
        root = none;
        vertex_table = [];
        cnt = 0;
      }

  -- The constructor from the widths s that `OptimalFanout` returns.
  unfoldable pub new_optimal : List ℕ → Bool → Sort W
  new_optimal s pruned =
      let num_bits = if pruned then prune s else s in
      record {
        num_bits = num_bits;
        sum_bits = prefix_sums 0 num_bits;
        depth = length num_bits;
        root = none;
        vertex_table = [];
        cnt = 0;
      }

  -- `vertex` is the pointer to the new vertex.
  unfoldable pub insert_simple_vertex : ℕ → Sort W → ℕ → Sort W
  insert_simple_vertex vertex t id =
      let (r, found, made) =
        insert (fanout t.num_bits) (child_index t.sum_bits t.depth id) vertex t.depth 0
          (root_of t) in
      record t { root = some r }

  -- The vertex at a place gets the time of its deletion.
  unfoldable pub mark_deleted : GlobalInfo → Sort W → ℕ → Sort W
  mark_deleted info t p = record t {
    vertex_table =
        set t.vertex_table p
          (record (get_or t.vertex_table p no_vertex) { del_time = some info.global_timestamp });
  }

  unfoldable pub delete_found : GlobalInfo → Sort W × Option ℕ → Sort W × Bool
  delete_found info (t, none) = (t, false)
  delete_found info (t, some p) = (mark_deleted info t p, true)

  unfoldable pub delete_vertex : (ℕ → ℕ) → GlobalInfo → Sort W → ℕ → Sort W × Bool
  delete_vertex stale info t id = delete_found info (retrieve_vertex stale info t id false)

  -- The queue starts with the root. A node is read only above the last level, so that a missing
  -- root is none, a crash, from two levels on.
  unfoldable pub size : ℕ → Sort W → Option ℕ
  unfolding size_loop
  size fuel t = elim t.root [
    | none ↦ if ltb 1 t.depth then none else some (if t.depth == 0 then 0 else fanout t.num_bits 0)
    | some r ↦
        size_loop (fanout t.num_bits) fuel (record { level = 0; height = t.depth; node = r } ∷ []) 0
  ]
