-- ===== src/Sort/Transform.antt =====
-- `Transform` of src/sort.cpp: the tree is built again with other widths of its levels. A pointer that
-- is followed where it is null is none, a crash. The numbers in `frontiers` are pointers to nodes
-- or, at the end, to vertices; `root_pointer` is what the pointer to the root is as a vertex.
pub mod Prefixes
pub mod Levels
pub mod Rebuilt
pub mod Laws
pub mod Known
use radix_graph.Base.{
  ℕ, zero, suc, ◌+◌, ◌-◌, ◌*◌, ◌/◌, ◌%◌, ◌^◌, Bool, true, false, Option, none, some, ◌>>=◌, List,
  [], ◌∷◌, ◌++◌, get_or, set, take, replicate, if◌then◌else◌, ◌==◌,
}
use radix_graph.Sort.{Sort, child_index, fanout}
use radix_graph.Sort.Config.{prefix_sums}
use radix_graph.Sort.Trie.{Node, child, with_child, fresh}

-- The children of a node of `frontiers`, from the place j on, with the bits of the ID so far.
unfoldable pub expand_node : (h size : ℕ) → Node (suc h) → ℕ → ℕ → ℕ → List (Node h × ℕ)
expand_node h size kids u zero j = []
expand_node h size kids u (suc left) j =
    let rest = expand_node h size kids u left (j + 1) in
    elim (child h kids j) [ none ↦ rest | some c ↦ (c, (u * size + j) % 2 ^ 64) ∷ rest ]

-- The loop over `frontiers`, which gives `next`.
unfoldable pub expand : (h size : ℕ) → List (Node (suc h) × ℕ) → List (Node h × ℕ)
unfolding expand_node
expand h size [] = []
expand h size ((kids, u) ∷ frontiers) = expand_node h size kids u size 0 ++ expand h size frontiers

module _ (size : ℕ → ℕ) where
  -- The loop over the levels, from level i on.
  unfoldable pub collect : (h i : ℕ) → List (Node h × ℕ) → List (Node 0 × ℕ)
  collect zero i frontiers = frontiers
  collect (suc h) i frontiers = collect h (i + 1) (expand h (size i) frontiers)

  -- The second part for one entry: the missing nodes are made, and the pointer is written at the end
  -- where there is none.
  unfoldable pub put : (index : ℕ → ℕ) (h i : ℕ) → Option ℕ → Node h → Node h
  put index zero i pointer n = n
  put index (suc zero) i pointer kids = elim (child zero kids (index i)) [
    | none ↦ set kids (index i) pointer
    | some p ↦ kids
  ]
  put index (suc (suc h)) i pointer kids =
      let below : Node (suc h) = elim (child (suc h) kids (index i)) [
        | none ↦ put index (suc h) (i + 1) pointer (replicate (size (i + 1)) none)
        | some c ↦ put index (suc h) (i + 1) pointer c
      ] in
      with_child (suc h) kids (index i) below

  -- The loop over `frontiers` of the second part.
  unfoldable pub rebuild : (index : ℕ → ℕ → ℕ) (h : ℕ) → List (Option ℕ × ℕ) → Node h → Node h
  rebuild index h [] n = n
  rebuild index h ((pointer, u) ∷ frontiers) n =
      rebuild index h frontiers (put (index u) h 0 pointer n)

-- The walk down the old tree to the pointer that a known vertex has.
unfoldable pub walk : (index : ℕ → ℕ) (h i : ℕ) → Node h → Option (Option ℕ)
walk index zero i n = some (some n)
walk index (suc zero) i kids = some (child zero kids (index i))
walk index (suc (suc h)) i kids = child (suc h) kids (index i) >>= walk index (suc h) (i + 1)

unfoldable pub walk_all :
    (index : ℕ → ℕ → ℕ) (h : ℕ) → Node h → List ℕ → Option (List (Option ℕ × ℕ))
walk_all index h root [] = some []
walk_all index h root (u ∷ vertex_set) = do
  pointer ← walk (index u) h 0 root
  rest ← walk_all index h root vertex_set
  some ((pointer, u) ∷ rest)

-- The vertices that a search of all nodes finds.
abbrev pub as_pointers : List (Node 0 × ℕ) → List (Option ℕ × ℕ)
as_pointers [] = []
as_pointers ((p, u) ∷ frontiers) = (some p, u) ∷ as_pointers frontiers

-- `u >>= (sum_bits[depth - 1] - sum_bits[d - 1])`
abbrev pub shifted : List ℕ → ℕ → ℕ → List ℕ → List ℕ
shifted sum_bits depth d [] = []
shifted sum_bits depth d (u ∷ us) =
    u / 2 ^ (get_or sum_bits (depth - 1) 0 - get_or sum_bits (d - 1) 0)
    ∷ shifted sum_bits depth d us

module _ {W : Type 0} where
  -- `frontiers` after the first part. With known vertices the root is still its first entry.
  unfoldable pub frontiers_of :
      (root_pointer : ℕ) (t : Sort W) (d : ℕ) → Node t.depth → List ℕ → Option (List (Option ℕ × ℕ))
  frontiers_of root_pointer t d root [] =
      some (as_pointers (collect (fanout t.num_bits) t.depth 0 ((root, 0) ∷ [])))
  frontiers_of root_pointer t d root (u ∷ us) =
      walk_all (child_index t.sum_bits d) t.depth root (shifted t.sum_bits t.depth d (u ∷ us))
      >>= (λ rest. some ((some root_pointer, 0) ∷ rest))

  -- The second part, with the new widths.
  unfoldable pub rebuilt : Sort W → List ℕ → List (Option ℕ × ℕ) → Sort W
  unfolding rebuild
  rebuilt t num_bits frontiers =
      let sum_bits = prefix_sums 0 num_bits in
      record t {
        num_bits = num_bits;
        sum_bits = sum_bits;
        root = some (
            rebuild (fanout num_bits) (child_index sum_bits t.depth) t.depth frontiers
              (fresh (fanout num_bits) t.depth 0));
      }

  -- Both searches follow the root, which must be there.
  unfoldable pub transform : ℕ → Sort W → ℕ → List ℕ → List ℕ → Option (Sort W)
  transform root_pointer t d widths vertex_set =
      if d == t.depth
      then (t.root
          >>= (λ r. frontiers_of root_pointer t d r vertex_set)
          >>= (λ frontiers. some (rebuilt t (take d widths) frontiers)))
      else some t
