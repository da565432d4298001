-- ===== src/Sort/Trie.antt =====
-- The walks of src/sort.cpp down the tree: the loops of `CheckExistence`, `RetrieveVertex` and
-- `InsertVertex`. `size i` is the number of children of a node at level i, and `index i` the child
-- that the ID selects there. h counts the levels left, so that `i < depth - 1` is that h is at
-- least two.
pub mod Laws
pub mod Retrieve
use radix_graph.Base.{
  ℕ, zero, suc, ◌+◌, Bool, true, false, Option, none, some, ◌>>=◌, List, get_or, set, replicate,
  if◌then◌else◌,
}

abbrev pub Node : ℕ → Type 0
Node zero = ℕ
Node (suc h) = List (Option (Node h))

-- `children[idx]`
abbrev pub child : (h : ℕ) → Node (suc h) → ℕ → Option (Node h)
child h kids j = get_or kids j none

abbrev pub with_child : (h : ℕ) → Node (suc h) → ℕ → Node h → Node (suc h)
with_child h kids j c = set kids j (some c)

module _ (size : ℕ → ℕ) where
  -- A new `SORTNode`: all children null. A vertex is not made here.
  unfoldable pub fresh : (h : ℕ) → ℕ → Node h
  fresh zero i = zero
  fresh (suc h) i = replicate (size i) none

module _ (index : ℕ → ℕ) where
  -- `CheckExistence`: the loop, with its early ends.
  unfoldable pub exists : (h : ℕ) → ℕ → Node h → Bool
  exists zero i p = false
  exists (suc zero) i kids = elim (child zero kids (index i)) [ none ↦ false | some p ↦ true ]
  exists (suc (suc h)) i kids = elim (child (suc h) kids (index i)) [
    | none ↦ false
    | some c ↦ exists (suc h) (i + 1) c
  ]

  -- What the tree holds, apart from the code: the vertex at the end of the path, if there is one.
  unfoldable pub find : (h : ℕ) → ℕ → Node h → Option ℕ
  find zero i p = some p
  find (suc h) i kids = child h kids (index i) >>= find h (i + 1)

module _ (size index : ℕ → ℕ) (vertex : ℕ) where
  -- `InsertVertex`: the missing nodes are made, and at the end `vertex`, unless there is one. The
  -- result is the node, the vertex at the end, and whether it was made.
  unfoldable pub insert : (h : ℕ) → ℕ → Node h → Node h × ℕ × Bool
  insert zero i p = (p, p, false)
  insert (suc zero) i kids = elim (child zero kids (index i)) [
    | none ↦ (with_child zero kids (index i) vertex, vertex, true)
    | some p ↦ (kids, p, false)
  ]
  insert (suc (suc h)) i kids =
      let below : Node (suc h) × ℕ × Bool = elim (child (suc h) kids (index i)) [
        | none ↦ insert (suc h) (i + 1) (replicate (size (i + 1)) none)
        | some c ↦ insert (suc h) (i + 1) c
      ] in
      (with_child (suc h) kids (index i) below.0, below.1, below.2)

  -- `RetrieveVertex`: where a pointer is null, `InsertVertex` goes on from that node.
  unfoldable pub retrieve : Bool → (h : ℕ) → ℕ → Node h → Node h × Option ℕ × Bool
  unfolding insert
  retrieve insert_mode zero i p = (p, some p, false)
  retrieve insert_mode (suc h) i kids = elim (child h kids (index i)) [
    | none ↦
        if insert_mode
        then (let (n, p, made) = insert (suc h) i kids in (n, some p, made))
        else (kids, none, false)
    | some c ↦
        let (n, p, made) = retrieve insert_mode h (i + 1) c in
        (with_child h kids (index i) n, p, made)
  ]
