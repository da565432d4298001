-- ===== src/Tests/Vertices.antt =====
-- The vertex indexes at concrete inputs: the tree of src/sort.cpp with two levels, and the flat index of
-- src/vertex_array.cpp.
use radix_graph.Base.{
  ℕ, ◌%◌, ◌^◌, ◌≡◌, ◌<◌, true, false, none, some, [], ◌∷◌, length, arith, ◌==◌, get_or, ◌/◌, suc,
  zero, ◌||◌,
}
use radix_graph.Edges.{GlobalInfo}
use radix_graph.Tests.Edges.{Weight_ℕ}
use radix_graph.Sort
use radix_graph.Sort.{Sort, fanout, retrieve_vertex, root_of, check_existence}
use radix_graph.Sort.Config.{prune}
use radix_graph.Sort.Digits.{agree_root, path, path-InRange, sum_take}
use radix_graph.Sort.Insertion.{Retrieved, retrieve_vertex-Retrieved}
use radix_graph.Sort.Laws.{IsValid, lookup, modulus, retrieve_vertex_search}
use radix_graph.Sort.Start.{new-IsValid, is_some}
use radix_graph.Sort.Existence.{check_existence-retrieve_vertex}
use radix_graph.Sort.Trie.Laws.{agree, InRange}
use radix_graph.VertexArray as Flat
use radix_graph.VertexArray.{VertexArray, unset, vertex_of, is_set}
use radix_graph.VertexArray.Laws as FlatLaws
use radix_graph.Bitmap.Atomic
use radix_graph.Bits.{test_bit, test_bit-zero}

abbrev pub info : GlobalInfo
info = record { global_timestamp = 1; is_mixed_workloads = false }

abbrev pub stale : ℕ → ℕ
stale i = 5

-- Two levels of four and two children.
abbrev pub tree : Sort ℕ
tree = Sort.new (2 ∷ 0 ∷ 1 ∷ [])

pub some_width : 0 < length (prune (2 ∷ 0 ∷ 1 ∷ []))
unfolding prune
some_width = omega arith

pub tree-IsValid : IsValid tree
tree-IsValid = (new-IsValid (2 ∷ 0 ∷ 1 ∷ []) some_width).0

new_example : IsValid tree × ((id : ℕ) → lookup tree id ≡ none)
new_example = new-IsValid (2 ∷ 0 ∷ 1 ∷ []) some_width

existence_example :
    (check_existence tree 13 ≡ is_some (retrieve_vertex stale info tree 13 false).1)
    × ((j : ℕ)
        → check_existence (retrieve_vertex stale info tree 13 true).0 j
          ≡ ((13 % modulus tree == j % modulus tree) || check_existence tree j))
existence_example = check_existence-retrieve_vertex stale info tree tree-IsValid 13

retrieve_example :
    (p : ℕ) × Retrieved stale info tree 13 p (retrieve_vertex stale info tree 13 true)
retrieve_example = retrieve_vertex-Retrieved stale info tree tree-IsValid 13

search_example :
    retrieve_vertex stale info tree 13 false
    ≡ (record tree { root = some (root_of tree) }, lookup tree 13)
search_example = retrieve_vertex_search tree tree-IsValid stale info 13

agree_example :
    agree (path (2 ∷ 1 ∷ []) 13) (path (2 ∷ 1 ∷ []) 5) 2 0
    ≡ (13 % 2 ^ sum_take (2 ∷ 1 ∷ []) 2 == 5 % 2 ^ sum_take (2 ∷ 1 ∷ []) 2)
agree_example = agree_root (2 ∷ 1 ∷ []) 13 5

range_example : InRange (fanout (2 ∷ 1 ∷ [])) (path (2 ∷ 1 ∷ []) 13) 2 0
range_example = path-InRange (2 ∷ 1 ∷ []) 13 2 0 (omega arith)

-- The flat index for three IDs.
abbrev flat : VertexArray ℕ
flat = record {
  vertex_table = unset ∷ unset ∷ unset ∷ [];
  mtx = record { start = 0 ∷ [] };
  cnt = 0;
}

clear_byte : (i c : ℕ) → test_bit (get_or (0 ∷ []) i 0) c ≡ false
clear_byte zero c = test_bit-zero c
clear_byte (suc i) c = test_bit-zero c

flat_idle : (q : ℕ) → Atomic.get_bit flat.mtx q ≡ false
unfolding Atomic.get_bit
flat_idle q = clear_byte (q / 8) (Atomic.bit_offset q)

flat_bytes : (i : ℕ) → get_or flat.mtx.start i 0 < 256
flat_bytes zero = omega arith
flat_bytes (suc i) = omega arith

flat_own :
    (i : ℕ)
    → is_set (vertex_of flat i).idx ≡ true
    → ((vertex_of flat i).idx ≡ some i) × ((vertex_of flat i).node ≡ i)
flat_own zero h = cc
flat_own (suc zero) h = cc
flat_own (suc (suc zero)) h = cc
flat_own (suc (suc (suc i))) h = cc

flat-IsValid : FlatLaws.IsValid flat
flat-IsValid = record { bytes = flat_bytes; room = omega arith; idle = flat_idle; own = flat_own }

flat_example :
    (r : VertexArray ℕ) × (Flat.retrieve_vertex flat 2 true ≡ some (r, some 2))
    × FlatLaws.Retrieved flat 2 r
flat_example = FlatLaws.retrieve_vertex-insert flat flat-IsValid 2 (omega arith)
