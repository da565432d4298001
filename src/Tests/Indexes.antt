-- ===== src/Tests/Indexes.antt =====
-- The tree of src/sort.cpp and the index of src/art.cpp at concrete inputs.
use radix_graph.Base.{
  zero, suc, List, ℕ, ◌^◌, ◌%◌, ◌<◌, ◌≤◌, ◌≡◌, refl, true, false, Option, none, some, [], ◌∷◌,
  length, take, if◌then◌else◌, ◌==◌, arith,
}
use radix_graph.Tests.Edges.{Weight_ℕ}
use radix_graph.Tests.Vertices.{info, stale, tree, tree-IsValid}
use radix_graph.Sort.{Sort, new, fanout, root_of, child_index}
use radix_graph.Sort.Config.{prune, prefix_sums}
use radix_graph.Sort.Laws.{IsTree, lookup, modulus}
use radix_graph.Sort.Trie.{fresh, insert, find}
use radix_graph.Sort.Maintenance as Maintenance
use radix_graph.Sort.Maintenance.{size, insert_simple_vertex, new_from_array}
use radix_graph.Sort.Maintenance.Counting.{nodes, slots, size-slots}
use radix_graph.Sort.Maintenance.Filling.{new_from_array-new}
use radix_graph.Sort.Maintenance.Laws as SortLaws
use radix_graph.Sort.Maintenance.Laws.{SimpleInserted, insert_simple_vertex-SimpleInserted}
use radix_graph.Sort.Transform.{transform}
use radix_graph.Sort.Transform.Laws.{IsShiftable, Transformed, transform-Transformed}
use radix_graph.Sort.Transform.Known.{listed, transform_known}
use radix_graph.Sort.Digits.{sum_take}
use radix_graph.Art as Art
use radix_graph.Art.{Db, Text}
use radix_graph.Art.Laws as ArtLaws
use radix_graph.Art.Laws.{DbLaws, TextLaws}
use radix_graph.Art.Retrieval as ArtRetrieval
use radix_graph.Art.Deletion as ArtDeletion
use radix_graph.Sort.Start.{is_some}

array_example : new_from_array {W = ℕ} 3 (2 ∷ 0 ∷ 1 ∷ 9 ∷ []) ≡ new (take 3 (2 ∷ 0 ∷ 1 ∷ 9 ∷ []))
array_example = new_from_array-new 3 (2 ∷ 0 ∷ 1 ∷ 9 ∷ [])

simple_example : SimpleInserted tree 7 13 (insert_simple_vertex 7 tree 13)
simple_example = insert_simple_vertex-SimpleInserted 7 tree 13 tree-IsValid.tree

delete_vertex_example : SortLaws.Deleted info tree 13 (Maintenance.delete_vertex stale info tree 13)
delete_vertex_example = SortLaws.delete_vertex-Deleted stale info tree 13 tree-IsValid

-- The tree with one vertex, of two nodes.
abbrev two_nodes : Sort ℕ
two_nodes = insert_simple_vertex 7 tree 13

two_nodes-IsTree : IsTree two_nodes
two_nodes-IsTree = (insert_simple_vertex-SimpleInserted 7 tree 13 tree-IsValid.tree).tree

two_nodes_root : two_nodes.root ≡ some (root_of two_nodes)
unfolding insert_simple_vertex root_of
two_nodes_root = refl

nodes_two : nodes two_nodes.depth 0 (root_of two_nodes) ≡ 2
unfolding insert_simple_vertex root_of new prune prefix_sums fresh insert child_index
nodes_two = refl

few_nodes : nodes two_nodes.depth 0 (root_of two_nodes) ≤ 2
few_nodes = rw nodes_two (omega arith)

size_example :
    size 2 two_nodes
    ≡ some (slots (fanout two_nodes.num_bits) two_nodes.depth 0 (root_of two_nodes))
size_example = size-slots 2 two_nodes (root_of two_nodes) two_nodes-IsTree two_nodes_root few_nodes

-- The tree with the widths of its levels the other way round.
abbrev other_widths : List ℕ
other_widths = 1 ∷ 2 ∷ []

same_depth : length other_widths ≡ two_nodes.depth
unfolding insert_simple_vertex new prune
same_depth = refl

same_sum :
    sum_take other_widths (length other_widths)
    ≡ sum_take two_nodes.num_bits (length two_nodes.num_bits)
unfolding insert_simple_vertex new prune sum_take
same_sum = refl

few_bits : sum_take two_nodes.num_bits (length two_nodes.num_bits) < 64
unfolding insert_simple_vertex new prune sum_take
few_bits = omega arith

old_shifts : IsShiftable two_nodes.num_bits
unfolding insert_simple_vertex new prune
old_shifts zero = omega arith
old_shifts (suc zero) = omega arith
old_shifts (suc (suc i)) = omega arith

new_shifts : IsShiftable other_widths
new_shifts zero = omega arith
new_shifts (suc zero) = omega arith
new_shifts (suc (suc i)) = omega arith

transform_example :
    (s : Sort ℕ) × (transform 99 two_nodes two_nodes.depth other_widths [] ≡ some s)
    × Transformed two_nodes other_widths s
transform_example =
    transform-Transformed 99 two_nodes two_nodes-IsTree other_widths (root_of two_nodes)
      two_nodes_root same_depth same_sum few_bits old_shifts new_shifts

vertex_found : lookup two_nodes 13 ≡ some 7
unfolding insert_simple_vertex root_of new prune prefix_sums fresh insert find child_index
vertex_found = refl

known_example :
    (s : Sort ℕ) × (transform 99 two_nodes two_nodes.depth other_widths (13 ∷ []) ≡ some s)
    × ((j : ℕ)
        → lookup s j ≡ (
            if 0 % modulus two_nodes == j % modulus two_nodes
            then some 99
            else if listed (modulus two_nodes) (13 ∷ []) j
            then lookup two_nodes j
            else none))
known_example =
    transform_known 99 two_nodes two_nodes-IsTree other_widths (root_of two_nodes) two_nodes_root
      same_depth same_sum 13 [] ((7, vertex_found), tt)

-- A tree that is a function, with texts that are their numbers.
abbrev map : Db (Option ℕ) (ℕ → Option (Option ℕ))
map = record {
  empty = λ k. none;
  get = λ d k. d k;
  insert = λ d k s. (
    λ j. if k == j then some (elim (d k) [ none ↦ s | some old ↦ old ]) else d j,
    elim (d k) [ none ↦ true | some old ↦ false ],
  );
}

map_laws : DbLaws map
map_laws = record { get_empty = λ k. refl; get_insert = λ d k s j. refl }

abbrev text : Text (Option ℕ)
text = record { to_string = λ n. some n; stoull = λ s. s; test_value = none }

text_laws : TextLaws text
text_laws = record { round_trip = λ n h. refl; no_number = refl }

abbrev art : Art.Art (ℕ → Option (Option ℕ)) ℕ
art = Art.new map

art-IsValid : ArtLaws.IsValid map text art
art-IsValid = (ArtLaws.new-IsValid map text map_laws).0

art_length : length art.vertex_table < 2 ^ 64
unfolding Art.new
art_length = omega arith

art_retrieve_example :
    (p : ℕ) × (after : Art.Art (ℕ → Option (Option ℕ)) ℕ) × (Art.retrieve_vertex map text stale info
        art 13 true
      ≡ some (after, some p))
    × ArtRetrieval.ArtRetrieved map text stale info art 13 p after
art_retrieve_example =
    ArtRetrieval.retrieve_vertex-ArtRetrieved map text map_laws text_laws stale info art art-IsValid
      13 art_length

art_search_example :
    Art.retrieve_vertex map text stale info art 13 false
    ≡ some (art, ArtLaws.lookup map text art 13)
art_search_example = ArtLaws.retrieve_vertex-lookup map text art art-IsValid stale info 13

art_missing : art.tree 13 ≡ none
unfolding Art.new
art_missing = refl

art_throws_example :
    (Art.check_existence map (Art.insert_simple_vertex map text art 13) 13 ≡ true)
    × (Art.retrieve_vertex map text stale info (Art.insert_simple_vertex map text art 13) 13 true
        ≡ none)
art_throws_example =
    ArtLaws.insert_simple_vertex_throws map text map_laws text_laws stale info art 13 true
      art_missing

art_delete_example :
    (after : Art.Art (ℕ → Option (Option ℕ)) ℕ) × (Art.delete_vertex map text stale info art 13
      ≡ some (after, is_some (ArtLaws.lookup map text art 13)))
    × ArtDeletion.ArtDeleted map text info art 13 after
art_delete_example = ArtDeletion.delete_vertex-ArtDeleted map text stale info art 13 art-IsValid
