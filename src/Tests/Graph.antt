-- ===== src/Tests/Graph.antt =====
-- The operations of src/radixgraph.cpp by vertex ID, on a graph of one vertex.
use radix_graph.Base.{ℕ, ◌%◌, ◌≡◌, refl, true, false, some, [], ◌∷◌}
use radix_graph.Bitmap.Segmented.{SegmentedBitmap}
use radix_graph.Graph.{Graph, get_internal_id, get_external_id, live_vertex, retrieve}
use radix_graph.Graph.Laws.{get_external_id-get_internal_id}
use radix_graph.Sort as SortIndex
use radix_graph.Sort.{Sort, retrieve_vertex, root_of, child_index, new_vertex}
use radix_graph.Sort.Config.{prefix_sums, prune}
use radix_graph.Sort.Insertion.{retrieve_vertex-Retrieved}
use radix_graph.Sort.Laws.{IsValid, modulus}
use radix_graph.Sort.Trie.{fresh}
use radix_graph.Tests.Edges.{Weight_ℕ, Bitmap_zeroed, empty}
use radix_graph.Tests.Vertices.{stale, info, tree, tree-IsValid}

abbrev graph : Graph ℕ ℕ SegmentedBitmap
graph = record {
  vertex_index = (retrieve_vertex stale info tree 13 true).0;
  bitmap = empty ∷ [];
  is_sorted = false;
  expand_rate = 2;
  num_threads = 1;
  info = info;
}

graph-IsValid : IsValid graph.vertex_index
graph-IsValid = (retrieve_vertex-Retrieved stale info tree tree-IsValid 13).1.valid

-- The tree tells eight IDs apart, so that 5 finds the vertex of 13.
internal_id_five : (get_internal_id stale graph 5).1 ≡ some 0
unfolding get_internal_id live_vertex retrieve retrieve_vertex SortIndex.new prune prefix_sums
    root_of child_index fresh new_vertex SortIndex.Trie.insert SortIndex.Trie.retrieve
internal_id_five = refl

external_id_example :
    get_external_id graph 0 % modulus graph.vertex_index ≡ 5 % modulus graph.vertex_index
external_id_example = get_external_id-get_internal_id stale graph graph-IsValid 5 0 internal_id_five
