-- ===== src/Tests/Updates.antt =====
-- The operations of src/radixgraph.cpp on a small graph: it is made, gets an edge, and is changed.
use radix_graph.Base.{
  ℕ, ◌+◌, ◌*◌, ◌%◌, ◌≤◌, ◌<◌, ◌≡◌, refl, ap, ◌∙◌, sym, subst, Bool, true, false, Option, none, some,
  List, [], ◌∷◌, length, arith, ==_refl, inl, inr, pos, ◌+ℤ◌,
}
use radix_graph.Bitmap.Segmented.{SegmentedBitmap}
use radix_graph.Bitmap.Segmented.Valid as SegmentedValid
use radix_graph.Edges.{WeightedEdge, new_array}
use radix_graph.Edges.Insert as EdgeInsert
use radix_graph.Edges.Insert.{stamp, write_log, reserve, reserve_loop}
use radix_graph.Edges.View.{Shows}
use radix_graph.Graph.{
  Graph, vertex_at, insert_edge, update_edge, delete_edge, change_edge, log_edge, insert_at,
  insert_versions, retrieve, get_neighbours, get_neighbours_by_offset, deleted_at,
}
use radix_graph.Graph.Valid.{IsValid, edge, newest}
use radix_graph.Graph.Edges.{EdgeSet, insert_edge-EdgeSet}
use radix_graph.Graph.Changes.{live, change_edge_missing, update_edge-EdgeSet, delete_edge-EdgeSet}
use radix_graph.Graph.Reads.{
  Kept, seen_edge, get_neighbours-Shows, get_neighbours_by_offset-Shows, get_neighbours_missing,
}
use radix_graph.Graph.Maintenance as Maintenance
use radix_graph.Graph.Maintenance.Laws.{Snapshots, create_snapshots-Snapshots}
use radix_graph.Tests.Sorting.{insertion}
use radix_graph.Graph.Maintenance.Start.{new-IsValid_empty, set_num_threads-IsValid}
use radix_graph.Sort as SortIndex
use radix_graph.Sort.{Sort, retrieve_vertex, root_of, child_index, new_vertex}
use radix_graph.Sort.Config.{prefix_sums, prune}
use radix_graph.Sort.Laws.{lookup, modulus}
use radix_graph.Sort.Trie.{fresh, find}
use radix_graph.Tests.Edges.{Weight_ℕ, Bitmap_zeroed, laws, empty, empty-IsClean}
use radix_graph.Tests.Vertices.{stale, info, some_width}

abbrev widths : List ℕ
widths = 2 ∷ 0 ∷ 1 ∷ []

abbrev pub scale : ℕ → ℕ → ℕ → ℕ
scale rate deg extra = rate * deg + deg + extra

pub scale_wide : (rate deg extra : ℕ) → deg + extra ≤ scale rate deg extra
scale_wide rate deg extra = grind arith

abbrev start : Graph ℕ ℕ SegmentedBitmap
start = Maintenance.new empty 2 info widths 4

start_example :
    IsValid SegmentedValid.IsValid empty 1 start × ((a b : ℕ) → edge start.vertex_index a b ≡ none)
start_example = new-IsValid_empty empty empty-IsClean 2 info widths 4 1 some_width (omega arith)

start-IsValid : IsValid SegmentedValid.IsValid empty 1 start
start-IsValid = (new-IsValid_empty empty empty-IsClean 2 info widths 4 1 some_width (omega arith)).0

start_bare : (a b : ℕ) → edge start.vertex_index a b ≡ none
start_bare =
    (new-IsValid_empty {IsClear = SegmentedValid.IsValid} empty empty-IsClean 2 info widths 4 1
      some_width (omega arith)).1

insert_edge_example :
    (h : Graph ℕ ℕ SegmentedBitmap) × (insert_edge empty scale stale 1 start 13 6 7
      ≡ some (h, true))
    × EdgeSet SegmentedValid.IsValid empty 1 start 13 6 7 h
insert_edge_example =
    insert_edge-EdgeSet laws empty scale scale_wide stale 1 start 13 6 7 start-IsValid
      (start_bare 13 6) refl

abbrev pub result : Option (Graph ℕ ℕ SegmentedBitmap × Bool) → Graph ℕ ℕ SegmentedBitmap
result none = start
result (some (h, done)) = h

-- The graph after that insertion.
abbrev pub one_edge : Graph ℕ ℕ SegmentedBitmap
one_edge = result (insert_edge empty scale stale 1 start 13 6 7)

pub one_edge_set : EdgeSet SegmentedValid.IsValid empty 1 start 13 6 7 one_edge
one_edge_set =
    let (h, run, set) =
      insert_edge-EdgeSet laws empty scale scale_wide stale 1 start 13 6 7 start-IsValid
        (start_bare 13 6) refl in
    subst (EdgeSet SegmentedValid.IsValid empty 1 start 13 6 7) (sym (ap result run)) set

one_edge_there : edge one_edge.vertex_index 13 6 ≡ some 7
one_edge_there =
    one_edge_set.edges 13 6
    ∙ rw (==_refl (13 % modulus start.vertex_index), ==_refl (6 % modulus start.vertex_index)) refl

-- What that graph holds, by evaluation.
record Runs : Type 0 where
  src_live : live one_edge.vertex_index 13 ≡ some 0
  des_live : live one_edge.vertex_index 6 ≡ some 1
  missing_vertex : live one_edge.vertex_index 4 ≡ none
  src_found : lookup one_edge.vertex_index 13 ≡ some 0
  src_kept : deleted_at (vertex_at one_edge.vertex_index 0).del_time 5 ≡ false
  src_snapshot : (newest (vertex_at one_edge.vertex_index 0)).snapshot_timestamp ≡ 0
  no_vertex_found : lookup one_edge.vertex_index 4 ≡ none

runs : Runs
unfolding Maintenance.new insert_edge retrieve retrieve_vertex SortIndex.new prune prefix_sums
    root_of child_index fresh new_vertex SortIndex.Trie.insert SortIndex.Trie.retrieve log_edge
    insert_at insert_versions EdgeInsert.insert reserve reserve_loop write_log stamp new_array ◌+ℤ◌
    find deleted_at
runs = record {
  src_live = refl;
  des_live = refl;
  missing_vertex = refl;
  src_found = refl;
  src_kept = refl;
  src_snapshot = refl;
  no_vertex_found = refl;
}

update_edge_example :
    (h : Graph ℕ ℕ SegmentedBitmap) × (update_edge empty scale stale 1 one_edge 13 6 9
      ≡ some (h, true))
    × EdgeSet SegmentedValid.IsValid empty 1 one_edge 13 6 9 h
update_edge_example =
    update_edge-EdgeSet laws empty scale scale_wide stale 1 one_edge one_edge_set.valid 13 6 0 1
      runs.src_live runs.des_live 7 one_edge_there 9 refl

delete_edge_example :
    (h : Graph ℕ ℕ SegmentedBitmap) × (delete_edge empty scale stale 1 one_edge 13 6
      ≡ some (h, true))
    × EdgeSet SegmentedValid.IsValid empty 1 one_edge 13 6 0 h
delete_edge_example =
    delete_edge-EdgeSet laws empty scale scale_wide stale 1 one_edge one_edge_set.valid 13 6 0 1
      runs.src_live runs.des_live 7 one_edge_there

missing_example :
    (h : Graph ℕ ℕ SegmentedBitmap) × (change_edge empty scale stale 1 one_edge 13 4 9 (pos 0)
      ≡ some (h, false))
    × IsValid SegmentedValid.IsValid empty 1 h
    × ((a b : ℕ) → edge h.vertex_index a b ≡ edge one_edge.vertex_index a b)
missing_example =
    change_edge_missing laws empty scale scale_wide stale 1 one_edge one_edge_set.valid 13 4 9
      (pos 0) (inr runs.missing_vertex)

get_neighbours_example :
    (h : Graph ℕ ℕ SegmentedBitmap) × (out : List (WeightedEdge ℕ)) × (get_neighbours empty stale 1
        one_edge 13 5
      ≡ (h, some out))
    × Shows (seen_edge (vertex_at one_edge.vertex_index 0) 5) out
    × Kept SegmentedValid.IsValid empty 1 one_edge h
get_neighbours_example =
    get_neighbours-Shows laws empty stale 1 one_edge one_edge_set.valid 0 5 runs.src_kept
      (omega (arith, runs.src_snapshot)) 13 runs.src_found

offset_example :
    (h : Graph ℕ ℕ SegmentedBitmap) × (out : List (WeightedEdge ℕ)) × (get_neighbours_by_offset
        empty 1 one_edge 0 5
      ≡ (h, some out))
    × Shows (seen_edge (vertex_at one_edge.vertex_index 0) 5) out
    × Kept SegmentedValid.IsValid empty 1 one_edge h
offset_example =
    get_neighbours_by_offset-Shows laws empty stale 1 one_edge one_edge_set.valid 0 5 runs.src_kept
      (omega (arith, runs.src_snapshot))
      (one_edge_set.valid.table.index.owned 13 0 runs.src_found).0

read_missing_example :
    (h : Graph ℕ ℕ SegmentedBitmap) × (get_neighbours empty stale 1 one_edge 4 5 ≡ (h, none))
    × Kept SegmentedValid.IsValid empty 1 one_edge h
read_missing_example =
    get_neighbours_missing laws empty stale 1 one_edge one_edge_set.valid 4 5
      (inl runs.no_vertex_found)

compacted_graph_example :
    (h : Graph ℕ ℕ SegmentedBitmap) × (Maintenance.create_snapshots empty scale stale insertion 1
        true false one_edge
      ≡ some h)
    × Snapshots SegmentedValid.IsValid empty 1 true one_edge 0
        (length one_edge.vertex_index.vertex_table)
        h
    × (h.is_sorted ≡ true)
compacted_graph_example =
    create_snapshots-Snapshots laws empty scale scale_wide stale insertion 1 true false one_edge
      one_edge_set.valid

each_thread : (k : ℕ) → k < start.num_threads → IsValid SegmentedValid.IsValid empty k start
unfolding Maintenance.new
each_thread k h = (new-IsValid_empty empty empty-IsClean 2 info widths 4 k some_width h).0

threads_example :
    IsValid SegmentedValid.IsValid empty 7 (Maintenance.set_num_threads empty start 8)
    × ((a b : ℕ)
        → edge (Maintenance.set_num_threads empty start 8).vertex_index a b
          ≡ edge start.vertex_index a b)
    × ((Maintenance.set_num_threads empty start 8).num_threads ≡ 8)
threads_example =
    set_num_threads-IsValid empty empty-IsClean start 8 7 each_thread start-IsValid.table
      (omega arith)
