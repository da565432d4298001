-- ===== src/Tests/Bfs.antt =====
-- The search of src/GAPBS/bfs.cc on a graph of two vertices with an edge each way.
use radix_graph.Base.{
  ℕ, zero, suc, ◌+◌, ◌≤◌, ◌<◌, ◌≡◌, refl, ap, ◌∙◌, sym, subst, Bool, true, false, ◌||◌, Option,
  none, some, List, [], ◌∷◌, ◌++◌, length, arith, ◌==◌, ◌+ℤ◌, ltb,
}
use radix_graph.Bitmap.Segmented.{SegmentedBitmap}
use radix_graph.Bitmap.Segmented.Valid as SegmentedValid
use radix_graph.Edges.{Vertex, new_array}
use radix_graph.Edges.Insert as EdgeInsert
use radix_graph.Edges.Insert.{stamp, write_log, reserve, reserve_loop}
use radix_graph.Edges.View.{current, last_log}
use radix_graph.Graph.{
  Graph, insert_edge, log_edge, insert_at, insert_versions, retrieve, deleted_at,
}
use radix_graph.Graph.Valid.{edge, newest}
use radix_graph.Graph.Edges.{EdgeSet, insert_edge-EdgeSet}
use radix_graph.Graph.Maintenance as Maintenance
use radix_graph.Sort as SortIndex
use radix_graph.Sort.{retrieve_vertex, root_of, child_index, new_vertex}
use radix_graph.Sort.Config.{prefix_sums, prune}
use radix_graph.Sort.Laws.{lookup}
use radix_graph.Sort.Trie.{fresh, find}
use radix_graph.Graph.Reads.{seen_edge}
use radix_graph.Reader.Laws.{has_edge}
use radix_graph.Reader.{by_offset}
use radix_graph.Reader.Offset.{IsReady, in_table, next_at}
use radix_graph.Bfs.{dobfs}
use radix_graph.Bfs.Stores.{Queue, QueueLaws, Front, FrontLaws}
use radix_graph.Bfs.Parents.{Found}
use radix_graph.Bfs.OnGraph.{dobfs-Found}
use radix_graph.Tests.Edges.{Weight_ℕ, Bitmap_zeroed, laws, empty}
use radix_graph.Tests.Vertices.{stale}
use radix_graph.Tests.Updates.{scale, scale_wide, one_edge, one_edge_set, result}

-- The entries of the window, those behind it, and how many there were.
abbrev Entries : Type 0
Entries = List ℕ × List ℕ × ℕ

abbrev entries : Queue Entries
entries = record {
  new = λ n. ([], [], 0);
  push_back = λ q v. (q.0, q.1 ++ v ∷ [], q.2 + 1);
  slide_window = λ q. (q.1, [], q.2);
  window = λ q. q.0;
}

entries-QueueLaws : (n : ℕ) → QueueLaws entries n
entries-QueueLaws n = record {
  pending = λ q. q.1;
  pushed = λ q. q.2;
  empty = (refl, refl, refl);
  push = λ q v h. (refl, refl, refl);
  slide = λ q. (refl, refl, refl);
}

abbrev bits : Front (ℕ → Bool)
bits = record {
  new = λ n q. false;
  reset = λ f q. false;
  set_bit = λ f p q. (p == q) || f q;
  get_bit = λ f q. f q;
}

bits-FrontLaws : (n : ℕ) → FrontLaws bits n
bits-FrontLaws n = record { get_reset = λ f q h. refl; get_set = λ f p q h k. refl }

no_edge_back : edge one_edge.vertex_index 6 13 ≡ none
unfolding Maintenance.new insert_edge retrieve retrieve_vertex SortIndex.new prune prefix_sums
    root_of child_index fresh new_vertex SortIndex.Trie.insert SortIndex.Trie.retrieve log_edge
    insert_at insert_versions EdgeInsert.insert reserve reserve_loop write_log stamp new_array ◌+ℤ◌
    find current last_log
no_edge_back = refl

-- The graph with the edges 13 to 6 and back.
abbrev pub both : Graph ℕ ℕ SegmentedBitmap
both = result (insert_edge empty scale stale 1 one_edge 6 13 7)

pub both_set : EdgeSet SegmentedValid.IsValid empty 1 one_edge 6 13 7 both
both_set =
    let (h, run, set) =
      insert_edge-EdgeSet laws empty scale scale_wide stale 1 one_edge 6 13 7 one_edge_set.valid
        no_edge_back refl in
    subst (EdgeSet SegmentedValid.IsValid empty 1 one_edge 6 13 7) (sym (ap result run)) set

abbrev pub vs : List (Vertex ℕ)
vs = both.vertex_index.vertex_table

abbrev pub latest : ℕ
latest = 2147483647

not_zero : (v : ℕ) → (0 == suc (suc v)) ≡ false
not_zero v = ground arith

not_one : (v : ℕ) → (1 == suc (suc v)) ≡ false
not_one v = ground arith

outside : (v : ℕ) → ltb (suc (suc v)) 2 ≡ false
outside v = ground arith

record Runs : Type 0 where
  size : length vs ≡ 2
  source : lookup both.vertex_index 13 ≡ some 0
  first : (newest (in_table vs 0)).snapshot_timestamp ≡ 0
  second : (newest (in_table vs 1)).snapshot_timestamp ≡ 0
  unsorted : both.is_sorted ≡ false
  symmetric : (u v : ℕ) → next_at vs latest u v ≡ next_at vs latest v u

runs : Runs
unfolding Maintenance.new insert_edge retrieve retrieve_vertex SortIndex.new prune prefix_sums
    root_of child_index fresh new_vertex SortIndex.Trie.insert SortIndex.Trie.retrieve log_edge
    insert_at insert_versions EdgeInsert.insert reserve reserve_loop write_log stamp new_array ◌+ℤ◌
    find deleted_at current last_log
runs = record {
  size = refl;
  source = refl;
  first = refl;
  second = refl;
  unsorted = refl;
  symmetric = both_ways;
}
  where
    both_ways : (u v : ℕ) → next_at vs latest u v ≡ next_at vs latest v u
    both_ways zero zero = refl
    both_ways zero (suc zero) = refl
    both_ways (suc zero) zero = refl
    both_ways (suc zero) (suc zero) = refl
    both_ways zero (suc (suc v)) = rw (not_one v, outside v)
    both_ways (suc zero) (suc (suc v)) = rw (not_zero v, outside v)
    both_ways (suc (suc u)) zero = rw (not_one u, outside u)
    both_ways (suc (suc u)) (suc zero) = rw (not_zero u, outside u)
    both_ways (suc (suc u)) (suc (suc v)) = rw (outside u, outside v)

pub snapshots : (p : ℕ) → p < length vs → (newest (in_table vs p)).snapshot_timestamp ≤ latest
snapshots zero h = rw runs.first (omega arith)
snapshots (suc zero) h = rw runs.second (omega arith)
snapshots (suc (suc p)) h = absurd (omega (arith, h, runs.size))

dobfs_example :
    (h : Graph ℕ ℕ SegmentedBitmap) × (parent : List (Option ℕ)) × (dobfs
        (by_offset empty stale 1 latest)
        entries
        bits
        (length vs)
        15
        18
        (suc (length vs))
        both
        13
        2
        none
      ≡ some (h, parent))
    × IsReady SegmentedValid.IsValid empty 1 vs both.is_sorted h
    × Found (next_at vs latest) 0 (length vs) parent
dobfs_example =
    dobfs-Found laws empty stale 1 latest entries bits 15 18 both both_set.valid 13 0 runs.source
      (omega arith) (omega arith) snapshots runs.symmetric (entries-QueueLaws (length vs))
      (bits-FrontLaws (length vs)) 2 none

pub both_unsorted : both.is_sorted ≡ true → ⊥
both_unsorted e = false_ne_true (sym runs.unsorted ∙ e)
  where
    false_ne_true : false ≡ true → ⊥
    false_ne_true e = cc

pub edges_below :
    (p w : ℕ) → p < length vs → has_edge (seen_edge (in_table vs p) latest w) ≡ true → w < 2
unfolding Maintenance.new insert_edge retrieve retrieve_vertex SortIndex.new prune prefix_sums
    root_of child_index fresh new_vertex SortIndex.Trie.insert SortIndex.Trie.retrieve log_edge
    insert_at insert_versions EdgeInsert.insert reserve reserve_loop write_log stamp new_array ◌+ℤ◌
    find deleted_at current last_log
edges_below p zero lt e = omega arith
edges_below p (suc zero) lt e = omega arith
edges_below zero (suc (suc w)) lt e = absurd (false_ne_true (rw (not_one w) at e))
  where
    false_ne_true : false ≡ true → ⊥
    false_ne_true e = cc
edges_below (suc zero) (suc (suc w)) lt e = absurd (false_ne_true (rw (not_zero w) at e))
  where
    false_ne_true : false ≡ true → ⊥
    false_ne_true e = cc
edges_below (suc (suc p)) (suc (suc w)) lt e = absurd (omega (arith, lt, runs.size))
