-- ===== src/Tests/Components.antt =====
-- The components of the graph of the search, whose vertices have the IDs 13 and 6, and a run on a
-- path of vertices.
use radix_graph.Base.{
  ℕ, zero, suc, ◌<◌, ◌≡◌, refl, Bool, true, false, ◌&&◌, some, none, List, [], ◌∷◌, arith,
}
use radix_graph.Bitmap.Segmented.{SegmentedBitmap}
use radix_graph.Bitmap.Segmented.Valid as SegmentedValid
use radix_graph.Sort.Laws.{lookup}
use radix_graph.Graph.{Graph}
use radix_graph.Reader.{Reader, by_id}
use radix_graph.Reader.ById.{IsReady, next_by_id-seen_edge}
use radix_graph.Components.{
  init_comp, shiloach_vishkin, component_loop, hook_from, hook_all, hook, compress_from,
  compress_at,
}
use radix_graph.Components.Labels.{total}
use radix_graph.Components.Correct.{AreComponents}
use radix_graph.Components.OnGraph.{joins, shiloach_vishkin-AreComponents}
use radix_graph.Tests.Edges.{Weight_ℕ, Bitmap_zeroed, laws, empty}
use radix_graph.Tests.Vertices.{stale}
use radix_graph.Tests.Bfs.{both, both_set, vs, latest, snapshots, edges_below}

joined_below : (u w : ℕ) → joins latest both 14 u w ≡ true → w < 14
joined_below u w e =
    let (p, there, edge) =
      next_by_id-seen_edge (lookup both.vertex_index) vs latest u w (second _ _ e) in
    let lt : w < 2 = edges_below p w (both_set.valid.table.index.owned u p there).0 edge in
    below w lt
  where
    second : (b c : Bool) → (b && c) ≡ true → c ≡ true
    second true c e = e
    second false c e = absurd (cc)

    below : (w : ℕ) → w < 2 → w < 14
    below w lt = omega (arith, lt)

components_example :
    (h : Graph ℕ ℕ SegmentedBitmap) × (comp : List ℕ) × (shiloach_vishkin
        (by_id empty stale 1 latest)
        14
        (suc (total (init_comp 14 0)))
        both
      ≡ some (h, comp))
    × IsReady SegmentedValid.IsValid empty 1 (lookup both.vertex_index) vs h
    × AreComponents (joins latest both 14) 14 comp
components_example =
    shiloach_vishkin-AreComponents laws empty stale 1 latest both both_set.valid 14 (omega arith)
      snapshots joined_below

abbrev path : ℕ → List ℕ
path zero = 2 ∷ []
path (suc zero) = []
path (suc (suc zero)) = 0 ∷ 3 ∷ []
path (suc (suc (suc u))) = []

abbrev lists : Reader Unit
lists = record {
  find = λ g id. (g, none);
  read = λ g u. (g, path u);
  degree = λ g u. 0;
  is_sorted = λ g. false;
}

path_components : shiloach_vishkin lists 4 7 tt ≡ some (tt, 0 ∷ 1 ∷ 0 ∷ 0 ∷ [])
unfolding shiloach_vishkin component_loop hook_from hook_all hook compress_from compress_at
path_components = refl
