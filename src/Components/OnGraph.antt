-- ===== src/Components/OnGraph.antt =====
-- `ShiloachVishkin` of src/GAPBS/cc_sv.cc on a graph of src/radixgraph.cpp. The code takes the
-- numbers of its loop as IDs for `RetrieveVertex`, and as the places of labels, while a neighbour
-- comes as an internal ID.
use radix_graph.Base.{
  ℕ, suc, ◌≤◌, ◌<◌, ◌≡◌, refl, Bool, true, false, ◌&&◌, some, List, length, ltb, arith,
}
use radix_graph.Bitmap.Interface.{Bitmap, BitmapLaws}
use radix_graph.Edges.{Weight}
use radix_graph.Sort.Laws.{lookup}
use radix_graph.Graph.{Graph}
use radix_graph.Graph.Valid.{IsValid, newest}
use radix_graph.Reader.{by_id}
use radix_graph.Reader.Offset.{in_table}
use radix_graph.Reader.ById.{IsReady, next_by_id, by_id-ReaderLaws}
use radix_graph.Components.{init_comp, shiloach_vishkin}
use radix_graph.Components.Labels.{total}
use radix_graph.Components.Correct.{AreComponents, shiloach_vishkin-AreComponents_reads}

module _ {R W B : Type 0} ⦃weight : Weight W⦄ (t : ℕ) (g : Graph R W B) (num_nodes : ℕ) where
  -- A number below the bound, as an ID, and an internal ID to which it has an edge.
  abbrev pub joins : ℕ → ℕ → Bool
  joins u w =
      ltb u num_nodes && next_by_id (lookup g.vertex_index) g.vertex_index.vertex_table t u w

module _ {R W B : Type 0} ⦃weight : Weight W⦄ ⦃bitmap : Bitmap B⦄ {IsClear : B → Type 0}
    (laws : BitmapLaws bitmap IsClear) (no_bits : B) (stale : ℕ → ℕ) (thread t : ℕ)
    (g : Graph R W B) (v : IsValid IsClear no_bits thread g) (num_nodes : ℕ) where
  -- `ShiloachVishkin` on a graph in order, for at most 2^32 vertices, with bitmaps that obey their
  -- laws, a time of the reads at or after each newest snapshot, and every neighbour that a number
  -- below the bound, taken as an ID, is read to have below the bound: one round more than the sum
  -- of the numbers is enough fuel, and it ends. Two vertices get one label just when a chain of
  -- edges from such an ID to an internal ID, in whatever direction, joins them; the label of a
  -- vertex is joined with it, and it is the least of all that are. The graph is in order with the
  -- same vertices.
  pub shiloach_vishkin-AreComponents :
      num_nodes ≤ 4294967296
      → ((p : ℕ)
          → p < length g.vertex_index.vertex_table
          → (newest (in_table g.vertex_index.vertex_table p)).snapshot_timestamp ≤ t)
      → ((u w : ℕ) → joins t g num_nodes u w ≡ true → w < num_nodes)
      → (h : Graph R W B) × (comp : List ℕ) × (shiloach_vishkin
            (by_id no_bits stale thread t)
            num_nodes
            (suc (total (init_comp num_nodes 0)))
            g
          ≡ some (h, comp))
        × IsReady IsClear no_bits thread (lookup g.vertex_index) g.vertex_index.vertex_table h
        × AreComponents (joins t g num_nodes) num_nodes comp
  shiloach_vishkin-AreComponents small seen inside =
      let vs = g.vertex_index.vertex_table in
      let place = lookup g.vertex_index in
      shiloach_vishkin-AreComponents_reads (by_id no_bits stale thread t) num_nodes small
        (joins t g num_nodes) (IsReady IsClear no_bits thread place vs) (next_by_id place vs t)
        (by_id-ReaderLaws laws no_bits stale thread t place vs seen)
        (λ u w lt. let below : ltb u num_nodes ≡ true = ground (arith, lt) in rw below)
        (λ u w e. (below u w e, inside u w e)) g
        (record { valid = v; table = refl; places = λ id. refl })
    where
      below : (u w : ℕ) → joins t g num_nodes u w ≡ true → u < num_nodes
      below u w e = lt_of u (first _ _ e)
        where
          first : (b c : Bool) → (b && c) ≡ true → b ≡ true
          first true c e = refl
          first false c e = e

          lt_of : (u : ℕ) → ltb u num_nodes ≡ true → u < num_nodes
          lt_of u e = ground (arith, e)
