-- ===== src/Graph/Changes.antt =====
-- `UpdateEdge` and `DeleteEdge` of src/radixgraph.cpp, on vertices that are there and on others.
use mathlib.Core.Path.{ap₂}
use radix_graph.Base.{
  ℕ, ◌+◌, ◌≤◌, ◌≡◌, ◌⊎◌, refl, ap, ◌∙◌, sym, true, false, Option, none, some, ◌>>=◌, if◌then◌else◌,
  arith, Option-cases, inl, inr, ℤ, pos, negsuc,
}
use radix_graph.Bitmap.Interface.{Bitmap, BitmapLaws}
use radix_graph.Edges.{Weight}
use radix_graph.Edges.Insert.Laws.{change}
use radix_graph.Sort.{Sort, root_of}
use radix_graph.Sort.Laws as SortLaws
use radix_graph.Sort.Laws.{lookup, retrieve_vertex_search}
use radix_graph.Graph.{
  Graph, vertex_at, present, update_edge, delete_edge, change_edge, live_vertex, retrieve,
}
use radix_graph.Graph.Valid.{TableIsValid, IsValid, out_edge, edge, edge_in}
use radix_graph.Graph.Edges.{EdgeSet, EdgeSet-same, log_edge-EdgeSet}

module _ {W : Type 0} ⦃weight : Weight W⦄ where
  -- The vertex of an ID, if there is one that is not deleted.
  abbrev pub live : Sort W → ℕ → Option ℕ
  live t id = lookup t id >>= (λ p. if present (vertex_at t p).del_time then none else some p)

  pub lookup-live : (t : Sort W) (id p : ℕ) → live t id ≡ some p → lookup t id ≡ some p
  lookup-live t id p = go (lookup t id)
    where
      go :
          (o : Option ℕ)
          → (o >>= (λ p. if present (vertex_at t p).del_time then none else some p)) ≡ some p
          → o ≡ some p
      go none h = h
      go (some q) h = ground arith

  -- A search makes the root, and nothing else.
  abbrev pub rooted : Sort W → Sort W
  rooted t = record t { root = some (root_of t) }

  pub TableIsValid-rooted : (t : Sort W) → TableIsValid t → TableIsValid (rooted t)
  unfolding root_of
  TableIsValid-rooted t v =
      let i = v.index in
      record {
        index = record {
          tree = record {
            sums = i.tree.sums;
            deep = i.tree.deep;
            some_level = i.tree.some_level;
            shape = i.tree.shape;
          };
          counted = i.counted;
          placed = i.placed;
          owned = i.owned;
        };
        vertices = v.vertices;
      }

  pub live-rooted : (t : Sort W) (id : ℕ) → live (rooted t) id ≡ live t id
  unfolding root_of
  live-rooted t id = refl

  pub lookup-rooted : (t : Sort W) (id : ℕ) → lookup (rooted t) id ≡ lookup t id
  unfolding root_of
  lookup-rooted t id = refl

  pub edge-rooted : (t : Sort W) (a b : ℕ) → edge (rooted t) a b ≡ edge t a b
  unfolding root_of
  edge-rooted t a b = refl

module _ {R W B : Type 0} ⦃weight : Weight W⦄ ⦃bitmap : Bitmap B⦄ {IsClear : B → Type 0}
    (laws : BitmapLaws bitmap IsClear) (no_bits : B) (scale : R → ℕ → ℕ → ℕ)
    (wide : (r : R) (deg extra : ℕ) → deg + extra ≤ scale r deg extra) (stale : ℕ → ℕ)
    (thread : ℕ) where
  abbrev searched : Graph R W B → Graph R W B
  searched g = record g { vertex_index = rooted g.vertex_index }

  live_vertex-live :
      (g : Graph R W B) (id : ℕ)
      → SortLaws.IsValid g.vertex_index
      → live_vertex stale g id ≡ (searched g, live g.vertex_index id)
  unfolding live_vertex retrieve
  live_vertex-live g id v = rw (retrieve_vertex_search g.vertex_index v stale g.info id) refl

  IsValid-searched :
      (g : Graph R W B)
      → IsValid IsClear no_bits thread g
      → IsValid IsClear no_bits thread (searched g)
  IsValid-searched g v = record {
    table = TableIsValid-rooted g.vertex_index v.table;
    has_bits = v.has_bits;
    clean = v.clean;
  }

  module _ (g : Graph R W B) (v : IsValid IsClear no_bits thread g) (src des : ℕ) where
    abbrev t : Sort W
    t = g.vertex_index

    first : live_vertex stale g src ≡ (searched g, live t src)
    first = live_vertex-live g src v.table.index

    second : live_vertex stale (searched g) des ≡ (searched (searched g), live t des)
    second =
        live_vertex-live (searched g) des (TableIsValid-rooted t v.table).index
        ∙ ap (λ o. (searched (searched g), o)) (live-rooted t des)

    -- `UpdateEdge` and `DeleteEdge`, on a graph in order, where one of the two vertices is missing
    -- or deleted: they return false, no edge changes, and the graph is in order.
    pub change_edge_missing :
        (w : W) (delta_deg : ℤ)
        → (live t src ≡ none) ⊎ (live t des ≡ none)
        → (h : Graph R W B) × (change_edge no_bits scale stale thread g src des w delta_deg
            ≡ some (h, false))
          × IsValid IsClear no_bits thread h
          × ((a b : ℕ) → edge h.vertex_index a b ≡ edge t a b)
    unfolding change_edge
    change_edge_missing w delta_deg (inl e) =
        (searched g, rw (first, e) refl, IsValid-searched g v, edge-rooted t)
    change_edge_missing w delta_deg (inr e) = elim (Option-cases (live t src)) [
      | inl e' ↦ (searched g, rw (first, e') refl, IsValid-searched g v, edge-rooted t)
      | inr (p, e') ↦ (
        searched (searched g),
        rw (first, e', second, e) refl,
        IsValid-searched (searched g) (IsValid-searched g v),
        λ a b. edge-rooted (rooted t) a b ∙ edge-rooted t a b,
      )
    ]

    module _ (p q : ℕ) (src_live : live t src ≡ some p) (des_live : live t des ≡ some q) where
      change_edge-EdgeSet :
          (w : W) (delta_deg : ℤ)
          → change (out_edge (vertex_at t p)) q w ≡ delta_deg
          → (h : Graph R W B) × (change_edge no_bits scale stale thread g src des w delta_deg
              ≡ some (h, true))
            × EdgeSet IsClear no_bits thread g src des w h
      unfolding change_edge
      change_edge-EdgeSet w delta_deg delta =
          let g2 = searched (searched g) in
          let v2 = IsValid-searched (searched g) (IsValid-searched g v) in
          let (h, run, done) =
            log_edge-EdgeSet laws no_bits scale wide stale thread g2 src des p q w delta_deg v2
              (at src p src_live) (at des q des_live) delta in
          (
            h,
            rw (first, src_live, second, des_live) run,
            EdgeSet-same laws no_bits scale wide stale thread g g2 h src des w refl
                (λ a b. edge-rooted (rooted t) a b ∙ edge-rooted t a b) done,
          )
        where
          at : (id k : ℕ) → live t id ≡ some k → lookup (rooted (rooted t)) id ≡ some k
          at id k e =
              lookup-live (rooted (rooted t)) id k
                (live-rooted (rooted t) id ∙ live-rooted t id ∙ e)

      module _ (old : W) (there : edge t src des ≡ some old) where
        old_edge : out_edge (vertex_at t p) q ≡ some old
        old_edge =
            sym (
              ap₂ (edge_in t.vertex_table) (lookup-live t src p src_live)
                (lookup-live t des q des_live))
            ∙ there

        -- `UpdateEdge` of an edge that is there, between vertices that are not deleted, with a
        -- weight that is not 0, on a graph in order, with bitmaps that obey the bitmap laws and an
        -- expansion that leaves the spare places: it succeeds, the edge has the new weight, every
        -- other edge is as before, and the graph is in order again.
        pub update_edge-EdgeSet :
            (w : W)
            → weight.is_zero w ≡ false
            → (h : Graph R W B) × (update_edge no_bits scale stale thread g src des w
                ≡ some (h, true))
              × EdgeSet IsClear no_bits thread g src des w h
        unfolding update_edge
        update_edge-EdgeSet w positive =
            change_edge-EdgeSet w (pos 0) (rw (old_edge, positive) refl)

        -- `DeleteEdge` of an edge that is there, between vertices that are not deleted, on a graph
        -- in order, with bitmaps that obey the bitmap laws and an expansion that leaves the spare
        -- places: it succeeds, the edge is gone, every other edge is as before, and the graph is
        -- in order again.
        pub delete_edge-EdgeSet :
            (h : Graph R W B) × (delete_edge no_bits scale stale thread g src des ≡ some (h, true))
            × EdgeSet IsClear no_bits thread g src des weight.zero_weight h
        unfolding delete_edge
        delete_edge-EdgeSet =
            change_edge-EdgeSet weight.zero_weight (negsuc 0)
              (rw (old_edge, weight.is_zero_zero) refl)
