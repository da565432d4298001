-- ===== src/Graph/Edges.antt =====
-- `InsertEdge`, `UpdateEdge` and `DeleteEdge` of src/radixgraph.cpp as changes of one edge.
use mathlib.Core.Option.{some-injective}
use mathlib.Core.Path.{ap₂}
use radix_graph.Base.{
  ℕ, ◌+◌, ◌%◌, ◌^◌, ◌≤◌, ◌≡◌, refl, ap, ◌∙◌, sym, Bool, true, false, ◌&&◌, Option, none, some,
  length, if◌then◌else◌, ◌==◌, Bool-cases, inl, inr, ==→≡, ==→≢, ==_refl, ==_ne, ℤ, pos,
}
use radix_graph.Bitmap.Interface.{Bitmap, BitmapLaws}
use radix_graph.Edges.{Weight}
use radix_graph.Edges.Insert.Laws.{logged, change}
use radix_graph.Sort.{Sort, retrieve_vertex}
use radix_graph.Sort.Digits.{sum_take}
use radix_graph.Sort.Laws as SortLaws
use radix_graph.Sort.Laws.{lookup, modulus, no_vertex, retrieve_vertex_search}
use radix_graph.Graph.{Graph, vertex_at, log_edge, insert_edge, retrieve}
use radix_graph.Graph.Valid.{IsValid, out_edge, edge, edge_in}
use radix_graph.Graph.Retrieval.{Found, retrieve_vertex-Found}
use radix_graph.Graph.Update.{Changed, insert_at-Changed}

-- The outcome of an update: the edge from a to b has weight w, or is not there if w is 0, and no other
-- edge has changed.
pub record EdgeSet {R W B : Type 0} ⦃weight : Weight W⦄ ⦃bitmap : Bitmap B⦄ (IsClear : B → Type 0)
    (no_bits : B) (thread : ℕ) (g : Graph R W B) (src des : ℕ) (w : W) (h : Graph R W B)
    : Type 0 where
  pub valid : IsValid IsClear no_bits thread h
  pub edges :
      (a b : ℕ)
      → edge h.vertex_index a b ≡ (
          if (a % modulus g.vertex_index == src % modulus g.vertex_index)
            && (b % modulus g.vertex_index == des % modulus g.vertex_index)
          then logged w
          else edge g.vertex_index a b)

and_false : (b : Bool) → (b && false) ≡ false
and_false true = refl
and_false false = refl

module _ {R W B : Type 0} ⦃weight : Weight W⦄ ⦃bitmap : Bitmap B⦄ {IsClear : B → Type 0}
    (no_bits : B) (thread : ℕ) where
  -- A log at the vertex of src for the vertex of des sets the edge between them.
  module _ (g : Graph R W B) (v : IsValid IsClear no_bits thread g) (src des p q : ℕ) (w : W)
      (src_at : lookup g.vertex_index src ≡ some p) (des_at : lookup g.vertex_index des ≡ some q)
      (h : Graph R W B) (c : Changed IsClear no_bits thread g p q w h) where
    abbrev t : Sort W
    t = g.vertex_index

    missing_unlike :
        (a id m : ℕ)
        → lookup t a ≡ none
        → lookup t id ≡ some m
        → (a % modulus t == id % modulus t) ≡ false
    missing_unlike a id m a_at id_at =
        ==_ne _ _
          λ e. none_ne_some (sym a_at ∙ SortLaws.lookup-residue t v.table.index a id e ∙ id_at)
      where
        none_ne_some : {k : ℕ} → none ≡ some k → ⊥
        none_ne_some k = cc

    same_place :
        (a id k m : ℕ)
        → lookup t a ≡ some k
        → lookup t id ≡ some m
        → (m == k) ≡ (a % modulus t == id % modulus t)
    same_place a id k m a_at id_at = elim (Bool-cases (a % modulus t == id % modulus t)) [
      | inl yes_same ↦
          let found = SortLaws.lookup-residue t v.table.index a id (==→≡ _ _ yes_same) in
          let e : k ≡ m = some-injective k m (sym a_at ∙ found ∙ id_at) in
          rw (yes_same, e) (==_refl m)
      | inr apart ↦ rw apart (
          ==_ne m k λ e.
            ==→≢ _ _ apart
              (SortLaws.residue-lookup t v.table.index a id k a_at (id_at ∙ ap some e)))
    ]

    set_edge :
        (o o' : Option ℕ) (a b : ℕ)
        → lookup t a ≡ o
        → lookup t b ≡ o'
        → edge_in h.vertex_index.vertex_table o o' ≡ (
            if (a % modulus t == src % modulus t) && (b % modulus t == des % modulus t)
            then logged w
            else edge_in t.vertex_table o o')
    set_edge none o' a b ea eb = rw (missing_unlike a src p ea src_at) refl
    set_edge (some i) none a b ea eb =
        rw (missing_unlike b des q eb des_at, and_false (a % modulus t == src % modulus t)) refl
    set_edge (some i) (some j) a b ea eb =
        rw (← same_place a src i p ea src_at, ← same_place b des j q eb des_at) (c.out i j)

    pub EdgeSet-Changed : EdgeSet IsClear no_bits thread g src des w h
    EdgeSet-Changed = record {
      valid = c.valid;
      edges = λ a b.
          ap (λ o. edge_in h.vertex_index.vertex_table o (lookup h.vertex_index b)) (c.lookups a)
          ∙ ap (edge_in h.vertex_index.vertex_table (lookup t a)) (c.lookups b)
          ∙ set_edge (lookup t a) (lookup t b) a b refl refl;
    }

-- The effect of a change on a graph with the same edges and the same tree widths.
module _ {R W B : Type 0} ⦃weight : Weight W⦄ ⦃bitmap : Bitmap B⦄ {IsClear : B → Type 0}
    (laws : BitmapLaws bitmap IsClear) (no_bits : B) (scale : R → ℕ → ℕ → ℕ)
    (wide : (r : R) (deg extra : ℕ) → deg + extra ≤ scale r deg extra) (stale : ℕ → ℕ)
    (thread : ℕ) where
  pub EdgeSet-same :
      (g g' h : Graph R W B) (src des : ℕ) (w : W)
      → g'.vertex_index.num_bits ≡ g.vertex_index.num_bits
      → ((a b : ℕ) → edge g'.vertex_index a b ≡ edge g.vertex_index a b)
      → EdgeSet IsClear no_bits thread g' src des w h
      → EdgeSet IsClear no_bits thread g src des w h
  EdgeSet-same g g' h src des w widths same e =
      let m : modulus g'.vertex_index ≡ modulus g.vertex_index =
        ap (λ bs. 2 ^ sum_take bs (length bs)) widths in
      record {
        valid = e.valid;
        edges = λ a b.
            e.edges a b
            ∙ ap₂ (λ k o. if (a % k == src % k) && (b % k == des % k) then logged w else o) m
                (same a b);
      }

  pub log_edge-EdgeSet :
      (g : Graph R W B) (src des p q : ℕ) (w : W) (delta_deg : ℤ)
      → IsValid IsClear no_bits thread g
      → lookup g.vertex_index src ≡ some p
      → lookup g.vertex_index des ≡ some q
      → change (out_edge (vertex_at g.vertex_index p)) q w ≡ delta_deg
      → (h : Graph R W B) × (log_edge no_bits scale stale thread g p q w delta_deg ≡ some (h, true))
        × EdgeSet IsClear no_bits thread g src des w h
  unfolding log_edge
  log_edge-EdgeSet g src des p q w delta_deg v src_at des_at delta =
      let i = v.table.index in
      let inside = (i.owned src p src_at).0 in
      let known = (i.owned des q des_at).0 in
      let (h, run, done) =
        insert_at-Changed laws no_bits scale wide stale thread g v p q w inside known in
      (
        h,
        rw (i.placed q known, ← delta, run) refl,
        EdgeSet-Changed no_bits thread g v src des p q w src_at des_at h done,
      )

  -- The vertices that `InsertEdge` finds or makes.
  retrieved :
      (g : Graph R W B) (id : ℕ)
      → IsValid IsClear no_bits thread g
      → (p : ℕ) × (u : Sort W) × (retrieve stale g id true
          ≡ (record g { vertex_index = u }, some p))
        × Found g.vertex_index id p u
        × IsValid IsClear no_bits thread (record g { vertex_index = u })
  unfolding retrieve
  retrieved g id v =
      let (p, run, found) = retrieve_vertex-Found stale g.info g.vertex_index id v.table in
      (
        p,
        (retrieve_vertex stale g.info g.vertex_index id true).0,
        rw run refl,
        found,
        record { table = found.valid; has_bits = v.has_bits; clean = v.clean },
      )

  -- `InsertEdge` of an edge that is not there, with a weight that is not 0, on a graph in order,
  -- with bitmaps that obey the bitmap laws and an expansion that leaves the spare places: it
  -- succeeds, makes the vertices that are missing, and then the edge between the two IDs, and
  -- those the tree does not tell apart from them, has that weight, every other edge is as before,
  -- and the graph is in order again.
  pub insert_edge-EdgeSet :
      (g : Graph R W B) (src des : ℕ) (w : W)
      → IsValid IsClear no_bits thread g
      → edge g.vertex_index src des ≡ none
      → weight.is_zero w ≡ false
      → (h : Graph R W B) × (insert_edge no_bits scale stale thread g src des w ≡ some (h, true))
        × EdgeSet IsClear no_bits thread g src des w h
  unfolding insert_edge
  insert_edge-EdgeSet g src des w v absent positive =
      let (p, t1, run1, found1, v1) = retrieved g src v in
      let g1 : Graph R W B = record g { vertex_index = t1 } in
      let (q, t2, run2, found2, v2) = retrieved g1 des v1 in
      let g2 : Graph R W B = record g { vertex_index = t2 } in
      let src_at : lookup t2 src ≡ some p = found2.kept src p found1.found in
      let same : (a b : ℕ) → edge t2 a b ≡ edge g.vertex_index a b =
        λ a b. found2.same a b ∙ found1.same a b in
      let gone : out_edge (vertex_at t2 p) q ≡ none =
        sym (ap₂ (edge_in t2.vertex_table) src_at found2.found) ∙ same src des ∙ absent in
      let (h, run, done) =
        log_edge-EdgeSet g2 src des p q w (pos 1) v2 src_at found2.found
          (rw (gone, positive) refl) in
      (
        h,
        rw (run1, run2) run,
        EdgeSet-same g g2 h src des w (found2.widths ∙ found1.widths) same done,
      )
