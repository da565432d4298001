-- ===== src/Graph/Update.antt =====
-- `Insert` of src/radixgraph.cpp on one vertex of a graph that is in order.
use radix_graph.Base.{
  ℕ, ◌+◌, ◌≤◌, ◌<◌, ◌≡◌, refl, ap, ◌∙◌, sym, subst, false, ◌&&◌, Option, none, some, ◌∷◌, length,
  get_or, set, if◌then◌else◌, ◌==◌, arith, Bool-cases, inl, inr, ==→≡, ==_refl, length-set,
  get_or-set_self,
}
use radix_graph.Bitmap.Interface.{Bitmap, BitmapLaws}
use radix_graph.Edges.{Weight, Vertex}
use radix_graph.Edges.Insert.{Local}
use radix_graph.Edges.Insert.Laws.{insert-Inserted, logged, change}
use radix_graph.Sort.{Sort, root_of}
use radix_graph.Sort.Laws as SortLaws
use radix_graph.Sort.Replacement as Replacement
use radix_graph.Sort.Laws.{lookup, modulus, no_vertex}
use radix_graph.Graph.{Graph, vertex_at, insert_at, insert_versions}
use radix_graph.Graph.Valid.{
  VertexIsValid, TableIsValid, IsValid, out_edge, edge, edge_in, newest, older_than,
}

module _ {W : Type 0} ⦃weight : Weight W⦄ where
  -- A vertex is replaced by one with the same IDs.
  module _ (t : Sort W) (v : TableIsValid t) (p : ℕ) (inside : p < length t.vertex_table)
      (n : Vertex W) (node : n.node ≡ (vertex_at t p).node)
      (idx : n.idx ≡ (vertex_at t p).idx) where
    abbrev pub replaced : Sort W
    replaced = Replacement.replaced t p inside n node idx

    at_place : vertex_at replaced p ≡ n
    at_place = Replacement.at_place t p inside n node idx

    elsewhere : (q : ℕ) → (p == q) ≡ false → vertex_at replaced q ≡ vertex_at t q
    elsewhere q apart = Replacement.elsewhere t p inside n node idx q apart

    pub lookup-replaced : (j : ℕ) → lookup replaced j ≡ lookup t j
    unfolding root_of
    lookup-replaced j = refl

    index-replaced : SortLaws.IsValid replaced
    index-replaced = Replacement.IsValid-replaced t p inside n node idx v.index

    module _ (des : ℕ) (known : des < length t.vertex_table) (o : Option W)
        (valid : VertexIsValid n)
        (out : (d : ℕ) → out_edge n d ≡ (if des == d then o else out_edge (vertex_at t p) d)) where
      pub out_edge-replaced :
          (q d : ℕ)
          → out_edge (vertex_at replaced q) d
            ≡ (if p == q && des == d then o else out_edge (vertex_at t q) d)
      out_edge-replaced q d = elim (Bool-cases (p == q)) [
        | inl here ↦
            subst
              (λ k.
                out_edge (vertex_at replaced k) d
                ≡ (if p == k && des == d then o else out_edge (vertex_at t k) d))
              (==→≡ _ _ here) (rw (==_refl p, at_place) (out d))
        | inr apart ↦ rw (apart, elsewhere q apart)
      ]

      pub TableIsValid-replaced : TableIsValid replaced
      TableIsValid-replaced = record {
        index = index-replaced;
        vertices = record {
          each = λ q h. elim (Bool-cases (p == q)) [
            | inl here ↦
                subst (λ k. VertexIsValid (vertex_at replaced k)) (==→≡ _ _ here)
                  (rw at_place valid)
            | inr apart ↦ rw (elsewhere q apart) (v.vertices.each q (rw length-set at h))
          ];
          closed = λ q d h beyond.
              let old = v.vertices.closed q d (rw length-set at h) (rw length-set at beyond) in
              let other : (des == d) ≡ false = ground (arith, length-set t.vertex_table p n) in
              out_edge-replaced q d ∙ elim (Bool-cases (p == q)) [
                | inl here ↦ rw (here, other) old
                | inr apart ↦ rw apart old
              ];
        };
      }

    -- The new vertex has the edges of the old one.
    module _ (valid : VertexIsValid n)
        (same : (d : ℕ) → out_edge n d ≡ out_edge (vertex_at t p) d) where
      out_of_same :
          (d : ℕ)
          → out_edge n d
            ≡ (if p == d then out_edge (vertex_at t p) p else out_edge (vertex_at t p) d)
      out_of_same d = elim (Bool-cases (p == d)) [
        | inl here ↦ rw here (same d ∙ ap (out_edge (vertex_at t p)) (sym (==→≡ _ _ here)))
        | inr other ↦ rw other (same d)
      ]

      pub TableIsValid-unchanged : TableIsValid replaced
      TableIsValid-unchanged =
          TableIsValid-replaced p inside (out_edge (vertex_at t p) p) valid out_of_same

      pub out_edge-unchanged :
          (q d : ℕ) → out_edge (vertex_at replaced q) d ≡ out_edge (vertex_at t q) d
      out_edge-unchanged q d = elim (Bool-cases (p == q)) [
        | inl here ↦
            subst (λ k. out_edge (vertex_at replaced k) d ≡ out_edge (vertex_at t k) d)
              (==→≡ _ _ here) (rw at_place (same d))
        | inr apart ↦ rw (elsewhere q apart)
      ]

      edge_in-unchanged :
          (o o' : Option ℕ) → edge_in replaced.vertex_table o o' ≡ edge_in t.vertex_table o o'
      edge_in-unchanged none o' = refl
      edge_in-unchanged (some q) none = refl
      edge_in-unchanged (some q) (some d) = out_edge-unchanged q d

      pub edge-unchanged : (a b : ℕ) → edge replaced a b ≡ edge t a b
      unfolding root_of
      edge-unchanged a b = edge_in-unchanged (lookup t a) (lookup t b)

-- The outcome of a log of weight w for the vertex with the internal ID des, at the vertex p: one edge
-- changes, and no other, and the index finds what it found.
pub record Changed {R W B : Type 0} ⦃weight : Weight W⦄ ⦃bitmap : Bitmap B⦄ (IsClear : B → Type 0)
    (no_bits : B) (thread : ℕ) (g : Graph R W B) (p des : ℕ) (w : W) (h : Graph R W B)
    : Type 0 where
  pub valid : IsValid IsClear no_bits thread h
  pub lookups : (j : ℕ) → lookup h.vertex_index j ≡ lookup g.vertex_index j
  pub out :
      (q d : ℕ)
      → out_edge (vertex_at h.vertex_index q) d
        ≡ (if p == q && des == d then logged w else out_edge (vertex_at g.vertex_index q) d)
  pub widths : h.vertex_index.num_bits ≡ g.vertex_index.num_bits

module _ {R W B : Type 0} ⦃weight : Weight W⦄ ⦃bitmap : Bitmap B⦄ {IsClear : B → Type 0}
    (laws : BitmapLaws bitmap IsClear) (no_bits : B) (scale : R → ℕ → ℕ → ℕ)
    (wide : (r : R) (deg extra : ℕ) → deg + extra ≤ scale r deg extra) (stale : ℕ → ℕ)
    (thread : ℕ) where
  pub insert_at-Changed :
      (g : Graph R W B)
      → IsValid IsClear no_bits thread g
      → (p des : ℕ) (w : W) → p < length g.vertex_index.vertex_table
      → des < length g.vertex_index.vertex_table
      → (h : Graph R W B) × (insert_at no_bits scale stale thread g p des w
            (change (out_edge (vertex_at g.vertex_index p)) des w)
          ≡ some h)
        × Changed IsClear no_bits thread g p des w h
  unfolding insert_at insert_versions
  insert_at-Changed g v p des w inside known =
      let x = vertex_at g.vertex_index p in
      let e = v.table.vertices.each p inside in
      let s : Local W B = record {
        next = newest x;
        older = older_than x;
        ctx = record { info = g.info; bits = get_or g.bitmap thread no_bits };
      } in
      let (t, run, done) =
        insert-Inserted (scale g.expand_rate) stale laws (wide g.expand_rate) s des w e.array e.full
          e.counted v.clean in
      let n : Vertex W = record x { versions = t.next ∷ t.older } in
      let n_valid : VertexIsValid n = record {
        some_version = refl;
        array = done.valid;
        full = done.full;
        counted = done.counted;
      } in
      let h : Graph R W B = record g {
        vertex_index = record g.vertex_index { vertex_table = set g.vertex_index.vertex_table p n };
        bitmap = set g.bitmap thread t.ctx.bits;
        info = t.ctx.info;
      } in
      (
        h,
        ap (insert_versions no_bits scale stale thread g p des w (change (out_edge x) des w))
              e.some_version
            ∙ rw run,
        record {
          valid = record {
            table =
                TableIsValid-replaced g.vertex_index v.table p inside n refl refl des known
                  (logged w) n_valid done.same;
            has_bits = rw length-set v.has_bits;
            clean = rw (get_or-set_self g.bitmap thread t.ctx.bits no_bits v.has_bits) done.clean;
          };
          lookups = lookup-replaced g.vertex_index v.table p inside n refl refl;
          out =
              out_edge-replaced g.vertex_index v.table p inside n refl refl des known (logged w)
                n_valid done.same;
          widths = refl;
        },
      )
