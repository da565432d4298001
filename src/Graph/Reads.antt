-- ===== src/Graph/Reads.antt =====
-- `GetNeighbours` and `GetNeighboursByOffset` of src/radixgraph.cpp on a graph that is in order.
use radix_graph.Base.{
  ℕ, ◌≤◌, ◌<◌, ◌≡◌, ◌⊎◌, refl, ap, ◌∙◌, true, false, Option, none, some, List, ◌∷◌, length, get_or,
  set, leb, arith, inl, inr, length-set, get_or-set_self, set_same,
}
use radix_graph.Bitmap.Interface.{Bitmap, BitmapLaws}
use radix_graph.Edges.{Weight, WeightedEdge, Vertex, edges}
use radix_graph.Edges.Neighbours.Laws.{visible_count}
use radix_graph.Edges.View.{current, Shows}
use radix_graph.Sort.Laws.{lookup, no_vertex, retrieve_vertex_search}
use radix_graph.Graph.{
  Graph, vertex_at, deleted_at, read_versions, retrieve, after_read, neighbours_at, neighbours_of,
  get_neighbours, get_neighbours_by_offset,
}
use radix_graph.Graph.Laws.{read_versions-Shows}
use radix_graph.Graph.Valid.{VertexIsValid, IsValid, edge, newest, older_than}
use radix_graph.Graph.Update.{replaced, lookup-replaced, TableIsValid-unchanged, edge-unchanged}
use radix_graph.Graph.Changes.{rooted, lookup-rooted, TableIsValid-rooted, edge-rooted}

module _ {R W B : Type 0} ⦃weight : Weight W⦄ ⦃bitmap : Bitmap B⦄ (IsClear : B → Type 0)
    (no_bits : B) (thread : ℕ) where
  -- The graph is in order, with the edges and the vertices that it had.
  pub record Kept (g h : Graph R W B) : Type 0 where
    pub table : h.vertex_index.vertex_table ≡ g.vertex_index.vertex_table
    pub sorted : h.is_sorted ≡ g.is_sorted
    pub found : (id : ℕ) → lookup h.vertex_index id ≡ lookup g.vertex_index id
    pub valid : IsValid IsClear no_bits thread h
    pub edges : (a b : ℕ) → edge h.vertex_index a b ≡ edge g.vertex_index a b

module _ {W : Type 0} ⦃weight : Weight W⦄ where
  -- The edges of a vertex that a read at time t sees.
  abbrev pub seen_edge : Vertex W → ℕ → ℕ → Option W
  seen_edge v t =
      let a = newest v in
      current (edges a) (visible_count a.timestamp a.snapshot_deg t a.physical_size)

module _ {R W B : Type 0} ⦃weight : Weight W⦄ ⦃bitmap : Bitmap B⦄ {IsClear : B → Type 0}
    (laws : BitmapLaws bitmap IsClear) (no_bits : B) (stale : ℕ → ℕ) (thread : ℕ) (g : Graph R W B)
    (v : IsValid IsClear no_bits thread g) where
  pub neighbours_at-Shows :
      (p t : ℕ)
      → p < length g.vertex_index.vertex_table
      → (newest (vertex_at g.vertex_index p)).snapshot_timestamp ≤ t
      → (h : Graph R W B) × (out : List (WeightedEdge W)) × (neighbours_at no_bits thread g p t
          ≡ (h, some out))
        × Shows (seen_edge (vertex_at g.vertex_index p) t) out
        × Kept IsClear no_bits thread g h
  unfolding neighbours_at after_read
  neighbours_at-Shows p t inside seen =
      let x = vertex_at g.vertex_index p in
      let e = v.table.vertices.each p inside in
      let (after, out, run, shows, clean) =
        read_versions-Shows laws (get_or g.bitmap thread no_bits) v.clean g.info.is_mixed_workloads
          (newest x) (older_than x) t e.array seen in
      let n : Vertex W = record x { versions = newest x ∷ older_than x } in
      let n_valid : VertexIsValid n = record {
        some_version = refl;
        array = e.array;
        full = e.full;
        counted = e.counted;
      } in
      let h : Graph R W B = record g {
        vertex_index = replaced g.vertex_index v.table p inside n refl refl;
        bitmap = set g.bitmap thread after;
      } in
      (
        h,
        out,
        ap
              (λ l.
                after_read no_bits thread g p (
                  read_versions g.info.is_mixed_workloads true t (get_or g.bitmap thread no_bits)
                    l))
              e.some_version
            ∙ rw run refl,
        shows,
        record {
          table =
              set_same g.vertex_index.vertex_table p n no_vertex inside
                (ap (λ l. record x { versions = l }) e.some_version);
          sorted = refl;
          found = lookup-replaced g.vertex_index v.table p inside n refl refl;
          valid = record {
            table =
                TableIsValid-unchanged g.vertex_index v.table p inside n refl refl n_valid
                  (λ d. refl);
            has_bits = rw length-set v.has_bits;
            clean = rw (get_or-set_self g.bitmap thread after no_bits v.has_bits) clean;
          };
          edges = edge-unchanged g.vertex_index v.table p inside n refl refl n_valid (λ d. refl);
        },
      )

  -- The graph once the vertex is looked up.
  abbrev pub searched : Graph R W B
  searched = record g { vertex_index = rooted g.vertex_index }

  pub searched-IsValid : IsValid IsClear no_bits thread searched
  searched-IsValid = record {
    table = TableIsValid-rooted g.vertex_index v.table;
    has_bits = v.has_bits;
    clean = v.clean;
  }

  pub search : (src : ℕ) → retrieve stale g src false ≡ (searched, lookup g.vertex_index src)
  unfolding retrieve
  search src = rw (retrieve_vertex_search g.vertex_index v.table.index stale g.info src) refl

  -- `GetNeighbours` of an ID without a vertex, or with one that is deleted at the time of the
  -- read, on a graph in order: it returns false, no edge changes, and the graph is in order.
  pub get_neighbours_missing :
      (src t : ℕ)
      → (lookup g.vertex_index src ≡ none)
        ⊎ ((p : ℕ) × (lookup g.vertex_index src ≡ some p)
            × (deleted_at (vertex_at g.vertex_index p).del_time t ≡ true))
      → (h : Graph R W B) × (get_neighbours no_bits stale thread g src t ≡ (h, none))
        × Kept IsClear no_bits thread g h
  unfolding get_neighbours neighbours_of
  get_neighbours_missing src t (inl e) = (
    searched,
    rw (search src, e) refl,
    record {
      table = refl;
      sorted = refl;
      found = lookup-rooted g.vertex_index;
      valid = searched-IsValid;
      edges = edge-rooted g.vertex_index;
    },
  )
  get_neighbours_missing src t (inr (p, e, gone)) = (
    searched,
    rw (search src, e, gone) refl,
    record {
      table = refl;
      sorted = refl;
      found = lookup-rooted g.vertex_index;
      valid = searched-IsValid;
      edges = edge-rooted g.vertex_index;
    },
  )

-- Both ways to read the neighbours of a vertex that is not deleted.
module _ {R W B : Type 0} ⦃weight : Weight W⦄ ⦃bitmap : Bitmap B⦄ {IsClear : B → Type 0}
    (laws : BitmapLaws bitmap IsClear) (no_bits : B) (stale : ℕ → ℕ) (thread : ℕ) (g : Graph R W B)
    (v : IsValid IsClear no_bits thread g) (p t : ℕ)
    (there : deleted_at (vertex_at g.vertex_index p).del_time t ≡ false)
    (seen : (newest (vertex_at g.vertex_index p)).snapshot_timestamp ≤ t) where
  -- `GetNeighbours` of the ID of a vertex that is not deleted at time t and whose newest snapshot
  -- is of a time at most t, on a graph in order, with bitmaps that obey the bitmap laws: it
  -- succeeds with each edge that the snapshot and the logs up to the newest one of time at most t
  -- leave, once, and no other, and the graph is in order with the edges that it had.
  pub get_neighbours-Shows :
      (src : ℕ)
      → lookup g.vertex_index src ≡ some p
      → (h : Graph R W B) × (out : List (WeightedEdge W)) × (get_neighbours no_bits stale thread g
            src t
          ≡ (h, some out))
        × Shows (seen_edge (vertex_at g.vertex_index p) t) out
        × Kept IsClear no_bits thread g h
  unfolding get_neighbours neighbours_of
  get_neighbours-Shows src e =
      let u = searched laws no_bits stale thread g v in
      let w = searched-IsValid laws no_bits stale thread g v in
      let (h, out, run, shows, kept) =
        neighbours_at-Shows laws no_bits stale thread u w p t (v.table.index.owned src p e).0
          seen in
      (
        h,
        out,
        rw (search laws no_bits stale thread g v src, e, there) run,
        shows,
        record {
          table = kept.table;
          sorted = kept.sorted;
          found = λ id. kept.found id ∙ lookup-rooted g.vertex_index id;
          valid = kept.valid;
          edges = λ a b. kept.edges a b ∙ edge-rooted g.vertex_index a b;
        },
      )

  -- `GetNeighboursByOffset` of the place of a vertex that is not deleted at time t and whose
  -- newest snapshot is of a time at most t, on a graph in order, with bitmaps that obey the bitmap
  -- laws: it succeeds with each edge that the snapshot and the logs up to the newest one of time
  -- at most t leave, once, and no other, and the graph is in order with the edges that it had.
  pub get_neighbours_by_offset-Shows :
      p < length g.vertex_index.vertex_table
      → (h : Graph R W B) × (out : List (WeightedEdge W)) × (get_neighbours_by_offset no_bits thread
            g p t
          ≡ (h, some out))
        × Shows (seen_edge (vertex_at g.vertex_index p) t) out
        × Kept IsClear no_bits thread g h
  unfolding get_neighbours_by_offset
  get_neighbours_by_offset-Shows inside =
      let below : leb g.vertex_index.cnt p ≡ false =
        ground (arith, v.table.index.counted, inside) in
      let (h, out, run, shows, kept) =
        neighbours_at-Shows laws no_bits stale thread g v p t inside seen in
      (h, out, rw (below, there) run, shows, kept)
