-- ===== src/Graph/Maintenance/Laws.antt =====
-- What `CreateSnapshots` of src/radixgraph.cpp keeps and what it makes.
use radix_graph.Base.{
  ℕ, zero, suc, ◌+◌, ◌≤◌, ◌<◌, ◌≡◌, refl, ap, ◌∙◌, subst, Bool, true, Option, some, List, [], ◌∷◌,
  length, get_or, set, ltb, ◌==◌, arith, Bool-cases, inl, inr, ==→≡, length-set, get_or-set_self,
  get_or-set_ne, pos_part,
}
use radix_graph.Bitmap.Interface.{Bitmap, BitmapLaws}
use radix_graph.Edges.{Weight, WeightedEdge, WeightedEdgeArray, Vertex, edges}
use radix_graph.Edges.Compaction.{Context}
use radix_graph.Edges.Compaction.Laws.{Compacted, log_compaction-Compacted}
use radix_graph.Edges.Order.{Sorter, IsSorted}
use radix_graph.Edges.Prefix.{prefix, length-prefix}
use radix_graph.Edges.Sorted as Sorting
use radix_graph.Edges.Valid as EdgesValid
use radix_graph.Edges.Valid.{IsCounted, live_edges, view}
use radix_graph.Graph.{Graph, vertex_at}
use radix_graph.Graph.Valid.{VertexIsValid, IsValid, edge, newest, older_than}
use radix_graph.Graph.Update.{replaced, TableIsValid-unchanged, edge-unchanged}
use radix_graph.Graph.Maintenance.{
  sort_array, snapshot_cap, snapshot_versions, snapshot_loop, create_snapshots,
}
use radix_graph.Sort.Laws.{no_vertex}

short-IsSorted : {W : Type 0} (l : List (WeightedEdge W)) → length l ≤ 1 → IsSorted l
short-IsSorted [] h = tt
short-IsSorted (a ∷ []) h = tt
short-IsSorted (a ∷ b ∷ l) h = absurd (omega arith)

module _ {W : Type 0} ⦃weight : Weight W⦄ (sort_neighbours : Bool) where
  -- A version without logs, sorted if that is asked for.
  pub record IsCompact (a : WeightedEdgeArray W) : Type 0 where
    pub bare : a.snapshot_deg ≡ a.physical_size
    pub sorted : sort_neighbours ≡ true → IsSorted (prefix (edges a) a.physical_size)

  -- The outcome of a compaction and sort of a version that showed f.
  record Prepared (f : ℕ → Option W) (a : WeightedEdgeArray W) : Type 0 where
    valid : EdgesValid.IsValid a
    counted : IsCounted a
    full : a.size ≡ a.physical_size
    same : (d : ℕ) → view a d ≡ f d
    compact : IsCompact a

module _ {W B : Type 0} ⦃weight : Weight W⦄ ⦃bitmap : Bitmap B⦄ {IsClear : B → Type 0}
    (sorter : Sorter W) (sort_neighbours : Bool) where
  sort_array-Prepared :
      {stale : ℕ → ℕ} {f : ℕ → Option W} {live m : ℕ} {ctx : Context B}
      (r : WeightedEdgeArray W × Context B)
      → Compacted IsClear stale f live m ctx r
      → Prepared sort_neighbours f (sort_array sorter sort_neighbours r.0)
  unfolding sort_array
  sort_array-Prepared r c =
      let a = r.0 in
      elim (Bool-cases sort_neighbours) [
        | inr unsorted ↦ rw unsorted record {
          valid = c.valid;
          counted = c.counted;
          full = c.full;
          same = c.same;
          compact = record { bare = c.snapshot; sorted = λ h. cc };
        }
        | inl asked ↦ elim (Bool-cases (ltb 1 a.physical_size)) [
          | inr short ↦
              rw (asked, short)
                record {
                  valid = c.valid;
                  counted = c.counted;
                  full = c.full;
                  same = c.same;
                  compact = record {
                    bare = c.snapshot;
                    sorted = λ h.
                        short-IsSorted _
                          (ground (arith, length-prefix (edges a) a.physical_size 0));
                  };
                }
          | inl long ↦
              rw (asked, long)
                record {
                  valid = Sorting.sorted_array-IsValid sorter a c.valid c.counted c.snapshot;
                  counted = Sorting.sorted_array-IsCounted sorter a c.valid c.counted c.snapshot;
                  full = c.full;
                  same = λ d.
                      Sorting.view-sorted_array sorter a c.valid c.counted c.snapshot d ∙ c.same d;
                  compact = record {
                    bare = c.snapshot;
                    sorted =
                        λ h. Sorting.sorted_array-IsSorted sorter a c.valid c.counted c.snapshot;
                  };
                }
        ]
      ]

-- The outcome of the loop over the vertices from i to j: these have no logs, and no edge has changed.
pub record Snapshots {R W B : Type 0} ⦃weight : Weight W⦄ ⦃bitmap : Bitmap B⦄ (IsClear : B → Type 0)
    (no_bits : B) (thread : ℕ) (sort_neighbours : Bool) (g : Graph R W B) (i j : ℕ)
    (h : Graph R W B) : Type 0 where
  pub valid : IsValid IsClear no_bits thread h
  pub edges : (a b : ℕ) → edge h.vertex_index a b ≡ edge g.vertex_index a b
  pub size : length h.vertex_index.vertex_table ≡ length g.vertex_index.vertex_table
  pub compact :
      (q : ℕ) → i ≤ q → q < j → IsCompact sort_neighbours (newest (vertex_at h.vertex_index q))
  pub before : (q : ℕ) → q < i → vertex_at h.vertex_index q ≡ vertex_at g.vertex_index q

module _ {R W B : Type 0} ⦃weight : Weight W⦄ ⦃bitmap : Bitmap B⦄ {IsClear : B → Type 0}
    (laws : BitmapLaws bitmap IsClear) (no_bits : B) (scale : R → ℕ → ℕ → ℕ)
    (wide : (r : R) (deg extra : ℕ) → deg + extra ≤ scale r deg extra) (stale : ℕ → ℕ)
    (sorter : Sorter W) (thread : ℕ) (sort_neighbours make_dense : Bool) where
  room :
      (rate : R) (a : WeightedEdgeArray W)
      → IsCounted a
      → length (live_edges a) ≤ snapshot_cap scale make_dense rate a
  unfolding snapshot_cap
  room rate a c =
      let deg : pos_part a.deg ≡ length (live_edges a) = ap pos_part c in
      let spare = wide rate (pos_part a.deg) 8 in
      elim (Bool-cases make_dense) [
        | inl dense ↦ rw dense (omega (arith, deg))
        | inr loose ↦ rw loose (omega (arith, deg, spare))
      ]

  snapshot_versions-Snapshots :
      (g : Graph R W B) (p : ℕ)
      → IsValid IsClear no_bits thread g
      → p < length g.vertex_index.vertex_table
      → (h : Graph R W B) × (snapshot_versions no_bits scale stale sorter thread sort_neighbours
            make_dense g p
            (vertex_at g.vertex_index p).versions
          ≡ some h)
        × Snapshots IsClear no_bits thread sort_neighbours g p (p + 1) h
  unfolding snapshot_versions
  snapshot_versions-Snapshots g p v inside =
      let t = g.vertex_index in
      let x = vertex_at t p in
      let e = v.table.vertices.each p inside in
      let ctx : Context B = record { info = g.info; bits = get_or g.bitmap thread no_bits } in
      let (r, run, done) =
        log_compaction-Compacted stale laws (newest x) e.array e.counted
          (snapshot_cap scale make_dense g.expand_rate (newest x))
          (room g.expand_rate (newest x) e.counted) ctx v.clean in
      let made = sort_array-Prepared sorter sort_neighbours r done in
      let n : Vertex W = record x {
        versions = sort_array sorter sort_neighbours r.0 ∷ older_than x;
      } in
      let n_valid : VertexIsValid n = record {
        some_version = refl;
        array = made.valid;
        full = made.full;
        counted = made.counted;
      } in
      let table = replaced t v.table p inside n refl refl in
      let h : Graph R W B = record g {
        vertex_index = table;
        bitmap = set g.bitmap thread r.1.bits;
        info = r.1.info;
      } in
      (
        h,
        ap (snapshot_versions no_bits scale stale sorter thread sort_neighbours make_dense g p)
              e.some_version
            ∙ rw run refl,
        record {
          valid = record {
            table = TableIsValid-unchanged t v.table p inside n refl refl n_valid made.same;
            has_bits = rw length-set v.has_bits;
            clean = rw (get_or-set_self g.bitmap thread r.1.bits no_bits v.has_bits) done.clean;
          };
          edges = edge-unchanged t v.table p inside n refl refl n_valid made.same;
          size = length-set t.vertex_table p n;
          compact = λ q low high.
              let at : p ≡ q = omega arith in
              subst (λ k. IsCompact sort_neighbours (newest (vertex_at table k))) at
                (rw (get_or-set_self t.vertex_table p n no_vertex inside) made.compact);
          before = λ q h. get_or-set_ne t.vertex_table p q n no_vertex (omega arith);
        },
      )

  snapshot_loop-Snapshots :
      (left p : ℕ) (g : Graph R W B)
      → IsValid IsClear no_bits thread g
      → p + left ≤ length g.vertex_index.vertex_table
      → (h : Graph R W B) × (snapshot_loop no_bits scale stale sorter thread sort_neighbours
            make_dense left p g
          ≡ some h)
        × Snapshots IsClear no_bits thread sort_neighbours g p (p + left) h
  unfolding snapshot_loop
  snapshot_loop-Snapshots zero p g v inside = (
    g,
    refl,
    record {
      valid = v;
      edges = λ a b. refl;
      size = refl;
      compact = λ q low high. absurd (omega arith);
      before = λ q h. refl;
    },
  )
  snapshot_loop-Snapshots (suc left) p g v inside =
      let (g1, run1, s1) = snapshot_versions-Snapshots g p v (omega arith) in
      let (h, run, s) = snapshot_loop-Snapshots left (p + 1) g1 s1.valid (omega (arith, s1.size)) in
      (
        h,
        rw run1 run,
        record {
          valid = s.valid;
          edges = λ a b. s.edges a b ∙ s1.edges a b;
          size = s.size ∙ s1.size;
          compact = λ q low high. elim (Bool-cases (p == q)) [
            | inl here ↦
                let e : p ≡ q = ==→≡ _ _ here in
                rw (s.before q (omega arith)) (s1.compact q low (omega arith))
            | inr after ↦ s.compact q (ground arith) (omega arith)
          ];
          before = λ q h. s.before q (omega arith) ∙ s1.before q h;
        },
      )

  -- `CreateSnapshots`, on a graph in order, with bitmaps that obey the bitmap laws and an
  -- expansion that leaves the spare places, dense or not: it ends, no edge changes, every vertex
  -- has a newest version without logs, sorted by internal ID if that is asked for, the number of
  -- vertices is the same, and the graph is in order and says whether it is sorted.
  pub create_snapshots-Snapshots :
      (g : Graph R W B)
      → IsValid IsClear no_bits thread g
      → (h : Graph R W B) × (create_snapshots no_bits scale stale sorter thread sort_neighbours
            make_dense g
          ≡ some h)
        × Snapshots IsClear no_bits thread sort_neighbours g 0
            (length g.vertex_index.vertex_table)
            h
        × (h.is_sorted ≡ sort_neighbours)
  unfolding create_snapshots
  create_snapshots-Snapshots g v =
      let all : 0 + g.vertex_index.cnt ≡ length g.vertex_index.vertex_table =
        omega (arith, v.table.index.counted) in
      let (h, run, s) = snapshot_loop-Snapshots g.vertex_index.cnt 0 g v (omega (arith, all)) in
      let t = subst (λ j. Snapshots IsClear no_bits thread sort_neighbours g 0 j h) all s in
      (
        record h { is_sorted = sort_neighbours },
        rw run refl,
        record {
          valid = record {
            table = t.valid.table;
            has_bits = t.valid.has_bits;
            clean = t.valid.clean;
          };
          edges = t.edges;
          size = t.size;
          compact = t.compact;
          before = t.before;
        },
        refl,
      )
