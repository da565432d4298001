-- ===== src/Graph/Laws.antt =====
-- The IDs of src/radixgraph.cpp, and a read of the versions of a vertex.
use mathlib.Core.Option.{some-injective}
use radix_graph.Base.{
  ℕ, ◌%◌, ◌≤◌, ◌≡◌, ap, ◌∙◌, sym, Bool, true, false, none, some, List, ◌∷◌, if◌then◌else◌, leb, ltb,
  ◌==◌, ◌&&◌, arith, Bool-cases, Option-cases, inl, inr,
}
use radix_graph.Bitmap.Interface.{Bitmap, BitmapLaws, IsClean}
use radix_graph.Edges.{Weight, WeightedEdge, WeightedEdgeArray, edges}
use radix_graph.Edges.Neighbours.Laws.{read_array-Shows, visible_count}
use radix_graph.Edges.Valid as EdgesValid
use radix_graph.Edges.View.{current, Shows}
use radix_graph.Sort.Laws.{IsValid, modulus, lookup, retrieve_vertex_search}
use radix_graph.Graph.{
  Graph, vertex_at, present, is_null, read_versions, release, retrieve, live_vertex,
  get_internal_id, get_external_id,
}

module _ {R W B : Type 0} ⦃weight : Weight W⦄ (stale : ℕ → ℕ) (g : Graph R W B)
    (v : IsValid g.vertex_index) (id : ℕ) where
  no_vertex_found : lookup g.vertex_index id ≡ none → (get_internal_id stale g id).1 ≡ none
  unfolding get_internal_id live_vertex retrieve
  no_vertex_found e = rw (retrieve_vertex_search g.vertex_index v stale g.info id) (rw e)

  vertex_found :
      (p : ℕ)
      → lookup g.vertex_index id ≡ some p
      → (get_internal_id stale g id).1
        ≡ (if present (vertex_at g.vertex_index p).del_time then none else some p)
  unfolding get_internal_id live_vertex retrieve
  vertex_found p e =
      let placed = v.placed p (v.owned id p e).0 in
      elim (Bool-cases (present (vertex_at g.vertex_index p).del_time)) [
        | inl gone ↦ rw (retrieve_vertex_search g.vertex_index v stale g.info id) (rw (e, gone))
        | inr live ↦
            rw (retrieve_vertex_search g.vertex_index v stale g.info id) (rw (e, live) placed)
      ]

  -- On an index in order, if `GetInternalID` returns an internal ID for an external one,
  -- `GetExternalID` of that internal ID is an external ID that the tree does not tell apart from
  -- the one given: the two are equal in the bits that the tree looks at.
  pub get_external_id-get_internal_id :
      (i : ℕ)
      → (get_internal_id stale g id).1 ≡ some i
      → get_external_id g i % modulus g.vertex_index ≡ id % modulus g.vertex_index
  unfolding get_external_id
  get_external_id-get_internal_id i h = elim (Option-cases (lookup g.vertex_index id)) [
    | inl e ↦ absurd (none_ne_some (sym (no_vertex_found e) ∙ h))
    | inr (p, e) ↦
        let o = v.owned id p e in
        elim (Bool-cases (present (vertex_at g.vertex_index p).del_time)) [
          | inl gone ↦ absurd (none_ne_some (sym (rw gone at (vertex_found p e)) ∙ h))
          | inr live ↦
              let at_i : p ≡ i = some-injective p i (sym (rw live at (vertex_found p e)) ∙ h) in
              let inside : leb g.vertex_index.cnt p ≡ false = ground (arith, v.counted, o.0) in
              rw (← at_i, inside) o.1
        ]
  ]
    where
      none_ne_some : {A : Type 0} {a : A} → none ≡ some a → ⊥
      none_ne_some k = cc

-- The read of the newest version.
module _ {W B : Type 0} ⦃weight : Weight W⦄ ⦃bitmap : Bitmap B⦄ {IsClear : B → Type 0}
    (laws : BitmapLaws bitmap IsClear) (bits : B) (clean : IsClean bitmap IsClear bits) where
  -- `GetNeighbours` of a vertex whose newest version is in order and of a snapshot time at most t,
  -- with a clean bitmap that obeys the bitmap laws, reads that version, whether or not workloads
  -- are mixed: it succeeds, leaves the versions as they are, returns each edge that the snapshot
  -- and the logs up to the newest one of time at most t leave, once, and no other, and leaves the
  -- bitmap clean.
  pub read_versions-Shows :
      (is_mixed : Bool) (a : WeightedEdgeArray W) (older : List (WeightedEdgeArray W)) (t : ℕ)
      → EdgesValid.IsValid a
      → a.snapshot_timestamp ≤ t
      → (after : B) × (out : List (WeightedEdge W)) × (read_versions is_mixed true t bits
            (a ∷ older)
          ≡ some (a ∷ older, after, out))
        × Shows (current (edges a) (visible_count a.timestamp a.snapshot_deg t a.physical_size)) out
        × IsClean bitmap IsClear after
  unfolding read_versions release
  read_versions-Shows is_mixed a older t v seen =
      let reads = read_array-Shows laws bits clean a t v in
      let early : ltb t a.snapshot_timestamp ≡ false = ground (arith, seen) in
      let there : is_null a.edge ≡ false = ap is_null v.held in
      let kept : (is_mixed && (a.threads_read == 0 && false)) ≡ false = ground arith in
      (_, _, rw (early, there, kept), reads.0, reads.1)
