-- ===== src/Reader/ById.antt =====
-- `RetrieveVertex` with `GetNeighbours` of the vertex, on a graph in order, is a read as
-- src/GAPBS/cc_sv.cc needs it. The vertex is read even if it is deleted.
use radix_graph.Base.{
  ℕ, ◌≤◌, ◌<◌, ◌≡◌, ap, ◌∙◌, sym, subst, Bool, true, false, bit, Option, none, some, List, [],
  length, Option-cases, inl, inr,
}
use radix_graph.Bitmap.Interface.{Bitmap, BitmapLaws}
use radix_graph.Edges.{Weight, Vertex}
use radix_graph.Sort.Laws.{lookup}
use radix_graph.Graph.{Graph, vertex_at, retrieve}
use radix_graph.Graph.Valid.{IsValid, newest}
use radix_graph.Graph.Reads.{seen_edge, searched, searched-IsValid, search, neighbours_at-Shows}
use radix_graph.Graph.Changes.{lookup-rooted}
use radix_graph.Reader.{ReaderLaws, times, by_id, read_found}
use radix_graph.Reader.Laws.{has_edge, times-Shows}
use radix_graph.Reader.Offset.{in_table}

module _ {W : Type 0} ⦃weight : Weight W⦄ where
  -- Whether the read of an ID sees an edge to the place v, with the vertices `vs` at the places of
  -- their IDs.
  abbrev pub next_by_id : (ℕ → Option ℕ) → List (Vertex W) → ℕ → ℕ → ℕ → Bool
  next_by_id place vs t id v = elim (place id) [
    | none ↦ false
    | some p ↦ has_edge (seen_edge (in_table vs p) t v)
  ]

  pub next_by_id-seen_edge :
      (place : ℕ → Option ℕ) (vs : List (Vertex W)) (t id v : ℕ)
      → next_by_id place vs t id v ≡ true
      → (p : ℕ) × (place id ≡ some p) × (has_edge (seen_edge (in_table vs p) t v) ≡ true)
  next_by_id-seen_edge place vs t id v e = elim (Option-cases (place id)) [
    | inl missing ↦ absurd (false_ne_true (sym (ap next missing) ∙ e))
    | inr (p, there) ↦ (p, there, sym (ap next there) ∙ e)
  ]
    where
      next : Option ℕ → Bool
      next o = elim o [ none ↦ false | some p ↦ has_edge (seen_edge (in_table vs p) t v) ]

      false_ne_true : false ≡ true → ⊥
      false_ne_true e = cc

module _ {R W B : Type 0} ⦃weight : Weight W⦄ ⦃bitmap : Bitmap B⦄ (IsClear : B → Type 0)
    (no_bits : B) (thread : ℕ) where
  -- A graph in order with the vertices `vs`, found by their IDs.
  pub record IsReady (place : ℕ → Option ℕ) (vs : List (Vertex W)) (g : Graph R W B) : Type 0 where
    pub valid : IsValid IsClear no_bits thread g
    pub table : g.vertex_index.vertex_table ≡ vs
    pub places : (id : ℕ) → lookup g.vertex_index id ≡ place id

module _ {R W B : Type 0} ⦃weight : Weight W⦄ ⦃bitmap : Bitmap B⦄ {IsClear : B → Type 0}
    (laws : BitmapLaws bitmap IsClear) (no_bits : B) (stale : ℕ → ℕ) (thread t : ℕ)
    (place : ℕ → Option ℕ) (vs : List (Vertex W))
    (seen : (p : ℕ) → p < length vs → (newest (in_table vs p)).snapshot_timestamp ≤ t) where
  -- The outcome of a read.
  pub record Read (id : ℕ) (res : Graph R W B × List ℕ) : Type 0 where
    pub ready : IsReady IsClear no_bits thread place vs res.0
    pub shows : (v : ℕ) → times v res.1 ≡ bit (next_by_id place vs t id v)

  module _ (g : Graph R W B) (r : IsReady IsClear no_bits thread place vs g) (id : ℕ) where
    abbrev searched_g : Graph R W B
    searched_g = searched laws no_bits stale thread g r.valid

    searched-IsReady : IsReady IsClear no_bits thread place vs searched_g
    searched-IsReady = record {
      valid = searched-IsValid laws no_bits stale thread g r.valid;
      table = r.table;
      places = λ i. lookup-rooted g.vertex_index i ∙ r.places i;
    }

    missing-Read : place id ≡ none → Read id (searched_g, [])
    missing-Read e = record { ready = searched-IsReady; shows = λ v. rw (e, bit) }

    there-Read :
        (p : ℕ) → place id ≡ some p → Read id (read_found no_bits thread t (searched_g, some p))
    unfolding read_found
    there-Read p e =
        let inside : p < length g.vertex_index.vertex_table =
          (r.valid.table.index.owned id p (r.places id ∙ e)).0 in
        let same : vertex_at g.vertex_index p ≡ in_table vs p = ap (λ l. in_table l p) r.table in
        let lt : p < length vs = rw (ap length r.table) at inside in
        let (h, out, run, shows, kept) =
          neighbours_at-Shows laws no_bits stale thread searched_g searched-IsReady.valid p t inside
            (rw same (seen p lt)) in
        rw run (record {
          ready = record {
            valid = kept.valid;
            table = kept.table ∙ r.table;
            places = λ i. kept.found i ∙ searched-IsReady.places i;
          };
          shows = λ v.
              times-Shows (seen_edge (vertex_at g.vertex_index p) t) out shows v
              ∙ ap (λ x. bit (has_edge (seen_edge x t v))) same
              ∙ (rw (e, bit));
        })

    by_id-Read : Read id (read_found no_bits thread t (retrieve stale g id false))
    unfolding read_found
    by_id-Read = elim (Option-cases (place id)) [
      | inl e ↦
          subst (λ q. Read id (read_found no_bits thread t q))
            (sym (
              search laws no_bits stale thread g r.valid id
              ∙ ap (λ o. (searched_g, o)) (r.places id ∙ e)))
            (missing-Read e)
      | inr (p, e) ↦
          subst (λ q. Read id (read_found no_bits thread t q))
            (sym (
              search laws no_bits stale thread g r.valid id
              ∙ ap (λ o. (searched_g, o)) (r.places id ∙ e)))
            (there-Read p e)
    ]

  pub by_id-ReaderLaws :
      ReaderLaws
        (by_id {R = R} no_bits stale thread t)
        (IsReady IsClear no_bits thread place vs)
        (next_by_id place vs t)
  by_id-ReaderLaws = record {
    kept = λ g r id. (by_id-Read g r id).ready;
    shows = λ g r id v. (by_id-Read g r id).shows v;
  }
