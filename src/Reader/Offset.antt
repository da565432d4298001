-- ===== src/Reader/Offset.antt =====
-- `GetNeighboursByOffset` of src/radixgraph.cpp, on a graph in order, is a read as the kernels need it.
use radix_graph.Base.{
  ℕ, ◌≤◌, ◌<◌, ◌≡◌, ap, ◌∙◌, Bool, true, false, not, ◌&&◌, bit, Option, none, List, length, get_or,
  ltb, leb, arith, Bool-cases, inl, inr,
}
use radix_graph.Bitmap.Interface.{Bitmap, BitmapLaws}
use radix_graph.Edges.{Weight, WeightedEdge, Vertex}
use radix_graph.Sort.Laws.{no_vertex}
use radix_graph.Graph.{Graph, vertex_at, deleted_at, get_neighbours_by_offset}
use radix_graph.Graph.Valid.{IsValid, newest}
use radix_graph.Graph.Reads.{seen_edge, get_neighbours_by_offset-Shows}
use radix_graph.Reader.{ReaderLaws, times, ids, list_of, by_offset}
use radix_graph.Reader.Laws.{has_edge, times-Shows}

module _ {W : Type 0} ⦃weight : Weight W⦄ where
  abbrev pub in_table : List (Vertex W) → ℕ → Vertex W
  in_table vs u = get_or vs u no_vertex

  -- Whether a read at time t sees an edge from u to v.
  abbrev pub next_at : List (Vertex W) → ℕ → ℕ → ℕ → Bool
  next_at vs t u v =
      ltb u (length vs)
      && (not (deleted_at (in_table vs u).del_time t) && has_edge (seen_edge (in_table vs u) t v))

module _ {R W B : Type 0} ⦃weight : Weight W⦄ ⦃bitmap : Bitmap B⦄ (IsClear : B → Type 0)
    (no_bits : B) (thread : ℕ) where
  -- A graph in order with the vertices `vs`.
  pub record IsReady (vs : List (Vertex W)) (is_sorted : Bool) (g : Graph R W B) : Type 0 where
    pub valid : IsValid IsClear no_bits thread g
    pub table : g.vertex_index.vertex_table ≡ vs
    pub sorted : g.is_sorted ≡ is_sorted

module _ {R W B : Type 0} ⦃weight : Weight W⦄ ⦃bitmap : Bitmap B⦄ {IsClear : B → Type 0}
    (laws : BitmapLaws bitmap IsClear) (no_bits : B) (stale : ℕ → ℕ) (thread t : ℕ)
    (vs : List (Vertex W)) (is_sorted : Bool)
    (seen : (p : ℕ) → p < length vs → (newest (in_table vs p)).snapshot_timestamp ≤ t) where
  -- The outcome of a read.
  pub record Read (u : ℕ) (res : Graph R W B × Option (List (WeightedEdge W))) : Type 0 where
    pub ready : IsReady IsClear no_bits thread vs is_sorted res.0
    pub shows : (v : ℕ) → times v (ids (list_of res.1)) ≡ bit (next_at vs t u v)

  module _ (g : Graph R W B) (r : IsReady IsClear no_bits thread vs is_sorted g) (u : ℕ) where
    same_length : length g.vertex_index.vertex_table ≡ length vs
    same_length = ap length r.table

    same_vertex : vertex_at g.vertex_index u ≡ in_table vs u
    same_vertex = ap (λ l. in_table l u) r.table

    beyond-Read : leb g.vertex_index.cnt u ≡ true → Read u (g, none)
    beyond-Read e =
        let out : ltb u (length vs) ≡ false =
          ground (arith, e, r.valid.table.index.counted, same_length) in
        record { ready = r; shows = λ v. rw out }

    deleted-Read : deleted_at (vertex_at g.vertex_index u).del_time t ≡ true → Read u (g, none)
    deleted-Read e =
        let gone = rw same_vertex at e in
        record {
          ready = r;
          shows = λ v. elim (Bool-cases (ltb u (length vs))) [
            | inl inside ↦ rw (inside, gone)
            | inr out ↦ rw out
          ];
        }

    there-Read :
        leb g.vertex_index.cnt u ≡ false
        → deleted_at (vertex_at g.vertex_index u).del_time t ≡ false
        → Read u (get_neighbours_by_offset no_bits thread g u t)
    there-Read inside there =
        let lt : u < length g.vertex_index.vertex_table =
          ground (arith, inside, r.valid.table.index.counted) in
        let in_vs : ltb u (length vs) ≡ true = ground (arith, lt, same_length) in
        let (h, out, run, shows, kept) =
          get_neighbours_by_offset-Shows laws no_bits stale thread g r.valid u t there
            (rw same_vertex (seen u (omega (arith, lt, same_length)))) lt in
        rw run (record {
          ready = record {
            valid = kept.valid;
            table = kept.table ∙ r.table;
            sorted = kept.sorted ∙ r.sorted;
          };
          shows = λ v.
              times-Shows (seen_edge (vertex_at g.vertex_index u) t) out shows v
              ∙ ap (λ x. bit (has_edge (seen_edge x t v))) same_vertex
              ∙ (rw (in_vs, rw same_vertex at there));
        })

    get_neighbours_by_offset-Read : Read u (get_neighbours_by_offset no_bits thread g u t)
    unfolding get_neighbours_by_offset
    get_neighbours_by_offset-Read = elim (Bool-cases (leb g.vertex_index.cnt u)) [
      | inl beyond ↦ rw beyond (beyond-Read beyond)
      | inr inside ↦ elim (Bool-cases (deleted_at (vertex_at g.vertex_index u).del_time t)) [
        | inl gone ↦ rw (inside, gone) (deleted-Read gone)
        | inr there ↦ there-Read inside there
      ]
    ]

  pub by_offset-ReaderLaws :
      ReaderLaws
        (by_offset {R = R} no_bits stale thread t)
        (IsReady IsClear no_bits thread vs is_sorted)
        (next_at vs t)
  by_offset-ReaderLaws = record {
    kept = λ g r u. (get_neighbours_by_offset-Read g r u).ready;
    shows = λ g r u v. (get_neighbours_by_offset-Read g r u).shows v;
  }
