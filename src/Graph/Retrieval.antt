-- ===== src/Graph/Retrieval.antt =====
-- What the search and the insertion of a vertex, src/sort.cpp, do to a graph that is in order.
use mathlib.Core.Path.{ap₂}
use radix_graph.Base.{
  ℕ, ◌+◌, ◌%◌, ◌<◌, ◌≡◌, ◌⊎◌, refl, ap, ◌∙◌, sym, subst, true, Option, none, some, ◌>>=◌, List, [],
  ◌∷◌, ◌++◌, length, get_or, if◌then◌else◌, ◌==◌, arith, Bool-cases, Option-cases, inl, inr, ==→≡,
  ==_refl, length-append, get_or-append_left, get_or-append_right,
}
use radix_graph.Edges.{Weight, Vertex, GlobalInfo}
use radix_graph.Sort.{Sort, new_vertex, retrieve_vertex}
use radix_graph.Sort.Laws as SortLaws
use radix_graph.Sort.Laws.{lookup, modulus, no_vertex}
use radix_graph.Sort.Insertion.{Retrieved, retrieve_vertex-Retrieved}
use radix_graph.Graph.Valid.{
  VertexIsValid, VerticesValid, TableIsValid, new_vertex-VertexIsValid, out_edge-new_vertex,
  out_edge, edge, edge_in,
}

module _ {W : Type 0} ⦃weight : Weight W⦄ where
  -- One more vertex in order, without edges.
  module _ (vs : List (Vertex W)) (v : VerticesValid vs) (n : Vertex W) (fresh : VertexIsValid n)
      (bare : (d : ℕ) → out_edge n d ≡ none) where
    last : get_or (vs ++ n ∷ []) (length vs) no_vertex ≡ n
    last =
        let e : length vs + 0 ≡ length vs = omega arith in
        rw e at (get_or-append_right vs (n ∷ []) 0 no_vertex)

    pub append-VerticesValid : VerticesValid (vs ++ n ∷ [])
    append-VerticesValid =
        let one_more = length-append vs (n ∷ []) in
        record {
          each = λ p h. elim (Bool-cases (p == length vs)) [
            | inl at_end ↦ rw (==→≡ _ _ at_end, last) fresh
            | inr before ↦
                let lt : p < length vs = ground arith in
                rw (get_or-append_left vs (n ∷ []) p no_vertex lt) (v.each p lt)
          ];
          closed = λ p d h beyond. elim (Bool-cases (p == length vs)) [
            | inl at_end ↦ rw (==→≡ _ _ at_end, last) (bare d)
            | inr before ↦
                let lt : p < length vs = ground arith in
                rw (get_or-append_left vs (n ∷ []) p no_vertex lt) (v.closed p d lt (omega arith))
          ];
        }

    -- A search that finds what it found before, or the new vertex instead of nothing.
    abbrev pub Extends : Option ℕ → Option ℕ → Type 0
    Extends o u = (u ≡ o) ⊎ ((o ≡ none) × (u ≡ some (length vs)))

    no_edges : (u : Option ℕ) → (u >>= (λ q. out_edge n q)) ≡ none
    no_edges none = refl
    no_edges (some q) = bare q

    pub edge_in-append :
        (o o' u u' : Option ℕ)
        → ((p : ℕ) → o ≡ some p → p < length vs)
        → Extends o u
        → Extends o' u'
        → edge_in (vs ++ n ∷ []) u u' ≡ edge_in vs o o'
    edge_in-append none o' u u' inside (inl e) ext = rw e refl
    edge_in-append none o' u u' inside (inr (k, e)) ext = rw (e, last) (no_edges u')
    edge_in-append (some p) o' u u' inside (inl e) (inl e') =
        rw (e, e', get_or-append_left vs (n ∷ []) p no_vertex (inside p refl)) refl
    edge_in-append (some p) o' u u' inside (inl e) (inr (k, e')) =
        rw (e, e', k, get_or-append_left vs (n ∷ []) p no_vertex (inside p refl))
          (v.closed p (length vs) (inside p refl) (omega arith))
    edge_in-append (some p) o' u u' inside (inr (k, e)) ext = absurd (cc)

  -- The vertex p is found for an ID; all else is as it was.
  pub record Found (t : Sort W) (id p : ℕ) (u : Sort W) : Type 0 where
    pub valid : TableIsValid u
    pub found : lookup u id ≡ some p
    pub kept : (j q : ℕ) → lookup t j ≡ some q → lookup u j ≡ some q
    pub same : (a b : ℕ) → edge u a b ≡ edge t a b
    pub widths : u.num_bits ≡ t.num_bits

  module _ {stale : ℕ → ℕ} {info : GlobalInfo} {p : ℕ} {res : Sort W × Option ℕ} (t : Sort W)
      (v : TableIsValid t) (id : ℕ) (done : Retrieved stale info t id p res) where
    lookup_self : lookup res.0 id ≡ some p
    lookup_self =
        done.lookups id ∙ ap (λ b. if b then some p else lookup t id) (==_refl (id % modulus t))

    lookup-kept : (j q : ℕ) → lookup t j ≡ some q → lookup res.0 j ≡ some q
    lookup-kept j q e = elim (Bool-cases (id % modulus t == j % modulus t)) [
      | inl same ↦
          let with_id = SortLaws.lookup-residue t v.index id j (==→≡ _ _ same) in
          rw same at (done.lookups j) ∙ ap some (done.old q (with_id ∙ e)).0
      | inr apart ↦ rw apart at (done.lookups j) ∙ e
    ]

    module _ (q : ℕ) (e : lookup t id ≡ some q) where
      same_lookup : (j : ℕ) → lookup res.0 j ≡ lookup t j
      same_lookup j = elim (Option-cases (lookup t j)) [
        | inl missing ↦ elim (Bool-cases (id % modulus t == j % modulus t)) [
          | inl same ↦
              let with_id = SortLaws.lookup-residue t v.index id j (==→≡ _ _ same) in
              absurd (some_ne_none (sym e ∙ with_id ∙ missing))
          | inr apart ↦ rw apart at (done.lookups j)
        ]
        | inr (k, there) ↦ lookup-kept j k there ∙ sym there
      ]
        where
          some_ne_none : {a : ℕ} → some a ≡ none → ⊥
          some_ne_none k = cc

      Found-old : Found t id p res.0
      Found-old =
          let table = (done.old q e).1 in
          record {
            valid = record {
              index = done.valid;
              vertices = subst VerticesValid (sym table) v.vertices;
            };
            found = lookup_self;
            kept = lookup-kept;
            same = λ a b.
                ap₂ (edge_in res.0.vertex_table) (same_lookup a) (same_lookup b)
                ∙ ap (λ (l : List (Vertex W)). edge_in l (lookup t a) (lookup t b)) table;
            widths = done.widths;
          }

    module _ (e : lookup t id ≡ none) where
      abbrev made : Vertex W
      made = new_vertex stale info id t.cnt

      made_valid : VertexIsValid made
      made_valid = new_vertex-VertexIsValid stale info id t.cnt

      made_bare : (d : ℕ) → out_edge made d ≡ none
      made_bare = out_edge-new_vertex stale info id t.cnt

      abbrev vs : List (Vertex W)
      vs = t.vertex_table

      extends :
          (j : ℕ) → Extends vs v.vertices made made_valid made_bare (lookup t j) (lookup res.0 j)
      extends j = elim (Option-cases (lookup t j)) [
        | inr (q, there) ↦ inl (lookup-kept j q there ∙ sym there)
        | inl missing ↦ elim (Bool-cases (id % modulus t == j % modulus t)) [
          | inl same ↦ inr (missing, rw same at (done.lookups j) ∙ ap some (done.made e).0)
          | inr apart ↦ inl (rw apart at (done.lookups j))
        ]
      ]

      same_edge : (a b : ℕ) → edge res.0 a b ≡ edge t a b
      same_edge a b =
          ap (λ (l : List (Vertex W)). edge_in l (lookup res.0 a) (lookup res.0 b)) (done.made e).1
          ∙ edge_in-append vs v.vertices made made_valid made_bare (lookup t a) (lookup t b)
              (lookup res.0 a) (lookup res.0 b) (λ p h. (v.index.owned a p h).0) (extends a)
              (extends b)

      Found-made : Found t id p res.0
      Found-made =
          let table = (done.made e).1 in
          record {
            valid = record {
              index = done.valid;
              vertices =
                  subst VerticesValid (sym table)
                    (append-VerticesValid vs v.vertices made made_valid made_bare);
            };
            found = lookup_self;
            kept = lookup-kept;
            same = same_edge;
            widths = done.widths;
          }

  -- `RetrieveVertex` with insertion on an index in order.
  pub retrieve_vertex-Found :
      (stale : ℕ → ℕ) (info : GlobalInfo) (t : Sort W) (id : ℕ)
      → TableIsValid t
      → (p : ℕ) × ((retrieve_vertex stale info t id true).1 ≡ some p)
        × Found t id p (retrieve_vertex stale info t id true).0
  retrieve_vertex-Found stale info t id v =
      let (p, done) = retrieve_vertex-Retrieved stale info t v.index id in
      (
        p,
        done.result,
        elim (Option-cases (lookup t id)) [
          | inl e ↦ Found-made t v id done e
          | inr (q, e) ↦ Found-old t v id done q e
        ],
      )
