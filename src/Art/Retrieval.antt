-- ===== src/Art/Retrieval.antt =====
-- `RetrieveVertex` of src/art.cpp with insertion, and `DeleteVertex`.
use mathlib.Core.Option.{some-injective}
use radix_graph.Base.{
  ℕ, ◌+◌, ◌^◌, ◌<◌, ◌≡◌, refl, ap, ◌∙◌, sym, subst, true, none, some, ◌>>=◌, List, [], ◌∷◌, ◌++◌,
  length, get_or, if◌then◌else◌, ◌==◌, arith, Bool-cases, Option-cases, inl, inr, ==→≡,
  length-append, get_or-append_left, get_or-append_right,
}
use radix_graph.Edges.{Weight, Vertex, GlobalInfo}
use radix_graph.Sort.{new_vertex}
use radix_graph.Sort.Laws.{no_vertex}
use radix_graph.Art.{
  Db, Text, Art, vertex_ptr, retrieve_vertex, retrieve_from, insert_locked, make_vertex,
}
use radix_graph.Art.Laws.{DbLaws, TextLaws, lookup, IsValid}

-- The outcome of `RetrieveVertex` with insertion: a vertex p.
pub record ArtRetrieved {S D W : Type 0} ⦃weight : Weight W⦄ (db : Db S D) (text : Text S)
    (stale : ℕ → ℕ) (info : GlobalInfo) (t : Art D W) (id p : ℕ) (after : Art D W) : Type 0 where
  pub lookups : (j : ℕ) → lookup db text after j ≡ (if id == j then some p else lookup db text t j)
  pub valid : IsValid db text after
  pub old : (q : ℕ) → lookup db text t id ≡ some q → (p ≡ q) × (after ≡ t)
  pub made :
      lookup db text t id ≡ none
      → (p ≡ length t.vertex_table)
        × (after.vertex_table ≡ t.vertex_table ++ new_vertex stale info id t.cnt ∷ [])

module _ {S D W : Type 0} ⦃weight : Weight W⦄ (db : Db S D) (text : Text S) (laws : DbLaws db)
    (texts : TextLaws text) (stale : ℕ → ℕ) (info : GlobalInfo) (t : Art D W)
    (v : IsValid db text t) (id : ℕ) where
  kept-ArtRetrieved :
      (p : ℕ) → lookup db text t id ≡ some p → ArtRetrieved db text stale info t id p t
  kept-ArtRetrieved p e = record {
    lookups = λ j. elim (Bool-cases (id == j)) [
      | inl same ↦ rw same (subst (λ k. lookup db text t k ≡ some p) (==→≡ _ _ same) e)
      | inr apart ↦ rw apart
    ];
    valid = v;
    old = λ q f. (some-injective p q (sym e ∙ f), refl);
    made = λ f. absurd (some_ne_none (sym e ∙ f));
  }
    where
      some_ne_none : {A : Type 0} {a : A} → some a ≡ none → ⊥
      some_ne_none e = cc

  abbrev grown : List (Vertex W)
  grown = t.vertex_table ++ new_vertex stale info id t.cnt ∷ []

  abbrev place : ℕ
  place = length t.vertex_table

  grown_last : get_or grown place no_vertex ≡ new_vertex stale info id t.cnt
  grown_last =
      let e : place + 0 ≡ place = omega arith in
      rw e at (get_or-append_right t.vertex_table (new_vertex stale info id t.cnt ∷ []) 0 no_vertex)

  grown_before : (i : ℕ) → i < place → get_or grown i no_vertex ≡ get_or t.vertex_table i no_vertex
  grown_before i h = get_or-append_left t.vertex_table _ i no_vertex h

  length-grown : length grown ≡ place + 1
  length-grown = length-append t.vertex_table _

  grown-placed : (i : ℕ) → i < length grown → (get_or grown i no_vertex).idx ≡ some i
  unfolding new_vertex
  grown-placed i h = elim (Bool-cases (i == place)) [
    | inl last ↦ let e = ==→≡ _ _ last in rw (e, grown_last) (ap some v.counted)
    | inr before ↦
        let lt : i < place = ground (arith, length-grown, h) in
        rw (grown_before i lt) (v.placed i lt)
  ]

  module _ (missing : db.get t.tree id ≡ none) (room : place < 2 ^ 64) where
    abbrev made : Art D W
    made = (make_vertex db text stale info t id).0

    get-made :
        (j : ℕ)
        → db.get made.tree j ≡ (if id == j then some (text.to_string place) else db.get t.tree j)
    unfolding make_vertex
    get-made j = laws.get_insert t.tree id (text.to_string place) j ∙ (rw missing)

    lookup-made :
        (j : ℕ) → lookup db text made j ≡ (if id == j then some place else lookup db text t j)
    lookup-made j = elim (Bool-cases (id == j)) [
      | inl same ↦ rw (get-made j, same, texts.round_trip place room)
      | inr apart ↦ rw (get-made j, apart)
    ]

    made-IsValid : IsValid db text made
    made-IsValid = record {
      counted = unfold make_vertex in rw length-grown (omega (arith, v.counted));
      placed = unfold make_vertex in grown-placed;
      owned = λ j s e. elim (Bool-cases (id == j)) [
        | inl same ↦
            let here : some (text.to_string place) ≡ some s = rw same at (sym (get-made j) ∙ e) in
            (
              place,
              ap text.stoull (sym (some-injective _ _ here)) ∙ texts.round_trip place room,
              unfold make_vertex in omega (arith, length-grown),
              unfold make_vertex in rw grown_last (unfold new_vertex in ==→≡ _ _ same),
            )
        | inr apart ↦
            let there : db.get t.tree j ≡ some s = rw apart at (sym (get-made j) ∙ e) in
            let (p, read, inside, node) = v.owned j s there in
            (
              p,
              read,
              unfold make_vertex in omega (arith, length-grown, inside),
              unfold make_vertex in rw (grown_before p inside) node,
            )
      ];
    }

    made-ArtRetrieved : ArtRetrieved db text stale info t id place made
    made-ArtRetrieved = record {
      lookups = lookup-made;
      valid = made-IsValid;
      old = λ q f. absurd (none_ne_some (sym (ap (λ o. o >>= text.stoull) missing) ∙ f));
      made = λ f. (refl, unfold make_vertex in refl);
    }
      where
        none_ne_some : {A : Type 0} {a : A} → none ≡ some a → ⊥
        none_ne_some e = cc

  run_made :
      db.get t.tree id ≡ none
      → retrieve_vertex db text stale info t id true ≡ some (make_vertex db text stale info t id)
  unfolding retrieve_vertex retrieve_from insert_locked
  run_made missing = rw (missing, retrieve_from, missing)

  run_kept :
      (s : S) (p : ℕ)
      → db.get t.tree id ≡ some s
      → text.stoull s ≡ some p
      → retrieve_vertex db text stale info t id true ≡ some (t, some p)
  unfolding retrieve_vertex retrieve_from vertex_ptr
  run_kept s p there read = rw (there, read)

  -- `RetrieveVertex` of ART with insertion, for a tree of the library and texts that obey their
  -- laws, on an index in order with fewer than 2 ^ 64 vertices: it ends without an exception with
  -- a vertex for the ID, the one that the map held, and then nothing changes, or else the next
  -- place of the table, which gets the new vertex. All other IDs are found as before, and the
  -- index is in order.
  pub retrieve_vertex-ArtRetrieved :
      length t.vertex_table < 2 ^ 64
      → (p : ℕ) × (after : Art D W) × (retrieve_vertex db text stale info t id true
          ≡ some (after, some p))
        × ArtRetrieved db text stale info t id p after
  retrieve_vertex-ArtRetrieved room = elim (Option-cases (db.get t.tree id)) [
    | inl missing ↦ (
      place,
      made missing room,
      unfold make_vertex in run_made missing,
      made-ArtRetrieved missing room,
    )
    | inr (s, there) ↦
        let (p, read, inside, node) = v.owned id s there in
        (
          p,
          t,
          run_kept s p there read,
          kept-ArtRetrieved p (ap (λ o. o >>= text.stoull) there ∙ read),
        )
  ]
