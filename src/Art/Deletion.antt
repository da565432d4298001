-- ===== src/Art/Deletion.antt =====
-- `DeleteVertex` of src/art.cpp.
use mathlib.Core.Option.{some-injective}
use radix_graph.Base.{
  ℕ, ◌<◌, ◌≡◌, refl, ap, ◌∙◌, sym, subst, false, none, some, ◌>>=◌, length, get_or, ◌==◌,
  Bool-cases, Option-cases, inl, inr, ==→≡, ==→≢, length-set, get_or-set_self, get_or-set_ne,
}
use radix_graph.Edges.{Weight, Vertex, GlobalInfo}
use radix_graph.Sort.Laws.{no_vertex}
use radix_graph.Sort.Start.{is_some}
use radix_graph.Art.{Db, Text, Art, mark_deleted, delete_found, delete_vertex}
use radix_graph.Art.Laws.{lookup, IsValid, retrieve_vertex-lookup}

module _ {S D W : Type 0} ⦃weight : Weight W⦄ (db : Db S D) (text : Text S) where
  -- The outcome of `DeleteVertex`.
  pub record ArtDeleted (info : GlobalInfo) (t : Art D W) (id : ℕ) (after : Art D W) : Type 0 where
    pub valid : IsValid db text after
    pub lookups : (j : ℕ) → lookup db text after j ≡ lookup db text t j
    pub others :
        (q : ℕ)
        → (lookup db text t id ≡ some q → ⊥)
        → get_or after.vertex_table q no_vertex ≡ get_or t.vertex_table q no_vertex
    pub marked :
        (p : ℕ)
        → lookup db text t id ≡ some p
        → get_or after.vertex_table p no_vertex
          ≡ record (get_or t.vertex_table p no_vertex) { del_time = some info.global_timestamp }

  module _ (info : GlobalInfo) (t : Art D W) (v : IsValid db text t) (p : ℕ)
      (inside : p < length t.vertex_table) where
    place : ℕ → Vertex W
    place q = get_or t.vertex_table q no_vertex

    marked_at :
        get_or (mark_deleted info t p).vertex_table p no_vertex
        ≡ record (get_or t.vertex_table p no_vertex) { del_time = some info.global_timestamp }
    unfolding mark_deleted
    marked_at = get_or-set_self t.vertex_table p _ no_vertex inside

    unmarked_at :
        (q : ℕ)
        → (p == q) ≡ false
        → get_or (mark_deleted info t p).vertex_table q no_vertex
          ≡ get_or t.vertex_table q no_vertex
    unfolding mark_deleted
    unmarked_at q apart = get_or-set_ne t.vertex_table p q _ no_vertex (==→≢ _ _ apart)

    -- What a mark does not touch.
    same_field :
        {A : Type 0} (f : Vertex W → A)
        → ((x : Vertex W) → f (record x { del_time = some info.global_timestamp }) ≡ f x)
        → (q : ℕ)
        → f (get_or (mark_deleted info t p).vertex_table q no_vertex)
          ≡ f (get_or t.vertex_table q no_vertex)
    same_field f kept q = elim (Bool-cases (p == q)) [
      | inl same ↦
          subst
            (λ k.
              f (get_or (mark_deleted info t p).vertex_table k no_vertex)
              ≡ f (get_or t.vertex_table k no_vertex))
            (==→≡ _ _ same) (ap f marked_at ∙ kept _)
      | inr apart ↦ ap f (unmarked_at q apart)
    ]

    mark_deleted-IsValid : IsValid db text (mark_deleted info t p)
    unfolding mark_deleted
    mark_deleted-IsValid =
        let n : Vertex W = record (get_or t.vertex_table p no_vertex) {
          del_time = some info.global_timestamp;
        } in
        record {
          counted = v.counted ∙ sym (length-set t.vertex_table p n);
          placed = λ i h. same_field (λ x. x.idx) (λ x. refl) i ∙ v.placed i (rw length-set at h);
          owned = λ id s e.
              let (q, read, there, node) = v.owned id s e in
              (q, read, rw length-set there, same_field (λ x. x.node) (λ x. refl) q ∙ node);
        }

  -- `DeleteVertex` of ART, on an index in order, throws no exception and says whether the map has
  -- a vertex for the ID. If so, that vertex gets the current time as its deletion time; no other
  -- vertex changes, every ID is found as before, and the index is in order.
  pub delete_vertex-ArtDeleted :
      (stale : ℕ → ℕ) (info : GlobalInfo) (t : Art D W) (id : ℕ)
      → IsValid db text t
      → (after : Art D W) × (delete_vertex db text stale info t id
          ≡ some (after, is_some (lookup db text t id)))
        × ArtDeleted info t id after
  unfolding delete_vertex delete_found
  delete_vertex-ArtDeleted stale info t id v =
      let run = retrieve_vertex-lookup db text t v stale info id in
      elim (Option-cases (lookup db text t id)) [
        | inl missing ↦ (
          t,
          rw (run, missing),
          record {
            valid = v;
            lookups = λ j. refl;
            others = λ q apart. refl;
            marked = λ p e. absurd (none_ne_some (sym missing ∙ e));
          },
        )
        | inr (p, there) ↦
            let inside : p < length t.vertex_table = place_of p there in
            (
              mark_deleted info t p,
              rw (run, there),
              record {
                valid = mark_deleted-IsValid info t v p inside;
                lookups = λ j. unfold mark_deleted in refl;
                others = λ q apart. unmarked_at info t v p inside q (other p q there apart);
                marked = λ q e.
                    let same : p ≡ q = some-injective p q (sym there ∙ e) in
                    rw (← same) (marked_at info t v p inside);
              },
            )
      ]
    where
      none_ne_some : {A : Type 0} {a : A} → none ≡ some a → ⊥
      none_ne_some e = cc

      other :
          (p q : ℕ)
          → lookup db text t id ≡ some p
          → (lookup db text t id ≡ some q → ⊥)
          → (p == q) ≡ false
      other p q there apart = elim (Bool-cases (p == q)) [
        | inl same ↦ absurd (apart (there ∙ ap some (==→≡ _ _ same)))
        | inr ne ↦ ne
      ]

      place_of : (p : ℕ) → lookup db text t id ≡ some p → p < length t.vertex_table
      place_of p e = elim (Option-cases (db.get t.tree id)) [
        | inl missing ↦ absurd (none_ne_some (sym (ap (λ o. o >>= text.stoull) missing) ∙ e))
        | inr (s, there) ↦
            let (q, read, inside, node) = v.owned id s there in
            let hit = ap (λ o. o >>= text.stoull) there ∙ read in
            subst (λ k. k < length t.vertex_table) (some-injective q p (sym hit ∙ e)) inside
      ]
