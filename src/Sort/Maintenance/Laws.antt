-- ===== src/Sort/Maintenance/Laws.antt =====
-- `InsertSimpleVertex` and `DeleteVertex` of src/sort.cpp.
use mathlib.Core.Option.{some-injective}
use radix_graph.Base.{
  ℕ, ◌%◌, ◌≡◌, refl, ap, ◌∙◌, sym, Bool, false, ◌||◌, none, some, get_or, if◌then◌else◌, ◌==◌,
  Bool-cases, Option-cases, inl, inr, ==→≡,
}
use radix_graph.Edges.{Weight, Vertex, GlobalInfo}
use radix_graph.Sort.{Sort, fanout, root_of, check_existence}
use radix_graph.Sort.Trie.{Node, insert}
use radix_graph.Sort.Trie.Laws.{Inserted}
use radix_graph.Sort.Laws.{
  IsTree, IsValid, modulus, lookup, no_vertex, key, key-InRange, key-agree, insert-Inserted_pos,
  retrieve_vertex_search,
}
use radix_graph.Sort.Replacement.{at_place, elsewhere, IsValid-replaced}
use radix_graph.Sort.Start.{is_some, check_existence-IsTree}
use radix_graph.Sort.Maintenance.{insert_simple_vertex, delete_vertex, delete_found, mark_deleted}

module _ {W : Type 0} ⦃weight : Weight W⦄ where
  -- The outcome of `InsertSimpleVertex`.
  pub record SimpleInserted (t : Sort W) (vertex id : ℕ) (s : Sort W) : Type 0 where
    pub tree : IsTree s
    pub table : s.vertex_table ≡ t.vertex_table
    pub lookups :
        (j : ℕ)
        → lookup s j ≡ (
            if id % modulus t == j % modulus t
            then some (elim (lookup t id) [ none ↦ vertex | some p ↦ p ])
            else lookup t j)
    pub existence :
        (j : ℕ) → check_existence s j ≡ ((id % modulus t == j % modulus t) || check_existence t j)

  module _ (vertex : ℕ) (t : Sort W) (id : ℕ) (v : IsTree t) where
    r : Node t.depth × ℕ × Bool
    r = insert (fanout t.num_bits) (key t id) vertex t.depth 0 (root_of t)

    inserted : Inserted (fanout t.num_bits) (key t id) vertex t.depth 0 (root_of t) r
    unfolding r
    inserted =
        insert-Inserted_pos (fanout t.num_bits) (key t id) vertex t.depth 0 (root_of t) v.some_level
          (key-InRange t v id) v.shape

    after : Sort W
    after = record t { root = some r.0 }

    after-IsTree : IsTree after
    unfolding after root_of
    after-IsTree = record {
      sums = v.sums;
      deep = v.deep;
      some_level = v.some_level;
      shape = inserted.shape;
    }

    -- The vertex that was there, or the new one.
    leaf : r.1 ≡ (elim (lookup t id) [ none ↦ vertex | some p ↦ p ])
    leaf = elim (Option-cases (lookup t id)) [
      | inl e ↦ rw e (inserted.made e).0
      | inr (p, e) ↦ rw e (inserted.old p e).0
    ]

    lookup-after :
        (j : ℕ)
        → lookup after j ≡ (if id % modulus t == j % modulus t then some r.1 else lookup t j)
    unfolding after root_of
    lookup-after j = elim (Bool-cases (id % modulus t == j % modulus t)) [
      | inl same ↦ rw same (inserted.found (key t j) (key-agree t v id j ∙ same))
      | inr apart ↦ rw apart (inserted.other (key t j) (key-agree t v id j ∙ apart))
    ]

    check_existence-after :
        (j : ℕ)
        → check_existence after j ≡ ((id % modulus t == j % modulus t) || check_existence t j)
    check_existence-after j =
        check_existence-IsTree after j after-IsTree
        ∙ ap is_some (lookup-after j)
        ∙ elim (Bool-cases (id % modulus t == j % modulus t)) [
          | inl same ↦ rw same
          | inr apart ↦ rw apart (sym (check_existence-IsTree t j v))
        ]

    -- `InsertSimpleVertex` on a tree whose nodes fit its configuration: the ID, with those that
    -- the tree does not tell apart from it, leads to what stood there, or else to the new vertex,
    -- and all others are found as before. So `CheckExistence` afterwards is true of those IDs and
    -- unchanged for the others; the table of vertices stays, and the nodes fit again.
    pub insert_simple_vertex-SimpleInserted :
        SimpleInserted t vertex id (insert_simple_vertex vertex t id)
    unfolding insert_simple_vertex after r
    insert_simple_vertex-SimpleInserted = record {
      tree = after-IsTree;
      table = refl;
      lookups = λ j.
          lookup-after j
          ∙ ap (λ p. if id % modulus t == j % modulus t then some p else lookup t j) leaf;
      existence = check_existence-after;
    }

  -- The outcome of `DeleteVertex`: a vertex p of the ID, or none.
  pub record Deleted (info : GlobalInfo) (t : Sort W) (id : ℕ) (res : Sort W × Bool) : Type 0 where
    pub found : res.1 ≡ is_some (lookup t id)
    pub valid : IsValid res.0
    pub lookups : (j : ℕ) → lookup res.0 j ≡ lookup t j
    pub others :
        (q : ℕ)
        → ((lookup t id ≡ some q) → ⊥)
        → get_or res.0.vertex_table q no_vertex ≡ get_or t.vertex_table q no_vertex
    pub marked :
        (p : ℕ)
        → lookup t id ≡ some p
        → get_or res.0.vertex_table p no_vertex
          ≡ record (get_or t.vertex_table p no_vertex) { del_time = some info.global_timestamp }

  module _ (info : GlobalInfo) (t : Sort W) (id : ℕ) (v : IsValid t) where
    -- A search makes the root.
    abbrev rooted : Sort W
    rooted = record t { root = some (root_of t) }

    rooted-IsValid : IsValid rooted
    unfolding root_of
    rooted-IsValid = record {
      tree = record {
        sums = v.tree.sums;
        deep = v.tree.deep;
        some_level = v.tree.some_level;
        shape = v.tree.shape;
      };
      counted = v.counted;
      placed = v.placed;
      owned = v.owned;
    }

    delete_found-Deleted : Deleted info t id (delete_found info (rooted, lookup t id))
    unfolding root_of delete_found mark_deleted
    delete_found-Deleted = elim (Option-cases (lookup t id)) [
      | inl missing ↦ rw missing (record {
        found = rw missing;
        valid = rooted-IsValid;
        lookups = λ j. refl;
        others = λ q apart. refl;
        marked = λ p e. absurd (none_ne_some (sym missing ∙ e));
      })
      | inr (p, there) ↦
          let inside = (v.owned id p there).0 in
          let n : Vertex W = record (get_or t.vertex_table p no_vertex) {
            del_time = some info.global_timestamp;
          } in
          rw there (record {
            found = rw there;
            valid = IsValid-replaced rooted p inside n refl refl rooted-IsValid;
            lookups = λ j. refl;
            others = λ q apart. elsewhere rooted p inside n refl refl q (other p q there apart);
            marked = λ q e.
                let same : p ≡ q = some-injective p q (sym there ∙ e) in
                rw (← same) (at_place rooted p inside n refl refl);
          })
    ]
      where
        none_ne_some : {A : Type 0} {a : A} → none ≡ some a → ⊥
        none_ne_some e = cc

        other : (p q : ℕ) → lookup t id ≡ some p → (lookup t id ≡ some q → ⊥) → (p == q) ≡ false
        other p q there apart = elim (Bool-cases (p == q)) [
          | inl same ↦ absurd (apart (there ∙ ap some (==→≡ _ _ same)))
          | inr ne ↦ ne
        ]

  -- `DeleteVertex` of a tree in order says whether the map has a vertex for the ID. If so, that
  -- vertex gets the current time as its deletion time; no other vertex changes, every ID is found
  -- as before, and the tree is in order.
  pub delete_vertex-Deleted :
      (stale : ℕ → ℕ) (info : GlobalInfo) (t : Sort W) (id : ℕ)
      → IsValid t
      → Deleted info t id (delete_vertex stale info t id)
  unfolding delete_vertex
  delete_vertex-Deleted stale info t id v =
      rw (retrieve_vertex_search t v stale info id) (delete_found-Deleted info t id v)
