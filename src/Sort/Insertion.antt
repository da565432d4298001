-- ===== src/Sort/Insertion.antt =====
-- `RetrieveVertex` of src/sort.cpp with insertion: the map, the table of vertices and the invariant.
use mathlib.Core.Option.{some-injective}
use radix_graph.Base.{
  ℕ, ◌+◌, ◌%◌, ◌<◌, ◌≡◌, refl, ap, ◌∙◌, sym, subst, Bool, true, Option, none, some, List, [], ◌∷◌,
  ◌++◌, length, get_or, if◌then◌else◌, ◌==◌, arith, Bool-cases, Option-cases, inl, inr, ==→≡,
  length-append, get_or-append_left, get_or-append_right,
}
use radix_graph.Edges.{Weight, Vertex, GlobalInfo}
use radix_graph.Sort.{Sort, new_vertex, root_of, retrieve_vertex}
use radix_graph.Sort.Trie.{Node}
use radix_graph.Sort.Laws.{
  modulus, lookup, no_vertex, IsValid, r, inserted, retrieve_vertex_insert, lookup-inserted,
}

-- The outcome of `RetrieveVertex` with insertion: a vertex p.
pub record Retrieved {W : Type 0} ⦃weight : Weight W⦄ (stale : ℕ → ℕ) (info : GlobalInfo)
    (t : Sort W) (id p : ℕ) (res : Sort W × Option ℕ) : Type 0 where
  pub result : res.1 ≡ some p
  pub lookups :
      (j : ℕ) → lookup res.0 j ≡ (if id % modulus t == j % modulus t then some p else lookup t j)
  pub valid : IsValid res.0
  pub widths : res.0.num_bits ≡ t.num_bits
  pub old : (q : ℕ) → lookup t id ≡ some q → (p ≡ q) × (res.0.vertex_table ≡ t.vertex_table)
  pub made :
      lookup t id ≡ none
      → (p ≡ length t.vertex_table)
        × (res.0.vertex_table ≡ t.vertex_table ++ new_vertex stale info id t.cnt ∷ [])

module _ {W : Type 0} ⦃weight : Weight W⦄ (stale : ℕ → ℕ) (info : GlobalInfo) (t : Sort W)
    (v : IsValid t) (id : ℕ) where
  abbrev n : Node t.depth × ℕ × Bool
  n = r t v.tree id

  kept_Retrieved :
      (q : ℕ)
      → lookup t id ≡ some q
      → Retrieved stale info t id n.1 (record t { root = some n.0 }, some n.1)
  unfolding root_of
  kept_Retrieved q e =
      let hit = (inserted t v.tree id).old q e in
      record {
        result = refl;
        lookups = lookup-inserted t v.tree id;
        valid = record {
          tree = record {
            sums = v.tree.sums;
            deep = v.tree.deep;
            some_level = v.tree.some_level;
            shape = (inserted t v.tree id).shape;
          };
          counted = v.counted;
          placed = v.placed;
          owned = λ j p l. elim (Bool-cases (id % modulus t == j % modulus t)) [
            | inl same ↦
                let here = rw same at (lookup-inserted t v.tree id j) in
                let at_p : q ≡ p = sym hit.0 ∙ some-injective _ p (sym here ∙ l) in
                let o = v.owned id q e in
                subst
                  (λ k.
                    (k < length t.vertex_table)
                    × ((get_or t.vertex_table k no_vertex).node % modulus t ≡ j % modulus t))
                  at_p (o.0, o.1 ∙ ==→≡ _ _ same)
            | inr apart ↦ v.owned j p (sym (rw apart at (lookup-inserted t v.tree id j)) ∙ l)
          ];
        };
        widths = refl;
        old = λ p l. (hit.0 ∙ some-injective q p (sym e ∙ l), refl);
        made = λ l. cc;
      }

  -- The table with the new vertex behind.
  abbrev grown : List (Vertex W)
  grown = t.vertex_table ++ new_vertex stale info id t.cnt ∷ []

  grown_last : get_or grown (length t.vertex_table) no_vertex ≡ new_vertex stale info id t.cnt
  grown_last =
      let e : length t.vertex_table + 0 ≡ length t.vertex_table = omega arith in
      rw e at (get_or-append_right t.vertex_table (new_vertex stale info id t.cnt ∷ []) 0 no_vertex)

  grown_before :
      (i : ℕ)
      → i < length t.vertex_table
      → get_or grown i no_vertex ≡ get_or t.vertex_table i no_vertex
  grown_before i h = get_or-append_left t.vertex_table _ i no_vertex h

  length-grown : length grown ≡ length t.vertex_table + 1
  length-grown = length-append t.vertex_table _

  grown-placed : (i : ℕ) → i < length grown → (get_or grown i no_vertex).idx ≡ some i
  unfolding new_vertex
  grown-placed i h = elim (Bool-cases (i == length t.vertex_table)) [
    | inl last ↦ let e = ==→≡ _ _ last in rw (e, grown_last) (ap some v.counted)
    | inr before ↦
        let lt : i < length t.vertex_table = ground (arith, length-grown, h) in
        rw (grown_before i lt) (v.placed i lt)
  ]

  abbrev tree : Sort W
  tree = record t { root = some n.0; vertex_table = grown; cnt = t.cnt + 1 }

  made_Retrieved : lookup t id ≡ none → Retrieved stale info t id n.1 (tree, some n.1)
  unfolding root_of
  made_Retrieved e =
      let hit = (inserted t v.tree id).made e in
      record {
        result = refl;
        lookups = lookup-inserted t v.tree id;
        valid = record {
          tree = record {
            sums = v.tree.sums;
            deep = v.tree.deep;
            some_level = v.tree.some_level;
            shape = (inserted t v.tree id).shape;
          };
          counted = rw length-grown (omega (arith, v.counted));
          placed = grown-placed;
          owned = λ j p l. elim (Bool-cases (id % modulus t == j % modulus t)) [
            | inl same ↦
                let here = rw same at (lookup-inserted t v.tree id j) in
                let at_p : length t.vertex_table ≡ p =
                  sym hit.0 ∙ some-injective _ p (sym here ∙ l) in
                subst
                  (λ k.
                    (k < length grown)
                    × ((get_or grown k no_vertex).node % modulus t ≡ j % modulus t))
                  at_p
                  (omega (arith, length-grown), rw grown_last (unfold new_vertex in ==→≡ _ _ same))
            | inr apart ↦
                let o = v.owned j p (sym (rw apart at (lookup-inserted t v.tree id j)) ∙ l) in
                (omega (arith, length-grown, o.0), rw (grown_before p o.0) o.1)
          ];
        };
        widths = refl;
        old = λ q l. cc;
        made = λ l. (hit.0, refl);
      }

  retrieved : Retrieved stale info t id n.1 (retrieve_vertex stale info t id true)
  retrieved = elim (Option-cases (lookup t id)) [
    | inl e ↦
        let made = (inserted t v.tree id).made e in
        let run = rw made.1 at (retrieve_vertex_insert t v stale info id) in
        rw run (made_Retrieved e)
    | inr (q, e) ↦
        let old = (inserted t v.tree id).old q e in
        let run = rw old.1 at (retrieve_vertex_insert t v stale info id) in
        rw run (kept_Retrieved q e)
  ]

  -- `RetrieveVertex` with insertion, on a tree in order, returns a vertex for the ID: the one that
  -- the map held, and then the table is as it was, or else the next place of the table, which gets
  -- the new vertex of the ID. All other IDs are found as before, IDs that the tree does not tell
  -- apart share the vertex, and the tree is in order again.
  pub retrieve_vertex-Retrieved :
      (p : ℕ) × Retrieved stale info t id p (retrieve_vertex stale info t id true)
  retrieve_vertex-Retrieved = (n.1, retrieved)
