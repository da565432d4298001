-- ===== src/Sort/Replacement.antt =====
-- The index of src/sort.cpp when a vertex in its table changes.
use radix_graph.Base.{
  ℕ, ◌%◌, ◌<◌, ◌≡◌, refl, ap, ◌∙◌, sym, subst, false, length, get_or, set, ◌==◌, Bool-cases, inl,
  inr, ==→≡, ==→≢, length-set, get_or-set_self, get_or-set_ne,
}
use radix_graph.Edges.{Weight, Vertex}
use radix_graph.Sort.{Sort, root_of}
use radix_graph.Sort.Laws.{IsValid, lookup, modulus, no_vertex}

module _ {W : Type 0} ⦃weight : Weight W⦄ where
  abbrev place : Sort W → ℕ → Vertex W
  place t p = get_or t.vertex_table p no_vertex

  -- A vertex is replaced by one with the same IDs.
  module _ (t : Sort W) (p : ℕ) (inside : p < length t.vertex_table) (n : Vertex W)
      (node : n.node ≡ (place t p).node) (idx : n.idx ≡ (place t p).idx) where
    abbrev pub replaced : Sort W
    replaced = record t { vertex_table = set t.vertex_table p n }

    pub at_place : place replaced p ≡ n
    at_place = get_or-set_self t.vertex_table p n no_vertex inside

    pub elsewhere : (q : ℕ) → (p == q) ≡ false → place replaced q ≡ place t q
    elsewhere q apart = get_or-set_ne t.vertex_table p q n no_vertex (==→≢ _ _ apart)

    same_idx : (q : ℕ) → (place replaced q).idx ≡ (place t q).idx
    same_idx q = elim (Bool-cases (p == q)) [
      | inl here ↦
          subst (λ k. (place replaced k).idx ≡ (place t k).idx) (==→≡ _ _ here)
            (ap (λ (x : Vertex W). x.idx) at_place ∙ idx)
      | inr apart ↦ ap (λ (x : Vertex W). x.idx) (elsewhere q apart)
    ]

    same_node : (q : ℕ) → (place replaced q).node ≡ (place t q).node
    same_node q = elim (Bool-cases (p == q)) [
      | inl here ↦
          subst (λ k. (place replaced k).node ≡ (place t k).node) (==→≡ _ _ here)
            (ap (λ (x : Vertex W). x.node) at_place ∙ node)
      | inr apart ↦ ap (λ (x : Vertex W). x.node) (elsewhere q apart)
    ]

    pub lookup-replaced : (j : ℕ) → lookup replaced j ≡ lookup t j
    unfolding root_of
    lookup-replaced j = refl

    pub IsValid-replaced : IsValid t → IsValid replaced
    unfolding root_of
    IsValid-replaced v = record {
      tree = record {
        sums = v.tree.sums;
        deep = v.tree.deep;
        some_level = v.tree.some_level;
        shape = v.tree.shape;
      };
      counted = v.counted ∙ sym (length-set t.vertex_table p n);
      placed = λ q h. same_idx q ∙ v.placed q (rw length-set at h);
      owned = λ id q h.
          let o = v.owned id q h in
          (rw length-set o.0, ap (λ k. k % modulus t) (same_node q) ∙ o.1);
    }
