-- ===== src/Sort/Trie/Retrieve.antt =====
-- `RetrieveVertex` of src/sort.cpp, which searches and inserts by one walk, is the plain search or
-- the plain insertion.
use radix_graph.Base.{
  ℕ, zero, suc, ◌+◌, ◌<◌, ◌≡◌, refl, ap, Bool, true, false, Option, none, some, length,
  Option-cases, inl, inr, set_same,
}
use radix_graph.Sort.Trie.{Node, child, with_child, find, insert, retrieve}
use radix_graph.Sort.Trie.Laws.{InRange, Shaped}

-- What `RetrieveVertex` returns of an insertion.
abbrev pub answer {ℓ} : {A : Type ℓ} → A × ℕ × Bool → A × Option ℕ × Bool
answer r = (r.0, some r.1, r.2)

module _ (size f : ℕ → ℕ) (vertex : ℕ) where
  -- A search changes nothing, and finds what stands at the end of the path.
  pub retrieve-find :
      (h i : ℕ) (t : Node h)
      → InRange size f h i
      → Shaped size h i t
      → retrieve size f vertex false h i t ≡ (t, find f h i t, false)
  unfolding retrieve find
  retrieve-find zero i t range s = refl
  retrieve-find (suc h) i kids range s = elim (Option-cases (child h kids (f i))) [
    | inl e ↦ rw (e, retrieve)
    | inr (c, e) ↦ rw (
      e,
      retrieve,
      retrieve-find h (i + 1) c range.1 (s.1 (f i) c e),
      set_same kids (f i) (some c) none (rw s.0 range.0) e,
    )
  ]

  insert_child :
      (h i : ℕ) (kids : Node (suc h)) (c : Node h)
      → f i < length kids
      → child h kids (f i) ≡ some c
      → (let r = insert size f vertex h (i + 1) c in
          ◌≡◌ {A = Node (suc h) × ℕ × Bool}
            (with_child h kids (f i) r.0, r.1, r.2)
            (insert size f vertex (suc h) i kids))
  unfolding insert
  insert_child zero i kids c room e =
      rw (e, insert) (ap (λ k. (k, c, false)) (set_same kids (f i) (some c) none room e))
  insert_child (suc h) i kids c room e = rw (e, insert)

  pub retrieve-insert :
      (h i : ℕ) (t : Node h)
      → InRange size f h i
      → Shaped size h i t
      → retrieve size f vertex true h i t ≡ answer (insert size f vertex h i t)
  unfolding retrieve
  retrieve-insert zero i t range s = unfold insert in refl
  retrieve-insert (suc h) i kids range s = elim (Option-cases (child h kids (f i))) [
    | inl e ↦ rw (e, retrieve)
    | inr (c, e) ↦
        rw (e, retrieve, retrieve-insert h (i + 1) c range.1 (s.1 (f i) c e))
          (ap answer (insert_child h i kids c (rw s.0 range.0) e))
  ]
