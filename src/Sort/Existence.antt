-- ===== src/Sort/Existence.antt =====
-- `CheckExistence` of src/sort.cpp beside `RetrieveVertex`, which has a loop of its own.
use radix_graph.Base.{ℕ, ◌%◌, ◌≡◌, ap, ◌∙◌, sym, true, false, ◌||◌, ◌==◌, Bool-cases, inl, inr}
use radix_graph.Edges.{Weight, GlobalInfo}
use radix_graph.Sort.{Sort, check_existence, retrieve_vertex}
use radix_graph.Sort.Laws.{IsValid, modulus, retrieve_vertex_search}
use radix_graph.Sort.Insertion.{retrieve_vertex-Retrieved}
use radix_graph.Sort.Start.{is_some, check_existence-IsTree}

module _ {W : Type 0} ⦃weight : Weight W⦄ (stale : ℕ → ℕ) (info : GlobalInfo) (t : Sort W)
    (v : IsValid t) (id : ℕ) where
  check_existence-search : check_existence t id ≡ is_some (retrieve_vertex stale info t id false).1
  check_existence-search =
      check_existence-IsTree t id v.tree
      ∙ ap (λ r. is_some r.1) (sym (retrieve_vertex_search t v stale info id))

  check_existence-inserted :
      (j : ℕ)
      → check_existence (retrieve_vertex stale info t id true).0 j
        ≡ ((id % modulus t == j % modulus t) || check_existence t j)
  check_existence-inserted j =
      let (p, done) = retrieve_vertex-Retrieved stale info t v id in
      check_existence-IsTree (retrieve_vertex stale info t id true).0 j done.valid.tree
      ∙ ap is_some (done.lookups j)
      ∙ elim (Bool-cases (id % modulus t == j % modulus t)) [
        | inl same ↦ rw same
        | inr apart ↦ rw apart (sym (check_existence-IsTree t j v.tree))
      ]

  -- `CheckExistence` on a tree in order is true of an ID just when `RetrieveVertex` without
  -- insertion returns a vertex for it; after `RetrieveVertex` with insertion it is true of the ID
  -- and of those that the tree does not tell apart from it, and for every other ID it is what it
  -- was.
  pub check_existence-retrieve_vertex :
      (check_existence t id ≡ is_some (retrieve_vertex stale info t id false).1)
      × ((j : ℕ)
          → check_existence (retrieve_vertex stale info t id true).0 j
            ≡ ((id % modulus t == j % modulus t) || check_existence t j))
  check_existence-retrieve_vertex = (check_existence-search, check_existence-inserted)
