-- ===== src/Sort/Laws.antt =====
-- The vertex index of src/sort.cpp as a map from IDs to vertices.
use mathlib.Core.Path.{ap₂}
use radix_graph.Base.{
  fun_ext, refl, ◌>>=◌, ℕ, zero, suc, ◌+◌, ◌%◌, ◌^◌, ◌<◌, ◌≡◌, ap, ◌∙◌, sym, subst, Bool, true,
  false, Option, none, some, [], ◌∷◌, ◌++◌, length, get_or, if◌then◌else◌, ◌==◌, arith, Bool-cases,
  inl, inr,
}
use radix_graph.Edges.{Weight, Vertex, GlobalInfo}
use radix_graph.Sort.{Sort, child_index, fanout, new_vertex, root_of, retrieve_vertex}
use radix_graph.Sort.Config.{prefix_sums}
use radix_graph.Sort.Digits.{sum_take, path, path-InRange, agree_root}
use radix_graph.Sort.Trie.{Node, child, find, insert}
use radix_graph.Sort.Trie.Laws.{agree, InRange, Shaped, Inserted, insert-Inserted}
use radix_graph.Sort.Trie.Retrieve.{retrieve-find, retrieve-insert}

-- The insertion, at any height that is not 0.
pub insert-Inserted_pos :
    (size f : ℕ → ℕ) (vertex h i : ℕ) (n : Node h)
    → 0 < h
    → InRange size f h i
    → Shaped size h i n
    → Inserted size f vertex h i n (insert size f vertex h i n)
insert-Inserted_pos size f vertex zero i n pos range s = absurd (omega arith)
insert-Inserted_pos size f vertex (suc h) i n pos range s =
    insert-Inserted size f vertex h i n range s

-- Where two paths agree, they lead to the same vertex.
pub find-agree :
    (f g : ℕ → ℕ) (h i : ℕ) (n : Node h) → agree f g h i ≡ true → find f h i n ≡ find g h i n
unfolding find
find-agree f g zero i n e = refl
find-agree f g (suc h) i n e =
    let here : f i ≡ g i = ground arith in
    let rest : agree f g h (i + 1) ≡ true = ground arith in
    rw here (ap (λ k. child h n (g i) >>= k) (fun_ext (λ c. find-agree f g h (i + 1) c rest)))

-- The number of IDs that the tree tells apart.
abbrev pub modulus : {W : Type 0} → Sort W → ℕ
modulus t = 2 ^ sum_take t.num_bits (length t.num_bits)

module _ {W : Type 0} ⦃weight : Weight W⦄ where
  abbrev pub key : Sort W → ℕ → ℕ → ℕ
  key t id = child_index t.sum_bits t.depth id

  -- The abstract state: the vertex of an ID.
  abbrev pub lookup : Sort W → ℕ → Option ℕ
  lookup t id = find (key t id) t.depth 0 (root_of t)

  abbrev pub no_vertex : Vertex W
  no_vertex = record { node = 0; idx = none; del_time = none; versions = [] }

  -- The configuration and the nodes fit.
  pub record IsTree (t : Sort W) : Type 0 where
    pub sums : t.sum_bits ≡ prefix_sums 0 t.num_bits
    pub deep : t.depth ≡ length t.num_bits
    pub some_level : 0 < t.depth
    pub shape : Shaped (fanout t.num_bits) t.depth 0 (root_of t)

  -- A vertex stands in the table at the place that it names, and its ID is the one that finds it, in
  -- the bits that the tree looks at.
  pub record IsValid (t : Sort W) : Type 0 where
    pub tree : IsTree t
    pub counted : t.cnt ≡ length t.vertex_table
    pub placed :
        (i : ℕ) → i < length t.vertex_table → (get_or t.vertex_table i no_vertex).idx ≡ some i
    pub owned :
        (id p : ℕ)
        → lookup t id ≡ some p
        → (p < length t.vertex_table)
          × ((get_or t.vertex_table p no_vertex).node % modulus t ≡ id % modulus t)

  module _ (t : Sort W) (v : IsTree t) where
    pub key-path : (id : ℕ) → key t id ≡ path t.num_bits id
    key-path id = ap₂ (λ s d. child_index s d id) v.sums v.deep

    pub key-InRange : (id : ℕ) → InRange (fanout t.num_bits) (key t id) t.depth 0
    key-InRange id =
        subst (λ f. InRange (fanout t.num_bits) f t.depth 0) (sym (key-path id))
          (path-InRange t.num_bits id t.depth 0 (omega (arith, v.deep)))

    -- Two IDs take the same path exactly when the tree does not tell them apart.
    pub key-agree :
        (a b : ℕ) → agree (key t a) (key t b) t.depth 0 ≡ (a % modulus t == b % modulus t)
    key-agree a b =
        ap₂ (λ f g. agree f g t.depth 0) (key-path a) (key-path b)
        ∙ ap (λ d. agree (path t.num_bits a) (path t.num_bits b) d 0) v.deep
        ∙ agree_root t.num_bits a b

    abbrev pub r : (id : ℕ) → Node t.depth × ℕ × Bool
    r id = insert (fanout t.num_bits) (key t id) (length t.vertex_table) t.depth 0 (root_of t)

    pub inserted :
        (id : ℕ)
        → Inserted
            (fanout t.num_bits)
            (key t id)
            (length t.vertex_table)
            t.depth
            0
            (root_of t)
            (r id)
    inserted id =
        insert-Inserted_pos (fanout t.num_bits) (key t id) (length t.vertex_table) t.depth 0
          (root_of t) v.some_level (key-InRange id) v.shape

    pub lookup-inserted :
        (id j : ℕ)
        → find (key t j) t.depth 0 (r id).0
          ≡ (if id % modulus t == j % modulus t then some (r id).1 else lookup t j)
    lookup-inserted id j =
        let same = key-agree id j in
        elim (Bool-cases (id % modulus t == j % modulus t)) [
          | inl yes_same ↦ rw yes_same ((inserted id).found (key t j) (same ∙ yes_same))
          | inr apart ↦ rw apart ((inserted id).other (key t j) (same ∙ apart))
        ]

  module _ (t : Sort W) (v : IsValid t) where
    -- `RetrieveVertex` without insertion, on a tree in order, returns what the map holds for the
    -- ID; the only change is that a missing root is made.
    pub retrieve_vertex_search :
        (stale : ℕ → ℕ) (info : GlobalInfo) (id : ℕ)
        → retrieve_vertex stale info t id false
          ≡ (record t { root = some (root_of t) }, lookup t id)
    unfolding retrieve_vertex
    retrieve_vertex_search stale info id = rw (
        retrieve-find (fanout t.num_bits) (key t id) (length t.vertex_table) t.depth 0 (root_of t)
          (key-InRange t v.tree id) v.tree.shape)

    pub retrieve_vertex_insert :
        (stale : ℕ → ℕ) (info : GlobalInfo) (id : ℕ)
        → retrieve_vertex stale info t id true ≡ (
          if (r t v.tree id).2
              then record t {
                root = some (r t v.tree id).0;
                vertex_table = t.vertex_table ++ new_vertex stale info id t.cnt ∷ [];
                cnt = t.cnt + 1;
              }
              else record t { root = some (r t v.tree id).0 },
          some (r t v.tree id).1,
        )
    unfolding retrieve_vertex
    retrieve_vertex_insert stale info id = rw (
        retrieve-insert (fanout t.num_bits) (key t id) (length t.vertex_table) t.depth 0 (root_of t)
          (key-InRange t v.tree id) v.tree.shape)

    -- IDs with the same residue are found together.
    pub lookup-residue : (a b : ℕ) → a % modulus t ≡ b % modulus t → lookup t a ≡ lookup t b
    lookup-residue a b e =
        find-agree (key t a) (key t b) t.depth 0 (root_of t) (key-agree t v.tree a b ∙ ground arith)

    -- IDs that are found together have the same residue.
    pub residue-lookup :
        (a b p : ℕ) → lookup t a ≡ some p → lookup t b ≡ some p → a % modulus t ≡ b % modulus t
    residue-lookup a b p e f = sym (v.owned a p e).1 ∙ (v.owned b p f).1
