-- ===== src/Art/Laws.antt =====
-- What src/art.cpp relies on in the tree and the texts, the vertices as a map from IDs, and
-- `RetrieveVertex` without insertion.
use radix_graph.Base.{
  ℕ, ◌^◌, ◌<◌, ◌≡◌, refl, ◌∙◌, sym, Bool, true, false, Option, none, some, ◌>>=◌, length, get_or,
  if◌then◌else◌, ◌==◌, arith, Option-cases, inl, inr, ==_refl,
}
use radix_graph.Edges.{Weight, GlobalInfo}
use radix_graph.Sort.Laws.{no_vertex}
use radix_graph.Sort.Start.{is_some}
use radix_graph.Art.{
  Db, Text, Art, vertex_ptr, check_existence, insert_simple_vertex, retrieve_vertex, retrieve_from,
  new,
}

-- `insert` keeps the value of a key that is there, and says whether there was none.
pub record DbLaws {S D : Type 0} (db : Db S D) : Type 0 where
  pub get_empty : (k : ℕ) → db.get db.empty k ≡ none
  pub get_insert :
      (d : D) (k : ℕ) (s : S) (j : ℕ)
      → db.get (db.insert d k s).0 j
        ≡ (if k == j then some (elim (db.get d k) [ none ↦ s | some old ↦ old ]) else db.get d j)

-- A number below 2 ^ 64 is read back from its text, and "test" is none.
pub record TextLaws {S : Type 0} (text : Text S) : Type 0 where
  pub round_trip : (n : ℕ) → n < 2 ^ 64 → text.stoull (text.to_string n) ≡ some n
  pub no_number : text.stoull text.test_value ≡ none

module _ {S D W : Type 0} ⦃weight : Weight W⦄ (db : Db S D) (text : Text S) where
  -- The abstract state: the vertex of an ID.
  abbrev pub lookup : Art D W → ℕ → Option ℕ
  lookup t id = db.get t.tree id >>= text.stoull

  -- Every value is the text of the place of a vertex with the ID.
  pub record IsValid (t : Art D W) : Type 0 where
    pub counted : t.cnt ≡ length t.vertex_table
    pub placed :
        (i : ℕ) → i < length t.vertex_table → (get_or t.vertex_table i no_vertex).idx ≡ some i
    pub owned :
        (id : ℕ) (s : S)
        → db.get t.tree id ≡ some s
        → (p : ℕ) × (text.stoull s ≡ some p)
          × (p < length t.vertex_table)
          × ((get_or t.vertex_table p no_vertex).node ≡ id)

  module _ (laws : DbLaws db) where
    pub new-IsValid : IsValid (new db) × ((id : ℕ) → lookup (new db) id ≡ none)
    unfolding new
    new-IsValid = (
      record {
        counted = refl;
        placed = λ i h. absurd (omega arith);
        owned = λ id s e. absurd (none_ne_some (sym (laws.get_empty id) ∙ e));
      },
      λ id. rw (laws.get_empty id),
    )
      where
        none_ne_some : {A : Type 0} {a : A} → none ≡ some a → ⊥
        none_ne_some e = cc

  module _ (t : Art D W) (v : IsValid t) where
    -- `RetrieveVertex` of ART without insertion, on an index in order, throws no exception,
    -- changes nothing and returns what the map holds for the ID.
    pub retrieve_vertex-lookup :
        (stale : ℕ → ℕ) (info : GlobalInfo) (id : ℕ)
        → retrieve_vertex db text stale info t id false ≡ some (t, lookup t id)
    unfolding retrieve_vertex retrieve_from vertex_ptr
    retrieve_vertex-lookup stale info id = elim (Option-cases (db.get t.tree id)) [
      | inl missing ↦ rw missing
      | inr (s, there) ↦ rw (there, (v.owned id s there).1)
    ]

    pub check_existence-lookup : (id : ℕ) → check_existence db t id ≡ is_some (lookup t id)
    unfolding check_existence
    check_existence-lookup id = elim (Option-cases (db.get t.tree id)) [
      | inl missing ↦ rw (missing, check_existence)
      | inr (s, there) ↦ rw (there, (v.owned id s there).1, check_existence)
    ]

  -- `InsertSimpleVertex` of ART for an ID that the tree does not have, for a tree of the library
  -- and texts that obey their laws: `CheckExistence` of the ID is then true, and `RetrieveVertex`
  -- of it throws an exception, with insertion or without.
  pub insert_simple_vertex_throws :
      DbLaws db
      → TextLaws text
      → (stale : ℕ → ℕ) (info : GlobalInfo) (t : Art D W) (id : ℕ) (insert_mode : Bool)
      → db.get t.tree id ≡ none
      → (check_existence db (insert_simple_vertex db text t id) id ≡ true)
        × (retrieve_vertex db text stale info (insert_simple_vertex db text t id) id insert_mode
            ≡ none)
  unfolding insert_simple_vertex check_existence retrieve_vertex retrieve_from vertex_ptr
  insert_simple_vertex_throws laws texts stale info t id insert_mode missing =
      let got : db.get (db.insert t.tree id text.test_value).0 id ≡ some text.test_value =
        laws.get_insert t.tree id text.test_value id ∙ (rw (==_refl id, missing)) in
      (rw (got, check_existence), rw (got, texts.no_number))
