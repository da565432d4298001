-- ===== src/Art.antt =====
-- `ART` of src/art.h and src/art.cpp: the index that keeps the vertices in an adaptive radix tree of the
-- unodb library, with `USE_VERTEX_TABLE` set. A value of the tree is the text of a pointer; the
-- pointer is the place of the vertex in `vertex_table`, which never moves. The tree and the texts
-- are parameters. An exception of `std::stoull` is none.
pub mod Laws
pub mod Retrieval
pub mod Deletion
use radix_graph.Base.{
  ℕ, ◌+◌, ◌%◌, ◌^◌, ◌<◌, ◌≡◌, Bool, true, false, Option, none, some, ◌>>=◌, List, [], ◌∷◌, ◌++◌,
  length, get_or, set, if◌then◌else◌, ◌==◌,
}
use radix_graph.Edges.{Weight, Vertex, GlobalInfo}
use radix_graph.Sort.{new_vertex}
use radix_graph.Sort.Laws.{no_vertex}

-- `unodb::olc_db`: the empty tree, `get`, and `insert` with whether the key was new.
pub record Db (S D : Type 0) : Type 0 where
  pub empty : D
  pub get : D → ℕ → Option S
  pub insert : D → ℕ → S → D × Bool

-- `std::to_string` and `std::stoull`, none for its exception, with the constant "test".
pub record Text (S : Type 0) : Type 0 where
  pub to_string : ℕ → S
  pub stoull : S → Option ℕ
  pub test_value : S

pub record Art (D W : Type 0) : Type 0 where
  pub tree : D
  pub vertex_table : List (Vertex W)
  pub cnt : ℕ

module _ {S : Type 0} (text : Text S) where
  -- The value as a pointer, null where there is none.
  unfoldable pub vertex_ptr : Option S → Option (Option ℕ)
  vertex_ptr none = some none
  vertex_ptr (some s) = text.stoull s >>= (λ p. some (some p))

module _ {S D W : Type 0} (db : Db S D) where
  unfoldable pub new : Art D W
  new = record { tree = db.empty; vertex_table = []; cnt = 0 }

  unfoldable pub check_existence : Art D W → ℕ → Bool
  check_existence t id = elim (db.get t.tree id) [ none ↦ false | some s ↦ true ]

module _ {D W : Type 0} ⦃weight : Weight W⦄ where
  -- The vertex at a place gets the time of its deletion.
  unfoldable pub mark_deleted : GlobalInfo → Art D W → ℕ → Art D W
  mark_deleted info t p = record t {
    vertex_table =
        set t.vertex_table p
          (record (get_or t.vertex_table p no_vertex) { del_time = some info.global_timestamp });
  }

  unfoldable pub delete_found : GlobalInfo → Art D W × Option ℕ → Art D W × Bool
  delete_found info (t, none) = (t, false)
  delete_found info (t, some p) = (mark_deleted info t p, true)

module _ {S D W : Type 0} ⦃weight : Weight W⦄ (db : Db S D) (text : Text S) where
  -- The pointer beside the index as it is.
  abbrev pub return_ptr : Art D W → Option S → Option (Art D W × Option ℕ)
  return_ptr t result = vertex_ptr text result >>= (λ p. some (t, p))

  -- The key stays as it is where it has a value.
  unfoldable pub insert_simple_vertex : Art D W → ℕ → Art D W
  insert_simple_vertex t id = record t { tree = (db.insert t.tree id text.test_value).0 }

  -- The table gets a slot, and the tree the pointer to it.
  unfoldable pub make_vertex : (ℕ → ℕ) → GlobalInfo → Art D W → ℕ → Art D W × Option ℕ
  make_vertex stale info t id =
      let p = length t.vertex_table in
      (
        record {
          tree = (db.insert t.tree id (text.to_string p)).0;
          vertex_table = t.vertex_table ++ new_vertex stale info id t.cnt ∷ [];
          cnt = t.cnt + 1;
        },
        some p,
      )

  -- The part of `RetrieveVertex` under the lock: the key is looked up once more.
  unfoldable pub insert_locked :
      (ℕ → ℕ) → GlobalInfo → Art D W → ℕ → Option S → Option (Art D W × Option ℕ)
  insert_locked stale info t id none = some (make_vertex stale info t id)
  insert_locked stale info t id (some s) = return_ptr t (some s)

  unfoldable pub retrieve_from :
      (ℕ → ℕ) → GlobalInfo → Art D W → ℕ → Bool → Option S → Option (Art D W × Option ℕ)
  retrieve_from stale info t id insert_mode (some s) = return_ptr t (some s)
  retrieve_from stale info t id true none = insert_locked stale info t id (db.get t.tree id)
  retrieve_from stale info t id false none = some (t, none)

  unfoldable pub retrieve_vertex :
      (ℕ → ℕ) → GlobalInfo → Art D W → ℕ → Bool → Option (Art D W × Option ℕ)
  retrieve_vertex stale info t id insert_mode =
      retrieve_from stale info t id insert_mode (db.get t.tree id)

  unfoldable pub delete_vertex : (ℕ → ℕ) → GlobalInfo → Art D W → ℕ → Option (Art D W × Bool)
  delete_vertex stale info t id =
      retrieve_vertex stale info t id false >>= (λ r. some (delete_found info r))
