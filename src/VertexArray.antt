-- ===== src/VertexArray.antt =====
-- `VertexArray` of src/vertex_array.h and src/vertex_array.cpp: the index in which an ID is the place
-- of its vertex. A read or write out of range, and a loop of `set_bit_atomic` that finds its bit set
-- and would wait for another thread, are none.
pub mod Laws
use radix_graph.Base.{
  ℕ, zero, suc, ◌+◌, Bool, true, false, Option, none, some, ◌>>=◌, List, [], ◌∷◌, length, get_or,
  set, replicate, if◌then◌else◌, leb,
}
use radix_graph.Bitmap.Atomic
use radix_graph.Bitmap.Atomic.{AtomicBitmap}
use radix_graph.Edges.{Weight, Vertex, GlobalInfo, new_array}

pub record VertexArray (W : Type 0) : Type 0 where
  pub vertex_table : List (Vertex W)
  pub mtx : AtomicBitmap
  pub cnt : ℕ

-- `idx != -1`
abbrev pub is_set : Option ℕ → Bool
is_set none = false
is_set (some i) = true

module _ {W : Type 0} ⦃weight : Weight W⦄ where
  -- A vertex as the constructor leaves it: its ID is -1, a NodeID of 32 bits, and so is its idx.
  abbrev pub unset : Vertex W
  unset = record { node = 4294967295; idx = none; del_time = none; versions = [] }

  -- `memory` is what the bytes of the locks hold: they are not reset.
  unfoldable pub new : (ℕ → ℕ) → ℕ → VertexArray W
  new memory n = record { vertex_table = replicate n unset; mtx = Atomic.new memory n; cnt = 0 }

  abbrev pub vertex_of : VertexArray W → ℕ → Vertex W
  vertex_of t id = get_or t.vertex_table id unset

  unfoldable pub check_existence : VertexArray W → ℕ → Option Bool
  check_existence t id =
      if leb (length t.vertex_table) id then none else some (is_set (vertex_of t id).idx)

  -- The body under the lock of the ID.
  unfoldable pub make_vertex : VertexArray W → ℕ → Option (VertexArray W)
  make_vertex t id =
      let (locked, entered) = Atomic.set_bit_atomic t.mtx id in
      if entered
      then some (record t {
        vertex_table =
            set t.vertex_table id
              (record (vertex_of t id) { versions = new_array 8 ∷ []; node = id; idx = some id });
        mtx = Atomic.clear_bit locked id;
      })
      else none

  -- The result is the vertex, by its place.
  unfoldable pub retrieve_vertex : VertexArray W → ℕ → Bool → Option (VertexArray W × Option ℕ)
  unfolding make_vertex
  retrieve_vertex t id insert_mode =
      if leb (length t.vertex_table) id
      then none
      else if is_set (vertex_of t id).idx
      then some (t, some id)
      else if insert_mode
      then make_vertex t id >>= (λ made. some (made, some id))
      else some (t, none)

  unfoldable pub insert_simple_vertex : VertexArray W → ℕ → Option (VertexArray W)
  unfolding retrieve_vertex
  insert_simple_vertex t id = retrieve_vertex t id true >>= (λ r. some r.0)

  -- A deleted vertex keeps its place.
  unfoldable pub delete_vertex : GlobalInfo → VertexArray W → ℕ → Option (VertexArray W × Bool)
  unfolding retrieve_vertex
  delete_vertex info t id = do
    (t1, found) ← retrieve_vertex t id false
    elim found [
      | none ↦ some (t1, false)
      | some p ↦ some (
        record t1 {
          vertex_table =
              set t1.vertex_table p
                (record (vertex_of t1 p) { del_time = some info.global_timestamp });
        },
        true,
      )
    ]
