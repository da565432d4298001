-- ===== src/VertexArray/Laws.antt =====
-- `RetrieveVertex` of src/vertex_array.cpp with insertion.
use radix_graph.Base.{
  ℕ, ◌≤◌, ◌<◌, ◌≡◌, refl, ◌∙◌, true, false, some, [], ◌∷◌, length, set, leb, ◌==◌, arith,
  Bool-cases, inl, inr, ==→≡, ==→≢, get_or-set_self, get_or-set_ne, length-set,
}
use radix_graph.Bitmap.Atomic
use radix_graph.Bitmap.Atomic.Laws as AtomicLaws
use radix_graph.Edges.{Weight, Vertex, new_array}
use radix_graph.VertexArray.{VertexArray, unset, vertex_of, is_set, retrieve_vertex, make_vertex}

module _ {W : Type 0} ⦃weight : Weight W⦄ where
  -- No lock is taken, and a vertex that is set stands at the place of its ID.
  pub record IsValid (t : VertexArray W) : Type 0 where
    pub bytes : AtomicLaws.AllBytes t.mtx.start
    pub room : length t.vertex_table ≤ AtomicLaws.capacity t.mtx
    pub idle : (q : ℕ) → Atomic.get_bit t.mtx q ≡ false
    pub own :
        (i : ℕ)
        → is_set (vertex_of t i).idx ≡ true
        → ((vertex_of t i).idx ≡ some i) × ((vertex_of t i).node ≡ i)

  -- The outcome: the vertex is there, and no other has changed.
  pub record Retrieved (t : VertexArray W) (id : ℕ) (r : VertexArray W) : Type 0 where
    pub valid : IsValid r
    pub found : is_set (vertex_of r id).idx ≡ true
    pub other : (j : ℕ) → (id == j) ≡ false → vertex_of r j ≡ vertex_of t j
    pub kept : is_set (vertex_of t id).idx ≡ true → r ≡ t

  module _ (t : VertexArray W) (v : IsValid t) (id : ℕ) (inside : id < length t.vertex_table) where
    abbrev filled : VertexArray W
    filled = record t {
      vertex_table =
          set t.vertex_table id
            (record (vertex_of t id) { versions = new_array 8 ∷ []; node = id; idx = some id });
      mtx = Atomic.clear_bit (Atomic.set_bit t.mtx id) id;
    }

    runs : make_vertex t id ≡ some filled
    unfolding make_vertex Atomic.set_bit_atomic
    runs = rw (v.idle id) refl

    in_mtx : id < AtomicLaws.capacity t.mtx
    in_mtx = omega (arith, v.room)

    made : Vertex W
    made = record (vertex_of t id) { versions = new_array 8 ∷ []; node = id; idx = some id }

    at_id : vertex_of filled id ≡ made
    unfolding made
    at_id = get_or-set_self t.vertex_table id _ unset inside

    elsewhere : (j : ℕ) → (id == j) ≡ false → vertex_of filled j ≡ vertex_of t j
    elsewhere j apart = get_or-set_ne t.vertex_table id j _ unset (==→≢ _ _ apart)

    filled-IsValid : IsValid filled
    filled-IsValid =
        let locked = Atomic.set_bit t.mtx id in
        let locked_bytes = AtomicLaws.set_bit-AllBytes t.mtx v.bytes id in
        let locked_room = AtomicLaws.capacity-set_bit t.mtx id in
        let reads = AtomicLaws.get_bit-set_bit t.mtx v.bytes id in_mtx in
        let clears = AtomicLaws.get_bit-clear_bit locked locked_bytes id (rw locked_room in_mtx) in
        record {
          bytes = AtomicLaws.clear_bit-AllBytes locked locked_bytes id;
          room = rw (length-set, AtomicLaws.capacity-clear_bit, locked_room) v.room;
          idle = λ q. clears q ∙ ground (arith, reads q, v.idle q);
          own = λ i h. elim (Bool-cases (id == i)) [
            | inl here ↦ rw (← ==→≡ _ _ here) (rw at_id (unfold made in (refl, refl)))
            | inr apart ↦
                let before = rw (elsewhere i apart) at h in rw (elsewhere i apart) (v.own i before)
          ];
        }

    filled-Retrieved : is_set (vertex_of t id).idx ≡ false → Retrieved t id filled
    filled-Retrieved free = record {
      valid = filled-IsValid;
      found = rw at_id (unfold made in refl);
      other = elsewhere;
      kept = λ h. cc;
    }

  -- `RetrieveVertex` of the flat index with insertion, for an ID inside a table in which no lock
  -- is taken and each vertex that is set stands at its ID: it ends with the vertex at that place,
  -- which is then set, every other vertex is as before, a vertex that was set already is left as
  -- it is, and the table is in order with no lock taken again.
  pub retrieve_vertex-insert :
      (t : VertexArray W)
      → IsValid t
      → (id : ℕ) → id < length t.vertex_table
      → (r : VertexArray W) × (retrieve_vertex t id true ≡ some (r, some id)) × Retrieved t id r
  unfolding retrieve_vertex
  retrieve_vertex-insert t v id inside =
      let fits : leb (length t.vertex_table) id ≡ false = ground (arith, inside) in
      elim (Bool-cases (is_set (vertex_of t id).idx)) [
        | inl there ↦ (
          t,
          rw (fits, there),
          record { valid = v; found = there; other = λ j h. refl; kept = λ h. refl },
        )
        | inr free ↦
            (_, rw (fits, free, runs t v id inside) refl, filled-Retrieved t v id inside free)
      ]
