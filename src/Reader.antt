-- ===== src/Reader.antt =====
-- The reads of the graph by the kernels of src/GAPBS, as they use them: the internal IDs of the
-- neighbours of a vertex, the internal ID of an ID (`RetrieveVertex`), and `snapshot_deg` of the newest
-- version. The graph changes with each read. `GetNeighboursByOffset` of src/radixgraph.cpp is such a
-- read by internal ID (by_offset), and `GetNeighbours` of a vertex that is looked up one by ID (by_id).
pub mod Offset
pub mod ById
pub mod Laws
use radix_graph.Base.{
  ℕ, zero, suc, ◌+◌, ◌-◌, ◌^◌, ◌≡◌, Bool, false, bit, Option, none, some, ◌>>=◌, List, [], ◌∷◌,
  ◌==◌,
}
use radix_graph.Bitmap.Interface.{Bitmap}
use radix_graph.Edges.{Weight, WeightedEdge}
use radix_graph.Graph.{Graph, vertex_at, get_neighbours_by_offset, retrieve, neighbours_at}
use radix_graph.Graph.Valid.{newest}

pub record Reader (G : Type 0) : Type 0 where
  pub find : G → ℕ → G × Option ℕ
  pub read : G → ℕ → G × List ℕ
  pub degree : G → ℕ → ℕ
  pub is_sorted : G → Bool

abbrev pub times : ℕ → List ℕ → ℕ
times v [] = 0
times v (x ∷ xs) = bit (x == v) + times v xs

-- A read leaves the graph ready for the next one, and has each neighbour once.
pub record ReaderLaws {G : Type 0} (reader : Reader G) (IsReady : G → Type 0) (next : ℕ → ℕ → Bool)
    : Type 0 where
  pub kept : (g : G) → IsReady g → (u : ℕ) → IsReady (reader.read g u).0
  pub shows : (g : G) → IsReady g → (u v : ℕ) → times v (reader.read g u).1 ≡ bit (next u v)

-- `e.idx` as an unsigned number; no neighbour has a -1.
abbrev pub idx_of : {W : Type 0} → WeightedEdge W → ℕ
idx_of e = elim e.idx [ none ↦ 2 ^ 32 - 1 | some i ↦ i ]

abbrev pub ids : {W : Type 0} → List (WeightedEdge W) → List ℕ
ids [] = []
ids (e ∷ l) = idx_of e ∷ ids l

-- What `neighbours` holds after a read: it is left empty when the result is false.
abbrev pub list_of : {W : Type 0} → Option (List (WeightedEdge W)) → List (WeightedEdge W)
list_of none = []
list_of (some l) = l

module _ {R W B : Type 0} ⦃weight : Weight W⦄ ⦃bitmap : Bitmap B⦄ (no_bits : B) (thread t : ℕ) where
  -- `GetNeighbours` of the vertex that `RetrieveVertex` has found, if any.
  unfoldable pub read_found : Graph R W B × Option ℕ → Graph R W B × List ℕ
  read_found (g, none) = (g, [])
  read_found (g, some p) =
      let (h, out) = neighbours_at no_bits thread g p t in (h, ids (list_of out))

module _ {R W B : Type 0} ⦃weight : Weight W⦄ ⦃bitmap : Bitmap B⦄ (no_bits : B) (stale : ℕ → ℕ)
    (thread t : ℕ) where
  -- With the default of `timestamp`, which is the largest int, for t.
  abbrev pub by_offset : Reader (Graph R W B)
  by_offset = record {
    find = λ g id.
        let (h, found) = retrieve stale g id false in
        (h, found >>= (λ p. (vertex_at h.vertex_index p).idx));
    read = λ g u.
        let (h, out) = get_neighbours_by_offset no_bits thread g u t in (h, ids (list_of out));
    degree = λ g u. (newest (vertex_at g.vertex_index u)).snapshot_deg;
    is_sorted = λ g. g.is_sorted;
  }

  abbrev pub by_id : Reader (Graph R W B)
  by_id = record {
    find = by_offset.find;
    read = λ g id. read_found no_bits thread t (retrieve stale g id false);
    degree = by_offset.degree;
    is_sorted = λ g. g.is_sorted;
  }
