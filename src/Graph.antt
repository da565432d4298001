-- ===== src/Graph.antt =====
-- `RadixGraph` of src/radixgraph.h and src/radixgraph.cpp with SORT as its index: the operations by
-- vertex ID and by offset. `thread` is the number of the thread that runs, alone.
pub mod Laws
pub mod Valid
pub mod Retrieval
pub mod Update
pub mod Edges
pub mod Changes
pub mod Maintenance
pub mod Reads
use radix_graph.Base.{
  ℕ, zero, suc, ◌+◌, ◌-◌, ◌^◌, Bool, true, false, not, ◌&&◌, ◌||◌, Option, none, some, ◌>>=◌, List,
  [], ◌∷◌, get_or, set, if◌then◌else◌, leb, ltb, ◌==◌, ℤ, pos, negsuc,
}
use radix_graph.Bitmap.Interface.{Bitmap}
use radix_graph.Edges.{Weight, WeightedEdge, WeightedEdgeArray, Vertex, GlobalInfo}
use radix_graph.Edges.Compaction.{Context}
use radix_graph.Edges.Insert.{Local, insert}
use radix_graph.Edges.Neighbours.{read_array}
use radix_graph.Sort.{Sort, retrieve_vertex}
use radix_graph.Sort.Laws.{no_vertex}

-- The graph, with `global_info`. `expand_rate` is a double.
pub record Graph (R W B : Type 0) : Type 0 where
  pub vertex_index : Sort W
  pub bitmap : List B
  pub is_sorted : Bool
  pub expand_rate : R
  pub num_threads : ℕ
  pub info : GlobalInfo

abbrev pub present : Option ℕ → Bool
present none = false
present (some t) = true

-- `del_time != -1 && timestamp >= del_time`
unfoldable pub deleted_at : Option ℕ → ℕ → Bool
deleted_at none timestamp = false
deleted_at (some t) timestamp = leb t timestamp

module _ {W : Type 0} ⦃weight : Weight W⦄ where
  abbrev pub vertex_at : Sort W → ℕ → Vertex W
  vertex_at t p = get_or t.vertex_table p no_vertex

  abbrev pub is_null : Option (List (WeightedEdge W)) → Bool
  is_null none = true
  is_null (some es) = false

  -- The end of a read: an obsolete version that nobody reads is deleted.
  unfoldable pub release :
      Bool → Bool → WeightedEdgeArray W → List (WeightedEdgeArray W) → List (WeightedEdgeArray W)
  release is_mixed newest a older =
      if is_mixed && (a.threads_read == 0 && not newest) then older else a ∷ older

module _ {W B : Type 0} ⦃weight : Weight W⦄ ⦃bitmap : Bitmap B⦄ where
  -- `GetNeighbours` of a vertex: from the newest version back to one that `timestamp` sees. The
  -- result is the versions, the bitmap and the neighbours; none is the result false.
  unfoldable pub read_versions :
      Bool
      → Bool
      → ℕ
      → B
      → List (WeightedEdgeArray W)
      → Option (List (WeightedEdgeArray W) × B × List (WeightedEdge W))
  unfolding release
  read_versions is_mixed newest timestamp bits [] = none
  read_versions is_mixed newest timestamp bits (a ∷ older) =
      let back = read_versions is_mixed false timestamp bits older in
      if ltb timestamp a.snapshot_timestamp || is_null a.edge
      then (do (rest, after, out) ← back; some (a ∷ rest, after, out))
      else (let (after, out) = read_array a timestamp bits [] in
          some (release is_mixed newest a older, after, out))

module _ {R W B : Type 0} ⦃weight : Weight W⦄ (stale : ℕ → ℕ) where
  -- `vertex_index->RetrieveVertex(id, insert_mode)`
  unfoldable pub retrieve : Graph R W B → ℕ → Bool → Graph R W B × Option ℕ
  retrieve g id insert_mode =
      let (t, found) = retrieve_vertex stale g.info g.vertex_index id insert_mode in
      (record g { vertex_index = t }, found)

  -- A vertex that is there and not deleted.
  unfoldable pub live_vertex : Graph R W B → ℕ → Graph R W B × Option ℕ
  unfolding retrieve
  live_vertex g id =
      let (g1, found) = retrieve g id false in
      (g1, found >>= (λ p. if present (vertex_at g1.vertex_index p).del_time then none else some p))

  unfoldable pub get_internal_id : Graph R W B → ℕ → Graph R W B × Option ℕ
  unfolding live_vertex
  get_internal_id g id =
      let (g1, found) = live_vertex g id in (g1, found >>= (λ p. (vertex_at g1.vertex_index p).idx))

module _ {R W B : Type 0} ⦃weight : Weight W⦄ ⦃bitmap : Bitmap B⦄ (no_bits : B)
    (scale : R → ℕ → ℕ → ℕ) (stale : ℕ → ℕ) (thread : ℕ) where
  -- `Insert` on the vertex at place p, with its versions.
  unfoldable pub insert_versions :
      Graph R W B → ℕ → ℕ → W → ℤ → List (WeightedEdgeArray W) → Option (Graph R W B)
  insert_versions g p des w delta_deg [] = none
  insert_versions g p des w delta_deg (next ∷ older) = do
    let v = vertex_at g.vertex_index p
    t ←
        insert (scale g.expand_rate) stale
          (record {
            next = next;
            older = older;
            ctx = record { info = g.info; bits = get_or g.bitmap thread no_bits };
          })
          des w delta_deg
    some (record g {
      vertex_index = record g.vertex_index {
        vertex_table = set g.vertex_index.vertex_table p (record v { versions = t.next ∷ t.older });
      };
      bitmap = set g.bitmap thread t.ctx.bits;
      info = t.ctx.info;
    })

  unfoldable pub insert_at : Graph R W B → ℕ → ℕ → W → ℤ → Option (Graph R W B)
  unfolding insert_versions
  insert_at g p des w delta_deg =
      insert_versions g p des w delta_deg (vertex_at g.vertex_index p).versions

  -- `Insert(src_ptr, des_ptr->idx, ...); return true`
  unfoldable pub log_edge : Graph R W B → ℕ → ℕ → W → ℤ → Option (Graph R W B × Bool)
  unfolding insert_at
  log_edge g p q w delta_deg = do
    i ← (vertex_at g.vertex_index q).idx
    h ← insert_at g p i w delta_deg
    some (h, true)

  unfoldable pub insert_edge : Graph R W B → ℕ → ℕ → W → Option (Graph R W B × Bool)
  insert_edge g src des w =
      let (g1, src_ptr) = retrieve stale g src true in
      let (g2, des_ptr) = retrieve stale g1 des true in
      do p ← src_ptr; q ← des_ptr; log_edge g2 p q w (pos 1)

  -- What `UpdateEdge` and `DeleteEdge` share: the rest of the body once `des`, or `src`, is looked up.
  unfoldable pub change_to : ℕ → W → ℤ → Graph R W B × Option ℕ → Option (Graph R W B × Bool)
  change_to p w delta_deg (g, none) = some (g, false)
  change_to p w delta_deg (g, some q) = log_edge g p q w delta_deg

  unfoldable pub change_from : ℕ → W → ℤ → Graph R W B × Option ℕ → Option (Graph R W B × Bool)
  unfolding change_to
  change_from des w delta_deg (g, none) = some (g, false)
  change_from des w delta_deg (g, some p) = change_to p w delta_deg (live_vertex stale g des)

  unfoldable pub change_edge : Graph R W B → ℕ → ℕ → W → ℤ → Option (Graph R W B × Bool)
  unfolding change_from
  change_edge g src des w delta_deg = change_from des w delta_deg (live_vertex stale g src)

  unfoldable pub update_edge : Graph R W B → ℕ → ℕ → W → Option (Graph R W B × Bool)
  update_edge g src des w = change_edge g src des w (pos 0)

  unfoldable pub delete_edge : Graph R W B → ℕ → ℕ → Option (Graph R W B × Bool)
  delete_edge g src des = change_edge g src des weight.zero_weight (negsuc 0)

module _ {R W B : Type 0} ⦃weight : Weight W⦄ ⦃bitmap : Bitmap B⦄ (no_bits : B) (thread : ℕ) where
  -- What a read of the vertex at place p leaves behind.
  unfoldable pub after_read :
      Graph R W B
      → ℕ
      → Option (List (WeightedEdgeArray W) × B × List (WeightedEdge W))
      → Graph R W B × Option (List (WeightedEdge W))
  after_read g p none = (g, none)
  after_read g p (some (versions, bits, out)) = (
    record g {
      vertex_index = record g.vertex_index {
        vertex_table =
            set g.vertex_index.vertex_table p
              (record (vertex_at g.vertex_index p) { versions = versions });
      };
      bitmap = set g.bitmap thread bits;
    },
    some out,
  )

  -- `GetNeighbours` of the vertex at place p. The result is none for false.
  unfoldable pub neighbours_at : Graph R W B → ℕ → ℕ → Graph R W B × Option (List (WeightedEdge W))
  unfolding after_read
  neighbours_at g p timestamp = after_read g p (
      read_versions g.info.is_mixed_workloads true timestamp (get_or g.bitmap thread no_bits)
        (vertex_at g.vertex_index p).versions)

  -- Once `src` is looked up.
  unfoldable pub neighbours_of :
      ℕ → Graph R W B × Option ℕ → Graph R W B × Option (List (WeightedEdge W))
  unfolding deleted_at
  neighbours_of timestamp (g, none) = (g, none)
  neighbours_of timestamp (g, some p) =
      if deleted_at (vertex_at g.vertex_index p).del_time timestamp
      then (g, none)
      else neighbours_at g p timestamp

  unfoldable pub get_neighbours_by_offset :
      Graph R W B → ℕ → ℕ → Graph R W B × Option (List (WeightedEdge W))
  unfolding deleted_at
  get_neighbours_by_offset g src timestamp =
      if leb g.vertex_index.cnt src
      then (g, none)
      else if deleted_at (vertex_at g.vertex_index src).del_time timestamp
      then (g, none)
      else neighbours_at g src timestamp

module _ {R W B : Type 0} ⦃weight : Weight W⦄ ⦃bitmap : Bitmap B⦄ (no_bits : B) (stale : ℕ → ℕ)
    (thread : ℕ) where
  unfoldable pub get_neighbours : Graph R W B → ℕ → ℕ → Graph R W B × Option (List (WeightedEdge W))
  unfolding neighbours_of
  get_neighbours g src timestamp =
      neighbours_of no_bits thread timestamp (retrieve stale g src false)

module _ {R W B : Type 0} ⦃weight : Weight W⦄ where
  -- -1 as a NodeID, which has 32 bits.
  unfoldable pub get_external_id : Graph R W B → ℕ → ℕ
  get_external_id g offset =
      if leb g.vertex_index.cnt offset then 2 ^ 32 - 1 else (vertex_at g.vertex_index offset).node

  -- The overload for an edge. A -1 is an index before the table: none.
  unfoldable pub get_external_id_of : Graph R W B → WeightedEdge W → Option ℕ
  unfolding get_external_id
  get_external_id_of g e = do offset ← e.idx; some (get_external_id g offset)

  abbrev pub get_num_vertices : Graph R W B → ℕ
  get_num_vertices g = g.vertex_index.cnt

  -- `ratio > 1.0` is a test of the doubles.
  unfoldable pub set_expand_rate : (R → Bool) → Graph R W B → R → Graph R W B
  set_expand_rate above_one g ratio =
      if above_one ratio then record g { expand_rate = ratio } else g
