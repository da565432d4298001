-- ===== src/Triangles.antt =====
-- `OrderedCount` of src/GAPBS/tc.cc, which counts the triangles of the graph, with the graph that its
-- reads leave. Of an edge only its internal ID is used, so that `sort`, which is std::sort by it,
-- is on internal IDs. The threads only add to the sum, so that their order makes no difference. An
-- index into a list is the list from there.
pub mod Laws
pub mod Correct
pub mod OnGraph
use radix_graph.Base.{ℕ, zero, suc, ◌+◌, List, [], ◌∷◌, if◌then◌else◌, ltb, ◌==◌, Bool}
use radix_graph.Reader.{Reader}

-- `while (i < v_neighbours.size() && v_neighbours[i].idx < w) i++`
unfoldable pub skip_below : ℕ → List ℕ → List ℕ
skip_below w [] = []
skip_below w (x ∷ v_neighbours) =
    let rest = skip_below w v_neighbours in if ltb x w then rest else x ∷ v_neighbours

-- `if (i < v_neighbours.size() && w == v_neighbours[i].idx) total++`
unfoldable pub count_here : ℕ → List ℕ → ℕ
count_here w [] = 0
count_here w (x ∷ v_neighbours) = if w == x then 1 else 0

-- The loop over f, from its entry on.
unfoldable pub count_common : ℕ → List ℕ → List ℕ → ℕ
unfolding skip_below count_here
count_common v [] v_neighbours = 0
count_common v (w ∷ neighbours) v_neighbours =
    let from = skip_below w v_neighbours in
    let rest = count_common v neighbours from in if ltb v w then 0 else count_here w from + rest

module _ {G : Type 0} (reader : Reader G) (sort : List ℕ → List ℕ) (is_sorted : Bool) where
  -- A read, and the sort unless the lists come sorted.
  unfoldable pub neighbours_of : G → ℕ → G × List ℕ
  neighbours_of g u =
      let (h, neighbours) = reader.read g u in
      (h, if is_sorted then neighbours else sort neighbours)

  -- The loop over e, from its entry on.
  unfoldable pub count_vertex : ℕ → List ℕ → G → List ℕ → G × ℕ
  unfolding count_common neighbours_of
  count_vertex u neighbours g [] = (g, 0)
  count_vertex u neighbours g (v ∷ es) =
      let (h, v_neighbours) = neighbours_of g v in
      let (k, rest) = count_vertex u neighbours h es in
      if ltb u v then (g, 0) else (k, count_common v neighbours v_neighbours + rest)

  -- The loop over the vertices from u on.
  unfoldable pub count_vertices : ℕ → ℕ → G → G × ℕ
  unfolding count_vertex
  count_vertices zero u g = (g, 0)
  count_vertices (suc left) u g =
      let (g1, neighbours) = neighbours_of g u in
      let (g2, here) = count_vertex u neighbours g1 neighbours in
      let (g3, rest) = count_vertices left (u + 1) g2 in (g3, here + rest)

module _ {G : Type 0} (reader : Reader G) (sort : List ℕ → List ℕ) where
  unfoldable pub ordered_count : G → ℕ → G × ℕ
  unfolding count_vertices
  ordered_count g num_vertices = count_vertices reader sort (reader.is_sorted g) num_vertices 0 g
