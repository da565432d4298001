-- ===== src/Bfs.antt =====
-- The breadth-first search of src/GAPBS/bfs.cc, on one thread. `SlidingQueue` with its buffers, and
-- `Bitmap`, are libraries, taken as parameters; `pvector` is a list. A parent of -1 is none.
pub mod Stores
pub mod Parents
pub mod TopDown
pub mod BottomUp
pub mod Phase
pub mod Laws
pub mod Correct
pub mod OnGraph
use radix_graph.Base.{
  ℕ, zero, suc, ◌+◌, ◌/◌, Bool, true, false, ◌||◌, Option, none, some, ◌>>=◌, List, [], ◌∷◌, length,
  get_or, set, replicate, if◌then◌else◌, ltb, leb, ℤ, pos, negsuc, ◌+ℤ◌, sub_ℕ,
}
use radix_graph.Reader.{Reader}
use Stores.{Queue, Front}

abbrev pub is_visited : Option ℕ → Bool
is_visited none = false
is_visited (some p) = true

abbrev pub visited : List (Option ℕ) → ℕ → Bool
visited parent v = is_visited (get_or parent v none)

abbrev pub init_parent : ℕ → List (Option ℕ)
init_parent vertex_num = replicate vertex_num none

-- The arguments of a step that it changes: the graph, `parent` and the queue, with `scout_count`.
pub record Search (G Q : Type 0) : Type 0 where
  pub g : G
  pub parent : List (Option ℕ)
  pub queue : Q
  pub scout_count : ℕ

module _ {G Q : Type 0} (reader : Reader G) (queue : Queue Q) where
  -- The body of the loop over the edges of `from`, where the compare-and-swap finds what has just
  -- been read.
  unfoldable pub td_edge : ℕ → ℕ → Search G Q → Search G Q
  td_edge from v s = if visited s.parent v then s else record s {
    parent = set s.parent v (some from);
    queue = queue.push_back s.queue v;
    scout_count = s.scout_count + reader.degree s.g v;
  }

  unfoldable pub td_edges : ℕ → List ℕ → Search G Q → Search G Q
  unfolding td_edge
  td_edges from [] s = s
  td_edges from (v ∷ neighbours) s = td_edges from neighbours (td_edge from v s)

  -- `TDStep`, for the entries of the window from `q_iter` on.
  unfoldable pub td_loop : List ℕ → Search G Q → Search G Q
  unfolding td_edges
  td_loop [] s = s
  td_loop (from ∷ window) s =
      let (h, neighbours) = reader.read s.g from in
      td_loop window (td_edges from neighbours (record s { g = h }))

  unfoldable pub td_step : Search G Q → Search G Q
  unfolding td_loop
  td_step s = td_loop (queue.window s.queue) (record s { scout_count = 0 })

-- What the loop of `BUStep` changes.
pub record Wave (G F : Type 0) : Type 0 where
  pub g : G
  pub parent : List (Option ℕ)
  pub next : F
  pub awake_count : ℕ

module _ {F : Type 0} (fronts : Front F) (front : F) where
  -- The loop over the neighbours up to the break.
  unfoldable pub first_in_front : List ℕ → Option ℕ
  first_in_front [] = none
  first_in_front (v ∷ neighbours) =
      let rest = first_in_front neighbours in if fronts.get_bit front v then some v else rest

module _ {G F : Type 0} (fronts : Front F) where
  unfoldable pub wake : ℕ → Wave G F → Option ℕ → Wave G F
  wake i s none = s
  wake i s (some v) = record s {
    parent = set s.parent i (some v);
    next = fronts.set_bit s.next i;
    awake_count = s.awake_count + 1;
  }

module _ {G F : Type 0} (reader : Reader G) (fronts : Front F) (front : F) where
  -- The body for vertex i.
  unfoldable pub bu_vertex : ℕ → Wave G F → Wave G F
  unfolding wake first_in_front
  bu_vertex i s =
      let (h, neighbours) = reader.read s.g i in
      if visited s.parent i
      then s
      else wake fronts i (record s { g = h }) (first_in_front fronts front neighbours)

  -- The loop from vertex i on.
  unfoldable pub bu_loop : ℕ → ℕ → Wave G F → Wave G F
  unfolding bu_vertex
  bu_loop zero i s = s
  bu_loop (suc left) i s = bu_loop left (i + 1) (bu_vertex i s)

module _ {F : Type 0} (fronts : Front F) where
  unfoldable pub queue_to_bitmap : List ℕ → F → F
  queue_to_bitmap [] bm = bm
  queue_to_bitmap (v ∷ window) bm = queue_to_bitmap window (fronts.set_bit bm v)

module _ {Q F : Type 0} (queue : Queue Q) (fronts : Front F) where
  -- The loop of `BitmapToQueue` from n on.
  unfoldable pub push_bits : F → ℕ → ℕ → Q → Q
  push_bits bm zero n q = q
  push_bits bm (suc left) n q =
      push_bits bm left (n + 1) (if fronts.get_bit bm n then queue.push_back q n else q)

  unfoldable pub bitmap_to_queue : ℕ → F → Q → Q
  unfolding push_bits
  bitmap_to_queue vertex_num bm q = queue.slide_window (push_bits bm vertex_num 0 q)

-- `scout_count > edges_to_check / alpha`; the quotient is cut towards 0.
unfoldable pub exceeds : ℕ → ℤ → ℕ → Bool
exceeds scout_count (pos e) alpha = ltb (e / alpha) scout_count
exceeds scout_count (negsuc e) alpha = ltb 0 (scout_count + (e + 1) / alpha)

-- The variables of `DOBFS`.
pub record State (G Q F : Type 0) : Type 0 where
  pub search : Search G Q
  pub front : F
  pub curr : F
  pub edges_to_check : ℤ

module _ {G Q F : Type 0} (reader : Reader G) (fronts : Front F) (vertex_num : ℕ) where
  -- `BUStep` and the swap of the bitmaps, with the number of vertices that it reached.
  unfoldable pub bu_step : State G Q F → State G Q F × ℕ
  unfolding bu_loop
  bu_step s =
      let w = bu_loop reader fronts s.front vertex_num 0 (record {
        g = s.search.g;
        parent = s.search.parent;
        next = fronts.reset s.curr;
        awake_count = 0;
      }) in
      (
        record s {
          search = record s.search { g = w.g; parent = w.parent };
          front = w.next;
          curr = s.front;
        },
        w.awake_count,
      )
  -- The loop that goes on while it reaches enough vertices; none is that the fuel is used up.

module _ {G Q F : Type 0} (reader : Reader G) (fronts : Front F) (vertex_num beta : ℕ) where
  unfoldable pub bu_phase : ℕ → ℕ → State G Q F → Option (State G Q F)
  unfolding bu_step
  bu_phase zero old_awake_count s = none
  bu_phase (suc fuel) old_awake_count s =
      let (t, awake_count) = bu_step reader fronts vertex_num s in
      let again = bu_phase fuel awake_count t in
      if leb old_awake_count awake_count || ltb (vertex_num / beta) awake_count
      then again
      else some t

module _ {G Q F : Type 0} (reader : Reader G) (queue : Queue Q) where
  unfoldable pub top_down : State G Q F → State G Q F
  unfolding td_step
  top_down s =
      let t = td_step reader queue s.search in
      record s {
        search = record t { queue = queue.slide_window t.queue };
        edges_to_check = s.edges_to_check +ℤ sub_ℕ 0 s.search.scout_count;
      }

module _ {G Q F : Type 0} (reader : Reader G) (queue : Queue Q) (fronts : Front F)
    (vertex_num beta : ℕ) where
  unfoldable pub bottom_up : ℕ → State G Q F → Option (State G Q F)
  unfolding bu_phase queue_to_bitmap bitmap_to_queue
  bottom_up fuel s = do
    let window = queue.window s.search.queue
    t ← bu_phase reader fronts vertex_num beta fuel (length window) (record s {
      search = record s.search { queue = queue.slide_window s.search.queue };
      front = queue_to_bitmap fronts window s.front;
    })
    some (record t {
      search = record t.search {
        queue = bitmap_to_queue queue fronts vertex_num t.front t.search.queue;
        scout_count = 1;
      };
    })

module _ {G Q F : Type 0} (reader : Reader G) (queue : Queue Q) (fronts : Front F)
    (vertex_num alpha beta : ℕ) where
  -- The loop of `DOBFS`.
  unfoldable pub search_loop : ℕ → State G Q F → Option (State G Q F)
  unfolding bottom_up top_down
  search_loop zero s = elim (queue.window s.search.queue) [ [] ↦ some s | u ∷ rest ↦ none ]
  search_loop (suc fuel) s = elim (queue.window s.search.queue) [
    | [] ↦ some s
    | u ∷ rest ↦
        (if exceeds s.search.scout_count s.edges_to_check alpha
          then bottom_up reader queue fronts vertex_num beta (suc vertex_num) s
          else some (top_down reader queue s))
        >>= search_loop fuel
  ]

  -- `DOBFS` from the internal ID of the source on.
  unfoldable pub search_from : ℕ → ℕ → Option ℕ → G → ℕ → Option (G × List (Option ℕ))
  unfolding search_loop
  search_from fuel edge_num src_out_degree g uidx = do
    let scout_count : ℕ = elim src_out_degree [ none ↦ reader.degree g uidx | some d ↦ d ]
    let start : State G Q F = record {
      search = record {
        g = g;
        parent = set (init_parent vertex_num) uidx (some uidx);
        queue = queue.slide_window (queue.push_back (queue.new vertex_num) uidx);
        scout_count = scout_count;
      };
      front = fronts.reset (fronts.new vertex_num);
      curr = fronts.reset (fronts.new vertex_num);
      edges_to_check = pos edge_num;
    }
    s ← search_loop fuel start
    some (s.search.g, s.search.parent)

  -- `DOBFS`, with the graph that is left and `parent`. A missing source is a null pointer, which the
  -- code follows: none.
  unfoldable pub dobfs : ℕ → G → ℕ → ℕ → Option ℕ → Option (G × List (Option ℕ))
  unfolding search_from
  dobfs fuel g source edge_num src_out_degree =
      let (h, found) = reader.find g source in found >>= search_from fuel edge_num src_out_degree h
