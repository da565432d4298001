-- ===== src/Lib.antt =====
-- RadixGraph, an in-memory graph store: a vertex index over edge logs.
--
-- The program has three layers. The vertex index SORT (src/sort.h, src/sort.cpp), a radix tree,
-- finds a vertex by its ID and makes it when it is missing. A vertex (src/utils.h) holds versions of
-- an edge array: a snapshot, in which each destination stands once, and behind it a log of edges,
-- in which the newest entry of a destination counts and an entry of weight 0 is a deletion. The
-- functions of src/radixgraph.cpp append to the log (Insert), compact it (LogCompaction) and
-- read it (GetNeighbours); to skip older entries they mark destinations in a bitmap of the thread
-- (SegmentedBitmap of src/utils.h), which they leave clean.
--
-- Which file is about which part:
--   Base           numbers, Booleans, options, lists and integers that the parts share
--   Bits           the bits of a byte
--   Bitmap         Bitmap/Atomic is AtomicBitmap (get_bit, set_bit, clear_bit, reset and
--                  set_bit_atomic), Bitmap/Segmented is SegmentedBitmap, which grows. The edge store
--                  takes its bitmap by the interface of Bitmap/Interface, and
--                  Bitmap/Segmented/Filled fills it
--   Edges          WeightedEdge, WeightedEdgeArray, Vertex, GlobalInfo and GetGlobalTimestamp
--   Edges/Compaction   LogCompaction: merge_loop and clear_loop are its loops, finish its end
--   Edges/Insert       Insert: reserve_loop is its loop, expand the body under the lock, write_log
--                      the writes after it
--   Edges/Neighbours   GetNeighbours of a vertex, from the chosen version on: visible is the search
--                      by time stamp, visit_loop the loop with the duplicate check
--   Edges/View, Edges/Survivors, Edges/Prefix, Edges/Marks, Edges/Valid   what a log means apart
--                  from the code, the list of edges it leaves, and the order of an array
--   Edges/Writers  Insert by several threads on one array with room, as a step relation;
--                  Edges/Writers/Progress is about the wait of the expansion
--   Sort           SORT: child_index is the child that an ID selects at a level, Sort/Trie has the
--                  walks of CheckExistence (exists), RetrieveVertex and InsertVertex, Sort/Config the widths
--   Sort/Digits, Sort/Laws, Sort/Insertion, Sort/Start   the index as a map from IDs to vertices
--   Sort/Existence     CheckExistence beside RetrieveVertex
--   Sort/Maintenance   the constructors from an array (fill is their second loop) and from the widths
--                  of the optimizer, InsertSimpleVertex, DeleteVertex and Size, with their theorems
--                  in Filling, Counting and Laws below it
--   Sort/Transform  Transform: collect is its search of all nodes, walk_all the one of known vertices,
--                  rebuild the second part; Prefixes, Levels, Rebuilt, Laws and Known below it
--                  are about its effect on the map
--   Sort/Replacement   the index when a vertex in its table changes
--   VertexArray    the flat index of src/vertex_array.h and src/vertex_array.cpp, and its map
--   Art            the index of src/art.h and src/art.cpp with USE_VERTEX_TABLE; its theorems are in
--                  Art/Laws, Art/Retrieval and Art/Deletion
--   Graph          RadixGraph with SORT as its index: read_versions is GetNeighbours of a vertex
--                  with the choice of the version, insert_edge, update_edge and delete_edge are the
--                  updates by vertex ID, change_edge what the last two share
--   Graph/Maintenance  CreateSnapshots, SetNumThreads and the constructors for SORT
--   Graph/Valid        the order of a graph, and the map of edges that it stands for
--   Graph/Retrieval, Graph/Update, Graph/Edges, Graph/Changes, Graph/Reads, Graph/Laws   what the
--                  operations do to that map
--   Reader         the reads of a graph by the kernels of src/GAPBS; Reader/Offset has those by
--                  GetNeighboursByOffset
--   Bfs            src/GAPBS/bfs.cc: td_loop is the loop of TDStep, bu_loop that of BUStep, bu_phase the
--                  inner and search_loop the outer loop of DOBFS; Bfs/Stores has its queue and its
--                  bitmap, and the modules below it the theorems, Bfs/OnGraph on a RadixGraph
--   Triangles      OrderedCount of src/GAPBS/tc.cc: count_common is its merge, count_vertex the loop over
--                  the neighbours of a vertex; Triangles/OnGraph has it on a RadixGraph
--   Components     ShiloachVishkin of src/GAPBS/cc_sv.cc: hook_from is its first and compress_from its
--                  second loop; Reader/ById has its reads, Components/OnGraph has it on a RadixGraph
--   Tests          the theorems at concrete inputs
--
-- How the code is modelled:
--   * numbers are natural numbers; a size, place or time stamp stays below 2 ^ 31, and an ID is
--     an unsigned number. The widths of a tree are below 31 and their sum is below 64, as the shifts
--     of an int and of 64 bits need. `deg`, which the code cuts at 0, is an integer. A -1 and a null pointer
--     are none;
--   * a float is a type with a zero and a test for it. `deg * expand_rate + extra`, a double cut to an
--     int, is a function `scale deg extra`, which is at least deg + extra as expand_rate > 1;
--   * memory that is not initialised is a parameter: `memory` for the bytes of a bitmap, `stale` for
--     time stamps;
--   * the list that a read fills is empty at first, as it is at every caller;
--   * std::sort is a parameter, a sort by internal ID that permutes its list, as the C++ standard
--     documents it;
--   * the tree of the unodb library, and the texts of std::to_string and std::stoull, are parameters
--     with laws: insert keeps the value of a key that is there, a number below 2 ^ 64 is read back
--     from its text, and "test" is no number;
--   * SlidingQueue and Bitmap of src/GAPBS are copies of a library, and parameters of the search with
--     laws; each push takes a slot of the queue for good, and there are as many as vertices. alpha
--     and beta are divisors;
--   * a vertex is its place in vertex_table, which is a concurrent_vector of TBB: its elements
--     stay where they are;
--   * but for Edges/Writers, a run is one thread's. The locks are then free, a wait for another
--     thread is none, and the retry loop of a read, which waits for a writer, is left out;
--   * Insert has fuel 3 for its loop: the first round, and one after a compaction, are enough;
--     LogCompaction, the reads and the walks are recursive on what is left to do. Size has fuel for
--     its queue, and as much as the tree has nodes is enough. DOBFS has fuel for its rounds, and one more than
--     there are vertices is enough, as each reaches a vertex or is the last. ShiloachVishkin has
--     fuel for its rounds, each of which but the last lowers the sum of the labels, and one round of
--     the inner loop of its second part is enough.
--
-- Not modelled: the constructors of RadixGraph for the other indexes; the optimizer of the widths,
-- which is a table of doubles; the kernels bc, pr_spmv and sssp of src/GAPBS, whose scores and
-- distances are floating-point numbers; ART without its table of vertices; the destructors,
-- which free memory, and the drivers of experiments. The garbage collection of deleted slots is off,
-- as it is by default.
pub mod Base
pub mod Bits
pub mod Bitmap
pub mod Edges
pub mod Sort
pub mod VertexArray
pub mod Art
pub mod Graph
pub mod Reader
pub mod Triangles
pub mod Components
pub mod Bfs
mod Tests
