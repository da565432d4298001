-- ===== src/Tests/Edges.antt =====
-- The edge store of src/radixgraph.cpp at a vertex with a full array.
use radix_graph.Base.{
  ℕ, zero, suc, ◌+◌, ◌≡◌, ◌≤◌, ◌<◌, refl, true, some, List, [], ◌∷◌, length, arith, ◌==◌, pos,
}
use radix_graph.Bitmap.Segmented
use radix_graph.Bitmap.Segmented.{SegmentedBitmap}
use radix_graph.Bitmap.Segmented.Valid as SegmentedValid
use radix_graph.Bitmap.Segmented.Filled.{segmented, segmented-BitmapLaws}
use radix_graph.Bitmap.Interface.{Bitmap, BitmapLaws, IsClean}
use radix_graph.Edges.{Weight, WeightedEdge, WeightedEdgeArray, edge_at, edges, new_array}
use radix_graph.Edges.Compaction.{Context, log_compaction}
use radix_graph.Edges.Compaction.Laws.{Compacted, log_compaction-Compacted}
use radix_graph.Edges.Insert.{Local, insert}
use radix_graph.Edges.Insert.Laws.{Inserted, insert-Inserted, change}
use radix_graph.Edges.Neighbours.{read_array}
use radix_graph.Edges.Neighbours.Laws.{read_array-Shows, visible_count}
use radix_graph.Edges.Survivors.{survivors}
use radix_graph.Edges.Valid.{IsValid, IsCounted, live_edges, view}
use radix_graph.Edges.View.{times, is_live, is_written, current, Shows}

instance abbrev pub Weight_ℕ : Weight ℕ
Weight_ℕ = record { zero_weight = 0; is_zero = λ w. w == 0; is_zero_zero = refl }

abbrev zeroed : ℕ → ℕ → ℕ
zeroed i k = 0

abbrev stale : ℕ → ℕ
stale i = 77

instance abbrev pub Bitmap_zeroed : Bitmap SegmentedBitmap
Bitmap_zeroed = segmented zeroed

pub laws : BitmapLaws Bitmap_zeroed SegmentedValid.IsValid
laws = segmented-BitmapLaws zeroed (λ i k. refl)

abbrev pub empty : SegmentedBitmap
empty = record { segments = []; segment_size = 8; current_size = 0 }

pub empty-IsClean : IsClean Bitmap_zeroed SegmentedValid.IsValid empty
empty-IsClean = (
  record {
    positive = omega arith;
    counted = refl;
    room = λ i h. absurd (omega arith);
    bytes = λ i j. omega arith;
  },
  λ q. unfold Segmented.get_bit in ground arith,
)

-- A snapshot of two edges, with logs that delete one of them and insert another.
abbrev full_edges : List (WeightedEdge ℕ)
full_edges =
    record { weight = 5; idx = some 1 }
    ∷ record { weight = 7; idx = some 2 }
    ∷ record { weight = 0; idx = some 1 }
    ∷ record { weight = 9; idx = some 3 }
    ∷ []

abbrev pub full_array : WeightedEdgeArray ℕ
full_array = record {
  size = 4;
  cap = 4;
  physical_size = 4;
  edge = some full_edges;
  timestamp = some (4 ∷ 6 ∷ []);
  snapshot_timestamp = 3;
  snapshot_deg = 2;
  deg = pos 2;
  threads_read = 0;
}

full_edges-written : (i : ℕ) → i < 4 → is_written (edge_at full_edges i) ≡ true
full_edges-written zero h = refl
full_edges-written (suc zero) h = refl
full_edges-written (suc (suc zero)) h = refl
full_edges-written (suc (suc (suc zero))) h = refl
full_edges-written (suc (suc (suc (suc i)))) h = absurd (omega arith)

full_edges-live : (i : ℕ) → i < 2 → is_live (edge_at full_edges i) ≡ true
full_edges-live zero h = refl
full_edges-live (suc zero) h = refl
full_edges-live (suc (suc i)) h = absurd (omega arith)

full_edges-once : (d : ℕ) → times full_edges 2 d ≤ 1
unfolding times
full_edges-once d = ground arith

pub full_array-IsValid : IsValid full_array
full_array-IsValid = record {
  held = refl;
  room = refl;
  fits = omega arith;
  below = omega arith;
  written = full_edges-written;
  snapshot = record { once = full_edges-once; live = full_edges-live };
}

full_array-IsCounted : IsCounted full_array
unfolding survivors
full_array-IsCounted = refl

abbrev context : Context SegmentedBitmap
context = record { info = record { global_timestamp = 8; is_mixed_workloads = true }; bits = empty }

abbrev start : Local ℕ SegmentedBitmap
start = record { next = full_array; older = []; ctx = context }

abbrev double : ℕ → ℕ → ℕ
double deg extra = deg + deg + extra

-- The insertion of the deleted edge, with a new weight: the array has to grow.
insert_example :
    (t : Local ℕ SegmentedBitmap) × (insert double stale start 1 6 (change (view full_array) 1 6)
      ≡ some t)
    × Inserted SegmentedValid.IsValid (view full_array) 1 6 t
insert_example =
    insert-Inserted double stale laws (λ d e. omega arith) start 1 6 full_array-IsValid refl
      full_array-IsCounted empty-IsClean

length-full : length (live_edges full_array) ≡ 2
unfolding survivors
length-full = refl

compaction_example :
    (r : WeightedEdgeArray ℕ × Context SegmentedBitmap) × (log_compaction stale full_array
        (new_array 10)
        context
      ≡ some r)
    × Compacted SegmentedValid.IsValid stale
        (view full_array)
        (length (live_edges full_array))
        10
        context
        r
compaction_example =
    log_compaction-Compacted stale laws full_array full_array-IsValid full_array-IsCounted 10
      (omega (arith, length-full)) context empty-IsClean

-- A read between the two logs.
read_example :
    Shows
      (current
        (edges full_array)
        (visible_count full_array.timestamp full_array.snapshot_deg 5 full_array.physical_size))
      (read_array full_array 5 empty []).1
    × IsClean Bitmap_zeroed SegmentedValid.IsValid (read_array full_array 5 empty []).0
read_example = read_array-Shows laws empty empty-IsClean full_array 5 full_array-IsValid
