-- ===== src/Bitmap/Segmented.antt =====
-- `SegmentedBitmap` of src/utils.h: a bitmap that grows by whole segments. `memory i` is what the
-- bytes of segment i held before `new` returned them.
pub mod Valid
mod Update
mod Growth
pub mod Laws
pub mod Filled
use radix_graph.Base.{
  ℕ, zero, suc, ◌+◌, ◌-◌, ◌*◌, ◌/◌, ◌%◌, Bool, false, List, [], ◌∷◌, ◌++◌, length, get_or, set,
  if◌then◌else◌, leb,
}
use radix_graph.Bitmap.Atomic
use radix_graph.Bitmap.Atomic.{AtomicBitmap}

pub record SegmentedBitmap : Type 0 where
  pub segments : List AtomicBitmap
  pub segment_size : ℕ
  pub current_size : ℕ

abbrev pub no_segment : AtomicBitmap
no_segment = record { start = [] }

-- The segments that `new` makes from index i on.
unfoldable pub fresh_segments : (ℕ → ℕ → ℕ) → ℕ → ℕ → ℕ → List AtomicBitmap
fresh_segments memory size zero i = []
fresh_segments memory size (suc left) i =
    Atomic.new (memory i) size ∷ fresh_segments memory size left (i + 1)

unfoldable pub new : (ℕ → ℕ → ℕ) → ℕ → ℕ → SegmentedBitmap
unfolding fresh_segments
new memory seg_size n =
    let num_segments = (n + seg_size - 1) / seg_size in
    record {
      segments = fresh_segments memory seg_size num_segments 0;
      segment_size = seg_size;
      current_size = num_segments * seg_size;
    }

reset_all : List AtomicBitmap → List AtomicBitmap
reset_all [] = []
reset_all (p ∷ ps) = Atomic.reset p ∷ reset_all ps

unfoldable pub reset : SegmentedBitmap → SegmentedBitmap
unfolding reset_all
reset s = record s { segments = reset_all s.segments }

-- The growth at the start of `set_bit`: the new segments are not reset.
unfoldable pub grow : (ℕ → ℕ → ℕ) → SegmentedBitmap → ℕ → SegmentedBitmap
unfolding fresh_segments
grow memory s pos =
    let num_segments = (pos + s.segment_size) / s.segment_size in
    let k = length s.segments in
    record s {
      segments = s.segments ++ fresh_segments memory s.segment_size (num_segments - k) k;
      current_size = num_segments * s.segment_size;
    }

-- `segments[pos / segment_size]`, changed by `f` at `pos % segment_size`.
unfoldable pub at_segment :
    (AtomicBitmap → ℕ → AtomicBitmap) → SegmentedBitmap → ℕ → SegmentedBitmap
at_segment f s pos =
    let i = pos / s.segment_size in
    record s {
      segments = set s.segments i (f (get_or s.segments i no_segment) (pos % s.segment_size));
    }

unfoldable pub set_bit : (ℕ → ℕ → ℕ) → SegmentedBitmap → ℕ → SegmentedBitmap
set_bit memory s pos =
    at_segment Atomic.set_bit (if leb s.current_size pos then grow memory s pos else s) pos

unfoldable pub clear_bit : SegmentedBitmap → ℕ → SegmentedBitmap
clear_bit s pos = if leb s.current_size pos then s else at_segment Atomic.clear_bit s pos

unfoldable pub get_bit : SegmentedBitmap → ℕ → Bool
get_bit s pos =
    if leb s.current_size pos
    then false
    else Atomic.get_bit (get_or s.segments (pos / s.segment_size) no_segment) (pos % s.segment_size)
