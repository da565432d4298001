-- ===== src/Bitmap/Segmented/Filled.antt =====
-- `SegmentedBitmap` fills the interface, where `new` returns zeroed memory.
use radix_graph.Base.{ℕ, ◌≡◌, arith}
use radix_graph.Bitmap.Interface.{Bitmap, BitmapLaws}
use radix_graph.Bitmap.Segmented.{SegmentedBitmap, get_bit, set_bit, clear_bit}
use radix_graph.Bitmap.Segmented.Valid.{IsValid}
use radix_graph.Bitmap.Segmented.Laws.{
  set_bit-IsValid, clear_bit-IsValid, get_bit-clear_bit, get_bit-set_bit_zeroed,
}

abbrev pub segmented : (ℕ → ℕ → ℕ) → Bitmap SegmentedBitmap
segmented memory = record { get_bit = get_bit; set_bit = set_bit memory; clear_bit = clear_bit }

-- Where `new` returns zeroed memory, the segmented bitmap obeys the laws that the edge store asks
-- of a bitmap.
pub segmented-BitmapLaws :
    (memory : ℕ → ℕ → ℕ) → ((i k : ℕ) → memory i k ≡ 0) → BitmapLaws (segmented memory) IsValid
segmented-BitmapLaws memory zeroed = record {
  get_set = get_bit-set_bit_zeroed memory zeroed;
  get_clear = get_bit-clear_bit;
  set_valid = set_bit-IsValid memory (λ i k. rw (zeroed i k) (omega arith));
  clear_valid = clear_bit-IsValid;
}
