-- ===== src/Tests/Bits.antt =====
-- The bitmaps of src/utils.h at concrete inputs.
use radix_graph.Base.{
  ℕ, zero, suc, ◌≡◌, refl, not, ◌&&◌, ◌||◌, [], ◌∷◌, arith, ◌==◌, leb, if◌then◌else◌,
}
use radix_graph.Bitmap.Atomic.Laws
use radix_graph.Bitmap.Segmented
use radix_graph.Bitmap.Segmented.{SegmentedBitmap}
use radix_graph.Bitmap.Segmented.Valid.{IsValid}
use radix_graph.Bitmap.Segmented.Laws as SegmentedLaws
use radix_graph.Bitmap.Interface.{BitmapLaws}
use radix_graph.Bitmap.Segmented.Filled.{segmented, segmented-BitmapLaws}

-- Memory that holds ones, and zeroed memory.
abbrev ones : ℕ → ℕ → ℕ
ones i k = 255

abbrev zeros : ℕ → ℕ → ℕ
zeros i k = 0

-- A segment of eight bits.
abbrev small : SegmentedBitmap
small = record { segments = record { start = 5 ∷ [] } ∷ []; segment_size = 8; current_size = 8 }

small-IsValid : IsValid small
small-IsValid = record {
  positive = omega arith;
  counted = refl;
  room = λ i h. ground arith;
  bytes = small_bytes;
}
  where
    small_bytes : (i : ℕ) → Laws.AllBytes (Segmented.Valid.segment small i).start
    small_bytes zero zero = omega arith
    small_bytes zero (suc j) = omega arith
    small_bytes (suc i) j = omega arith

-- The bitmap grows over position 20, and position 17 reads the memory.
grow_example : Segmented.get_bit (Segmented.set_bit ones small 20) 17 ≡ (
    (20 == 17)
    || (if leb small.current_size 17
        then not (leb (Segmented.set_bit ones small 20).current_size 17)
          && SegmentedLaws.memory_bit ones small 17
        else Segmented.get_bit small 17))
grow_example = SegmentedLaws.get_bit-set_bit ones (λ i k. omega arith) small small-IsValid 20 17

clear_example :
    Segmented.get_bit (Segmented.clear_bit small 2) 2 ≡ (not (2 == 2) && Segmented.get_bit small 2)
clear_example = SegmentedLaws.get_bit-clear_bit small small-IsValid 2 2

laws_example : BitmapLaws (segmented zeros) IsValid
laws_example = segmented-BitmapLaws zeros (λ i k. refl)
