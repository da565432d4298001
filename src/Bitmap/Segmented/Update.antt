-- ===== src/Bitmap/Segmented/Update.antt =====
-- One bit of one segment changes: `set_bit` and `clear_bit` of src/utils.h, inside the bitmap.
use native.Mathlib.Nat.{div-lt_iff_lt-mul, mod-lt}
use radix_graph.Base.{
  ℕ, ◌/◌, ◌%◌, ◌≤◌, ◌<◌, ◌≡◌, ◌∙◌, ap, subst, sym, if-elim, inl, inr, Bool, false, length,
  if◌then◌else◌, leb, arith, ◌==◌, Bool-cases, get_or-set_self, get_or-set_ne, length-set, ==→≡,
  ==→≢, leb→le,
}
use radix_graph.Bitmap.Atomic
use radix_graph.Bitmap.Atomic.{AtomicBitmap, bit_offset}
use radix_graph.Bitmap.Atomic.Laws.{AllBytes, capacity}
use radix_graph.Bitmap.Segmented.{SegmentedBitmap, no_segment, at_segment, get_bit}
use radix_graph.Bitmap.Segmented.Valid.{segment, IsValid, same_position, other_segment}

-- A change at one position of one segment, seen through `op`: the test whether the positions agree,
-- and the old bit.
module _ (f : AtomicBitmap → ℕ → AtomicBitmap) (op : Bool → Bool → Bool)
    (op_other : (b : Bool) → op false b ≡ b)
    (f_get : (m : AtomicBitmap)
      → AllBytes m.start
      → (p : ℕ) → p < capacity m
      → (q : ℕ) → Atomic.get_bit (f m p) q ≡ op (p == q) (Atomic.get_bit m q))
    (f_bytes : (m : AtomicBitmap) → AllBytes m.start → (p : ℕ) → AllBytes (f m p).start)
    (f_capacity : (m : AtomicBitmap) (p : ℕ) → capacity (f m p) ≡ capacity m) (s : SegmentedBitmap)
    (v : IsValid s) (p : ℕ) (inside : p < s.current_size) where
  segment-lt : (q : ℕ) → q < s.current_size → q / s.segment_size < length s.segments
  segment-lt q h = (div-lt_iff_lt-mul v.positive).1 (omega (arith, v.counted))

  offset-lt : (q : ℕ) → q % s.segment_size < s.segment_size
  offset-lt q = mod-lt q v.positive

  changed : AtomicBitmap
  changed = f (segment s (p / s.segment_size)) (p % s.segment_size)

  segment-at_segment :
      (i : ℕ)
      → segment (at_segment f s p) i ≡ (if (p / s.segment_size) == i then changed else segment s i)
  unfolding at_segment changed
  segment-at_segment i = elim (Bool-cases ((p / s.segment_size) == i)) [
    | inl same ↦
        rw same
          (rw (← ==→≡ _ _ same) (get_or-set_self s.segments _ _ no_segment (segment-lt p inside)))
    | inr apart ↦ rw apart (get_or-set_ne s.segments _ i _ no_segment (==→≢ _ _ apart))
  ]

  room-lt : p % s.segment_size < capacity (segment s (p / s.segment_size))
  room-lt = omega (arith, offset-lt p, v.room (p / s.segment_size) (segment-lt p inside))

  pub at_segment-IsValid : IsValid (at_segment f s p)
  unfolding at_segment
  at_segment-IsValid = record {
    positive = v.positive;
    counted = rw length-set v.counted;
    room = λ i h.
        subst (λ m. s.segment_size ≤ capacity m) (sym (segment-at_segment i))
          (if-elim (λ m. s.segment_size ≤ capacity m) _ changed (segment s i)
            (λ same.
              unfold changed in rw f_capacity (v.room (p / s.segment_size) (segment-lt p inside)))
            (λ apart. v.room i (rw length-set at h)));
    bytes = λ i.
        subst (λ m. AllBytes m.start) (sym (segment-at_segment i))
          (if-elim (λ m. AllBytes m.start) _ changed (segment s i)
            (λ same. unfold changed in f_bytes _ (v.bytes (p / s.segment_size)) _)
            (λ apart. v.bytes i));
  }

  pub get_bit-at_segment : (q : ℕ) → get_bit (at_segment f s p) q ≡ op (p == q) (get_bit s q)
  get_bit-at_segment q = elim (Bool-cases (leb s.current_size q)) [
    | inl beyond ↦
        let ne : (p == q) ≡ false = ground (arith, leb→le _ _ beyond) in
        unfold get_bit at_segment in rw (beyond, ne, op_other)
    | inr within ↦
        unfold get_bit at_segment in
        rw within (
          ap (λ m. Atomic.get_bit m (q % s.segment_size)) (segment-at_segment (q / s.segment_size))
          ∙ elim (Bool-cases ((p / s.segment_size) == (q / s.segment_size))) [
            | inl same ↦
                let e = ==→≡ _ _ same in
                unfold changed in
                rw same (
                  f_get _ (v.bytes (p / s.segment_size)) _ room-lt (q % s.segment_size)
                  ∙ rw (same_position p q s.segment_size e, e))
            | inr apart ↦ rw (apart, other_segment p q s.segment_size (==→≢ _ _ apart), op_other)
          ])
  ]
