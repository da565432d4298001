-- ===== src/Bitmap/Segmented/Growth.antt =====
-- The growth in `set_bit` of src/utils.h.
use native.Mathlib.Nat.{div-lt_iff_lt-mul, le-div_iff_mul-le, add-div_right, mod-lt}
use radix_graph.Base.{
  ℕ, zero, suc, ◌+◌, ◌-◌, ◌/◌, ◌%◌, ◌≤◌, ◌<◌, ◌≡◌, refl, ◌∙◌, ap, subst, sym, inl, inr, ◌&&◌, true,
  false, not, List, [], ◌∷◌, length, get_or, if◌then◌else◌, leb, arith, Bool-cases, ltb, ltb→lt,
  length-append, get_or-append_left, get_or-append_right, leb→le, leb→lt, lt→leb,
}
use radix_graph.Bits.{test_bit}
use radix_graph.Bitmap.Atomic
use radix_graph.Bitmap.Atomic.{AtomicBitmap, bit_offset}
use radix_graph.Bitmap.Atomic.Laws
use radix_graph.Bitmap.Atomic.Laws.{AllBytes, capacity}
use radix_graph.Bitmap.Segmented.{SegmentedBitmap, no_segment, fresh_segments, new, grow, get_bit}
use radix_graph.Bitmap.Segmented.Valid.{segment, IsValid}

pub length-fresh_segments : (f : ℕ → ℕ → ℕ) (size n i : ℕ) → length (fresh_segments f size n i) ≡ n
unfolding fresh_segments
length-fresh_segments f size zero i = refl
length-fresh_segments f size (suc n) i = ap suc (length-fresh_segments f size n (i + 1))

pub get_or-fresh_segments :
    (f : ℕ → ℕ → ℕ) (size n i j : ℕ)
    → j < n
    → get_or (fresh_segments f size n i) j no_segment ≡ Atomic.new (f (i + j)) size
unfolding fresh_segments
get_or-fresh_segments f size zero i j h = absurd (omega arith)
get_or-fresh_segments f size (suc n) i zero h = ap (λ k. Atomic.new (f k) size) (omega arith)
get_or-fresh_segments f size (suc n) i (suc j) h =
    get_or-fresh_segments f size n (i + 1) j (omega arith)
    ∙ ap (λ k. Atomic.new (f k) size) (omega arith)

pub get_or-beyond {ℓ} :
    {A : Type ℓ} (xs : List A) (i : ℕ) (d : A) → length xs ≤ i → get_or xs i d ≡ d
get_or-beyond [] i d h = refl
get_or-beyond (x ∷ xs) zero d h = absurd (omega arith)
get_or-beyond (x ∷ xs) (suc i) d h = get_or-beyond xs i d (omega arith)

module _ (memory : ℕ → ℕ → ℕ) (s : SegmentedBitmap) (v : IsValid s) (p : ℕ)
    (full : s.current_size ≤ p) where
  abbrev pub num_segments : ℕ
  num_segments = (p + s.segment_size) / s.segment_size

  abbrev added : ℕ
  added = num_segments - length s.segments

  grows : length s.segments < num_segments
  grows = rw (add-div_right p v.positive) (
      omega (
        arith,
        (le-div_iff_mul-le {x = length s.segments} {y = p} v.positive).1 (omega (arith, v.counted)),
      ))

  length-grow : length (grow memory s p).segments ≡ num_segments
  unfolding grow
  length-grow = rw (length-append, length-fresh_segments) (omega (arith, grows))

  segment-grow_old : (i : ℕ) → i < length s.segments → segment (grow memory s p) i ≡ segment s i
  unfolding grow
  segment-grow_old i h = get_or-append_left s.segments _ i no_segment h

  segment-grow-new :
      (j : ℕ)
      → j < added
      → segment (grow memory s p) (length s.segments + j)
        ≡ Atomic.new (memory (length s.segments + j)) s.segment_size
  unfolding grow
  segment-grow-new j h =
      get_or-append_right s.segments _ j no_segment
      ∙ get_or-fresh_segments memory s.segment_size added (length s.segments) j h

  pub grow-inside : p < (grow memory s p).current_size
  unfolding grow
  grow-inside = (div-lt_iff_lt-mul v.positive).0 (rw (add-div_right p v.positive) (omega arith))

  -- A property of the old segments, of the new ones and of no segment holds of every segment.
  segment-grow_cases {ℓ} :
      (P : AtomicBitmap → Type ℓ) (i : ℕ)
      → (i < length s.segments → P (segment s i))
      → (i < num_segments → P (Atomic.new (memory i) s.segment_size))
      → (num_segments ≤ i → P no_segment)
      → P (segment (grow memory s p) i)
  segment-grow_cases P i old new none = elim (Bool-cases (ltb i (length s.segments))) [
    | inl here ↦ let h = ltb→lt _ _ here in subst P (sym (segment-grow_old i h)) (old h)
    | inr there ↦ elim (Bool-cases (ltb i num_segments)) [
      | inl inside ↦
          let j = i - length s.segments in
          let e : length s.segments + j ≡ i = ground (arith, there) in
          let made =
            segment-grow-new j (ground (arith, inside, grows))
            ∙ ap (λ k. Atomic.new (memory k) s.segment_size) e in
          subst P (sym (ap (segment (grow memory s p)) (sym e) ∙ made)) (new (ltb→lt _ _ inside))
      | inr beyond ↦
          let h : num_segments ≤ i = ground (arith, beyond) in
          subst P (sym (get_or-beyond (grow memory s p).segments i no_segment (rw length-grow h)))
            (none h)
    ]
  ]

  pub grow-IsValid : ((i k : ℕ) → memory i k < 256) → IsValid (grow memory s p)
  grow-IsValid small = record {
    positive = unfold grow in v.positive;
    counted = rw length-grow (unfold grow in refl);
    room = λ i h.
        segment-grow_cases (λ m. (grow memory s p).segment_size ≤ capacity m) i
          (λ old. unfold grow in v.room i old)
          (λ new. unfold grow in Laws.capacity-new (memory i) s.segment_size)
          (λ beyond. absurd (omega (arith, rw length-grow at h)));
    bytes = λ i.
        segment-grow_cases (λ m. AllBytes m.start) i (λ old. v.bytes i)
          (λ new. Laws.new-AllBytes (memory i) s.segment_size (small i)) (λ beyond j. omega arith);
  }

  get_bit-new_segment :
      (q : ℕ)
      → leb s.current_size q ≡ true
      → leb (grow memory s p).current_size q ≡ false
      → Atomic.get_bit (segment (grow memory s p) (q / s.segment_size)) (q % s.segment_size)
        ≡ test_bit
            (memory (q / s.segment_size) (q % s.segment_size / 8))
            (bit_offset (q % s.segment_size))
  get_bit-new_segment q fresh within =
      let value =
        test_bit (memory (q / s.segment_size) (q % s.segment_size / 8))
          (bit_offset (q % s.segment_size)) in
      let lower =
        (le-div_iff_mul-le {x = length s.segments} {y = q} v.positive).1
          (omega (arith, v.counted, leb→le _ _ fresh)) in
      let upper : q / s.segment_size < num_segments =
        (div-lt_iff_lt-mul v.positive).1 (unfold grow in leb→lt _ _ within) in
      segment-grow_cases (λ m. Atomic.get_bit m (q % s.segment_size) ≡ value) (q / s.segment_size)
        (λ old. absurd (omega arith))
        (λ new. Laws.get_bit-new _ s.segment_size _ (mod-lt q v.positive))
        (λ beyond. absurd (omega arith))

  -- After the growth an old position reads as before, and a new one reads the memory.
  pub get_bit-grow :
      (q : ℕ)
      → get_bit (grow memory s p) q ≡ (
          if leb s.current_size q
          then not (leb (grow memory s p).current_size q)
            && test_bit
                (memory (q / s.segment_size) (q % s.segment_size / 8))
                (bit_offset (q % s.segment_size))
          else get_bit s q)
  unfolding grow
  get_bit-grow q = elim (Bool-cases (leb s.current_size q)) [
    | inr old ↦
        let h = leb→lt _ _ old in
        let i : q / s.segment_size < length s.segments =
          (div-lt_iff_lt-mul v.positive).1 (omega (arith, v.counted)) in
        let still : leb (grow memory s p).current_size q ≡ false =
          lt→leb _ _ (omega (arith, grow-inside)) in
        unfold get_bit in
        rw (still, old)
          (ap (λ m. Atomic.get_bit m (q % s.segment_size))
            (segment-grow_old (q / s.segment_size) i))
    | inl fresh ↦ elim (Bool-cases (leb (grow memory s p).current_size q)) [
      | inl beyond ↦ unfold get_bit in rw (beyond, fresh)
      | inr within ↦ unfold get_bit in rw (within, fresh) (get_bit-new_segment q fresh within)
    ]
  ]
