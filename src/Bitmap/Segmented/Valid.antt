-- ===== src/Bitmap/Segmented/Valid.antt =====
-- The well-formedness of a `SegmentedBitmap`, and positions of one segment.
use native.Mathlib.Nat.{div-add-mod}
use radix_graph.Base.{
  ℕ, ◌*◌, ◌/◌, ◌%◌, ◌≤◌, ◌<◌, ◌≡◌, ◌≢◌, ap, inl, inr, false, length, get_or, arith, ◌==◌,
  Bool-cases, ==→≡, ==→≢,
}
use radix_graph.Bitmap.Atomic.{AtomicBitmap}
use radix_graph.Bitmap.Atomic.Laws.{AllBytes, capacity}
use radix_graph.Bitmap.Segmented.{SegmentedBitmap, no_segment}

abbrev pub segment : SegmentedBitmap → ℕ → AtomicBitmap
segment s i = get_or s.segments i no_segment

pub record IsValid (s : SegmentedBitmap) : Type 0 where
  pub positive : 0 < s.segment_size
  pub counted : s.current_size ≡ length s.segments * s.segment_size
  pub room : (i : ℕ) → i < length s.segments → s.segment_size ≤ capacity (segment s i)
  pub bytes : (i : ℕ) → AllBytes (segment s i).start

pub same_position : (p q n : ℕ) → p / n ≡ q / n → (p % n == q % n) ≡ (p == q)
same_position p q n e = elim (Bool-cases (p % n == q % n)) [
  | inl same ↦
      let h : p ≡ q =
        omega (arith, div-add-mod p n, div-add-mod q n, ==→≡ _ _ same, ap (λ (k : ℕ). n * k) e) in
      ground arith
  | inr apart ↦ let h : p ≢ q = λ k. ==→≢ _ _ apart (ap (λ j. j % n) k) in ground arith
]

pub other_segment : (p q n : ℕ) → p / n ≢ q / n → (p == q) ≡ false
other_segment p q n h = let ne : p ≢ q = λ k. h (ap (λ j. j / n) k) in ground arith
