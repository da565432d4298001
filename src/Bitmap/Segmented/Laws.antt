-- ===== src/Bitmap/Segmented/Laws.antt =====
-- What a read of a `SegmentedBitmap` sees after each update, growth included.
use mathlib.Core.Bool.{and-false}
use radix_graph.Base.{
  ℕ, ◌/◌, ◌%◌, ◌<◌, ◌≡◌, refl, ◌∙◌, ap, if-elim, inl, inr, ◌&&◌, ◌||◌, Bool, true, false, not,
  if◌then◌else◌, leb, arith, ◌==◌, Bool-cases, ==→≡, leb→le, leb→lt,
}
use radix_graph.Bits.{test_bit, test_bit-zero}
use radix_graph.Bitmap.Atomic
use radix_graph.Bitmap.Atomic.{AtomicBitmap, bit_offset}
use radix_graph.Bitmap.Atomic.Laws
use radix_graph.Bitmap.Atomic.Laws.{AllBytes, capacity}
use radix_graph.Bitmap.Segmented.{SegmentedBitmap, grow, at_segment, set_bit, clear_bit, get_bit}
use radix_graph.Bitmap.Segmented.Valid.{IsValid}
use radix_graph.Bitmap.Segmented.Update.{at_segment-IsValid, get_bit-at_segment}
use radix_graph.Bitmap.Segmented.Growth.{grow-inside, grow-IsValid, get_bit-grow}

-- The bytes that `new` returns for segment i are bytes.
abbrev pub AreBytes : (ℕ → ℕ → ℕ) → Type 0
AreBytes memory = (i k : ℕ) → memory i k < 256

-- What the memory below position q held.
abbrev pub memory_bit : (ℕ → ℕ → ℕ) → SegmentedBitmap → ℕ → Bool
memory_bit memory s q =
    test_bit (memory (q / s.segment_size) (q % s.segment_size / 8))
      (bit_offset (q % s.segment_size))

module _ (s : SegmentedBitmap) (v : IsValid s) (p : ℕ) (inside : p < s.current_size) where
  setting-IsValid : IsValid (at_segment Atomic.set_bit s p)
  setting-IsValid =
      at_segment-IsValid Atomic.set_bit ◌||◌ (λ b. refl) Laws.get_bit-set_bit Laws.set_bit-AllBytes
        Laws.capacity-set_bit s v p inside

  get_bit-setting : (q : ℕ) → get_bit (at_segment Atomic.set_bit s p) q ≡ ((p == q) || get_bit s q)
  get_bit-setting =
      get_bit-at_segment Atomic.set_bit ◌||◌ (λ b. refl) Laws.get_bit-set_bit Laws.set_bit-AllBytes
        Laws.capacity-set_bit s v p inside

  clearing-IsValid : IsValid (at_segment Atomic.clear_bit s p)
  clearing-IsValid =
      at_segment-IsValid Atomic.clear_bit (λ e b. not e && b) (λ b. refl) Laws.get_bit-clear_bit
        Laws.clear_bit-AllBytes Laws.capacity-clear_bit s v p inside

  get_bit-clearing :
      (q : ℕ) → get_bit (at_segment Atomic.clear_bit s p) q ≡ (not (p == q) && get_bit s q)
  get_bit-clearing =
      get_bit-at_segment Atomic.clear_bit (λ e b. not e && b) (λ b. refl) Laws.get_bit-clear_bit
        Laws.clear_bit-AllBytes Laws.capacity-clear_bit s v p inside

get_bit-outside : (s : SegmentedBitmap) (q : ℕ) → leb s.current_size q ≡ true → get_bit s q ≡ false
unfolding get_bit
get_bit-outside s q beyond = rw beyond

clear_outside :
    (s : SegmentedBitmap) (p q : ℕ)
    → leb s.current_size p ≡ true
    → get_bit s q ≡ (not (p == q) && get_bit s q)
clear_outside s p q beyond = elim (Bool-cases (p == q)) [
  | inl same ↦ rw (same, ← ==→≡ _ _ same) (get_bit-outside s p beyond)
  | inr apart ↦ rw apart
]

zeroed_outside :
    (memory : ℕ → ℕ → ℕ)
    → ((i k : ℕ) → memory i k ≡ 0)
    → (s : SegmentedBitmap) (q : ℕ) (b : Bool)
    → (if leb s.current_size q then b && memory_bit memory s q else get_bit s q) ≡ get_bit s q
zeroed_outside memory zeroed s q b = elim (Bool-cases (leb s.current_size q)) [
  | inl beyond ↦
      let clear : memory_bit memory s q ≡ false = rw zeroed (test_bit-zero _) in
      rw (beyond, clear, get_bit-outside s q beyond, and-false)
  | inr within ↦ rw within
]

module _ (memory : ℕ → ℕ → ℕ) (small : AreBytes memory) (s : SegmentedBitmap) (v : IsValid s)
    (p : ℕ) where
  room : SegmentedBitmap
  room = if leb s.current_size p then grow memory s p else s

  room-IsValid : IsValid room
  unfolding room
  room-IsValid =
      if-elim IsValid (leb s.current_size p) (grow memory s p) s
        (λ full. grow-IsValid memory s v p (leb→le _ _ full) small) (λ fits. v)

  room-inside : p < room.current_size
  unfolding room
  room-inside =
      if-elim (λ r. p < r.current_size) (leb s.current_size p) (grow memory s p) s
        (λ full. grow-inside memory s v p (leb→le _ _ full)) (λ fits. leb→lt _ _ fits)

  pub set_bit-IsValid : IsValid (set_bit memory s p)
  unfolding set_bit room
  set_bit-IsValid = setting-IsValid room room-IsValid p room-inside

  get_bit-room :
      (q : ℕ)
      → get_bit room q ≡ (
          if leb s.current_size q
          then not (leb room.current_size q) && memory_bit memory s q
          else get_bit s q)
  unfolding room
  get_bit-room q = elim (Bool-cases (leb s.current_size p)) [
    | inl full ↦ rw full (get_bit-grow memory s v p (leb→le _ _ full) q)
    | inr fits ↦ elim (Bool-cases (leb s.current_size q)) [
      | inl beyond ↦ rw (fits, beyond) (get_bit-outside s q beyond)
      | inr within ↦ rw (fits, within)
    ]
  ]

  -- Setting position p of a valid segmented bitmap sets p, where the memory that new segments get
  -- holds bytes. Every other position reads as before, unless the bitmap has grown over it: then
  -- it reads what that memory held.
  pub get_bit-set_bit :
      (q : ℕ)
      → get_bit (set_bit memory s p) q ≡ (
          (p == q)
          || (if leb s.current_size q
              then not (leb (set_bit memory s p).current_size q) && memory_bit memory s q
              else get_bit s q))
  unfolding set_bit room
  get_bit-set_bit q =
      get_bit-setting room room-IsValid p room-inside q
      ∙ ap (λ b. (p == q) || b) (unfold at_segment in get_bit-room q)

module _ (s : SegmentedBitmap) (v : IsValid s) (p : ℕ) where
  pub clear_bit-IsValid : IsValid (clear_bit s p)
  unfolding clear_bit
  clear_bit-IsValid =
      if-elim IsValid (leb s.current_size p) s _ (λ beyond. v)
        (λ inside. clearing-IsValid s v p (leb→lt _ _ inside))

  -- Clearing position p of a valid segmented bitmap clears p and no other position, inside the
  -- bitmap and beyond it.
  pub get_bit-clear_bit : (q : ℕ) → get_bit (clear_bit s p) q ≡ (not (p == q) && get_bit s q)
  get_bit-clear_bit q = elim (Bool-cases (leb s.current_size p)) [
    | inl beyond ↦ unfold clear_bit in rw beyond (clear_outside s p q beyond)
    | inr inside ↦ unfold clear_bit in rw inside (get_bit-clearing s v p (leb→lt _ _ inside) q)
  ]

-- Where `new` returns zeroed memory, setting position p sets p and no other position.
pub get_bit-set_bit_zeroed :
    (memory : ℕ → ℕ → ℕ)
    → ((i k : ℕ) → memory i k ≡ 0)
    → (s : SegmentedBitmap) → IsValid s
    → (p q : ℕ) → get_bit (set_bit memory s p) q ≡ ((p == q) || get_bit s q)
get_bit-set_bit_zeroed memory zeroed s v p q =
    get_bit-set_bit memory (λ i k. rw (zeroed i k) (omega arith)) s v p q
    ∙ ap (λ b. (p == q) || b) (zeroed_outside memory zeroed s q _)
