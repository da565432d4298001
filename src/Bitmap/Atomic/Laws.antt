-- ===== src/Bitmap/Atomic/Laws.antt =====
-- What a read of an `AtomicBitmap` sees after each update.
use native.Mathlib.Nat.{zero-div, zero-add}
use radix_graph.Base.{
  ℕ, zero, suc, ◌+◌, ◌-◌, ◌*◌, ◌/◌, ◌%◌, ◌≤◌, ◌<◌, ◌≡◌, ◌≢◌, refl, ◌&&◌, ◌||◌, false, not, List, [],
  ◌∷◌, length, get_or, set, arith, ◌==◌, ap, ◌∙◌, Bool-cases, inl, inr, get_or-set_self,
  get_or-set_ne, length-set, get_or-replicate, ==→≡, ==→≢,
}
use radix_graph.Bits.{bit_and-mask, test_bit, test_bit-or, test_bit-and, or-lt, and-lt}
use radix_graph.Bitmap.Atomic.{
  AtomicBitmap, bit_offset, fresh_bytes, new, reset, set_bit, clear_bit, get_bit,
}

-- Every entry is a byte.
abbrev pub AllBytes : List ℕ → Type 0
AllBytes ws = (i : ℕ) → get_or ws i 0 < 256

-- The positions that a bitmap has room for.
abbrev pub capacity : AtomicBitmap → ℕ
capacity m = length m.start * 8

bit_offset-mod : (n : ℕ) → bit_offset n ≡ n % 8
bit_offset-mod n = bit_and-mask n 3

bit_offset-lt : (n : ℕ) → bit_offset n < 8
bit_offset-lt n = omega (arith, bit_offset-mod n)

same_word : (p q : ℕ) → p / 8 ≡ q / 8 → (bit_offset p == bit_offset q) ≡ (p == q)
same_word p q e = rw (bit_offset-mod p, bit_offset-mod q) (ground arith)

other_word : (p q : ℕ) → p / 8 ≢ q / 8 → (p == q) ≡ false
other_word p q h = ground arith

AllBytes-set : (ws : List ℕ) (i v : ℕ) → AllBytes ws → v < 256 → AllBytes (set ws i v)
AllBytes-set [] i v h lt j = h j
AllBytes-set (w ∷ ws) zero v h lt zero = lt
AllBytes-set (w ∷ ws) zero v h lt (suc j) = h (suc j)
AllBytes-set (w ∷ ws) (suc i) v h lt zero = h zero
AllBytes-set (w ∷ ws) (suc i) v h lt (suc j) = AllBytes-set ws i v (λ k. h (suc k)) lt j

module _ (m : AtomicBitmap) (bytes : AllBytes m.start) (p : ℕ) where
  pub set_bit-AllBytes : AllBytes (set_bit m p).start
  unfolding set_bit
  set_bit-AllBytes =
      AllBytes-set m.start _ _ bytes (or-lt _ _ (bytes (p / 8)) (omega (arith, bit_offset-mod p)))

  pub clear_bit-AllBytes : AllBytes (clear_bit m p).start
  unfolding clear_bit
  clear_bit-AllBytes =
      AllBytes-set m.start _ _ bytes (and-lt _ _ (bytes (p / 8)) (omega (arith, bit_offset-mod p)))

  pub get_bit-set_bit :
      p < capacity m → (q : ℕ) → get_bit (set_bit m p) q ≡ ((p == q) || get_bit m q)
  unfolding get_bit set_bit
  get_bit-set_bit room q = elim (Bool-cases (p / 8 == q / 8)) [
    | inl same ↦
        let e = ==→≡ _ _ same in
        rw (← e, get_or-set_self m.start (p / 8) _ 0 (omega arith))
          (test_bit-or _ _ (bytes (p / 8)) (bit_offset-lt p) (bit_offset q) (bit_offset-lt q)
            ∙ ap (λ b. b || test_bit (get_or m.start (p / 8) 0) (bit_offset q)) (same_word p q e))
    | inr apart ↦
        let ne = ==→≢ _ _ apart in
        rw (get_or-set_ne m.start (p / 8) (q / 8) _ 0 ne, other_word p q ne)
  ]

  pub get_bit-clear_bit :
      p < capacity m → (q : ℕ) → get_bit (clear_bit m p) q ≡ (not (p == q) && get_bit m q)
  unfolding get_bit clear_bit
  get_bit-clear_bit room q = elim (Bool-cases (p / 8 == q / 8)) [
    | inl same ↦
        let e = ==→≡ _ _ same in
        rw (← e, get_or-set_self m.start (p / 8) _ 0 (omega arith))
          (test_bit-and _ _ (bytes (p / 8)) (bit_offset-lt p) (bit_offset q) (bit_offset-lt q)
            ∙ ap (λ b. not b && test_bit (get_or m.start (p / 8) 0) (bit_offset q))
                (same_word p q e))
    | inr apart ↦
        let ne = ==→≢ _ _ apart in
        rw (get_or-set_ne m.start (p / 8) (q / 8) _ 0 ne, other_word p q ne)
  ]

-- After `reset` every bit reads as zero.
pub get_bit-reset : (m : AtomicBitmap) (q : ℕ) → get_bit (reset m) q ≡ false
unfolding get_bit reset test_bit
get_bit-reset m q = rw (get_or-replicate {A = ℕ} (length m.start) (q / 8) 0, zero-div) refl

pub capacity-set_bit : (m : AtomicBitmap) (p : ℕ) → capacity (set_bit m p) ≡ capacity m
unfolding set_bit
capacity-set_bit m p = rw length-set

pub capacity-clear_bit : (m : AtomicBitmap) (p : ℕ) → capacity (clear_bit m p) ≡ capacity m
unfolding clear_bit
capacity-clear_bit m p = rw length-set

length-fresh_bytes : (f : ℕ → ℕ) (n i : ℕ) → length (fresh_bytes f n i) ≡ n
unfolding fresh_bytes
length-fresh_bytes f zero i = refl
length-fresh_bytes f (suc n) i = ap suc (length-fresh_bytes f n (i + 1))

get_or-fresh_bytes : (f : ℕ → ℕ) (n i j : ℕ) → j < n → get_or (fresh_bytes f n i) j 0 ≡ f (i + j)
unfolding fresh_bytes
get_or-fresh_bytes f zero i j h = absurd (omega arith)
get_or-fresh_bytes f (suc n) i zero h = ap f (omega arith)
get_or-fresh_bytes f (suc n) i (suc j) h =
    get_or-fresh_bytes f n (i + 1) j (omega arith) ∙ ap f (omega arith)

AllBytes-fresh_bytes : (f : ℕ → ℕ) (n i : ℕ) → ((k : ℕ) → f k < 256) → AllBytes (fresh_bytes f n i)
unfolding fresh_bytes
AllBytes-fresh_bytes f zero i h j = omega arith
AllBytes-fresh_bytes f (suc n) i h zero = h i
AllBytes-fresh_bytes f (suc n) i h (suc j) = AllBytes-fresh_bytes f n (i + 1) h j

module _ (f : ℕ → ℕ) (size : ℕ) where
  pub new-AllBytes : ((k : ℕ) → f k < 256) → AllBytes (new f size).start
  unfolding new
  new-AllBytes = AllBytes-fresh_bytes f _ 0

  pub capacity-new : size ≤ capacity (new f size)
  unfolding new
  capacity-new = omega (arith, length-fresh_bytes f ((size + 8 - 1) / 8) 0)

  -- A fresh bitmap reads what the memory held.
  pub get_bit-new :
      (q : ℕ) → q < size → get_bit (new f size) q ≡ test_bit (f (q / 8)) (bit_offset q)
  unfolding get_bit new
  get_bit-new q h = rw (get_or-fresh_bytes f ((size + 8 - 1) / 8) 0 (q / 8) (omega arith), zero-add)
