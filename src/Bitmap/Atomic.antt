-- ===== src/Bitmap/Atomic.antt =====
-- `AtomicBitmap` of src/utils.h.
pub mod Laws
use Prim.Native.Nat.{bit_and, bit_or}
use radix_graph.Base.{
  ℕ, zero, suc, ◌+◌, ◌-◌, ◌*◌, ◌/◌, ◌^◌, ◌&&◌, Bool, not, List, [], ◌∷◌, length, get_or, set,
  replicate, if◌then◌else◌, ◌==◌,
}
use radix_graph.Bits.{test_bit}

pub record AtomicBitmap : Type 0 where
  pub start : List ℕ

abbrev pub bits_per_word : ℕ
bits_per_word = 8

abbrev pub word_offset : ℕ → ℕ
word_offset n = n / bits_per_word

abbrev pub bit_offset : ℕ → ℕ
bit_offset n = bit_and n (bits_per_word - 1)

-- The bytes from position i on, as many as are left.
unfoldable pub fresh_bytes : (ℕ → ℕ) → ℕ → ℕ → List ℕ
fresh_bytes memory zero i = []
fresh_bytes memory (suc left) i = memory i ∷ fresh_bytes memory left (i + 1)

-- The constructor: the bytes hold whatever the memory held.
unfoldable pub new : (ℕ → ℕ) → ℕ → AtomicBitmap
unfolding fresh_bytes
new memory size =
    let num_words = (size + bits_per_word - 1) / bits_per_word in
    record { start = fresh_bytes memory num_words 0 }

unfoldable pub reset : AtomicBitmap → AtomicBitmap
reset m = record { start = replicate (length m.start) 0 }

-- `~((uint8_t) 1l << b)`, cut to a byte, is 255 - 2 ^ b.
unfoldable pub clear_bit : AtomicBitmap → ℕ → AtomicBitmap
clear_bit m pos =
    let w = word_offset pos in
    record { start = set m.start w (bit_and (get_or m.start w 0) (255 - 2 ^ bit_offset pos)) }

unfoldable pub set_bit : AtomicBitmap → ℕ → AtomicBitmap
set_bit m pos =
    let w = word_offset pos in
    record { start = set m.start w (bit_or (get_or m.start w 0) (2 ^ bit_offset pos)) }

unfoldable pub get_bit : AtomicBitmap → ℕ → Bool
get_bit m pos = test_bit (get_or m.start (word_offset pos) 0) (bit_offset pos)

-- One round of the loop of `set_bit_atomic`: the new bitmap, and whether the loop ends, which is
-- that the bit was clear.
unfoldable pub set_bit_atomic : AtomicBitmap → ℕ → AtomicBitmap × Bool
unfolding set_bit get_bit
set_bit_atomic m pos = (set_bit m pos, not (get_bit m pos))
