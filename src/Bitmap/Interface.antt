-- ===== src/Bitmap/Interface.antt =====
-- What the edge store asks of a bitmap: `SegmentedBitmap` of src/utils.h, as src/radixgraph.cpp uses
-- it. The laws hold on valid bitmaps.
use radix_graph.Base.{ℕ, ◌≡◌, Bool, false, not, ◌&&◌, ◌||◌, ◌==◌}

pub record Bitmap (B : Type 0) : Type 0 where
  pub get_bit : B → ℕ → Bool
  pub set_bit : B → ℕ → B
  pub clear_bit : B → ℕ → B

pub record BitmapLaws {B : Type 0} (ops : Bitmap B) (IsValid : B → Type 0) : Type 0 where
  pub get_set :
      (m : B)
      → IsValid m
      → (p q : ℕ) → ops.get_bit (ops.set_bit m p) q ≡ ((p == q) || ops.get_bit m q)
  pub get_clear :
      (m : B)
      → IsValid m
      → (p q : ℕ) → ops.get_bit (ops.clear_bit m p) q ≡ (not (p == q) && ops.get_bit m q)
  pub set_valid : (m : B) → IsValid m → (p : ℕ) → IsValid (ops.set_bit m p)
  pub clear_valid : (m : B) → IsValid m → (p : ℕ) → IsValid (ops.clear_bit m p)

-- A valid bitmap that reads as `f`, and one with no bit set.
abbrev pub Reads : {B : Type 0} → Bitmap B → (B → Type 0) → B → (ℕ → Bool) → Type 0
Reads ops IsValid m f = IsValid m × ((q : ℕ) → ops.get_bit m q ≡ f q)

abbrev pub IsClean : {B : Type 0} → Bitmap B → (B → Type 0) → B → Type 0
IsClean ops IsValid m = Reads ops IsValid m (λ q. false)
