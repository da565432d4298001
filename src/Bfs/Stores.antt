-- ===== src/Bfs/Stores.antt =====
-- What the search of src/GAPBS/bfs.cc takes from its libraries: `SlidingQueue`, whose entries are seen
-- once the window has moved on, and `Bitmap`.
use radix_graph.Base.{ℕ, ◌+◌, ◌<◌, ◌≡◌, Bool, false, ◌||◌, List, [], ◌∷◌, ◌++◌, ◌==◌}

-- `window` is what stands from `begin()` to `end()`.
pub record Queue (Q : Type 0) : Type 0 where
  pub new : ℕ → Q
  pub push_back : Q → ℕ → Q
  pub slide_window : Q → Q
  pub window : Q → List ℕ

-- Queues with n slots: an entry takes a slot for good, and stands behind the window.
pub record QueueLaws {Q : Type 0} (queue : Queue Q) (n : ℕ) : Type 0 where
  pub pending : Q → List ℕ
  pub pushed : Q → ℕ
  pub empty :
      (queue.window (queue.new n) ≡ []) × (pending (queue.new n) ≡ []) × (pushed (queue.new n) ≡ 0)
  pub push :
      (q : Q) (v : ℕ)
      → pushed q < n
      → (queue.window (queue.push_back q v) ≡ queue.window q)
        × (pending (queue.push_back q v) ≡ pending q ++ v ∷ [])
        × (pushed (queue.push_back q v) ≡ pushed q + 1)
  pub slide :
      (q : Q)
      → (queue.window (queue.slide_window q) ≡ pending q)
        × (pending (queue.slide_window q) ≡ [])
        × (pushed (queue.slide_window q) ≡ pushed q)

pub record Front (F : Type 0) : Type 0 where
  pub new : ℕ → F
  pub reset : F → F
  pub set_bit : F → ℕ → F
  pub get_bit : F → ℕ → Bool

-- Bitmaps of n bits.
pub record FrontLaws {F : Type 0} (fronts : Front F) (n : ℕ) : Type 0 where
  pub get_reset : (f : F) (q : ℕ) → q < n → fronts.get_bit (fronts.reset f) q ≡ false
  pub get_set :
      (f : F) (p q : ℕ)
      → p < n
      → q < n
      → fronts.get_bit (fronts.set_bit f p) q ≡ ((p == q) || fronts.get_bit f q)
