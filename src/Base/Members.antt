-- ===== src/Base/Members.antt =====
-- Whether a number is in a list.
use Prim.Native.Nat.{ℕ}
use mathlib.Core.Path.{◌≡◌, refl}
use mathlib.Core.Bool.{Bool, false, ◌||◌}
use mathlib.Core.List.{List, [], ◌∷◌, ◌++◌}
use radix_graph.Base.Tests.{◌==◌, Bool-cases}
use mathlib.Core.Logic.{inl, inr}

abbrev pub mem : ℕ → List ℕ → Bool
mem w [] = false
mem w (x ∷ xs) = (w == x) || mem w xs

pub mem-append : (w : ℕ) (xs ys : List ℕ) → mem w (xs ++ ys) ≡ (mem w xs || mem w ys)
mem-append w [] ys = refl
mem-append w (x ∷ xs) ys = elim (Bool-cases (w == x)) [
  | inl here ↦ rw here
  | inr other ↦ rw (other, mem-append w xs ys)
]
