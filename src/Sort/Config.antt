-- ===== src/Sort/Config.antt =====
-- The widths of the levels: `Optimizer::Prune` and the prefix sums of the constructors, src/sort.cpp.
use radix_graph.Base.{ℕ, ◌+◌, List, [], ◌∷◌, if◌then◌else◌, ◌==◌}

unfoldable pub prune : List ℕ → List ℕ
prune [] = []
prune (x ∷ a) = let rest = prune a in if x == 0 then rest else x ∷ rest

-- `sum_bits[i] = (i > 0 ? sum_bits[i - 1] : 0) + num_bits[i]`, with `acc` the sum before.
unfoldable pub prefix_sums : ℕ → List ℕ → List ℕ
prefix_sums acc [] = []
prefix_sums acc (b ∷ num_bits) = (acc + b) ∷ prefix_sums (acc + b) num_bits
