-- ===== src/Edges/Writers/Threads.antt =====
-- The places that the writers of an edge array have.
use radix_graph.Base.{ℕ, ◌≡◌, ◌∙◌, sym, false, some, ◌==◌, Bool-cases, inl, inr, ==→≡}
use radix_graph.Base.Counts.{update}
use radix_graph.Edges.Writers.{Place, place_of}

-- One thread moves to a place that no other thread has.
pub update-apart :
    (thread : ℕ → Place) (k : ℕ) (p : Place)
    → ((a b i : ℕ) → place_of (thread a) ≡ some i → place_of (thread b) ≡ some i → a ≡ b)
    → ((l i : ℕ) → (k == l) ≡ false → place_of p ≡ some i → place_of (thread l) ≡ some i → ⊥)
    → (a b i : ℕ) → place_of (update thread k p a) ≡ some i
    → place_of (update thread k p b) ≡ some i
    → a ≡ b
update-apart thread k p apart free a b i e f = elim (Bool-cases (k == a)) [
  | inl at_a ↦ elim (Bool-cases (k == b)) [
    | inl at_b ↦ sym (==→≡ _ _ at_a) ∙ ==→≡ _ _ at_b
    | inr off_b ↦ absurd (free b i off_b (rw at_a at e) (rw off_b at f))
  ]
  | inr off_a ↦ elim (Bool-cases (k == b)) [
    | inl at_b ↦ absurd (free a i off_a (rw at_b at f) (rw off_a at e))
    | inr off_b ↦ apart a b i (rw off_a at e) (rw off_b at f)
  ]
]
