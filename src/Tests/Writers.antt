-- ===== src/Tests/Writers.antt =====
-- Two writers of an array of two places, the second of which writes first.
use radix_graph.Base.{ℕ, ◌≡◌, refl, true, false, some, [], ◌∷◌, arith}
use radix_graph.Edges.{edge_at, blank}
use radix_graph.Tests.Edges.{Weight_ℕ}
use radix_graph.Edges.Writers.{
  idle, place_of, Writers, is_written, reserve, write, count_in, reserves, writes, counts, Quiet,
  Reach, start, later,
}
use radix_graph.Edges.Writers.Laws.{place_of_unique, full-written}
use radix_graph.Edges.Writers.Progress.{Run, wait_ends}

abbrev empty : Writers ℕ
empty = record {
  size = 0;
  physical_size = 0;
  edge = blank ∷ blank ∷ [];
  thread = λ k. idle;
  counted = λ i. false;
}

empty-Quiet : Quiet 2 empty
empty-Quiet = record {
  room = (refl, omega arith);
  same = refl;
  nobody = λ k. refl;
  counts = λ i. ground arith;
  all = λ i h. absurd (omega (arith, h));
}

abbrev both_in : Writers ℕ
both_in = reserve (reserve empty 0) 1

both_in-Reach : Reach 2 both_in
both_in-Reach = later (later (start empty-Quiet) (reserves 0 refl)) (reserves 1 refl)

apart_example : ◌≡◌ {A = ℕ} 1 1
apart_example = place_of_unique 2 both_in-Reach 1 1 1 refl refl

abbrev both_out : Writers ℕ
both_out = count_in (count_in (write (write both_in 1 1 7 5) 0 0 8 6) 1 1) 0 0

both_out-Reach : Reach 2 both_out
both_out-Reach =
    later
      (later
        (later (later both_in-Reach (writes 1 1 7 5 refl (omega arith)))
          (writes 0 0 8 6 refl (omega arith)))
        (counts 1 1 refl))
      (counts 0 0 refl)

full_example :
    (is_written (edge_at both_out.edge 0) ≡ true)
    × ((k : ℕ) → place_of (both_out.thread k) ≡ some 0 → ⊥)
full_example = full-written 2 both_out-Reach refl 0 (omega arith)

wait_example : (t : Writers ℕ) × Run 2 both_in t × (t.physical_size ≡ 2) × (t.size ≡ both_in.size)
wait_example = wait_ends 2 both_in-Reach (omega arith) 7 5
