-- ===== src/Tests/Triangles.antt =====
-- `OrderedCount` on the graph of the search, and on a graph of one triangle.
use radix_graph.Base.{
  ℕ, zero, suc, ◌+◌, ◌≡◌, ◌≤◌, refl, ap, ◌∙◌, false, bit, List, [], ◌∷◌, if◌then◌else◌, leb, ◌==◌,
  arith, Bool-cases, inl, inr, none,
}
use radix_graph.Bitmap.Segmented.Valid as SegmentedValid
use radix_graph.Reader.{Reader, times, by_offset}
use radix_graph.Reader.Offset.{IsReady, next_at}
use radix_graph.Triangles.{
  ordered_count, count_vertices, count_vertex, neighbours_of, count_common, count_here, skip_below,
}
use radix_graph.Triangles.Laws.{AllFrom, AllFrom-le, IsSorted}
use radix_graph.Triangles.Correct.{SortLaws, cliques, looped}
use radix_graph.Triangles.OnGraph.{ordered_count-cliques}
use radix_graph.Tests.Edges.{Weight_ℕ, Bitmap_zeroed, laws, empty}
use radix_graph.Tests.Vertices.{stale}
use radix_graph.Tests.Bfs.{both, both_set, vs, latest, snapshots, both_unsorted}

-- A sort by insertion.
abbrev place : ℕ → List ℕ → List ℕ
place v [] = v ∷ []
place v (x ∷ l) = let rest = place v l in if leb v x then v ∷ x ∷ l else x ∷ rest

abbrev by_insertion : List ℕ → List ℕ
by_insertion [] = []
by_insertion (v ∷ l) = place v (by_insertion l)

AllFrom-place : (b v : ℕ) (l : List ℕ) → b ≤ v → AllFrom b l → AllFrom b (place v l)
AllFrom-place b v [] h all = (h, tt)
AllFrom-place b v (x ∷ l) h all = elim (Bool-cases (leb v x)) [
  | inl first ↦ rw first (h, all)
  | inr later ↦ rw later (all.0, AllFrom-place b v l h all.1)
]

place-IsSorted : (v : ℕ) (l : List ℕ) → IsSorted l → IsSorted (place v l)
place-IsSorted v [] s = (tt, tt)
place-IsSorted v (x ∷ l) s = elim (Bool-cases (leb v x)) [
  | inl first ↦
      let le : v ≤ x = ground (arith, first) in rw first ((le, AllFrom-le v x l le s.0), s)
  | inr later ↦ rw later (AllFrom-place x v l (ground (arith, later)) s.0, place-IsSorted v l s.1)
]

times-place : (v w : ℕ) (l : List ℕ) → times v (place w l) ≡ bit (w == v) + times v l
times-place v w [] = refl
times-place v w (x ∷ l) = elim (Bool-cases (leb w x)) [
  | inl first ↦ rw first
  | inr later ↦ rw later (omega (arith, times-place v w l))
]

by_insertion-SortLaws : SortLaws by_insertion
by_insertion-SortLaws = record { sorted = sorted; same = same }
  where
    sorted : (l : List ℕ) → IsSorted (by_insertion l)
    sorted [] = tt
    sorted (v ∷ l) = place-IsSorted v (by_insertion l) (sorted l)

    same : (v : ℕ) (l : List ℕ) → times v (by_insertion l) ≡ times v l
    same v [] = refl
    same v (x ∷ l) = times-place v x (by_insertion l) ∙ ap (λ k. bit (x == v) + k) (same v l)

ordered_count_example :
    IsReady SegmentedValid.IsValid empty 1 vs both.is_sorted
      (ordered_count (by_offset empty stale 1 latest) by_insertion both 2).0
    × ((ordered_count (by_offset empty stale 1 latest) by_insertion both 2).1
        ≡ cliques (next_at vs latest) 2 + looped (next_at vs latest) 2)
ordered_count_example =
    ordered_count-cliques laws empty stale 1 latest by_insertion by_insertion-SortLaws both
      both_set.valid snapshots (λ e. absurd (both_unsorted e)) 2

abbrev triangle : ℕ → List ℕ
triangle zero = 2 ∷ 1 ∷ []
triangle (suc zero) = 0 ∷ 2 ∷ []
triangle (suc (suc zero)) = 1 ∷ 0 ∷ []
triangle (suc (suc (suc u))) = []

abbrev lists : Reader Unit
lists = record {
  find = λ g id. (g, none);
  read = λ g u. (g, triangle u);
  degree = λ g u. 2;
  is_sorted = λ g. false;
}

one_triangle : (ordered_count lists by_insertion tt 3).1 ≡ 1
unfolding ordered_count count_vertices count_vertex neighbours_of count_common count_here skip_below
one_triangle = refl
