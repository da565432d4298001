-- ===== src/Edges/Marks.antt =====
-- The bitmap in the loops of `GetNeighbours` and `LogCompaction` of src/radixgraph.cpp: it holds the
-- destinations that the scan has seen, and the last loop takes them out again.
use radix_graph.Base.{
  ℕ, zero, suc, ◌+◌, ◌-◌, ◌≡◌, ◌∙◌, sym, Bool, false, not, ◌&&◌, ◌||◌, Option, none, some, List,
  ◌++◌, leb, arith, Bool-cases, inl, inr, append-nil, append_assoc,
}
use radix_graph.Bitmap.Interface.{Bitmap, BitmapLaws, Reads, IsClean}
use radix_graph.Edges.{Weight, WeightedEdge, edge_at}
use radix_graph.Edges.Compaction.{clear_loop}
use radix_graph.Edges.Neighbours.{visit, visit_loop}
use radix_graph.Edges.View.{goes_to}
use radix_graph.Edges.Survivors.{see, kept, survivors}

module _ {W : Type 0} ⦃weight : Weight W⦄ where
  -- Whether one of the entries from index i on goes to d.
  unfoldable pub in_range : List (WeightedEdge W) → ℕ → ℕ → ℕ → Bool
  in_range es zero i d = false
  in_range es (suc left) i d = goes_to (edge_at es i) d || in_range es left (i + 1) d

  in_range_last :
      (es : List (WeightedEdge W)) (k i d : ℕ)
      → in_range es (suc k) i d ≡ (in_range es k i d || goes_to (edge_at es (i + k)) d)
  unfolding in_range
  in_range_last es zero i d = let e : i + 0 ≡ i = omega arith in rw e (ground arith)
  in_range_last es (suc k) i d =
      let e : i + suc k ≡ i + 1 + k = omega arith in
      rw e (ground (arith, in_range_last es k (i + 1) d))

  -- What has been seen when the scan of n entries ends.
  unfoldable pub see_all : List (WeightedEdge W) → ℕ → ℕ → (ℕ → Bool) → ℕ → Bool
  see_all es s zero seen = seen
  see_all es s (suc i) seen = see_all es s i (see s i (edge_at es i) seen)

  pub see_all-in_range :
      (es : List (WeightedEdge W)) (s n : ℕ) (seen : ℕ → Bool) (d : ℕ)
      → see_all es s n seen d ≡ (seen d || in_range es (n - s) s d)
  unfolding see_all
  see_all-in_range es s zero seen d = unfold in_range in ground arith
  see_all-in_range es s (suc i) seen d = elim (Bool-cases (leb s i)) [
    | inl log ↦
        let more : suc i - s ≡ suc (i - s) = ground arith in
        let here : s + (i - s) ≡ i = ground arith in
        let last = rw here at (in_range_last es (i - s) s d) in
        rw more (ground (arith, last, see_all-in_range es s i (see s i (edge_at es i) seen) d))
    | inr below ↦
        let nothing : suc i - s ≡ i - s = ground arith in
        rw nothing (ground (arith, see_all-in_range es s i (see s i (edge_at es i) seen) d))
  ]

module _ {W B : Type 0} ⦃weight : Weight W⦄ ⦃bitmap : Bitmap B⦄ {IsValid : B → Type 0}
    (laws : BitmapLaws bitmap IsValid) where
  clear_one :
      (o : Option ℕ) (w : W) (bits : B) (seen : ℕ → Bool)
      → Reads bitmap IsValid bits seen
      → Reads bitmap IsValid
          (elim o [ none ↦ bits | some v ↦ bitmap.clear_bit bits v ])
          (λ d. not (goes_to (record { weight = w; idx = o }) d) && seen d)
  clear_one none w bits seen r = r
  clear_one (some v) w bits seen r =
      (laws.clear_valid bits r.0 v, λ d. laws.get_clear bits r.0 v d ∙ rw (r.1 d))

  -- The last loop takes out what stands in its range.
  pub clear_loop-Reads :
      (es : List (WeightedEdge W)) (left i : ℕ) (bits : B) (seen : ℕ → Bool)
      → Reads bitmap IsValid bits seen
      → Reads bitmap IsValid (clear_loop es left i bits) (λ d. not (in_range es left i d) && seen d)
  unfolding clear_loop in_range
  clear_loop-Reads es zero i bits seen r = r
  clear_loop-Reads es (suc left) i bits seen r =
      let e = edge_at es i in
      let ih =
        clear_loop-Reads es left (i + 1) _ (λ d. not (goes_to e d) && seen d)
          (clear_one e.idx e.weight bits seen r) in
      (ih.0, λ d. ih.1 d ∙ ground arith)

  visit_at :
      (s i : ℕ) (o : Option ℕ) (w : W) (bits : B) (out : List (WeightedEdge W)) (seen : ℕ → Bool)
      → let e : WeightedEdge W = record { weight = w; idx = o } in
        Reads bitmap IsValid bits seen
        → Reads bitmap IsValid (visit s i e (bits, out)).0 (see s i e seen)
          × ((visit s i e (bits, out)).1 ≡ out ++ kept e seen)
  unfolding visit
  visit_at s i none w bits out seen r = ((r.0, λ d. r.1 d ∙ ground arith), sym (append-nil out))
  visit_at s i (some v) w bits out seen r = elim (Bool-cases (seen v)) [
    | inl old ↦ rw (r.1 v, old) ((r.0, λ d. r.1 d ∙ ground arith), sym (append-nil out))
    | inr new ↦
        rw (r.1 v, new)
          (
            elim (Bool-cases (leb s i)) [
              | inl log ↦
                  rw log ((laws.set_valid bits r.0 v, λ d. laws.get_set bits r.0 v d ∙ rw (r.1 d)))
              | inr below ↦ rw below r
            ],
            elim (Bool-cases (weight.is_zero w)) [
              | inl z ↦ rw z (sym (append-nil out))
              | inr nz ↦ rw nz
            ],
          )
  ]

  pub visit-Reads :
      (s i : ℕ) (e : WeightedEdge W) (bits : B) (out : List (WeightedEdge W)) (seen : ℕ → Bool)
      → Reads bitmap IsValid bits seen
      → Reads bitmap IsValid (visit s i e (bits, out)).0 (see s i e seen)
        × ((visit s i e (bits, out)).1 ≡ out ++ kept e seen)
  visit-Reads s i e = visit_at s i e.idx e.weight

  -- The loop over the edges appends the survivors, and marks what has been seen.
  pub visit_loop-survivors :
      (es : List (WeightedEdge W)) (s n : ℕ) (bits : B) (out : List (WeightedEdge W))
      (seen : ℕ → Bool)
      → Reads bitmap IsValid bits seen
      → Reads bitmap IsValid (visit_loop es s n (bits, out)).0 (see_all es s n seen)
        × ((visit_loop es s n (bits, out)).1 ≡ out ++ survivors es s n seen)
  unfolding visit_loop see_all survivors
  visit_loop-survivors es s zero bits out seen r = (r, sym (append-nil out))
  visit_loop-survivors es s (suc i) bits out seen r =
      let e = edge_at es i in
      let one = visit-Reads s i e bits out seen r in
      let rest = visit_loop-survivors es s i _ (visit s i e (bits, out)).1 (see s i e seen) one.0 in
      (rest.0, rest.1 ∙ rw one.1 (append_assoc out (kept e seen) _))

  -- Marking and then clearing leaves a clean bitmap clean.
  pub clear-marks :
      (es : List (WeightedEdge W)) (s n : ℕ) (bits : B)
      → Reads bitmap IsValid bits (see_all es s n (λ d. false))
      → IsClean bitmap IsValid (clear_loop es (n - s) s bits)
  clear-marks es s n bits r =
      let cleared = clear_loop-Reads es (n - s) s bits _ r in
      (cleared.0, λ d. cleared.1 d ∙ ground (arith, see_all-in_range es s n (λ d. false) d))
