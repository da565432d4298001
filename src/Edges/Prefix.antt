-- ===== src/Edges/Prefix.antt =====
-- The first n edges of an array as a list, which is what `GetNeighbours` of src/radixgraph.cpp copies
-- from a snapshot.
use radix_graph.Base.{
  ℕ, zero, suc, ◌+◌, ◌≤◌, ◌<◌, ◌≡◌, refl, ap, ◌∙◌, true, none, some, List, [], ◌∷◌, ◌++◌, length,
  set, if◌then◌else◌, ◌==◌, bit, arith, Bool-cases, inl, inr, get_or-set_self,
}
use radix_graph.Edges.{Weight, WeightedEdge, edge_at}
use radix_graph.Edges.Neighbours.{first_edges}
use radix_graph.Edges.View.{
  goes_to, find, count, is_live, AllLive, last_log, times, Agree, Agree-set, last_log_of_no_times,
}

module _ {W : Type 0} where
  count-snoc :
      (d : ℕ) (l : List (WeightedEdge W)) (e : WeightedEdge W)
      → count d (l ++ e ∷ []) ≡ count d l + bit (goes_to e d)
  count-snoc d [] e = omega arith
  count-snoc d (x ∷ l) e = omega (arith, count-snoc d l e)

  find-snoc :
      (d : ℕ) (l : List (WeightedEdge W)) (e : WeightedEdge W)
      → find d (l ++ e ∷ [])
        ≡ elim (find d l) [ some w ↦ some w | none ↦ if goes_to e d then some e.weight else none ]
  find-snoc d [] e = refl
  find-snoc d (x ∷ l) e = ground (arith, find-snoc d l e)

module _ {W : Type 0} ⦃weight : Weight W⦄ where
  AllLive-snoc :
      (l : List (WeightedEdge W)) (e : WeightedEdge W)
      → AllLive (l ++ e ∷ [])
      → AllLive l × (is_live e ≡ true)
  AllLive-snoc [] e h = (tt, h.0)
  AllLive-snoc (x ∷ l) e h = let ih = AllLive-snoc l e h.1 in ((h.0, ih.0), ih.1)

  snoc-AllLive :
      (l : List (WeightedEdge W)) (e : WeightedEdge W)
      → AllLive l
      → is_live e ≡ true
      → AllLive (l ++ e ∷ [])
  snoc-AllLive [] e h k = (k, tt)
  snoc-AllLive (x ∷ l) e h k = (h.0, snoc-AllLive l e h.1 k)

  abbrev pub prefix : List (WeightedEdge W) → ℕ → List (WeightedEdge W)
  prefix es n = first_edges es n 0

  first_edges-snoc :
      (es : List (WeightedEdge W)) (k i : ℕ)
      → first_edges es (suc k) i ≡ first_edges es k i ++ edge_at es (i + k) ∷ []
  unfolding first_edges
  first_edges-snoc es zero i = let e : i + 0 ≡ i = omega arith in rw e
  first_edges-snoc es (suc k) i =
      let e : i + suc k ≡ i + 1 + k = omega arith in
      rw e (ap (λ l. edge_at es i ∷ l) (first_edges-snoc es k (i + 1)))

  pub prefix-snoc :
      (es : List (WeightedEdge W)) (k : ℕ) → prefix es (suc k) ≡ prefix es k ++ edge_at es k ∷ []
  prefix-snoc es k = let e : 0 + k ≡ k = omega arith in rw e at (first_edges-snoc es k 0)

  pub length-prefix : (es : List (WeightedEdge W)) (n i : ℕ) → length (first_edges es n i) ≡ n
  unfolding first_edges
  length-prefix es zero i = refl
  length-prefix es (suc n) i = ap suc (length-prefix es n (i + 1))

  pub prefix-Agree :
      (es fs : List (WeightedEdge W)) (n : ℕ) → Agree es fs n → prefix es n ≡ prefix fs n
  prefix-Agree es fs zero h = unfold first_edges in refl
  prefix-Agree es fs (suc n) h =
      rw (prefix-snoc es n, prefix-snoc fs n, h n (omega arith))
        (ap (λ l. l ++ edge_at fs n ∷ []) (prefix-Agree es fs n (λ i lt. h i (omega arith))))

  -- Writing at the end of the prefix appends.
  pub prefix-set :
      (es : List (WeightedEdge W)) (n : ℕ) (e : WeightedEdge W)
      → n < length es
      → prefix (set es n e) (suc n) ≡ prefix es n ++ e ∷ []
  prefix-set es n e h =
      rw (prefix-snoc (set es n e) n, get_or-set_self es n e _ h)
        (ap (λ l. l ++ e ∷ []) (prefix-Agree (set es n e) es n (Agree-set es n e)))

  pub count-prefix : (es : List (WeightedEdge W)) (n d : ℕ) → count d (prefix es n) ≡ times es n d
  unfolding times
  count-prefix es zero d = unfold first_edges in refl
  count-prefix es (suc n) d = rw (prefix-snoc es n, count-snoc) (omega (arith, count-prefix es n d))

  -- With one entry at most for d, the first one is the last.
  pub find-prefix :
      (es : List (WeightedEdge W)) (n d : ℕ)
      → times es n d ≤ 1
      → find d (prefix es n) ≡ last_log es n d
  unfolding times last_log
  find-prefix es zero d h = unfold first_edges in refl
  find-prefix es (suc n) d h =
      rw (prefix-snoc es n, find-snoc)
        (ground (arith, find-prefix es n d, last_log_of_no_times es n d))

  pub live_below :
      (es : List (WeightedEdge W)) (n : ℕ)
      → AllLive (prefix es n)
      → (i : ℕ) → i < n
      → is_live (edge_at es i) ≡ true
  live_below es zero h i lt = absurd (omega arith)
  live_below es (suc n) h i lt =
      let (before, last) = AllLive-snoc (prefix es n) _ (rw (prefix-snoc es n) at h) in
      elim (Bool-cases (i == n)) [
        | inl same ↦ let e : i ≡ n = ground arith in rw e last
        | inr apart ↦ live_below es n before i (ground arith)
      ]

  pub prefix-AllLive :
      (es : List (WeightedEdge W)) (n : ℕ)
      → ((i : ℕ) → i < n → is_live (edge_at es i) ≡ true)
      → AllLive (prefix es n)
  prefix-AllLive es zero h = unfold first_edges in tt
  prefix-AllLive es (suc n) h = rw (prefix-snoc es n) (
      snoc-AllLive (prefix es n) _ (prefix-AllLive es n (λ i lt. h i (omega arith)))
        (h n (omega arith)))

  first_edges-cons :
      (x : WeightedEdge W) (es : List (WeightedEdge W)) (n i : ℕ)
      → first_edges (x ∷ es) n (i + 1) ≡ first_edges es n i
  unfolding first_edges
  first_edges-cons x es zero i = refl
  first_edges-cons x es (suc n) i =
      let e : i + 1 ≡ suc i = omega arith in
      rw e (ap (λ l. edge_at es i ∷ l) (rw e at (first_edges-cons x es n (i + 1))))

  -- The prefix of an array that starts with a list is that list.
  pub prefix-append : (l rest : List (WeightedEdge W)) → prefix (l ++ rest) (length l) ≡ l
  unfolding first_edges
  prefix-append [] rest = refl
  prefix-append (x ∷ l) rest =
      ap (λ k. x ∷ k) (first_edges-cons x (l ++ rest) (length l) 0 ∙ prefix-append l rest)
