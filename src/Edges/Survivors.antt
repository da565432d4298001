-- ===== src/Edges/Survivors.antt =====
-- The edges that a scan from the newest entry to the oldest keeps, apart from the code: those whose
-- destination is not in `seen`, with the destinations of the logs added to it on the way. Both loops
-- of src/radixgraph.cpp that merge logs compute this list.
use radix_graph.Base.{
  ℕ, zero, suc, ◌+◌, ◌≤◌, ◌<◌, ◌≡◌, refl, ap, fun_ext, Bool, true, false, ◌||◌, Option, none, some,
  List, [], ◌∷◌, ◌++◌, length, if◌then◌else◌, ◌==◌, leb, arith, Bool-cases, inl, inr,
}
use radix_graph.Edges.{Weight, WeightedEdge, edge_at}
use radix_graph.Edges.View.{
  goes_to, find, count, last_log, times, current, last_log_of_no_times, times_mono, is_live,
  AllLive, Agree, Shows,
}

abbrev pub present : {W : Type 0} → Option W → ℕ
present none = 0
present (some w) = 1

abbrev pub mark : (ℕ → Bool) → ℕ → ℕ → Bool
mark seen v d = (v == d) || seen d

-- What has been seen after index i.
abbrev pub see : {W : Type 0} → ℕ → ℕ → WeightedEdge W → (ℕ → Bool) → ℕ → Bool
see snapshot_deg i e seen d = if leb snapshot_deg i then goes_to e d || seen d else seen d

module _ {W : Type 0} ⦃weight : Weight W⦄ where
  -- What the entry adds to the list.
  abbrev pub kept : WeightedEdge W → (ℕ → Bool) → List (WeightedEdge W)
  kept e seen = elim e.idx [
    | none ↦ []
    | some v ↦ if seen v then [] else if weight.is_zero e.weight then [] else e ∷ []
  ]

  unfoldable pub survivors : List (WeightedEdge W) → ℕ → ℕ → (ℕ → Bool) → List (WeightedEdge W)
  survivors es s zero seen = []
  survivors es s (suc i) seen =
      kept (edge_at es i) seen ++ survivors es s i (see s i (edge_at es i) seen)

  -- What the snapshot, the first s entries, must be: at most one entry for each destination.
  module _ (es : List (WeightedEdge W)) (s : ℕ) (snapshot_once : (d : ℕ) → times es s d ≤ 1) where
    pub count-survivors :
        (n : ℕ) (seen : ℕ → Bool) (d : ℕ)
        → (count d (survivors es s n seen) ≤ 1)
          × (seen d ≡ true → count d (survivors es s n seen) ≡ 0)
          × (times es n d ≡ 0 → count d (survivors es s n seen) ≡ 0)
    unfolding survivors times
    count-survivors zero seen d = (omega arith, λ h. refl, λ h. refl)
    count-survivors (suc i) seen d =
        let ih = count-survivors i (see s i (edge_at es i) seen) d in
        ground (arith, ih, times_mono es (suc i) s d, snapshot_once d)

    pub find-survivors :
        (n : ℕ) (seen : ℕ → Bool) (d : ℕ)
        → find d (survivors es s n seen) ≡ (if seen d then none else current es n d)
    unfolding survivors times current last_log
    find-survivors zero seen d = ground arith
    find-survivors (suc i) seen d = ground (
      arith,
      find-survivors i (see s i (edge_at es i) seen) d,
      times_mono es (suc i) s d,
      snapshot_once d,
      last_log_of_no_times es i d,
    )

  pub survivors-AllLive :
      (es : List (WeightedEdge W)) (s n : ℕ) (seen : ℕ → Bool) → AllLive (survivors es s n seen)
  unfolding survivors
  survivors-AllLive es s zero seen = tt
  survivors-AllLive es s (suc i) seen =
      ground (arith, survivors-AllLive es s i (see s i (edge_at es i) seen))

  pub length-survivors-le :
      (es : List (WeightedEdge W)) (s n : ℕ) (seen : ℕ → Bool) → length (survivors es s n seen) ≤ n
  unfolding survivors
  length-survivors-le es s zero seen = omega arith
  length-survivors-le es s (suc i) seen =
      ground (arith, length-survivors-le es s i (see s i (edge_at es i) seen))

  -- With nothing seen at the start, the list shows the map.
  pub survivors-Shows :
      (es : List (WeightedEdge W)) (s : ℕ)
      → ((d : ℕ) → times es s d ≤ 1)
      → (n : ℕ) → Shows (current es n) (survivors es s n (λ d. false))
  survivors-Shows es s h n = record {
    found = find-survivors es s h n (λ d. false);
    once = λ d. (count-survivors es s h n (λ d. false) d).0;
    live = survivors-AllLive es s n (λ d. false);
  }

  -- A scan that keeps every entry has met each destination once.
  pub full-survivors :
      (es : List (WeightedEdge W)) (s : ℕ)
      → ((d : ℕ) → times es s d ≤ 1)
      → (n : ℕ) (seen : ℕ → Bool) → length (survivors es s n seen) ≡ n
      → (d : ℕ) → (times es n d ≤ 1) × (seen d ≡ true → times es n d ≡ 0)
  unfolding survivors times
  full-survivors es s h zero seen full d = (omega arith, λ p. refl)
  full-survivors es s h (suc i) seen full d =
      let seen' = see s i (edge_at es i) seen in
      ground (
        arith,
        length-survivors-le es s i seen',
        full-survivors es s h i seen' (ground (arith, length-survivors-le es s i seen')) d,
        times_mono es (suc i) s d,
        h d,
      )

  -- Nor has it met an edge of weight 0.
  pub full-survivors_live :
      (es : List (WeightedEdge W)) (s n : ℕ) (seen : ℕ → Bool)
      → length (survivors es s n seen) ≡ n
      → (i : ℕ) → i < n
      → is_live (edge_at es i) ≡ true
  unfolding survivors
  full-survivors_live es s zero seen full i lt = absurd (omega arith)
  full-survivors_live es s (suc n) seen full i lt =
      let seen' = see s n (edge_at es n) seen in
      let short = length-survivors-le es s n seen' in
      elim (Bool-cases (i == n)) [
        | inl same ↦ let e : i ≡ n = ground arith in rw e (ground (arith, short))
        | inr apart ↦ full-survivors_live es s n seen' (ground (arith, short)) i (ground arith)
      ]

  see-mark :
      (s i : ℕ) (e : WeightedEdge W) (seen : ℕ → Bool) (v : ℕ)
      → see s i e (mark seen v) ≡ mark (see s i e seen) v
  see-mark s i e seen v = fun_ext λ d. ground arith

  see_of_goes_to :
      (s i : ℕ) (e : WeightedEdge W) (seen : ℕ → Bool) (v : ℕ)
      → goes_to e v ≡ true
      → leb s i ≡ true
      → see s i e (mark seen v) ≡ see s i e seen
  see_of_goes_to s i e seen v h log = fun_ext λ d. ground arith

  see_below :
      (s i : ℕ) (e : WeightedEdge W) (seen : ℕ → Bool) → leb s i ≡ false → see s i e seen ≡ seen
  see_below s i e seen h = fun_ext λ d. rw h

  -- Marking v takes the edge to v, and nothing else, out of the scan.
  pub length-survivors-mark :
      (es : List (WeightedEdge W)) (s : ℕ)
      → ((d : ℕ) → times es s d ≤ 1)
      → (n : ℕ) (seen : ℕ → Bool) (v : ℕ) → seen v ≡ false
      → length (survivors es s n seen)
        ≡ length (survivors es s n (mark seen v)) + present (current es n v)
  unfolding survivors current last_log times
  length-survivors-mark es s h zero seen v new = omega arith
  length-survivors-mark es s h (suc i) seen v new =
      let e = edge_at es i in
      let kept_count = λ (t : ℕ → Bool). length (survivors es s i t) in
      elim (Bool-cases (goes_to e v)) [
        | inl here ↦ elim (Bool-cases (leb s i)) [
          | inl log ↦
              let same = ap kept_count (see_of_goes_to s i e seen v here log) in
              ground (arith, same)
          | inr below ↦
              let a = ap kept_count (see_below s i e seen below) in
              let b = ap kept_count (see_below s i e (mark seen v) below) in
              ground (
                arith,
                a,
                b,
                length-survivors-mark es s h i seen v new,
                times_mono es (suc i) s v,
                h v,
                last_log_of_no_times es i v,
              )
        ]
        | inr elsewhere ↦
            let a = ap kept_count (see-mark s i e seen v) in
            ground (arith, a, length-survivors-mark es s h i (see s i e seen) v)
      ]

  -- Below the snapshot nothing is marked, so a snapshot is kept whole.
  pub length-survivors_snapshot :
      (es : List (WeightedEdge W)) (s n : ℕ)
      → n ≤ s
      → ((i : ℕ) → i < n → is_live (edge_at es i) ≡ true)
      → length (survivors es s n (λ d. false)) ≡ n
  unfolding survivors
  length-survivors_snapshot es s zero le h = refl
  length-survivors_snapshot es s (suc n) le h =
      let below = see_below s n (edge_at es n) (λ d. false) (ground arith) in
      let same = ap (λ t. length (survivors es s n t)) below in
      ground (
        arith,
        same,
        h n (omega arith),
        length-survivors_snapshot es s n (omega arith) (λ i lt. h i (omega arith)),
      )

  -- The scan looks at no entry past n.
  pub survivors-Agree :
      (es fs : List (WeightedEdge W)) (s n : ℕ)
      → Agree es fs n
      → (seen : ℕ → Bool) → survivors es s n seen ≡ survivors fs s n seen
  unfolding survivors
  survivors-Agree es fs s zero h seen = refl
  survivors-Agree es fs s (suc n) h seen = rw (h n (omega arith)) (
      ap (λ l. kept (edge_at fs n) seen ++ l)
        (survivors-Agree es fs s n (λ i lt. h i (omega arith)) _))
