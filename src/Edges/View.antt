-- ===== src/Edges/View.antt =====
-- What a log of edges means, apart from the code: the newest entry of a destination counts, and an
-- entry of weight 0 is a deletion. `n` is how many entries of the array are looked at.
use radix_graph.Base.{
  ℕ, zero, suc, ◌+◌, ◌≤◌, ◌<◌, ◌≡◌, refl, Bool, true, false, not, ◌&&◌, Option, none, some, List,
  [], ◌∷◌, set, if◌then◌else◌, ◌==◌, bit, arith, Bool-cases, inl, inr, get_or-set_ne,
}
use radix_graph.Edges.{Weight, WeightedEdge, edge_at}

module _ {W : Type 0} where
  -- Whether the edge goes to d.
  abbrev pub goes_to : WeightedEdge W → ℕ → Bool
  goes_to e d = elim e.idx [ none ↦ false | some v ↦ v == d ]

  -- The weight of the first edge to d in a list, and how many there are.
  abbrev pub find : ℕ → List (WeightedEdge W) → Option W
  find d [] = none
  find d (e ∷ l) = if goes_to e d then some e.weight else find d l

  abbrev pub count : ℕ → List (WeightedEdge W) → ℕ
  count d [] = 0
  count d (e ∷ l) = bit (goes_to e d) + count d l

  abbrev pub is_written : WeightedEdge W → Bool
  is_written e = elim e.idx [ none ↦ false | some v ↦ true ]

module _ {W : Type 0} ⦃weight : Weight W⦄ where
  -- A written edge whose weight is not 0.
  abbrev pub is_live : WeightedEdge W → Bool
  is_live e = is_written e && not (weight.is_zero e.weight)

  abbrev pub AllLive : List (WeightedEdge W) → Type 0
  AllLive [] = Unit
  AllLive (e ∷ l) = (is_live e ≡ true) × AllLive l

  -- The weight of the newest entry for d.
  unfoldable pub last_log : List (WeightedEdge W) → ℕ → ℕ → Option W
  last_log es zero d = none
  last_log es (suc i) d =
      let e = edge_at es i in if goes_to e d then some e.weight else last_log es i d

  -- How many entries there are for d.
  unfoldable pub times : List (WeightedEdge W) → ℕ → ℕ → ℕ
  times es zero d = 0
  times es (suc i) d = bit (goes_to (edge_at es i) d) + times es i d

  abbrev pub drop_zero : Option W → Option W
  drop_zero none = none
  drop_zero (some w) = if weight.is_zero w then none else some w

  -- The weight of the edge to d, if there is one: the abstract state of the vertex.
  unfoldable pub current : List (WeightedEdge W) → ℕ → ℕ → Option W
  current es n d = drop_zero (last_log es n d)

  abbrev pub Agree : List (WeightedEdge W) → List (WeightedEdge W) → ℕ → Type 0
  Agree es fs n = (i : ℕ) → i < n → edge_at es i ≡ edge_at fs i

  pub Agree-set :
      (es : List (WeightedEdge W)) (n : ℕ) (e : WeightedEdge W) → Agree (set es n e) es n
  Agree-set es n e i h = get_or-set_ne es n i e _ (omega arith)

  pub last_log-Agree :
      (es fs : List (WeightedEdge W)) (n : ℕ)
      → Agree es fs n
      → (d : ℕ) → last_log es n d ≡ last_log fs n d
  unfolding last_log
  last_log-Agree es fs zero h d = refl
  last_log-Agree es fs (suc n) h d =
      rw (h n (omega arith), last_log-Agree es fs n (λ i lt. h i (omega arith)) d)

  pub times-Agree :
      (es fs : List (WeightedEdge W)) (n : ℕ)
      → Agree es fs n
      → (d : ℕ) → times es n d ≡ times fs n d
  unfolding times
  times-Agree es fs zero h d = refl
  times-Agree es fs (suc n) h d =
      rw (h n (omega arith), times-Agree es fs n (λ i lt. h i (omega arith)) d)

  pub last_log_of_no_times :
      (es : List (WeightedEdge W)) (n d : ℕ) → times es n d ≡ 0 → last_log es n d ≡ none
  unfolding last_log times
  last_log_of_no_times es zero d h = refl
  last_log_of_no_times es (suc i) d h = ground (arith, last_log_of_no_times es i d)

  pub times_mono : (es : List (WeightedEdge W)) (m n d : ℕ) → m ≤ n → times es m d ≤ times es n d
  unfolding times
  times_mono es m zero d h = let e : m ≡ 0 = omega arith in rw e (omega arith)
  times_mono es m (suc n) d h = elim (Bool-cases (m == suc n)) [
    | inl same ↦ let e : m ≡ suc n = ground arith in rw e (omega arith)
    | inr apart ↦ omega (arith, times_mono es m n d (ground arith))
  ]

  pub current-eq-last_log :
      (es : List (WeightedEdge W)) (n : ℕ)
      → ((i : ℕ) → i < n → is_live (edge_at es i) ≡ true)
      → (d : ℕ) → current es n d ≡ last_log es n d
  unfolding current last_log
  current-eq-last_log es zero h d = refl
  current-eq-last_log es (suc n) h d =
      ground (arith, h n (omega arith), current-eq-last_log es n (λ i lt. h i (omega arith)) d)

  -- A list that shows the map `f`: it has each edge of `f` once, and no other edge.
  pub record Shows (f : ℕ → Option W) (l : List (WeightedEdge W)) : Type 0 where
    pub found : (d : ℕ) → find d l ≡ f d
    pub once : (d : ℕ) → count d l ≤ 1
    pub live : AllLive l
