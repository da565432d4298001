-- ===== src/Reader/Laws.antt =====
-- Lists of neighbours as lists of internal IDs.
use radix_graph.Base.{
  ℕ, ◌≤◌, ◌≡◌, refl, ap, ◌∙◌, Bool, true, false, bit, Option, none, some, List, [], ◌∷◌, ◌==◌,
  arith, mem, Bool-cases, Option-cases, inl, inr,
}
use radix_graph.Edges.{Weight, WeightedEdge}
use radix_graph.Edges.View.{goes_to, find, count, AllLive, Shows}
use radix_graph.Reader.{times, ids}

abbrev pub has_edge : {W : Type 0} → Option W → Bool
has_edge none = false
has_edge (some w) = true

module _ {W : Type 0} where
  count-find :
      (v : ℕ) (l : List (WeightedEdge W)) → count v l ≤ 1 → count v l ≡ bit (has_edge (find v l))
  count-find v [] h = refl
  count-find v (e ∷ l) h = elim (Bool-cases (goes_to e v)) [
    | inl here ↦ ground (arith, here, h)
    | inr other ↦ ground (arith, other, h, count-find v l)
  ]

module _ {W : Type 0} ⦃weight : Weight W⦄ where
  pub times-ids : (v : ℕ) (l : List (WeightedEdge W)) → AllLive l → times v (ids l) ≡ count v l
  times-ids v [] live = refl
  times-ids v (e ∷ l) live = elim (Option-cases e.idx) [
    | inl missing ↦ absurd (ground (arith, missing, live.0))
    | inr (i, there) ↦ rw (there, times-ids v l live.1)
  ]

  -- A list that shows a map has each neighbour once.
  pub times-Shows :
      (f : ℕ → Option W) (l : List (WeightedEdge W))
      → Shows f l
      → (v : ℕ) → times v (ids l) ≡ bit (has_edge (f v))
  times-Shows f l s v =
      times-ids v l s.live ∙ count-find v l (s.once v) ∙ ap (λ o. bit (has_edge o)) (s.found v)

pub mem-times : (v : ℕ) (l : List ℕ) (b : Bool) → times v l ≡ bit b → mem v l ≡ b
mem-times v [] b e = ground (arith, e)
mem-times v (x ∷ l) b e = elim (Bool-cases (v == x)) [
  | inl here ↦ ground (arith, here, e)
  | inr other ↦
      let off : (x == v) ≡ false = ground (arith, other) in
      let rest : times v l ≡ bit b = ground (arith, off, e) in rw other (mem-times v l b rest)
]
