-- ===== src/Edges/Writers/Progress.antt =====
-- No place of an edge array is lost: the writers that have one can always end the wait of the
-- expansion.
use mathlib.Core.Option.{some-injective}
use radix_graph.Base.{
  ℕ, zero, suc, ◌+◌, ◌-◌, ◌≤◌, ◌<◌, ◌≡◌, ◌⊎◌, refl, ap, ◌∙◌, sym, subst, true, false, none, some,
  ◌==◌, arith, Bool-cases, inl, inr, ==→≡, ==→≢, ==_refl,
}
use radix_graph.Base.Counts.{count-le, count-missing}
use radix_graph.Edges.{Weight}
use radix_graph.Edges.Writers.{
  Place, idle, reserved, written, place_of, Writers, reserve, write, count_in, Step, reserves,
  writes, counts, Reach, start, later,
}
use radix_graph.Edges.Writers.Laws.{Reach-Inv}

-- Each place that is taken is counted, or a thread has it.
abbrev Owned : {W : Type 0} → Writers W → Type 0
Owned s = (i : ℕ) → i < s.size → (s.counted i ≡ true) ⊎ ((k : ℕ) × (place_of (s.thread k) ≡ some i))

module _ {W : Type 0} (cap : ℕ) where
  reserve-Owned : (s : Writers W) (k : ℕ) → s.thread k ≡ idle → Owned s → Owned (reserve s k)
  reserve-Owned s k e o i lt = elim (Bool-cases (s.size == i)) [
    | inl new ↦ inr (k, rw (==_refl k) (ap some (==→≡ _ _ new)))
    | inr old ↦ elim (o i (ground (arith, lt, old))) [
      | inl c ↦ inl c
      | inr (l, at_l) ↦ elim (Bool-cases (k == l)) [
        | inl same ↦
            absurd (none_ne_some (sym (ap place_of (ap s.thread (sym (==→≡ _ _ same)) ∙ e)) ∙ at_l))
        | inr other ↦ inr (l, rw other at_l)
      ]
    ]
  ]
    where
      none_ne_some : none ≡ some i → ⊥
      none_ne_some e = cc

  write-Owned :
      (s : Writers W) (k i : ℕ) (w : W) (des : ℕ)
      → s.thread k ≡ reserved i
      → Owned s
      → Owned (write s k i w des)
  write-Owned s k i w des e o j lt = elim (o j lt) [
    | inl c ↦ inl c
    | inr (l, at_l) ↦ elim (Bool-cases (k == l)) [
      | inl same ↦
          inr (l, rw same (sym (ap place_of (ap s.thread (sym (==→≡ _ _ same)) ∙ e)) ∙ at_l))
      | inr other ↦ inr (l, rw other at_l)
    ]
  ]

  count_in-Owned :
      (s : Writers W) (k i : ℕ) → s.thread k ≡ written i → Owned s → Owned (count_in s k i)
  count_in-Owned s k i e o j lt = elim (Bool-cases (i == j)) [
    | inl here ↦ inl (rw here)
    | inr elsewhere ↦ elim (o j lt) [
      | inl c ↦ inl (rw elsewhere c)
      | inr (l, at_l) ↦ elim (Bool-cases (k == l)) [
        | inl same ↦
            let at_i = sym (ap place_of (ap s.thread (sym (==→≡ _ _ same)) ∙ e)) ∙ at_l in
            absurd (==→≢ _ _ elsewhere (some-injective i j at_i))
        | inr other ↦ inr (l, rw other at_l)
      ]
    ]
  ]

  Step-Owned : {s t : Writers W} → Step cap s t → Owned s → Owned t
  Step-Owned {s} (reserves k e) o = reserve-Owned s k e o
  Step-Owned {s} (writes k i w des e below) o = write-Owned s k i w des e o
  Step-Owned {s} (counts k i e) o = count_in-Owned s k i e o

  -- A run from a state on.
  pub data Run (s : Writers W) : Writers W → Type 0 where
    stay : Run s s
    go_on : {t u : Writers W} → Run s t → Step cap t u → Run s u

  Run-trans : {s t u : Writers W} → Run s t → Run t u → Run s u
  Run-trans r stay = r
  Run-trans r (go_on more step) = go_on (Run-trans r more) step

module _ {W : Type 0} ⦃weight : Weight W⦄ (cap : ℕ) where
  Reach-Owned : {s : Writers W} → Reach cap s → Owned s
  Reach-Owned {s} (start q) = λ i lt. inl (ground (arith, q.counts i, lt))
  Reach-Owned (later r step) = Step-Owned cap step (Reach-Owned r)

  Reach-Run : {s t : Writers W} → Reach cap s → Run cap s t → Reach cap t
  Reach-Run r stay = r
  Reach-Run r (go_on more step) = later (Reach-Run r more) step

  -- A thread goes on until its place is counted.
  count_place :
      (s : Writers W) (k i : ℕ) (w : W) (des : ℕ) (p : Place)
      → s.thread k ≡ p
      → place_of p ≡ some i
      → i < cap
      → (t : Writers W) × Run cap s t × (t.physical_size ≡ s.physical_size + 1) × (t.size ≡ s.size)
  count_place s k i w des idle e at below = absurd (none_ne_some at)
    where
      none_ne_some : none ≡ some i → ⊥
      none_ne_some e = cc
  count_place s k i w des (reserved j) e at below =
      let lt : j < cap = subst (λ n. n < cap) (sym (some-injective j i at)) below in
      (
        count_in (write s k j w des) k j,
        go_on (go_on stay (writes k j w des e lt)) (counts k j (rw (==_refl k))),
        refl,
        refl,
      )
  count_place s k i w des (written j) e at below =
      (count_in s k j, go_on stay (counts k j e), refl, refl)

  wait_ends_in :
      (left : ℕ) (s : Writers W) (w : W) (des : ℕ)
      → Reach cap s
      → cap ≤ s.size
      → s.physical_size + left ≡ cap
      → (t : Writers W) × Run cap s t × (t.physical_size ≡ cap) × (t.size ≡ s.size)
  wait_ends_in zero s w des r full e = (s, stay, omega (arith, e), refl)
  wait_ends_in (suc left) s w des r full e =
      let v = Reach-Inv cap r in
      let (i, below, off) = count-missing s.counted cap (omega (arith, v.counted_all, e)) in
      elim (Reach-Owned r i (omega (arith, below, full))) [
        | inl c ↦ absurd (true_ne_false (sym c ∙ off))
        | inr (k, at) ↦
            let (t, run, more, same) = count_place s k i w des (s.thread k) refl at below in
            let (u, rest, done, kept) =
              wait_ends_in left t w des (Reach-Run r run) (omega (arith, same, full))
                (omega (arith, more, e)) in
            (u, Run-trans cap run rest, done, kept ∙ same)
      ]
    where
      true_ne_false : true ≡ false → ⊥
      true_ne_false e = cc

  -- From every state that any number of threads reach from a quiet array by steps of `Insert` in
  -- any order, if all places of the array are taken, further writes and counts, without a further
  -- reservation, lead to a state where `physical_size` is the capacity, so that the wait of the
  -- expansion can always end; the threads write whatever edge.
  pub wait_ends :
      {s : Writers W}
      → Reach cap s
      → cap ≤ s.size
      → (w : W) (des : ℕ)
      → (t : Writers W) × Run cap s t × (t.physical_size ≡ cap) × (t.size ≡ s.size)
  wait_ends {s} r full w des =
      let v = Reach-Inv cap r in
      wait_ends_in (cap - s.physical_size) s w des r full
        (let le = count-le s.counted cap in omega (arith, le, v.counted_all))
