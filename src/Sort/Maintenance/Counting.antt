-- ===== src/Sort/Maintenance/Counting.antt =====
-- `Size` of src/sort.cpp against the number of pointers of a tree, counted by recursion.
use radix_graph.Base.{
  ℕ, zero, suc, ◌+◌, ◌≤◌, ◌≡◌, refl, ap, ◌∙◌, Option, none, some, List, [], ◌∷◌, ◌++◌, length, drop,
  drop-get_or, drop-length, arith, Option-cases, inl, inr,
}
use radix_graph.Edges.{Weight}
use radix_graph.Sort.{Sort, fanout, root_of}
use radix_graph.Sort.Laws.{IsTree}
use radix_graph.Sort.Trie.{Node, child}
use radix_graph.Sort.Trie.Laws.{Shaped}
use radix_graph.Sort.Maintenance.{Visit, enqueue, visit, size_loop, size}

-- The sum over what is not null.
abbrev pub total : {A : Type 0} → (A → ℕ) → List (Option A) → ℕ
total f [] = 0
total f (none ∷ kids) = total f kids
total f (some c ∷ kids) = f c + total f kids

-- The nodes of a tree at level d.
abbrev pub nodes : (h d : ℕ) → Node h → ℕ
nodes zero d n = 1
nodes (suc zero) d n = 1
nodes (suc (suc h)) d n = 1 + total (nodes (suc h) (d + 1)) n

-- The sum over the entries of the queue.
abbrev weigh : ((h d : ℕ) → Node h → ℕ) → List Visit → ℕ
weigh f [] = 0
weigh f (u ∷ queue) = f u.height u.level u.node + weigh f queue

weigh-append :
    (f : (h d : ℕ) → Node h → ℕ) (a b : List Visit) → weigh f (a ++ b) ≡ weigh f a + weigh f b
weigh-append f [] b = omega arith
weigh-append f (u ∷ a) b = omega (arith, weigh-append f a b)

weigh-enqueue :
    (f : (h d : ℕ) → Node h → ℕ) (h d : ℕ) (kids : Node (suc h)) (left i : ℕ)
    → left + i ≡ length kids
    → weigh f (enqueue h d kids left i) ≡ total (f h (d + 1)) (drop i kids)
unfolding enqueue
weigh-enqueue f h d kids zero i e =
    let there : i ≡ length kids = omega (arith, e) in rw (there, drop-length kids) refl
weigh-enqueue f h d kids (suc left) i e =
    let next : i + 1 ≡ suc i = omega arith in
    let rest : weigh f (enqueue h d kids left (i + 1)) ≡ total (f h (d + 1)) (drop (suc i) kids) =
      weigh-enqueue f h d kids left (i + 1) (omega (arith, e))
      ∙ ap (λ k. total (f h (d + 1)) (drop k kids)) next in
    let head = drop-get_or i kids none (omega (arith, e)) in
    elim (Option-cases (child h kids i)) [
      | inl missing ↦ rw (head, missing, weigh) rest
      | inr (c, there) ↦ rw (head, there, weigh) (ap (λ (n : ℕ). f h (d + 1) c + n) rest)
    ]

module _ (size_at : ℕ → ℕ) where
  -- The pointers of a tree at level d, null or not.
  abbrev pub slots : (h d : ℕ) → Node h → ℕ
  slots zero d n = 0
  slots (suc zero) d n = size_at d
  slots (suc (suc h)) d n = size_at d + total (slots (suc h) (d + 1)) n

  abbrev AllShaped : List Visit → Type 0
  AllShaped [] = Unit
  AllShaped (u ∷ queue) = Shaped size_at u.height u.level u.node × AllShaped queue

  AllShaped-append : (a b : List Visit) → AllShaped a → AllShaped b → AllShaped (a ++ b)
  AllShaped-append [] b ha hb = hb
  AllShaped-append (u ∷ a) b ha hb = (ha.0, AllShaped-append a b ha.1 hb)

  enqueue-AllShaped :
      (h d : ℕ) (kids : Node (suc h)) (left i : ℕ)
      → Shaped size_at (suc h) d kids
      → AllShaped (enqueue h d kids left i)
  unfolding enqueue
  enqueue-AllShaped h d kids zero i s = tt
  enqueue-AllShaped h d kids (suc left) i s = elim (Option-cases (child h kids i)) [
    | inl missing ↦ rw (missing, AllShaped) (enqueue-AllShaped h d kids left (i + 1) s)
    | inr (c, there) ↦
        rw (there, AllShaped) (s.1 i c there, enqueue-AllShaped h d kids left (i + 1) s)
  ]

  -- One round: what it adds to the queue and to the sum.
  visit-weigh :
      (h d : ℕ) (n : Node h)
      → Shaped size_at h d n
      → AllShaped (visit size_at h d n).0
        × (1 + weigh nodes (visit size_at h d n).0 ≡ nodes h d n)
        × ((visit size_at h d n).1 + weigh slots (visit size_at h d n).0 ≡ slots h d n)
  unfolding visit
  visit-weigh zero d n s = (tt, omega arith, omega arith)
  visit-weigh (suc zero) d n s = (tt, omega arith, omega arith)
  visit-weigh (suc (suc h)) d n s =
      let all : size_at d + 0 ≡ length n = omega (arith, s.0) in
      (
        enqueue-AllShaped (suc h) d n (size_at d) 0 s,
        ap (λ (k : ℕ). 1 + k) (weigh-enqueue nodes (suc h) d n (size_at d) 0 all),
        ap (λ (k : ℕ). size_at d + k) (weigh-enqueue slots (suc h) d n (size_at d) 0 all),
      )

  size_loop-slots :
      (fuel : ℕ) (queue : List Visit) (sz : ℕ)
      → AllShaped queue
      → weigh nodes queue ≤ fuel
      → size_loop size_at fuel queue sz ≡ some (sz + weigh slots queue)
  unfolding size_loop
  size_loop-slots zero [] sz s h = ap some (omega arith)
  size_loop-slots (suc fuel) [] sz s h = ap some (omega arith)
  size_loop-slots zero (u ∷ queue) sz s h =
      let v = visit-weigh u.height u.level u.node s.0 in absurd (omega (arith, v.1))
  size_loop-slots (suc fuel) (u ∷ queue) sz s h =
      let v = visit-weigh u.height u.level u.node s.0 in
      let r = visit size_at u.height u.level u.node in
      size_loop-slots fuel (queue ++ r.0) (sz + r.1) (AllShaped-append queue r.0 s.1 v.0)
        (omega (arith, v.1, weigh-append nodes queue r.0))
      ∙ ap some (omega (arith, v.2, weigh-append slots queue r.0))

module _ {W : Type 0} ⦃weight : Weight W⦄ where
  -- `Size` of a tree with a root, whose nodes fit its configuration, ends after as many rounds of
  -- its loop as the tree has nodes above the vertices, and returns the sum of the fanouts of these
  -- nodes, counted by recursion on the tree.
  pub size-slots :
      (fuel : ℕ) (t : Sort W) (r : Node t.depth)
      → IsTree t
      → t.root ≡ some r
      → nodes t.depth 0 r ≤ fuel
      → size fuel t ≡ some (slots (fanout t.num_bits) t.depth 0 r)
  unfolding size root_of
  size-slots fuel t r v e h =
      let s : Shaped (fanout t.num_bits) t.depth 0 r = rw e at v.shape in
      rw e (
        size_loop-slots (fanout t.num_bits) fuel
          (record { level = 0; height = t.depth; node = r } ∷ []) 0 (s, tt) (omega (arith, h))
        ∙ ap some (omega arith))
