-- ===== src/Sort/Transform/Levels.antt =====
-- The search of all nodes in `Transform` of src/sort.cpp: each vertex comes out with the bits of its
-- IDs that the tree looks at.
use mathlib.Core.Path.{ap₂}
use native.Mathlib.Nat.{mod-eq_of_lt, pow-le-pow_right}
use radix_graph.Base.{
  ℕ, zero, suc, ◌+◌, ◌*◌, ◌%◌, ◌^◌, ◌≤◌, ◌<◌, ◌≡◌, refl, ap, ◌∙◌, sym, subst, Option, none, some,
  ◌>>=◌, List, [], ◌∷◌, ◌++◌, length, if◌then◌else◌, ◌==◌, arith, Bool-cases, Option-cases, inl,
  inr, ==→≡, ==→≢, ==_refl, ==_ne,
}
use radix_graph.Sort.{fanout}
use radix_graph.Sort.Digits.{sum_take, sum_take_mono, path, path-lt}
use radix_graph.Sort.Trie.{Node, child, find}
use radix_graph.Sort.Transform.{expand_node, expand, collect}
use radix_graph.Sort.Transform.Prefixes.{prefix, child_number-lt, digit_unique}

-- The first of two, if there is one, or else the second.
abbrev pub or_else : Option ℕ → Option ℕ → Option ℕ
or_else none b = b
or_else (some a) b = some a

pub or_else_assoc : (a b c : Option ℕ) → or_else (or_else a b) c ≡ or_else a (or_else b c)
or_else_assoc none b c = refl
or_else_assoc (some a) b c = refl

pub or_else-none : (a : Option ℕ) → or_else a none ≡ a
or_else-none none = refl
or_else-none (some a) = refl

-- What a node of `frontiers` with the number `key` has at the end of a path.
abbrev pub seek : (f : ℕ → ℕ) (h i key : ℕ) → List (Node h × ℕ) → Option ℕ
seek f h i key [] = none
seek f h i key ((n, u) ∷ frontiers) =
    or_else (if u == key then find f h i n else none) (seek f h i key frontiers)

abbrev pub AllBelow : {A : Type 0} → ℕ → List (A × ℕ) → Type 0
AllBelow b [] = Unit
AllBelow b ((n, u) ∷ frontiers) = (u < b) × AllBelow b frontiers

seek-append :
    (f : ℕ → ℕ) (h i key : ℕ) (a b : List (Node h × ℕ))
    → seek f h i key (a ++ b) ≡ or_else (seek f h i key a) (seek f h i key b)
seek-append f h i key [] b = refl
seek-append f h i key ((n, u) ∷ a) b =
    ap (or_else (if u == key then find f h i n else none)) (seek-append f h i key a b)
    ∙ sym (or_else_assoc (if u == key then find f h i n else none) (seek f h i key a) _)

AllBelow-append :
    {A : Type 0} (b : ℕ) (l k : List (A × ℕ)) → AllBelow b l → AllBelow b k → AllBelow b (l ++ k)
AllBelow-append b [] k hl hk = hk
AllBelow-append b ((n, u) ∷ l) k hl hk = (hl.0, AllBelow-append b l k hl.1 hk)

-- The children of one node.
module _ (f : ℕ → ℕ) (h i size u : ℕ) (kids : Node (suc h))
    (fits : (j : ℕ) → j < size → (u * size + j) % 2 ^ 64 ≡ u * size + j) where
  abbrev scan : ℕ → ℕ → ℕ → Option ℕ
  scan key left j = seek f h i key (expand_node h size kids u left j)

  scan_step :
      (key left j : ℕ)
      → j < size
      → scan key (suc left) j
        ≡ or_else
            (if u * size + j == key then child h kids j >>= find f h i else none)
            (scan key left (j + 1))
  unfolding expand_node
  scan_step key left j lt = elim (Option-cases (child h kids j)) [
    | inl missing ↦ elim (Bool-cases (u * size + j == key)) [
      | inl here ↦ rw (missing, here, seek)
      | inr there ↦ rw (missing, there, seek)
    ]
    | inr (c, e) ↦ rw (e, seek, fits j lt)
  ]

  scan_miss :
      (key left j : ℕ)
      → left + j ≤ size
      → ((k : ℕ) → j ≤ k → k < size → u * size + k ≡ key → ⊥)
      → scan key left j ≡ none
  unfolding expand_node
  scan_miss key zero j room miss = refl
  scan_miss key (suc left) j room miss =
      scan_step key left j (omega (arith, room))
      ∙ (rw (==_ne (u * size + j) key (miss j (omega arith) (omega (arith, room))))
          (scan_miss key left (j + 1) (omega (arith, room)) (λ k le. miss k (omega (arith, le)))))

  scan_hit :
      (q left j : ℕ)
      → left + j ≡ size
      → j ≤ q
      → q < size
      → scan (u * size + q) left j ≡ (child h kids q >>= find f h i)
  scan_hit q zero j room le lt = absurd (omega (arith, room, le, lt))
  scan_hit q (suc left) j room le lt =
      let key = u * size + q in
      let step = scan_step key left j (omega (arith, room)) in
      elim (Bool-cases (j == q)) [
        | inl here ↦
            let e : j ≡ q = ==→≡ _ _ here in
            let none_after : scan key left (j + 1) ≡ none =
              scan_miss key left (j + 1) (omega (arith, room))
                (λ k after below same. omega (arith, after, e, same)) in
            step
            ∙ ap
                (λ k.
                  or_else (if u * size + k == key then child h kids k >>= find f h i else none)
                    (scan key left (j + 1)))
                e
            ∙ (rw (==_refl key, none_after) (or_else-none (child h kids q >>= find f h i)))
        | inr later ↦
            let apart : u * size + j ≡ key → ⊥ = λ e. ==→≢ _ _ later (omega (arith, e)) in
            step
            ∙ (rw (==_ne (u * size + j) key apart)
                (scan_hit q left (j + 1) (omega (arith, room)) (ground (arith, le, later)) lt))
      ]

  expand_node-AllBelow :
      (b left j : ℕ)
      → left + j ≤ size
      → ((k : ℕ) → k < size → u * size + k < b)
      → AllBelow b (expand_node h size kids u left j)
  unfolding expand_node
  expand_node-AllBelow b zero j room below = tt
  expand_node-AllBelow b (suc left) j room below =
      let rest = expand_node-AllBelow b left (j + 1) (omega (arith, room)) below in
      elim (Option-cases (child h kids j)) [
        | inl missing ↦ rw (missing, AllBelow) rest
        | inr (c, e) ↦
            let lt : j < size = omega (arith, room) in
            rw (e, AllBelow, fits j lt) (below j lt, rest)
      ]

-- The levels of a tree with the widths bs, on the path of an ID.
module _ (bs : List ℕ) (narrow : sum_take bs (length bs) ≤ 64) where
  fits_level :
      (u i : ℕ)
      → i < length bs
      → u < 2 ^ sum_take bs i
      → (j : ℕ) → j < fanout bs i
      → (u * fanout bs i + j) % 2 ^ 64 ≡ u * fanout bs i + j
  fits_level u i lt hu j hj =
      let short : sum_take bs (suc i) ≤ 64 =
        omega (arith, sum_take_mono bs (suc i) (length bs) (omega (arith, lt)), narrow) in
      let wide : 2 ^ sum_take bs (suc i) ≤ 2 ^ 64 = pow-le-pow_right {n = 2} (omega arith) short in
      let number = child_number-lt bs u j i lt hu hj in mod-eq_of_lt (omega (arith, number, wide))

  -- One node: only the child on the path of the ID is found again.
  expand_node-seek :
      (id h i u : ℕ) (kids : Node (suc h))
      → i < length bs
      → u < 2 ^ sum_take bs i
      → seek
          (path bs id)
          h
          (i + 1)
          (prefix bs id (suc i))
          (expand_node h (fanout bs i) kids u (fanout bs i) 0)
        ≡ (if u == prefix bs id i then find (path bs id) (suc h) i kids else none)
  unfolding find
  expand_node-seek id h i u kids lt hu =
      let f = path bs id in
      let size = fanout bs i in
      let fits = fits_level u i lt hu in
      let q = path-lt bs id i lt in
      elim (Bool-cases (u == prefix bs id i)) [
        | inl here ↦
            let e : u ≡ prefix bs id i = ==→≡ _ _ here in
            rw (here, ← e)
              (scan_hit f h (i + 1) size u kids fits (f i) size 0 (omega arith) (omega arith) q)
        | inr apart ↦ rw apart (
            scan_miss f h (i + 1) size u kids fits (prefix bs id (suc i)) size 0 (omega arith)
              (λ k le below same.
                ==→≢ _ _ apart (digit_unique size u k (prefix bs id i) (f i) below q same).0))
      ]

  expand-seek :
      (id h i : ℕ) (frontiers : List (Node (suc h) × ℕ))
      → i < length bs
      → AllBelow (2 ^ sum_take bs i) frontiers
      → seek (path bs id) h (i + 1) (prefix bs id (suc i)) (expand h (fanout bs i) frontiers)
        ≡ seek (path bs id) (suc h) i (prefix bs id i) frontiers
  unfolding expand
  expand-seek id h i [] lt below = refl
  expand-seek id h i ((kids, u) ∷ frontiers) lt below =
      seek-append (path bs id) h (i + 1) (prefix bs id (suc i))
        (expand_node h (fanout bs i) kids u (fanout bs i) 0) (expand h (fanout bs i) frontiers)
      ∙ ap₂ or_else (expand_node-seek id h i u kids lt below.0)
          (expand-seek id h i frontiers lt below.1)

  expand-AllBelow :
      (h i : ℕ) (frontiers : List (Node (suc h) × ℕ))
      → i < length bs
      → AllBelow (2 ^ sum_take bs i) frontiers
      → AllBelow (2 ^ sum_take bs (suc i)) (expand h (fanout bs i) frontiers)
  unfolding expand
  expand-AllBelow h i [] lt below = tt
  expand-AllBelow h i ((kids, u) ∷ frontiers) lt below =
      AllBelow-append _ (expand_node h (fanout bs i) kids u (fanout bs i) 0) _
        (expand_node-AllBelow (λ k. k) h (i + 1) (fanout bs i) u kids (fits_level u i lt below.0)
          (2 ^ sum_take bs (suc i)) (fanout bs i) 0 (omega arith)
          (λ k hk. child_number-lt bs u k i lt below.0 hk))
        (expand-AllBelow h i frontiers lt below.1)

  -- All levels: the vertex of an ID comes out with the bits of the ID, and nothing else does.
  pub collect-seek :
      (id h i : ℕ) (frontiers : List (Node h × ℕ))
      → h + i ≡ length bs
      → AllBelow (2 ^ sum_take bs i) frontiers
      → (seek
            (path bs id)
            0
            (length bs)
            (prefix bs id (length bs))
            (collect (fanout bs) h i frontiers)
          ≡ seek (path bs id) h i (prefix bs id i) frontiers)
        × AllBelow (2 ^ sum_take bs (length bs)) (collect (fanout bs) h i frontiers)
  unfolding collect
  collect-seek id zero i frontiers e below =
      let there : i ≡ length bs = omega (arith, e) in
      subst
        (λ n.
          (seek (path bs id) 0 n (prefix bs id n) frontiers
            ≡ seek (path bs id) 0 i (prefix bs id i) frontiers)
          × AllBelow (2 ^ sum_take bs n) frontiers)
        there (refl, below)
  collect-seek id (suc h) i frontiers e below =
      let lt : i < length bs = omega (arith, e) in
      let next : i + 1 ≡ suc i = omega arith in
      let rest =
        collect-seek id h (i + 1) (expand h (fanout bs i) frontiers) (omega (arith, e))
          (rw next (expand-AllBelow h i frontiers lt below)) in
      (
        rest.0
            ∙ ap
                (λ k.
                  seek (path bs id) h (i + 1) (prefix bs id k) (expand h (fanout bs i) frontiers))
                next
            ∙ expand-seek id h i frontiers lt below,
        rest.1,
      )
