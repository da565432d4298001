-- ===== src/Triangles/Laws.antt =====
-- The merge of src/GAPBS/tc.cc counts what two sorted lists have in common.
use radix_graph.Base.{
  ℕ, suc, ◌+◌, ◌≤◌, ◌<◌, ◌≡◌, refl, ◌∙◌, sym, true, false, ◌&&◌, bit, List, [], ◌∷◌, ltb, leb, ◌==◌,
  arith, Bool-cases, inl, inr, mem,
}
use radix_graph.Triangles.{skip_below, count_here, count_common}

abbrev pub AllFrom : ℕ → List ℕ → Type 0
AllFrom w [] = Unit
AllFrom w (x ∷ xs) = (w ≤ x) × AllFrom w xs

abbrev pub IsSorted : List ℕ → Type 0
IsSorted [] = Unit
IsSorted (x ∷ xs) = AllFrom x xs × IsSorted xs

-- How many w of the first list are at most v and in the second.
abbrev pub common : ℕ → List ℕ → List ℕ → ℕ
common v [] ys = 0
common v (w ∷ ws) ys = bit (leb w v && mem w ys) + common v ws ys

pub AllFrom-le : (a b : ℕ) (xs : List ℕ) → a ≤ b → AllFrom b xs → AllFrom a xs
AllFrom-le a b [] h all = tt
AllFrom-le a b (x ∷ xs) h all = (omega (arith, h, all.0), AllFrom-le a b xs h all.1)

mem-below : (w : ℕ) (xs : List ℕ) (b : ℕ) → AllFrom b xs → w < b → mem w xs ≡ false
mem-below w [] b all h = refl
mem-below w (x ∷ xs) b all h = ground (arith, all.0, h, mem-below w xs b all.1 h)

skip_below-mem : (w z : ℕ) (ys : List ℕ) → w ≤ z → mem z (skip_below w ys) ≡ mem z ys
unfolding skip_below
skip_below-mem w z [] h = refl
skip_below-mem w z (y ∷ ys) h = elim (Bool-cases (ltb y w)) [
  | inl below ↦
      let apart : (z == y) ≡ false = ground (arith, below, h) in
      rw (below, apart) (skip_below-mem w z ys h)
  | inr here ↦ rw here
]

AllFrom-skip_below : (b w : ℕ) (ys : List ℕ) → AllFrom b ys → AllFrom b (skip_below w ys)
unfolding skip_below
AllFrom-skip_below b w [] all = tt
AllFrom-skip_below b w (y ∷ ys) all = elim (Bool-cases (ltb y w)) [
  | inl below ↦ rw below (AllFrom-skip_below b w ys all.1)
  | inr here ↦ rw here all
]

skip_below-IsSorted : (w : ℕ) (ys : List ℕ) → IsSorted ys → IsSorted (skip_below w ys)
unfolding skip_below
skip_below-IsSorted w [] s = tt
skip_below-IsSorted w (y ∷ ys) s = elim (Bool-cases (ltb y w)) [
  | inl below ↦ rw below (skip_below-IsSorted w ys s.1)
  | inr here ↦ rw here s
]

count_here-mem :
    (w : ℕ) (ys : List ℕ) → IsSorted ys → count_here w (skip_below w ys) ≡ bit (mem w ys)
unfolding skip_below count_here
count_here-mem w [] s = refl
count_here-mem w (y ∷ ys) s = elim (Bool-cases (ltb y w)) [
  | inl below ↦
      let apart : (w == y) ≡ false = ground (arith, below) in
      rw (below, apart) (count_here-mem w ys s.1)
  | inr from ↦ elim (Bool-cases (w == y)) [
    | inl same ↦ rw (from, same)
    | inr apart ↦
        let missing : mem w ys ≡ false = mem-below w ys y s.0 (ground (arith, from, apart)) in
        rw (from, apart, missing)
  ]
]

-- What has been skipped is in no later pair.
common-skip_below :
    (v w : ℕ) (ws ys : List ℕ) → AllFrom w ws → common v ws (skip_below w ys) ≡ common v ws ys
common-skip_below v w [] ys all = refl
common-skip_below v w (z ∷ ws) ys all =
    rw (skip_below-mem w z ys all.0, common-skip_below v w ws ys all.1)

common-above : (v : ℕ) (ws ys : List ℕ) → AllFrom (suc v) ws → common v ws ys ≡ 0
common-above v [] ys all = refl
common-above v (w ∷ ws) ys all = ground (arith, all.0, common-above v ws ys all.1)

pub count_common-common :
    (v : ℕ) (ws ys : List ℕ) → IsSorted ws → IsSorted ys → count_common v ws ys ≡ common v ws ys
unfolding count_common
count_common-common v [] ys s t = refl
count_common-common v (w ∷ ws) ys s t = elim (Bool-cases (ltb v w)) [
  | inl above ↦
      let none_here : common v (w ∷ ws) ys ≡ 0 =
        common-above v (w ∷ ws) ys
          (ground (arith, above), AllFrom-le (suc v) w ws (ground (arith, above)) s.0) in
      rw above (sym none_here)
  | inr below ↦
      let rest =
        count_common-common v ws (skip_below w ys) s.1 (skip_below-IsSorted w ys t)
        ∙ common-skip_below v w ws ys s.0 in
      let here = count_here-mem w ys t in
      let le : leb w v ≡ true = ground (arith, below) in rw (below, here, rest, le) refl
]
