-- ===== src/Bfs/Parents.antt =====
-- The parents that the search of src/GAPBS/bfs.cc has found, as a tree from the source.
use mathlib.Core.Option.{some-injective}
use radix_graph.Base.{
  ℕ, zero, suc, ◌<◌, ◌≡◌, ◌⊎◌, refl, ap, ◌∙◌, sym, subst, Bool, true, false, ◌||◌, Option, none,
  some, List, [], ◌∷◌, length, get_or, set, replicate, ◌==◌, arith, Bool-cases, inl, inr, ==→≡,
  ==→≢, ==_refl, length-set, get_or-set_self, get_or-set_ne, get_or-replicate, length-replicate,
}
use radix_graph.Bfs.{is_visited, visited}

abbrev pub unvisited : List (Option ℕ) → ℕ
unvisited [] = 0
unvisited (none ∷ parent) = suc (unvisited parent)
unvisited (some p ∷ parent) = unvisited parent

pub unvisited-replicate : (n : ℕ) → unvisited (replicate n none) ≡ n
unvisited-replicate zero = refl
unvisited-replicate (suc n) = ap suc (unvisited-replicate n)

pub unvisited-set :
    (parent : List (Option ℕ)) (v p : ℕ)
    → v < length parent
    → visited parent v ≡ false
    → suc (unvisited (set parent v (some p))) ≡ unvisited parent
unvisited-set [] v p h e = absurd (omega arith)
unvisited-set (none ∷ parent) zero p h e = refl
unvisited-set (some q ∷ parent) zero p h e = absurd (cc)
unvisited-set (none ∷ parent) (suc v) p h e = ap suc (unvisited-set parent v p (omega arith) e)
unvisited-set (some q ∷ parent) (suc v) p h e = unvisited-set parent v p (omega arith) e

-- Only a vertex of the graph has a parent.
pub visited-lt : (parent : List (Option ℕ)) (v : ℕ) → visited parent v ≡ true → v < length parent
visited-lt [] v e = absurd (cc)
visited-lt (o ∷ parent) zero e = omega arith
visited-lt (o ∷ parent) (suc v) e = omega (arith, visited-lt parent v e)

pub visited-set :
    (parent : List (Option ℕ)) (v p w : ℕ)
    → v < length parent
    → visited (set parent v (some p)) w ≡ ((v == w) || visited parent w)
visited-set parent v p w h = elim (Bool-cases (v == w)) [
  | inl here ↦
      let at_v = ap is_visited (get_or-set_self parent v (some p) none h) in
      subst (λ k. visited (set parent v (some p)) k ≡ ((v == k) || visited parent k))
        (==→≡ _ _ here) (at_v ∙ (rw (==_refl v)))
  | inr other ↦ rw other (ap is_visited (get_or-set_ne parent v w (some p) none (==→≢ _ _ other)))
]

-- What a visit adds.
pub visited_new :
    (parent : List (Option ℕ)) (v p w : ℕ)
    → v < length parent
    → visited (set parent v (some p)) w ≡ true
    → (v ≡ w) ⊎ (visited parent w ≡ true)
visited_new parent v p w h e = elim (Bool-cases (v == w)) [
  | inl here ↦ inl (==→≡ _ _ here)
  | inr other ↦ inr (sym (visited-set parent v p w h ∙ (rw other)) ∙ e)
]

pub visited_old :
    (parent : List (Option ℕ)) (v p w : ℕ)
    → v < length parent
    → visited parent w ≡ true
    → visited (set parent v (some p)) w ≡ true
visited_old parent v p w h e = visited-set parent v p w h ∙ ground (arith, e)

pub visited_self :
    (parent : List (Option ℕ)) (v p : ℕ)
    → v < length parent
    → visited (set parent v (some p)) v ≡ true
visited_self parent v p h = visited-set parent v p v h ∙ (rw (==_refl v))

-- The walks in a graph whose edges are those of `next`.
pub data Reach (next : ℕ → ℕ → Bool) (source : ℕ) : ℕ → Type 0 where
  here : Reach next source source
  step : {u v : ℕ} → Reach next source u → next u v ≡ true → Reach next source v

module _ (next : ℕ → ℕ → Bool) (source n : ℕ) where
  -- The parent of the source is the source; every other vertex with a parent is reached, over its
  -- parent.
  pub record IsTree (parent : List (Option ℕ)) : Type 0 where
    pub sized : length parent ≡ n
    pub root : get_or parent source none ≡ some source
    pub sound : (v : ℕ) → visited parent v ≡ true → Reach next source v
    pub edges :
        (v p : ℕ)
        → get_or parent v none ≡ some p
        → (v ≡ source) ⊎ ((next p v ≡ true) × (visited parent p ≡ true))

  pub IsTree-set :
      (parent : List (Option ℕ)) (v p : ℕ)
      → IsTree parent
      → v < n
      → visited parent v ≡ false
      → visited parent p ≡ true
      → next p v ≡ true
      → IsTree (set parent v (some p))
  IsTree-set parent v p t lt fresh from edge =
      let inside : v < length parent = omega (arith, t.sized, lt) in
      let apart : v ≡ source → ⊥ = λ same.
        true_ne_false (sym (ap is_visited t.root) ∙ ap (visited parent) (sym same) ∙ fresh) in
      record {
        sized = length-set parent v (some p) ∙ t.sized;
        root = get_or-set_ne parent v source (some p) none apart ∙ t.root;
        sound = λ w e. elim (visited_new parent v p w inside e) [
          | inl same ↦ subst (Reach next source) same (step (t.sound p from) edge)
          | inr old ↦ t.sound w old
        ];
        edges = λ w q e. elim (Bool-cases (v == w)) [
          | inl same ↦
              let at_v = sym (get_or-set_self parent v (some p) none inside) in
              let is_p : p ≡ q =
                some-injective p q
                  (at_v ∙ ap (λ k. get_or (set parent v (some p)) k none) (==→≡ _ _ same) ∙ e) in
              inr (
                subst (λ k. (next k w ≡ true) × (visited (set parent v (some p)) k ≡ true)) is_p
                  (
                    subst (λ k. next p k ≡ true) (==→≡ _ _ same) edge,
                    visited_old parent v p p inside from,
                  ))
          | inr other ↦
              elim (t.edges w q
                (sym (get_or-set_ne parent v w (some p) none (==→≢ _ _ other)) ∙ e)) [
                  | inl at_source ↦ inl at_source
                  | inr (over, old) ↦ inr (over, visited_old parent v p q inside old)
                ]
        ];
      }
    where
      true_ne_false : true ≡ false → ⊥
      true_ne_false e = cc

  -- The source alone.
  pub IsTree-start : source < n → IsTree (set (replicate n none) source (some source))
  IsTree-start lt =
      let blank : List (Option ℕ) = replicate n none in
      let size : length blank ≡ n = length-replicate n none in
      let inside : source < length blank = omega (arith, size, lt) in
      let nothing : (w : ℕ) → visited blank w ≡ false =
        λ w. ap is_visited (get_or-replicate n w none) in
      record {
        sized = length-set blank source (some source) ∙ size;
        root = get_or-set_self blank source (some source) none inside;
        sound = λ v e. elim (visited_new blank source source v inside e) [
          | inl same ↦ subst (Reach next source) same here
          | inr old ↦ absurd (true_ne_false (sym old ∙ nothing v))
        ];
        edges = λ v p e. elim (visited_new blank source source v inside (ap is_visited e)) [
          | inl same ↦ inl (sym same)
          | inr old ↦ absurd (true_ne_false (sym old ∙ nothing v))
        ];
      }
    where
      true_ne_false : true ≡ false → ⊥
      true_ne_false e = cc

  -- The outcome of a search: a tree over exactly the vertices that a walk from the source reaches.
  pub record Found (parent : List (Option ℕ)) : Type 0 where
    pub tree : IsTree parent
    pub complete : (v : ℕ) → Reach next source v → visited parent v ≡ true
