-- ===== src/Sort/Trie/Laws.antt =====
-- The walks of src/sort.cpp as operations on a map from paths to vertices.
use mathlib.Core.Option.{some-injective}
use radix_graph.Base.{
  ℕ, zero, suc, ◌+◌, ◌<◌, ◌≡◌, refl, ap, ◌∙◌, sym, subst, Bool, true, false, ◌&&◌, Option, none,
  some, ◌>>=◌, length, replicate, if◌then◌else◌, ◌==◌, arith, Bool-cases, Option-cases, inl, inr,
  ==→≡, ==→≢, length-set, length-replicate, get_or-replicate, get_or-set_self, get_or-set_ne,
}
use radix_graph.Sort.Trie.{Node, child, with_child, find, insert}

-- Whether two paths are the same over h levels from level i on.
abbrev pub agree : (f g : ℕ → ℕ) → ℕ → ℕ → Bool
agree f g zero i = true
agree f g (suc h) i = f i == g i && agree f g h (i + 1)

-- The path stays inside the nodes.
abbrev pub InRange : (size f : ℕ → ℕ) → ℕ → ℕ → Type 0
InRange size f zero i = Unit
InRange size f (suc h) i = (f i < size i) × InRange size f h (i + 1)

-- Each node has as many children as its level asks for.
abbrev pub Shaped : (size : ℕ → ℕ) (h i : ℕ) → Node h → Type 0
Shaped size zero i p = Unit
Shaped size (suc h) i kids =
    (length kids ≡ size i)
    × ((j : ℕ) (c : Node h) → child h kids j ≡ some c → Shaped size h (i + 1) c)

module _ (size : ℕ → ℕ) where
  abbrev blank_node : (h i : ℕ) → Node (suc h)
  blank_node h i = replicate (size i) none

  pub blank-Shaped : (h i : ℕ) → Shaped size (suc h) i (blank_node h i)
  blank-Shaped h i = (
    length-replicate (size i) none,
    λ j c e. absurd (none_ne_some (sym (get_or-replicate (size i) j none) ∙ e)),
  )
    where
      none_ne_some : {A : Type 0} {a : A} → none ≡ some a → ⊥
      none_ne_some e = cc

  pub find-blank : (g : ℕ → ℕ) (h i : ℕ) → find g (suc h) i (blank_node h i) ≡ none
  unfolding find
  find-blank g h i = rw get_or-replicate

  -- The node that `InsertVertex` goes on to.
  below : (h i : ℕ) → Option (Node (suc h)) → Node (suc h)
  below h i none = blank_node h i
  below h i (some c) = c

  below-Shaped :
      (h i : ℕ) (o : Option (Node (suc h)))
      → ((c : Node (suc h)) → o ≡ some c → Shaped size (suc h) i c)
      → Shaped size (suc h) i (below h i o)
  unfolding below
  below-Shaped h i none s = blank-Shaped h i
  below-Shaped h i (some c) s = s c refl

  find-below :
      (g : ℕ → ℕ) (h i : ℕ) (o : Option (Node (suc h)))
      → (o >>= find g (suc h) i) ≡ find g (suc h) i (below h i o)
  unfolding below
  find-below g h i none = sym (find-blank g h i)
  find-below g h i (some c) = refl

-- The outcome of an insertion along f, in a tree that was t.
pub record Inserted (size f : ℕ → ℕ) (vertex h i : ℕ) (t : Node h) (r : Node h × ℕ × Bool)
    : Type 0 where
  pub shape : Shaped size h i r.0
  pub found : (g : ℕ → ℕ) → agree f g h i ≡ true → find g h i r.0 ≡ some r.1
  pub other : (g : ℕ → ℕ) → agree f g h i ≡ false → find g h i r.0 ≡ find g h i t
  pub old : (p : ℕ) → find f h i t ≡ some p → (r.1 ≡ p) × (r.2 ≡ false)
  pub made : find f h i t ≡ none → (r.1 ≡ vertex) × (r.2 ≡ true)

module _ (size f : ℕ → ℕ) (vertex : ℕ) where
  insert_step :
      (h i : ℕ) (kids : Node (suc (suc h)))
      → insert size f vertex (suc (suc h)) i kids ≡ (
          let r =
            insert size f vertex
              (suc h)
              (i + 1)
              (below size h (i + 1) (child (suc h) kids (f i))) in
          (with_child (suc h) kids (f i) r.0, r.1, r.2))
  unfolding insert below
  insert_step h i kids = elim (Option-cases (child (suc h) kids (f i))) [
    | inl e ↦ rw e
    | inr (c, e) ↦ rw e
  ]

  -- The child of an updated node.
  child-with_child :
      (h i : ℕ) (kids : Node (suc h)) (n : Node h) (j : ℕ)
      → f i < length kids
      → child h (with_child h kids (f i) n) j ≡ (if f i == j then some n else child h kids j)
  child-with_child h i kids n j room = elim (Bool-cases (f i == j)) [
    | inl same ↦ rw (same, ← ==→≡ _ _ same) (get_or-set_self kids (f i) (some n) none room)
    | inr apart ↦ rw apart (get_or-set_ne kids (f i) j (some n) none (==→≢ _ _ apart))
  ]

  with_child-Shaped :
      (h i : ℕ) (kids : Node (suc h)) (n : Node h)
      → f i < length kids
      → Shaped size (suc h) i kids
      → Shaped size h (i + 1) n
      → Shaped size (suc h) i (with_child h kids (f i) n)
  with_child-Shaped h i kids n room s sn = (
    length-set kids (f i) (some n) ∙ s.0,
    λ j c e. elim (Bool-cases (f i == j)) [
      | inl same ↦
          let here = rw same at (child-with_child h i kids n j room) in
          subst (Shaped size h (i + 1)) (some-injective n c (sym here ∙ e)) sn
      | inr apart ↦
          let here = rw apart at (child-with_child h i kids n j room) in s.1 j c (sym here ∙ e)
    ],
  )

  insert-none :
      (i : ℕ) (kids : Node 1)
      → child zero kids (f i) ≡ none
      → insert size f vertex 1 i kids ≡ (with_child zero kids (f i) vertex, vertex, true)
  unfolding insert
  insert-none i kids e = rw (e, insert)

  insert-some :
      (i : ℕ) (kids : Node 1) (p : ℕ)
      → child zero kids (f i) ≡ some p
      → insert size f vertex 1 i kids ≡ (kids, p, false)
  unfolding insert
  insert-some i kids p e = rw (e, insert)

  last_none :
      (i : ℕ) (kids : Node 1)
      → f i < length kids
      → Shaped size 1 i kids
      → child zero kids (f i) ≡ none
      → Inserted size f vertex 1 i kids (with_child zero kids (f i) vertex, vertex, true)
  unfolding find
  last_none i kids room s e = record {
    shape = with_child-Shaped zero i kids vertex room s tt;
    found = λ g a. ground (arith, child-with_child zero i kids vertex (g i) room);
    other = λ g a. ground (arith, child-with_child zero i kids vertex (g i) room);
    old = λ p q. ground arith;
    made = λ q. (refl, refl);
  }

  last_some :
      (i : ℕ) (kids : Node 1) (p : ℕ)
      → Shaped size 1 i kids
      → child zero kids (f i) ≡ some p
      → Inserted size f vertex 1 i kids (kids, p, false)
  unfolding find
  last_some i kids p s e = record {
    shape = s;
    found = λ g a. let same : f i ≡ g i = ground arith in rw (← same, e);
    other = λ g a. refl;
    old = λ q k. ground arith;
    made = λ k. ground arith;
  }

  -- One level up from an insertion into the child.
  level_up :
      (h i : ℕ) (kids : Node (suc (suc h))) (r : Node (suc h) × ℕ × Bool)
      → f i < length kids
      → Shaped size (suc (suc h)) i kids
      → Inserted size f vertex (suc h) (i + 1) (below size h (i + 1) (child (suc h) kids (f i))) r
      → Inserted size f vertex (suc (suc h)) i kids (with_child (suc h) kids (f i) r.0, r.1, r.2)
  unfolding find
  level_up h i kids r room s ih =
      let o = child (suc h) kids (f i) in
      record {
        shape = with_child-Shaped (suc h) i kids r.0 room s ih.shape;
        found = λ g a.
            let here : (f i == g i) ≡ true = ground arith in
            rw (child-with_child (suc h) i kids r.0 (g i) room, here) (ih.found g (ground arith));
        other = λ g a. elim (Bool-cases (f i == g i)) [
          | inl here ↦
              let e = ==→≡ _ _ here in
              rw (child-with_child (suc h) i kids r.0 (g i) room, here)
                (ih.other g (ground arith)
                  ∙ sym (find-below size g h (i + 1) o)
                  ∙ ap (λ j. child (suc h) kids j >>= find g (suc h) (i + 1)) e)
          | inr apart ↦ rw (child-with_child (suc h) i kids r.0 (g i) room, apart)
        ];
        old = λ p q. ih.old p (sym (find-below size f h (i + 1) o) ∙ q);
        made = λ q. ih.made (sym (find-below size f h (i + 1) o) ∙ q);
      }

  -- An insertion reaches the vertex at the end of its path, makes it if it was not there, and
  -- changes no other path.
  pub insert-Inserted :
      (h i : ℕ) (kids : Node (suc h))
      → InRange size f (suc h) i
      → Shaped size (suc h) i kids
      → Inserted size f vertex (suc h) i kids (insert size f vertex (suc h) i kids)
  insert-Inserted zero i kids range s = elim (Option-cases (child zero kids (f i))) [
    | inl e ↦ rw (insert-none i kids e) (last_none i kids (rw s.0 range.0) s e)
    | inr (p, e) ↦ rw (insert-some i kids p e) (last_some i kids p s e)
  ]
  insert-Inserted (suc h) i kids range s = rw (insert_step h i kids) (
      level_up h i kids _ (rw s.0 range.0) s (
        insert-Inserted h (i + 1) _ range.1
          (below-Shaped size h (i + 1) (child (suc h) kids (f i)) (s.1 (f i)))))
