-- ===== src/Sort/Transform/Rebuilt.antt =====
-- The second part of `Transform` of src/sort.cpp, which puts vertices into a new tree.
use radix_graph.Base.{
  ℕ, zero, suc, ◌+◌, ◌%◌, ◌<◌, ◌≡◌, refl, ap, ◌∙◌, sym, Bool, Option, none, some, List, [], ◌∷◌,
  replicate, if◌then◌else◌, ◌==◌, Bool-cases, Option-cases, inl, inr,
}
use radix_graph.Sort.Laws.{find-agree, insert-Inserted_pos}
use radix_graph.Sort.Trie.{Node, child, with_child, find, insert}
use radix_graph.Sort.Trie.Laws.{agree, InRange, Shaped, Inserted}
use radix_graph.Sort.Transform.{put, rebuild, as_pointers}
use radix_graph.Sort.Transform.Levels.{or_else, or_else_assoc, or_else-none}

-- An entry with a vertex is put like an insertion.
put-insert :
    (size f : ℕ → ℕ) (p h i : ℕ) (n : Node h)
    → put size f h i (some p) n ≡ (insert size f p h i n).0
unfolding put insert
put-insert size f p zero i n = refl
put-insert size f p (suc zero) i kids = elim (Option-cases (child zero kids (f i))) [
  | inl e ↦ rw (e, put, insert)
  | inr (q, e) ↦ rw (e, put, insert)
]
put-insert size f p (suc (suc h)) i kids = elim (Option-cases (child (suc h) kids (f i))) [
  | inl e ↦
      rw (e, put, insert)
        (ap (with_child (suc h) kids (f i))
          (put-insert size f p (suc h) (i + 1) (replicate (size (i + 1)) none)))
  | inr (c, e) ↦
      rw (e, put, insert)
        (ap (with_child (suc h) kids (f i)) (put-insert size f p (suc h) (i + 1) c))
]

-- The first vertex whose number is the ID, in the bits that the tree looks at.
abbrev pub first : ℕ → List (ℕ × ℕ) → ℕ → Option ℕ
first m [] j = none
first m ((p, u) ∷ entries) j = or_else (if u % m == j % m then some p else none) (first m entries j)

module _ (size : ℕ → ℕ) (index : ℕ → ℕ → ℕ) (h m : ℕ) (pos : 0 < h)
    (range : (a : ℕ) → InRange size (index a) h 0)
    (same_path : (a b : ℕ) → agree (index a) (index b) h 0 ≡ (a % m == b % m)) where
  module _ (n : Node h) (s : Shaped size h 0 n) (p u : ℕ) where
    r : Node h × ℕ × Bool
    r = insert size (index u) p h 0 n

    inserted : Inserted size (index u) p h 0 n r
    unfolding r
    inserted = insert-Inserted_pos size (index u) p h 0 n pos (range u) s

    put_r : put size (index u) h 0 (some p) n ≡ r.0
    unfolding r
    put_r = put-insert size (index u) p h 0 n

    put-Shaped : Shaped size h 0 (put size (index u) h 0 (some p) n)
    put-Shaped = rw put_r inserted.shape

    -- What was there before comes first.
    kept_first : some r.1 ≡ or_else (find (index u) h 0 n) (some p)
    kept_first = elim (Option-cases (find (index u) h 0 n)) [
      | inl e ↦ rw e (ap some (inserted.made e).0)
      | inr (q, e) ↦ rw e (ap some (inserted.old q e).0)
    ]

    put-find :
        (j : ℕ)
        → find (index j) h 0 (put size (index u) h 0 (some p) n)
          ≡ or_else (find (index j) h 0 n) (if u % m == j % m then some p else none)
    put-find j = ap (find (index j) h 0) put_r ∙ elim (Bool-cases (u % m == j % m)) [
      | inl same ↦
          let e = same_path u j ∙ same in
          rw same (
            inserted.found (index j) e
            ∙ kept_first
            ∙ ap (λ o. or_else o (some p)) (find-agree (index u) (index j) h 0 n e))
      | inr apart ↦ rw apart (
          inserted.other (index j) (same_path u j ∙ apart)
          ∙ sym (or_else-none (find (index j) h 0 n)))
    ]

  -- The new tree has the vertices of the old one and then the entries, the first ones first.
  pub rebuild-first :
      (entries : List (ℕ × ℕ)) (n : Node h)
      → Shaped size h 0 n
      → Shaped size h 0 (rebuild size index h (as_pointers entries) n)
        × ((j : ℕ)
            → find (index j) h 0 (rebuild size index h (as_pointers entries) n)
              ≡ or_else (find (index j) h 0 n) (first m entries j))
  unfolding rebuild
  rebuild-first [] n s = (s, λ j. sym (or_else-none (find (index j) h 0 n)))
  rebuild-first ((p, u) ∷ entries) n s =
      let rest = rebuild-first entries (put size (index u) h 0 (some p) n) (put-Shaped n s p u) in
      (
        rest.0,
        λ j.
            rest.1 j
            ∙ ap (λ o. or_else o (first m entries j)) (put-find n s p u j)
            ∙ or_else_assoc (find (index j) h 0 n) (if u % m == j % m then some p else none)
                (first m entries j),
      )
