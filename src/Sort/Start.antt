-- ===== src/Sort/Start.antt =====
-- A new index of src/sort.cpp, and its `CheckExistence` as a question to the map of the index.
use radix_graph.Base.{
  ℕ, zero, suc, ◌<◌, ◌≡◌, refl, ap, ◌∙◌, sym, Bool, true, false, Option, none, some, List, length,
  arith, ◌+◌, Option-cases, inl, inr,
}
use radix_graph.Edges.{Weight}
use radix_graph.Sort.{Sort, fanout, new, root_of, check_existence}
use radix_graph.Sort.Config.{prune}
use radix_graph.Sort.Trie.{Node, child, find, exists, fresh}
use radix_graph.Sort.Trie.Laws.{Shaped, blank-Shaped, find-blank}
use radix_graph.Sort.Laws.{IsTree, IsValid, key, lookup}

pub fresh-Shaped : (size : ℕ → ℕ) (h i : ℕ) → 0 < h → Shaped size h i (fresh size h i)
unfolding fresh
fresh-Shaped size zero i pos = absurd (omega arith)
fresh-Shaped size (suc h) i pos = blank-Shaped size h i

pub find-fresh : (size g : ℕ → ℕ) (h i : ℕ) → 0 < h → find g h i (fresh size h i) ≡ none
unfolding fresh
find-fresh size g zero i pos = absurd (omega arith)
find-fresh size g (suc h) i pos = find-blank size g h i

-- Whether a vertex has been found.
abbrev pub is_some : Option ℕ → Bool
is_some none = false
is_some (some p) = true

-- The loop of `CheckExistence` sees whether a vertex is at the end of the path.
exists-find : (g : ℕ → ℕ) (h i : ℕ) (r : Node h) → 0 < h → exists g h i r ≡ is_some (find g h i r)
unfolding exists find
exists-find g zero i r pos = absurd (omega arith)
exists-find g (suc zero) i r pos = elim (Option-cases (child zero r (g i))) [
  | inl e ↦ rw (e, exists)
  | inr (p, e) ↦ rw (e, exists)
]
exists-find g (suc (suc h)) i r pos = elim (Option-cases (child (suc h) r (g i))) [
  | inl e ↦ rw (e, exists)
  | inr (c, e) ↦ rw (e, exists) (exists-find g (suc h) (i + 1) c (omega arith))
]

exists_root :
    (size g : ℕ → ℕ) (d : ℕ) (o : Option (Node d))
    → 0 < d
    → (elim o [ none ↦ false | some r ↦ exists g d 0 r ])
      ≡ is_some (find g d 0 (elim o [ none ↦ fresh size d 0 | some r ↦ r ]))
exists_root size g d none pos = ap is_some (sym (find-fresh size g d 0 pos))
exists_root size g d (some r) pos = exists-find g d 0 r pos

module _ {W : Type 0} ⦃weight : Weight W⦄ where
  -- The constructor from widths, not all of them 0, makes a tree in order in which no ID is found.
  pub new-IsValid :
      (widths : List ℕ)
      → 0 < length (prune widths)
      → IsValid (new {W = W} widths) × ((id : ℕ) → lookup (new {W = W} widths) id ≡ none)
  unfolding new root_of
  new-IsValid widths some_width =
      let missing : (id : ℕ) → lookup (new {W = W} widths) id ≡ none =
        λ id. find-fresh (fanout (prune widths)) _ (length (prune widths)) 0 some_width in
      (
        record {
          tree = record {
            sums = refl;
            deep = refl;
            some_level = some_width;
            shape = fresh-Shaped (fanout (prune widths)) (length (prune widths)) 0 some_width;
          };
          counted = refl;
          placed = λ i h. absurd (omega arith);
          owned = λ id p e. absurd (none_ne_some (sym (missing id) ∙ e));
        },
        missing,
      )
    where
      none_ne_some : {A : Type 0} {a : A} → none ≡ some a → ⊥
      none_ne_some e = cc

  pub check_existence-IsTree :
      (t : Sort W) (id : ℕ) → IsTree t → check_existence t id ≡ is_some (lookup t id)
  unfolding check_existence root_of
  check_existence-IsTree t id v =
      exists_root (fanout t.num_bits) (key t id) t.depth t.root v.some_level
