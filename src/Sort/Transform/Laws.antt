-- ===== src/Sort/Transform/Laws.antt =====
-- `Transform` of src/sort.cpp keeps the map of the index.
use mathlib.Core.Path.{ap₂}
use native.Mathlib.Nat.{mod-eq_of_lt}
use radix_graph.Base.{
  ℕ, ◌%◌, ◌^◌, ◌<◌, ◌≡◌, refl, ap, ◌∙◌, sym, subst, Option, none, some, ◌>>=◌, List, [], ◌∷◌,
  length, get_or, take, take-length, if◌then◌else◌, ◌==◌, arith, ==_refl,
}
use radix_graph.Bits.{two_pow_pos}
use radix_graph.Edges.{Weight}
use radix_graph.Sort.{Sort, child_index, fanout, root_of}
use radix_graph.Sort.Config.{prefix_sums}
use radix_graph.Sort.Digits.{sum_take, path, path-InRange, agree_root}
use radix_graph.Sort.Laws.{IsTree, IsValid, lookup, key-path}
use radix_graph.Sort.Start.{fresh-Shaped, find-fresh}
use radix_graph.Sort.Trie.{Node, find, fresh}
use radix_graph.Sort.Trie.Laws.{agree, InRange}
use radix_graph.Sort.Transform.{collect, as_pointers, frontiers_of, rebuilt, transform}
use radix_graph.Sort.Transform.Prefixes.{prefix-all}
use radix_graph.Sort.Transform.Levels.{or_else, or_else-none, seek, AllBelow, collect-seek}
use radix_graph.Sort.Transform.Rebuilt.{first, rebuild-first}

-- `1 << num_bits[i]` is an int.
abbrev pub IsShiftable : List ℕ → Type 0
IsShiftable widths = (i : ℕ) → get_or widths i 0 < 31

-- Where the numbers are below the modulus, the first entry of an ID is the one with its low bits.
pub first-seek :
    (m i : ℕ) (f : ℕ → ℕ) (entries : List (ℕ × ℕ)) (j : ℕ)
    → AllBelow m entries
    → first m entries j ≡ seek f 0 i (j % m) entries
unfolding find
first-seek m i f [] j below = refl
first-seek m i f ((p, u) ∷ entries) j below =
    let low : u % m ≡ u = mod-eq_of_lt below.0 in
    rw low (ap (or_else (if u == j % m then some p else none)) (first-seek m i f entries j below.1))

module _ {W : Type 0} ⦃weight : Weight W⦄ where
  -- The new tree, for entries that have vertices: its nodes fit, and its map is that of the entries.
  module _ (t : Sort W) (v : IsTree t) (widths : List ℕ) (same : length widths ≡ t.depth) where
    abbrev modulus_of : ℕ
    modulus_of = 2 ^ sum_take widths (length widths)

    index : ℕ → ℕ → ℕ
    index = child_index (prefix_sums 0 widths) t.depth

    index-path : (a : ℕ) → index a ≡ path widths a
    unfolding index
    index-path a = ap (λ d. child_index (prefix_sums 0 widths) d a) (sym same)

    index-InRange : (a : ℕ) → InRange (fanout widths) (index a) t.depth 0
    index-InRange a =
        subst (λ f. InRange (fanout widths) f t.depth 0) (sym (index-path a))
          (path-InRange widths a t.depth 0 (omega (arith, same)))

    index-agree :
        (a b : ℕ) → agree (index a) (index b) t.depth 0 ≡ (a % modulus_of == b % modulus_of)
    index-agree a b =
        ap₂ (λ f g. agree f g t.depth 0) (index-path a) (index-path b)
        ∙ ap (λ d. agree (path widths a) (path widths b) d 0) (sym same)
        ∙ agree_root widths a b

    pub rebuilt-first :
        (entries : List (ℕ × ℕ))
        → IsTree (rebuilt t widths (as_pointers entries))
          × ((j : ℕ)
              → lookup (rebuilt t widths (as_pointers entries)) j ≡ first modulus_of entries j)
    unfolding rebuilt root_of index
    rebuilt-first entries =
        let run =
          rebuild-first (fanout widths) index t.depth modulus_of v.some_level index-InRange
            index-agree entries (fresh (fanout widths) t.depth 0)
            (fresh-Shaped (fanout widths) t.depth 0 v.some_level) in
        (
          record { sums = refl; deep = sym same; some_level = v.some_level; shape = run.0 },
          λ j.
              run.1 j
              ∙ ap (λ o. or_else o (first modulus_of entries j))
                  (find-fresh (fanout widths) (index j) t.depth 0 v.some_level),
        )

  -- Both parts, for the `frontiers` that the first part makes.
  pub transform_run :
      (root_pointer : ℕ) (t : Sort W) (widths : List ℕ) (r : Node t.depth) (vertex_set : List ℕ)
      (frontiers : List (Option ℕ × ℕ))
      → t.root ≡ some r
      → frontiers_of root_pointer t t.depth r vertex_set ≡ some frontiers
      → take t.depth widths ≡ widths
      → transform root_pointer t t.depth widths vertex_set ≡ some (rebuilt t widths frontiers)
  unfolding transform
  transform_run root_pointer t widths r vertex_set frontiers there e taken =
      let second = λ (l : List (Option ℕ × ℕ)). some (rebuilt t (take t.depth widths) l) in
      rw (==_refl t.depth) (
        ap (λ o. o >>= (λ n. frontiers_of root_pointer t t.depth n vertex_set) >>= second) there
        ∙ ap (λ o. o >>= second) e
        ∙ ap (λ ws. some (rebuilt t ws frontiers)) taken)

  -- The map, the vertices and their order stay.
  pub record Transformed (t : Sort W) (widths : List ℕ) (s : Sort W) : Type 0 where
    pub configured : (s.num_bits ≡ widths) × IsTree s
    pub table : (s.vertex_table ≡ t.vertex_table) × (s.cnt ≡ t.cnt)
    pub lookups : (j : ℕ) → lookup s j ≡ lookup t j
    pub valid : IsValid t → IsValid s

  module _ (root_pointer : ℕ) (t : Sort W) (v : IsTree t) (widths : List ℕ) (r : Node t.depth)
      (there : t.root ≡ some r) (same : length widths ≡ t.depth)
      (sums : sum_take widths (length widths) ≡ sum_take t.num_bits (length t.num_bits)) where
    abbrev bits : ℕ
    bits = sum_take t.num_bits (length t.num_bits)

    lookup-root : (j : ℕ) → lookup t j ≡ find (path t.num_bits j) t.depth 0 r
    unfolding root_of
    lookup-root j = rw there (ap (λ f. find f t.depth 0 r) (key-path t v j))

    pub taken : take t.depth widths ≡ widths
    taken = ap (λ n. take n widths) (sym same) ∙ take-length widths

    module _ (narrow : bits < 64) where
      abbrev entries : List (ℕ × ℕ)
      entries = collect (fanout t.num_bits) t.depth 0 ((r, 0) ∷ [])

      entries-lookup : (j : ℕ) → first (2 ^ sum_take widths (length widths)) entries j ≡ lookup t j
      entries-lookup j =
          let run =
            collect-seek t.num_bits (omega (arith, narrow)) j t.depth 0 ((r, 0) ∷ [])
              (omega (arith, v.deep)) (two_pow_pos (sum_take t.num_bits 0), tt) in
          rw sums (
            first-seek (2 ^ bits) (length t.num_bits) (path t.num_bits j) entries j run.1
            ∙ (rw (← prefix-all t.num_bits j) run.0)
            ∙ or_else-none (find (path t.num_bits j) t.depth 0 r)
            ∙ sym (lookup-root j))

      -- `Transform` without known vertices, of a tree with a root whose nodes fit its
      -- configuration, to widths of the same number and the same sum of less than 64, where each
      -- width, old or new, is below 31: it ends without a crash, the tree has the new widths and
      -- its nodes fit them, every ID is found as before, the table of vertices and the counter
      -- stay, and an index in order is in order again.
      pub transform-Transformed :
          IsShiftable t.num_bits
          → IsShiftable widths
          → (s : Sort W) × (transform root_pointer t t.depth widths [] ≡ some s)
            × Transformed t widths s
      unfolding frontiers_of
      transform-Transformed shifts shifts' =
          let made = rebuilt-first t v widths same entries in
          (
            rebuilt t widths (as_pointers entries),
            transform_run root_pointer t widths r [] (as_pointers entries) there refl taken,
            record {
              configured = (unfold rebuilt in refl, made.0);
              table = (unfold rebuilt in refl, unfold rebuilt in refl);
              lookups = λ j. made.1 j ∙ entries-lookup j;
              valid = λ i.
                  unfold rebuilt in
                  record {
                    tree = made.0;
                    counted = i.counted;
                    placed = i.placed;
                    owned =
                        λ id p e. rw sums (i.owned id p (sym (made.1 id ∙ entries-lookup id) ∙ e));
                  };
            },
          )
