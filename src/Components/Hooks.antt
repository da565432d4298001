-- ===== src/Components/Hooks.antt =====
-- The first loop of src/GAPBS/cc_sv.cc: it lowers a label, or every edge joins equal labels.
use radix_graph.Base.{
  ℕ, zero, suc, ◌+◌, ◌≤◌, ◌<◌, ◌≡◌, ◌⊎◌, refl, ap, ◌∙◌, sym, subst, Bool, true, false, List, [],
  ◌∷◌, set, ltb, ◌==◌, arith, Bool-cases, inl, inr, ==→≡, ==→≢, ==_refl, mem,
}
use radix_graph.Reader.{Reader, ReaderLaws}
use radix_graph.Reader.Laws.{mem-times}
use radix_graph.Components.{at, Pass, low_comp, hook, hook_all, hook_from}
use radix_graph.Components.Labels.{
  Linked, edge, turn, join, total, total-set, IsLabels, FlatBelow, set-IsLabels,
}

low_comp_second : (a b : ℕ) → a < 4294967296 → ltb b a ≡ true → low_comp a b ≡ b
low_comp_second a b h e = let less : b < a = ground (arith, e) in rw e (omega (arith, h, less))

low_comp_first : (a b : ℕ) → a < 4294967296 → b < 4294967296 → ltb b a ≡ false → low_comp a b ≡ a
low_comp_first a b h k e = rw e (omega (arith, h, k))

module _ (link : ℕ → ℕ → Bool) (n : ℕ) where
  -- A change, which lowers the sum of the labels.
  abbrev pub Down : Pass → Pass → Type 0
  Down s t = (t.change ≡ true) × (total t.comp < total s.comp)

  -- The outcome of some hooks: what they compare is equal, or there is a change.
  pub record Settled (P : List ℕ → Type 0) (s t : Pass) : Type 0 where
    pub valid : IsLabels link n t.comp
    pub either : ((t ≡ s) × (FlatBelow link n n s.comp → P s.comp)) ⊎ Down s t

  Down-trans : (s t u : Pass) → (P : List ℕ → Type 0) → Down s t → Settled P t u → Down s u
  Down-trans s t u P down next = elim next.either [
    | inl (same, p) ↦ subst (Down s) (sym same) down
    | inr more ↦ (more.0, omega (arith, more.1, down.1))
  ]

  Settled-both :
      (P R T : List ℕ → Type 0) (s t u : Pass)
      → ((c : List ℕ) → P c → R c → T c)
      → Settled P s t
      → Settled R t u
      → Settled T s u
  Settled-both P R T s t u both first second = record {
    valid = second.valid;
    either = elim first.either [
      | inr down ↦ inr (Down-trans s t u R down second)
      | inl (same, p) ↦ elim second.either [
        | inr down ↦ inr (subst (λ k. Down k u) same down)
        | inl (same', r) ↦ inl (
          same' ∙ same,
          λ f. both s.comp (p f) (subst (λ k. FlatBelow link n n k.comp → R k.comp) same r f),
        )
      ]
    ];
  }

  module _ (small : n ≤ 4294967296) where
    -- A root gets a smaller label.
    set_root :
        (s : Pass) (high low : ℕ)
        → IsLabels link n s.comp
        → high < n
        → low < high
        → (high == at s.comp high) ≡ true
        → Linked link high low
        → (P : List ℕ → Type 0) → Settled P s (record { comp = set s.comp high low; change = true })
    set_root s high low v inside less root way P = record {
      valid = set-IsLabels link n s.comp v high low inside (omega (arith, less)) way;
      either =
          let sum = total-set s.comp high low (omega (arith, inside, v.sized)) in
          let own : high ≡ at s.comp high = ==→≡ _ _ root in
          inr (refl, omega (arith, sum, own, less));
    }

    module _ (u w : ℕ) (s : Pass) (v : IsLabels link n s.comp) (at_u : u < n) (at_w : w < n)
        (way : link u w ≡ true) where
      abbrev a : ℕ
      a = at s.comp u

      abbrev b : ℕ
      b = at s.comp w

      linked : Linked link a b
      linked = join (turn (v.linked u at_u)) (join (edge way) (v.linked w at_w))

      a_inside : a < n
      a_inside = omega (arith, v.below u at_u, at_u)

      b_inside : b < n
      b_inside = omega (arith, v.below w at_w, at_w)

      -- The label `high` is no root: not in a flat list of labels.
      not_root :
          (i : ℕ)
          → i < n
          → (at s.comp i == at s.comp (at s.comp i)) ≡ false
          → Settled (λ c. at c u ≡ at c w) s s
      not_root i inside off = record {
        valid = v;
        either = inl (refl, λ f. absurd (==→≢ _ _ off (sym (f i inside))));
      }

      hook-Settled : Settled (λ c. at c u ≡ at c w) s (hook u w s)
      unfolding hook
      hook-Settled = elim (Bool-cases (a == b)) [
        | inl same ↦ rw same (record { valid = v; either = inl (refl, λ f. ==→≡ _ _ same) })
        | inr apart ↦ elim (Bool-cases (ltb b a)) [
          | inl above ↦ elim (Bool-cases (a == at s.comp a)) [
            | inl root ↦
                let low = low_comp_second a b (omega (arith, a_inside, small)) above in
                rw (apart, above, root)
                  (subst
                    (λ k.
                      Settled (λ c. at c u ≡ at c w) s
                        (record { comp = set s.comp a k; change = true }))
                    (sym (rw above at low))
                    (set_root s a b v a_inside (ground (arith, above)) root linked _))
            | inr off ↦ rw (apart, above, off) (not_root u at_u off)
          ]
          | inr below ↦ elim (Bool-cases (b == at s.comp b)) [
            | inl root ↦
                let low =
                  low_comp_first a b (omega (arith, a_inside, small))
                    (omega (arith, b_inside, small)) below in
                rw (apart, below, root)
                  (subst
                    (λ k.
                      Settled (λ c. at c u ≡ at c w) s
                        (record { comp = set s.comp b k; change = true }))
                    (sym (rw below at low))
                    (set_root s b a v b_inside (ground (arith, apart, below)) root (turn linked) _))
            | inr off ↦ rw (apart, below, off) (not_root w at_w off)
          ]
        ]
      ]

    hook_all-Settled :
        (u : ℕ) (ws : List ℕ) (s : Pass)
        → u < n
        → ((w : ℕ) → mem w ws ≡ true → (w < n) × (link u w ≡ true))
        → IsLabels link n s.comp
        → Settled (λ c. (w : ℕ) → mem w ws ≡ true → at c u ≡ at c w) s (hook_all u ws s)
    unfolding hook_all
    hook_all-Settled u [] s at_u edges v = record {
      valid = v;
      either = inl (refl, λ f w e. absurd (false_ne_true e));
    }
      where
        false_ne_true : false ≡ true → ⊥
        false_ne_true e = cc
    hook_all-Settled u (w ∷ ws) s at_u edges v =
        let here = edges w (rw (==_refl w) refl) in
        let first = hook-Settled u w s v at_u here.0 here.1 in
        let rest =
          hook_all-Settled u ws (hook u w s) at_u (λ x e. edges x (ground (arith, e)))
            first.valid in
        Settled-both (λ c. at c u ≡ at c w) (λ c. (x : ℕ) → mem x ws ≡ true → at c u ≡ at c x)
          (λ c. (x : ℕ) → mem x (w ∷ ws) ≡ true → at c u ≡ at c x) s (hook u w s)
          (hook_all u ws (hook u w s))
          (λ c p r x e. elim (Bool-cases (x == w)) [
            | inl same ↦ p ∙ ap (at c) (sym (==→≡ _ _ same))
            | inr other ↦ r x (rw other at e)
          ])
          first rest

    module _ {G : Type 0} (reader : Reader G) (IsReady : G → Type 0) (next : ℕ → ℕ → Bool)
        (reads : ReaderLaws reader IsReady next) (agree : (u w : ℕ) → u < n → next u w ≡ link u w)
        (inside : (u w : ℕ) → link u w ≡ true → (u < n) × (w < n)) where
      -- Equal labels at the edges of the vertices from m on.
      abbrev pub Equal : ℕ → ℕ → List ℕ → Type 0
      Equal m left c = (u w : ℕ) → m ≤ u → u < m + left → link u w ≡ true → at c u ≡ at c w

      pub hook_from-Settled :
          (left m : ℕ) (g : G) (s : Pass)
          → m + left ≡ n
          → IsReady g
          → IsLabels link n s.comp
          → IsReady (hook_from reader left m g s).0
            × Settled (Equal m left) s (hook_from reader left m g s).1
      unfolding hook_from
      hook_from-Settled zero m g s e ready v = (
        ready,
        record {
          valid = v;
          either = inl (refl, λ f u w ge lt way. absurd (omega (arith, ge, lt)));
        },
      )
      hook_from-Settled (suc left) m g s e ready v =
          let (h, ws) = reader.read g m in
          let members : (w : ℕ) → mem w ws ≡ link m w = λ w.
            mem-times w ws (next m w) (reads.shows g ready m w) ∙ agree m w (omega (arith, e)) in
          let first =
            hook_all-Settled m ws s (omega (arith, e))
              (λ w x. let way = sym (members w) ∙ x in ((inside m w way).1, way)) v in
          let (after, rest) =
            hook_from-Settled left (m + 1) h (hook_all m ws s) (omega (arith, e))
              (reads.kept g ready m) first.valid in
          (
            after,
            Settled-both (λ c. (w : ℕ) → mem w ws ≡ true → at c m ≡ at c w) (Equal (m + 1) left)
                (Equal m (suc left)) s (hook_all m ws s)
                (hook_from reader left (m + 1) h (hook_all m ws s)).1
                (λ c p r u w ge lt way. elim (Bool-cases (m == u)) [
                  | inl same ↦
                      let at_m : m ≡ u = ==→≡ _ _ same in
                      subst (λ k. at c k ≡ at c w) at_m
                        (p w (members w ∙ subst (λ k. link k w ≡ true) (sym at_m) way))
                  | inr later ↦ r u w (ground (arith, later, ge)) (omega (arith, lt)) way
                ])
                first rest,
          )
