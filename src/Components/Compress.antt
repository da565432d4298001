-- ===== src/Components/Compress.antt =====
-- The second loop of src/GAPBS/cc_sv.cc leaves every label its own.
use radix_graph.Base.{
  ℕ, zero, suc, ◌+◌, ◌≤◌, ◌<◌, ◌≡◌, refl, ap, ◌∙◌, sym, subst, Bool, true, some, ◌>>=◌, List, set,
  ◌==◌, arith, Bool-cases, inl, inr, ==→≡, ==→≢, ==_refl,
}
use radix_graph.Components.{at, compress_at, compress_from}
use radix_graph.Components.Labels.{
  join, total, total-set, IsLabels, FlatBelow, at_self, at_other, set-IsLabels,
}

module _ (link : ℕ → ℕ → Bool) (n : ℕ) where
  pub record Compressed (m : ℕ) (comp after : List ℕ) : Type 0 where
    pub valid : IsLabels link n after
    pub flat : FlatBelow link n m after
    pub less : total after ≤ total comp
    pub same : FlatBelow link n n comp → after ≡ comp

  module _ (m : ℕ) (lt : m < n) (comp : List ℕ) (v : IsLabels link n comp)
      (flat : FlatBelow link n m comp) where
    abbrev c : ℕ
    c = at comp m

    abbrev d : ℕ
    d = at comp (at comp m)

    at_root : c ≡ d → Compressed (m + 1) comp comp
    at_root e = record {
      valid = v;
      flat = λ i h. elim (Bool-cases (m == i)) [
        | inl last ↦ subst (λ k. at comp (at comp k) ≡ at comp k) (==→≡ _ _ last) (sym e)
        | inr before ↦ flat i (ground (arith, h, before))
      ];
      less = omega arith;
      same = λ f. refl;
    }

    module _ (apart : c ≡ d → ⊥) where
      c_below : c < m
      c_below = elim (Bool-cases (c == m)) [
        | inl self ↦ absurd (apart (sym (ap (at comp) (==→≡ c m self))))
        | inr other ↦ ground (arith, other, v.below m lt)
      ]

      d_below : d < m
      d_below = let le = v.below c (omega (arith, c_below, lt)) in omega (arith, le, c_below)

      d_root : at comp d ≡ d
      d_root = flat c c_below

      abbrev moved : List ℕ
      moved = set comp m d

      kept : (j : ℕ) → j < m → at moved j ≡ at comp j
      kept j h = at_other link n comp v m d lt j (λ e. absurd (omega (arith, e, h)))

      moved_root : at moved (at moved m) ≡ at moved m
      moved_root =
          let self = at_self link n comp v m d lt in
          ap (at moved) self ∙ kept d d_below ∙ d_root ∙ sym self

      moved-Compressed : Compressed (m + 1) comp moved
      moved-Compressed = record {
        valid =
            set-IsLabels link n comp v m d lt (omega (arith, d_below))
              (join (v.linked m lt) (v.linked c (omega (arith, c_below, lt))));
        flat = λ i h. elim (Bool-cases (m == i)) [
          | inl last ↦ subst (λ k. at moved (at moved k) ≡ at moved k) (==→≡ _ _ last) moved_root
          | inr before ↦
              let under : i < m = ground (arith, h, before) in
              let le = v.below i (omega (arith, under, lt)) in
              ap (at moved) (kept i under)
              ∙ kept (at comp i) (omega (arith, le, under))
              ∙ flat i under
              ∙ sym (kept i under)
        ];
        less =
            let sum = total-set comp m d (omega (arith, lt, v.sized)) in
            omega (arith, sum, c_below, d_below, v.below c (omega (arith, c_below, lt)));
        same = λ f. absurd (apart (sym (f m lt)));
      }

    compress_at-Compressed :
        (after : List ℕ) × (compress_at 1 m comp ≡ some after) × Compressed (m + 1) comp after
    unfolding compress_at
    compress_at-Compressed = elim (Bool-cases (c == d)) [
      | inl root ↦ (comp, rw root, at_root (==→≡ _ _ root))
      | inr off ↦
          let apart = ==→≢ c d off in
          let at_end : (at (moved apart) m == at (moved apart) (at (moved apart) m)) ≡ true =
            rw (moved_root apart) (==_refl (at (moved apart) m)) in
          (moved apart, rw (off, at_end), moved-Compressed apart)
    ]

  pub compress_from-Compressed :
      (left m : ℕ) (comp : List ℕ)
      → m + left ≡ n
      → IsLabels link n comp
      → FlatBelow link n m comp
      → (after : List ℕ) × (compress_from left m comp ≡ some after) × Compressed n comp after
  unfolding compress_from
  compress_from-Compressed zero m comp e v flat = (
    comp,
    refl,
    record {
      valid = v;
      flat = λ i h. flat i (omega (arith, h, e));
      less = omega arith;
      same = λ f. refl;
    },
  )
  compress_from-Compressed (suc left) m comp e v flat =
      let (next, run, c) = compress_at-Compressed m (omega (arith, e)) comp v flat in
      let (after, rest, d) =
        compress_from-Compressed left (m + 1) next (omega (arith, e)) c.valid c.flat in
      (
        after,
        ap (λ o. o >>= compress_from left (m + 1)) run ∙ rest,
        record {
          valid = d.valid;
          flat = d.flat;
          less = omega (arith, c.less, d.less);
          same = λ f. d.same (subst (FlatBelow link n n) (sym (c.same f)) f) ∙ c.same f;
        },
      )
