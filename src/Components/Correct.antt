-- ===== src/Components/Correct.antt =====
-- `ShiloachVishkin` of src/GAPBS/cc_sv.cc ends, with a label for each component.
use radix_graph.Base.{
  ℕ, zero, suc, ◌≤◌, ◌<◌, ◌≡◌, refl, ap, ◌∙◌, sym, subst, Bool, true, false, some, List, length,
  arith, inl, inr,
}
use radix_graph.Reader.{Reader, ReaderLaws}
use radix_graph.Components.{at, init_comp, Pass, hook_from, component_loop, shiloach_vishkin}
use radix_graph.Components.Labels.{
  Linked, alone, edge, turn, join, total, IsLabels, FlatBelow, init_comp-IsLabels, at-init_comp,
}
use radix_graph.Components.Hooks.{Equal, hook_from-Settled}
use radix_graph.Components.Compress.{compress_from-Compressed}

-- The outcome: two vertices have one label just when they are joined, and it is the least of all
-- that are joined with them, one of them itself.
pub record AreComponents (link : ℕ → ℕ → Bool) (n : ℕ) (comp : List ℕ) : Type 0 where
  pub sized : length comp ≡ n
  pub own : (a : ℕ) → a < n → Linked link a (at comp a)
  pub least : (a b : ℕ) → b < n → Linked link a b → at comp a ≤ b
  pub same : (a b : ℕ) → Linked link a b → at comp a ≡ at comp b
  pub joined : (a b : ℕ) → a < n → b < n → at comp a ≡ at comp b → Linked link a b

module _ {G : Type 0} (reader : Reader G) (n : ℕ) (small : n ≤ 4294967296) (link : ℕ → ℕ → Bool)
    (IsReady : G → Type 0) (next : ℕ → ℕ → Bool) (reads : ReaderLaws reader IsReady next)
    (agree : (u w : ℕ) → u < n → next u w ≡ link u w)
    (inside : (u w : ℕ) → link u w ≡ true → (u < n) × (w < n)) where
  abbrev AllEqual : List ℕ → Type 0
  AllEqual = Equal link n small reader IsReady next reads agree inside 0 n

  AllEqual-Linked :
      (comp : List ℕ) → AllEqual comp → (a b : ℕ) → Linked link a b → at comp a ≡ at comp b
  AllEqual-Linked comp equal a b alone = refl
  AllEqual-Linked comp equal a b (edge way) =
      equal a b (omega arith) (let lt = (inside a b way).0 in omega (arith, lt)) way
  AllEqual-Linked comp equal a b (turn l) = sym (AllEqual-Linked comp equal b a l)
  AllEqual-Linked comp equal a b (join {b = c} l k) =
      AllEqual-Linked comp equal a c l ∙ AllEqual-Linked comp equal c b k

  AllEqual-AreComponents :
      (comp : List ℕ) → IsLabels link n comp → AllEqual comp → AreComponents link n comp
  AllEqual-AreComponents comp v equal = record {
    sized = v.sized;
    own = v.linked;
    least = λ a b lt l.
        let same = AllEqual-Linked comp equal a b l in
        let le = v.below b lt in omega (arith, same, le);
    same = AllEqual-Linked comp equal;
    joined = λ a b lt lt' e.
        join (v.linked a lt) (subst (λ k. Linked link k b) (sym e) (turn (v.linked b lt')));
  }

  -- A round of the loop.
  component_loop-AreComponents :
      (fuel : ℕ) (g : G) (comp : List ℕ)
      → IsReady g
      → IsLabels link n comp
      → FlatBelow link n n comp
      → total comp < fuel
      → (h : G) × (after : List ℕ) × (component_loop reader n fuel g comp ≡ some (h, after))
        × IsReady h
        × AreComponents link n after
  unfolding component_loop
  component_loop-AreComponents zero g comp ready v flat few = absurd (omega (arith, few))
  component_loop-AreComponents (suc fuel) g comp ready v flat few =
      let before : Pass = record { comp = comp; change = false } in
      let (kept, settled) =
        hook_from-Settled link n small reader IsReady next reads agree inside n 0 g before
          (omega arith) ready v in
      let (h, s) = hook_from reader n 0 g before in
      let (after, run, c) =
        compress_from-Compressed link n n 0 s.comp (omega arith) settled.valid
          (λ i lt. absurd (omega (arith, lt))) in
      elim settled.either [
        | inl (same, equal) ↦
            let quiet : s.change ≡ false = ap (λ (p : Pass). p.change) same in
            let flat_s : FlatBelow link n n s.comp =
              subst (λ (p : Pass). FlatBelow link n n p.comp) (sym same) flat in
            let equal_after : AllEqual after =
              subst AllEqual (sym (c.same flat_s ∙ ap (λ (p : Pass). p.comp) same)) (equal flat) in
            (h, after, rw (run, quiet), kept, AllEqual-AreComponents after c.valid equal_after)
        | inr (change, less) ↦
            let (k, last, rest, ready', done) =
              component_loop-AreComponents fuel h after kept c.valid c.flat
                (omega (arith, c.less, less, few)) in
            (k, last, rw (run, change) rest, ready', done)
      ]

  pub shiloach_vishkin-AreComponents_reads :
      (g : G)
      → IsReady g
      → (h : G) × (comp : List ℕ) × (shiloach_vishkin reader n (suc (total (init_comp n 0))) g
          ≡ some (h, comp))
        × IsReady h
        × AreComponents link n comp
  unfolding shiloach_vishkin
  shiloach_vishkin-AreComponents_reads g ready =
      component_loop-AreComponents (suc (total (init_comp n 0))) g (init_comp n 0) ready
        (init_comp-IsLabels link n) flat (omega arith)
    where
      flat : FlatBelow link n n (init_comp n 0)
      flat i lt =
          let e : at (init_comp n 0) i ≡ i = at-init_comp n 0 i lt ∙ omega arith in
          ap (at (init_comp n 0)) e
