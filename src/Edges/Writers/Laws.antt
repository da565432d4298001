-- ===== src/Edges/Writers/Laws.antt =====
-- What holds in every state that the writers of one edge array reach.
use mathlib.Core.Option.{some-injective}
use radix_graph.Base.{
  ℕ, ◌+◌, ◌<◌, ◌≡◌, ap, ◌∙◌, sym, subst, true, false, none, some, length, ◌==◌, arith, Bool-cases,
  inl, inr, ==→≡, ==→≢, ==_ne, length-set, get_or-set_self, get_or-set_ne,
}
use radix_graph.Edges.{Weight, edge_at, blank}
use radix_graph.Edges.Writers.{
  Place, idle, reserved, written, place_of, Writers, is_written, reserve, write, count_in, Step,
  reserves, writes, counts, Quiet, Reach, start, later,
}
use radix_graph.Edges.Writers.Threads.{update-apart}
use radix_graph.Base.Counts.{count, count-update, count-all, count-ltb}

-- What is known of a place that a thread has.
abbrev Held : {W : Type 0} ⦃weight : Weight W⦄ → ℕ → Writers W → Place → Type 0
Held cap s idle = Unit
Held cap s (reserved i) = (i < s.size) × (s.counted i ≡ false)
Held cap s (written i) =
    (i < s.size) × (s.counted i ≡ false) × (i < cap) × (is_written (edge_at s.edge i) ≡ true)

module _ {W : Type 0} ⦃weight : Weight W⦄ (cap : ℕ) where
  pub record Inv (s : Writers W) : Type 0 where
    pub room : length s.edge ≡ cap
    pub held : (k : ℕ) → Held cap s (s.thread k)
    pub apart :
        (k l i : ℕ) → place_of (s.thread k) ≡ some i → place_of (s.thread l) ≡ some i → k ≡ l
    pub kept : (i : ℕ) → s.counted i ≡ true → (i < s.size) × (is_written (edge_at s.edge i) ≡ true)
    pub counted_all : count s.counted cap ≡ s.physical_size

  Quiet-Inv : (s : Writers W) → Quiet cap s → Inv s
  Quiet-Inv s q = record {
    room = q.room.0;
    held = λ k. rw (q.nobody k, Held) tt;
    apart = λ k l i e f. absurd (none_ne_some (rw (q.nobody k) at e));
    kept = λ i c. let lt : i < s.size = ground (arith, q.counts i, c) in (lt, q.all i lt);
    counted_all = count-ltb s.counted s.size cap q.counts q.room.1 ∙ sym q.same;
  }
    where
      none_ne_some : {A : Type 0} {a : A} → none ≡ some a → ⊥
      none_ne_some e = cc

  Held-size : (s : Writers W) (p : Place) (i : ℕ) → Held cap s p → place_of p ≡ some i → i < s.size
  Held-size s idle i h e = absurd (none_ne_some e)
    where
      none_ne_some : none ≡ some i → ⊥
      none_ne_some e = cc
  Held-size s (reserved j) i h e = subst (λ n. n < s.size) (some-injective j i e) h.0
  Held-size s (written j) i h e = subst (λ n. n < s.size) (some-injective j i e) h.0

  Held-counted :
      (s : Writers W) (p : Place) (i : ℕ) → Held cap s p → place_of p ≡ some i → s.counted i ≡ false
  Held-counted s idle i h e = absurd (none_ne_some e)
    where
      none_ne_some : none ≡ some i → ⊥
      none_ne_some e = cc
  Held-counted s (reserved j) i h e = subst (λ n. s.counted n ≡ false) (some-injective j i e) h.1
  Held-counted s (written j) i h e = subst (λ n. s.counted n ≡ false) (some-injective j i e) h.1

  -- What a reservation leaves of the places.
  Held-reserve : (s : Writers W) (k : ℕ) (p : Place) → Held cap s p → Held cap (reserve s k) p
  Held-reserve s k idle h = tt
  Held-reserve s k (reserved i) h = (omega (arith, h.0), h.1)
  Held-reserve s k (written i) h = (omega (arith, h.0), h.1, h.2, h.3)

  reserve-Inv : (s : Writers W) (k : ℕ) → s.thread k ≡ idle → Inv s → Inv (reserve s k)
  reserve-Inv s k e v = record {
    room = v.room;
    held = λ l. elim (Bool-cases (k == l)) [
      | inl here ↦ rw (here, Held) (omega arith, new_place)
      | inr other ↦ rw (other, Held) (Held-reserve s k (s.thread l) (v.held l))
    ];
    apart = update-apart s.thread k (reserved s.size) v.apart (λ l i off at_new at_l.
        let lt = Held-size s (s.thread l) i (v.held l) at_l in
        omega (arith, lt, some-injective s.size i at_new));
    kept = λ i c. (omega (arith, (v.kept i c).0), (v.kept i c).1);
    counted_all = v.counted_all;
  }
    where
      new_place : s.counted s.size ≡ false
      new_place = elim (Bool-cases (s.counted s.size)) [
        | inl c ↦ absurd (omega (arith, (v.kept s.size c).0))
        | inr c ↦ c
      ]

  module _ (s : Writers W) (k i : ℕ) (w : W) (des : ℕ) (e : s.thread k ≡ reserved i)
      (below : i < cap) (v : Inv s) where
    elsewhere : (j : ℕ) → (i ≡ j → ⊥) → edge_at (write s k i w des).edge j ≡ edge_at s.edge j
    elsewhere j off = get_or-set_ne s.edge i j _ blank off

    Held-write :
        (p : Place) → (place_of p ≡ some i → ⊥) → Held cap s p → Held cap (write s k i w des) p
    Held-write idle off h = tt
    Held-write (reserved j) off h = h
    Held-write (written j) off h =
        (h.0, h.1, h.2, ap is_written (elsewhere j (λ same. off (ap some (sym same)))) ∙ h.3)

    here : Held cap s (reserved i)
    here = subst (Held cap s) e (v.held k)

    write-Inv : Inv (write s k i w des)
    write-Inv = record {
      room = length-set s.edge i _ ∙ v.room;
      held = λ l. elim (Bool-cases (k == l)) [
        | inl at_k ↦
            rw (at_k, Held)
              (
                here.0,
                here.1,
                below,
                ap is_written (get_or-set_self s.edge i _ blank (rw v.room below)),
              )
        | inr other ↦
            rw (other, Held)
              (Held-write (s.thread l) (λ at_l. ==→≢ _ _ other (v.apart k l i (ap place_of e) at_l))
                (v.held l))
      ];
      apart =
          update-apart s.thread k (written i) v.apart
            (λ l j off at_new at_l. ==→≢ _ _ off (v.apart k l j (ap place_of e ∙ at_new) at_l));
      kept = λ j c. (
        (v.kept j c).0,
        ap is_written
              (elsewhere j (λ same. true_ne_false (sym c ∙ ap s.counted (sym same) ∙ here.1)))
            ∙ (v.kept j c).1,
      );
      counted_all = v.counted_all;
    }
      where
        true_ne_false : true ≡ false → ⊥
        true_ne_false e = cc

  module _ (s : Writers W) (k i : ℕ) (e : s.thread k ≡ written i) (v : Inv s) where
    done : Held cap s (written i)
    done = subst (Held cap s) e (v.held k)

    Held-count :
        (p : Place) → (place_of p ≡ some i → ⊥) → Held cap s p → Held cap (count_in s k i) p
    Held-count idle off h = tt
    Held-count (reserved j) off h =
        let apart = ==_ne i j (λ same. off (ap some (sym same))) in (h.0, rw apart h.1)
    Held-count (written j) off h =
        let apart = ==_ne i j (λ same. off (ap some (sym same))) in (h.0, rw apart h.1, h.2, h.3)

    count_in-Inv : Inv (count_in s k i)
    count_in-Inv = record {
      room = v.room;
      held = λ l. elim (Bool-cases (k == l)) [
        | inl at_k ↦ rw (at_k, Held) tt
        | inr other ↦
            rw (other, Held)
              (Held-count (s.thread l) (λ at_l. ==→≢ _ _ other (v.apart k l i (ap place_of e) at_l))
                (v.held l))
      ];
      apart = update-apart s.thread k idle v.apart (λ l j off at_new at_l. none_ne_some at_new);
      kept = λ j c. elim (Bool-cases (i == j)) [
        | inl same ↦
            subst (λ n. (n < s.size) × (is_written (edge_at s.edge n) ≡ true)) (==→≡ _ _ same)
              (done.0, done.3)
        | inr apart ↦ v.kept j (rw apart at c)
      ];
      counted_all =
          count-update s.counted cap i done.2 done.1 ∙ ap (λ (n : ℕ). n + 1) v.counted_all;
    }
      where
        none_ne_some : {A : Type 0} {a : A} → none ≡ some a → ⊥
        none_ne_some e = cc

  Step-Inv : {s t : Writers W} → Step cap s t → Inv s → Inv t
  Step-Inv {s} (reserves k e) v = reserve-Inv s k e v
  Step-Inv {s} (writes k i w des e below) v = write-Inv s k i w des e below v
  Step-Inv {s} (counts k i e) v = count_in-Inv s k i e v

  pub Reach-Inv : {s : Writers W} → Reach cap s → Inv s
  Reach-Inv {s} (start q) = Quiet-Inv s q
  Reach-Inv (later r step) = Step-Inv step (Reach-Inv r)

  -- In every state that any number of threads reach from a quiet array by steps of `Insert` in any
  -- order, no two threads have the same place of the array.
  pub place_of_unique :
      {s : Writers W}
      → Reach cap s
      → (k l i : ℕ) → place_of (s.thread k) ≡ some i
      → place_of (s.thread l) ≡ some i
      → k ≡ l
  place_of_unique r = (Reach-Inv r).apart

  -- In every state that any number of threads reach from a quiet array by steps of `Insert` in any
  -- order: if `physical_size` is the capacity, which is what the expansion waits for, every place
  -- of the array is written and no thread has a place in it any more.
  pub full-written :
      {s : Writers W}
      → Reach cap s
      → s.physical_size ≡ cap
      → (i : ℕ) → i < cap
      → (is_written (edge_at s.edge i) ≡ true) × ((k : ℕ) → place_of (s.thread k) ≡ some i → ⊥)
  full-written {s} r full i below =
      let v = Reach-Inv r in
      let c : s.counted i ≡ true = count-all s.counted cap i (v.counted_all ∙ full) below in
      ((v.kept i c).1, λ k e. true_ne_false (sym c ∙ Held-counted s (s.thread k) i (v.held k) e))
    where
      true_ne_false : true ≡ false → ⊥
      true_ne_false e = cc
