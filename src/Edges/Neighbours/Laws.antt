-- ===== src/Edges/Neighbours/Laws.antt =====
-- What `GetNeighbours(Vertex*, ...)` of src/radixgraph.cpp reads from one version.
use radix_graph.Base.{
  ℕ, zero, suc, ◌-◌, ◌<◌, ◌≡◌, refl, ◌∙◌, sym, append-nil, subst, true, false, ◌⊎◌, Option, none,
  some, List, [], ◌++◌, if◌then◌else◌, ◌==◌, leb, ltb, ltb→lt, arith, Bool-cases, inl, inr, get_or,
}
use radix_graph.Bitmap.Interface.{Bitmap, BitmapLaws, IsClean}
use radix_graph.Edges.{Weight, WeightedEdge, WeightedEdgeArray, edges}
use radix_graph.Edges.Compaction.{clear_loop}
use radix_graph.Edges.Neighbours.{visible_loop, visible, visit_loop, read_array}
use radix_graph.Edges.View.{current, current-eq-last_log, Shows}
use radix_graph.Edges.Survivors.{survivors, survivors-Shows}
use radix_graph.Edges.Marks.{visit_loop-survivors, clear-marks}
use radix_graph.Edges.Prefix.{prefix, count-prefix, find-prefix, prefix-AllLive}
use radix_graph.Edges.Valid.{IsSnapshot, IsValid}

-- How many edges a read at `t` sees, apart from the code: up to the newest log with a time stamp of
-- at most t, and the snapshot of s edges in any case.
unfoldable pub seen_at : List ℕ → ℕ → ℕ → ℕ → ℕ
seen_at ts s t zero = s
seen_at ts s t (suc i) =
    if ltb i s then s else if leb (get_or ts (i - s) 0) t then suc i else seen_at ts s t i

seen_at_start : (ts : List ℕ) (s t : ℕ) → seen_at ts s t s ≡ s
unfolding seen_at
seen_at_start ts zero t = refl
seen_at_start ts (suc k) t = let e : ltb k (suc k) ≡ true = ground arith in rw e

abbrev pub visible_count : Option (List ℕ) → ℕ → ℕ → ℕ → ℕ
visible_count none s t n = n
visible_count (some ts) s t n = seen_at ts s t n

visible_count_snapshot : (ts : Option (List ℕ)) (s t n : ℕ) → n ≡ s → visible_count ts s t n ≡ n
visible_count_snapshot none s t n e = refl
visible_count_snapshot (some ts) s t n e = rw e (seen_at_start ts s t)

module _ {W : Type 0} ⦃weight : Weight W⦄ where
  pub prefix-Shows :
      (es : List (WeightedEdge W)) (s : ℕ) → IsSnapshot es s → Shows (current es s) (prefix es s)
  prefix-Shows es s snap = record {
    found = λ d. find-prefix es s d (snap.once d) ∙ sym (current-eq-last_log es s snap.live d);
    once = λ d. rw count-prefix (snap.once d);
    live = prefix-AllLive es s snap.live;
  }

  -- The search ends at the newest visible log, or copies the snapshot and leaves nothing to visit.
  visible_loop-seen_at :
      (ts : List ℕ) (es : List (WeightedEdge W)) (s t : ℕ) (out : List (WeightedEdge W)) (n : ℕ)
      → s < n
      → ((visible_loop ts es s t out n ≡ (seen_at ts s t n, out)) × (s < seen_at ts s t n))
        ⊎ ((visible_loop ts es s t out n ≡ (0, prefix es s)) × (seen_at ts s t n ≡ s))
  unfolding visible_loop seen_at
  visible_loop-seen_at ts es s t out zero h = absurd (omega arith)
  visible_loop-seen_at ts es s t out (suc i) h =
      let reached : ltb i s ≡ false = ground arith in
      elim (Bool-cases (leb (get_or ts (i - s) 0) t)) [
        | inl visible ↦ inl (rw (reached, visible), rw (reached, visible) h)
        | inr hidden ↦ elim (Bool-cases (i == s)) [
          | inl last ↦
              let e : i ≡ s = ground arith in
              inr (rw (hidden, last), rw (reached, hidden, e) (seen_at_start ts s t))
          | inr more ↦
              rw (reached, hidden, more) (visible_loop-seen_at ts es s t out i (ground arith))
        ]
      ]

  visible-cases :
      (ts : Option (List ℕ)) (es : List (WeightedEdge W)) (s t n : ℕ)
      → s < n
      → (visible ts es s t [] n ≡ (visible_count ts s t n, []))
        ⊎ ((visible ts es s t [] n ≡ (0, prefix es s)) × (visible_count ts s t n ≡ s))
  unfolding visible
  visible-cases none es s t n h = inl refl
  visible-cases (some ts) es s t n h = elim (visible_loop-seen_at ts es s t [] n h) [
    | inl p ↦ inl p.0
    | inr p ↦ inr p
  ]

-- The parts of the read, on a bitmap that is clean.
module _ {W B : Type 0} ⦃weight : Weight W⦄ ⦃bitmap : Bitmap B⦄ {IsClear : B → Type 0}
    (laws : BitmapLaws bitmap IsClear) (bits : B) (clean : IsClean bitmap IsClear bits) where
  -- The two loops over n edges: the survivors are appended, and the bitmap is clean again.
  scan :
      (es : List (WeightedEdge W)) (s n : ℕ) (out : List (WeightedEdge W))
      → IsClean bitmap IsClear (clear_loop es (n - s) s (visit_loop es s n (bits, out)).0)
        × ((visit_loop es s n (bits, out)).1 ≡ out ++ survivors es s n (λ d. false))
  scan es s n out =
      let looped = visit_loop-survivors laws es s n bits out (λ d. false) clean in
      (clear-marks laws es s n _ looped.0, looped.1)

  scan-Shows :
      (es : List (WeightedEdge W)) (s : ℕ) (p : ℕ × List (WeightedEdge W)) (m : ℕ)
      → IsSnapshot es s
      → (p ≡ (m, [])) ⊎ ((p ≡ (0, prefix es s)) × (m ≡ s))
      → Shows (current es m) (visit_loop es s p.0 (bits, p.1)).1
        × IsClean bitmap IsClear (clear_loop es (p.0 - s) s (visit_loop es s p.0 (bits, p.1)).0)
  scan-Shows es s p m snap (inl e) =
      let looped = scan es s m [] in rw e (rw looped.1 (survivors-Shows es s snap.once m), looped.0)
  scan-Shows es s p m snap (inr (e, k)) =
      let looped = scan es s 0 (prefix es s) in
      rw (e, k) (rw looped.1 (unfold survivors in rw append-nil (prefix-Shows es s snap)), looped.0)

  -- A read of a version in order at time t, with a clean bitmap that obeys the bitmap laws,
  -- returns each edge that the snapshot and the logs up to the newest one of time at most t leave,
  -- once, and no other, and it leaves the bitmap clean.
  pub read_array-Shows :
      (a : WeightedEdgeArray W) (t : ℕ)
      → IsValid a
      → Shows
          (current (edges a) (visible_count a.timestamp a.snapshot_deg t a.physical_size))
          (read_array a t bits []).1
        × IsClean bitmap IsClear (read_array a t bits []).0
  unfolding read_array
  read_array-Shows a t v = elim (Bool-cases (ltb a.snapshot_deg a.physical_size)) [
    | inl logs ↦ rw logs (
        scan-Shows (edges a) a.snapshot_deg _ _ v.snapshot
          (visible-cases a.timestamp (edges a) a.snapshot_deg t a.physical_size (ltb→lt _ _ logs)))
    | inr rest ↦
        let e : a.physical_size ≡ a.snapshot_deg = ground arith in
        let same = visible_count_snapshot a.timestamp a.snapshot_deg t a.physical_size e in
        rw rest (
          subst (λ m. Shows (current (edges a) m) (prefix (edges a) a.physical_size)) (sym same)
              (prefix-Shows (edges a) a.physical_size
                (subst (IsSnapshot (edges a)) (sym e) v.snapshot)),
          clean,
        )
  ]
