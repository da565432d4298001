-- ===== src/Edges/Compaction/Loops.antt =====
-- The loops of `LogCompaction` of src/radixgraph.cpp: the copy, and the merge of the logs.
use radix_graph.Base.{
  ℕ, zero, suc, ◌+◌, ◌≤◌, ◌<◌, ◌≡◌, refl, ap, ◌∙◌, sym, Bool, true, Option, none, some, List, [],
  ◌∷◌, ◌++◌, length, if◌then◌else◌, ◌==◌, leb, leb→lt, arith, Bool-cases, inl, inr, get_or-set_self,
  get_or-set_ne, length-set, length-replicate, length-append, append-nil, append_assoc, ==→≡,
}
use radix_graph.Bitmap.Interface.{Bitmap, BitmapLaws, Reads}
use radix_graph.Edges.{Weight, WeightedEdge, edge_at, blank}
use radix_graph.Edges.Compaction.{Merge, copy_edges, enlarge, push, merge_step, merge_loop}
use radix_graph.Edges.View.{is_written, Agree}
use radix_graph.Edges.Survivors.{see, kept, survivors}
use radix_graph.Edges.Marks.{see_all}
use radix_graph.Edges.Prefix.{prefix, prefix-Agree, prefix-set}

module _ {W : Type 0} ⦃weight : Weight W⦄ where
  pub length-copy_edges :
      (from : List (WeightedEdge W)) (left i : ℕ) (to : List (WeightedEdge W))
      → length (copy_edges from left i to) ≡ length to
  unfolding copy_edges
  length-copy_edges from zero i to = refl
  length-copy_edges from (suc left) i to = length-copy_edges from left (i + 1) _ ∙ length-set to i _

  copy_edges_below :
      (from : List (WeightedEdge W)) (left i : ℕ) (to : List (WeightedEdge W)) (j : ℕ)
      → j < i
      → edge_at (copy_edges from left i to) j ≡ edge_at to j
  unfolding copy_edges
  copy_edges_below from zero i to j h = refl
  copy_edges_below from (suc left) i to j h =
      copy_edges_below from left (i + 1) _ j (omega arith)
      ∙ get_or-set_ne to i j _ blank (omega arith)

  copy_edges_range :
      (from : List (WeightedEdge W)) (left i : ℕ) (to : List (WeightedEdge W)) (j : ℕ)
      → i + left ≤ length to
      → i ≤ j
      → j < i + left
      → edge_at (copy_edges from left i to) j ≡ edge_at from j
  unfolding copy_edges
  copy_edges_range from zero i to j room lo hi = absurd (omega arith)
  copy_edges_range from (suc left) i to j room lo hi = elim (Bool-cases (i == j)) [
    | inl same ↦
        copy_edges_below from left (i + 1) _ j (ground arith)
        ∙ rw (← ==→≡ i j same) (get_or-set_self to i _ blank (omega arith))
    | inr apart ↦
        copy_edges_range from left (i + 1) _ j (rw length-set (omega arith)) (ground arith)
          (omega arith)
  ]

  -- The copy of n edges into an array with room for them.
  pub copy_edges-Agree :
      (from : List (WeightedEdge W)) (n : ℕ) (to : List (WeightedEdge W))
      → n ≤ length to
      → Agree (copy_edges from n 0 to) from n
  copy_edges-Agree from n to room j h =
      copy_edges_range from n 0 to j (omega arith) (omega arith) (omega arith)

module _ {W B : Type 0} ⦃weight : Weight W⦄ ⦃bitmap : Bitmap B⦄ where
  -- The new array of the merge is as long as it says, and what is in it fits.
  pub record IsMerge (s : Merge W B) : Type 0 where
    pub room : length s.edge ≡ s.cap
    pub fits : s.num ≤ s.cap

  record Enlarged (s t : Merge W B) : Type 0 where
    valid : IsMerge t
    open_end : t.num < t.cap
    edges : prefix t.edge t.num ≡ prefix s.edge s.num
    num : t.num ≡ s.num
    bits : t.bits ≡ s.bits
    cap : s.num < s.cap → t.cap ≡ s.cap

  enlarge-Enlarged : (s : Merge W B) → IsMerge s → Enlarged s (enlarge s)
  unfolding enlarge
  enlarge-Enlarged s v = elim (Bool-cases (leb s.cap s.num)) [
    | inl full ↦ rw full (record {
      valid = record {
        room = length-copy_edges s.edge s.num 0 _ ∙ length-replicate _ blank;
        fits = omega arith;
      };
      open_end = omega arith;
      edges =
          prefix-Agree _ _ s.num
            (copy_edges-Agree s.edge s.num _ (rw length-replicate (omega arith)));
      num = refl;
      bits = refl;
      cap = λ h. absurd (ground (arith, full));
    })
    | inr fits ↦ rw fits (record {
      valid = v;
      open_end = leb→lt _ _ fits;
      edges = refl;
      num = refl;
      bits = refl;
      cap = λ h. refl;
    })
  ]

  -- The merge has gone on by the edges `added`, and the bitmap reads as `seen`. The array is replaced
  -- only where it is too short.
  pub record Merged (IsClear : B → Type 0) (added : List (WeightedEdge W)) (seen : ℕ → Bool)
      (s t : Merge W B) : Type 0 where
    pub valid : IsMerge t
    pub edges : prefix t.edge t.num ≡ prefix s.edge s.num ++ added
    pub num : t.num ≡ s.num + length added
    pub marks : Reads bitmap IsClear t.bits seen
    pub cap : s.num + length added ≤ s.cap → t.cap ≡ s.cap

  module _ {IsClear : B → Type 0} where
    push-Merged :
        (e : WeightedEdge W) (s : Merge W B) (seen : ℕ → Bool)
        → IsMerge s
        → Reads bitmap IsClear s.bits seen
        → Merged IsClear (e ∷ []) seen s (push e s)
    unfolding push
    push-Merged e s seen v r =
        let t = enlarge s in
        let big = enlarge-Enlarged s v in
        let next : t.num + 1 ≡ suc t.num = omega arith in
        record {
          valid = record { room = length-set t.edge t.num e ∙ big.valid.room; fits = omega arith };
          edges = rw next (
              prefix-set t.edge t.num e (rw big.valid.room big.open_end)
              ∙ ap (λ l. l ++ e ∷ []) big.edges);
          num = ap (λ n. n + 1) big.num;
          marks = rw big.bits r;
          cap = λ h. big.cap (omega arith);
        }

    unchanged :
        (s : Merge W B) (seen : ℕ → Bool)
        → IsMerge s
        → Reads bitmap IsClear s.bits seen
        → Merged IsClear [] seen s s
    unchanged s seen v r = record {
      valid = v;
      edges = sym (append-nil _);
      num = omega arith;
      marks = r;
      cap = λ h. refl;
    }

    Merged-trans :
        (xs ys : List (WeightedEdge W)) (f g : ℕ → Bool) {s t u : Merge W B}
        → Merged IsClear xs f s t
        → Merged IsClear ys g t u
        → Merged IsClear (xs ++ ys) g s u
    Merged-trans xs ys f g {s} {t} {u} p q = record {
      valid = q.valid;
      edges = q.edges ∙ rw p.edges (append_assoc (prefix s.edge s.num) xs ys);
      num = rw length-append (omega (arith, p.num, q.num));
      marks = q.marks;
      cap = λ h.
          let long = rw length-append at h in
          let first = p.cap (omega arith) in q.cap (omega (arith, p.num, first)) ∙ first;
    }

    remark :
        (xs : List (WeightedEdge W)) (f g : ℕ → Bool) {s t : Merge W B} (b : B)
        → Merged IsClear xs f s t
        → Reads bitmap IsClear b g
        → Merged IsClear xs g s (record t { bits = b })
    remark xs f g b p r = record {
      valid = record { room = p.valid.room; fits = p.valid.fits };
      edges = p.edges;
      num = p.num;
      marks = r;
      cap = p.cap;
    }

-- The next two need the laws of the bitmap.
module _ {W B : Type 0} ⦃weight : Weight W⦄ ⦃bitmap : Bitmap B⦄ {IsClear : B → Type 0}
    (laws : BitmapLaws bitmap IsClear) where
  see_next :
      (s i v : ℕ) (w : W) (b : B) (seen : ℕ → Bool)
      → Reads bitmap IsClear b seen
      → Reads bitmap IsClear
          (if leb s i then bitmap.set_bit b v else b)
          (see s i (record { weight = w; idx = some v }) seen)
  see_next s i v w b seen r = elim (Bool-cases (leb s i)) [
    | inl log ↦ rw log ((laws.set_valid b r.0 v, λ d. laws.get_set b r.0 v d ∙ rw (r.1 d)))
    | inr below ↦ rw below r
  ]

  merge_step-Merged :
      (snapshot_deg i v : ℕ) (w : W) (s : Merge W B) (seen : ℕ → Bool)
      → IsMerge s
      → Reads bitmap IsClear s.bits seen
      → let e : WeightedEdge W = record { weight = w; idx = some v } in
        Merged IsClear (kept e seen) (see snapshot_deg i e seen) s (merge_step snapshot_deg i v e s)
  unfolding merge_step
  merge_step-Merged snapshot_deg i v w s seen valid r =
      let e : WeightedEdge W = record { weight = w; idx = some v } in
      let after = see snapshot_deg i e seen in
      elim (Bool-cases (seen v)) [
        | inl old ↦ rw (r.1 v, old) (unchanged s after valid (r.0, λ d. r.1 d ∙ ground arith))
        | inr new ↦
            rw (r.1 v, new)
              (elim (Bool-cases (weight.is_zero w)) [
                | inl z ↦ rw z (
                    remark [] seen after _ (unchanged s seen valid r)
                      (see_next snapshot_deg i v w s.bits seen r))
                | inr nz ↦
                    let pushed = push-Merged e s seen valid r in
                    rw nz (
                      remark (e ∷ []) seen after _ pushed
                        (see_next snapshot_deg i v w (push e s).bits seen pushed.marks))
              ])
      ]

  -- The outcome of the merge loop over i entries.
  abbrev pub Ends : List (WeightedEdge W) → ℕ → ℕ → Merge W B → (ℕ → Bool) → Type 0
  Ends es snapshot_deg i s seen =
      (t : Merge W B) × (merge_loop es snapshot_deg i s ≡ some t)
      × Merged IsClear (survivors es snapshot_deg i seen) (see_all es snapshot_deg i seen) s t

  merge_next :
      (es : List (WeightedEdge W)) (snapshot_deg i : ℕ) (w : W) (o : Option ℕ) (s : Merge W B)
      (seen : ℕ → Bool)
      → let e : WeightedEdge W = record { weight = w; idx = o } in
        is_written e ≡ true
        → IsMerge s
        → Reads bitmap IsClear s.bits seen
        → ((u : Merge W B) (f : ℕ → Bool)
            → IsMerge u
            → Reads bitmap IsClear u.bits f
            → Ends es snapshot_deg i u f)
        → (t : Merge W B) × ◌≡◌ {A = Option (Merge W B)}
            (elim o [
              | none ↦ none
              | some v ↦ merge_loop es snapshot_deg i (merge_step snapshot_deg i v e s)
            ])
            (some t)
          × Merged IsClear
              (kept e seen ++ survivors es snapshot_deg i (see snapshot_deg i e seen))
              (see_all es snapshot_deg i (see snapshot_deg i e seen))
              s
              t
  merge_next es snapshot_deg i w none s seen written v r rest = cc
  merge_next es snapshot_deg i w (some d) s seen written v r rest =
      let step = merge_step-Merged snapshot_deg i d w s seen v r in
      let (t, run, merged) = rest _ _ step.valid step.marks in
      (t, run, Merged-trans _ _ _ _ step merged)

  -- Over n written entries the merge ends, with the survivors behind the edges that it began with.
  pub merge_loop-Merged :
      (es : List (WeightedEdge W)) (snapshot_deg n : ℕ) (s : Merge W B) (seen : ℕ → Bool)
      → ((i : ℕ) → i < n → is_written (edge_at es i) ≡ true)
      → IsMerge s
      → Reads bitmap IsClear s.bits seen
      → Ends es snapshot_deg n s seen
  unfolding merge_loop survivors see_all
  merge_loop-Merged es snapshot_deg zero s seen written v r = (s, refl, unchanged s seen v r)
  merge_loop-Merged es snapshot_deg (suc i) s seen written v r =
      let e = edge_at es i in
      merge_next es snapshot_deg i e.weight e.idx s seen (written i (omega arith)) v r
        λ u f. merge_loop-Merged es snapshot_deg i u f (λ j lt. written j (omega arith))
