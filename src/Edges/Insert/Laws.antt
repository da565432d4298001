-- ===== src/Edges/Insert/Laws.antt =====
-- What `Insert` of src/radixgraph.cpp does to the edges of a vertex.
use native.Mathlib.Numerals.{add-one}
use radix_graph.Base.{
  ℕ, suc, ◌+◌, ◌-◌, ◌≤◌, ◌<◌, ◌≡◌, refl, ap, ◌∙◌, sym, subst, fun_ext, true, false, Option, some,
  List, length, set, if◌then◌else◌, ◌==◌, leb, leb→le, leb→lt, lt→leb, le→leb, arith, Bool-cases,
  ==→≡, ==→≢, inl, inr, length-set, get_or-set_self, get_or-set_ne, ℤ, pos_part, sub_ℕ, add_change,
}
use radix_graph.Bitmap.Interface.{Bitmap, BitmapLaws, IsClean}
use radix_graph.Edges.{Weight, WeightedEdge, WeightedEdgeArray, edges, blank}
use radix_graph.Edges.Compaction.Laws.{Compacted, log_compaction-Compacted}
use radix_graph.Edges.Insert.{Local, retire, expand, write_log, insert}
use radix_graph.Edges.View.{
  last_log, current, drop_zero, Agree, Agree-set, last_log-Agree, times-Agree,
}
use radix_graph.Edges.Survivors.{
  present, mark, see, survivors, survivors-Agree, length-survivors-mark,
}
use radix_graph.Edges.Valid.{IsSnapshot, IsValid, IsCounted, live_edges, view}

module _ {W : Type 0} ⦃weight : Weight W⦄ where
  -- The weight that a log of weight w leaves: none if it is a deletion.
  abbrev pub logged : W → Option W
  logged w = drop_zero (some w)

  -- By how much such a log for `des` changes the number of edges.
  abbrev pub change : (ℕ → Option W) → ℕ → W → ℤ
  change f des w = sub_ℕ (present (logged w)) (present (f des))

  -- The array with one more log.
  abbrev pub appended : WeightedEdgeArray W → ℕ → W → List (WeightedEdge W)
  appended a des w = set (edges a) a.physical_size (record { weight = w; idx = some des })

  module _ (a : WeightedEdgeArray W) (v : IsValid a) (space : a.physical_size < a.cap) (des : ℕ)
      (w : W) where
    inside : a.physical_size < length (edges a)
    inside = omega (arith, v.room)

    agree : Agree (appended a des w) (edges a) a.physical_size
    agree = Agree-set (edges a) a.physical_size (record { weight = w; idx = some des })

    pub current-appended :
        (d : ℕ)
        → current (appended a des w) (suc a.physical_size) d
          ≡ (if des == d then logged w else view a d)
    unfolding current last_log
    current-appended d =
        rw
          (get_or-set_self (edges a) a.physical_size (record { weight = w; idx = some des }) blank
            inside)
          (ground (arith, last_log-Agree (appended a des w) (edges a) a.physical_size agree d))

    see_first :
        see a.snapshot_deg a.physical_size (record { weight = w; idx = some des }) (λ d. false)
        ≡ mark (λ d. false) des
    see_first = fun_ext λ d. rw (le→leb _ _ v.below)

    pub length-survivors-appended :
        length (survivors (appended a des w) a.snapshot_deg (suc a.physical_size) (λ d. false))
          + present (view a des)
        ≡ present (logged w) + length (live_edges a)
    unfolding survivors
    length-survivors-appended =
        let before =
          length-survivors-mark (edges a) a.snapshot_deg v.snapshot.once a.physical_size
            (λ d. false) des refl in
        let same = ap length (
          survivors-Agree (appended a des w) (edges a) a.snapshot_deg a.physical_size agree
            (mark (λ d. false) des)) in
        rw
          (
            get_or-set_self (edges a) a.physical_size (record { weight = w; idx = some des }) blank
                inside,
            see_first,
          )
          (ground (arith, before, same))

    pub IsSnapshot-appended : IsSnapshot (appended a des w) a.snapshot_deg
    IsSnapshot-appended =
        let below : Agree (appended a des w) (edges a) a.snapshot_deg =
          λ i lt. agree i (omega (arith, v.below)) in
        record {
          once = λ d.
              rw (times-Agree (appended a des w) (edges a) a.snapshot_deg below d)
                (v.snapshot.once d);
          live = λ i lt. rw (below i lt) (v.snapshot.live i lt);
        }

module _ {W : Type 0} ⦃weight : Weight W⦄ where
  -- A place is taken: nothing else of the array changes.
  abbrev taken : WeightedEdgeArray W → WeightedEdgeArray W
  taken a = record a { size = a.size + 1 }

  IsValid-taken : (a : WeightedEdgeArray W) → IsValid a → IsValid (taken a)
  IsValid-taken a v = record {
    held = v.held;
    room = v.room;
    fits = v.fits;
    below = v.below;
    written = v.written;
    snapshot = v.snapshot;
  }

-- The outcome of an insertion of a log of weight w for `des`: one edge changes, and no other.
pub record Inserted {W B : Type 0} ⦃weight : Weight W⦄ ⦃bitmap : Bitmap B⦄ (IsClear : B → Type 0)
    (f : ℕ → Option W) (des : ℕ) (w : W) (t : Local W B) : Type 0 where
  pub valid : IsValid t.next
  pub full : t.next.size ≡ t.next.physical_size
  pub counted : IsCounted t.next
  pub same : (d : ℕ) → view t.next d ≡ (if des == d then logged w else f d)
  pub clean : IsClean bitmap IsClear t.ctx.bits

module _ {W B : Type 0} ⦃weight : Weight W⦄ ⦃bitmap : Bitmap B⦄ {IsClear : B → Type 0}
    (scale : ℕ → ℕ → ℕ) (stale : ℕ → ℕ) where
  -- The writes, where there is space for them and the place is the next one.
  write_log-Inserted :
      (s : Local W B) (des : ℕ) (w : W)
      → IsValid s.next
      → IsCounted s.next
      → IsClean bitmap IsClear s.ctx.bits
      → s.next.physical_size < s.next.cap
      → s.next.size ≡ s.next.physical_size + 1
      → Inserted IsClear (view s.next) des w (
          write_log scale stale s.next.physical_size
            (record { weight = w; idx = some des })
            (change (view s.next) des w)
            s)
  unfolding write_log
  write_log-Inserted s des w v c clean space reserved =
      let a = s.next in
      let n = a.physical_size in
      let more = length-survivors-appended a v space des w in
      record {
        valid = record {
          held = refl;
          room = length-set (edges a) n _ ∙ v.room;
          fits = omega arith;
          below = omega (arith, v.below);
          written = λ i lt. elim (Bool-cases (n == i)) [
            | inl here ↦
                rw (← ==→≡ n i here) (rw (get_or-set_self (edges a) n _ blank (omega arith)) refl)
            | inr before ↦
                rw (get_or-set_ne (edges a) n i _ blank (==→≢ _ _ before))
                  (v.written i (ground arith))
          ];
          snapshot = IsSnapshot-appended a v space des w;
        };
        full = reserved;
        counted = rw (c, add-one) (add_change _ _ _ _ more);
        same = λ d. rw add-one (current-appended a v space des w d);
        clean = clean;
      }

  -- The end of `insert`, on a version with space.
  write_taken :
      (s : Local W B) (des : ℕ) (w : W)
      → IsValid s.next
      → s.next.size ≡ s.next.physical_size
      → IsCounted s.next
      → IsClean bitmap IsClear s.ctx.bits
      → s.next.physical_size < s.next.cap
      → Inserted IsClear (view s.next) des w (
          write_log scale stale s.next.size
            (record { weight = w; idx = some des })
            (change (view s.next) des w)
            (record s { next = taken s.next }))
  write_taken s des w v full c clean space =
      let e : WeightedEdge W = record { weight = w; idx = some des } in
      let t : Local W B = record s { next = taken s.next } in
      subst
        (λ i.
          Inserted IsClear (view s.next) des w
            (write_log scale stale i e (change (view s.next) des w) t))
        (sym full)
        (write_log-Inserted t des w (IsValid-taken s.next v) c clean space (ap (λ n. n + 1) full))

  module _ (laws : BitmapLaws bitmap IsClear)
      (wide : (deg extra : ℕ) → deg + extra ≤ scale deg extra) where
    -- A full array is compacted into one with space.
    expand-Compacted :
        (s : Local W B)
        → IsValid s.next
        → s.next.size ≡ s.next.physical_size
        → IsCounted s.next
        → IsClean bitmap IsClear s.ctx.bits
        → s.next.physical_size ≡ s.next.cap
        → let t : Local W B = record s { next = taken s.next } in
          (u : Local W B) × (expand scale stale t ≡ some u)
          × (m : ℕ) × (length (live_edges s.next) < m)
          × Compacted IsClear stale
              (view s.next)
              (length (live_edges s.next))
              m
              s.ctx
              (u.next, u.ctx)
    unfolding expand
    expand-Compacted s v full c clean tight =
        let a = taken s.next in
        let n = length (live_edges s.next) in
        let extra = a.size - a.cap + 1 + 8 in
        let m = scale (pos_part a.deg) extra in
        let deg : pos_part a.deg ≡ n = ap pos_part c in
        let room = wide (pos_part a.deg) extra in
        let (r, run, done) =
          log_compaction-Compacted stale laws a (IsValid-taken s.next v) c m (omega arith) s.ctx
            clean in
        let test : (a.physical_size == a.cap) ≡ true = ground arith in
        (
          record { next = r.0; older = retire a s.older; ctx = r.1 },
          rw (test, run),
          m,
          omega arith,
          done,
        )

    -- `Insert` of a log for `des`, with the change of degree that the log makes, run by one thread
    -- on a vertex whose newest version is in order, fully written and rightly counted, with a
    -- clean bitmap that obeys the bitmap laws and a scale that leaves the spare places: it ends
    -- within its rounds, the edge to `des` is as the log says, every other edge is as before, and
    -- the version, the degree and the bitmap are in order again, whether or not the array had to
    -- grow.
    pub insert-Inserted :
        (s : Local W B) (des : ℕ) (w : W)
        → IsValid s.next
        → s.next.size ≡ s.next.physical_size
        → IsCounted s.next
        → IsClean bitmap IsClear s.ctx.bits
        → (t : Local W B) × (insert scale stale s des w (change (view s.next) des w) ≡ some t)
          × Inserted IsClear (view s.next) des w t
    unfolding insert
    insert-Inserted s des w v full c clean = elim (Bool-cases (leb s.next.cap s.next.size)) [
      | inr space ↦
          (_, rw space, write_taken s des w v full c clean (ground (arith, leb→lt _ _ space)))
      | inl out ↦
          let (u, run, m, room, done) =
            expand-Compacted s v full c clean (omega (arith, leb→le _ _ out, v.fits)) in
          let fits : leb u.next.cap u.next.size ≡ false =
            lt→leb _ _ (omega (arith, done.cap, done.full, done.size)) in
          let written =
            write_taken u des w done.valid done.full done.counted done.clean
              (omega (arith, done.cap, done.size)) in
          (
            _,
            rw (out, run, fits),
            subst
                (λ f. Inserted IsClear f des w (
                  write_log scale stale u.next.size (record { weight = w; idx = some des })
                    (change f des w) (record u { next = taken u.next })))
                (fun_ext done.same) written,
          )
    ]
