-- ===== src/Edges/Compaction/Laws.antt =====
-- What `LogCompaction` of src/radixgraph.cpp makes of the array of a vertex.
use mathlib.Core.Path.{ap₂}
use radix_graph.Base.{
  ℕ, ◌-◌, ◌≤◌, ◌≡◌, refl, ap, ◌∙◌, sym, subst, true, false, Option, none, some, replicate, List,
  length, if◌then◌else◌, ◌==◌, arith, Bool-cases, inl, inr, length-replicate, pos, eq_ℤ, ==→≡,
}
use radix_graph.Bitmap.Interface.{Bitmap, BitmapLaws, IsClean}
use radix_graph.Edges.{
  Weight, WeightedEdge, WeightedEdgeArray, edge_at, edges, blank, new_array, fresh_ints,
  get_global_timestamp,
}
use radix_graph.Edges.Compaction.{
  Context, Merge, copy_edges, merge_loop, clear_loop, finish, log_compaction,
}
use radix_graph.Edges.Compaction.Loops.{length-copy_edges, copy_edges-Agree, merge_loop-Merged}
use radix_graph.Edges.View.{is_live, is_written, times, current, current-eq-last_log, Shows}
use radix_graph.Edges.Survivors.{
  survivors-Shows, full-survivors, full-survivors_live, length-survivors_snapshot,
}
use radix_graph.Edges.Marks.{clear-marks}
use radix_graph.Edges.Prefix.{prefix, prefix-Agree, count-prefix, find-prefix, live_below}
use radix_graph.Edges.Neighbours.{first_edges}
use radix_graph.Edges.Neighbours.Laws.{prefix-Shows}
use radix_graph.Edges.Valid.{IsSnapshot, IsValid, IsCounted, live_edges, view}

module _ {W : Type 0} ⦃weight : Weight W⦄ where
  -- An array whose first n edges show a map is a snapshot of it.
  pub IsSnapshot-prefix :
      {f : ℕ → Option W} (es : List (WeightedEdge W)) (n : ℕ)
      → Shows f (prefix es n)
      → IsSnapshot es n × ((d : ℕ) → current es n d ≡ f d)
  IsSnapshot-prefix es n shows =
      let once : (d : ℕ) → times es n d ≤ 1 = λ d. rw count-prefix at (shows.once d) in
      let live = live_below es n shows.live in
      (
        record { once = once; live = live },
        λ d. current-eq-last_log es n live d ∙ sym (find-prefix es n d (once d)) ∙ shows.found d,
      )

  pub is_written_of_live : (e : WeightedEdge W) → is_live e ≡ true → is_written e ≡ true
  is_written_of_live e h = ground arith

-- The outcome of a compaction: a snapshot with the same edges and nothing else, in an array of m
-- places, and a clean bitmap.
pub record Compacted {W B : Type 0} ⦃weight : Weight W⦄ ⦃bitmap : Bitmap B⦄ (IsClear : B → Type 0)
    (stale : ℕ → ℕ) (f : ℕ → Option W) (live m : ℕ) (ctx : Context B)
    (r : WeightedEdgeArray W × Context B) : Type 0 where
  pub valid : IsValid r.0
  pub counted : IsCounted r.0
  pub same : (d : ℕ) → view r.0 d ≡ f d
  pub snapshot : r.0.snapshot_deg ≡ r.0.physical_size
  pub full : r.0.size ≡ r.0.physical_size
  pub size : r.0.physical_size ≡ live
  pub cap : r.0.cap ≡ m
  pub quiet : r.0.threads_read ≡ 0
  pub clean : IsClean bitmap IsClear r.1.bits
  pub stamp : r.0.snapshot_timestamp ≡ ctx.info.global_timestamp
  pub stamps :
      r.0.timestamp
      ≡ (if ctx.info.is_mixed_workloads then some (fresh_ints stale (m - live) 0) else none)
  pub clock : r.1.info ≡ (get_global_timestamp ctx.info).1

module _ {W B : Type 0} ⦃weight : Weight W⦄ ⦃bitmap : Bitmap B⦄ {IsClear : B → Type 0}
    (stale : ℕ → ℕ) where
  finish-Compacted :
      (f : ℕ → Option W) (new_arr : WeightedEdgeArray W) (es : List (WeightedEdge W)) (num : ℕ)
      (ctx : Context B)
      → new_arr.edge ≡ some es
      → length es ≡ new_arr.cap
      → num ≤ new_arr.cap
      → new_arr.threads_read ≡ 0
      → new_arr.timestamp ≡ none
      → Shows f (prefix es num)
      → IsClean bitmap IsClear ctx.bits
      → Compacted IsClear stale f num new_arr.cap ctx (finish stale new_arr num ctx)
  unfolding finish
  finish-Compacted f new_arr es num ctx held room fits quiet unstamped shows clean =
      let (snap, same) = IsSnapshot-prefix es num shows in
      rw held record {
        valid = record {
          held = refl;
          room = room;
          fits = fits;
          below = omega arith;
          written = λ i lt. is_written_of_live (edge_at es i) (snap.live i lt);
          snapshot = snap;
        };
        counted = ap pos (sym (length-survivors_snapshot es num num (omega arith) snap.live));
        same = same;
        snapshot = refl;
        full = refl;
        size = refl;
        cap = refl;
        quiet = quiet;
        clean = clean;
        stamp = refl;
        stamps = rw unstamped;
        clock = refl;
      }

  resized :
      {f : ℕ → Option W} {live live' m m' : ℕ} {ctx : Context B} {b : B}
      {r : WeightedEdgeArray W × Context B}
      → live ≡ live'
      → m ≡ m'
      → Compacted IsClear stale f live m (record ctx { bits = b }) r
      → Compacted IsClear stale f live' m' ctx r
  resized {ctx} e e' c = record {
    valid = c.valid;
    counted = c.counted;
    same = c.same;
    snapshot = c.snapshot;
    full = c.full;
    size = c.size ∙ e;
    cap = c.cap ∙ e';
    quiet = c.quiet;
    clean = c.clean;
    stamp = c.stamp;
    stamps =
        c.stamps
        ∙ ap₂
            (λ m n. if ctx.info.is_mixed_workloads then some (fresh_ints stale (m - n) 0) else none)
            e' e;
    clock = c.clock;
  }

  module _ (laws : BitmapLaws bitmap IsClear) (old : WeightedEdgeArray W) (valid : IsValid old)
      (counted : IsCounted old) (m : ℕ) (wide : length (live_edges old) ≤ m) (ctx : Context B)
      (clean : IsClean bitmap IsClear ctx.bits) where
    -- All logs are insertions of new edges: the array is copied.
    copied :
        old.physical_size ≡ length (live_edges old)
        → Compacted IsClear stale (view old) old.physical_size m ctx (
            finish stale
              (record (new_array m) {
                edge = some (copy_edges (edges old) old.physical_size 0 (edges (new_array m)));
              })
              old.physical_size
              ctx)
    unfolding new_array
    copied all =
        let es = edges old in
        let n = old.physical_size in
        let to = replicate m blank in
        let once : (d : ℕ) → times es n d ≤ 1 = λ d.
          (full-survivors es old.snapshot_deg valid.snapshot.once n (λ q. false) (sym all) d).0 in
        let snap : IsSnapshot es n = record {
          once = once;
          live = full-survivors_live es old.snapshot_deg n (λ q. false) (sym all);
        } in
        let agree = copy_edges-Agree es n to (rw length-replicate (omega arith)) in
        finish-Compacted (view old) _ _ n ctx refl
          (length-copy_edges es n 0 to ∙ length-replicate m blank) (omega arith) refl refl
          (subst (Shows (view old)) (sym (prefix-Agree _ es n agree)) (prefix-Shows es n snap))
          clean

    -- Otherwise the logs are merged into the snapshot.
    merged :
        (s : Merge W B) × (merge_loop (edges old) old.snapshot_deg old.physical_size (record {
          bits = ctx.bits;
          cap = (new_array {W = W} m).cap;
          edge = edges (new_array m);
          num = 0;
        })
          ≡ some s)
        × Compacted IsClear stale (view old) (length (live_edges old)) m ctx (
            finish stale
              (record (new_array m) { cap = s.cap; edge = some s.edge })
              s.num
              (record ctx {
                bits =
                    clear_loop
                      (edges old)
                      (old.physical_size - old.snapshot_deg)
                      old.snapshot_deg
                      s.bits;
              }))
    unfolding new_array
    merged =
        let es = edges old in
        let n = old.physical_size in
        let k = old.snapshot_deg in
        let start : Merge W B = record {
          bits = ctx.bits;
          cap = m;
          edge = replicate m blank;
          num = 0;
        } in
        let (s, run, m') =
          merge_loop-Merged laws es k n start (λ q. false) valid.written
            (record { room = length-replicate m blank; fits = omega arith }) clean in
        let ctx' : Context B = record ctx { bits = clear_loop es (n - k) k s.bits } in
        let cap : s.cap ≡ m = m'.cap (omega arith) in
        let num : s.num ≡ length (live_edges old) = m'.num ∙ omega arith in
        let shows : Shows (view old) (prefix s.edge s.num) =
          subst (Shows (view old)) (sym m'.edges)
            (unfold first_edges in survivors-Shows es k valid.snapshot.once n) in
        let done =
          finish-Compacted (view old) (record (new_array m) { cap = s.cap; edge = some s.edge }) _
            s.num ctx' refl m'.valid.room m'.valid.fits refl refl shows
            (clear-marks laws es k n s.bits m'.marks) in
        (s, run, resized num cap done)

    -- `LogCompaction` of an array that is in order and rightly counted, with a clean bitmap that
    -- obeys the bitmap laws, into a new array of m places with room for the live edges: it ends
    -- without a replacement of the new array, and the result is a valid snapshot of m places that
    -- holds exactly the live edges with the weights they had; its size, degree and written size
    -- are their number, its time stamps are as a new snapshot has them, the clock has moved on by
    -- one, and the bitmap is clean again.
    pub log_compaction-Compacted :
        (r : WeightedEdgeArray W × Context B) × (log_compaction stale old (new_array m) ctx
          ≡ some r)
        × Compacted IsClear stale (view old) (length (live_edges old)) m ctx r
    unfolding log_compaction
    log_compaction-Compacted = elim (Bool-cases (old.physical_size == length (live_edges old))) [
      | inl all ↦
          let e = ==→≡ _ _ all in
          let test = ap (eq_ℤ old.physical_size) counted ∙ all in
          (_, rw test, resized {ctx = ctx} e refl (copied e))
      | inr some_dead ↦
          let test = ap (eq_ℤ old.physical_size) counted ∙ some_dead in
          let (s, run, done) = merged in (_, rw (test, run), done)
    ]
