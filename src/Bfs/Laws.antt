-- ===== src/Bfs/Laws.antt =====
-- `DOBFS` of src/GAPBS/bfs.cc ends, and finds exactly what can be reached.
use radix_graph.Base.{
  ℕ, suc, ◌<◌, ◌≡◌, ◌⊎◌, ap, ◌∙◌, sym, Bool, true, false, ◌||◌, ◌&&◌, some, List, [], length, ltb,
  arith, Bool-cases, inl, inr, ◌==◌, ==→≡, mem, nil-length,
}
use radix_graph.Reader.{Reader, ReaderLaws}
use radix_graph.Bfs.{
  Search, State, visited, queue_to_bitmap, push_bits, bitmap_to_queue, td_loop, td_step, bottom_up,
  top_down,
}
use radix_graph.Bfs.Stores.{Queue, QueueLaws, Front, FrontLaws}
use radix_graph.Bfs.Parents.{unvisited, visited-lt}
use radix_graph.Bfs.TopDown.{IsSearch, td_loop-Moved}
use radix_graph.Bfs.Phase.{
  IsFront, queue_to_bitmap-get_bit, IsPushed, push_bits-IsPushed, Phased, bu_phase-Phased,
}

module _ {G Q F : Type 0} (reader : Reader G) (queue : Queue Q) (fronts : Front F) (n source : ℕ)
    (next : ℕ → ℕ → Bool) (IsReady : G → Type 0) (queues : QueueLaws queue n)
    (bits : FrontLaws fronts n) (reads : ReaderLaws reader IsReady next)
    (inside : (u v : ℕ) → next u v ≡ true → v < n) where
  abbrev Searching : Search G Q → Type 0
  Searching = IsSearch reader queue n source next IsReady queues reads inside

  -- At the head of the loop of `DOBFS`: what has been reached is a tree, and each of its neighbours is
  -- reached, but for those of the window.
  pub record IsHead (s : State G Q F) : Type 0 where
    pub search : Searching s.search
    pub idle : queues.pending s.search.queue ≡ []
    pub waiting :
        (u : ℕ) → mem u (queue.window s.search.queue) ≡ true → visited s.search.parent u ≡ true
    pub closed :
        (u v : ℕ)
        → visited s.search.parent u ≡ true
        → next u v ≡ true
        → (mem u (queue.window s.search.queue) ≡ true) ⊎ (visited s.search.parent v ≡ true)
    pub in_front :
        (q : ℕ) → q < n → fronts.get_bit s.front q ≡ true → visited s.search.parent q ≡ true

  -- A round reaches another vertex, or leaves nothing to do.
  abbrev pub Advances : State G Q F → State G Q F → Type 0
  Advances s t =
      (unvisited t.search.parent < unvisited s.search.parent) ⊎ (queue.window t.search.queue ≡ [])

  module _ (s : State G Q F) (v : IsHead s) where
    none_pending : (u : ℕ) → mem u (queues.pending s.search.queue) ≡ true → ⊥
    none_pending u m = false_ne_true (sym (ap (mem u) v.idle) ∙ m)
      where
        false_ne_true : false ≡ true → ⊥
        false_ne_true e = cc

    pub top_down-IsHead : IsHead (top_down reader queue s) × Advances s (top_down reader queue s)
    unfolding top_down td_step
    top_down-IsHead =
        let s0 : Search G Q = record s.search { scout_count = 0 } in
        let valid0 : Searching s0 = record {
          ready = v.search.ready;
          tree = v.search.tree;
          room = v.search.room;
          queued = v.search.queued;
        } in
        let (m, closed) =
          td_loop-Moved reader queue n source next IsReady queues reads inside
            (queue.window s.search.queue) s0 valid0 v.waiting
            (λ u w e edge. elim (v.closed u w e edge) [
              | inl waits ↦ inl waits
              | inr done ↦ inr (inr done)
            ]) in
        let t = td_loop reader queue (queue.window s.search.queue) s0 in
        let slide = queues.slide t.queue in
        (
          record {
            search = record {
              ready = m.valid.ready;
              tree = m.valid.tree;
              room = rw slide.2 m.valid.room;
              queued = λ w e. absurd (not_in_nil w (sym (ap (mem w) slide.1) ∙ e));
            };
            idle = slide.1;
            waiting = λ u e. m.valid.queued u (sym (ap (mem u) slide.0) ∙ e);
            closed = λ u w e edge. elim (closed u w e edge) [
              | inl waits ↦ absurd (not_in_nil u waits)
              | inr (inl waits) ↦ inl (ap (mem u) slide.0 ∙ waits)
              | inr (inr done) ↦ inr done
            ];
            in_front = λ q lt e. m.grows q (v.in_front q lt e);
          },
          elim (Bool-cases (length (queues.pending t.queue) == 0)) [
            | inl empty ↦ inr (slide.0 ∙ nil-length (queues.pending t.queue) (==→≡ _ _ empty))
            | inr more ↦ inl (ground (arith, more, m.work, ap length v.idle))
          ],
        )
      where
        not_in_nil : (u : ℕ) → mem u [] ≡ true → ⊥
        not_in_nil u e = cc

module _ {G Q F : Type 0} (reader : Reader G) (queue : Queue Q) (fronts : Front F)
    (n alpha beta source : ℕ) (next : ℕ → ℕ → Bool) (IsReady : G → Type 0)
    (queues : QueueLaws queue n) (bits : FrontLaws fronts n)
    (reads : ReaderLaws reader IsReady next) (inside : (u v : ℕ) → next u v ≡ true → v < n)
    (both_ways : (u v : ℕ) → next u v ≡ next v u) where
  abbrev AtHead : State G Q F → Type 0
  AtHead = IsHead reader queue fronts n source next IsReady queues bits reads inside

  abbrev Ahead : State G Q F → State G Q F → Type 0
  Ahead = Advances reader queue fronts n source next IsReady queues bits reads inside

  -- The window as a bitmap.
  module _ (s : State G Q F) (v : AtHead s) where
    abbrev window : List ℕ
    window = queue.window s.search.queue

    abbrev fronted : State G Q F
    fronted = record s {
      search = record s.search { queue = queue.slide_window s.search.queue };
      front = queue_to_bitmap fronts window s.front;
    }

    visited_below : (u : ℕ) → visited s.search.parent u ≡ true → u < n
    visited_below u e = omega (arith, visited-lt s.search.parent u e, v.search.tree.sized)

    front_at :
        (q : ℕ)
        → q < n
        → fronts.get_bit fronted.front q ≡ (mem q window || fronts.get_bit s.front q)
    front_at q lt =
        queue_to_bitmap-get_bit fronts n bits window s.front q
          (λ w m. visited_below w (v.waiting w m)) lt

    fronted-IsFront :
        IsFront reader fronts n source next IsReady bits reads inside both_ways fronted
    fronted-IsFront = record {
      ready = v.search.ready;
      tree = v.search.tree;
      in_front = λ q lt e. elim (Bool-cases (mem q window)) [
        | inl waits ↦ v.waiting q waits
        | inr off ↦ v.in_front q lt (sym (front_at q lt ∙ (rw off)) ∙ e)
      ];
      closed = λ u w e edge. elim (v.closed u w e edge) [
        | inl waits ↦ inl (front_at u (visited_below u e) ∙ (rw waits))
        | inr done ↦ inr done
      ];
    }

    -- Back from the bitmap.
    module _ (t : State G Q F)
        (p : Phased reader fronts n beta source next IsReady bits reads inside both_ways fronted
          t) where
      abbrev pushed_bits : Q
      pushed_bits = push_bits queue fronts t.front n 0 t.search.queue

      base : ℕ
      base = queues.pushed s.search.queue

      is_pushed : IsPushed queue fronts n queues t.front base n pushed_bits
      unfolding base
      is_pushed =
          let slide = queues.slide s.search.queue in
          push_bits-IsPushed queue fronts n queues t.front (queues.pushed s.search.queue) n 0
            t.search.queue (omega arith) (omega (arith, p.fewer, v.search.room))
            (record {
              pushed = ap queues.pushed p.queue ∙ slide.2 ∙ omega arith;
              members = λ w.
                  ap (λ q. mem w (queues.pending q)) p.queue ∙ ap (mem w) slide.1 ∙ (ground arith);
              size = ap (λ q. length (queues.pending q)) p.queue ∙ ap length slide.1;
            })

      abbrev queued : State G Q F
      queued = record t {
        search = record t.search { queue = queue.slide_window pushed_bits; scout_count = 1 };
      }

      queued-IsHead : AtHead queued × Ahead s queued
      unfolding base
      queued-IsHead =
          let slide = queues.slide pushed_bits in
          let i = is_pushed in
          let in_window : (u : ℕ)
              → mem u (queue.window (queue.slide_window pushed_bits))
                ≡ (ltb u n && fronts.get_bit t.front u) =
            λ u. ap (mem u) slide.0 ∙ i.members u in
          (
            record {
              search = record {
                ready = p.valid.ready;
                tree = p.valid.tree;
                room = omega (arith, slide.2, i.pushed, p.fewer, v.search.room);
                queued = λ w e. absurd (not_in_nil w (sym (ap (mem w) slide.1) ∙ e));
              };
              idle = slide.1;
              waiting = λ u e.
                  let both = sym (in_window u) ∙ e in
                  p.valid.in_front u (ground (arith, both)) (ground (arith, both));
              closed = λ u w e edge. elim (p.valid.closed u w e edge) [
                | inl is_set ↦
                    let lt = visited-lt t.search.parent u e in
                    inl (in_window u ∙ ground (arith, lt, p.valid.tree.sized, is_set))
                | inr done ↦ inr done
              ];
              in_front = p.valid.in_front;
            },
            elim (Bool-cases (unvisited t.search.parent == unvisited s.search.parent)) [
              | inl same ↦ inr (
                  slide.0
                  ∙ nil-length (queues.pending pushed_bits) (i.size ∙ p.idle (==→≡ _ _ same)))
              | inr apart ↦ inl (ground (arith, apart, p.fewer))
            ],
          )
        where
          not_in_nil : (u : ℕ) → mem u [] ≡ true → ⊥
          not_in_nil u e = cc

    pub bottom_up-IsHead :
        0 < length window
        → (t : State G Q F) × (bottom_up reader queue fronts n beta (suc n) s ≡ some t)
          × AtHead t
          × Ahead s t
    unfolding bottom_up bitmap_to_queue
    bottom_up-IsHead some_waiting =
        let few : unvisited s.search.parent < suc n = omega (arith, v.search.room) in
        let (t, run, p) =
          bu_phase-Phased reader fronts n beta source next IsReady bits reads inside both_ways
            (suc n) (length window) fronted fronted-IsFront some_waiting few in
        let after = queued-IsHead t p in (queued t p, rw run, after.0, after.1)
