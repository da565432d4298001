-- ===== src/Bfs/TopDown.antt =====
-- `TDStep` of src/GAPBS/bfs.cc.
use radix_graph.Base.{
  ℕ, ◌+◌, ◌≤◌, ◌<◌, ◌≡◌, ◌⊎◌, refl, ap, ◌∙◌, sym, subst, Bool, true, false, ◌||◌, List, [], ◌∷◌,
  length, set, some, arith, Bool-cases, inl, inr, ◌==◌, ==→≡, ==_refl, mem, mem-append,
  length-append,
}
use radix_graph.Reader.{Reader, ReaderLaws}
use radix_graph.Reader.Laws.{mem-times}
use radix_graph.Bfs.{Search, visited, td_edge, td_edges, td_loop}
use radix_graph.Bfs.Stores.{Queue, QueueLaws}
use radix_graph.Bfs.Parents.{
  unvisited, unvisited-set, visited_new, visited_old, visited_self, IsTree, IsTree-set,
}

or_false : (b : Bool) → (b || false) ≡ b
or_false true = refl
or_false false = refl

module _ {G Q : Type 0} (reader : Reader G) (queue : Queue Q) (n source : ℕ) (next : ℕ → ℕ → Bool)
    (IsReady : G → Type 0) (queues : QueueLaws queue n) (reads : ReaderLaws reader IsReady next)
    (inside : (u v : ℕ) → next u v ≡ true → v < n) where
  -- What a search has at any time.
  pub record IsSearch (s : Search G Q) : Type 0 where
    pub ready : IsReady s.g
    pub tree : IsTree next source n s.parent
    pub room : queues.pushed s.queue + unvisited s.parent ≤ n
    pub queued : (w : ℕ) → mem w (queues.pending s.queue) ≡ true → visited s.parent w ≡ true

  -- A part of the search: no vertex is lost, and each new one waits in the queue.
  pub record Moved (s t : Search G Q) : Type 0 where
    pub valid : IsSearch t
    pub grows : (w : ℕ) → visited s.parent w ≡ true → visited t.parent w ≡ true
    pub new :
        (w : ℕ)
        → visited t.parent w ≡ true
        → (visited s.parent w ≡ true) ⊎ (mem w (queues.pending t.queue) ≡ true)
    pub kept :
        (w : ℕ) → mem w (queues.pending s.queue) ≡ true → mem w (queues.pending t.queue) ≡ true
    pub work :
        unvisited t.parent + length (queues.pending t.queue)
        ≡ unvisited s.parent + length (queues.pending s.queue)

  Moved-refl : (s : Search G Q) → IsSearch s → Moved s s
  Moved-refl s v = record {
    valid = v;
    grows = λ w e. e;
    new = λ w e. inl e;
    kept = λ w e. e;
    work = refl;
  }

  Moved-trans : {s t u : Search G Q} → Moved s t → Moved t u → Moved s u
  Moved-trans a b = record {
    valid = b.valid;
    grows = λ w e. b.grows w (a.grows w e);
    new = λ w e. elim (b.new w e) [
      | inl old ↦ elim (a.new w old) [ inl older ↦ inl older | inr m ↦ inr (b.kept w m) ]
      | inr m ↦ inr m
    ];
    kept = λ w e. b.kept w (a.kept w e);
    work = b.work ∙ a.work;
  }

  -- One edge.
  td_edge-Moved :
      (from v : ℕ) (s : Search G Q)
      → IsSearch s
      → visited s.parent from ≡ true
      → next from v ≡ true
      → Moved s (td_edge reader queue from v s)
        × (visited (td_edge reader queue from v s).parent v ≡ true)
  unfolding td_edge
  td_edge-Moved from v s valid at_from edge = elim (Bool-cases (visited s.parent v)) [
    | inl old ↦ rw old (Moved-refl s valid, old)
    | inr fresh ↦
        let lt : v < length s.parent = omega (arith, inside from v edge, valid.tree.sized) in
        let fewer = unvisited-set s.parent v from lt fresh in
        let push = queues.push s.queue v (omega (arith, valid.room, fewer)) in
        let pend : (w : ℕ)
            → mem w (queues.pending (queue.push_back s.queue v))
              ≡ (mem w (queues.pending s.queue) || (w == v)) =
          λ w.
            ap (mem w) push.1
            ∙ mem-append w (queues.pending s.queue) (v ∷ [])
            ∙ ap (λ b. mem w (queues.pending s.queue) || b) (or_false (w == v)) in
        rw fresh (
          record {
            valid = record {
              ready = valid.ready;
              tree =
                  IsTree-set next source n s.parent v from valid.tree (inside from v edge) fresh
                    at_from edge;
              room = omega (arith, push.2, fewer, valid.room);
              queued = λ w m. elim (Bool-cases (w == v)) [
                | inl same ↦
                    subst (λ k. visited (set s.parent v (some from)) k ≡ true) (sym (==→≡ _ _ same))
                      (visited_self s.parent v from lt)
                | inr other ↦
                    visited_old s.parent v from w lt
                      (valid.queued w (ground (arith, pend w, other, m)))
              ];
            };
            grows = λ w e. visited_old s.parent v from w lt e;
            new = λ w e. elim (visited_new s.parent v from w lt e) [
              | inl same ↦ inr (pend w ∙ (ground (arith, same, ==_refl v)))
              | inr old ↦ inl old
            ];
            kept = λ w e. pend w ∙ ground (arith, e);
            work =
                let longer = length-append (queues.pending s.queue) (v ∷ []) in
                omega (arith, fewer, longer, ap length push.1);
          },
          visited_self s.parent v from lt,
        )
  ]

  td_edges-Moved :
      (from : ℕ) (vs : List ℕ) (s : Search G Q)
      → IsSearch s
      → visited s.parent from ≡ true
      → ((v : ℕ) → mem v vs ≡ true → next from v ≡ true)
      → Moved s (td_edges reader queue from vs s)
        × ((v : ℕ) → mem v vs ≡ true → visited (td_edges reader queue from vs s).parent v ≡ true)
  unfolding td_edges
  td_edges-Moved from [] s valid at_from edges = (Moved-refl s valid, λ v e. absurd (cc))
  td_edges-Moved from (v ∷ vs) s valid at_from edges =
      let one = td_edge-Moved from v s valid at_from (edges v (rw (==_refl v))) in
      let m = one.0 in
      let rest =
        td_edges-Moved from vs (td_edge reader queue from v s) m.valid (m.grows from at_from)
          (λ w e. edges w (ground (arith, e))) in
      (
        Moved-trans m rest.0,
        λ w e. elim (Bool-cases (w == v)) [
          | inl same ↦
              subst
                (λ k.
                  visited (td_edges reader queue from vs (td_edge reader queue from v s)).parent k
                  ≡ true)
                (sym (==→≡ _ _ same)) (rest.0.grows v one.1)
          | inr other ↦ rest.1 w (rw other at e)
        ],
      )

  -- Every neighbour of a visited vertex is visited, but for the vertices that still wait.
  abbrev pub Closed : List ℕ → Search G Q → Type 0
  Closed waiting s =
      (u v : ℕ)
      → visited s.parent u ≡ true
      → next u v ≡ true
      → (mem u waiting ≡ true)
        ⊎ ((mem u (queues.pending s.queue) ≡ true) ⊎ (visited s.parent v ≡ true))

  -- One entry of the window.
  td_entry-Moved :
      (from : ℕ) (rest : List ℕ) (s : Search G Q)
      → IsSearch s
      → visited s.parent from ≡ true
      → Closed (from ∷ rest) s
      → (let r = reader.read s.g from in
          let t = td_edges reader queue from r.1 (record s { g = r.0 }) in
          Moved s t × Closed rest t)
  td_entry-Moved from rest s valid at_from closed =
      let r = reader.read s.g from in
      let s0 : Search G Q = record s { g = r.0 } in
      let t = td_edges reader queue from r.1 s0 in
      let shown : (v : ℕ) → mem v r.1 ≡ next from v =
        λ v. mem-times v r.1 (next from v) (reads.shows s.g valid.ready from v) in
      let valid0 : IsSearch s0 = record {
        ready = reads.kept s.g valid.ready from;
        tree = valid.tree;
        room = valid.room;
        queued = valid.queued;
      } in
      let run = td_edges-Moved from r.1 s0 valid0 at_from (λ v e. sym (shown v) ∙ e) in
      let m : Moved s t = record {
        valid = run.0.valid;
        grows = run.0.grows;
        new = run.0.new;
        kept = run.0.kept;
        work = run.0.work;
      } in
      (
        m,
        λ u v e edge. elim (m.new u e) [
          | inr waits ↦ inr (inl waits)
          | inl old ↦ elim (closed u v old edge) [
            | inl here ↦ elim (Bool-cases (u == from)) [
              | inl same ↦
                  inr (inr (run.1 v (shown v ∙ subst (λ k. next k v ≡ true) (==→≡ _ _ same) edge)))
              | inr other ↦ inl (rw other at here)
            ]
            | inr (inl waits) ↦ inr (inl (m.kept u waits))
            | inr (inr done) ↦ inr (inr (m.grows v done))
          ]
        ],
      )

  pub td_loop-Moved :
      (window : List ℕ) (s : Search G Q)
      → IsSearch s
      → ((u : ℕ) → mem u window ≡ true → visited s.parent u ≡ true)
      → Closed window s
      → Moved s (td_loop reader queue window s) × Closed [] (td_loop reader queue window s)
  unfolding td_loop
  td_loop-Moved [] s valid waiting closed = (Moved-refl s valid, closed)
  td_loop-Moved (from ∷ rest) s valid waiting closed =
      let one = td_entry-Moved from rest s valid (waiting from (rw (==_refl from))) closed in
      let after =
        td_loop-Moved rest _ one.0.valid (λ u e. one.0.grows u (waiting u (ground (arith, e))))
          one.1 in
      (Moved-trans one.0 after.0, after.1)
