-- ===== src/Bfs/Phase.antt =====
-- The steps from bitmap to bitmap, and between bitmap and queue, in src/GAPBS/bfs.cc.
use radix_graph.Base.{
  ℕ, zero, suc, ◌+◌, ◌/◌, ◌≤◌, ◌<◌, ◌≡◌, ◌⊎◌, refl, ap, ◌∙◌, sym, subst, Bool, true, false, ◌||◌,
  ◌&&◌, some, List, [], ◌∷◌, length, if◌then◌else◌, ltb, leb, arith, Bool-cases, inl, inr, ◌==◌,
  ==→≡, ==_refl, mem, mem-append, length-append,
}
use radix_graph.Base.Counts.{count, count_mono, count-blank}
use radix_graph.Reader.{Reader, ReaderLaws}
use radix_graph.Bfs.{State, Wave, visited, queue_to_bitmap, push_bits, bu_loop, bu_step, bu_phase}
use radix_graph.Bfs.Stores.{Queue, QueueLaws, Front, FrontLaws}
use radix_graph.Bfs.Parents.{unvisited, IsTree}
use radix_graph.Bfs.BottomUp.{IsWave, bu_loop-IsWave}

module _ {F : Type 0} (fronts : Front F) (n : ℕ) (bits : FrontLaws fronts n) where
  pub queue_to_bitmap-get_bit :
      (window : List ℕ) (f : F) (q : ℕ)
      → ((w : ℕ) → mem w window ≡ true → w < n)
      → q < n
      → fronts.get_bit (queue_to_bitmap fronts window f) q ≡ (mem q window || fronts.get_bit f q)
  unfolding queue_to_bitmap
  queue_to_bitmap-get_bit [] f q below lt = refl
  queue_to_bitmap-get_bit (v ∷ window) f q below lt =
      queue_to_bitmap-get_bit window (fronts.set_bit f v) q (λ w m. below w (ground (arith, m))) lt
      ∙ ap (λ b. mem q window || b) (bits.get_set f v q (below v (rw (==_refl v))) lt)
      ∙ ground arith

module _ {Q F : Type 0} (queue : Queue Q) (fronts : Front F) (n : ℕ) (queues : QueueLaws queue n)
    (f : F) (base : ℕ) where
  abbrev set_at : ℕ → Bool
  set_at = fronts.get_bit f

  -- The bits below i have been pushed.
  pub record IsPushed (i : ℕ) (q : Q) : Type 0 where
    pub pushed : queues.pushed q ≡ base + count set_at i
    pub members : (w : ℕ) → mem w (queues.pending q) ≡ (ltb w i && set_at w)
    pub size : length (queues.pending q) ≡ count set_at i

  push_one :
      (i : ℕ) (q : Q)
      → i < n
      → base + count set_at n ≤ n
      → IsPushed i q
      → IsPushed (i + 1) (if set_at i then queue.push_back q i else q)
  push_one i q lt room p = elim (Bool-cases (set_at i)) [
    | inl is_set ↦
        let next : i + 1 ≡ suc i = omega arith in
        let one : count set_at (suc i) ≡ count set_at i + 1 = ground (arith, is_set) in
        let fits = count_mono set_at (suc i) n (omega (arith, lt)) in
        let push = queues.push q i (omega (arith, p.pushed, one, fits, room)) in
        rw (is_set, next)
          (record {
            pushed = omega (arith, push.2, p.pushed, one);
            members = λ w.
                ap (mem w) push.1
                ∙ mem-append w (queues.pending q) (i ∷ [])
                ∙ ap (λ b. b || mem w (i ∷ [])) (p.members w)
                ∙ elim (Bool-cases (w == i)) [
                  | inl same ↦ let e = ==→≡ _ _ same in ground (arith, same, e, is_set, ap set_at e)
                  | inr other ↦ ground (arith, other)
                ];
            size =
                omega
                  (arith, ap length push.1, length-append (queues.pending q) (i ∷ []), p.size, one);
          })
    | inr is_clear ↦
        let next : i + 1 ≡ suc i = omega arith in
        let none_more : count set_at (suc i) ≡ count set_at i = ground (arith, is_clear) in
        rw (is_clear, next)
          (record {
            pushed = omega (arith, p.pushed, none_more);
            members = λ w. p.members w ∙ elim (Bool-cases (w == i)) [
              | inl same ↦ let e = ==→≡ _ _ same in ground (arith, same, e, is_clear, ap set_at e)
              | inr other ↦ ground (arith, other)
            ];
            size = omega (arith, p.size, none_more);
          })
  ]

  pub push_bits-IsPushed :
      (left i : ℕ) (q : Q)
      → left + i ≡ n
      → base + count set_at n ≤ n
      → IsPushed i q
      → IsPushed n (push_bits queue fronts f left i q)
  unfolding push_bits
  push_bits-IsPushed zero i q e room p =
      let end : i ≡ n = omega (arith, e) in subst (λ k. IsPushed k q) end p
  push_bits-IsPushed (suc left) i q e room p =
      push_bits-IsPushed left (i + 1) _ (omega (arith, e)) room
        (push_one i q (omega (arith, e)) room p)

module _ {G Q F : Type 0} (reader : Reader G) (fronts : Front F) (n source : ℕ)
    (next : ℕ → ℕ → Bool) (IsReady : G → Type 0) (bits : FrontLaws fronts n)
    (reads : ReaderLaws reader IsReady next) (inside : (u v : ℕ) → next u v ≡ true → v < n)
    (both_ways : (u v : ℕ) → next u v ≡ next v u) where
  -- Between two steps: every neighbour of a visited vertex is visited, but for those of the front.
  pub record IsFront (s : State G Q F) : Type 0 where
    pub ready : IsReady s.search.g
    pub tree : IsTree next source n s.search.parent
    pub in_front :
        (q : ℕ) → q < n → fronts.get_bit s.front q ≡ true → visited s.search.parent q ≡ true
    pub closed :
        (u v : ℕ)
        → visited s.search.parent u ≡ true
        → next u v ≡ true
        → (fronts.get_bit s.front u ≡ true) ⊎ (visited s.search.parent v ≡ true)

  abbrev left_of : State G Q F → ℕ
  left_of s = unvisited s.search.parent

  abbrev pub front_size : State G Q F → ℕ
  front_size s = count (fronts.get_bit s.front) n

  module _ (s : State G Q F) (v : IsFront s) where
    abbrev wave : Wave G F
    wave = bu_loop reader fronts s.front n 0 (record {
      g = s.search.g;
      parent = s.search.parent;
      next = fronts.reset s.curr;
      awake_count = 0;
    })

    wave-IsWave :
        IsWave reader fronts n source next IsReady bits reads inside both_ways s.front
          s.search.parent v.in_front n wave
    wave-IsWave =
        bu_loop-IsWave reader fronts n source next IsReady bits reads inside both_ways s.front
          s.search.parent v.in_front n 0 _ (omega arith)
          (record {
            ready = v.ready;
            tree = v.tree;
            grows = λ w e. e;
            marked = λ q lt e. absurd (true_ne_false (sym e ∙ bits.get_reset s.curr q lt));
            new = λ w e. inl e;
            ahead = λ q lt h. bits.get_reset s.curr q lt;
            done = λ j lt. absurd (omega (arith, lt));
            awake = omega arith;
            counted = count-blank _ n (bits.get_reset s.curr);
          })
      where
        true_ne_false : true ≡ false → ⊥
        true_ne_false e = cc

    step : State G Q F × ℕ
    step = bu_step reader fronts n s

    step-IsFront : IsFront step.0
    unfolding step bu_step
    step-IsFront =
        let w = wave-IsWave in
        record {
          ready = w.ready;
          tree = w.tree;
          in_front = w.marked;
          closed = λ u x e edge. elim (w.new u e) [
            | inr (lt, is_set) ↦ inl is_set
            | inl old ↦ elim (v.closed u x old edge) [
              | inr done ↦ inr (w.grows x done)
              | inl hit ↦ elim (Bool-cases (visited wave.parent x)) [
                | inl reached ↦ inr reached
                | inr off ↦ absurd (
                    true_ne_false
                      (sym hit ∙ w.done x (inside u x edge) off u (both_ways x u ∙ edge)))
              ]
            ]
          ];
        }
      where
        true_ne_false : true ≡ false → ⊥
        true_ne_false e = cc

    -- The number that the step returns is that of the vertices that it reached, which are its front.
    step-count :
        (step.1 + left_of step.0 ≡ left_of s)
        × (front_size step.0 ≡ step.1)
        × (step.0.search.queue ≡ s.search.queue)
    unfolding step bu_step
    step-count = (wave-IsWave.awake, wave-IsWave.counted, refl)

module _ {G Q F : Type 0} (reader : Reader G) (fronts : Front F) (n beta source : ℕ)
    (next : ℕ → ℕ → Bool) (IsReady : G → Type 0) (bits : FrontLaws fronts n)
    (reads : ReaderLaws reader IsReady next) (inside : (u v : ℕ) → next u v ≡ true → v < n)
    (both_ways : (u v : ℕ) → next u v ≡ next v u) where
  abbrev Fronted : State G Q F → Type 0
  Fronted = IsFront reader fronts n source next IsReady bits reads inside both_ways

  abbrev size_of : State G Q F → ℕ
  size_of = front_size reader fronts n source next IsReady bits reads inside both_ways

  -- The outcome of the loop.
  pub record Phased (s t : State G Q F) : Type 0 where
    pub valid : Fronted t
    pub queue : t.search.queue ≡ s.search.queue
    pub fewer : unvisited t.search.parent + size_of t ≤ unvisited s.search.parent
    pub idle : unvisited t.search.parent ≡ unvisited s.search.parent → size_of t ≡ 0

  pub bu_phase-Phased :
      (fuel old : ℕ) (s : State G Q F)
      → Fronted s
      → 0 < old
      → unvisited s.search.parent < fuel
      → (t : State G Q F) × (bu_phase reader fronts n beta fuel old s ≡ some t) × Phased s t
  unfolding bu_phase step
  bu_phase-Phased zero old s v pos h = absurd (omega (arith, h))
  bu_phase-Phased (suc fuel) old s v pos h =
      let r = bu_step reader fronts n s in
      let valid : Fronted r.0 =
        step-IsFront reader fronts n source next IsReady bits reads inside both_ways s v in
      let (reached, counted, same) =
        step-count reader fronts n source next IsReady bits reads inside both_ways s v in
      elim (Bool-cases (leb old r.1 || ltb (n / beta) r.1)) [
        | inr stop ↦ (
          r.0,
          rw stop,
          record {
            valid = valid;
            queue = same;
            fewer = omega (arith, reached, counted);
            idle = λ e. omega (arith, reached, counted, e);
          },
        )
        | inl again ↦
            let awake : 0 < r.1 = ground (arith, again, pos) in
            let (t, run, p) =
              bu_phase-Phased fuel r.1 r.0 valid awake (omega (arith, reached, awake, h)) in
            (
              t,
              rw again run,
              record {
                valid = p.valid;
                queue = p.queue ∙ same;
                fewer = omega (arith, reached, p.fewer);
                idle = λ e. absurd (omega (arith, reached, p.fewer, awake, e));
              },
            )
      ]
