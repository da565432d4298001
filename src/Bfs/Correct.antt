-- ===== src/Bfs/Correct.antt =====
-- `DOBFS` of src/GAPBS/bfs.cc ends, and finds exactly what can be reached.
use radix_graph.Base.{
  ℕ, zero, suc, ◌<◌, ◌≡◌, refl, ap, ◌∙◌, sym, subst, Bool, true, false, Option, none, some, ◌>>=◌,
  List, [], ◌∷◌, ◌++◌, length, set, replicate, if◌then◌else◌, arith, Bool-cases, inl, inr, ==→≡,
  ==_refl, mem, List-cases, pos, length-replicate, get_or-replicate,
}
use radix_graph.Reader.{Reader, ReaderLaws}
use radix_graph.Bfs.{
  State, is_visited, visited, exceeds, bottom_up, top_down, search_loop, search_from, dobfs,
}
use radix_graph.Bfs.Stores.{Queue, QueueLaws, Front, FrontLaws}
use radix_graph.Bfs.Parents.{
  unvisited, unvisited-replicate, unvisited-set, visited_new, IsTree-start, Found, Reach, here,
  step,
}
use radix_graph.Bfs.Laws.{IsHead, Advances, top_down-IsHead, bottom_up-IsHead}

module _ {G Q F : Type 0} (reader : Reader G) (queue : Queue Q) (fronts : Front F)
    (n alpha beta source : ℕ) (next : ℕ → ℕ → Bool) (IsReady : G → Type 0)
    (queues : QueueLaws queue n) (bits : FrontLaws fronts n)
    (reads : ReaderLaws reader IsReady next) (inside : (u v : ℕ) → next u v ≡ true → v < n)
    (both_ways : (u v : ℕ) → next u v ≡ next v u) where
  abbrev AtHead : State G Q F → Type 0
  AtHead = IsHead reader queue fronts n source next IsReady queues bits reads inside

  abbrev Ahead : State G Q F → State G Q F → Type 0
  Ahead = Advances reader queue fronts n source next IsReady queues bits reads inside

  -- A round of the loop.
  round : State G Q F → Option (State G Q F)
  round s =
      if exceeds s.search.scout_count s.edges_to_check alpha
      then bottom_up reader queue fronts n beta (suc n) s
      else some (top_down reader queue s)

  round-IsHead :
      (s : State G Q F)
      → AtHead s
      → 0 < length (queue.window s.search.queue)
      → (t : State G Q F) × (round s ≡ some t) × AtHead t × Ahead s t
  unfolding round
  round-IsHead s v some_waiting =
      elim (Bool-cases (exceeds s.search.scout_count s.edges_to_check alpha)) [
        | inl bottom ↦
            let (t, run, valid, ahead) =
              bottom_up-IsHead reader queue fronts n alpha beta source next IsReady queues bits
                reads inside both_ways s v some_waiting in
            (t, rw bottom run, valid, ahead)
        | inr top ↦
            let (valid, ahead) =
              top_down-IsHead reader queue fronts n source next IsReady queues bits reads inside s
                v in
            (top_down reader queue s, rw top, valid, ahead)
      ]

  loop_empty :
      (fuel : ℕ) (s : State G Q F)
      → queue.window s.search.queue ≡ []
      → search_loop reader queue fronts n alpha beta fuel s ≡ some s
  unfolding search_loop
  loop_empty zero s e = rw (e, search_loop)
  loop_empty (suc fuel) s e = rw (e, search_loop)

  loop_round :
      (fuel : ℕ) (s t u : State G Q F) (v : ℕ) (rest : List ℕ)
      → queue.window s.search.queue ≡ v ∷ rest
      → round s ≡ some t
      → search_loop reader queue fronts n alpha beta fuel t ≡ some u
      → search_loop reader queue fronts n alpha beta (suc fuel) s ≡ some u
  unfolding search_loop round
  loop_round fuel s t u v rest e run after =
      let again = search_loop reader queue fronts n alpha beta fuel in
      waits (queue.window s.search.queue) e ∙ ap (λ o. o >>= again) run ∙ after
    where
      waits :
          (l : List ℕ)
          → l ≡ v ∷ rest
          → (elim l [
            | [] ↦ some s
            | x ∷ xs ↦ round s >>= search_loop reader queue fronts n alpha beta fuel
          ])
            ≡ (round s >>= search_loop reader queue fronts n alpha beta fuel)
      waits [] h = absurd (cc)
      waits (x ∷ xs) h = refl

  search_loop-IsHead :
      (fuel : ℕ) (s : State G Q F)
      → AtHead s
      → unvisited s.search.parent < fuel
      → (t : State G Q F) × (search_loop reader queue fronts n alpha beta fuel s ≡ some t)
        × AtHead t
        × (queue.window t.search.queue ≡ [])
  search_loop-IsHead zero s v h = absurd (omega (arith, h))
  search_loop-IsHead (suc fuel) s v h = elim (List-cases (queue.window s.search.queue)) [
    | inl e ↦ (s, loop_empty (suc fuel) s e, v, e)
    | inr (x, rest, e) ↦
        let (t, run, valid, ahead) = round-IsHead s v (rw e (omega arith)) in
        elim ahead [
          | inr e' ↦ (t, loop_round fuel s t t x rest e run (loop_empty fuel t e'), valid, e')
          | inl fewer ↦
              let (u, after, valid', e') =
                search_loop-IsHead fuel t valid (omega (arith, fewer, h)) in
              (u, loop_round fuel s t u x rest e run after, valid', e')
        ]
  ]

  complete_of :
      (t : State G Q F)
      → AtHead t
      → queue.window t.search.queue ≡ []
      → (v : ℕ) → Reach next source v
      → visited t.search.parent v ≡ true
  complete_of t valid e v here = ap is_visited valid.search.tree.root
  complete_of t valid e v (step {u} r edge) =
      elim (valid.closed u v (complete_of t valid e u r) edge) [
        | inl waits ↦ absurd (false_ne_true (sym (ap (mem u) e) ∙ waits))
        | inr done ↦ done
      ]
    where
      false_ne_true : false ≡ true → ⊥
      false_ne_true e = cc

  module _ (g : G) (ready : IsReady g) (edge_num : ℕ) (src_out_degree : Option ℕ)
      (in_graph : source < n) where
    abbrev start : State G Q F
    start = record {
      search = record {
        g = g;
        parent = set (replicate n none) source (some source);
        queue = queue.slide_window (queue.push_back (queue.new n) source);
        scout_count = elim src_out_degree [ none ↦ reader.degree g source | some d ↦ d ];
      };
      front = fronts.reset (fronts.new n);
      curr = fronts.reset (fronts.new n);
      edges_to_check = pos edge_num;
    }

    start-IsHead : AtHead start
    start-IsHead =
        let blank : List (Option ℕ) = replicate n none in
        let size : length blank ≡ n = length-replicate n none in
        let inside_blank : source < length blank = omega (arith, size, in_graph) in
        let one_less = unvisited-set blank source source inside_blank (none_yet source) in
        let push = queues.push (queue.new n) source (omega (arith, queues.empty.2, in_graph)) in
        let slide = queues.slide (queue.push_back (queue.new n) source) in
        let window : queue.window start.search.queue ≡ source ∷ [] =
          slide.0 ∙ push.1 ∙ ap (λ l. l ++ source ∷ []) queues.empty.1 in
        let tree = IsTree-start next source n in_graph in
        record {
          search = record {
            ready = ready;
            tree = tree;
            room = omega (arith, slide.2, push.2, queues.empty.2, one_less, unvisited-replicate n);
            queued = λ w e. absurd (not_in_nil w (sym (ap (mem w) slide.1) ∙ e));
          };
          idle = slide.1;
          waiting = λ u e.
              let here : source ≡ u = member_of_one u (sym (ap (mem u) window) ∙ e) in
              subst (λ k. visited start.search.parent k ≡ true) here (ap is_visited tree.root);
          closed = λ u v e edge. elim (visited_new blank source source u inside_blank e) [
            | inl same ↦
                inl (ap (mem u) window ∙ subst (λ k. mem k (source ∷ []) ≡ true) same one_of_one)
            | inr old ↦ absurd (true_ne_false (sym old ∙ none_yet u))
          ];
          in_front = λ q lt e. absurd (true_ne_false (sym e ∙ bits.get_reset (fronts.new n) q lt));
        }
      where
        not_in_nil : (u : ℕ) → mem u [] ≡ true → ⊥
        not_in_nil u e = cc

        true_ne_false : true ≡ false → ⊥
        true_ne_false e = cc

        none_yet : (w : ℕ) → visited (replicate n none) w ≡ false
        none_yet w = ap is_visited (get_or-replicate n w none)

        one_of_one : mem source (source ∷ []) ≡ true
        one_of_one = rw (==_refl source)

        member_of_one : (u : ℕ) → mem u (source ∷ []) ≡ true → source ≡ u
        member_of_one u e = sym (==→≡ u source (ground (arith, e)))

    pub dobfs-Found_reads :
        (g0 : G) (id : ℕ)
        → reader.find g0 id ≡ (g, some source)
        → (h : G) × (parent : List (Option ℕ)) × (dobfs reader queue fronts n alpha beta
              (suc n)
              g0
              id
              edge_num
              src_out_degree
            ≡ some (h, parent))
          × IsReady h
          × Found next source n parent
    unfolding dobfs search_from
    dobfs-Found_reads g0 id there =
        let few : unvisited start.search.parent < suc n = omega (arith, start-IsHead.search.room) in
        let (t, run, valid, e) = search_loop-IsHead (suc n) start start-IsHead few in
        (
          t.search.g,
          t.search.parent,
          ap
                (λ r.
                  r.1
                  >>= search_from reader queue fronts n alpha beta (suc n) edge_num src_out_degree
                      r.0)
                there
              ∙ (rw run),
          valid.search.ready,
          record { tree = valid.search.tree; complete = complete_of t valid e },
        )
