-- ===== src/Bfs/BottomUp.antt =====
-- `BUStep` of src/GAPBS/bfs.cc.
use mathlib.Core.Option.{some-injective}
use radix_graph.Base.{
  ℕ, zero, suc, ◌+◌, ◌≤◌, ◌<◌, ◌≡◌, ◌⊎◌, refl, ap, ◌∙◌, sym, subst, Bool, true, false, ◌||◌, Option,
  none, some, List, [], ◌∷◌, length, set, if◌then◌else◌, arith, Bool-cases, Option-cases, inl, inr,
  ◌==◌, ==→≡, ==_refl, mem,
}
use radix_graph.Base.Counts.{count, count-update, count_ext, update}
use radix_graph.Reader.{Reader, ReaderLaws}
use radix_graph.Reader.Laws.{mem-times}
use radix_graph.Bfs.{Wave, visited, first_in_front, wake, bu_vertex, bu_loop}
use radix_graph.Bfs.Stores.{Front, FrontLaws}
use radix_graph.Bfs.Parents.{
  unvisited, unvisited-set, visited-set, visited_new, visited_old, visited_self, IsTree, IsTree-set,
}

module _ {F : Type 0} (fronts : Front F) (front : F) where
  -- The neighbour that the loop stops at.
  first_in_front-none :
      (l : List ℕ)
      → first_in_front fronts front l ≡ none
      → (v : ℕ) → mem v l ≡ true
      → fronts.get_bit front v ≡ false
  unfolding first_in_front
  first_in_front-none [] e v m = absurd (cc)
  first_in_front-none (x ∷ l) e v m = elim (Bool-cases (fronts.get_bit front x)) [
    | inl hit ↦ absurd (some_ne_none (rw hit at e))
    | inr miss ↦ elim (Bool-cases (v == x)) [
      | inl same ↦ subst (λ k. fronts.get_bit front k ≡ false) (sym (==→≡ _ _ same)) miss
      | inr other ↦ first_in_front-none l (rw miss at e) v (rw other at m)
    ]
  ]
    where
      some_ne_none : {A : Type 0} {a : A} → some a ≡ none → ⊥
      some_ne_none e = cc

  first_in_front-some :
      (l : List ℕ) (v : ℕ)
      → first_in_front fronts front l ≡ some v
      → (mem v l ≡ true) × (fronts.get_bit front v ≡ true)
  unfolding first_in_front
  first_in_front-some [] v e = absurd (cc)
  first_in_front-some (x ∷ l) v e = elim (Bool-cases (fronts.get_bit front x)) [
    | inl hit ↦
        let same : x ≡ v = some-injective x v (rw hit at e) in
        subst (λ k. (mem k (x ∷ l) ≡ true) × (fronts.get_bit front k ≡ true)) same
          (rw (==_refl x), hit)
    | inr miss ↦
        let rest = first_in_front-some l v (rw miss at e) in (ground (arith, rest.0), rest.1)
  ]

module _ {G F : Type 0} (reader : Reader G) (fronts : Front F) (n source : ℕ) (next : ℕ → ℕ → Bool)
    (IsReady : G → Type 0) (bits : FrontLaws fronts n) (reads : ReaderLaws reader IsReady next)
    (inside : (u v : ℕ) → next u v ≡ true → v < n) (both_ways : (u v : ℕ) → next u v ≡ next v u)
    (front : F) (before : List (Option ℕ))
    (in_front : (q : ℕ) → q < n → fronts.get_bit front q ≡ true → visited before q ≡ true) where
  -- What the loop has done before vertex i.
  pub record IsWave (i : ℕ) (s : Wave G F) : Type 0 where
    pub ready : IsReady s.g
    pub tree : IsTree next source n s.parent
    pub grows : (w : ℕ) → visited before w ≡ true → visited s.parent w ≡ true
    pub marked : (q : ℕ) → q < n → fronts.get_bit s.next q ≡ true → visited s.parent q ≡ true
    pub new :
        (w : ℕ)
        → visited s.parent w ≡ true
        → (visited before w ≡ true) ⊎ ((w < n) × (fronts.get_bit s.next w ≡ true))
    pub ahead : (q : ℕ) → q < n → i ≤ q → fronts.get_bit s.next q ≡ false
    pub done :
        (j : ℕ)
        → j < i
        → visited s.parent j ≡ false
        → (v : ℕ) → next j v ≡ true
        → fronts.get_bit front v ≡ false
    pub awake : s.awake_count + unvisited s.parent ≡ unvisited before
    pub counted : count (fronts.get_bit s.next) n ≡ s.awake_count

  module _ (i : ℕ) (lt : i < n) (s : Wave G F) (w : IsWave i s)
      (fresh : visited s.parent i ≡ false) where
    read_g : G
    read_g = (reader.read s.g i).0

    list : List ℕ
    list = (reader.read s.g i).1

    shown : (v : ℕ) → mem v list ≡ next i v
    unfolding list
    shown v = mem-times v (reader.read s.g i).1 (next i v) (reads.shows s.g w.ready i v)

    -- No neighbour is in the front.
    asleep-IsWave :
        first_in_front fronts front list ≡ none → IsWave (i + 1) (record s { g = read_g })
    unfolding read_g
    asleep-IsWave e = record {
      ready = reads.kept s.g w.ready i;
      tree = w.tree;
      grows = w.grows;
      marked = w.marked;
      new = w.new;
      ahead = λ q below h. w.ahead q below (omega (arith, h));
      done = λ j h off v edge. elim (Bool-cases (j == i)) [
        | inl same ↦
            first_in_front-none fronts front list e v
              (shown v ∙ subst (λ k. next k v ≡ true) (==→≡ _ _ same) edge)
        | inr other ↦ w.done j (ground (arith, h, other)) off v edge
      ];
      awake = w.awake;
      counted = w.counted;
    }

    module _ (v : ℕ) (e : first_in_front fronts front list ≡ some v) where
      hit : (next i v ≡ true) × (fronts.get_bit front v ≡ true)
      hit = let f = first_in_front-some fronts front list v e in (sym (shown v) ∙ f.0, f.1)

      room : i < length s.parent
      room = omega (arith, lt, w.tree.sized)

      bit_set :
          (q : ℕ)
          → q < n
          → fronts.get_bit (fronts.set_bit s.next i) q ≡ ((i == q) || fronts.get_bit s.next q)
      bit_set q below = bits.get_set s.next i q lt below

      one_more : count (fronts.get_bit (fronts.set_bit s.next i)) n ≡ s.awake_count + 1
      one_more =
          count_ext (fronts.get_bit (fronts.set_bit s.next i))
            (update (fronts.get_bit s.next) i true) n
            (λ q below. bit_set q below ∙ or_if (i == q) (fronts.get_bit s.next q))
          ∙ count-update (fronts.get_bit s.next) n i lt (w.ahead i lt (omega arith))
          ∙ ap (λ (k : ℕ). k + 1) w.counted
        where
          or_if : (b c : Bool) → (b || c) ≡ (if b then true else c)
          or_if true c = refl
          or_if false c = refl

      woken-IsWave : IsWave (i + 1) (wake fronts i (record s { g = read_g }) (some v))
      unfolding wake read_g
      woken-IsWave =
          let fewer = unvisited-set s.parent i v room fresh in
          let from = w.grows v (in_front v (inside i v hit.0) hit.1) in
          record {
            ready = reads.kept s.g w.ready i;
            tree =
                IsTree-set next source n s.parent i v w.tree lt fresh from (both_ways v i ∙ hit.0);
            grows = λ x h. visited_old s.parent i v x room (w.grows x h);
            marked = λ q below h. elim (Bool-cases (i == q)) [
              | inl same ↦
                  subst (λ k. visited (set s.parent i (some v)) k ≡ true) (==→≡ _ _ same)
                    (visited_self s.parent i v room)
              | inr other ↦
                  visited_old s.parent i v q room
                    (w.marked q below (sym (bit_set q below ∙ (rw other)) ∙ h))
            ];
            new = λ x h. elim (visited_new s.parent i v x room h) [
              | inl same ↦ inr (
                  subst (λ k. (k < n) × (fronts.get_bit (fronts.set_bit s.next i) k ≡ true)) same
                    (lt, bit_set i lt ∙ (rw (==_refl i))))
              | inr old ↦ elim (w.new x old) [
                | inl older ↦ inl older
                | inr (below, is_set) ↦ inr (below, bit_set x below ∙ ground (arith, is_set))
              ]
            ];
            ahead = λ q below h.
                bit_set q below ∙ ground (arith, h, w.ahead q below (omega (arith, h)));
            done = λ j h off u edge. elim (Bool-cases (i == j)) [
              | inl same ↦ absurd (
                  true_ne_false (
                    sym (visited_self s.parent i v room)
                    ∙ ap (visited (set s.parent i (some v))) (==→≡ _ _ same)
                    ∙ off))
              | inr other ↦
                  w.done j (ground (arith, h, other))
                    (sym (visited-set s.parent i v j room ∙ (rw other)) ∙ off) u edge
            ];
            awake = omega (arith, fewer, w.awake);
            counted = one_more;
          }
        where
          true_ne_false : true ≡ false → ⊥
          true_ne_false e = cc

    fresh-IsWave : IsWave (i + 1) (bu_vertex reader fronts front i s)
    unfolding bu_vertex list read_g
    fresh-IsWave = elim (Option-cases (first_in_front fronts front list)) [
      | inl e ↦ rw (fresh, e) (unfold wake in asleep-IsWave e)
      | inr (v, e) ↦ rw (fresh, e) (woken-IsWave v e)
    ]

  bu_vertex-IsWave :
      (i : ℕ) (s : Wave G F)
      → i < n
      → IsWave i s
      → IsWave (i + 1) (bu_vertex reader fronts front i s)
  unfolding bu_vertex
  bu_vertex-IsWave i s lt w = elim (Bool-cases (visited s.parent i)) [
    | inr fresh ↦ fresh-IsWave i lt s w fresh
    | inl old ↦ rw old (record {
      ready = w.ready;
      tree = w.tree;
      grows = w.grows;
      marked = w.marked;
      new = w.new;
      ahead = λ q below h. w.ahead q below (omega (arith, h));
      done = λ j h off v edge. elim (Bool-cases (j == i)) [
        | inl same ↦
            absurd (true_ne_false (sym old ∙ ap (visited s.parent) (sym (==→≡ _ _ same)) ∙ off))
        | inr other ↦ w.done j (ground (arith, h, other)) off v edge
      ];
      awake = w.awake;
      counted = w.counted;
    })
  ]
    where
      true_ne_false : true ≡ false → ⊥
      true_ne_false e = cc

  pub bu_loop-IsWave :
      (left i : ℕ) (s : Wave G F)
      → left + i ≡ n
      → IsWave i s
      → IsWave n (bu_loop reader fronts front left i s)
  unfolding bu_loop
  bu_loop-IsWave zero i s e w = let end : i ≡ n = omega (arith, e) in subst (λ k. IsWave k s) end w
  bu_loop-IsWave (suc left) i s e w =
      bu_loop-IsWave left (i + 1) (bu_vertex reader fronts front i s) (omega (arith, e))
        (bu_vertex-IsWave i s (omega (arith, e)) w)
