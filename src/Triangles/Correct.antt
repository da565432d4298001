-- ===== src/Triangles/Correct.antt =====
-- `OrderedCount` of src/GAPBS/tc.cc counts each triangle once.
use radix_graph.Base.{
  ℕ, zero, suc, ◌+◌, ◌*◌, ◌≡◌, refl, ap, ◌∙◌, sym, Bool, true, false, ◌&&◌, bit, List, [], ◌∷◌,
  if◌then◌else◌, ltb, arith, Bool-cases, inl, inr, mem,
}
use radix_graph.Base.Sums.{
  sum_below, sum_below_add, sum_below_ext, sum_below-none, sum_below_times, sum_below-bit,
}
use radix_graph.Reader.{Reader, ReaderLaws, times}
use radix_graph.Reader.Laws.{mem-times}
use radix_graph.Triangles.{neighbours_of, count_common, count_vertex, count_vertices, ordered_count}
use radix_graph.Triangles.Laws.{AllFrom, AllFrom-le, IsSorted, common, count_common-common}

-- What std::sort is asked for.
pub record SortLaws (sort : List ℕ → List ℕ) : Type 0 where
  pub sorted : (l : List ℕ) → IsSorted (sort l)
  pub same : (v : ℕ) (l : List ℕ) → times v (sort l) ≡ times v l

-- A sum over the entries of a list below n.
abbrev pub sum_list : (ℕ → ℕ) → ℕ → List ℕ → ℕ
sum_list h n [] = 0
sum_list h n (w ∷ ws) = (if ltb w n then h w else 0) + sum_list h n ws

sum_list-times :
    (h : ℕ → ℕ) (n : ℕ) (ws : List ℕ) → sum_list h n ws ≡ sum_below (λ i. times i ws * h i) n
sum_list-times h n [] = sym (sum_below_ext _ (λ i. 0) n (λ i lt. omega arith) ∙ sum_below-none n)
sum_list-times h n (w ∷ ws) =
    ap (λ k. (if ltb w n then h w else 0) + k) (sum_list-times h n ws)
    ∙ sym (sum_below_times h w n (λ i. times i ws))

-- Over a list that has each neighbour once.
sum_list-next :
    (f : ℕ → Bool) (h : ℕ → ℕ) (n : ℕ) (ws : List ℕ)
    → ((v : ℕ) → times v ws ≡ bit (f v))
    → sum_list h n ws ≡ sum_below (λ i. bit (f i) * h i) n
sum_list-next f h n ws shows =
    sum_list-times h n ws ∙ sum_below_ext _ _ n (λ i lt. ap (λ t. t * h i) (shows i))

sum_list-above : (h : ℕ → ℕ) (n : ℕ) (ws : List ℕ) → AllFrom n ws → sum_list h n ws ≡ 0
sum_list-above h n [] all = refl
sum_list-above h n (w ∷ ws) all = ground (arith, all.0, sum_list-above h n ws all.1)

common-sum_list :
    (f : ℕ → Bool) (v : ℕ) (ws ys : List ℕ)
    → ((w : ℕ) → mem w ys ≡ f w)
    → common v ws ys ≡ sum_list (λ w. bit (f w)) (suc v) ws
common-sum_list f v [] ys shows = refl
common-sum_list f v (w ∷ ws) ys shows = ground (arith, shows w, common-sum_list f v ws ys shows)

module _ (next : ℕ → ℕ → Bool) where
  -- The corners w of the triangles over u and v, and the triangles: u, v and w in order.
  abbrev pub corners : ℕ → ℕ → ℕ
  corners u v = sum_below (λ w. bit (next u v && (next u w && next v w))) (suc v)

  abbrev pub triangles : ℕ → ℕ
  triangles n = sum_below (λ u. sum_below (corners u) (suc u)) n

  -- The cliques of three vertices u > v > w.
  abbrev pub cliques : ℕ → ℕ
  cliques n =
      sum_below
        (λ u. sum_below (λ v. sum_below (λ w. bit (next u v && (next u w && next v w))) v) u) n

  -- What stands for no clique: w is v, which has an edge to itself, or v is u, which has one.
  abbrev pub looped : ℕ → ℕ
  looped n =
      sum_below
        (λ u.
          sum_below (λ v. bit (next u v && next v v)) u
          + sum_below (λ w. bit (next u u && next u w)) (suc u))
        n

  twice : (a b : Bool) → bit (a && (a && b)) ≡ bit (a && b)
  twice true b = refl
  twice false b = refl

  again : (a b : Bool) → bit (a && (b && b)) ≡ bit (a && b)
  again true true = refl
  again true false = refl
  again false b = refl

  corners-split :
      (u : ℕ)
      → sum_below (corners u) (suc u)
        ≡ sum_below (λ v. sum_below (λ w. bit (next u v && (next u w && next v w))) v) u
          + (sum_below (λ v. bit (next u v && next v v)) u
              + sum_below (λ w. bit (next u u && next u w)) (suc u))
  corners-split u =
      let strict : ℕ → ℕ = λ v. sum_below (λ w. bit (next u v && (next u w && next v w))) v in
      let last : ℕ → ℕ = λ v. bit (next u v && (next u v && next v v)) in
      let below = sum_below_add strict last u in
      let same =
        sum_below_ext last (λ v. bit (next u v && next v v)) u
          (λ v lt. twice (next u v) (next v v)) in
      let at_u =
        sum_below_ext (λ w. bit (next u u && (next u w && next u w)))
          (λ w. bit (next u u && next u w)) (suc u) (λ w lt. again (next u u) (next u w)) in
      omega (arith, below, same, at_u)

  triangles-split : (n : ℕ) → triangles n ≡ cliques n + looped n
  triangles-split n = sum_below_ext _ _ n (λ u lt. corners-split u) ∙ sum_below_add _ _ n

  -- Those over u and v, if they are neighbours.
  abbrev merged : ℕ → ℕ → ℕ
  merged u v = sum_below (λ w. bit (next u w && next v w)) (suc v)

  merged-corners : (u v : ℕ) → bit (next u v) * merged u v ≡ corners u v
  merged-corners u v = sym (sum_below-bit (next u v) (λ w. next u w && next v w) (suc v))

  count_common-merged :
      (u v : ℕ) (ws ys : List ℕ)
      → IsSorted ws
      → IsSorted ys
      → ((w : ℕ) → times w ws ≡ bit (next u w))
      → ((w : ℕ) → times w ys ≡ bit (next v w))
      → count_common v ws ys ≡ merged u v
  count_common-merged u v ws ys s t first second =
      count_common-common v ws ys s t
      ∙ common-sum_list (next v) v ws ys (λ w. mem-times w ys (next v w) (second w))
      ∙ sum_list-next (next u) (λ w. bit (next v w)) (suc v) ws first
      ∙ sum_below_ext _ _ (suc v) (λ w lt. both (next u w) (next v w))
    where
      both : (a b : Bool) → bit a * bit b ≡ bit (a && b)
      both true b = omega arith
      both false b = omega arith

module _ {G : Type 0} (reader : Reader G) (sort : List ℕ → List ℕ) (sorts : SortLaws sort)
    (next : ℕ → ℕ → Bool) (IsReady : G → Type 0) (reads : ReaderLaws reader IsReady next)
    (is_sorted : Bool)
    (in_order : is_sorted ≡ true
      → (g : G) → IsReady g
      → (u : ℕ) → IsSorted (reader.read g u).1) where
  -- The outcome of a read with its sort.
  record Listed (u : ℕ) (res : G × List ℕ) : Type 0 where
    ready : IsReady res.0
    sorted : IsSorted res.1
    shows : (v : ℕ) → times v res.1 ≡ bit (next u v)

  neighbours_of-Listed :
      (g : G) → IsReady g → (u : ℕ) → Listed u (neighbours_of reader sort is_sorted g u)
  unfolding neighbours_of
  neighbours_of-Listed g ready u = elim (Bool-cases is_sorted) [
    | inl comes ↦ rw comes (record {
      ready = reads.kept g ready u;
      sorted = in_order comes g ready u;
      shows = reads.shows g ready u;
    })
    | inr not_yet ↦ rw not_yet (record {
      ready = reads.kept g ready u;
      sorted = sorts.sorted _;
      shows = λ v. sorts.same v _ ∙ reads.shows g ready u v;
    })
  ]

  module _ (u : ℕ) (ws : List ℕ) (s : IsSorted ws)
      (shows : (v : ℕ) → times v ws ≡ bit (next u v)) where
    count_vertex-merged :
        (g : G) (es : List ℕ)
        → IsReady g
        → IsSorted es
        → IsReady (count_vertex reader sort is_sorted u ws g es).0
          × ((count_vertex reader sort is_sorted u ws g es).1 ≡ sum_list (merged next u) (suc u) es)
    unfolding count_vertex
    count_vertex-merged g [] ready t = (ready, refl)
    count_vertex-merged g (v ∷ es) ready t =
        let read = neighbours_of-Listed g ready v in
        let (after, rest) =
          count_vertex-merged (neighbours_of reader sort is_sorted g v).0 es read.ready t.1 in
        elim (Bool-cases (ltb u v)) [
          | inl above ↦ rw above (
            ready,
            sym (
                sum_list-above (merged next u) (suc u) (v ∷ es)
                  (ground (arith, above), AllFrom-le (suc u) v es (ground (arith, above)) t.0)),
          )
          | inr below ↦
              let lt : ltb v (suc u) ≡ true = ground (arith, below) in
              let here =
                count_common-merged next u v ws (neighbours_of reader sort is_sorted g v).1 s
                  read.sorted shows read.shows in
              rw (below, lt) (after, omega (arith, here, rest))
        ]

  count_vertices-triangles :
      (left u : ℕ) (g : G)
      → IsReady g
      → IsReady (count_vertices reader sort is_sorted left u g).0
        × (triangles next u + (count_vertices reader sort is_sorted left u g).1
            ≡ triangles next (u + left))
  unfolding count_vertices
  count_vertices-triangles zero u g ready =
      (ready, let e : u + 0 ≡ u = omega arith in rw e (omega arith))
  count_vertices-triangles (suc left) u g ready =
      let read = neighbours_of-Listed g ready u in
      let (g1, ws) = neighbours_of reader sort is_sorted g u in
      let (after, here) =
        count_vertex-merged u ws read.sorted read.shows g1 ws read.ready read.sorted in
      let (last, rest) =
        count_vertices-triangles left (u + 1) (count_vertex reader sort is_sorted u ws g1 ws).0
          after in
      let at_u =
        here
        ∙ sum_list-next (next u) (merged next u) (suc u) ws read.shows
        ∙ sum_below_ext _ _ (suc u) (λ v lt. merged-corners next u v) in
      let e : u + suc left ≡ u + 1 + left = omega arith in
      let plus_one : u + 1 ≡ suc u = omega arith in
      let next_u : triangles next (u + 1) ≡ triangles next u + sum_below (corners next u) (suc u) =
        ap (triangles next) plus_one in
      (last, rw e (omega (arith, at_u, rest, next_u)))

module _ {G : Type 0} (reader : Reader G) (sort : List ℕ → List ℕ) (sorts : SortLaws sort)
    (next : ℕ → ℕ → Bool) (IsReady : G → Type 0) (reads : ReaderLaws reader IsReady next) where
  pub ordered_count-cliques_reads :
      (g : G)
      → IsReady g
      → (reader.is_sorted g ≡ true → (h : G) → IsReady h → (u : ℕ) → IsSorted (reader.read h u).1)
      → (num_vertices : ℕ)
      → IsReady (ordered_count reader sort g num_vertices).0
        × ((ordered_count reader sort g num_vertices).1
            ≡ cliques next num_vertices + looped next num_vertices)
  unfolding ordered_count
  ordered_count-cliques_reads g ready in_order num_vertices =
      let (after, counted) =
        count_vertices-triangles reader sort sorts next IsReady reads (reader.is_sorted g) in_order
          num_vertices 0 g ready in
      let e : 0 + num_vertices ≡ num_vertices = omega arith in
      let total = ap (triangles next) e in
      (after, omega (arith, counted, total) ∙ triangles-split next num_vertices)
