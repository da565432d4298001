-- ===== src/Graph/Maintenance/Start.antt =====
-- A new graph of src/radixgraph.cpp, and one whose number of threads is set.
use radix_graph.Base.{
  ℕ, zero, suc, ◌<◌, ◌≡◌, refl, none, List, length, get_or, replicate, ◌==◌, arith, Bool-cases, inl,
  inr, length-replicate,
}
use radix_graph.Bitmap.Interface.{Bitmap, IsClean}
use radix_graph.Edges.{Weight, GlobalInfo}
use radix_graph.Graph.{Graph}
use radix_graph.Graph.Valid.{TableIsValid, IsValid, edge}
use radix_graph.Graph.Maintenance.{new, set_num_threads}
use radix_graph.Sort as SortIndex
use radix_graph.Sort.Config.{prune}
use radix_graph.Sort.Start.{new-IsValid}

module _ {A : Type 0} where
  get_or-replicate_lt : (n i : ℕ) (a d : A) → i < n → get_or (replicate n a) i d ≡ a
  get_or-replicate_lt zero i a d h = absurd (omega arith)
  get_or-replicate_lt (suc n) zero a d h = refl
  get_or-replicate_lt (suc n) (suc i) a d h = get_or-replicate_lt n i a d (omega arith)

module _ {R W B : Type 0} ⦃weight : Weight W⦄ ⦃bitmap : Bitmap B⦄ {IsClear : B → Type 0}
    (no_bits : B) (clean : IsClean bitmap IsClear no_bits) where
  -- The constructor of the graph from widths, not all of them 0, with bitmaps that are clean,
  -- makes a graph without edges that is in order for each of its threads.
  pub new-IsValid_empty :
      (two : R) (info : GlobalInfo) (widths : List ℕ) (num_threads thread : ℕ)
      → 0 < length (prune widths)
      → thread < num_threads
      → IsValid IsClear no_bits thread (new {W = W} no_bits two info widths num_threads)
        × ((a b : ℕ)
            → edge (new {W = W} no_bits two info widths num_threads).vertex_index a b ≡ none)
  unfolding new SortIndex.new
  new-IsValid_empty two info widths num_threads thread some_width enough =
      let (valid, missing) = new-IsValid {W = W} widths some_width in
      (
        record {
          table = record {
            index = valid;
            vertices = record {
              each = λ p h. absurd (omega arith);
              closed = λ p d h beyond. absurd (omega arith);
            };
          };
          has_bits = rw length-replicate enough;
          clean = rw (get_or-replicate_lt num_threads thread no_bits no_bits enough) clean;
        },
        λ a b. rw (missing a) refl,
      )

  -- `SetNumThreads` of a graph that is in order for each of its threads, where new bitmaps are
  -- clean, leaves one with that number of threads, with the same edges, that is in order for each
  -- of them.
  pub set_num_threads-IsValid :
      (g : Graph R W B) (nth thread : ℕ)
      → ((k : ℕ) → k < g.num_threads → IsValid IsClear no_bits k g)
      → TableIsValid g.vertex_index
      → thread < nth
      → IsValid IsClear no_bits thread (set_num_threads no_bits g nth)
        × ((a b : ℕ)
            → edge (set_num_threads no_bits g nth).vertex_index a b ≡ edge g.vertex_index a b)
        × ((set_num_threads no_bits g nth).num_threads ≡ nth)
  unfolding set_num_threads
  set_num_threads-IsValid g nth thread v table enough = elim (Bool-cases (g.num_threads == nth)) [
    | inl unchanged ↦ rw unchanged (v thread (ground arith), λ a b. refl, ground arith)
    | inr other ↦ rw other (
      record {
        table = table;
        has_bits = rw length-replicate enough;
        clean = rw (get_or-replicate_lt nth thread no_bits no_bits enough) clean;
      },
      λ a b. refl,
      refl,
    )
  ]
