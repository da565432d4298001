-- ===== src/Components.antt =====
-- The connected components of src/GAPBS/cc_sv.cc, on one thread. `reader.read` is the lookup of a
-- vertex by ID with the read of its neighbours, empty for a missing vertex, which the code skips.
pub mod Labels
pub mod Hooks
pub mod Compress
pub mod Correct
pub mod OnGraph
use radix_graph.Base.{
  ℕ, zero, suc, ◌+◌, ◌-◌, ◌%◌, Bool, true, false, Option, none, some, ◌>>=◌, List, [], ◌∷◌, get_or,
  set, if◌then◌else◌, ltb, ◌==◌,
}
use radix_graph.Reader.{Reader}

abbrev pub at : List ℕ → ℕ → ℕ
at comp i = get_or comp i 0

-- `comp[n] = n`, for the entries from n on.
abbrev pub init_comp : ℕ → ℕ → List ℕ
init_comp zero n = []
init_comp (suc left) n = n ∷ init_comp left (n + 1)

pub record Pass : Type 0 where
  pub comp : List ℕ
  pub change : Bool

abbrev pub high_comp : ℕ → ℕ → ℕ
high_comp comp_u comp_v = if ltb comp_v comp_u then comp_u else comp_v

-- `comp_u + (comp_v - high_comp)`, on 32 bits.
abbrev pub low_comp : ℕ → ℕ → ℕ
low_comp comp_u comp_v =
    (comp_u + (comp_v + (4294967296 - high_comp comp_u comp_v)) % 4294967296) % 4294967296

-- The body of the loop over e.
unfoldable pub hook : ℕ → ℕ → Pass → Pass
hook n v s =
    let comp_u = at s.comp n in
    let comp_v = at s.comp v in
    let high = high_comp comp_u comp_v in
    if comp_u == comp_v
    then s
    else if high == at s.comp high
    then record { comp = set s.comp high (low_comp comp_u comp_v); change = true }
    else s

unfoldable pub hook_all : ℕ → List ℕ → Pass → Pass
unfolding hook
hook_all n [] s = s
hook_all n (v ∷ neighbours) s = hook_all n neighbours (hook n v s)

-- The loop of the hooks from n on.
module _ {G : Type 0} (reader : Reader G) where
  unfoldable pub hook_from : ℕ → ℕ → G → Pass → G × Pass
  unfolding hook_all
  hook_from zero n g s = (g, s)
  hook_from (suc left) n g s =
      let (h, neighbours) = reader.read g n in hook_from left (n + 1) h (hook_all n neighbours s)

-- `while (comp[n] != comp[comp[n]])`
unfoldable pub compress_at : ℕ → ℕ → List ℕ → Option (List ℕ)
compress_at zero n comp = if at comp n == at comp (at comp n) then some comp else none
compress_at (suc fuel) n comp =
    let rest = compress_at fuel n (set comp n (at comp (at comp n))) in
    if at comp n == at comp (at comp n) then some comp else rest

-- The loop of the compression from n on. The vertices before n lead to their roots already, so
-- that one round for n is enough.
unfoldable pub compress_from : ℕ → ℕ → List ℕ → Option (List ℕ)
unfolding compress_at
compress_from zero n comp = some comp
compress_from (suc left) n comp = compress_at 1 n comp >>= compress_from left (n + 1)

module _ {G : Type 0} (reader : Reader G) (num_nodes : ℕ) where
  -- `while (change)`, from its body on.
  unfoldable pub component_loop : ℕ → G → List ℕ → Option (G × List ℕ)
  unfolding hook_from compress_from
  component_loop zero g comp = none
  component_loop (suc fuel) g comp = do
    let (h, s) = hook_from reader num_nodes 0 g (record { comp = comp; change = false })
    comp ← compress_from num_nodes 0 s.comp
    let rest = component_loop fuel h comp
    if s.change then rest else some (h, comp)

  unfoldable pub shiloach_vishkin : ℕ → G → Option (G × List ℕ)
  unfolding component_loop
  shiloach_vishkin fuel g = component_loop fuel g (init_comp num_nodes 0)
