-- ===== src/AdjacencyArray2/Construct.antt =====
-- The constructor fills `heads_` so that the positions of a node's edges lead back to it.
use cpp_suitor_and_local_dom.Base.{ℕ, suc, ◌+◌, ◌≤◌, ◌<◌, ◌≡◌, refl, [], ◌∷◌, arith, update}
use cpp_suitor_and_local_dom.EdgeList.{EdgeList}
use cpp_suitor_and_local_dom.EdgeList.Sort.{sort, IsSorted, FromAtLeast-mono, sort-IsSorted}
use cpp_suitor_and_local_dom.AdjacencyArray.{construct, begin_edges, end_edges}
use cpp_suitor_and_local_dom.AdjacencyArray.Slices.{below, below-eq-zero, below-le, below-le-count}
use cpp_suitor_and_local_dom.AdjacencyArray.Correct.{
  IsFitting, index-eq-below, end-eq-below, count-sort,
}
use cpp_suitor_and_local_dom.AdjacencyArray2.{write_heads, construct2}
use cpp_suitor_and_local_dom.AdjacencyArray2.Positions.{IsIndexed}

abbrev HeadsStored : (ℕ → ℕ) → ℕ → EdgeList → Type 0
HeadsStored heads at [] = Unit
HeadsStored heads at (e ∷ es) = (heads at ≡ e.from) × HeadsStored heads (suc at) es

write_heads-frozen :
    (es : EdgeList) (heads : ℕ → ℕ) (at j : ℕ) → j < at → write_heads heads at es j ≡ heads j
unfolding write_heads
write_heads-frozen [] heads at j lt = refl
write_heads-frozen (e ∷ es) heads at j lt =
    ground (arith, write_heads-frozen es (update heads at e.from) (suc at) j)

write_heads-HeadsStored :
    (es : EdgeList) (heads : ℕ → ℕ) (at : ℕ) → HeadsStored (write_heads heads at es) at es
unfolding write_heads
write_heads-HeadsStored [] heads at = tt
write_heads-HeadsStored (e ∷ es) heads at = (
  ground (arith, write_heads-frozen es (update heads at e.from) (suc at) at),
  write_heads-HeadsStored es (update heads at e.from) (suc at),
)

head_between :
    (heads : ℕ → ℕ) (u at : ℕ) (es : EdgeList) (p : ℕ)
    → HeadsStored heads at es
    → IsSorted es
    → at + below u es ≤ p
    → p < at + below (suc u) es
    → heads p ≡ u
head_between heads u at [] p st so ge lt = absurd (omega arith)
head_between heads u at (e ∷ es) p (h, st) (ge_e, so) ge lt = ground (
  arith,
  head_between heads u (suc at) es p st so,
  FromAtLeast-mono (suc u) e.from es,
  FromAtLeast-mono u e.from es,
  below-eq-zero u es,
  below-eq-zero (suc u) es,
)

-- For an edge list whose indices are below `num_nodes` and that has an edge at the last node, the
-- positions between `beginEdges(u)` and `endEdges(u)` lie in the array, in order, and `edgeHead`
-- leads from each of them back to `u`.
pub construct2-IsIndexed :
    (num_nodes : ℕ) (es : EdgeList) → IsFitting num_nodes es → IsIndexed (construct2 num_nodes es)
unfolding construct2 construct begin_edges
construct2-IsIndexed num_nodes es fits = record {
  forwards = λ u lt. omega (arith, at_begin u lt, at_end u lt, below-le u (sort es));
  inside = λ u lt. omega (arith, at_end u lt, below-le-count (suc u) (sort es), count-sort es);
  head_at = λ u e lt ge less.
      head_between (write_heads (λ _. 0) 0 (sort es)) u 0 (sort es) e
        (write_heads-HeadsStored (sort es) (λ _. 0) 0) (sort-IsSorted es)
        (omega (arith, at_begin u lt)) (omega (arith, at_end u lt));
}
  where
    at_begin : (u : ℕ) → u < num_nodes → begin_edges (construct num_nodes es) u ≡ below u (sort es)
    at_begin u lt = index-eq-below num_nodes es fits u lt

    at_end :
        (u : ℕ) → u < num_nodes → end_edges (construct num_nodes es) u ≡ below (suc u) (sort es)
    at_end u lt = end-eq-below num_nodes es fits u lt
