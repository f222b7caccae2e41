-- ===== src/AdjacencyArray2.antt =====
-- implementation/graph2_adj_array.hpp: the adjacency array with `heads_`, for the lock-free suitor.
-- The pairs of `edges_` are the two arrays of `base`; `heads_` is written in the same loop.
pub mod Positions
pub mod Construct
use cpp_suitor_and_local_dom.Base.{
  ℕ, zero, suc, ◌+◌, List, [], ◌∷◌, Bool, ◌==◌, if◌then◌else◌, update,
}
use cpp_suitor_and_local_dom.EdgeList.{Edge, EdgeList}
use cpp_suitor_and_local_dom.EdgeList.Sort.{sort}
use cpp_suitor_and_local_dom.Graph.{Graph}
use cpp_suitor_and_local_dom.AdjacencyArray.{
  AdjacencyArray, construct, begin_edges, end_edges, to_graph,
}

pub record AdjacencyArray2 : Type 0 where
  pub base : AdjacencyArray
  pub heads : ℕ → ℕ

-- `heads_[iter - sorted_edges.begin()] = iter->from;`
unfoldable pub write_heads : (ℕ → ℕ) → ℕ → EdgeList → ℕ → ℕ
write_heads heads at [] = heads
write_heads heads at (e ∷ rest) = write_heads (update heads at e.from) (suc at) rest

unfoldable pub construct2 : ℕ → EdgeList → AdjacencyArray2
unfolding write_heads
construct2 num_nodes es = record {
  base = construct num_nodes es;
  heads = write_heads (λ _. 0) 0 (sort es);
}

-- An `EdgeIterator` is a position in `edges_`; `null_edge()` is the position behind the last.
abbrev pub null_edge : AdjacencyArray2 → ℕ
null_edge a = a.base.num_edges

-- `e->first` and `e->second`; `null_edge()` points at `(num_nodes, 0.0)`.
abbrev pub target : AdjacencyArray2 → ℕ → ℕ
target a e = if e == null_edge a then a.base.num_nodes else a.base.edges e

abbrev pub weight : AdjacencyArray2 → ℕ → ℕ
weight a e = if e == null_edge a then 0 else a.base.weights e

-- `edgeHead`
abbrev pub edge_head : AdjacencyArray2 → ℕ → ℕ
edge_head a e = if e == null_edge a then a.base.num_nodes else a.heads e

abbrev pub begin_at : AdjacencyArray2 → ℕ → ℕ
begin_at a u = begin_edges a.base u

abbrev pub end_at : AdjacencyArray2 → ℕ → ℕ
end_at a u = end_edges a.base u

abbrev pub graph_of : AdjacencyArray2 → Graph
graph_of a = to_graph a.base
