-- ===== src/AdjacencyArray.antt =====
-- implementation/graph_adj_array.hpp: the adjacency array. Arrays are functions of the index, and
-- an iterator is the index it stands at; `null_node()` is `num_nodes`.
pub mod Slices
pub mod Index
pub mod Correct
use cpp_suitor_and_local_dom.Base.{
  ℕ, zero, suc, ◌+◌, ◌-◌, List, [], ◌∷◌, Bool, ◌==◌, if◌then◌else◌, update, Option, none, some,
}
use cpp_suitor_and_local_dom.EdgeList.{Edge, EdgeList}
use cpp_suitor_and_local_dom.EdgeList.Sort.{sort}
use cpp_suitor_and_local_dom.Graph.{Arc, Graph}

pub record AdjacencyArray : Type 0 where
  pub num_nodes : ℕ
  pub num_edges : ℕ
  pub edges : ℕ → ℕ
  pub weights : ℕ → ℕ
  pub index : ℕ → ℕ

-- The arrays under construction, with `current`.
pub record Building : Type 0 where
  pub edges : ℕ → ℕ
  pub weights : ℕ → ℕ
  pub index : ℕ → ℕ
  pub current : ℕ

-- `for (size_t i = lo; …; ++i) index_[i] = at;` over `n` indices.
unfoldable pub fill : ℕ → ℕ → ℕ → (ℕ → ℕ) → ℕ → ℕ
fill zero lo at index = index
fill (suc n) lo at index = fill n (suc lo) at (update index lo at)

-- The loop's body, for the edge at position `at` of the sorted list.
unfoldable pub place : Building → ℕ → Edge → Building
unfolding fill
place b at e =
    let stored = record b {
      edges = update b.edges at e.to;
      weights = update b.weights at e.length;
    } in
    if e.from == b.current then stored else record stored {
      index = update (fill (e.from - b.current) (suc b.current) at b.index) e.from at;
      current = e.from;
    }

unfoldable pub build : Building → ℕ → EdgeList → Building
unfolding place
build b at [] = b
build b at (e ∷ rest) = build (place b at e) (suc at) rest

abbrev pub count : EdgeList → ℕ
count [] = 0
count (e ∷ es) = suc (count es)

-- The arrays before the loop: of zeros.
abbrev pub blank : Building
blank = record { edges = λ _. 0; weights = λ _. 0; index = update (λ _. 0) 0 0; current = 0 }

-- The constructor.
unfoldable pub construct : ℕ → EdgeList → AdjacencyArray
unfolding build sort
construct num_nodes es =
    let b = build blank 0 (sort es) in
    record {
      num_nodes = num_nodes;
      num_edges = count es;
      edges = b.edges;
      weights = b.weights;
      index = b.index;
    }

unfoldable pub begin_edges : AdjacencyArray → ℕ → ℕ
begin_edges a n = a.index n

unfoldable pub end_edges : AdjacencyArray → ℕ → ℕ
unfolding begin_edges
end_edges a n = if suc n == a.num_nodes then a.num_edges else begin_edges a (suc n)

-- The arcs at `n` positions from `e` on, as a loop reads them by `*e` and `edgeWeight(e)`.
unfoldable pub slice : (ℕ → ℕ) → (ℕ → ℕ) → ℕ → ℕ → List Arc
slice edges weights e zero = []
slice edges weights e (suc n) =
    record { head = edges e; weight = weights e } ∷ slice edges weights (suc e) n

-- What `for (e = beginEdges(u); e != endEdges(u); ++e)` visits. The loop of the source does not
-- stop where the end lies before the begin; `Correct` shows that it never does.
unfoldable pub arcs : AdjacencyArray → ℕ → List Arc
unfolding slice begin_edges end_edges
arcs a u = slice a.edges a.weights (begin_edges a u) (end_edges a u - begin_edges a u)

unfoldable pub to_graph : AdjacencyArray → Graph
unfolding arcs
to_graph a = record { num_nodes = a.num_nodes; arcs = arcs a }

-- `edgeWeight`; the null iterator has weight 0.
unfoldable pub edge_weight : AdjacencyArray → Option ℕ → ℕ
edge_weight a none = 0
edge_weight a (some e) = a.weights e

-- `get_edge`: the first edge of `from` that leads to `to`; where there is none the source returns
-- nothing, which is undefined.
unfoldable pub find_from : (ℕ → ℕ) → ℕ → ℕ → ℕ → Option ℕ
find_from edges to e zero = none
find_from edges to e (suc n) =
    let rest = find_from edges to (suc e) n in if edges e == to then some e else rest

unfoldable pub get_edge : AdjacencyArray → ℕ → ℕ → Option ℕ
unfolding find_from begin_edges end_edges
get_edge a from to =
    find_from a.edges to (begin_edges a from) (end_edges a from - begin_edges a from)

-- `get_counter_edge`: from the head of `e` back to `root`.
unfoldable pub get_counter_edge : AdjacencyArray → ℕ → ℕ → Option ℕ
unfolding get_edge
get_counter_edge a e root = get_edge a (a.edges e) root
