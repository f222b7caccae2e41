-- ===== src/Examples/LockFreeSuitor.antt =====
-- implementation/edge_list2.hpp, the adjacency arrays and source/parallel_free_suitor.cpp on the
-- path 0 - 1 - 2 - 3 with weights 3, 5 and 4, from the pairs of its file on.
use cpp_suitor_and_local_dom.Base.{
  ℕ, zero, suc, ◌+◌, ◌*◌, ◌≤◌, ◌≡◌, refl, ◌↔◌, ◌⊎◌, true, List, [], ◌∷◌, total, arith, ℕ_discrete,
}
use cpp_suitor_and_local_dom.Graph.{IsSimple, Has}
use cpp_suitor_and_local_dom.EdgeList.{Edge, EdgeList, Among, read_edges, read_pairs, read_pair}
use cpp_suitor_and_local_dom.EdgeList.Drawn.{Drawn, read_edges-Drawn}
use cpp_suitor_and_local_dom.EdgeList.Sort.{sort, insert}
use cpp_suitor_and_local_dom.AdjacencyArray.{
  construct, build, place, fill, begin_edges, end_edges, arcs, to_graph,
}
use cpp_suitor_and_local_dom.AdjacencyArray.Correct.{
  IsFitting, IsSimpleList, construct_edges, construct-IsSimple,
}
use cpp_suitor_and_local_dom.AdjacencyArray2.{AdjacencyArray2, construct2, write_heads, graph_of}
use cpp_suitor_and_local_dom.AdjacencyArray2.Positions.{IsIndexed}
use cpp_suitor_and_local_dom.AdjacencyArray2.Construct.{construct2-IsIndexed}
use cpp_suitor_and_local_dom.Split.{created, first, last}
use cpp_suitor_and_local_dom.Suitor.Protocol.{Proposals}
use cpp_suitor_and_local_dom.Suitor.Outcome.{IsMatching}
use cpp_suitor_and_local_dom.Suitor.LockFree.{
  run, turn, start, step, look, IsJoined, test_matching, matching_quality,
}
use cpp_suitor_and_local_dom.Suitor.LockFree.Table.{table}
use cpp_suitor_and_local_dom.Suitor.LockFree.Correct.{lock_free-IsMatching}
use cpp_suitor_and_local_dom.Suitor.LockFree.Quality.{lock_free_quality}
use cpp_suitor_and_local_dom.Suitor.LockFree.TestMatching.{test_matching_vacuous}

-- The file's pairs, and the weights that the random source gives.
abbrev pairs : List (ℕ × ℕ)
pairs = (2, 3) ∷ (0, 1) ∷ (1, 2) ∷ []

abbrev draw : ℕ → ℕ
draw zero = 4
draw (suc zero) = 3
draw _ = 5

abbrev edge : ℕ → ℕ → ℕ → Edge
edge from to length = record { from = from; to = to; length = length }

abbrev path_edges : EdgeList
path_edges = edge 2 3 4 ∷ edge 3 2 4 ∷ edge 0 1 3 ∷ edge 1 0 3 ∷ edge 1 2 5 ∷ edge 2 1 5 ∷ []

path_is_read : read_edges draw pairs ≡ (path_edges, 4)
unfolding read_edges read_pairs read_pair ℕ_discrete
path_is_read = refl

read_edges-Drawn_example :
    (last_one : ℕ) × ((read_edges draw pairs).1 ≡ suc last_one)
    × ((u v w : ℕ) → Among (read_edges draw pairs).0 u v w ↔ Drawn draw 0 pairs u v w)
    × ((u v w : ℕ) → Drawn draw 0 pairs u v w → (u ≤ last_one) × (v ≤ last_one))
    × ((pairs ≡ []) × (last_one ≡ 0) ⊎ ((v : ℕ) × (w : ℕ) × Drawn draw 0 pairs last_one v w))
read_edges-Drawn_example = read_edges-Drawn draw pairs

path_edges-IsFitting : IsFitting 4 path_edges
path_edges-IsFitting = record {
  in_range = λ u v w h. ground arith;
  last_used = (2, 4, ground arith);
}

path_edges-IsSimpleList : IsSimpleList path_edges
path_edges-IsSimpleList = record {
  both_ways = λ u v w h. ground arith;
  no_loop = λ u v w h. ground arith;
  distinct = λ u v x y w h h'. ground arith;
}

construct_edges_example :
    (begin_edges (construct 4 path_edges) 1 ≤ end_edges (construct 4 path_edges) 1)
    × ((v w : ℕ) → Has (arcs (construct 4 path_edges) 1) v w ↔ Among path_edges 1 v w)
construct_edges_example = construct_edges 4 path_edges path_edges-IsFitting 1 (omega arith)

construct-IsSimple_example : IsSimple (to_graph (construct 4 path_edges))
construct-IsSimple_example =
    construct-IsSimple 4 path_edges path_edges-IsFitting path_edges-IsSimpleList

construct2-IsIndexed_example : IsIndexed (construct2 4 path_edges)
construct2-IsIndexed_example = construct2-IsIndexed 4 path_edges path_edges-IsFitting

abbrev path2 : AdjacencyArray2
path2 = construct2 4 path_edges

path2-IsSimple : IsSimple (graph_of path2)
unfolding construct2
path2-IsSimple = construct-IsSimple_example

abbrev repeat : ℕ → ℕ → List ℕ → List ℕ
repeat zero i rest = rest
repeat (suc n) i rest = i ∷ repeat n i rest

-- Thread 0 scans for 0 while thread 1 works; then both take turns to the end.
abbrev order : List ℕ
order = repeat 2 0 (repeat 7 1 (repeat 30 0 (repeat 30 1 [])))

path2-IsJoined : IsJoined path2 2 (run path2 2 order)
unfolding created run turn step look start first last ℕ_discrete construct2 construct sort insert
    build place fill write_heads begin_edges end_edges
path2-IsJoined zero lt = refl
path2-IsJoined (suc zero) lt = refl
path2-IsJoined (suc (suc i)) lt = absurd (omega arith)

abbrev final_table : Proposals
final_table = table path2 (run path2 2 order).suitor

lock_free-IsMatching_example : IsMatching (graph_of path2) final_table
lock_free-IsMatching_example =
    lock_free-IsMatching path2 construct2-IsIndexed_example path2-IsSimple 2 (omega arith) order
      path2-IsJoined

-- Against itself.

lock_free_quality_example :
    total 4 final_table.ws ≤ 2 * matching_quality path2 ◌+◌ (λ x. x) (run path2 2 order).suitor
unfolding construct2 construct
lock_free_quality_example =
    lock_free_quality path2 construct2-IsIndexed_example path2-IsSimple 2 (omega arith) order
      path2-IsJoined final_table lock_free-IsMatching_example

test_matching_vacuous_example : test_matching path2 (run path2 2 (0 ∷ 1 ∷ [])).suitor ≡ true
test_matching_vacuous_example = test_matching_vacuous path2 2 (0 ∷ 1 ∷ [])
