-- ===== src/Pipeline.antt =====
-- What the `main` functions do with a file: readEdges, the constructor of the adjacency array, and
-- `simple_procedure` (source/sequential_suitor.cpp, source/parallel_free_suitor.cpp).
use cpp_suitor_and_local_dom.Base.{
  ℕ, ◌<◌, ◌≡◌, refl, subst, ◌⊎◌, inl, inr, List, ◌∷◌, true, some, dec_lt, arith,
}
use cpp_suitor_and_local_dom.EdgeList.{EdgeList, Among, read_edges}
use cpp_suitor_and_local_dom.EdgeList.Read.{read_edges-IsUndirected}
use cpp_suitor_and_local_dom.EdgeList.Drawn.{
  Drawn, NoLoops, Drawn-sym, Drawn-apart, Drawn-distinct, Among-read_edges,
}
use cpp_suitor_and_local_dom.Graph.{Graph, IsSimple}
use cpp_suitor_and_local_dom.AdjacencyArray.{construct, to_graph}
use cpp_suitor_and_local_dom.AdjacencyArray.Correct.{
  IsFitting, IsSimpleList, construct_edges, construct-IsSimple,
}
use cpp_suitor_and_local_dom.AdjacencyArray2.{AdjacencyArray2, construct2}
use cpp_suitor_and_local_dom.AdjacencyArray2.Construct.{construct2-IsIndexed}
use cpp_suitor_and_local_dom.Suitor.Outcome.{IsMatching}
use cpp_suitor_and_local_dom.Suitor.Sequential.{
  SequentialSuitor, create, simple_procedure, test_matching,
}
use cpp_suitor_and_local_dom.Suitor.Sequential.Loop.{enough}
use cpp_suitor_and_local_dom.Suitor.Sequential.Correct.{
  procedure_total, procedure-IsMatching, asserts_hold_of_matching,
}
use cpp_suitor_and_local_dom.Suitor.LockFree.{run, IsJoined}
use cpp_suitor_and_local_dom.Suitor.LockFree.Table.{table}
use cpp_suitor_and_local_dom.Suitor.LockFree.Correct.{lock_free-IsMatching}

-- The array that the constructors build from a file.
abbrev pub array_of_file : (ℕ → ℕ) → List (ℕ × ℕ) → AdjacencyArray2
array_of_file draw pairs = let r = read_edges draw pairs in construct2 r.1 r.0

abbrev pub graph_of_file : (ℕ → ℕ) → List (ℕ × ℕ) → Graph
graph_of_file draw pairs = let r = read_edges draw pairs in to_graph (construct r.1 r.0)

module _ (draw : ℕ → ℕ) (once : (i j : ℕ) → draw i ≡ draw j → i ≡ j) (from to : ℕ)
    (rest : List (ℕ × ℕ)) (loopless : NoLoops ((from, to) ∷ rest)) where
  abbrev pairs : List (ℕ × ℕ)
  pairs = (from, to) ∷ rest

  abbrev es : EdgeList
  es = (read_edges draw pairs).0

  drawn : (u v w : ℕ) → Among es u v w → Drawn draw 0 pairs u v w
  drawn u v w = (Among-read_edges draw pairs u v w).0

  file-IsSimpleList : IsSimpleList es
  file-IsSimpleList = record {
    both_ways = λ u v w a.
        (Among-read_edges draw pairs v u w).1 (Drawn-sym draw 0 pairs u v w (drawn u v w a));
    no_loop = λ u v w a. Drawn-apart draw 0 pairs u v w loopless (drawn u v w a);
    distinct =
        λ u v x y w a b. Drawn-distinct draw once 0 pairs u v x y w (drawn u v w a) (drawn x y w b);
  }

  first_edge : Among es from to (draw 0)
  first_edge = (Among-read_edges draw pairs from to (draw 0)).1 (inl (refl, inl (refl, refl)))

  file-IsFitting : IsFitting (read_edges draw pairs).1 es
  file-IsFitting =
      let (last_one, e, undirected) = read_edges-IsUndirected draw pairs in
      record {
        in_range = λ u v w a. omega (arith, e, undirected.bounded u v w a);
        last_used = elim undirected.attained [
          | inl nothing ↦ absurd (subst (λ l. Among l from to (draw 0)) nothing.0 first_edge)
          | inr (v, w, a) ↦ (v, w, subst (λ u. Among es u v w) (omega (arith, e)) a)
        ];
      }

  file-IsSimple : IsSimple (graph_of_file draw pairs)
  file-IsSimple = construct-IsSimple (read_edges draw pairs).1 es file-IsFitting file-IsSimpleList

  -- From a file with at least one pair and no pair of a node with itself, and weights that are all
  -- different, `simple_procedure` of the sequential suitor ends on the array that is built, with
  -- fuel `enough`, and `test_matching` passes. `suitor` and `ws` are a matching, and each node
  -- has no suitor or one with which it is a pair of the file, of the weight in `ws`.
  pub suitor_of_file :
      (m : SequentialSuitor) × (simple_procedure
          (enough (graph_of_file draw pairs))
          (create (graph_of_file draw pairs))
        ≡ some m)
      × (test_matching m ≡ true)
      × IsMatching (graph_of_file draw pairs) m.first
      × ((v : ℕ)
          → (m.first.suitor v ≡ (read_edges draw pairs).1)
            ⊎ Drawn draw 0 pairs v (m.first.suitor v) (m.first.ws v))
  unfolding simple_procedure create test_matching to_graph construct
  suitor_of_file =
      let g = graph_of_file draw pairs in
      let (z, ends) = procedure_total g file-IsSimple in
      let matching = procedure-IsMatching g file-IsSimple z ends in
      (
        record (create g) { first = z },
        rw ends refl,
        asserts_hold_of_matching g z g.num_nodes matching (omega arith),
        matching,
        λ v. elim (dec_lt (z.suitor v) (read_edges draw pairs).1) [
          | no nobody ↦ inl (omega (arith, matching.null_or_node v))
          | yes lt ↦
              let along = matching.matched v lt in
              inr (
                drawn v (z.suitor v) (z.ws v) (
                  ((construct_edges (read_edges draw pairs).1 es file-IsFitting v along.0).1
                      (z.suitor v) (z.ws v)).0
                    along.1))
        ],
      )

  -- From such a file, with at least one thread, once the threads of the lock-free suitor are
  -- joined the edges in `suitor` are a matching, in whatever order the threads ran.
  pub lock_free_of_file :
      (threads : ℕ)
      → 0 < threads
      → (order : List ℕ)
      → IsJoined (array_of_file draw pairs) threads (run (array_of_file draw pairs) threads order)
      → IsMatching
          (graph_of_file draw pairs)
          (table (array_of_file draw pairs) (run (array_of_file draw pairs) threads order).suitor)
  unfolding construct2
  lock_free_of_file threads some_thread order joined =
      lock_free-IsMatching (array_of_file draw pairs)
        (construct2-IsIndexed (read_edges draw pairs).1 es file-IsFitting) file-IsSimple threads
        some_thread order joined
