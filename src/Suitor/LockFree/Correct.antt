-- ===== src/Suitor/LockFree/Correct.antt =====
-- What `simple_procedure` of the lock-free suitor leaves, in whatever order the threads run.
use cpp_suitor_and_local_dom.Base.{
  ℕ, ◌*◌, ◌≤◌, ◌<◌, inl, inr, List, [], ◌∷◌, foldl, arith, ltb, Bool-cases, total, subst, sym,
}
use cpp_suitor_and_local_dom.Graph.{IsSimple}
use cpp_suitor_and_local_dom.AdjacencyArray.{to_graph}
use cpp_suitor_and_local_dom.AdjacencyArray2.{AdjacencyArray2, graph_of}
use cpp_suitor_and_local_dom.AdjacencyArray2.Positions.{IsIndexed}
use cpp_suitor_and_local_dom.Split.{created, last-le, first-le-last, range_of, range_unique}
use cpp_suitor_and_local_dom.Suitor.Protocol.{Proposals, IsSettled, IsSound, IsSound-fresh}
use cpp_suitor_and_local_dom.Suitor.Outcome.{
  IsMatching, IsDominant, settled-IsMatching, settled-IsDominant, half_of_any,
}
use cpp_suitor_and_local_dom.Suitor.Threads.{IsShared}
use cpp_suitor_and_local_dom.Suitor.LockFree.{
  Pc, outer, scanning, loading, swapping, System, start, turn, run, IsDone, IsJoined,
}
use cpp_suitor_and_local_dom.Suitor.LockFree.Table.{table, table-fresh}
use cpp_suitor_and_local_dom.Suitor.LockFree.Claims.{Claims, lock_free_thread}
use cpp_suitor_and_local_dom.Suitor.LockFree.Turns.{step-IsShared}

-- A thread that has left `process` claims nothing.
done-Claims : (a : AdjacencyArray2) (p : Pc) (q : ℕ) → IsDone a p → ¬ Claims p q
done-Claims a (outer u finish) q d c = omega arith
done-Claims a (scanning _ _ _ _ _ _) q d c = d
done-Claims a (loading _ _ _ _ _) q d c = d
done-Claims a (swapping _ _ _ _ _ _) q d c = d

module _ (a : AdjacencyArray2) (indexed : IsIndexed a) (simple : IsSimple (graph_of a))
    (threads : ℕ) (some_thread : 0 < threads) where
  abbrev IsRunning : System a → Type 0
  IsRunning m =
      IsShared (graph_of a) (lock_free_thread a) (created threads a.base.num_nodes)
        (table a m.suitor) m.pc

  start-IsRunning : IsRunning (start a threads)
  unfolding start to_graph
  start-IsRunning = record {
    sound = subst (IsSound (graph_of a)) (sym (table-fresh a)) (IsSound-fresh (graph_of a));
    claimed = λ i q lt c. (
      omega (arith, last-le threads a.base.num_nodes some_thread i lt),
      λ v e. ground (arith, last-le threads a.base.num_nodes some_thread i lt),
    );
    alone = λ i j q li lj ci cj.
        range_unique threads a.base.num_nodes some_thread i j q li lj ci.0 ci.1 cj.0 cj.1;
    covered = λ q less.
        let (i, lt, from, upto) = range_of threads a.base.num_nodes some_thread q less in
        inl (i, lt, (from, upto));
    knows = λ i lt. first-le-last threads a.base.num_nodes some_thread i lt;
  }

  turn-IsRunning : (m : System a) (i : ℕ) → IsRunning m → IsRunning (turn a threads m i)
  unfolding turn
  turn-IsRunning m i h = elim (Bool-cases (ltb i (created threads a.base.num_nodes))) [
    | inl lt ↦ rw lt (step-IsShared a indexed simple m.suitor h i (ground arith))
    | inr ge ↦ rw ge h
  ]

  turns-IsRunning :
      (order : List ℕ) (m : System a) → IsRunning m → IsRunning (foldl (turn a threads) m order)
  turns-IsRunning [] m h = h
  turns-IsRunning (i ∷ order) m h =
      turns-IsRunning order (turn a threads m i) (turn-IsRunning m i h)

  pub run-IsRunning : (order : List ℕ) → IsRunning (run a threads order)
  unfolding run
  run-IsRunning order = turns-IsRunning order (start a threads) start-IsRunning

  module _ (order : List ℕ) (joined : IsJoined a threads (run a threads order)) where
    abbrev final : Proposals
    final = table a (run a threads order).suitor

    joined-IsSettled : (q : ℕ) → q < a.base.num_nodes → IsSettled (graph_of a) final q
    unfolding to_graph
    joined-IsSettled q less = elim ((run-IsRunning order).covered q less) [
      | inl (i, lt, c) ↦ absurd (done-Claims a ((run a threads order).pc i) q (joined i lt) c)
      | inr st ↦ st
    ]

    -- On an indexed adjacency array whose graph is simple with distinct weights, and with at least
    -- one thread, once all threads are joined the edges in `suitor` are a matching, whatever the
    -- order in which the threads ran: the edge at a node comes from a neighbour whose own entry
    -- comes from the node, and both have the same weight.
    pub lock_free-IsMatching : IsMatching (graph_of a) final
    unfolding to_graph
    lock_free-IsMatching = settled-IsMatching simple (run-IsRunning order).sound joined-IsSettled

    -- Under the same conditions no edge is heavier than the entries of each of its ends, and any
    -- other matching of the graph weighs at most twice the one found.
    pub lock_free_half :
        (other : Proposals)
        → IsMatching (graph_of a) other
        → IsDominant (graph_of a) final
          × (total a.base.num_nodes other.ws ≤ 2 * total a.base.num_nodes final.ws)
    unfolding to_graph
    lock_free_half other m =
        let dominant = settled-IsDominant simple (run-IsRunning order).sound joined-IsSettled in
        (dominant, half_of_any (graph_of a) final other dominant m)
