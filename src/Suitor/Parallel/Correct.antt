-- ===== src/Suitor/Parallel/Correct.antt =====
-- What `simple_procedure` of the parallel suitor leaves, in whatever order the threads run.
use cpp_suitor_and_local_dom.Base.{
  ℕ, ◌*◌, ◌≤◌, ◌<◌, inl, inr, List, [], ◌∷◌, foldl, arith, ltb, Bool-cases, total,
}
use cpp_suitor_and_local_dom.Graph.{Graph, IsSimple}
use cpp_suitor_and_local_dom.Split.{created, last-le, first-le-last, range_of, range_unique}
use cpp_suitor_and_local_dom.Suitor.Protocol.{Proposals, IsSettled, IsSound-fresh}
use cpp_suitor_and_local_dom.Suitor.Outcome.{
  IsMatching, IsDominant, settled-IsMatching, settled-IsDominant, half_of_any,
}
use cpp_suitor_and_local_dom.Suitor.Threads.{IsShared}
use cpp_suitor_and_local_dom.Suitor.Parallel.{
  Pc, outer, scanning, locking, System, start, turn, run, IsDone, IsJoined,
}
use cpp_suitor_and_local_dom.Suitor.Parallel.Claims.{Claims, suitor_thread}
use cpp_suitor_and_local_dom.Suitor.Parallel.Turns.{process-IsShared}

module _ (g : Graph) (simple : IsSimple g) (threads : ℕ) (some_thread : 0 < threads) where
  abbrev IsRunning : System → Type 0
  IsRunning m = IsShared g (suitor_thread g) (created threads g.num_nodes) m.table m.pc

  start-IsRunning : IsRunning (start g threads)
  unfolding start
  start-IsRunning = record {
    sound = IsSound-fresh g;
    claimed = λ i q lt c. (
      omega (arith, last-le threads g.num_nodes some_thread i lt),
      λ v e. omega (arith, last-le threads g.num_nodes some_thread i lt),
    );
    alone = λ i j q li lj ci cj.
        range_unique threads g.num_nodes some_thread i j q li lj ci.0 ci.1 cj.0 cj.1;
    covered = λ q less.
        let (i, lt, from, upto) = range_of threads g.num_nodes some_thread q less in
        inl (i, lt, (from, upto));
    knows = λ i lt. first-le-last threads g.num_nodes some_thread i lt;
  }

  turn-IsRunning : (m : System) (i : ℕ) → IsRunning m → IsRunning (turn g threads m i)
  unfolding turn
  turn-IsRunning m i h = elim (Bool-cases (ltb i (created threads g.num_nodes))) [
    | inl lt ↦ rw lt (process-IsShared simple h i (ground arith))
    | inr ge ↦ rw ge h
  ]

  turns-IsRunning :
      (order : List ℕ) (m : System) → IsRunning m → IsRunning (foldl (turn g threads) m order)
  turns-IsRunning [] m h = h
  turns-IsRunning (i ∷ order) m h =
      turns-IsRunning order (turn g threads m i) (turn-IsRunning m i h)

  run-IsRunning : (order : List ℕ) → IsRunning (run g threads order)
  unfolding run
  run-IsRunning order = turns-IsRunning order (start g threads) start-IsRunning

  -- A thread that has left `process` claims nothing.
  done-Claims : (p : Pc) (q : ℕ) → IsDone p → ¬ Claims p q
  done-Claims (outer u finish) q d c = omega arith
  done-Claims (scanning _ _ _ _ _) q d c = d
  done-Claims (locking _ _ _ _) q d c = d

  module _ (order : List ℕ) (joined : IsJoined g threads (run g threads order)) where
    joined-IsSettled : (q : ℕ) → q < g.num_nodes → IsSettled g (run g threads order).table q
    joined-IsSettled q less = elim ((run-IsRunning order).covered q less) [
      | inl (i, lt, c) ↦ absurd (done-Claims ((run g threads order).pc i) q (joined i lt) c)
      | inr st ↦ st
    ]

    -- On a simple graph with distinct weights and with at least one thread, once all threads are
    -- joined `suitor` and `ws` are a matching, whatever the order in which the threads ran:
    -- partners point at one another, each pair is an edge and `ws` holds its weight at both ends,
    -- and `ws` is 0 at the other nodes.
    pub joined-IsMatching : IsMatching g (run g threads order).table
    joined-IsMatching = settled-IsMatching simple (run-IsRunning order).sound joined-IsSettled

    -- Under the same conditions no edge is heavier than what each of its ends has, and any other
    -- matching of the graph weighs at most twice the one found.
    pub joined_half :
        (other : Proposals)
        → IsMatching g other
        → IsDominant g (run g threads order).table
          × (total g.num_nodes other.ws ≤ 2 * total g.num_nodes (run g threads order).table.ws)
    joined_half other m =
        let dominant = settled-IsDominant simple (run-IsRunning order).sound joined-IsSettled in
        (dominant, half_of_any g (run g threads order).table other dominant m)
