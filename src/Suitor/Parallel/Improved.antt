-- ===== src/Suitor/Parallel/Improved.antt =====
-- source/parallel_suitor.cpp: how `improved_procedure` begins, and `process3`. Between the runs of
-- `process` and `process2` all threads are joined, so that `suitor` stays as it is in the second.
pub mod Thinned
pub mod Apart
use cpp_suitor_and_local_dom.Base.{
  ℕ, suc, true, List, [], ◌∷◌, Option, foldl, ltb, ◌==◌, if◌then◌else◌, update,
}
use cpp_suitor_and_local_dom.Graph.{Graph}
use cpp_suitor_and_local_dom.Scan.{consider}
use cpp_suitor_and_local_dom.Split.{created}
use cpp_suitor_and_local_dom.Suitor.Protocol.{Proposals}
use cpp_suitor_and_local_dom.Suitor.Sequential.Second.{accepts2}
use cpp_suitor_and_local_dom.Suitor.Sequential.Improved.{procedure3}
use cpp_suitor_and_local_dom.Suitor.Parallel.{
  Pc, outer, scanning, locking, enter, locked, System, start,
}
use cpp_suitor_and_local_dom.Suitor.Parallel.Instance.{ParallelSuitor, procedure}

-- One step of a thread; the table is that of `suitor2` and `ws2`.
unfoldable pub process2 : Graph → (ℕ → ℕ) → Proposals → Pc → Proposals × Pc
unfolding locked
process2 g suitor s (outer u finish) =
    (s, if u == finish then outer u finish else enter g u finish u)
process2 g suitor s (scanning u finish current (a ∷ rest) b) =
    (s, scanning u finish current rest (consider (accepts2 g suitor s current) b a))
process2 g suitor s (scanning u finish current [] b) =
    (s, if ltb 0 b.heaviest then locking u finish current b else outer (suc u) finish)
process2 g suitor s (locking u finish current b) = locked g s u finish current b

-- Thread `i` takes a step, if there is a thread `i`.
unfoldable pub turn2 : Graph → ℕ → (ℕ → ℕ) → System → ℕ → System
turn2 g threads suitor m i =
    let (s, p) = process2 g suitor m.table (m.pc i) in
    if ltb i (created threads g.num_nodes) then record { table = s; pc = update m.pc i p } else m

-- The threads of `procedure` with `process2`.
unfoldable pub procedure2 : Graph → ℕ → (ℕ → ℕ) → List ℕ → Proposals → System
procedure2 g threads suitor order s =
    foldl (turn2 g threads suitor) (record { table = s; pc = (start g threads).pc }) order

-- The first two lines, with the orders of the threads in each.
unfoldable pub two_matchings : ℕ → List ℕ → List ℕ → ParallelSuitor → ParallelSuitor
unfolding procedure procedure2
two_matchings threads order order2 m =
    let t = (procedure m.graph threads order m.first_table).table in
    record m {
      optimized = true;
      first_table = t;
      second_table = (procedure2 m.graph threads t.suitor order2 m.second_table).table;
    }

-- Line for line `procedure3` of the sequential class, and no thread but one runs it.
unfoldable pub process3 : Graph → (ℕ → ℕ) → ℕ → Proposals → Option Proposals
unfolding procedure3
process3 g suitor3 fuel s = procedure3 g suitor3 fuel s
