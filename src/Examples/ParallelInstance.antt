-- ===== src/Examples/ParallelInstance.antt =====
-- The operations of a `ParallelSuitor` on the path.
use cpp_suitor_and_local_dom.Base.{◌+◌, ◌*◌, ◌≤◌, ◌≡◌, true, arith, total}
use cpp_suitor_and_local_dom.Suitor.Parallel.{run, start}
use cpp_suitor_and_local_dom.Suitor.Parallel.Instance.{
  ParallelSuitor, create, procedure, simple_procedure, clear_mate, IsFinished, test_matching,
  matching_quality,
}
use cpp_suitor_and_local_dom.Suitor.Parallel.Instance.Passes.{parallel_passes}
use cpp_suitor_and_local_dom.Examples.Graphs.{path, path-IsSimple, light, light-IsMatching}
use cpp_suitor_and_local_dom.Examples.ParallelSuitor.{order, repeat, path-IsJoined}
use cpp_suitor_and_local_dom.Base.{ℕ, zero, suc, ◌≢◌, ◌⊎◌, List, [], refl, ℕ_discrete}
use cpp_suitor_and_local_dom.Graph.Usable.{usable}
use cpp_suitor_and_local_dom.Scan.{consider}
use cpp_suitor_and_local_dom.Split.{created, first, last}
use cpp_suitor_and_local_dom.Suitor.Outcome.{IsMatching, IsDominant}
use cpp_suitor_and_local_dom.Suitor.Sequential.{fresh}
use cpp_suitor_and_local_dom.Suitor.Sequential.Second.Beside.{beside}
use cpp_suitor_and_local_dom.Suitor.Parallel.{turn, process, locked, IsJoined}
use cpp_suitor_and_local_dom.Suitor.Parallel.Improved.{process2, turn2, procedure2, two_matchings}
use cpp_suitor_and_local_dom.Suitor.Parallel.Improved.Apart.{tables_apart}

abbrev cleared : ParallelSuitor
cleared = clear_mate (create path)

path-IsFinished : IsFinished 2 order cleared
unfolding create clear_mate procedure run start
path-IsFinished = path-IsJoined

parallel_passes_example :
    (test_matching (simple_procedure 2 order cleared) ≡ true)
    × (total 4 light.ws ≤ 2 * matching_quality ◌+◌ (λ x. x) (simple_procedure 2 order cleared))
unfolding create
parallel_passes_example =
    parallel_passes 2 (omega arith) order (create path) path-IsSimple path-IsFinished light
      light-IsMatching

path-IsJoined1 : IsJoined path 2 (procedure path 2 order (fresh path))
unfolding procedure run start
path-IsJoined1 = path-IsJoined

-- The second run: thread 1 is done before thread 0 begins.
abbrev order2 : List ℕ
order2 = repeat 20 1 (repeat 20 0 [])

abbrev both_runs : ParallelSuitor
both_runs = two_matchings 2 order order2 (create path)

path-IsJoined2 :
    IsJoined path 2
      (procedure2 path 2 (procedure path 2 order (fresh path)).table.suitor order2 (fresh path))
unfolding procedure procedure2 created turn turn2 process process2 locked start first last consider
    ℕ_discrete
path-IsJoined2 zero lt = refl
path-IsJoined2 (suc zero) lt = refl
path-IsJoined2 (suc (suc i)) lt = absurd (omega arith)

second_suitors :
    (both_runs.second_table.suitor 0 ≡ 1)
    × (both_runs.second_table.suitor 1 ≡ 0)
    × (both_runs.second_table.suitor 2 ≡ 3)
unfolding two_matchings create procedure procedure2 created turn turn2 process process2 locked start
    first last consider ℕ_discrete
second_suitors = (refl, refl, refl)

tables_apart_example :
    let h = usable path (beside path both_runs.first_table.suitor) in
    IsMatching path both_runs.first_table
    × IsMatching h both_runs.second_table
    × IsDominant h both_runs.second_table
    × ((v : ℕ)
        → (both_runs.first_table.suitor v ≢ both_runs.second_table.suitor v)
          ⊎ (both_runs.first_table.suitor v ≡ 4))
tables_apart_example =
    tables_apart path path-IsSimple 2 (omega arith) order path-IsJoined1 order2 path-IsJoined2
