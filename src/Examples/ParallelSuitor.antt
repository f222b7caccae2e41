-- ===== src/Examples/ParallelSuitor.antt =====
-- source/parallel_suitor.cpp on the path with two threads, which meet at the edge 1 - 2.
use cpp_suitor_and_local_dom.Base.{
  ℕ, zero, suc, ◌*◌, ◌≤◌, ◌≡◌, refl, List, [], ◌∷◌, total, arith, ℕ_discrete,
}
use cpp_suitor_and_local_dom.Scan.{consider}
use std.Equiv.{IsContr}
use cpp_suitor_and_local_dom.Split.{created, first, last, Deals, dealt_once}
use cpp_suitor_and_local_dom.Suitor.Protocol.{Proposals}
use cpp_suitor_and_local_dom.Suitor.Outcome.{IsMatching, IsDominant}
use cpp_suitor_and_local_dom.Suitor.Parallel.{run, turn, process, locked, start, IsJoined}
use cpp_suitor_and_local_dom.Suitor.Parallel.Correct.{joined-IsMatching, joined_half}
use cpp_suitor_and_local_dom.Suitor.Parallel.Ties.{bad_order, ties_cycle}
use cpp_suitor_and_local_dom.Examples.Graphs.{
  path, path-IsSimple, triangle, light, light-IsMatching,
}

abbrev pub repeat : ℕ → ℕ → List ℕ → List ℕ
repeat zero i rest = rest
repeat (suc n) i rest = i ∷ repeat n i rest

-- Thread 0 scans for 0 while thread 1 works; then both take turns to the end.
abbrev pub order : List ℕ
order = repeat 2 0 (repeat 6 1 (repeat 20 0 (repeat 20 1 [])))

abbrev joined_table : Proposals
joined_table = (run path 2 order).table

pub path-IsJoined : IsJoined path 2 (run path 2 order)
unfolding created run turn process locked start first last consider ℕ_discrete
path-IsJoined zero lt = refl
path-IsJoined (suc zero) lt = refl
path-IsJoined (suc (suc i)) lt = absurd (omega arith)

joined-IsMatching_example : IsMatching path joined_table
joined-IsMatching_example = joined-IsMatching path path-IsSimple 2 (omega arith) order path-IsJoined

joined_half_example :
    IsDominant path joined_table × (total 4 light.ws ≤ 2 * total 4 joined_table.ws)
joined_half_example =
    joined_half path path-IsSimple 2 (omega arith) order path-IsJoined light light-IsMatching

joined_suitors :
    (joined_table.suitor 1 ≡ 2) × (joined_table.suitor 2 ≡ 1) × (joined_table.suitor 0 ≡ 4)
unfolding created run turn process locked start first last consider ℕ_discrete
joined_suitors = (refl, refl, refl)

ties_cycle_example :
    IsJoined (triangle 1) 3 (run (triangle 1) 3 bad_order)
    × ¬ IsMatching (triangle 1) (run (triangle 1) 3 bad_order).table
ties_cycle_example = ties_cycle 1 (omega arith)

-- Seven nodes for three threads: the last one takes the rest.
dealt_once_example : IsContr ((i : ℕ) × Deals 3 7 (omega arith) 6 i)
dealt_once_example = dealt_once 3 7 (omega arith) 6 (omega arith)
