-- ===== src/Examples/SequentialSuitor.antt =====
-- source/sequential_suitor.cpp on the path.
use cpp_suitor_and_local_dom.Base.{
  ℕ, ◌*◌, ◌≤◌, ◌≡◌, refl, true, Option, some, none, List, [], ◌∷◌, total,
}
use cpp_suitor_and_local_dom.Graph.{weight_bound}
use cpp_suitor_and_local_dom.Scan.{scan}
use cpp_suitor_and_local_dom.Suitor.Protocol.{Proposals, propose}
use cpp_suitor_and_local_dom.Suitor.Outcome.{IsMatching}
use cpp_suitor_and_local_dom.Suitor.Sequential.{
  SequentialSuitor, create, fresh, round, chase, for_nodes, procedure, simple_procedure,
  print_matching, clear_mate, test_matching, matched_pairs,
}
use cpp_suitor_and_local_dom.Suitor.Sequential.Loop.{enough}
use cpp_suitor_and_local_dom.Suitor.Sequential.Correct.{
  procedure_total, procedure-IsMatching, procedure_half, simple_procedure_passes,
}
use cpp_suitor_and_local_dom.Base.{ℕ_discrete, ◌≢◌, ◌⊎◌}
use cpp_suitor_and_local_dom.Graph.Usable.{usable}
use cpp_suitor_and_local_dom.Suitor.Sequential.Second.{two_matchings}
use cpp_suitor_and_local_dom.Suitor.Sequential.Second.Beside.{beside, suitors_apart}
use cpp_suitor_and_local_dom.Examples.Graphs.{path, path-IsSimple, light, light-IsMatching}

-- The pairs that a result holds; `[]` if the fuel ran out.
printed : Option SequentialSuitor → List (ℕ × ℕ)
printed none = []
printed (some m) = print_matching m

simple_run : printed (simple_procedure 20 (create path)) ≡ (1, 2) ∷ (2, 1) ∷ []
unfolding printed simple_procedure procedure for_nodes chase round scan create print_matching
    matched_pairs ℕ_discrete
simple_run = refl

procedure_total_example : (z : Proposals) × (procedure path (enough path) (fresh path) ≡ some z)
procedure_total_example = procedure_total path path-IsSimple

-- The proposals that are made: 0 to 1, 1 to 2, and 2 to 1, which dislodges 0.
abbrev result : Proposals
result = propose (propose (propose (fresh path) 0 1 3) 1 2 5) 2 1 5

procedure_runs : procedure path (enough path) (fresh path) ≡ some result
unfolding procedure for_nodes chase round scan ℕ_discrete weight_bound
procedure_runs = refl

procedure-IsMatching_example : IsMatching path result
procedure-IsMatching_example = procedure-IsMatching path path-IsSimple result procedure_runs

procedure_half_example : total 4 light.ws ≤ 2 * total 4 result.ws
procedure_half_example =
    procedure_half path path-IsSimple result procedure_runs light light-IsMatching

-- A cleared instance, after a run that left its tables full.
abbrev used : SequentialSuitor
used = record (create path) { first = result }

simple_procedure_passes_example :
    (m' : SequentialSuitor) × (simple_procedure (enough path) (clear_mate used) ≡ some m')
    × (test_matching m' ≡ true)
unfolding create
simple_procedure_passes_example = simple_procedure_passes used path-IsSimple

suitors_apart_example :
    (m : SequentialSuitor) × (fuel2 : ℕ) × (two_matchings (enough path) fuel2 (create path)
      ≡ some m)
    × IsMatching path m.first
    × IsMatching (usable path (beside path m.first.suitor)) m.second
    × ((v : ℕ) → (m.first.suitor v ≢ m.second.suitor v) ⊎ (m.first.suitor v ≡ 4))
suitors_apart_example = suitors_apart path path-IsSimple
