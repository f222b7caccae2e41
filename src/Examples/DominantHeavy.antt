-- ===== src/Examples/DominantHeavy.antt =====
-- `improved_procedure` of source/sequential_dominant.cpp on the path.
use cpp_suitor_and_local_dom.Base.{
  ℕ, zero, suc, ◌+◌, ◌*◌, ◌≤◌, ◌≡◌, ◌≢◌, ◌⊎◌, refl, true, Option, some, none, List, [], ◌∷◌, total,
  arith, ℕ_discrete,
}
use cpp_suitor_and_local_dom.Graph.{Edge}
use cpp_suitor_and_local_dom.Graph.Free.{rest_of, rest_of-IsSimple}
use cpp_suitor_and_local_dom.Dominant.Runs.{all_edges}
use cpp_suitor_and_local_dom.Scan.{scan}
use cpp_suitor_and_local_dom.LocalQueue.{with_capacity, push_back, pop_front}
use cpp_suitor_and_local_dom.Heavy.{
  store, valid_path, begin1, begin2, advance, along_path, around_cycle, visit_path, visit_cycle,
  each_node, counter_edges, join_matchings,
}
use cpp_suitor_and_local_dom.Heavy.Extended.{IsMaximal}
use cpp_suitor_and_local_dom.Dominant.{
  State, procedure, process_all, process_vertex, visit, drain, match,
}
use cpp_suitor_and_local_dom.Dominant.Instance.{
  SequentialDominant, create, two_matchings, find_weight, total_weight, matched_pairs,
  print_matching, matching_quality, test_matching, clear_mate,
}
use cpp_suitor_and_local_dom.Dominant.Rest.{procedure-rest}
use cpp_suitor_and_local_dom.Dominant.Reached.{created, improved, reached_clears}
use cpp_suitor_and_local_dom.Dominant.Improved.{improved_procedure}
use cpp_suitor_and_local_dom.Dominant.Improved.Correct.{
  dominant_improved_matches, dominant_improved_half,
}
use cpp_suitor_and_local_dom.Examples.Graphs.{path, path-IsSimple, light, light-IsMatching}

abbrev printed : Option SequentialDominant → List (ℕ × ℕ)
printed none = []
printed (some m) = print_matching m

dominant_improved_run :
    printed (improved_procedure ◌+◌ (λ _. 0) 5 (create path))
    ≡ (0, 1) ∷ (1, 0) ∷ (2, 3) ∷ (3, 2) ∷ []
unfolding improved_procedure two_matchings procedure process_all process_vertex match scan visit
    drain create find_weight join_matchings each_node visit_path visit_cycle begin1 begin2 advance
    along_path around_cycle valid_path store counter_edges print_matching matched_pairs
    with_capacity push_back pop_front ℕ_discrete
dominant_improved_run = refl

path_plain : (u v w w' : ℕ) → Edge path u v w → Edge path u v w' → w ≡ w'
path_plain u v w w' e e' = ground arith

dominant_improved_matches_example :
    (m : SequentialDominant) × (improved_procedure ◌+◌ (λ _. 0) 5 (create path) ≡ some m)
    × IsMaximal path m.mate3
    × (test_matching m ≡ true)
dominant_improved_matches_example =
    dominant_improved_matches path path-IsSimple path_plain ◌+◌ (λ _. 0)

dominant_improved_half_example :
    (m : SequentialDominant) × (improved_procedure ◌+◌ (λ _. 0) 5 (create path) ≡ some m)
    × (total_weight ◌+◌ (λ _. 0) path m.mate 4 ≤ matching_quality ◌+◌ (λ x. x) (λ _. 0) m)
    × (total 4 light.ws ≤ 2 * matching_quality ◌+◌ (λ x. x) (λ _. 0) m)
dominant_improved_half_example =
    dominant_improved_half path path-IsSimple path_plain ◌+◌ (λ _. 0) (λ a b. refl) light
      light-IsMatching

-- The nodes 0 and 1 have mates, and 2 and 3 are left.
abbrev begun : ℕ → ℕ
begun zero = 1
begun (suc zero) = 0
begun _ = 4

abbrev left_over : State
left_over = (all_edges (rest_of path begun) (rest_of-IsSimple path begun path-IsSimple)).0

left_over_ends : procedure (rest_of path begun) (λ _ _. true) 5 (λ _. 4) ≡ some left_over
left_over_ends = (all_edges (rest_of path begun) (rest_of-IsSimple path begun path-IsSimple)).1

procedure-rest_example :
    (y : State) × (procedure path (λ _ _. true) 5 begun ≡ some y)
    × ((v : ℕ)
        → (begun v ≡ 4) × (y.mate v ≡ left_over.mate v)
          ⊎ (begun v ≢ 4) × (y.mate v ≡ begun v) × (left_over.mate v ≡ 4))
procedure-rest_example = procedure-rest path begun refl 5 left_over left_over_ends

-- What `improved_procedure` makes of a new instance.
abbrev optimised : SequentialDominant
optimised = (dominant_improved_matches path path-IsSimple path_plain ◌+◌ (λ _. 0)).0

optimised_is : improved_procedure ◌+◌ (λ _. 0) 5 (create path) ≡ some optimised
optimised_is = (dominant_improved_matches path path-IsSimple path_plain ◌+◌ (λ _. 0)).1

reached_clears_example : (optimised.graph ≡ path) × (clear_mate optimised ≡ create path)
reached_clears_example =
    reached_clears path optimised (improved ◌+◌ (λ _. 0) 5 optimised_is created)
