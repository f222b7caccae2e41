-- ===== src/Examples/SequentialDominant.antt =====
-- implementation/local_queue.hpp, and source/sequential_dominant.cpp on the path.
use cpp_suitor_and_local_dom.Base.{
  ℕ, ◌+◌, ◌*◌, ◌≤◌, ◌≡◌, refl, ◌≢◌, ◌⊎◌, inr, true, Option, some, none, List, [], ◌∷◌, ◌++◌, total,
  arith, ℕ_discrete,
}
use cpp_suitor_and_local_dom.LocalQueue.{LocalQueue, with_capacity, push_back, pop_front}
use cpp_suitor_and_local_dom.LocalQueue.Contents.{
  contents, IsRing, push_back-contents, pop_front-contents,
}
use cpp_suitor_and_local_dom.Scan.{scan}
use cpp_suitor_and_local_dom.Dominant.{procedure, process_all, process_vertex, visit, drain, match}
use cpp_suitor_and_local_dom.Graph.Usable.{usable}
use cpp_suitor_and_local_dom.Dominant.Instance.{
  SequentialDominant, create, simple_procedure, unmatched, two_matchings, clear_mate, matched_pairs,
  print_matching, matching_quality, test_matching,
}
use cpp_suitor_and_local_dom.Dominant.Runs.{
  IsDominantMatching, dominant_passes, two_matchings_apart,
}
use cpp_suitor_and_local_dom.Dominant.Quality.{dominant_half}
use cpp_suitor_and_local_dom.Examples.Graphs.{path, path-IsSimple, light, light-IsMatching}

abbrev printed : Option SequentialDominant → List (ℕ × ℕ)
printed none = []
printed (some m) = print_matching m

simple_run : printed (simple_procedure 5 (create path)) ≡ (1, 2) ∷ (2, 1) ∷ []
unfolding simple_procedure procedure process_all process_vertex match scan visit drain create
    print_matching matched_pairs with_capacity push_back pop_front ℕ_discrete
simple_run = refl

-- A queue for two elements that holds one, at its last place.
abbrev turned : LocalQueue
turned = record { array = λ i. i + 7; tail = 1; head = 0; size = 1; capacity = 2 }

turned-IsRing : IsRing turned
turned-IsRing = record {
  fits = omega arith;
  tail_inside = inr (omega arith);
  head_at = ground arith;
}

push_back-contents_example :
    IsRing (push_back turned 3) × (contents (push_back turned 3) ≡ contents turned ++ (3 ∷ []))
push_back-contents_example = push_back-contents turned 3 turned-IsRing (omega arith)

pop_front-contents_example :
    IsRing (pop_front turned).1
    × (contents turned ≡ (pop_front turned).0 ∷ contents (pop_front turned).1)
pop_front-contents_example = pop_front-contents turned turned-IsRing (omega arith)

dominant_passes_example :
    (m : SequentialDominant) × (simple_procedure 5 (clear_mate (create path)) ≡ some m)
    × (test_matching m ≡ true)
    × (ws : ℕ → ℕ) × IsDominantMatching path m.mate ws
unfolding create
dominant_passes_example = dominant_passes (create path) path-IsSimple

two_matchings_apart_example :
    (m : SequentialDominant) × (two_matchings 5 (clear_mate (create path)) ≡ some m)
    × (m.optimized ≡ true)
    × ((v : ℕ) → (m.mate v ≢ m.mate2 v) ⊎ (m.mate v ≡ 4))
    × (ws : ℕ → ℕ) × (ws2 : ℕ → ℕ) × IsDominantMatching path m.mate ws
    × IsDominantMatching (usable path (unmatched m.mate)) m.mate2 ws2
unfolding create
two_matchings_apart_example = two_matchings_apart (create path) path-IsSimple (inr refl)

dominant_half_example :
    (m : SequentialDominant) × (simple_procedure 5 (create path) ≡ some m)
    × (total 4 light.ws ≤ 2 * matching_quality ◌+◌ (λ x. x) (λ _. 0) m)
dominant_half_example =
    dominant_half path path-IsSimple (λ u v w w' e e'. ground arith) (λ _. 0) light light-IsMatching
