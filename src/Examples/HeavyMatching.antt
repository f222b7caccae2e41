-- ===== src/Examples/HeavyMatching.antt =====
-- The heavy matching of source/sequential_suitor.cpp and source/sequential_dominant.cpp, on the path
-- and on a cycle of four nodes.
use cpp_suitor_and_local_dom.Base.{
  ltb, if◌then◌else◌, ◌+◌, ℕ, zero, suc, ◌*◌, ◌<◌, ◌≤◌, ◌≡◌, ◌⊎◌, refl, true, Option, some, none,
  List, [], ◌∷◌, total, arith, ℕ_discrete,
}
use cpp_suitor_and_local_dom.Scan.{scan}
use cpp_suitor_and_local_dom.Suitor.Protocol.{Proposals}
use cpp_suitor_and_local_dom.Heavy.{
  Twin, store, valid_path, begin1, begin2, advance, along_path, around_cycle, visit_path,
  visit_cycle, each_node, counter_edges, join_matchings,
}
use cpp_suitor_and_local_dom.Heavy.Track.{IsTwin}
use cpp_suitor_and_local_dom.Heavy.Correct.{Joint, join_matchings_ends}
use cpp_suitor_and_local_dom.Heavy.Extended.{IsMaximal}
use cpp_suitor_and_local_dom.Suitor.Sequential.{
  SequentialSuitor, create, round, chase, for_nodes, procedure, print_matching, test_matching,
  matched_pairs,
}
use cpp_suitor_and_local_dom.Suitor.Sequential.Loop.{enough}
use cpp_suitor_and_local_dom.Suitor.Sequential.Second.{two_matchings, procedure2, round2}
use cpp_suitor_and_local_dom.Suitor.Sequential.Improved.{
  improved_procedure, procedure3, round3, copy_fourth,
}
use cpp_suitor_and_local_dom.Suitor.Sequential.Improved.Correct.{
  suitor_improved_matches, suitor_improved_half, added_weightless,
}
use cpp_suitor_and_local_dom.Examples.Graphs.{path, path-IsSimple, light, light-IsMatching}

-- The cycle 0 - 1 - 2 - 3 - 0 with weights 5, 4, 6 and 3.
abbrev across : (ℕ → ℕ)
across zero = 1
across (suc zero) = 0
across (suc (suc zero)) = 3
across (suc (suc (suc zero))) = 2
across _ = 4

abbrev around : (ℕ → ℕ)
around zero = 3
around (suc zero) = 2
around (suc (suc zero)) = 1
around (suc (suc (suc zero))) = 0
around _ = 4

abbrev across_weight : (ℕ → ℕ)
across_weight zero = 5
across_weight (suc zero) = 5
across_weight (suc (suc zero)) = 6
across_weight (suc (suc (suc zero))) = 6
across_weight _ = 0

abbrev around_weight : (ℕ → ℕ)
around_weight zero = 3
around_weight (suc zero) = 4
around_weight (suc (suc zero)) = 4
around_weight (suc (suc (suc zero))) = 3
around_weight _ = 0

abbrev cycle : Twin
cycle = record {
  null = 4;
  mate = across;
  mate2 = around;
  weight = across_weight;
  weight2 = around_weight;
  plus = ◌+◌;
}

cycle-IsTwin : IsTwin cycle
cycle-IsTwin = record {
  first = record {
    bound = λ x. ground arith;
    inside = λ x lt. ground arith;
    symmetric = λ x lt. ground arith;
    loopless = λ x lt e. ground arith;
    weighs = λ x lt. ground arith;
    lone = λ x e. ground arith;
  };
  second = record {
    bound = λ x. ground arith;
    inside = λ x lt. ground arith;
    symmetric = λ x lt. ground arith;
    loopless = λ x lt e. ground arith;
    weighs = λ x lt. ground arith;
    lone = λ x e. ground arith;
  };
}

abbrev empty_table : Proposals
empty_table = record { suitor = λ _. 4; ws = λ _. 0 }

join_matchings_ends_example :
    (t : Proposals) × (join_matchings cycle 4 empty_table ≡ some t) × Joint cycle-IsTwin t
join_matchings_ends_example = join_matchings_ends cycle-IsTwin

abbrev suitors : Option Proposals → List ℕ
suitors none = []
suitors (some t) = t.suitor 0 ∷ t.suitor 1 ∷ t.suitor 2 ∷ t.suitor 3 ∷ []

cycle_run : suitors (join_matchings cycle 4 empty_table) ≡ 1 ∷ 0 ∷ 3 ∷ 2 ∷ []
unfolding join_matchings each_node visit_path visit_cycle begin1 begin2 advance along_path
    around_cycle valid_path store counter_edges ℕ_discrete
cycle_run = refl

-- An addition that rounds all that is larger down to 7.
abbrev coarse : ℕ → ℕ → ℕ
coarse a b = if ltb 7 (a + b) then 7 else a + b

-- Both sums are then 7, and the lighter matching is stored.
coarse_run :
    suitors (join_matchings (record cycle { plus = coarse }) 4 empty_table) ≡ 3 ∷ 2 ∷ 1 ∷ 0 ∷ []
unfolding join_matchings each_node visit_path visit_cycle begin1 begin2 advance along_path
    around_cycle valid_path store counter_edges ℕ_discrete
coarse_run = refl

printed : Option SequentialSuitor → List (ℕ × ℕ)
printed none = []
printed (some m) = print_matching m

-- The two light edges of the path outweigh the heavy one.
improved_run :
    printed (improved_procedure ◌+◌ 20 20 20 (create path)) ≡ (0, 1) ∷ (1, 0) ∷ (2, 3) ∷ (3, 2) ∷ []
unfolding printed improved_procedure two_matchings procedure procedure2 procedure3 for_nodes chase
    round round2 round3 scan create join_matchings each_node visit_path visit_cycle begin1 begin2
    advance along_path around_cycle valid_path store counter_edges copy_fourth print_matching
    matched_pairs ℕ_discrete
improved_run = refl

suitor_improved_matches_example :
    (fuel2 : ℕ) × (fuel3 : ℕ) × (m : SequentialSuitor) × (improved_procedure ◌+◌
        (enough path)
        fuel2
        fuel3
        (create path)
      ≡ some m)
    × IsMaximal path m.third.suitor
    × (test_matching m ≡ true)
suitor_improved_matches_example = suitor_improved_matches path path-IsSimple ◌+◌

suitor_improved_half_example :
    (fuel2 : ℕ) × (fuel3 : ℕ) × (m : SequentialSuitor) × (improved_procedure ◌+◌
        (enough path)
        fuel2
        fuel3
        (create path)
      ≡ some m)
    × (total 4 m.first.ws ≤ total 4 m.third.ws)
    × (total 4 m.second.ws ≤ total 4 m.third.ws)
    × (total 4 light.ws ≤ 2 * total 4 m.third.ws)
suitor_improved_half_example =
    suitor_improved_half path path-IsSimple ◌+◌ (λ a b. refl) light light-IsMatching

added_weightless_example :
    (fuel2 : ℕ) × (fuel3 : ℕ) × (m : SequentialSuitor) × (improved_procedure ◌+◌
        (enough path)
        fuel2
        fuel3
        (create path)
      ≡ some m)
    × ((v : ℕ)
        → (m.fourth.suitor v ≡ 4)
          ⊎ (m.third.suitor v ≡ m.fourth.suitor v) × (0 < m.fourth.ws v) × (m.third.ws v ≡ 0))
added_weightless_example = added_weightless path path-IsSimple ◌+◌
