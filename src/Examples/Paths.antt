-- ===== src/Examples/Paths.antt =====
-- A path of four nodes: 1 and 2 are matched in the first matching, 0 and 1, 2 and 3 in the second.
use cpp_suitor_and_local_dom.Base.{
  ℕ, zero, suc, ◌+◌, ◌≡◌, refl, Bool, true, false, some, not, ltb, arith, ℕ_discrete,
}
use cpp_suitor_and_local_dom.Heavy.{Twin}
use cpp_suitor_and_local_dom.Heavy.Track.{IsTwin}
use cpp_suitor_and_local_dom.Suitor.Parallel.Paths.{scout, far_end, is_handled_at}
use cpp_suitor_and_local_dom.Suitor.Parallel.Paths.Ends.{IsEnd, path_handled_once}

abbrev inner : ℕ → ℕ
inner (suc zero) = 2
inner (suc (suc zero)) = 1
inner _ = 4

abbrev inner_weight : ℕ → ℕ
inner_weight (suc zero) = 3
inner_weight (suc (suc zero)) = 3
inner_weight _ = 0

abbrev outer_mate : ℕ → ℕ
outer_mate zero = 1
outer_mate (suc zero) = 0
outer_mate (suc (suc zero)) = 3
outer_mate (suc (suc (suc zero))) = 2
outer_mate _ = 4

abbrev outer_weight : ℕ → ℕ
outer_weight zero = 2
outer_weight (suc zero) = 2
outer_weight (suc (suc zero)) = 1
outer_weight (suc (suc (suc zero))) = 1
outer_weight _ = 0

abbrev four : Twin
four = record {
  null = 4;
  mate = inner;
  mate2 = outer_mate;
  weight = inner_weight;
  weight2 = outer_weight;
  plus = ◌+◌;
}

four-IsTwin : IsTwin four
four-IsTwin = record {
  first = record {
    bound = λ x. ground arith;
    inside = λ x lt. ground arith;
    symmetric = λ x lt. ground arith;
    loopless = λ x lt e. ground arith;
    weighs = λ x lt. ground arith;
    lone = λ x e. ground arith;
  };
  second = record {
    bound = λ x. ground arith;
    inside = λ x lt. ground arith;
    symmetric = λ x lt. ground arith;
    loopless = λ x lt e. ground arith;
    weighs = λ x lt. ground arith;
    lone = λ x e. ground arith;
  };
}

handled_at_last : (is_handled_at four 4 0 ≡ some false) × (is_handled_at four 4 3 ≡ some true)
unfolding is_handled_at far_end scout ℕ_discrete
handled_at_last = (refl, refl)

path_handled_once_example :
    (v : ℕ) × (c : Bool) × IsEnd four-IsTwin c v
    × (far_end four 4 0 ≡ some v)
    × (far_end four 4 v ≡ some 0)
    × (is_handled_at four 4 0 ≡ some (ltb v 0))
    × (is_handled_at four 4 v ≡ some (not (ltb v 0)))
path_handled_once_example = path_handled_once four-IsTwin false 0 (omega arith, refl)
