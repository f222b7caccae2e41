-- ===== src/Suitor/LockFree/TestMatching.antt =====
-- The asserts of `test_matching` of the lock-free suitor, on whatever its threads leave.
use cpp_suitor_and_local_dom.Base.{
  ℕ, zero, suc, ◌≡◌, refl, ◌⊎◌, inl, inr, List, [], ◌∷◌, foldl, true, arith, ltb, Bool-cases, ◌==◌,
}
use cpp_suitor_and_local_dom.AdjacencyArray2.{AdjacencyArray2, null_edge, target}
use cpp_suitor_and_local_dom.Suitor.LockFree.{
  Pc, outer, scanning, loading, swapping, System, start, step, turn, run, asserts_hold,
  test_matching, created,
}

module _ (a : AdjacencyArray2) where
  -- Every entry is no edge or an edge to its own index.
  abbrev PointsHere : (ℕ → ℕ) → Type 0
  PointsHere suitor = (v : ℕ) → (suitor v ≡ null_edge a) ⊎ (target a (suitor v) ≡ v)

  step-PointsHere : (suitor : ℕ → ℕ) (p : Pc) → PointsHere suitor → PointsHere (step a suitor p).0
  unfolding step
  step-PointsHere suitor (outer _ _) h = h
  step-PointsHere suitor (scanning _ _ _ _ _ _) h = h
  step-PointsHere suitor (loading _ _ _ _ _) h = h
  step-PointsHere suitor (swapping u finish current partner heaviest current_suitor) h =
      elim (Bool-cases (suitor (target a partner) == current_suitor)) [
        | inl same ↦ rw same (λ v. ground (arith, h v))
        | inr changed ↦ rw changed h
      ]

  module _ (threads : ℕ) where
    turn-PointsHere :
        (m : System a) (i : ℕ) → PointsHere m.suitor → PointsHere (turn a threads m i).suitor
    unfolding turn
    turn-PointsHere m i h = elim (Bool-cases (ltb i (created threads a.base.num_nodes))) [
      | inl lt ↦ rw lt (step-PointsHere m.suitor (m.pc i) h)
      | inr ge ↦ rw ge h
    ]

    turns-PointsHere :
        (order : List ℕ) (m : System a)
        → PointsHere m.suitor
        → PointsHere (foldl (turn a threads) m order).suitor
    turns-PointsHere [] m h = h
    turns-PointsHere (i ∷ order) m h =
        turns-PointsHere order (turn a threads m i) (turn-PointsHere m i h)

  asserts-PointsHere : (suitor : ℕ → ℕ) (n : ℕ) → PointsHere suitor → asserts_hold a suitor n ≡ true
  unfolding asserts_hold
  asserts-PointsHere suitor zero h = refl
  asserts-PointsHere suitor (suc u) h = elim (h u) [
    | inl none ↦ ground (arith, asserts-PointsHere suitor u h)
    | inr here ↦ rw here (ground (arith, asserts-PointsHere suitor u h, here))
  ]

  -- The asserts of `test_matching` hold after any steps of any number of threads, on every
  -- adjacency array: also when the weights are tied, and before the threads are joined.
  pub test_matching_vacuous :
      (threads : ℕ) (order : List ℕ) → test_matching a (run a threads order).suitor ≡ true
  unfolding test_matching run start
  test_matching_vacuous threads order =
      asserts-PointsHere (run a threads order).suitor a.base.num_nodes
        (turns-PointsHere threads order (start a threads) λ v. inl refl)
