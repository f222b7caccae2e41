-- ===== src/Suitor/Parallel/Ties.antt =====
-- Equal weights: an order of the threads in which the suitors of a triangle form a cycle.
use cpp_suitor_and_local_dom.Base.{
  ℕ, zero, suc, ◌<◌, ◌≡◌, refl, true, false, List, [], ◌∷◌, arith, ltb, ℕ_discrete,
}
use cpp_suitor_and_local_dom.Scan.{consider}
use cpp_suitor_and_local_dom.Split.{created, first, last}
use cpp_suitor_and_local_dom.Suitor.Outcome.{IsMatching}
use cpp_suitor_and_local_dom.Suitor.Parallel.{
  System, start, turn, run, locked, process, IsDone, IsJoined,
}
use cpp_suitor_and_local_dom.Examples.Graphs.{triangle}

abbrev five : ℕ → List ℕ → List ℕ
five i rest = i ∷ i ∷ i ∷ i ∷ i ∷ rest

-- Thread 2 runs first, then thread 0, then thread 1.
abbrev pub bad_order : List ℕ
bad_order = five 2 (five 0 (five 1 []))

module _ (w : ℕ) (pos : ltb 0 w ≡ true) (same : ltb w w ≡ false) where
  abbrev final : System
  final = run (triangle w) 3 bad_order

  suitor_cycle :
      (final.table.suitor 0 ≡ 2) × (final.table.suitor 1 ≡ 0) × (final.table.suitor 2 ≡ 1)
  unfolding run turn process locked start created first last consider ℕ_discrete
  suitor_cycle = (simp (pos, same), simp (pos, same), simp (pos, same))

  all-IsDone : IsDone (final.pc 0) × IsDone (final.pc 1) × IsDone (final.pc 2)
  unfolding run turn process locked start created first last consider ℕ_discrete
  all-IsDone = (simp (pos, same) refl, simp (pos, same) refl, simp (pos, same) refl)

  cycle-IsJoined : IsJoined (triangle w) 3 final
  unfolding created
  cycle-IsJoined zero lt = all-IsDone.0
  cycle-IsJoined (suc zero) lt = all-IsDone.1
  cycle-IsJoined (suc (suc zero)) lt = all-IsDone.2
  cycle-IsJoined (suc (suc (suc i))) lt = absurd (omega arith)

-- On a triangle whose three edges have the same positive weight, three threads can be scheduled so
-- that all of them end and `suitor` is no matching: 0 has the suitor 2, 2 has 1, and 1 has 0.
pub ties_cycle :
    (w : ℕ)
    → 0 < w
    → IsJoined (triangle w) 3 (run (triangle w) 3 bad_order)
      × ¬ IsMatching (triangle w) (run (triangle w) 3 bad_order).table
ties_cycle w h =
    let pos : ltb 0 w ≡ true = ground arith in
    let same : ltb w w ≡ false = ground arith in
    (cycle-IsJoined w pos same, λ m. ground (arith, suitor_cycle w pos same, m.symmetric 0))
