-- ===== src/Suitor/Parallel/Instance/Passes.antt =====
-- What a run of `simple_procedure` on a cleared `ParallelSuitor` leaves.
use cpp_suitor_and_local_dom.Base.{
  ℕ, zero, suc, ◌+◌, ◌*◌, ◌≤◌, ◌<◌, ◌≡◌, refl, ap, inl, inr, true, false, List, Bool-cases, arith,
  total,
}
use cpp_suitor_and_local_dom.Graph.{Graph, IsSimple}
use cpp_suitor_and_local_dom.Suitor.Protocol.{Proposals}
use cpp_suitor_and_local_dom.Suitor.Outcome.{IsMatching}
use cpp_suitor_and_local_dom.Suitor.Sequential.{fresh}
use cpp_suitor_and_local_dom.Suitor.Parallel.{start, run, IsJoined}
use cpp_suitor_and_local_dom.Suitor.Parallel.Correct.{joined-IsMatching, joined_half}
use cpp_suitor_and_local_dom.Suitor.Parallel.Instance.{
  ParallelSuitor, procedure, simple_procedure, IsFinished, clear_mate, accumulate, matching_quality,
  asserts_hold, test_matching,
}

asserts_of_matching :
    (g : Graph) (s : Proposals) (n : ℕ)
    → IsMatching g s
    → n ≤ g.num_nodes
    → asserts_hold g.num_nodes s.suitor n ≡ true
unfolding asserts_hold
asserts_of_matching g s zero m le = refl
asserts_of_matching g s (suc n) m le =
    ground (arith, asserts_of_matching g s n m, m.symmetric n, m.null_or_node n)

accumulate-total : (f : ℕ → ℕ) (n : ℕ) → accumulate ◌+◌ f n ≡ total n f
unfolding accumulate total
accumulate-total f zero = refl
accumulate-total f (suc n) = ap (λ (k : ℕ). k + f n) (accumulate-total f n)

module _ (threads : ℕ) (some_thread : 0 < threads) (order : List ℕ) where
  -- From a new first table of an instance that is not optimized.
  from_fresh :
      (m : ParallelSuitor)
      → m.optimized ≡ false
      → m.first_table ≡ fresh m.graph
      → IsSimple m.graph
      → IsFinished threads order m
      → (other : Proposals) → IsMatching m.graph other
      → (test_matching (simple_procedure threads order m) ≡ true)
        × (total m.graph.num_nodes other.ws
            ≤ 2 * matching_quality ◌+◌ (λ x. x) (simple_procedure threads order m))
  unfolding simple_procedure test_matching matching_quality procedure run start
  from_fresh m plain blank simple joined other found =
      let done : IsJoined m.graph threads (run m.graph threads order) = rw blank at joined in
      let table = (run m.graph threads order).table in
      let matching = joined-IsMatching m.graph simple threads some_thread order done in
      let half = joined_half m.graph simple threads some_thread order done other found in
      rw (plain, blank)
        (
          asserts_of_matching m.graph table m.graph.num_nodes matching (omega arith),
          omega (arith, accumulate-total table.ws m.graph.num_nodes, half.1),
        )

  -- On a simple graph with distinct weights and with at least one thread, whatever ran on the
  -- instance before it was cleared and in whatever order the threads of `simple_procedure` run:
  -- once they are joined, `test_matching` passes, and any matching of the graph weighs at most
  -- twice what `matching_quality` sums up. The sums are exact, and count an edge at both ends.
  pub parallel_passes :
      (m : ParallelSuitor)
      → IsSimple m.graph
      → IsFinished threads order (clear_mate m)
      → (other : Proposals) → IsMatching m.graph other
      → (test_matching (simple_procedure threads order (clear_mate m)) ≡ true)
        × (total m.graph.num_nodes other.ws
            ≤ 2 * matching_quality ◌+◌ (λ x. x) (simple_procedure threads order (clear_mate m)))
  unfolding clear_mate
  parallel_passes m simple joined other found = elim (Bool-cases m.optimized) [
    | inl o ↦ rw o (from_fresh _ refl refl simple (rw o at joined) other found)
    | inr o ↦ rw o (
        from_fresh (record m { first_table = fresh m.graph; optimized = false }) refl refl simple
          (rw o at joined) other found)
  ]
