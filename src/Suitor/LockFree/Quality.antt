-- ===== src/Suitor/LockFree/Quality.antt =====
-- `matching_quality` of the lock-free suitor, with exact sums and before the division by two.
use cpp_suitor_and_local_dom.Base.{
  ℕ, zero, suc, ◌+◌, ◌*◌, ◌≤◌, ◌<◌, ◌≡◌, refl, ap, List, arith, total,
}
use cpp_suitor_and_local_dom.Graph.{IsSimple}
use cpp_suitor_and_local_dom.AdjacencyArray2.{AdjacencyArray2, weight, graph_of}
use cpp_suitor_and_local_dom.AdjacencyArray2.Positions.{IsIndexed}
use cpp_suitor_and_local_dom.Suitor.Protocol.{Proposals}
use cpp_suitor_and_local_dom.Suitor.Outcome.{IsMatching}
use cpp_suitor_and_local_dom.Suitor.LockFree.{run, IsJoined, accumulate, matching_quality}
use cpp_suitor_and_local_dom.Suitor.LockFree.Correct.{lock_free_half}

accumulate-total :
    (a : AdjacencyArray2) (suitor : ℕ → ℕ) (n : ℕ)
    → accumulate a ◌+◌ suitor n ≡ total n (λ v. weight a (suitor v))
unfolding accumulate total
accumulate-total a suitor zero = refl
accumulate-total a suitor (suc n) =
    ap (λ (k : ℕ). k + weight a (suitor n)) (accumulate-total a suitor n)

-- On an indexed adjacency array whose graph is simple with distinct weights, and with at least one
-- thread, once all threads are joined any matching of the graph weighs at most twice what
-- `matching_quality` sums up, in whatever order the threads ran. The sums are exact, and count an
-- edge at both of its ends.
pub lock_free_quality :
    (a : AdjacencyArray2)
    → IsIndexed a
    → IsSimple (graph_of a)
    → (threads : ℕ) → 0 < threads
    → (order : List ℕ) → IsJoined a threads (run a threads order)
    → (other : Proposals) → IsMatching (graph_of a) other
    → total a.base.num_nodes other.ws
      ≤ 2 * matching_quality a ◌+◌ (λ x. x) (run a threads order).suitor
unfolding matching_quality
lock_free_quality a indexed simple threads some_thread order joined other found = omega (
  arith,
  accumulate-total a (run a threads order).suitor a.base.num_nodes,
  (lock_free_half a indexed simple threads some_thread order joined other found).1,
)
