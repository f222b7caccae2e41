-- ===== src/ParallelDominant/Instance.antt =====
-- source/parallel_dominant.cpp: the class and its public operations. `simple_procedure` is run under
-- given orders of the threads' steps; it has no result if an order leaves a thread unfinished, or if
-- a thread goes outside the arrays.
use cpp_suitor_and_local_dom.Base.{
  ℕ, zero, suc, Bool, true, false, ◌&&◌, List, [], ◌∷◌, Option, none, some, ◌>>=◌, foldl, ◌==◌,
  if◌then◌else◌,
}
use cpp_suitor_and_local_dom.Graph.{Graph}
use cpp_suitor_and_local_dom.Split.{created, last}
use cpp_suitor_and_local_dom.Dominant.Instance.{matched_pairs, total_weight, asserts_hold}
use cpp_suitor_and_local_dom.ParallelDominant.{ConcurrentQueue, run1, run2}
use cpp_suitor_and_local_dom.ParallelDominant.Phase2.{
  Pc, over, Shared, turn, begin_round, begin_phase2, refill,
}

pub record ParallelDominant : Type 0 where
  pub graph : Graph
  pub mate : ℕ → ℕ

-- The constructor.
unfoldable pub create : Graph → ParallelDominant
create g = record { graph = g; mate = λ _. g.num_nodes }

-- Whether the first `k` threads have ended.
unfoldable pub joined : ℕ → (ℕ → Bool) → Bool
joined zero ended = true
joined (suc k) ended = joined k ended && ended k

abbrev pub is_over : Pc → Bool
is_over over = true
is_over _ = false

module _ (c : ConcurrentQueue) (g : Graph) (threads : ℕ) where
  -- The rounds of phase 2, each under an order.
  unfoldable pub rounds : List (List ℕ) → Shared g c → Option (Shared g c)
  unfolding joined
  rounds [] s = if c.size_approx s.current_queue == 0 then some s else none
  rounds (order ∷ more) s =
      let r = foldl (turn g c threads) (begin_round g c s) order in
      let rest =
        refill g c (suc (c.size_approx r.shared.next_queue)) r.shared >>= λ t. rounds more t in
      if c.size_approx s.current_queue == 0
      then some s
      else if joined threads (λ i. is_over (r.pc i))
      then rest
      else none

unfoldable pub simple_procedure :
    ConcurrentQueue
    → ℕ
    → List ℕ
    → List ℕ
    → List (List ℕ)
    → ParallelDominant
    → Option ParallelDominant
unfolding rounds
simple_procedure c threads order1 order2 orders m =
    let n = m.graph.num_nodes in
    let ended = λ (node : ℕ → ℕ) (i : ℕ). node i == last threads n i in
    let s = run1 m.graph threads m.mate order1 in
    let t = run2 m.graph c threads s.candidate m.mate order2 in
    let rest = rounds c m.graph threads orders (begin_phase2 m.graph c s.candidate t) >>= λ z.
    some (record m { mate = z.mate }) in
    if joined (created threads n) (ended s.node) && joined (created threads n) (ended t.node)
    then rest
    else none

unfoldable pub print_matching : ParallelDominant → List (ℕ × ℕ)
unfolding matched_pairs
print_matching m = matched_pairs m.graph.num_nodes m.mate m.graph.num_nodes

unfoldable pub matching_quality : (ℕ → ℕ → ℕ) → (ℕ → ℕ) → (ℕ → ℕ) → ParallelDominant → ℕ
unfolding total_weight
matching_quality plus halve beyond m =
    halve (total_weight plus beyond m.graph m.mate m.graph.num_nodes)

unfoldable pub clear_mate : ParallelDominant → ParallelDominant
clear_mate m = record m { mate = λ _. m.graph.num_nodes }

unfoldable pub test_matching : ParallelDominant → Bool
unfolding asserts_hold
test_matching m = asserts_hold m.graph.num_nodes m.mate m.graph.num_nodes
