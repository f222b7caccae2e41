-- ===== src/ParallelDominant/Reaching.antt =====
-- All states that `simple_procedure` reaches in phase 2 have candidates and mates that are neighbours.
use cpp_suitor_and_local_dom.Base.{ℕ}
use cpp_suitor_and_local_dom.Graph.{Graph, IsSimple}
use cpp_suitor_and_local_dom.ParallelDominant.{ConcurrentQueue}
use cpp_suitor_and_local_dom.ParallelDominant.Phase2.{Round}
use cpp_suitor_and_local_dom.ParallelDominant.Neighbours.{IsNear, IsPlausible}

module _ (g : Graph) (c : ConcurrentQueue) (simple : IsSimple g) where
  abbrev n : ℕ
  n = g.num_nodes

  -- The invariant of phase 2.
  IsProper : Round g c → Type 0
  IsProper r = IsNear g c r.shared × ((i : ℕ) → IsPlausible g c (r.pc i))
