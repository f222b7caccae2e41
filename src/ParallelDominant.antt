-- ===== src/ParallelDominant.antt =====
-- source/parallel_dominant.cpp: phase 1; the rest is in the children. The threads take their steps
-- in any order; a step is the body of the loop at one node. In both sections the threads read what no thread of the section
-- writes: in the first `mate`, in the second `candidate`.
pub mod Concurrent
pub mod Sections
pub mod Marking
pub mod Phase1
pub mod Ending
pub mod Phase2
pub mod Neighbours
pub mod Reaching
pub mod Instance
use cpp_suitor_and_local_dom.Base.{
  ℕ, zero, suc, ◌<◌, ◌≡◌, Bool, true, not, ◌&&◌, List, [], ◌∷◌, Option, some, foldl, ltb, ◌==◌,
  if◌then◌else◌, update,
}
use cpp_suitor_and_local_dom.Graph.{Graph}
use cpp_suitor_and_local_dom.Split.{created, first, last}
use cpp_suitor_and_local_dom.Dominant.{heaviest_free}

-- What is used of `moodycamel::ConcurrentQueue<NodeHandle>`, with how often a queue holds a node.
-- The laws are those of a queue that loses and doubles nothing; they say nothing of the order.
pub record ConcurrentQueue : Type 1 where
  pub Queue : Type 0
  pub with_room : ℕ → Queue
  pub enqueue : Queue → ℕ → Queue
  pub try_dequeue : Queue → Option (ℕ × Queue)
  pub size_approx : Queue → ℕ
  pub holds : Queue → ℕ → ℕ
  pub holds_new : (room x : ℕ) → holds (with_room room) x ≡ 0
  pub holds_enqueue :
      (q : Queue) (x y : ℕ)
      → holds (enqueue q x) y ≡ (if x == y then suc (holds q y) else holds q y)
  pub holds_dequeue :
      (q rest : Queue) (x y : ℕ)
      → try_dequeue q ≡ some (x, rest)
      → holds q y ≡ (if x == y then suc (holds rest y) else holds rest y)

module _ (g : Graph) where
  -- `parallelProcessVertexSec1`: `candidate`, and the node that each thread is at.
  pub record Section1 : Type 0 where
    pub candidate : ℕ → ℕ
    pub node : ℕ → ℕ

  unfoldable pub start1 : ℕ → Section1
  start1 threads = record { candidate = λ _. g.num_nodes; node = first threads g.num_nodes }

  -- Thread `i` does the next of its nodes, if it has one left.
  unfoldable pub turn1 : ℕ → (ℕ → ℕ) → Section1 → ℕ → Section1
  turn1 threads mate s i =
      let u = s.node i in
      if ltb i (created threads g.num_nodes) && not (u == last threads g.num_nodes i)
      then record {
        candidate = update s.candidate u (heaviest_free g (λ _ _. true) mate u).partner;
        node = update s.node i (suc u);
      }
      else s

  unfoldable pub run1 : ℕ → (ℕ → ℕ) → List ℕ → Section1
  run1 threads mate = foldl (turn1 threads mate) (start1 threads)

  module _ (c : ConcurrentQueue) where
    -- `parallelProcessVertexSec2`: `mate`, `QC` and the node that each thread is at.
    pub record Section2 : Type 0 where
      pub mate : ℕ → ℕ
      pub queue : c.Queue
      pub node : ℕ → ℕ

    unfoldable pub start2 : ℕ → (ℕ → ℕ) → Section2
    start2 threads mate = record {
      mate = mate;
      queue = c.with_room g.num_nodes;
      node = first threads g.num_nodes;
    }

    -- The two tests of the loop body.
    abbrev pub is_mutual : (ℕ → ℕ) → ℕ → Bool
    is_mutual candidate u = not (candidate u == g.num_nodes) && (candidate (candidate u) == u)

    unfoldable pub turn2 : ℕ → (ℕ → ℕ) → Section2 → ℕ → Section2
    turn2 threads candidate s i =
        let u = s.node i in
        if ltb i (created threads g.num_nodes) && not (u == last threads g.num_nodes i)
        then (if is_mutual candidate u
            then record {
              mate = update s.mate u (candidate u);
              queue = c.enqueue s.queue u;
              node = update s.node i (suc u);
            }
            else record s { node = update s.node i (suc u) })
        else s

    unfoldable pub run2 : ℕ → (ℕ → ℕ) → (ℕ → ℕ) → List ℕ → Section2
    run2 threads candidate mate = foldl (turn2 threads candidate) (start2 threads mate)

  -- All threads of a section have been joined.
  abbrev pub IsOver : ℕ → (ℕ → ℕ) → Type 0
  IsOver threads node =
      (i : ℕ) → i < created threads g.num_nodes → node i ≡ last threads g.num_nodes i
