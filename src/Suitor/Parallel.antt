-- ===== src/Suitor/Parallel.antt =====
-- source/parallel_suitor.cpp: `process` and `procedure`, the suitor algorithm with a lock for each
-- node. A step of a thread ends at its next access of shared memory; what it does under the lock of
-- `partner` is one step, since only the holder of that lock writes `suitor[partner]` and
-- `ws[partner]`, and of these the other threads read `ws[partner]` alone.
pub mod Claims
pub mod Turns
pub mod Correct
pub mod Ties
pub mod Instance
pub mod UnionFind
pub mod Improved
pub mod Paths
use cpp_suitor_and_local_dom.Base.{
  ℕ, suc, ◌<◌, ◌≡◌, List, [], ◌∷◌, foldl, ltb, ◌==◌, if◌then◌else◌, update,
}
use cpp_suitor_and_local_dom.Graph.{Arc, Graph}
use cpp_suitor_and_local_dom.Scan.{Best, consider}
use cpp_suitor_and_local_dom.Split.{created, first, last}
use cpp_suitor_and_local_dom.Suitor.Protocol.{Proposals, propose}
use cpp_suitor_and_local_dom.Suitor.Sequential.{accepts, fresh}

-- Where a thread stands in `process`, with `u` and `finish` of its outer loop.
pub data Pc : Type 0 where
  outer : (u finish : ℕ) → Pc  -- head of the `for` loop over the nodes
  scanning : (u finish current : ℕ) → List Arc → Best → Pc  -- in the `for` loop over the arcs
  locking : (u finish current : ℕ) → Best → Pc  -- before `lock(mtx[G.nodeId(partner)])`

-- Head of the `while` loop: `partner = G.null_node(); heaviest = 0;`
abbrev pub enter : Graph → ℕ → ℕ → ℕ → Pc
enter g u finish current =
    scanning u finish current (g.arcs current) (record { partner = g.num_nodes; heaviest = 0 })

-- The section under the lock, and what follows it.
unfoldable pub locked : Graph → Proposals → ℕ → ℕ → ℕ → Best → Proposals × Pc
locked g s u finish current b =
    let y = s.suitor b.partner in
    if ltb (s.ws b.partner) b.heaviest
    then (
      propose s current b.partner b.heaviest,
      if y == g.num_nodes then outer (suc u) finish else enter g u finish y,
    )
    else (s, enter g u finish current)

-- One step of a thread.
unfoldable pub process : Graph → Proposals → Pc → Proposals × Pc
unfolding locked
process g s (outer u finish) = (s, if u == finish then outer u finish else enter g u finish u)
process g s (scanning u finish current (a ∷ rest) b) =
    (s, scanning u finish current rest (consider (accepts s) b a))
process g s (scanning u finish current [] b) =
    (s, if ltb 0 b.heaviest then locking u finish current b else outer (suc u) finish)
process g s (locking u finish current b) = locked g s u finish current b

-- The table and the threads.
pub record System : Type 0 where
  pub table : Proposals
  pub pc : ℕ → Pc

-- The threads that `procedure` starts over all the nodes.
unfoldable pub start : Graph → ℕ → System
start g threads = record {
  table = fresh g;
  pc = λ i. outer (first threads g.num_nodes i) (last threads g.num_nodes i);
}

-- Thread `i` takes a step, if there is a thread `i`.
unfoldable pub turn : Graph → ℕ → System → ℕ → System
turn g threads m i =
    let (s, p) = process g m.table (m.pc i) in
    if ltb i (created threads g.num_nodes) then record { table = s; pc = update m.pc i p } else m

-- The threads take steps in the given order.
unfoldable pub run : Graph → ℕ → List ℕ → System
run g threads = foldl (turn g threads) (start g threads)

-- The thread has left `process`.
abbrev pub IsDone : Pc → Type 0
IsDone (outer u finish) = u ≡ finish
IsDone (scanning _ _ _ _ _) = ⊥
IsDone (locking _ _ _ _) = ⊥

-- Every thread of `procedure` has been joined.
abbrev pub IsJoined : Graph → ℕ → System → Type 0
IsJoined g threads m = (i : ℕ) → i < created threads g.num_nodes → IsDone (m.pc i)
