-- ===== src/Suitor/LockFree/Turns.antt =====
-- Every step of a thread of the lock-free `process` keeps what the threads rely on.
use cpp_suitor_and_local_dom.Base.{ℕ, ◌<◌, ◌≡◌, refl, update}
use cpp_suitor_and_local_dom.Graph.{IsSimple}
use cpp_suitor_and_local_dom.AdjacencyArray2.{AdjacencyArray2, graph_of}
use cpp_suitor_and_local_dom.AdjacencyArray2.Positions.{IsIndexed}
use cpp_suitor_and_local_dom.Suitor.Protocol.{Proposals}
use cpp_suitor_and_local_dom.Suitor.Threads.{IsShared}
use cpp_suitor_and_local_dom.Suitor.LockFree.{Pc, outer, scanning, loading, swapping, step}
use cpp_suitor_and_local_dom.Suitor.LockFree.Table.{table}
use cpp_suitor_and_local_dom.Suitor.LockFree.Claims.{lock_free_thread}
use cpp_suitor_and_local_dom.Suitor.LockFree.Searching.{outer-Kept, scanning-Kept, loading-Kept}
use cpp_suitor_and_local_dom.Suitor.LockFree.Swapping.{swapping-Kept}

module _ (a : AdjacencyArray2) (indexed : IsIndexed a) (simple : IsSimple (graph_of a)) {k : ℕ}
    (suitor : ℕ → ℕ) {pc : ℕ → Pc}
    (h : IsShared (graph_of a) (lock_free_thread a) k (table a suitor) pc) (i : ℕ)
    (lt : i < k) where
  abbrev s : Proposals
  s = table a suitor

  abbrev n : ℕ
  n = a.base.num_nodes

  abbrev Kept : (ℕ → ℕ) × Pc → Type 0
  Kept (suitor', p') =
      IsShared (graph_of a) (lock_free_thread a) k (table a suitor') (update pc i p')

  -- The step of thread `i`, wherever it stands.
  step_at : (p : Pc) → pc i ≡ p → Kept (step a suitor p)
  step_at (outer u finish) e = outer-Kept a indexed simple suitor h i lt u finish e
  step_at (scanning u finish current v partner heaviest) e =
      scanning-Kept a indexed simple suitor h i lt u finish current v partner heaviest e
  step_at (loading u finish current partner heaviest) e =
      loading-Kept a indexed simple suitor h i lt u finish current partner heaviest e
  step_at (swapping u finish current partner heaviest current_suitor) e =
      swapping-Kept a indexed simple suitor h i lt u finish current partner heaviest current_suitor
        e

  pub step-IsShared :
      IsShared
        (graph_of a)
        (lock_free_thread a)
        k
        (table a (step a suitor (pc i)).0)
        (update pc i (step a suitor (pc i)).1)
  step-IsShared = step_at (pc i) refl
