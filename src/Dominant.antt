-- ===== src/Dominant.antt =====
-- source/sequential_dominant.cpp: the local dominant algorithm. `mate2` of the optimised run is
-- found by the same `procedure` with `processVertex2`, which leaves out the edges matched in
-- `mate`; `allowed u v` is that test, and true for `processVertex`.
pub mod Sound
pub mod Vertex
pub mod Room
pub mod Process
pub mod Loop
pub mod Correct
pub mod Instance
pub mod Runs
pub mod Rest
pub mod Quality
pub mod Improved
pub mod Reached
use cpp_suitor_and_local_dom.Base.{
  ℕ, zero, suc, Bool, true, not, ◌&&◌, List, [], ◌∷◌, Option, none, some, ◌==◌, if◌then◌else◌,
  update,
}
use cpp_suitor_and_local_dom.Graph.{Arc, Graph}
use cpp_suitor_and_local_dom.Scan.{Best, scan}
use cpp_suitor_and_local_dom.LocalQueue.{LocalQueue, with_capacity, push_back, pop_front}

-- `candidate`, the table of mates that is being filled, and `Q`.
pub record State : Type 0 where
  pub candidate : ℕ → ℕ
  pub mate : ℕ → ℕ
  pub queue : LocalQueue

-- `u` and `v` become mates, and are queued.
unfoldable pub match : State → ℕ → ℕ → State
match s u v = record s {
  mate = update (update s.mate u v) v u;
  queue = push_back (push_back s.queue u) v;
}

module _ (g : Graph) (allowed : ℕ → ℕ → Bool) where
  abbrev pub is_free : (ℕ → ℕ) → ℕ → Arc → Bool
  is_free mate u t = (mate t.head == g.num_nodes) && allowed u t.head

  -- The loop of `processVertex`: the heaviest edge of `u` to a node without a mate.
  abbrev pub heaviest_free : (ℕ → ℕ) → ℕ → Best
  heaviest_free mate u =
      scan (is_free mate u) (record { partner = g.num_nodes; heaviest = 0 }) (g.arcs u)

  -- `processVertex` and `processVertex2`.
  unfoldable pub process_vertex : State → ℕ → State
  unfolding match
  process_vertex s u =
      let v = (heaviest_free s.mate u).partner in
      let chosen = record s { candidate = update s.candidate u v } in
      if v == g.num_nodes
      then chosen
      else if chosen.candidate v == u
      then match chosen u v
      else chosen

  -- The loop over the nodes `0` to `k - 1`.
  unfoldable pub process_all : ℕ → State → State
  unfolding process_vertex
  process_all zero s = s
  process_all (suc k) s = process_vertex (process_all k s) k

  -- The loop over the edges of the node `u` from the queue.
  unfoldable pub visit : ℕ → List Arc → State → State
  unfolding process_vertex
  visit u [] s = s
  visit u (v ∷ rest) s =
      visit u rest (
        if not (s.mate u == v.head) && (s.candidate v.head == u)
        then process_vertex s v.head
        else s)

  -- The loop over the queue.
  unfoldable pub drain : ℕ → State → Option State
  unfolding visit
  drain zero s = none
  drain (suc fuel) s =
      let (u, rest) = pop_front s.queue in
      let again = drain fuel (visit u (g.arcs u) (record s { queue = rest })) in
      if s.queue.size == 0 then some s else again

  -- `procedure` on the given table of mates.
  unfoldable pub procedure : ℕ → (ℕ → ℕ) → Option State
  unfolding process_all drain
  procedure fuel mate = drain fuel (
      process_all g.num_nodes
        (record { candidate = λ _. g.num_nodes; mate = mate; queue = with_capacity g.num_nodes }))
