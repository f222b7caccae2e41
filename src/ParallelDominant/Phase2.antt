-- ===== src/ParallelDominant/Phase2.antt =====
-- source/parallel_dominant.cpp: `processVertex`, `phase2` and the rounds of `simple_procedure`. A
-- step of a thread is one access of a queue, or one read or write of `mate` or `candidate`;
-- `candidate[u_id]` is read anew wherever the code names it. A thread that would use `null_node()` as
-- an index goes `outside` instead, and takes no more steps.
use cpp_suitor_and_local_dom.Base.{
  ℕ, zero, suc, ◌≡◌, true, not, List, [], ◌∷◌, Option, none, some, ◌>>=◌, ltb, ◌==◌, if◌then◌else◌,
  update,
}
use cpp_suitor_and_local_dom.Graph.{Arc, Graph}
use cpp_suitor_and_local_dom.Scan.{Best, consider}
use cpp_suitor_and_local_dom.Dominant.{is_free}
use cpp_suitor_and_local_dom.ParallelDominant.{ConcurrentQueue, run1, Section2, run2, IsOver}

-- Where a thread stands in `phase2`: `u` is the node from `QC` and `rest` what is left of its
-- edges; `v` is the node that `processVertex` is called with, and `x` what the thread has just read
-- in `candidate[u_id]`.
pub data Pc : Type 0 where
  dequeuing : Pc
  looping : (u : ℕ) (rest : List Arc) → Pc
  testing : (u : ℕ) (rest : List Arc) (v : ℕ) → Pc  -- `mate[u]` is not `v`
  searching : (u : ℕ) (rest : List Arc) (v : ℕ) (edges : List Arc) (best : Best) → Pc
  asking : (u : ℕ) (rest : List Arc) (v : ℕ) → Pc  -- `candidate[u_id]` is written
  choosing : (u : ℕ) (rest : List Arc) (v : ℕ) → Pc
  comparing : (u : ℕ) (rest : List Arc) (v x : ℕ) → Pc
  matching : (u : ℕ) (rest : List Arc) (v : ℕ) → Pc
  matching_with : (u : ℕ) (rest : List Arc) (v x : ℕ) → Pc
  returning : (u : ℕ) (rest : List Arc) (v : ℕ) → Pc  -- `mate[u_id]` is written
  returning_to : (u : ℕ) (rest : List Arc) (v x : ℕ) → Pc
  queuing : (u : ℕ) (rest : List Arc) (v : ℕ) → Pc
  queuing_mate : (u : ℕ) (rest : List Arc) (v : ℕ) → Pc
  queuing_as : (u : ℕ) (rest : List Arc) (v x : ℕ) → Pc
  over : Pc
  outside : Pc  -- out of the bounds of an array: whatever follows is undefined

module _ (g : Graph) (c : ConcurrentQueue) where
  -- What the threads share.
  pub record Shared : Type 0 where
    pub candidate : ℕ → ℕ
    pub mate : ℕ → ℕ
    pub current_queue : c.Queue  -- `QC`
    pub next_queue : c.Queue  -- `QN`

  -- `QC.try_dequeue(u)`. `beginEdges` and `endEdges` of `null_node()` read beyond the arrays.
  unfoldable pub take_node : Shared → Option (ℕ × c.Queue) → Shared × Pc
  take_node s none = (s, over)
  take_node s (some (u, q)) =
      (record s { current_queue = q }, if u == g.num_nodes then outside else looping u (g.arcs u))

  unfoldable pub step : Shared → Pc → Shared × Pc
  unfolding take_node consider
  step s dequeuing = take_node s (c.try_dequeue s.current_queue)
  step s (looping u []) = (s, dequeuing)
  step s (looping u (v ∷ rest)) =
      (s, if not (s.mate u == v.head) then testing u rest v.head else looping u rest)
  step s (testing u rest v) = (
    s,
    if s.candidate v == u
        then searching u rest v (g.arcs v) (record { partner = g.num_nodes; heaviest = 0 })
        else looping u rest,
  )
  step s (searching u rest v (t ∷ edges) best) =
      (s, searching u rest v edges (consider (is_free g (λ _ _. true) s.mate v) best t))
  step s (searching u rest v [] best) =
      (record s { candidate = update s.candidate v best.partner }, asking u rest v)
  step s (asking u rest v) =
      (s, if s.candidate v == g.num_nodes then looping u rest else choosing u rest v)
  step s (choosing u rest v) = (s, comparing u rest v (s.candidate v))
  step s (comparing u rest v x) = (
    s,
    if x == g.num_nodes
        then outside
        else if s.candidate x == v
        then matching u rest v
        else looping u rest,
  )
  step s (matching u rest v) = (s, matching_with u rest v (s.candidate v))
  step s (matching_with u rest v x) = (record s { mate = update s.mate v x }, returning u rest v)
  step s (returning u rest v) = (s, returning_to u rest v (s.candidate v))
  step s (returning_to u rest v x) =
      if x == g.num_nodes
      then (s, outside)
      else (record s { mate = update s.mate x v }, queuing u rest v)
  step s (queuing u rest v) =
      (record s { next_queue = c.enqueue s.next_queue v }, queuing_mate u rest v)
  step s (queuing_mate u rest v) = (s, queuing_as u rest v (s.candidate v))
  step s (queuing_as u rest v x) =
      (record s { next_queue = c.enqueue s.next_queue x }, looping u rest)
  step s over = (s, over)
  step s outside = (s, outside)

  pub record Round : Type 0 where
    pub shared : Shared
    pub pc : ℕ → Pc

  -- Thread `i` takes a step, if there is a thread `i`.
  unfoldable pub turn : ℕ → Round → ℕ → Round
  unfolding step
  turn threads r i =
      let (s, p) = step r.shared (r.pc i) in
      if ltb i threads then record { shared = s; pc = update r.pc i p } else r

  -- The threads of a round are started.
  abbrev pub begin_round : Shared → Round
  begin_round s = record { shared = s; pc = λ _. dequeuing }

  -- The loop that fills `QC` from `QN`. A `try_dequeue` that fails would leave `u` unset.
  unfoldable pub refill : ℕ → Shared → Option Shared
  refill zero s = none
  refill (suc fuel) s =
      let again = c.try_dequeue s.next_queue >>= λ (u, q).
      refill fuel (record s { next_queue = q; current_queue = c.enqueue s.current_queue u }) in
      if c.size_approx s.next_queue == 0 then some s else again

  -- After phase 1, at the start of the first round.
  abbrev pub begin_phase2 : (ℕ → ℕ) → Section2 g c → Shared
  begin_phase2 candidate s = record {
    candidate = candidate;
    mate = s.mate;
    current_queue = s.queue;
    next_queue = c.with_room g.num_nodes;
  }

  abbrev pub IsFinished : ℕ → Round → Type 0
  IsFinished threads r = (i : ℕ) → ltb i threads ≡ true → r.pc i ≡ over

  -- The states that `simple_procedure` reaches in phase 2.
  pub data Reached (threads : ℕ) : Round → Type 0 where
    begun :
        (order1 order2 : List ℕ)
        → IsOver g threads (run1 g threads (λ _. g.num_nodes) order1).node
        → IsOver g threads
            (run2 g c threads
              (run1 g threads (λ _. g.num_nodes) order1).candidate
              (λ _. g.num_nodes)
              order2).node
        → Reached threads (
            begin_round (
              begin_phase2 (run1 g threads (λ _. g.num_nodes) order1).candidate (
                run2 g c threads
                  (run1 g threads (λ _. g.num_nodes) order1).candidate
                  (λ _. g.num_nodes)
                  order2)))
    stepped : {r : Round} (i : ℕ) → Reached threads r → Reached threads (turn threads r i)
    -- The threads are joined, and `QC` is filled for another round.
    refilled :
        {r : Round} {s : Shared} (fuel : ℕ)
        → Reached threads r
        → IsFinished threads r
        → refill fuel r.shared ≡ some s
        → Reached threads (begin_round s)
