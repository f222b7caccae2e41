-- ===== src/Suitor/LockFree.antt =====
-- source/parallel_free_suitor.cpp: the suitor algorithm with compare-and-swap. `suitor[v]` is the
-- position of the edge from the suitor to `v`. A step of a thread ends at its next access of
-- `suitor`.
pub mod Table
pub mod Claims
pub mod Searching
pub mod Swapping
pub mod Turns
pub mod Correct
pub mod TestMatching
pub mod Quality
use cpp_suitor_and_local_dom.Base.{
  ℕ, zero, suc, ◌+◌, ◌<◌, ◌≡◌, Bool, true, false, ◌&&◌, List, [], ◌∷◌, ◌++◌, foldl, ltb, ◌==◌,
  if◌then◌else◌, update,
}
use cpp_suitor_and_local_dom.Split.{created, first, last}
use cpp_suitor_and_local_dom.AdjacencyArray2.{
  AdjacencyArray2, null_edge, target, weight, edge_head, begin_at, end_at,
}

-- Where a thread stands in `process`, with `u` and `finish` of its outer loop.
pub data Pc : Type 0 where
  outer : (u finish : ℕ) → Pc  -- head of the `for` loop over the nodes
  -- in the loop over the edges, at the position `v`
  scanning : (u finish current v partner heaviest : ℕ) → Pc
  loading : (u finish current partner heaviest : ℕ) → Pc  -- before `current_suitor` is loaded
  swapping : (u finish current partner heaviest current_suitor : ℕ) → Pc  -- before the exchange

module _ (a : AdjacencyArray2) where
  -- Head of the `while` loop: `partner = G.null_edge(); heaviest = 0; v = G.beginEdges(current)`.
  abbrev pub restart : ℕ → ℕ → ℕ → Pc
  restart u finish current = scanning u finish current (begin_at a current) (null_edge a) 0

  -- One edge of the loop.
  unfoldable pub look : (ℕ → ℕ) → ℕ → ℕ → ℕ → ℕ → ℕ → ℕ → Pc
  look suitor u finish current v partner heaviest =
      if ltb heaviest (weight a v) && ltb (weight a (suitor (target a v))) (weight a v)
      then scanning u finish current (suc v) v (weight a v)
      else scanning u finish current (suc v) partner heaviest

  -- After a successful exchange, with the edge that was replaced.
  abbrev pub continue : ℕ → ℕ → ℕ → Pc
  continue u finish replaced =
      let y = edge_head a replaced in
      if y == a.base.num_nodes then outer (suc u) finish else restart u finish y

  -- One step of a thread.
  unfoldable pub step : (ℕ → ℕ) → Pc → (ℕ → ℕ) × Pc
  unfolding look
  step suitor (outer u finish) =
      (suitor, if u == finish then outer u finish else restart u finish u)
  step suitor (scanning u finish current v partner heaviest) = (
    suitor,
    if v == end_at a current
        then (if ltb 0 heaviest
            then loading u finish current partner heaviest
            else outer (suc u) finish)
        else look suitor u finish current v partner heaviest,
  )
  step suitor (loading u finish current partner heaviest) =
      let current_suitor = suitor (target a partner) in
      (
        suitor,
        if ltb (weight a current_suitor) heaviest
            then swapping u finish current partner heaviest current_suitor
            else restart u finish current,
      )
  step suitor (swapping u finish current partner heaviest current_suitor) =
      if suitor (target a partner) == current_suitor
      then (update suitor (target a partner) partner, continue u finish current_suitor)
      else (suitor, restart u finish current)

  -- `suitor` and the threads.
  pub record System : Type 0 where
    pub suitor : ℕ → ℕ
    pub pc : ℕ → Pc

  -- The constructor and the threads that `simple_procedure` starts.
  unfoldable pub start : ℕ → System
  start threads = record {
    suitor = λ _. null_edge a;
    pc = λ i. outer (first threads a.base.num_nodes i) (last threads a.base.num_nodes i);
  }

  -- Thread `i` takes a step, if there is a thread `i`.
  unfoldable pub turn : ℕ → System → ℕ → System
  turn threads m i =
      let (s, p) = step m.suitor (m.pc i) in
      if ltb i (created threads a.base.num_nodes)
      then record { suitor = s; pc = update m.pc i p }
      else m

  -- The threads take steps in the given order.
  unfoldable pub run : ℕ → List ℕ → System
  run threads = foldl (turn threads) (start threads)

  abbrev pub IsDone : Pc → Type 0
  IsDone (outer u finish) = u ≡ finish
  IsDone _ = ⊥

  -- Every thread of `simple_procedure` has been joined.
  abbrev pub IsJoined : ℕ → System → Type 0
  IsJoined threads m = (i : ℕ) → i < created threads a.base.num_nodes → IsDone (m.pc i)

  -- The loop of asserts of `test_matching`.
  unfoldable pub asserts_hold : (ℕ → ℕ) → ℕ → Bool
  asserts_hold suitor zero = true
  asserts_hold suitor (suc u) =
      let suit1 = suitor u in
      let suit2 = suitor (target a suit1) in
      asserts_hold suitor u && (if suit1 == null_edge a then true else target a suit2 == u)

  unfoldable pub test_matching : (ℕ → ℕ) → Bool
  unfolding asserts_hold
  test_matching suitor = asserts_hold suitor a.base.num_nodes

  -- `print_matching`: an index and its suitor.
  unfoldable pub matched_pairs : (ℕ → ℕ) → ℕ → List (ℕ × ℕ)
  matched_pairs suitor zero = []
  matched_pairs suitor (suc n) =
      matched_pairs suitor n
      ++ (if suitor n == null_edge a then [] else (n, edge_head a (suitor n)) ∷ [])

  unfoldable pub print_matching : (ℕ → ℕ) → List (ℕ × ℕ)
  unfolding matched_pairs
  print_matching suitor = matched_pairs suitor a.base.num_nodes

  -- `counter += iter->load()->second` over all entries; `plus` adds doubles.
  unfoldable pub accumulate : (ℕ → ℕ → ℕ) → (ℕ → ℕ) → ℕ → ℕ
  accumulate plus suitor zero = 0
  accumulate plus suitor (suc n) = plus (accumulate plus suitor n) (weight a (suitor n))

  unfoldable pub matching_quality : (ℕ → ℕ → ℕ) → (ℕ → ℕ) → (ℕ → ℕ) → ℕ
  unfolding accumulate
  matching_quality plus halve suitor = halve (accumulate plus suitor a.base.num_nodes)

  -- `clear_mate`: every entry is stored anew.
  unfoldable pub clear_mate : (ℕ → ℕ) → ℕ → ℕ
  clear_mate suitor = λ _. null_edge a
