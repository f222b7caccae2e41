-- ===== src/Examples/ParallelDominant.antt =====
-- source/parallel_dominant.cpp: phase 1 on the path, and an order of two threads on a tree that ends
-- in a table that is no matching.
use cpp_suitor_and_local_dom.Base.{
  ℕ, zero, suc, ◌≡◌, refl, Bool, true, false, Option, none, some, List, [], ◌∷◌, ◌++◌, foldl,
  ℕ_discrete,
}
use cpp_suitor_and_local_dom.Graph.{Arc, Graph}
use cpp_suitor_and_local_dom.Scan.{scan, consider}
use cpp_suitor_and_local_dom.Split.{created, first, last}
use cpp_suitor_and_local_dom.Dominant.Instance.{matched_pairs, asserts_hold}
use cpp_suitor_and_local_dom.ParallelDominant.{Section2, start1, turn1, run1, start2, turn2, run2}
use cpp_suitor_and_local_dom.ParallelDominant.Concurrent.{list_queue}
use cpp_suitor_and_local_dom.ParallelDominant.Phase2.{
  Pc, outside, Shared, take_node, step, turn, refill, Round, begin_round, begin_phase2,
}
use cpp_suitor_and_local_dom.ParallelDominant.Instance.{
  ParallelDominant, create, joined, rounds, simple_procedure, print_matching, test_matching,
}
use cpp_suitor_and_local_dom.Examples.Graphs.{path}

abbrev times : ℕ → ℕ → List ℕ
times zero i = []
times (suc k) i = i ∷ times k i

abbrev printed : Option ParallelDominant → List (ℕ × ℕ)
printed none = []
printed (some m) = print_matching m

abbrev passes : Option ParallelDominant → Bool
passes none = true
passes (some m) = test_matching m

-- Each thread at once.
path_run :
    printed (
      simple_procedure list_queue 2
        (times 2 0 ++ times 2 1)
        (times 2 1 ++ times 2 0)
        ((times 60 0 ++ times 60 1) ∷ (times 60 0 ++ times 60 1) ∷ [])
        (create path))
    ≡ (1, 2) ∷ (2, 1) ∷ []
unfolding simple_procedure rounds joined run1 start1 turn1 run2 start2 turn2 created first last scan
    consider take_node step turn refill create print_matching matched_pairs ℕ_discrete
path_run = refl

abbrev arc : ℕ → ℕ → Arc
arc v w = record { head = v; weight = w }

-- A tree: 0 - 1 and 2 - 3 are the heaviest edges; 4 and 5 hang on 0 and 2 and are joined; 6 hangs on
-- 4 and has the leaves 7 and 8.
abbrev tree_arcs : ℕ → List Arc
tree_arcs zero = arc 1 100 ∷ arc 4 50 ∷ []
tree_arcs (suc zero) = arc 0 100 ∷ []
tree_arcs (suc (suc zero)) = arc 3 99 ∷ arc 5 48 ∷ []
tree_arcs (suc (suc (suc zero))) = arc 2 99 ∷ []
tree_arcs (suc (suc (suc (suc zero)))) = arc 0 50 ∷ arc 5 40 ∷ arc 6 30 ∷ []
tree_arcs (suc (suc (suc (suc (suc zero))))) = arc 2 48 ∷ arc 4 40 ∷ []
tree_arcs (suc (suc (suc (suc (suc (suc zero)))))) = arc 4 30 ∷ arc 7 20 ∷ arc 8 10 ∷ []
tree_arcs (suc (suc (suc (suc (suc (suc (suc zero))))))) = arc 6 20 ∷ []
tree_arcs (suc (suc (suc (suc (suc (suc (suc (suc zero)))))))) = arc 6 10 ∷ []
tree_arcs _ = []

abbrev tree : Graph
tree = record { num_nodes = 9; arcs = tree_arcs }

-- 4 and 5 choose each other at once, and each thread queues both of them.
abbrev first_round : List ℕ
first_round = times 8 0 ++ times 10 1 ++ times 3 0 ++ times 3 1 ++ times 12 0 ++ times 9 1

-- So both threads get 4 and process 6: one matches it with 7, the other, which no longer sees 7
-- without a mate, with 8.
abbrev second_round : List ℕ
second_round = times 6 0 ++ times 16 1 ++ times 16 0 ++ times 16 1

abbrev third_round : List ℕ
third_round = times 24 0 ++ times 1 1

abbrev raced : Option ParallelDominant
raced =
    simple_procedure list_queue 2 (times 4 0 ++ times 5 1) (times 4 0 ++ times 5 1)
      (first_round ∷ second_round ∷ third_round ∷ []) (create tree)

raced_pairs :
    printed raced
    ≡ (0, 1) ∷ (1, 0) ∷ (2, 3) ∷ (3, 2) ∷ (4, 5) ∷ (5, 4) ∷ (6, 8) ∷ (7, 6) ∷ (8, 6) ∷ []
unfolding simple_procedure rounds joined run1 start1 turn1 run2 start2 turn2 created first last scan
    consider take_node step turn refill create print_matching matched_pairs ℕ_discrete
raced_pairs = refl

raced_fails : passes raced ≡ false
unfolding simple_procedure rounds joined run1 start1 turn1 run2 start2 turn2 created first last scan
    consider take_node step turn refill create test_matching asserts_hold ℕ_discrete
raced_fails = refl

-- 6 hangs on 4 and 7 on 5, and they are joined.
abbrev loop_arcs : ℕ → List Arc
loop_arcs zero = arc 1 100 ∷ arc 4 50 ∷ []
loop_arcs (suc zero) = arc 0 100 ∷ []
loop_arcs (suc (suc zero)) = arc 3 99 ∷ arc 5 48 ∷ []
loop_arcs (suc (suc (suc zero))) = arc 2 99 ∷ []
loop_arcs (suc (suc (suc (suc zero)))) = arc 0 50 ∷ arc 5 40 ∷ arc 6 30 ∷ []
loop_arcs (suc (suc (suc (suc (suc zero))))) = arc 2 48 ∷ arc 4 40 ∷ arc 7 29 ∷ []
loop_arcs (suc (suc (suc (suc (suc (suc zero)))))) = arc 4 30 ∷ arc 7 20 ∷ []
loop_arcs (suc (suc (suc (suc (suc (suc (suc zero))))))) = arc 5 29 ∷ arc 6 20 ∷ []
loop_arcs _ = []

abbrev looped : Graph
looped = record { num_nodes = 8; arcs = loop_arcs }

abbrev loop_first : List ℕ
loop_first =
    times 8 0 ++ times 11 1 ++ times 3 0 ++ times 3 1 ++ times 12 0 ++ times 9 1 ++ times 1 2

-- Threads 0 and 2 both process 6. Thread 0 has matched it with 7, and so has thread 1, which
-- processes 7, when thread 2 finds no free neighbour and writes `null_node()` to `candidate[6]`.
abbrev loop_second : List ℕ
loop_second =
    times 6 0
    ++ times 6 1
    ++ times 19 2
    ++ times 3 0
    ++ times 3 1
    ++ times 3 0
    ++ times 7 1
    ++ times 2 0
    ++ times 3 2
    ++ times 2 0

abbrev loop_marked : Section2 looped list_queue
loop_marked =
    run2 looped list_queue 1 (run1 looped 1 (λ _. 8) (times 8 0)).candidate (λ _. 8) (times 8 0)

abbrev loop_between : Option (Shared looped list_queue)
loop_between =
    refill looped list_queue 5
      (foldl (turn looped list_queue 3)
        (begin_round looped list_queue (
          begin_phase2 looped list_queue (run1 looped 1 (λ _. 8) (times 8 0)).candidate
            loop_marked))
        loop_first).shared

abbrev is_outside : Option (Shared looped list_queue) → Bool
is_outside none = false
is_outside (some s) =
    match_pc ((foldl (turn looped list_queue 3) (begin_round looped list_queue s) loop_second).pc 0)
  where
    match_pc : Pc → Bool
    match_pc outside = true
    match_pc _ = false

-- Thread 0 would next write `mate[G.nodeId(null_node())]`.
written_outside : is_outside loop_between ≡ true
unfolding run1 start1 turn1 run2 start2 turn2 created first last scan consider take_node step turn
    refill ℕ_discrete
written_outside = refl

abbrev searched : List ℕ
searched = times 2 0 ++ times 2 1

abbrev marked : List ℕ
marked = 1 ∷ 0 ∷ 1 ∷ 0 ∷ []

abbrev after_marks : Section2 path list_queue
after_marks = run2 path list_queue 2 (run1 path 2 (λ _. 4) searched).candidate (λ _. 4) marked

-- The first round, after one step of each thread.
abbrev both_dequeued : Round path list_queue
both_dequeued =
    turn path list_queue 2
      (turn path list_queue 2
        (begin_round path list_queue
          (begin_phase2 path list_queue (run1 path 2 (λ _. 4) searched).candidate after_marks))
        0)
      1
