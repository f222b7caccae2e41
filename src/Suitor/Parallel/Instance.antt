-- ===== src/Suitor/Parallel/Instance.antt =====
-- source/parallel_suitor.cpp: the instance and its public operations without the heavy matching.
-- `union_find` and the locks are left out: only the heavy matching reads the one, and the others
-- are free between operations.
pub mod Passes
use cpp_suitor_and_local_dom.Base.{
  ℕ, zero, suc, Bool, true, false, ◌&&◌, List, [], ◌∷◌, ◌++◌, foldl, ◌==◌, if◌then◌else◌,
}
use cpp_suitor_and_local_dom.Graph.{Graph}
use cpp_suitor_and_local_dom.Suitor.Protocol.{Proposals}
use cpp_suitor_and_local_dom.Suitor.Sequential.{fresh}
use cpp_suitor_and_local_dom.Suitor.Parallel.{System, start, turn, IsJoined}

-- `suitor` and `ws` are one table, and so are `suitor2` and `ws2`, and so on.
pub record ParallelSuitor : Type 0 where
  pub graph : Graph
  pub first_table : Proposals
  pub second_table : Proposals
  pub third_table : Proposals
  pub fourth_table : Proposals
  pub optimized : Bool
  pub processed : ℕ → Bool

-- The constructor.
unfoldable pub create : Graph → ParallelSuitor
create g = record {
  graph = g;
  first_table = fresh g;
  second_table = fresh g;
  third_table = fresh g;
  fourth_table = fresh g;
  optimized = false;
  processed = λ _. false;
}

-- The threads of `procedure` on a table, which take steps in the given order.
unfoldable pub procedure : Graph → ℕ → List ℕ → Proposals → System
procedure g threads order s =
    foldl (turn g threads) (record { table = s; pc = (start g threads).pc }) order

unfoldable pub simple_procedure : ℕ → List ℕ → ParallelSuitor → ParallelSuitor
unfolding procedure
simple_procedure threads order m = record m {
  first_table = (procedure m.graph threads order m.first_table).table;
}

-- The threads of `simple_procedure` can be joined after these steps.
abbrev pub IsFinished : ℕ → List ℕ → ParallelSuitor → Type 0
IsFinished threads order m =
    IsJoined m.graph threads (procedure m.graph threads order m.first_table)

unfoldable pub clear_mate : ParallelSuitor → ParallelSuitor
clear_mate m =
    let one = record m { first_table = fresh m.graph } in
    if m.optimized
    then record one {
      second_table = fresh m.graph;
      third_table = fresh m.graph;
      processed = λ _. false;
      optimized = false;
    }
    else one

-- An index and its suitor, where it has one.
unfoldable pub matched_pairs : ℕ → (ℕ → ℕ) → ℕ → List (ℕ × ℕ)
matched_pairs null suitor zero = []
matched_pairs null suitor (suc n) =
    matched_pairs null suitor n ++ (if suitor n == null then [] else (n, suitor n) ∷ [])

unfoldable pub print_matching : ParallelSuitor → List (ℕ × ℕ)
unfolding matched_pairs
print_matching m =
    let shown : Proposals = if m.optimized then m.third_table else m.first_table in
    matched_pairs m.graph.num_nodes shown.suitor m.graph.num_nodes

-- `std::accumulate` over the first `n` entries; `plus` adds doubles.
unfoldable pub accumulate : (ℕ → ℕ → ℕ) → (ℕ → ℕ) → ℕ → ℕ
accumulate plus f zero = 0
accumulate plus f (suc n) = plus (accumulate plus f n) (f n)

unfoldable pub matching_quality : (ℕ → ℕ → ℕ) → (ℕ → ℕ) → ParallelSuitor → ℕ
unfolding accumulate
matching_quality plus halve m =
    let shown : Proposals = if m.optimized then m.third_table else m.first_table in
    halve (accumulate plus shown.ws m.graph.num_nodes)

-- The loop of asserts over one table.
unfoldable pub asserts_hold : ℕ → (ℕ → ℕ) → ℕ → Bool
asserts_hold null suitor zero = true
asserts_hold null suitor (suc u) =
    asserts_hold null suitor u && (if suitor u == null then true else suitor (suitor u) == u)

unfoldable pub test_matching : ParallelSuitor → Bool
unfolding asserts_hold
test_matching m =
    let holds = λ (t : Proposals). asserts_hold m.graph.num_nodes t.suitor m.graph.num_nodes in
    if m.optimized
    then holds m.first_table && holds m.second_table && holds m.third_table
    else holds m.first_table
