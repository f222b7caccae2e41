-- ===== src/Suitor/Sequential.antt =====
-- source/sequential_suitor.cpp: the class, `procedure` and the utilities.
-- A node handle is the node's index, and `null_node()` is `num_nodes`, as in `G.node(num_nodes)`.
pub mod Round
pub mod Loop
pub mod Correct
pub mod Second
pub mod Improved
use cpp_suitor_and_local_dom.Base.{
  ℕ, zero, suc, Bool, true, false, ◌&&◌, Option, none, some, List, [], ◌∷◌, ◌++◌, ltb, ◌==◌, ◌>>=◌,
  if◌then◌else◌, update,
}
use cpp_suitor_and_local_dom.Graph.{Arc, Graph}
use cpp_suitor_and_local_dom.Scan.{Best, scan}
use cpp_suitor_and_local_dom.Suitor.Protocol.{Proposals, propose}

-- The members of the class. `suitor` and `ws` are one table, and so are `suitor2` and `ws2`,
-- `suitor3` and `ws3`, `suitor4` and `ws4`.
pub record SequentialSuitor : Type 0 where
  pub graph : Graph
  pub first : Proposals
  pub second : Proposals
  pub third : Proposals
  pub fourth : Proposals
  pub optimized : Bool

-- `suitor(n, null_node())` and `ws(n, 0)`.
abbrev pub fresh : Graph → Proposals
fresh g = record { suitor = λ _. g.num_nodes; ws = λ _. 0 }

unfoldable pub create : Graph → SequentialSuitor
create g = record {
  graph = g;
  first = fresh g;
  second = fresh g;
  third = fresh g;
  fourth = fresh g;
  optimized = false;
}

-- `weight_v > ws[*v]`
abbrev pub accepts : Proposals → Arc → Bool
accepts s a = ltb (s.ws a.head) a.weight

-- The end of a round of the `while` loop: the tables, and the node that goes on, if any.
abbrev pub conclude : Graph → Proposals → ℕ → Best → Proposals × Option ℕ
conclude g s current b =
    let dislodged = s.suitor b.partner in
    if ltb 0 b.heaviest
    then (
      propose s current b.partner b.heaviest,
      if dislodged == g.num_nodes then none else some dislodged,
    )
    else (s, none)

-- One round.
unfoldable pub round : Graph → Proposals → ℕ → Proposals × Option ℕ
round g s current =
    let own : Best = record { partner = s.suitor current; heaviest = s.ws current } in
    conclude g s current (scan (accepts s) own (g.arcs current))

-- `done`, or the loop again.
abbrev pub resume : (Proposals → ℕ → Option Proposals) → Proposals × Option ℕ → Option Proposals
resume again (s, none) = some s
resume again (s, some next) = again s next

-- The `while` loop of the given rounds, on fuel.
unfoldable pub chase : (Proposals → ℕ → Proposals × Option ℕ) → ℕ → Proposals → ℕ → Option Proposals
chase body zero s current = none
chase body (suc fuel) s current = resume (chase body fuel) (body s current)

-- The `for` loop over the `k` nodes from `u` on.
unfoldable pub for_nodes :
    (Proposals → ℕ → Proposals × Option ℕ) → ℕ → ℕ → ℕ → Proposals → Option Proposals
for_nodes body fuel zero u s = some s
for_nodes body fuel (suc k) u s = do t ← chase body fuel s u; for_nodes body fuel k (suc u) t

unfoldable pub procedure : Graph → ℕ → Proposals → Option Proposals
procedure g fuel s = for_nodes (round g) fuel g.num_nodes 0 s

-- `procedure` on the members `suitor` and `ws`.
unfoldable pub simple_procedure : ℕ → SequentialSuitor → Option SequentialSuitor
simple_procedure fuel m = do t ← procedure m.graph fuel m.first; some (record m { first = t })

-- `clear_mate`: all entries of the arrays it names are overwritten.
unfoldable pub clear_mate : SequentialSuitor → SequentialSuitor
clear_mate m =
    if m.optimized
    then record m {
      first = fresh m.graph;
      second = fresh m.graph;
      third = fresh m.graph;
      optimized = false;
    }
    else record m { first = fresh m.graph }

-- The lines that `print_matching` writes for one array: an index and its partner.
unfoldable pub matched_pairs : Graph → Proposals → ℕ → List (ℕ × ℕ)
matched_pairs g s zero = []
matched_pairs g s (suc n) =
    matched_pairs g s n ++ (if s.suitor n == g.num_nodes then [] else (n, s.suitor n) ∷ [])

unfoldable pub print_matching : SequentialSuitor → List (ℕ × ℕ)
unfolding matched_pairs
print_matching m =
    matched_pairs m.graph (if m.optimized then m.third else m.first) m.graph.num_nodes

-- `std::accumulate(ws.begin(), ws.end(), (double) 0)`; `plus` is the addition of doubles.
unfoldable pub accumulate : (ℕ → ℕ → ℕ) → ℕ → (ℕ → ℕ) → ℕ
accumulate plus zero f = 0
accumulate plus (suc n) f = plus (accumulate plus n f) (f n)

-- `halve` is the division of a double by 2.
unfoldable pub matching_quality : (ℕ → ℕ → ℕ) → (ℕ → ℕ) → SequentialSuitor → ℕ
unfolding accumulate
matching_quality plus halve m =
    let t : Proposals = if m.optimized then m.third else m.first in
    halve (accumulate plus m.graph.num_nodes t.ws)

-- The loop of asserts over one array: `true` if none fails.
unfoldable pub asserts_hold : Graph → Proposals → ℕ → Bool
asserts_hold g s zero = true
asserts_hold g s (suc u) =
    asserts_hold g s u && (if s.suitor u == g.num_nodes then true else s.suitor (s.suitor u) == u)

unfoldable pub test_matching : SequentialSuitor → Bool
unfolding asserts_hold
test_matching m =
    let holds = λ (t : Proposals). asserts_hold m.graph t m.graph.num_nodes in
    if m.optimized
    then holds m.first && holds m.second && holds m.third && holds m.fourth
    else holds m.first
