-- ===== src/Dominant/Improved.antt =====
-- source/sequential_dominant.cpp: `improved_procedure`, which joins the matchings in `mate` and
-- `mate2` into `mate3`, and runs `procedure` on that.
pub mod Run
pub mod Correct
use cpp_suitor_and_local_dom.Base.{ℕ, Bool, true, Option, some, ◌==◌, ◌>>=◌, if◌then◌else◌}
use cpp_suitor_and_local_dom.Graph.{Arc, Graph}
use cpp_suitor_and_local_dom.Heavy.{Twin, join_matchings}
use cpp_suitor_and_local_dom.Dominant.{procedure}
use cpp_suitor_and_local_dom.Dominant.Instance.{SequentialDominant, two_matchings, find_weight}

-- `G.edgeWeight(G.get_edge(from, to))`: of the first edge to `to`. `get_edge` returns nothing if
-- there is none; `beyond from` is what is then read.
abbrev pub weight_to : (ℕ → ℕ) → Graph → ℕ → ℕ → ℕ
weight_to beyond g from to = find_weight (beyond from) (g.arcs from) to

-- The weight of the edge to a mate. It is never read of a node without one.
abbrev pub mate_weight : (ℕ → ℕ) → Graph → (ℕ → ℕ) → ℕ → ℕ
mate_weight beyond g mate u = if mate u == g.num_nodes then 0 else weight_to beyond g u (mate u)

abbrev pub twin : (ℕ → ℕ → ℕ) → (ℕ → ℕ) → SequentialDominant → Twin
twin plus beyond m = record {
  null = m.graph.num_nodes;
  mate = m.mate;
  mate2 = m.mate2;
  weight = mate_weight beyond m.graph m.mate;
  weight2 = mate_weight beyond m.graph m.mate2;
  plus = plus;
}

-- `plus` adds doubles. The `ws` of the table that is filled stands for no array: only `mate3` is kept.
unfoldable pub improved_procedure :
    (ℕ → ℕ → ℕ) → (ℕ → ℕ) → ℕ → SequentialDominant → Option SequentialDominant
unfolding two_matchings
improved_procedure plus beyond fuel m = two_matchings fuel m >>= λ b.
    join_matchings (twin plus beyond b) b.graph.num_nodes (record { suitor = b.mate3; ws = λ _. 0 })
    >>= λ t.
        procedure b.graph (λ _ _. true) fuel t.suitor >>= λ s. some (record b { mate3 = s.mate })
