-- ===== src/Dominant/Instance.antt =====
-- source/sequential_dominant.cpp: the instance and its public operations, less what
-- `improved_procedure` does with its two matchings.
use cpp_suitor_and_local_dom.Base.{
  ℕ, zero, suc, Bool, true, false, not, ◌&&◌, List, [], ◌∷◌, ◌++◌, Option, some, ◌>>=◌, ◌==◌,
  if◌then◌else◌,
}
use cpp_suitor_and_local_dom.Graph.{Arc, Graph}
use cpp_suitor_and_local_dom.Dominant.{procedure}

pub record SequentialDominant : Type 0 where
  pub graph : Graph
  pub mate : ℕ → ℕ
  pub mate2 : ℕ → ℕ
  pub mate3 : ℕ → ℕ
  pub optimized : Bool

-- The constructor.
unfoldable pub create : Graph → SequentialDominant
create g = record {
  graph = g;
  mate = λ _. g.num_nodes;
  mate2 = λ _. g.num_nodes;
  mate3 = λ _. g.num_nodes;
  optimized = false;
}

unfoldable pub simple_procedure : ℕ → SequentialDominant → Option SequentialDominant
simple_procedure fuel m =
    procedure m.graph (λ _ _. true) fuel m.mate >>= λ s. some (record m { mate = s.mate })

-- The test of `processVertex2` on the edge from `u` to `v`: `mate[u_id] != G.node(*t)`.
abbrev pub unmatched : (ℕ → ℕ) → ℕ → ℕ → Bool
unmatched mate u v = not (mate u == v)

-- How `improved_procedure` begins: it finds a second matching beside the first.
unfoldable pub two_matchings : ℕ → SequentialDominant → Option SequentialDominant
two_matchings fuel m = procedure m.graph (λ _ _. true) fuel m.mate >>= λ s.
    procedure m.graph (unmatched s.mate) fuel m.mate2 >>= λ s2.
    some (record m { mate = s.mate; mate2 = s2.mate; optimized = true })

unfoldable pub clear_mate : SequentialDominant → SequentialDominant
clear_mate m =
    let one = record m { mate = λ _. m.graph.num_nodes } in
    if m.optimized
    then record one {
      mate2 = λ _. m.graph.num_nodes;
      mate3 = λ _. m.graph.num_nodes;
      optimized = false;
    }
    else one

-- An index and its mate, where it has one.
unfoldable pub matched_pairs : ℕ → (ℕ → ℕ) → ℕ → List (ℕ × ℕ)
matched_pairs null mate zero = []
matched_pairs null mate (suc n) =
    matched_pairs null mate n ++ (if mate n == null then [] else (n, mate n) ∷ [])

unfoldable pub print_matching : SequentialDominant → List (ℕ × ℕ)
unfolding matched_pairs
print_matching m =
    matched_pairs m.graph.num_nodes (if m.optimized then m.mate3 else m.mate) m.graph.num_nodes

-- `edgeWeight(std::find(…))`; `beyond` is what stands behind the edges, if there is none to `v`.
unfoldable pub find_weight : ℕ → List Arc → ℕ → ℕ
find_weight beyond [] v = beyond
find_weight beyond (a ∷ rest) v =
    let later = find_weight beyond rest v in if a.head == v then a.weight else later

-- The sum over the first `n` entries of `mate`; `plus` adds doubles.
unfoldable pub total_weight : (ℕ → ℕ → ℕ) → (ℕ → ℕ) → Graph → (ℕ → ℕ) → ℕ → ℕ
unfolding find_weight
total_weight plus beyond g mate zero = 0
total_weight plus beyond g mate (suc n) =
    let rest = total_weight plus beyond g mate n in
    if mate n == g.num_nodes
    then rest
    else plus rest (find_weight (beyond (mate n)) (g.arcs (mate n)) n)

unfoldable pub matching_quality : (ℕ → ℕ → ℕ) → (ℕ → ℕ) → (ℕ → ℕ) → SequentialDominant → ℕ
unfolding total_weight
matching_quality plus halve beyond m =
    halve
      (total_weight plus beyond m.graph (if m.optimized then m.mate3 else m.mate) m.graph.num_nodes)

-- The loop of asserts over one table.
unfoldable pub asserts_hold : ℕ → (ℕ → ℕ) → ℕ → Bool
asserts_hold null mate zero = true
asserts_hold null mate (suc u) =
    asserts_hold null mate u && (if mate u == null then true else mate (mate u) == u)

unfoldable pub test_matching : SequentialDominant → Bool
unfolding asserts_hold
test_matching m =
    let holds = λ (mate : ℕ → ℕ). asserts_hold m.graph.num_nodes mate m.graph.num_nodes in
    if m.optimized then holds m.mate && holds m.mate2 && holds m.mate3 else holds m.mate
