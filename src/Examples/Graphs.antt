-- ===== src/Examples/Graphs.antt =====
-- The path 0 - 1 - 2 - 3 with weights 3, 5 and 4, and a triangle whose three weights are equal.
use cpp_suitor_and_local_dom.Base.{ℕ, zero, suc, ◌≡◌, ◌⊎◌, List, [], ◌∷◌, arith}
use cpp_suitor_and_local_dom.Graph.{Arc, Graph, Edge, IsSimple}
use cpp_suitor_and_local_dom.Suitor.Protocol.{Proposals, propose}
use cpp_suitor_and_local_dom.Suitor.Outcome.{IsMatching}

abbrev arc : ℕ → ℕ → Arc
arc v w = record { head = v; weight = w }

abbrev path_arcs : ℕ → List Arc
path_arcs zero = arc 1 3 ∷ []
path_arcs (suc zero) = arc 0 3 ∷ arc 2 5 ∷ []
path_arcs (suc (suc zero)) = arc 1 5 ∷ arc 3 4 ∷ []
path_arcs (suc (suc (suc zero))) = arc 2 4 ∷ []
path_arcs _ = []

abbrev pub path : Graph
path = record { num_nodes = 4; arcs = path_arcs }

abbrev triangle_arcs : ℕ → ℕ → List Arc
triangle_arcs w zero = arc 1 w ∷ arc 2 w ∷ []
triangle_arcs w (suc zero) = arc 0 w ∷ arc 2 w ∷ []
triangle_arcs w (suc (suc zero)) = arc 0 w ∷ arc 1 w ∷ []
triangle_arcs w _ = []

abbrev pub triangle : ℕ → Graph
triangle w = record { num_nodes = 3; arcs = triangle_arcs w }

path_sym : (u v w : ℕ) → Edge path u v w → Edge path v u w
path_sym u v w e = ground arith

path_distinct :
    (u v x y w : ℕ) → Edge path u v w → Edge path x y w → (u ≡ x) × (v ≡ y) ⊎ (u ≡ y) × (v ≡ x)
path_distinct u v x y w e f = ground arith

pub path-IsSimple : IsSimple path
path-IsSimple = record {
  edge_sym = path_sym;
  no_loop = λ u v w e. ground arith;
  distinct = path_distinct;
}

abbrev nothing : Proposals
nothing = record { suitor = λ _. 4; ws = λ _. 0 }

-- The other maximal matching, of the two light edges.
abbrev pub light : Proposals
light = let one = propose (propose nothing 0 1 3) 1 0 3 in propose (propose one 2 3 4) 3 2 4

pub light-IsMatching : IsMatching path light
light-IsMatching = record {
  null_or_node = λ v. ground arith;
  symmetric = λ v lt. ground arith;
  matched = λ v lt. ground arith;
  unmatched = λ v e. ground arith;
}
