-- ===== src/Graph.antt =====
-- What the matching algorithms read of a graph: the number of nodes and, for each node, the arcs
-- that a loop from `beginEdges` up to `endEdges` visits (implementation/graph_adj_array.hpp). A
-- weight is a non-negative double in units of the least positive double: its comparisons are then
-- those of ℕ, and the sum of two weights in ℕ is their exact sum.
pub mod Usable
pub mod Skipped
pub mod Free
use cpp_suitor_and_local_dom.Base.{
  ℕ, zero, suc, ◌≤◌, ◌<◌, max, ◌≡◌, ◌≢◌, ◌⊎◌, inl, inr, List, [], ◌∷◌, arith, subst, ℕ_discrete,
}

-- One entry of `edges_` with its entry of `weights_`.
pub record Arc : Type 0 where
  pub head : ℕ
  pub weight : ℕ

pub record Graph : Type 0 where
  pub num_nodes : ℕ
  pub arcs : ℕ → List Arc

abbrev pub Has : List Arc → ℕ → ℕ → Type 0
Has [] v w = ⊥
Has (a ∷ rest) v w = (v ≡ a.head) × (w ≡ a.weight) ⊎ Has rest v w

abbrev pub Edge : Graph → ℕ → ℕ → ℕ → Type 0
Edge g u v w = (u < g.num_nodes) × Has (g.arcs u) v w

-- What the README asks of the input (`-noEdgeToSelf -noDuplicateEdges -undirected`), with weights
-- that tell the edges apart.
pub record IsSimple (g : Graph) : Type 0 where
  pub edge_sym : (u v w : ℕ) → Edge g u v w → Edge g v u w
  pub no_loop : (u v w : ℕ) → Edge g u v w → u ≢ v
  pub distinct :
      (u v x y w : ℕ) → Edge g u v w → Edge g x y w → (u ≡ x) × (v ≡ y) ⊎ (u ≡ y) × (v ≡ x)

-- The largest weight of a list of arcs, and of the arcs of the first `n` nodes.
pub max_weight : List Arc → ℕ
max_weight [] = 0
max_weight (a ∷ rest) = max a.weight (max_weight rest)

max_below : Graph → ℕ → ℕ
max_below g zero = 0
max_below g (suc n) = max (max_weight (g.arcs n)) (max_below g n)

unfoldable pub weight_bound : Graph → ℕ
unfolding max_below max_weight
weight_bound g = max_below g g.num_nodes

le-max_weight : (rest : List Arc) (v w : ℕ) → Has rest v w → w ≤ max_weight rest
unfolding max_weight
le-max_weight [] v w h = absurd h
le-max_weight (a ∷ rest) v w (inl (e, f)) = omega arith
le-max_weight (a ∷ rest) v w (inr h) = omega (arith, le-max_weight rest v w h)

le-max_below : (g : Graph) (n u v w : ℕ) → u < n → Has (g.arcs u) v w → w ≤ max_below g n
unfolding max_below
le-max_below g zero u v w lt h = absurd (omega arith)
le-max_below g (suc n) u v w lt h = elim (ℕ_discrete u n) [
  | yes e ↦ omega (arith, le-max_weight (g.arcs n) v w (subst (λ i. Has (g.arcs i) v w) e h))
  | no ne ↦ omega (arith, le-max_below g n u v w (omega arith) h)
]

pub le-weight_bound : (g : Graph) (u v w : ℕ) → Edge g u v w → w ≤ weight_bound g
unfolding weight_bound
le-weight_bound g u v w (lt, h) = le-max_below g g.num_nodes u v w lt h
