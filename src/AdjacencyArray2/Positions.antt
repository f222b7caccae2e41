-- ===== src/AdjacencyArray2/Positions.antt =====
-- The positions from `beginEdges(u)` to `endEdges(u)` hold the edges of `u`.
use cpp_suitor_and_local_dom.Base.{
  ℕ, zero, suc, ◌+◌, ◌-◌, ◌≤◌, ◌<◌, ◌≡◌, sym, inl, inr, arith, ℕ_discrete, ap,
}
use cpp_suitor_and_local_dom.Graph.{Edge, Has}
use cpp_suitor_and_local_dom.AdjacencyArray.{slice, to_graph}
use cpp_suitor_and_local_dom.AdjacencyArray2.{
  AdjacencyArray2, null_edge, begin_at, end_at, graph_of,
}

-- What the lock-free suitor relies on.
pub record IsIndexed (a : AdjacencyArray2) : Type 0 where
  pub forwards : (u : ℕ) → u < a.base.num_nodes → begin_at a u ≤ end_at a u
  pub inside : (u : ℕ) → u < a.base.num_nodes → end_at a u ≤ null_edge a
  pub head_at : (u e : ℕ) → u < a.base.num_nodes → begin_at a u ≤ e → e < end_at a u → a.heads e ≡ u

-- An arc of a slice stands at one of its positions, and the other way round.
Has-slice :
    (edges weights : ℕ → ℕ) (e n v w : ℕ)
    → Has (slice edges weights e n) v w
    → (p : ℕ) × (e ≤ p) × (p < e + n) × (v ≡ edges p) × (w ≡ weights p)
unfolding slice
Has-slice edges weights e zero v w h = absurd h
Has-slice edges weights e (suc n) v w (inl (hv, hw)) = (e, omega arith, omega arith, hv, hw)
Has-slice edges weights e (suc n) v w (inr h) =
    let (p, ge, lt, hv, hw) = Has-slice edges weights (suc e) n v w h in
    (p, omega arith, omega arith, hv, hw)

slice-Has :
    (edges weights : ℕ → ℕ) (e n p : ℕ)
    → e ≤ p
    → p < e + n
    → Has (slice edges weights e n) (edges p) (weights p)
unfolding slice
slice-Has edges weights e zero p ge lt = absurd (omega arith)
slice-Has edges weights e (suc n) p ge lt = elim (ℕ_discrete e p) [
  | yes same ↦ inl (ap edges (sym same), ap weights (sym same))
  | no other ↦ inr (slice-Has edges weights (suc e) n p (omega arith) (omega arith))
]

module _ (a : AdjacencyArray2) (indexed : IsIndexed a) (u : ℕ) (lt : u < a.base.num_nodes) where
  pub Edge-position :
      (v w : ℕ)
      → Edge (graph_of a) u v w
      → (p : ℕ) × (begin_at a u ≤ p)
        × (p < end_at a u)
        × (v ≡ a.base.edges p)
        × (w ≡ a.base.weights p)
  unfolding to_graph
  Edge-position v w (_, h) =
      let (p, ge, less, hv, hw) =
        Has-slice a.base.edges a.base.weights (begin_at a u) (end_at a u - begin_at a u) v w h in
      (p, ge, omega (arith, indexed.forwards u lt), hv, hw)

  pub position-Edge :
      (p : ℕ)
      → begin_at a u ≤ p
      → p < end_at a u
      → Edge (graph_of a) u (a.base.edges p) (a.base.weights p)
  unfolding to_graph
  position-Edge p ge less = (
    lt,
    slice-Has a.base.edges a.base.weights (begin_at a u) (end_at a u - begin_at a u) p ge
        (omega arith),
  )
