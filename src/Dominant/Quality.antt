-- ===== src/Dominant/Quality.antt =====
-- `matching_quality` of the dominant algorithm, with exact sums and before the division by two.
use cpp_suitor_and_local_dom.Base.{
  ℕ, zero, suc, ◌+◌, ◌*◌, ◌≤◌, ◌≡◌, refl, inl, inr, List, [], ◌∷◌, some, ◌==◌, Bool-cases, arith,
  total,
}
use cpp_suitor_and_local_dom.Graph.{Arc, Graph, Has, Edge, IsSimple}
use cpp_suitor_and_local_dom.Suitor.Protocol.{Proposals}
use cpp_suitor_and_local_dom.Suitor.Outcome.{IsMatching, half_of_any}
use cpp_suitor_and_local_dom.Dominant.Instance.{
  SequentialDominant, create, simple_procedure, find_weight, total_weight, matching_quality,
}
use cpp_suitor_and_local_dom.Dominant.Runs.{all_edges}

pub find_weight-Has :
    (beyond : ℕ) (l : List Arc) (v w : ℕ)
    → Has l v w
    → ((x y : ℕ) → Has l v x → Has l v y → x ≡ y)
    → find_weight beyond l v ≡ w
unfolding find_weight
find_weight-Has beyond [] v w h one = absurd h
find_weight-Has beyond (a ∷ rest) v w h one = elim (Bool-cases (a.head == v)) [
  | inl here ↦ rw here (one a.weight w (inl (ground arith, refl)) h)
  | inr later ↦
      rw later
        (find_weight-Has beyond rest v w (ground arith) λ x y hx hy. one x y (inr hx) (inr hy))
]

module _ (g : Graph) (simple : IsSimple g)
    (plain : (u v w w' : ℕ) → Edge g u v w → Edge g u v w' → w ≡ w') (beyond : ℕ → ℕ) where
  pub total_weight-total :
      (s : Proposals) (k : ℕ)
      → IsMatching g s
      → k ≤ g.num_nodes
      → total_weight ◌+◌ beyond g s.suitor k ≡ total k s.ws
  unfolding total_weight total
  total_weight-total s zero m le = refl
  total_weight-total s (suc k) m le = elim (Bool-cases (s.suitor k == g.num_nodes)) [
    | inl nobody ↦ rw nobody (ground (arith, total_weight-total s k m, m.unmatched k))
    | inr somebody ↦
        let back =
          simple.edge_sym k (s.suitor k) (s.ws k)
            (m.matched k (ground (arith, m.null_or_node k))) in
        rw somebody (
          omega (
            arith,
            total_weight-total s k m (omega arith),
            find_weight-Has (beyond (s.suitor k)) (g.arcs (s.suitor k)) k (s.ws k) back.1
                λ x y hx hy. plain (s.suitor k) k x y (back.0, hx) (back.0, hy),
          ))
  ]

  -- On a simple graph with distinct weights and without parallel edges, `simple_procedure` on a
  -- new instance ends, and any matching of the graph weighs at most twice what `matching_quality`
  -- then sums up. The sums are exact, and each counts an edge at both ends.
  pub dominant_half :
      (other : Proposals)
      → IsMatching g other
      → (m : SequentialDominant) × (simple_procedure (suc g.num_nodes) (create g) ≡ some m)
        × (total g.num_nodes other.ws ≤ 2 * matching_quality ◌+◌ (λ x. x) beyond m)
  unfolding simple_procedure create matching_quality
  dominant_half other matching =
      let (s, runs, ws, found) = all_edges g simple in
      (
        record (create g) { mate = s.mate },
        rw runs refl,
        omega (
          arith,
          total_weight-total (record { suitor = s.mate; ws = ws }) g.num_nodes found.0
              (omega arith),
          half_of_any g (record { suitor = s.mate; ws = ws }) other found.1 matching,
        ),
      )
