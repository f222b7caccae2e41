-- ===== src/Dominant/Improved/Correct.antt =====
-- What `improved_procedure` of the dominant algorithm leaves on a new instance.
use cpp_suitor_and_local_dom.Base.{ℕ, suc, ◌+◌, ◌*◌, ◌≤◌, ◌≡◌, refl, true, some, arith, total}
use cpp_suitor_and_local_dom.Graph.{Graph, Edge, IsSimple}
use cpp_suitor_and_local_dom.Suitor.Protocol.{Proposals}
use cpp_suitor_and_local_dom.Suitor.Outcome.{IsMatching, half_of_any}
use cpp_suitor_and_local_dom.Heavy.Extended.{IsMaximal}
use cpp_suitor_and_local_dom.Dominant.Runs.{asserts_of_matching}
use cpp_suitor_and_local_dom.Dominant.Instance.{
  SequentialDominant, create, total_weight, matching_quality, test_matching,
}
use cpp_suitor_and_local_dom.Dominant.Quality.{total_weight-total}
use cpp_suitor_and_local_dom.Dominant.Improved.{improved_procedure}
use cpp_suitor_and_local_dom.Dominant.Improved.Run.{improved-Run}

module _ (g : Graph) (simple : IsSimple g)
    (plain : (u v w w' : ℕ) → Edge g u v w → Edge g u v w' → w ≡ w') (plus : ℕ → ℕ → ℕ)
    (beyond : ℕ → ℕ) where
  abbrev n : ℕ
  n = g.num_nodes

  -- On a simple graph with distinct weights and without parallel edges, on a new instance,
  -- `improved_procedure` ends, whatever the additions of weights return. `mate3` is then a matching
  -- of edges of the graph to which no edge of positive weight can be added, and `test_matching`
  -- passes.
  pub dominant_improved_matches :
      (m : SequentialDominant) × (improved_procedure plus beyond (suc n) (create g) ≡ some m)
      × IsMaximal g m.mate3
      × (test_matching m ≡ true)
  unfolding test_matching
  dominant_improved_matches =
      let (m, ws, ws3, ran, r) = improved-Run g simple plain plus beyond in
      let (ws2, found2) = r.second_found in
      let t : Proposals = record { suitor = m.mate; ws = ws } in
      let t2 : Proposals = record { suitor = m.mate2; ws = ws2 } in
      let t3 : Proposals = record { suitor = m.mate3; ws = ws3 } in
      (
        m,
        ran,
        r.whole,
        rw
            (
              r.optimized_is,
              r.graph_is,
              asserts_of_matching g t n r.first_found.0 (omega arith),
              asserts_of_matching g t2 n found2 (omega arith),
              asserts_of_matching g t3 n r.found (omega arith),
            )
            refl,
      )

  -- On a simple graph with distinct weights and without parallel edges, on a new instance,
  -- `improved_procedure` ends. Given that no addition of weights rounds, what `matching_quality` then
  -- sums up is no less than the same sum over `mate`, and any matching of the graph weighs at most
  -- twice as much. Each sum counts an edge at both ends.
  pub dominant_improved_half :
      ((a b : ℕ) → plus a b ≡ a + b)
      → (other : Proposals) → IsMatching g other
      → (m : SequentialDominant) × (improved_procedure plus beyond (suc n) (create g) ≡ some m)
        × (total_weight ◌+◌ beyond g m.mate n ≤ matching_quality ◌+◌ (λ x. x) beyond m)
        × (total n other.ws ≤ 2 * matching_quality ◌+◌ (λ x. x) beyond m)
  unfolding matching_quality
  dominant_improved_half exact other matching =
      let (m, ws, ws3, ran, r) = improved-Run g simple plain plus beyond in
      let t : Proposals = record { suitor = m.mate; ws = ws } in
      let t3 : Proposals = record { suitor = m.mate3; ws = ws3 } in
      (
        m,
        ran,
        rw (r.optimized_is, r.graph_is)
            (omega (
              arith,
              total_weight-total g simple plain beyond t n r.first_found.0 (omega arith),
              total_weight-total g simple plain beyond t3 n r.found (omega arith),
              r.heavy exact,
            )),
        rw (r.optimized_is, r.graph_is)
            (omega (
              arith,
              half_of_any g t other r.first_found.1 matching,
              total_weight-total g simple plain beyond t3 n r.found (omega arith),
              r.heavy exact,
            )),
      )
