-- ===== src/ParallelDominant/Phase1.antt =====
-- Phase 1 as a whole: whatever the orders of the threads, it matches the edges that are heaviest at
-- both of their ends.
use cpp_suitor_and_local_dom.Base.{ℕ, ◌≤◌, ◌<◌, ◌≡◌, ◌≢◌, ◌⊎◌, inl, inr, ap, true, List, arith}
use cpp_suitor_and_local_dom.Graph.{Graph, Edge, IsSimple}
use cpp_suitor_and_local_dom.Scan.{Best, scan-Finds}
use cpp_suitor_and_local_dom.Dominant.{is_free, heaviest_free}
use cpp_suitor_and_local_dom.ParallelDominant.{ConcurrentQueue, Section2, run1, run2, IsOver}
use cpp_suitor_and_local_dom.ParallelDominant.Sections.{section1_candidates}

-- A heavier edge at one of the two ends.
abbrev pub IsOutweighed : Graph → ℕ → ℕ → ℕ → Type 0
IsOutweighed g u x w =
    ((y : ℕ) × (z : ℕ) × Edge g u y z × (w < z)) ⊎ ((y : ℕ) × (z : ℕ) × Edge g x y z × (w < z))

-- Matched over an edge that no other edge at either end outweighs, and queued once; or not matched
-- and not queued, where each edge of positive weight is outweighed at one of its ends.
pub data IsPlaced (g : Graph) (mate holds : ℕ → ℕ) (u : ℕ) : Type 0 where
  unmatched :
      mate u ≡ g.num_nodes
      → ((x w : ℕ) → Edge g u x w → 0 < w → IsOutweighed g u x w)
      → holds u ≡ 0
      → IsPlaced g mate holds u
  paired :
      (w : ℕ)
      → Edge g u (mate u) w
      → mate (mate u) ≡ u
      → ((x z : ℕ) → Edge g u x z → z ≤ w)
      → ((x z : ℕ) → Edge g (mate u) x z → z ≤ w)
      → holds u ≡ 1
      → IsPlaced g mate holds u

module _ (g : Graph) (simple : IsSimple g) where
  abbrev n : ℕ
  n = g.num_nodes

  abbrev best : ℕ → Best
  best u = heaviest_free g (λ _ _. true) (λ _. n) u

  -- The search of a node finds its heaviest edge, if it has one.
  pub best_edge :
      (u : ℕ)
      → u < n
      → (best u).partner ≢ n
      → Edge g u (best u).partner (best u).heaviest
        × ((x z : ℕ) → Edge g u x z → z ≤ (best u).heaviest)
  best_edge u lt some_one =
      let start : Best = record { partner = n; heaviest = 0 } in
      let f = scan-Finds (is_free g (λ _ _. true) (λ _. n) u) start (g.arcs u) in
      elim f.origin [
        | inl e ↦ absurd (some_one (ap (λ (b : Best). b.partner) e))
        | inr (has, _, _) ↦ ((lt, has), λ x z e. ground (arith, f.rest_refused x z e.1))
      ]

  module _ (c : ConcurrentQueue) (threads : ℕ) (some_thread : 0 < threads) (order1 order2 : List ℕ)
      (over1 : IsOver g threads (run1 g threads (λ _. n) order1).node)
      (over2 : IsOver g threads
        (run2 g c threads (run1 g threads (λ _. n) order1).candidate (λ _. n) order2).node) where
    abbrev found : ℕ → ℕ
    found = (run1 g threads (λ _. n) order1).candidate

    abbrev result : Section2 g c
    result = run2 g c threads found (λ _. n) order2

    pub found_is : (u : ℕ) → u < n → found u ≡ (best u).partner
    found_is = section1_candidates g threads (λ _. n) some_thread order1 over1
