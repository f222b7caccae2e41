-- ===== src/ParallelDominant/Sections.antt =====
-- What the first section of phase 1 leaves, in whatever order its threads took their steps.
use cpp_suitor_and_local_dom.Base.{
  ℕ, suc, ◌≤◌, ◌<◌, ◌≡◌, inl, inr, ap, true, not, ◌&&◌, List, [], ◌∷◌, foldl, ltb, ◌==◌, to_update,
  of_update, Bool-cases, arith,
}
use cpp_suitor_and_local_dom.Graph.{Graph}
use cpp_suitor_and_local_dom.Split.{created, first, last, range_of}
use cpp_suitor_and_local_dom.Dominant.{heaviest_free}
use cpp_suitor_and_local_dom.ParallelDominant.{Section1, start1, turn1, run1, IsOver}

module _ (g : Graph) (threads : ℕ) (mate : ℕ → ℕ) where
  abbrev n : ℕ
  n = g.num_nodes

  -- What the search of `u` finds.
  abbrev right : ℕ → ℕ
  right u = (heaviest_free g (λ _ _. true) mate u).partner

  -- The nodes that a thread has done have their candidates.
  abbrev IsSearched : Section1 g → Type 0
  IsSearched s =
      (i u : ℕ)
      → i < created threads n
      → first threads n i ≤ u
      → u < s.node i
      → s.candidate u ≡ right u

  turn1-IsSearched : (s : Section1 g) (j : ℕ) → IsSearched s → IsSearched (turn1 g threads mate s j)
  unfolding turn1
  turn1-IsSearched s j inv =
      elim (Bool-cases (ltb j (created threads n) && not (s.node j == last threads n j))) [
        | inr idle ↦ rw idle inv
        | inl goes ↦ rw goes λ i u li from below.
            to_update (λ a. a ≡ right u) s.candidate (s.node j) (right (s.node j)) u
              (λ e. ap right e)
              λ ne. elim (of_update (λ x. u < x) s.node j (suc (s.node j)) i below) [
                | inl (same, less) ↦ inv i u li from (ground (arith, less, ne, ap s.node same))
                | inr (_, less) ↦ inv i u li from less
              ]
      ]

  run1-IsSearched :
      (order : List ℕ) (s : Section1 g)
      → IsSearched s
      → IsSearched (foldl (turn1 g threads mate) s order)
  run1-IsSearched [] s inv = inv
  run1-IsSearched (j ∷ order) s inv =
      run1-IsSearched order (turn1 g threads mate s j) (turn1-IsSearched s j inv)

  -- Once the threads of the first section are joined, every node has the candidate that its search
  -- finds.
  pub section1_candidates :
      0 < threads
      → (order : List ℕ) → IsOver g threads (run1 g threads mate order).node
      → (u : ℕ) → u < n
      → (run1 g threads mate order).candidate u ≡ right u
  unfolding run1 start1
  section1_candidates some_thread order over u lt =
      let (i, li, from, below) = range_of threads n some_thread u lt in
      run1-IsSearched order (start1 g threads) (λ j v lj f b. absurd (omega arith)) i u li from
        (omega (arith, over i li, below))
