-- ===== src/AdjacencyArray/Slices.antt =====
-- Which stretch of a sorted edge list a node's edges are.
use cpp_suitor_and_local_dom.Base.{
  ℕ, suc, ◌+◌, ◌-◌, ◌≤◌, ◌<◌, ◌≡◌, refl, inl, inr, ◌↔◌, List, [], ◌∷◌, arith, ltb, ◌==◌,
  if◌then◌else◌, dec_lt, ap, sym, ◌∙◌,
}
use cpp_suitor_and_local_dom.Graph.{Arc, Has}
use cpp_suitor_and_local_dom.EdgeList.{EdgeList, Among}
use cpp_suitor_and_local_dom.EdgeList.Sort.{FromAtLeast, FromAtLeast-mono, IsSorted}
use cpp_suitor_and_local_dom.AdjacencyArray.{count, slice}

-- The number of edges from nodes below `i`.
abbrev pub below : ℕ → EdgeList → ℕ
below i [] = 0
below i (e ∷ es) = (if ltb e.from i then 1 else 0) + below i es

-- The arcs of the edges from `u`, in the list's order.
abbrev pub arcs_of : ℕ → EdgeList → List Arc
arcs_of u [] = []
arcs_of u (e ∷ es) =
    if e.from == u then record { head = e.to; weight = e.length } ∷ arcs_of u es else arcs_of u es

pub Has-arcs_of : (u : ℕ) (es : EdgeList) (v w : ℕ) → Has (arcs_of u es) v w ↔ Among es u v w
Has-arcs_of u [] v w = (λ h. h, λ h. h)
Has-arcs_of u (e ∷ es) v w = ground (arith, Has-arcs_of u es v w)

-- The list stands in the arrays from position `at` on.
abbrev pub Stored : (ℕ → ℕ) → (ℕ → ℕ) → ℕ → EdgeList → Type 0
Stored edges weights at [] = Unit
Stored edges weights at (e ∷ es) =
    (edges at ≡ e.to) × (weights at ≡ e.length) × Stored edges weights (suc at) es

pub below-eq-zero : (i : ℕ) (es : EdgeList) → FromAtLeast i es → below i es ≡ 0
below-eq-zero i [] h = refl
below-eq-zero i (e ∷ es) (h, hs) = ground (arith, below-eq-zero i es hs)

pub below-le : (i : ℕ) (es : EdgeList) → below i es ≤ below (suc i) es
below-le i [] = omega arith
below-le i (e ∷ es) = ground (arith, below-le i es)

pub below-le-count : (i : ℕ) (es : EdgeList) → below i es ≤ count es
below-le-count i [] = omega arith
below-le-count i (e ∷ es) = ground (arith, below-le-count i es)

pub below-eq-count :
    (n : ℕ) (es : EdgeList) → ((u v w : ℕ) → Among es u v w → u < n) → below n es ≡ count es
below-eq-count n [] h = refl
below-eq-count n (e ∷ es) h = ground (
  arith,
  h e.from e.to e.length (inl (refl, refl, refl)),
  below-eq-count n es λ u v w a. h u v w (inr a),
)

arcs_of-eq-nil : (u : ℕ) (es : EdgeList) → FromAtLeast (suc u) es → arcs_of u es ≡ []
arcs_of-eq-nil u [] h = refl
arcs_of-eq-nil u (e ∷ es) (h, hs) = ground (arith, arcs_of-eq-nil u es hs)

module _ (edges weights : ℕ → ℕ) where
  pub slice_at : (p q m n : ℕ) → p ≡ q → m ≡ n → slice edges weights p m ≡ slice edges weights q n
  slice_at p q m n e f = cc

  pub slice-Stored :
      (u at : ℕ) (es : EdgeList)
      → Stored edges weights at es
      → IsSorted es
      → slice edges weights (at + below u es) (below (suc u) es - below u es) ≡ arcs_of u es
  unfolding slice
  slice-Stored u at [] st so = refl
  slice-Stored u at (e ∷ es) (hv, hw, st) (ge, so) = elim (dec_lt e.from u) [
    | yes less ↦
        slice_at _ (suc at + below u es) _ (below (suc u) es - below u es) (ground arith)
          (ground arith)
        ∙ slice-Stored u (suc at) es st so
        ∙ ground arith
    | no ge_u ↦ elim (dec_lt u e.from) [
      | yes more ↦
          slice_at _ at _ 0 (ground (arith, none u (omega arith)))
            (ground (arith, none u (omega arith), none (suc u) more))
          ∙ sym (arcs_of-eq-nil u es (FromAtLeast-mono (suc u) e.from es more ge))
          ∙ ground arith
      | no same ↦
          slice_at _ at _ (suc (below (suc u) es - below u es))
            (ground (arith, none u (omega arith))) (ground (arith, none u (omega arith)))
          ∙ ap (◌∷◌ (record { head = edges at; weight = weights at })) (
              slice_at (suc at) (suc at + below u es) _ _ (omega (arith, none u (omega arith))) refl
              ∙ slice-Stored u (suc at) es st so)
          ∙ ground arith
    ]
  ]
    where
      none : (i : ℕ) → i ≤ e.from → below i es ≡ 0
      none i le = below-eq-zero i es (FromAtLeast-mono i e.from es le ge)
