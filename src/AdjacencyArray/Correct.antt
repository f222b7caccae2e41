-- ===== src/AdjacencyArray/Correct.antt =====
-- The adjacency array of an edge list is its graph.
use cpp_suitor_and_local_dom.Base.{
  ℕ, zero, suc, ◌+◌, ◌-◌, ◌≤◌, ◌<◌, ◌≡◌, ◌≢◌, refl, ◌∙◌, sym, subst, ap, ◌⊎◌, inl, inr, ◌↔◌, [],
  ◌∷◌, arith, ◌==◌, Bool-cases,
}
use cpp_suitor_and_local_dom.Graph.{Has, IsSimple}
use cpp_suitor_and_local_dom.EdgeList.{Edge, EdgeList, Among}
use cpp_suitor_and_local_dom.EdgeList.Sort.{FromAtLeast, insert, sort, sort-IsSorted, sort-Among}
use cpp_suitor_and_local_dom.AdjacencyArray.{
  blank, count, construct, begin_edges, end_edges, arcs, to_graph,
}
use cpp_suitor_and_local_dom.AdjacencyArray.Slices.{
  below, below-le, below-eq-zero, below-eq-count, arcs_of, Has-arcs_of, slice-Stored, slice_at,
  Stored,
}
use cpp_suitor_and_local_dom.AdjacencyArray.Index.{
  build-Stored, build-index_old, build-index_new, build-current,
}

FromAtLeast-zero : (es : EdgeList) → FromAtLeast 0 es
FromAtLeast-zero [] = tt
FromAtLeast-zero (e ∷ es) = (omega arith, FromAtLeast-zero es)

count-insert : (e : Edge) (es : EdgeList) → count (insert e es) ≡ suc (count es)
unfolding insert
count-insert e [] = refl
count-insert e (x ∷ xs) = ground (arith, count-insert e xs)

pub count-sort : (es : EdgeList) → count (sort es) ≡ count es
unfolding sort
count-sort [] = refl
count-sort (e ∷ es) = count-insert e (sort es) ∙ ap suc (count-sort es)

-- What the constructor relies on: indices below `num_nodes`, and an edge at the last node ("It is
-- important that num_nodes is exactly one greater then the highest vertex id").
pub record IsFitting (num_nodes : ℕ) (es : EdgeList) : Type 0 where
  pub in_range : (u v w : ℕ) → Among es u v w → u < num_nodes
  pub last_used : (v : ℕ) × (w : ℕ) × Among es (num_nodes - 1) v w

module _ (num_nodes : ℕ) (es : EdgeList) (fits : IsFitting num_nodes es) where
  stored : Stored (construct num_nodes es).edges (construct num_nodes es).weights 0 (sort es)
  unfolding construct
  stored = build-Stored (sort es) blank 0

  pub index-eq-below :
      (j : ℕ) → j < num_nodes → (construct num_nodes es).index j ≡ below j (sort es)
  unfolding construct
  index-eq-below zero lt =
      build-index_old (sort es) blank 0 0 (FromAtLeast-zero (sort es)) (sort-IsSorted es)
        (omega arith)
      ∙ ground (arith, below-eq-zero 0 (sort es) (FromAtLeast-zero (sort es)))
  index-eq-below (suc j) lt =
      let (v, w, a) = fits.last_used in
      let reached =
        build-current (sort es) blank 0 (num_nodes - 1) v w (FromAtLeast-zero (sort es))
          (sort-IsSorted es) ((sort-Among es (num_nodes - 1) v w).1 a) in
      build-index_new (sort es) blank 0 (suc j) (FromAtLeast-zero (sort es)) (sort-IsSorted es)
        (omega arith) (omega arith)
      ∙ omega arith

  pub end-eq-below :
      (u : ℕ) → u < num_nodes → end_edges (construct num_nodes es) u ≡ below (suc u) (sort es)
  unfolding end_edges construct begin_edges
  end-eq-below u lt = elim (Bool-cases (suc u == num_nodes)) [
    | inl final ↦ rw final (
        sym (count-sort es)
        ∙ sym (
            below-eq-count (suc u) (sort es)
              λ x v w a. ground (arith, fits.in_range x v w, sort-Among es x v w)))
    | inr inner ↦ rw inner (index-eq-below (suc u) (ground arith))
  ]

  arcs-eq-arcs_of : (u : ℕ) → u < num_nodes → arcs (construct num_nodes es) u ≡ arcs_of u (sort es)
  unfolding arcs begin_edges
  arcs-eq-arcs_of u lt =
      let a = construct num_nodes es in
      slice_at a.edges a.weights _ (0 + below u (sort es)) _
        (below (suc u) (sort es) - below u (sort es)) (omega (arith, index-eq-below u lt))
        (ground (arith, index-eq-below u lt, end-eq-below u lt))
      ∙ slice-Stored a.edges a.weights u 0 (sort es) stored (sort-IsSorted es)

  -- For an edge list whose indices are below `num_nodes` and that has an edge at the last node,
  -- every loop from `beginEdges(u)` to `endEdges(u)` of the constructed array runs forwards, and it
  -- visits exactly the edges of the list that start at `u`, with their weights.
  pub construct_edges :
      (u : ℕ)
      → u < num_nodes
      → (begin_edges (construct num_nodes es) u ≤ end_edges (construct num_nodes es) u)
        × ((v w : ℕ) → Has (arcs (construct num_nodes es) u) v w ↔ Among es u v w)
  unfolding begin_edges
  construct_edges u lt = (
    omega (arith, index-eq-below u lt, end-eq-below u lt, below-le u (sort es)),
    λ v w.
        let (to, back) = Has-arcs_of u (sort es) v w in
        let (out, into) = sort-Among es u v w in
        (
          λ h. out (to (subst (λ l. Has l v w) (arcs-eq-arcs_of u lt) h)),
          λ a. subst (λ l. Has l v w) (sym (arcs-eq-arcs_of u lt)) (back (into a)),
        ),
  )

-- An edge list whose graph is simple: both directions of each edge, no loops, distinct weights.
pub record IsSimpleList (es : EdgeList) : Type 0 where
  pub both_ways : (u v w : ℕ) → Among es u v w → Among es v u w
  pub no_loop : (u v w : ℕ) → Among es u v w → u ≢ v
  pub distinct :
      (u v x y w : ℕ) → Among es u v w → Among es x y w → (u ≡ x) × (v ≡ y) ⊎ (u ≡ y) × (v ≡ x)

-- The constructed array of an edge list with both directions of each edge, no loops and distinct
-- weights, with indices below `num_nodes` and an edge at the last node, is a simple graph, as the
-- algorithms require.
pub construct-IsSimple :
    (num_nodes : ℕ) (es : EdgeList)
    → IsFitting num_nodes es
    → IsSimpleList es
    → IsSimple (to_graph (construct num_nodes es))
unfolding to_graph construct
construct-IsSimple num_nodes es fits simple = record {
  edge_sym = λ u v w (lt, h).
      let a = simple.both_ways u v w (of_arc u v w lt h) in
      let less = fits.in_range v u w a in
      (less, ((construct_edges num_nodes es fits v less).1 u w).1 a);
  no_loop = λ u v w (lt, h). simple.no_loop u v w (of_arc u v w lt h);
  distinct = λ u v x y w (lt, h) (lt', h').
      simple.distinct u v x y w (of_arc u v w lt h) (of_arc x y w lt' h');
}
  where
    of_arc :
        (u v w : ℕ) → u < num_nodes → Has (arcs (construct num_nodes es) u) v w → Among es u v w
    of_arc u v w lt = ((construct_edges num_nodes es fits u lt).1 v w).0
