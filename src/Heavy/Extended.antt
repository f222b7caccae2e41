-- ===== src/Heavy/Extended.antt =====
-- A matching and one of the nodes that it leaves, as one table.
use cpp_suitor_and_local_dom.Base.{ℕ, ◌+◌, ◌≤◌, ◌<◌, ◌≡◌, ap, ◌∙◌, ◌⊎◌, inl, inr, arith}
use cpp_suitor_and_local_dom.Graph.{Graph, Edge}
use cpp_suitor_and_local_dom.Graph.Usable.{Has-keep}
use cpp_suitor_and_local_dom.Graph.Free.{both_free, rest_of}
use cpp_suitor_and_local_dom.Suitor.Protocol.{Proposals}
use cpp_suitor_and_local_dom.Suitor.Outcome.{IsMatching, IsDominant}
use cpp_suitor_and_local_dom.Heavy.Pairing.{IsPairing}

-- A matching of the graph to which no edge of positive weight can be added.
pub record IsMaximal (g : Graph) (suitor : ℕ → ℕ) : Type 0 where
  pub null_or_node : (v : ℕ) → suitor v ≤ g.num_nodes
  pub symmetric : (v : ℕ) → suitor v < g.num_nodes → suitor (suitor v) ≡ v
  pub matched : (v : ℕ) → suitor v < g.num_nodes → (w : ℕ) × Edge g v (suitor v) w
  pub maximal :
      (p q w : ℕ) → Edge g p q w → 0 < w → (suitor p < g.num_nodes) ⊎ (suitor q < g.num_nodes)

module _ (g : Graph) (t f : Proposals) (joined : IsPairing g.num_nodes t.suitor t.ws)
    (found : IsMatching (rest_of g t.suitor) f) where
  abbrev n : ℕ
  n = g.num_nodes

  -- What the second one matches had no mate.
  pub was_free :
      (v : ℕ)
      → f.suitor v < n
      → Edge g v (f.suitor v) (f.ws v) × (t.suitor v ≡ n) × (t.suitor (f.suitor v) ≡ n)
  was_free v lt =
      let e = found.matched v lt in
      let h = (Has-keep (both_free n t.suitor v) (g.arcs v) (f.suitor v) (f.ws v)).0 e.1 in
      ((e.0, h.0), ground (arith, h.1), ground (arith, h.1))

  module _ {both : ℕ → ℕ}
      (both-cases : (v : ℕ)
        → (f.suitor v < n) × (both v ≡ f.suitor v) ⊎ (f.suitor v ≡ n) × (both v ≡ t.suitor v)) where
    both-bound : (v : ℕ) → both v ≤ n
    both-bound v = elim (both-cases v) [
      | inl (lt, e) ↦ omega arith
      | inr (_, e) ↦ omega (arith, joined.bound v)
    ]

    new : (v : ℕ) → f.suitor v < n → both v ≡ f.suitor v
    new v lt = elim (both-cases v) [ inl (_, e) ↦ e | inr (e, _) ↦ absurd (omega arith) ]

    both-symmetric : (v : ℕ) → both v < n → both (both v) ≡ v
    both-symmetric v lt = elim (both-cases v) [
      | inl (less, e) ↦
          let back = found.symmetric v less in
          let again : f.suitor (f.suitor v) < n = rw back (was_free v less).0.0 in
          ap both e ∙ new (f.suitor v) again ∙ back
      | inr (_, e) ↦
          let goes : t.suitor v < n = omega arith in
          let back = joined.symmetric v goes in
          let inside = joined.inside v goes in
          ap both e ∙ elim (both-cases (t.suitor v)) [
            | inl (less, _) ↦ absurd (omega (arith, (was_free (t.suitor v) less).1, back, inside))
            | inr (_, same) ↦ same ∙ back
          ]
    ]

    -- Of two neighbours one has a suitor.
    both-maximal :
        IsDominant (rest_of g t.suitor) f
        → (p q w : ℕ) → Edge g p q w
        → 0 < w
        → (both p < n) ⊎ (both q < n)
    both-maximal dominant p q w e pos =
        let may = (Has-keep (both_free n t.suitor p) (g.arcs p) q w).1 in
        ground (
          arith,
          both-cases p,
          both-cases q,
          joined.bound p,
          joined.bound q,
          found.unmatched p,
          found.unmatched q,
          dominant p q w,
          may,
          e,
        )

    -- Together they are a maximal matching.
    pub both-IsMaximal :
        IsDominant (rest_of g t.suitor) f
        → ((v : ℕ) → t.suitor v < n → Edge g v (t.suitor v) (t.ws v))
        → IsMaximal g both
    both-IsMaximal dominant along = record {
      null_or_node = both-bound;
      symmetric = both-symmetric;
      matched = λ v lt. elim (both-cases v) [
        | inl (less, e) ↦ rw e (f.ws v, (was_free v less).0)
        | inr (_, e) ↦ rw e (t.ws v, along v (omega arith))
      ];
      maximal = both-maximal dominant;
    }

    pub both-IsMatching :
        ((v : ℕ) → t.suitor v < n → Edge g v (t.suitor v) (t.ws v))
        → IsMatching g (record { suitor = both; ws = λ v. f.ws v + t.ws v })
    both-IsMatching along = record {
      null_or_node = both-bound;
      symmetric = both-symmetric;
      matched = λ v lt. elim (both-cases v) [
        | inl (less, e) ↦
            let (edge, free, _) = was_free v less in
            let weight : f.ws v + t.ws v ≡ f.ws v = omega (arith, joined.lone v free) in
            rw (e, weight) edge
        | inr (nobody, e) ↦
            let weight : f.ws v + t.ws v ≡ t.ws v = omega (arith, found.unmatched v nobody) in
            rw (e, weight) (along v (omega arith))
      ];
      unmatched = λ v none_of. elim (both-cases v) [
        | inl (less, e) ↦ absurd (omega arith)
        | inr (nobody, e) ↦ omega (arith, found.unmatched v nobody, joined.lone v (omega arith))
      ];
    }
