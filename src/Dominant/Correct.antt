-- ===== src/Dominant/Correct.antt =====
-- What `procedure` of the dominant algorithm leaves: a maximal matching, at least half as heavy as
-- any other.
use cpp_suitor_and_local_dom.Base.{
  ℕ, zero, suc, ◌+◌, ◌≤◌, ◌<◌, ◌≡◌, subst, ◌⊎◌, inl, inr, Bool, some, arith, dec_lt,
}
use cpp_suitor_and_local_dom.Graph.{Graph, Edge, IsSimple, weight_bound, le-weight_bound}
use cpp_suitor_and_local_dom.LocalQueue.Contents.{ring_empty}
use cpp_suitor_and_local_dom.Suitor.Protocol.{Proposals}
use cpp_suitor_and_local_dom.Suitor.Outcome.{IsMatching, IsDominant}
use cpp_suitor_and_local_dom.Dominant.{State, procedure}
use cpp_suitor_and_local_dom.Graph.Usable.{usable}
use cpp_suitor_and_local_dom.Dominant.Sound.{IsSound, In}
use cpp_suitor_and_local_dom.Dominant.Loop.{procedure-Kept}

-- When nothing waits any more.
module _ (h : Graph) (simple : IsSimple h) {ws : ℕ → ℕ} (s : State)
    (sound : IsSound h h.num_nodes (λ _ _. ⊥) ws s) (empty : s.queue.size ≡ 0) where
  abbrev n : ℕ
  n = h.num_nodes

  -- The candidate of a node without a mate has no mate either.
  untaken : (v : ℕ) → s.mate v ≡ n → s.candidate v < n → s.mate (s.candidate v) ≡ n
  untaken v at lt = elim (dec_lt (s.mate (s.candidate v)) n) [
    | no free ↦ ground (arith, sound.null_or_node (s.candidate v))
    | yes taken ↦ elim (sound.waits v at lt taken) [
      | inl i ↦ absurd (subst (In (s.candidate v)) (ring_empty s.queue empty) i)
      | inr r ↦ absurd r
    ]
  ]

  -- The candidate of the candidate is at a heavier edge.
  climb :
      (v y : ℕ)
      → s.mate v ≡ n
      → s.candidate v < n
      → Edge h v (s.candidate v) y
      → 0 < y
      → (z : ℕ) × (y < z)
        × (s.candidate (s.candidate v) < n)
        × Edge h (s.candidate v) (s.candidate (s.candidate v)) z
  climb v y at lt along positive =
      let next = sound.chose (s.candidate v) lt (untaken v at lt) in
      elim next.choice [
        | inl nobody ↦
            absurd (ground (arith, next.heaviest v y, simple.edge_sym v (s.candidate v) y along))
        | inr (lt', along', _) ↦ (
          next.weight,
          ground (
            arith,
            next.heaviest v y,
            simple.edge_sym v (s.candidate v) y along,
            simple.distinct v (s.candidate v) (s.candidate v) (s.candidate (s.candidate v)) y along,
            simple.no_loop v (s.candidate v) y along,
            sound.not_mutual v at lt (untaken v at lt),
          ),
          lt',
          along',
        )
      ]

  -- So the weights along the candidates would rise forever.
  no_candidate :
      (d v y : ℕ)
      → weight_bound h ≤ y + d
      → s.mate v ≡ n
      → s.candidate v < n
      → Edge h v (s.candidate v) y
      → 0 < y
      → ⊥
  no_candidate zero v y bound at lt along positive =
      let (z, more, lt', along') = climb v y at lt along positive in
      absurd
        (omega (arith, le-weight_bound h (s.candidate v) (s.candidate (s.candidate v)) z along'))
  no_candidate (suc d) v y bound at lt along positive =
      let (z, more, lt', along') = climb v y at lt along positive in
      no_candidate d (s.candidate v) z (omega arith) (untaken v at lt) lt' along' (omega arith)

  -- A node without a mate has no neighbour without a mate.
  all_taken : (v x z : ℕ) → s.mate v ≡ n → Edge h v x z → (z ≡ 0) ⊎ (s.mate x < n)
  all_taken v x z at e =
      let c = sound.chose v e.0 at in
      elim c.choice [
        | inl nobody ↦ ground (arith, c.heaviest x z)
        | inr (lt, along, positive) ↦
            absurd (no_candidate (weight_bound h) v c.weight (omega arith) at lt along positive)
      ]

  abbrev result : Proposals
  result = record { suitor = s.mate; ws = ws }

  pub result-IsMatching : IsMatching h result
  result-IsMatching = record {
    null_or_node = sound.null_or_node;
    symmetric = sound.symmetric;
    matched = sound.matched;
    unmatched = sound.unmatched;
  }

  pub result-IsDominant : IsDominant h result
  result-IsDominant p q w e = elim (dec_lt (s.mate p) n) [
    | yes lt ↦ sound.dominant p q w e lt
    | no free ↦ ground (
      arith,
      all_taken p q w,
      sound.null_or_node p,
      simple.edge_sym p q w e,
      sound.dominant q p w,
    )
  ]

module _ (g : Graph) (allowed : ℕ → ℕ → Bool) (simple : IsSimple (usable g allowed)) where
  pub procedure_matches :
      (s : State) × (procedure g allowed (suc g.num_nodes) (λ _. g.num_nodes) ≡ some s)
      × (ws : ℕ → ℕ) × IsMatching (usable g allowed) (record { suitor = s.mate; ws = ws })
      × IsDominant (usable g allowed) (record { suitor = s.mate; ws = ws })
  procedure_matches =
      let (s, runs, empty, _, kept) = procedure-Kept g allowed simple in
      let (ws, sound) = kept.0 in
      (
        s,
        runs,
        ws,
        result-IsMatching (usable g allowed) simple s sound empty,
        result-IsDominant (usable g allowed) simple s sound empty,
      )
