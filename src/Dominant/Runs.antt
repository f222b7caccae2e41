-- ===== src/Dominant/Runs.antt =====
-- What the operations of a `SequentialDominant` leave.
use cpp_suitor_and_local_dom.Base.{
  ℕ, zero, suc, ◌≤◌, ◌≡◌, refl, ap, subst, ◌≢◌, ◌⊎◌, inl, inr, dec_lt, ℕ_discrete, true, some,
  arith, Bool-cases,
}
use cpp_suitor_and_local_dom.Graph.{Graph, IsSimple}
use cpp_suitor_and_local_dom.Suitor.Protocol.{Proposals}
use cpp_suitor_and_local_dom.Suitor.Outcome.{IsMatching, IsDominant}
use cpp_suitor_and_local_dom.Dominant.{State, procedure}
use cpp_suitor_and_local_dom.Graph.Usable.{usable, usable_all, usable-IsSimple, Has-keep}
use cpp_suitor_and_local_dom.Dominant.Correct.{procedure_matches}
use cpp_suitor_and_local_dom.Dominant.Instance.{
  SequentialDominant, simple_procedure, unmatched, two_matchings, clear_mate, asserts_hold,
  test_matching,
}

-- A table of mates is a matching with the weights `ws`, and no edge is heavier than at both ends.
abbrev pub IsDominantMatching : Graph → (ℕ → ℕ) → (ℕ → ℕ) → Type 0
IsDominantMatching g mate ws =
    IsMatching g (record { suitor = mate; ws = ws })
    × IsDominant g (record { suitor = mate; ws = ws })

-- Until `improved_procedure` runs, `mate2` has no mates.
abbrev pub IsClean : SequentialDominant → Type 0
IsClean m = (m.optimized ≡ true) ⊎ (m.mate2 ≡ (λ _. m.graph.num_nodes))

-- `processVertex` uses every edge.
pub all_edges :
    (g : Graph)
    → IsSimple g
    → (s : State) × (procedure g (λ _ _. true) (suc g.num_nodes) (λ _. g.num_nodes) ≡ some s)
      × (ws : ℕ → ℕ) × IsDominantMatching g s.mate ws
all_edges g simple =
    let (s, runs, ws, found, dominant) =
      procedure_matches g (λ _ _. true)
        (usable-IsSimple g (λ _ _. true) simple λ u v w e may. refl) in
    (s, runs, ws, subst (λ x. IsDominantMatching x s.mate ws) (usable_all g) (found, dominant))

-- The edges that are not matched in `mate`.
pub unmatched-IsSimple :
    (g : Graph)
    → IsSimple g
    → (mate ws : ℕ → ℕ) → IsMatching g (record { suitor = mate; ws = ws })
    → IsSimple (usable g (unmatched mate))
unmatched-IsSimple g simple mate ws found =
    usable-IsSimple g (unmatched mate) simple
      λ u v w e may. ground (arith, found.symmetric v, λ (p : mate v ≡ u). ap mate p, e.0)

pub asserts_of_matching :
    (g : Graph) (s : Proposals) (n : ℕ)
    → IsMatching g s
    → n ≤ g.num_nodes
    → asserts_hold g.num_nodes s.suitor n ≡ true
unfolding asserts_hold
asserts_of_matching g s zero m le = refl
asserts_of_matching g s (suc n) m le =
    ground (arith, asserts_of_matching g s n m, m.symmetric n, m.null_or_node n)

module _ (m : SequentialDominant) (simple : IsSimple m.graph) where
  -- On a simple graph with distinct weights, `simple_procedure` on an instance that is new or has
  -- been cleared, whatever ran on it before, ends within one turn of its queue's loop more than
  -- there are nodes. Then `test_matching` passes, `mate` is with some weights a matching in which
  -- no edge is heavier than what each of its ends has.
  pub dominant_passes :
      (m' : SequentialDominant) × (simple_procedure (suc m.graph.num_nodes) (clear_mate m)
        ≡ some m')
      × (test_matching m' ≡ true)
      × (ws : ℕ → ℕ) × IsDominantMatching m.graph m'.mate ws
  unfolding simple_procedure clear_mate test_matching
  dominant_passes =
      let (s, runs, ws, good) = all_edges m.graph simple in
      (
        record (clear_mate m) { mate = s.mate },
        ground (arith, runs),
        ground (
          arith,
          asserts_of_matching m.graph (record { suitor = s.mate; ws = ws }) m.graph.num_nodes
              good.0,
        ),
        ws,
        good,
      )

  -- Where the two calls end, so does what consists of them.
  both_calls :
      (s s2 : State)
      → IsClean m
      → procedure m.graph (λ _ _. true) (suc m.graph.num_nodes) (λ _. m.graph.num_nodes) ≡ some s
      → procedure m.graph (unmatched s.mate) (suc m.graph.num_nodes) (λ _. m.graph.num_nodes)
        ≡ some s2
      → two_matchings (suc m.graph.num_nodes) (clear_mate m)
        ≡ some (record (clear_mate m) { mate = s.mate; mate2 = s2.mate; optimized = true })
  unfolding two_matchings clear_mate
  both_calls s s2 (inl optimized) runs runs2 = rw (optimized, runs, runs2) refl
  both_calls s s2 (inr blank) runs runs2 = elim (Bool-cases m.optimized) [
    | inl optimized ↦ rw (optimized, runs, runs2) refl
    | inr plain ↦ rw (plain, blank, runs, runs2) refl
  ]

  -- On a simple graph with distinct weights, on a clean instance that is cleared, the two calls
  -- of `procedure` with which `improved_procedure` begins end. `mate` is with some weights a
  -- matching in which no edge is heavier than at both of its ends; `mate2` is one too, of the
  -- edges that are not matched in `mate`. No node has the same mate in both.
  pub two_matchings_apart :
      IsClean m
      → (m' : SequentialDominant) × (two_matchings (suc m.graph.num_nodes) (clear_mate m) ≡ some m')
        × (m'.optimized ≡ true)
        × ((v : ℕ) → (m'.mate v ≢ m'.mate2 v) ⊎ (m'.mate v ≡ m.graph.num_nodes))
        × (ws : ℕ → ℕ) × (ws2 : ℕ → ℕ) × IsDominantMatching m.graph m'.mate ws
        × IsDominantMatching (usable m.graph (unmatched m'.mate)) m'.mate2 ws2
  two_matchings_apart clean =
      let (s, runs, ws, good) = all_edges m.graph simple in
      let (s2, runs2, ws2, found2, dominant2) =
        procedure_matches m.graph (unmatched s.mate)
          (unmatched-IsSimple m.graph simple s.mate ws good.0) in
      (
        record (clear_mate m) { mate = s.mate; mate2 = s2.mate; optimized = true },
        both_calls s s2 clean runs runs2,
        refl,
        apart s.mate s2.mate ws2 found2,
        ws,
        ws2,
        good,
        (found2, dominant2),
      )
    where
      apart :
          (mate mate2 ws2 : ℕ → ℕ)
          → IsMatching (usable m.graph (unmatched mate)) (record { suitor = mate2; ws = ws2 })
          → (v : ℕ) → (mate v ≢ mate2 v) ⊎ (mate v ≡ m.graph.num_nodes)
      apart mate mate2 ws2 found2 v = elim (dec_lt (mate2 v) m.graph.num_nodes) [
        | yes lt ↦
            let along = found2.matched v lt in
            let kept = (Has-keep (unmatched mate v) (m.graph.arcs v) (mate2 v) (ws2 v)).0 along.1 in
            inl (ground (arith, kept.1))
        | no nobody ↦ elim (ℕ_discrete (mate v) m.graph.num_nodes) [
          | yes free ↦ inr free
          | no taken ↦ inl (ground (arith, found2.null_or_node v))
        ]
      ]
