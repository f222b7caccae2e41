-- ===== src/Suitor/Sequential/Second/Beside.antt =====
-- `procedure2` is `procedure` on the edges that are not matched in `suitor`.
use mathlib.Core.Path.{fun_ext}
use cpp_suitor_and_local_dom.Base.{
  ℕ, ◌≡◌, ◌≢◌, ◌⊎◌, inl, inr, refl, ap, Bool, true, not, some, ◌==◌, dec_lt, ℕ_discrete, arith,
}
use cpp_suitor_and_local_dom.Graph.{Graph, IsSimple}
use cpp_suitor_and_local_dom.Graph.Usable.{usable, usable-IsSimple, Has-keep}
use cpp_suitor_and_local_dom.Graph.Skipped.{scan-keep}
use cpp_suitor_and_local_dom.Suitor.Protocol.{Proposals}
use cpp_suitor_and_local_dom.Suitor.Outcome.{IsMatching}
use cpp_suitor_and_local_dom.Suitor.Sequential.{
  SequentialSuitor, fresh, create, accepts, round, for_nodes, procedure,
}
use cpp_suitor_and_local_dom.Suitor.Sequential.Loop.{enough}
use cpp_suitor_and_local_dom.Suitor.Sequential.Correct.{procedure_total, procedure-IsMatching}
use cpp_suitor_and_local_dom.Suitor.Sequential.Second.{round2, procedure2, two_matchings}

module _ (g : Graph) (suitor : ℕ → ℕ) where
  -- The edge from `u` to `v` is not that of `suitor[v]`.
  abbrev pub beside : ℕ → ℕ → Bool
  beside u v = not (suitor v == u)

  round2-round :
      (s : Proposals) (current : ℕ) → round2 g suitor s current ≡ round (usable g beside) s current
  unfolding round2 round
  round2-round s current =
      rw
        (scan-keep (accepts s) (beside current)
          (record { partner = s.suitor current; heaviest = s.ws current }) (g.arcs current))
        refl

  -- For every fuel and every table that it starts from, `procedure2` does what `procedure` does on
  -- the graph of the edges that are not matched in `suitor`.
  pub procedure2-procedure :
      (fuel : ℕ) (s : Proposals) → procedure2 g suitor fuel s ≡ procedure (usable g beside) fuel s
  unfolding procedure2 procedure
  procedure2-procedure fuel s =
      ap (λ body. for_nodes body fuel g.num_nodes 0 s)
        (fun_ext λ t. fun_ext λ current. round2-round t current)

module _ (g : Graph) (simple : IsSimple g) where
  pub beside-IsSimple : (t : Proposals) → IsMatching g t → IsSimple (usable g (beside g t.suitor))
  beside-IsSimple t found = usable-IsSimple g (beside g t.suitor) simple λ u v w e may.
      ground (
        arith,
        found.symmetric u,
        (simple.edge_sym u v w e).0,
        λ (p : t.suitor u ≡ v). ap t.suitor p,
      )

  pub apart :
      (t t2 : Proposals)
      → IsMatching g t
      → IsMatching (usable g (beside g t.suitor)) t2
      → (v : ℕ) → (t.suitor v ≢ t2.suitor v) ⊎ (t.suitor v ≡ g.num_nodes)
  apart t t2 found found2 v = elim (dec_lt (t2.suitor v) g.num_nodes) [
    | yes lt ↦
        let along = found2.matched v lt in
        let kept = (Has-keep (beside g t.suitor v) (g.arcs v) (t2.suitor v) (t2.ws v)).0 along.1 in
        inl (
          ground
            (arith, kept.1, found.symmetric v, λ (p : t.suitor v ≡ t2.suitor v). ap t.suitor p))
    | no nobody ↦ elim (ℕ_discrete (t.suitor v) g.num_nodes) [
      | yes free ↦ inr free
      | no taken ↦ inl (ground (arith, found2.null_or_node v))
    ]
  ]

  -- On a simple graph with distinct weights, on a new instance, the two procedures with which
  -- `improved_procedure` begins end, given enough fuel. `suitor` and `ws` are a matching, `suitor2`
  -- and `ws2` are one of the edges that are not matched in `suitor`, and no node has the same
  -- suitor in both.
  pub suitors_apart :
      (m : SequentialSuitor) × (fuel2 : ℕ) × (two_matchings (enough g) fuel2 (create g) ≡ some m)
      × IsMatching g m.first
      × IsMatching (usable g (beside g m.first.suitor)) m.second
      × ((v : ℕ) → (m.first.suitor v ≢ m.second.suitor v) ⊎ (m.first.suitor v ≡ g.num_nodes))
  unfolding two_matchings create
  suitors_apart =
      let (t, ends) = procedure_total g simple in
      let found = procedure-IsMatching g simple t ends in
      let simple2 = beside-IsSimple t found in
      let (t2, ends2) = procedure_total (usable g (beside g t.suitor)) simple2 in
      let found2 = procedure-IsMatching (usable g (beside g t.suitor)) simple2 t2 ends2 in
      (
        record (create g) { first = t; second = t2; optimized = true },
        enough (usable g (beside g t.suitor)),
        rw
            (
              ends,
              procedure2-procedure g t.suitor (enough (usable g (beside g t.suitor))) (fresh g),
              ends2,
            )
            refl,
        found,
        found2,
        apart t t2 found found2,
      )
