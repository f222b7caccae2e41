-- ===== src/Suitor/Sequential/Improved/Correct.antt =====
-- What `improved_procedure` of the sequential suitor leaves on a new instance.
use cpp_suitor_and_local_dom.Base.{
  ◌+◌, ℕ, ◌*◌, ◌≤◌, ◌<◌, ◌≡◌, ap, ◌∙◌, ◌⊎◌, inl, inr, true, some, arith, total,
}
use cpp_suitor_and_local_dom.Graph.{Graph, IsSimple}
use cpp_suitor_and_local_dom.Suitor.Protocol.{Proposals}
use cpp_suitor_and_local_dom.Suitor.Outcome.{IsMatching, half_of_any}
use cpp_suitor_and_local_dom.Suitor.Sequential.{SequentialSuitor, create, test_matching}
use cpp_suitor_and_local_dom.Suitor.Sequential.Loop.{enough}
use cpp_suitor_and_local_dom.Suitor.Sequential.Improved.{improved_procedure}
use cpp_suitor_and_local_dom.Heavy.Extended.{IsMaximal, was_free}
use cpp_suitor_and_local_dom.Suitor.Sequential.Improved.Run.{
  improved-Run, Run-IsMaximal, Run-test, both-cases,
}

module _ (g : Graph) (simple : IsSimple g) (plus : ℕ → ℕ → ℕ) where
  -- On a simple graph with distinct weights, on a new instance, `improved_procedure` ends, given
  -- enough fuel for each of its procedures, whatever the additions of weights return. `suitor3` is
  -- then a matching of edges of the graph to which no edge of positive weight can be added, and
  -- `test_matching` passes.
  pub suitor_improved_matches :
      (fuel2 : ℕ) × (fuel3 : ℕ) × (m : SequentialSuitor) × (improved_procedure plus
          (enough g)
          fuel2
          fuel3
          (create g)
        ≡ some m)
      × IsMaximal g m.third.suitor
      × (test_matching m ≡ true)
  suitor_improved_matches =
      let (fuel2, fuel3, m, joined, ran, r) = improved-Run g simple plus in
      (
        fuel2,
        fuel3,
        m,
        ran,
        Run-IsMaximal g simple plus m joined r,
        Run-test g simple plus m joined r,
      )

  -- On a simple graph with distinct weights, on a new instance, `improved_procedure` ends, given
  -- enough fuel. Given that no addition of weights rounds, the weights in `ws3` then sum to no less
  -- than those in `ws` and than those in `ws2`, and any matching of the graph weighs at most twice
  -- what `ws3` sums to.
  pub suitor_improved_half :
      ((a b : ℕ) → plus a b ≡ a + b)
      → (other : Proposals) → IsMatching g other
      → (fuel2 : ℕ) × (fuel3 : ℕ) × (m : SequentialSuitor) × (improved_procedure plus
            (enough g)
            fuel2
            fuel3
            (create g)
          ≡ some m)
        × (total g.num_nodes m.first.ws ≤ total g.num_nodes m.third.ws)
        × (total g.num_nodes m.second.ws ≤ total g.num_nodes m.third.ws)
        × (total g.num_nodes other.ws ≤ 2 * total g.num_nodes m.third.ws)
  suitor_improved_half exact other found =
      let (fuel2, fuel3, m, joined, ran, r) = improved-Run g simple plus in
      (
        fuel2,
        fuel3,
        m,
        ran,
        rw r.third_is (r.heavy exact),
        rw r.third_is (r.heavy2 exact),
        omega (
          arith,
          half_of_any g m.first other r.first_dominant found,
          ap (λ (t : Proposals). total g.num_nodes t.ws) r.third_is,
          r.heavy exact,
        ),
      )

  -- On a simple graph with distinct weights, on a new instance, `improved_procedure` ends, given
  -- enough fuel, whatever the additions of weights return. Each node that `procedure3` matched then has its mate in `suitor3`, and its weight,
  -- which is positive, in `ws4`, while `ws3` still has 0 for it.
  pub added_weightless :
      (fuel2 : ℕ) × (fuel3 : ℕ) × (m : SequentialSuitor) × (improved_procedure plus
          (enough g)
          fuel2
          fuel3
          (create g)
        ≡ some m)
      × ((v : ℕ)
          → (m.fourth.suitor v ≡ g.num_nodes)
            ⊎ (m.third.suitor v ≡ m.fourth.suitor v) × (0 < m.fourth.ws v) × (m.third.ws v ≡ 0))
  added_weightless =
      let (fuel2, fuel3, m, joined, ran, r) = improved-Run g simple plus in
      (
        fuel2,
        fuel3,
        m,
        ran,
        λ v. elim (both-cases g simple plus joined m.fourth r.added v) [
          | inr (e, _) ↦ inl e
          | inl (lt, e) ↦
              let free = (was_free g joined m.fourth r.pairing r.added v lt).1 in
              inr (
                ap (λ (t : Proposals). t.suitor v) r.third_is ∙ e,
                ground (arith, r.added_positive v, lt),
                ap (λ (t : Proposals). t.ws v) r.third_is ∙ r.pairing.lone v free,
              )
        ],
      )
