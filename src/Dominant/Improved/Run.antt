-- ===== src/Dominant/Improved/Run.antt =====
-- A run of `improved_procedure` of the dominant algorithm on a new instance, in its parts.
use cpp_suitor_and_local_dom.Base.{
  ℕ, suc, ◌+◌, ◌≤◌, ◌<◌, ◌≡◌, refl, sym, ◌∙◌, ◌≢◌, ◌⊎◌, inl, inr, Bool, true, ◌==◌, some, arith,
  total, total-add, total_ext, Bool-cases, dec_lt,
}
use cpp_suitor_and_local_dom.Graph.{Graph, Edge, IsSimple}
use cpp_suitor_and_local_dom.Graph.Usable.{usable, Has-keep}
use cpp_suitor_and_local_dom.Graph.Free.{rest_of, rest_of-IsSimple}
use cpp_suitor_and_local_dom.Suitor.Protocol.{Proposals}
use cpp_suitor_and_local_dom.Suitor.Outcome.{IsMatching}
use cpp_suitor_and_local_dom.Heavy.Pairing.{IsPairing, nobody_beyond}
use cpp_suitor_and_local_dom.Heavy.Track.{IsTwin}
use cpp_suitor_and_local_dom.Heavy.Joined.{Entry}
use cpp_suitor_and_local_dom.Heavy.Correct.{join_matchings_run}
use cpp_suitor_and_local_dom.Heavy.Extended.{IsMaximal, both-IsMaximal, both-IsMatching}
use cpp_suitor_and_local_dom.Dominant.{State}
use cpp_suitor_and_local_dom.Dominant.Correct.{procedure_matches}
use cpp_suitor_and_local_dom.Dominant.Runs.{all_edges, unmatched-IsSimple, IsDominantMatching}
use cpp_suitor_and_local_dom.Dominant.Rest.{procedure-rest}
use cpp_suitor_and_local_dom.Dominant.Instance.{
  SequentialDominant, create, unmatched, two_matchings,
}
use cpp_suitor_and_local_dom.Dominant.Quality.{find_weight-Has}
use cpp_suitor_and_local_dom.Dominant.Improved.{mate_weight, twin, improved_procedure}

-- A matching of some of the edges is one of the graph.
usable-IsMatching :
    (g : Graph) (allowed : ℕ → ℕ → Bool) (s : Proposals)
    → IsMatching (usable g allowed) s
    → IsMatching g s
usable-IsMatching g allowed s found = record {
  null_or_node = found.null_or_node;
  symmetric = found.symmetric;
  matched = λ v lt.
      let e = found.matched v lt in
      (e.0, ((Has-keep (allowed v) (g.arcs v) (s.suitor v) (s.ws v)).0 e.1).0);
  unmatched = found.unmatched;
}

module _ (g : Graph) (simple : IsSimple g)
    (plain : (u v w w' : ℕ) → Edge g u v w → Edge g u v w' → w ≡ w') (plus : ℕ → ℕ → ℕ)
    (beyond : ℕ → ℕ) where
  abbrev n : ℕ
  n = g.num_nodes

  -- The weight that is looked up is that of the matching.
  mate_weight-ws :
      (s : Proposals) → IsMatching g s → (v : ℕ) → mate_weight beyond g s.suitor v ≡ s.ws v
  mate_weight-ws s found v = elim (Bool-cases (s.suitor v == n)) [
    | inl nobody ↦ rw nobody (sym (found.unmatched v (ground (arith, nobody))))
    | inr somebody ↦
        let e = found.matched v (ground (arith, somebody, found.null_or_node v)) in
        rw somebody (
          find_weight-Has (beyond v) (g.arcs v) (s.suitor v) (s.ws v) e.1
            λ x y hx hy. plain v (s.suitor v) x y (e.0, hx) (e.0, hy))
  ]

  matching-IsPairing :
      (s : Proposals) → IsMatching g s → IsPairing n s.suitor (mate_weight beyond g s.suitor)
  matching-IsPairing s found = record {
    bound = found.null_or_node;
    inside = λ x lt. (found.matched x lt).0;
    symmetric = found.symmetric;
    loopless = λ x lt e. simple.no_loop x (s.suitor x) (s.ws x) (found.matched x lt) (sym e);
    weighs = λ x lt.
        let back = found.symmetric x lt in
        let inside = (found.matched x lt).0 in
        let along = found.matched (s.suitor x) (rw back inside) in
        let there : Edge g (s.suitor x) x (s.ws (s.suitor x)) = rw back at along in
        omega (
          arith,
          mate_weight-ws s found x,
          mate_weight-ws s found (s.suitor x),
          plain (s.suitor x) x _ _ there
              (simple.edge_sym x (s.suitor x) (s.ws x) (found.matched x lt)),
        );
    lone = λ x e. omega (arith, mate_weight-ws s found x, found.unmatched x e);
  }

  -- The parts of a run.
  pub record Run (m : SequentialDominant) (ws ws3 : ℕ → ℕ) : Type 0 where
    pub graph_is : m.graph ≡ g
    pub optimized_is : m.optimized ≡ true
    pub first_found : IsDominantMatching g m.mate ws
    pub second_found : (ws2 : ℕ → ℕ) × IsMatching g (record { suitor = m.mate2; ws = ws2 })
    pub heavy : ((a b : ℕ) → plus a b ≡ a + b) → total n ws ≤ total n ws3
    pub found : IsMatching g (record { suitor = m.mate3; ws = ws3 })
    pub whole : IsMaximal g m.mate3

  pub improved-Run :
      (m : SequentialDominant) × (ws : ℕ → ℕ) × (ws3 : ℕ → ℕ) × (improved_procedure plus beyond
          (suc n)
          (create g)
        ≡ some m)
      × Run m ws ws3
  unfolding improved_procedure two_matchings create
  improved-Run =
      let (s, ends, ws, good) = all_edges g simple in
      let t : Proposals = record { suitor = s.mate; ws = ws } in
      let (s2, ends2, ws2, good2, _) =
        procedure_matches g (unmatched s.mate) (unmatched-IsSimple g simple s.mate ws good.0) in
      let t2 : Proposals = record { suitor = s2.mate; ws = ws2 } in
      let found2 = usable-IsMatching g (unmatched s.mate) t2 good2 in
      let b : SequentialDominant = record (create g) {
        mate = s.mate;
        mate2 = s2.mate;
        optimized = true;
      } in
      let paired : IsTwin (twin plus beyond b) = record {
        first = matching-IsPairing t good.0;
        second = matching-IsPairing t2 found2;
      } in
      let (j, ends3, (pairing, made), heavier) = join_matchings_run paired in
      let nowhere : j.suitor n ≡ n = nobody_beyond pairing in
      let (z, ends_rest, ws_rest, (added, added_dominant)) =
        all_edges (rest_of g j.suitor) (rest_of-IsSimple g j.suitor simple) in
      let f : Proposals = record { suitor = z.mate; ws = ws_rest } in
      let (y, ends4, agree) = procedure-rest g j.suitor nowhere (suc n) z ends_rest in
      let cases = λ (v : ℕ). both_cases f j added y v (agree v) in
      let along = λ (v : ℕ) (lt : j.suitor v < n). joined-Edge t t2 j good.0 found2 v (made v) lt in
      (
        record b { mate3 = y.mate },
        ws,
        (λ v. ws_rest v + j.ws v),
        rw (ends, ends2, ends3, ends4) refl,
        record {
          graph_is = refl;
          optimized_is = refl;
          first_found = good;
          second_found = (ws2, found2);
          heavy = λ exact. omega (
            arith,
            (heavier exact).0,
            total-add n ws_rest j.ws,
            total_ext n ws (mate_weight beyond g s.mate) λ v _. sym (mate_weight-ws t good.0 v),
          );
          found = both-IsMatching g j f pairing added cases along;
          whole = both-IsMaximal g j f pairing added cases added_dominant along;
        },
      )
    where
      both_cases :
          (f j : Proposals)
          → IsMatching (rest_of g j.suitor) f
          → (y : State) (v : ℕ)
          → (j.suitor v ≡ n) × (y.mate v ≡ f.suitor v)
            ⊎ (j.suitor v ≢ n) × (y.mate v ≡ j.suitor v) × (f.suitor v ≡ n)
          → (f.suitor v < n) × (y.mate v ≡ f.suitor v) ⊎ (f.suitor v ≡ n) × (y.mate v ≡ j.suitor v)
      both_cases f j added y v agree = elim agree [
        | inr (_, same, out) ↦ inr (out, same)
        | inl (free, same) ↦ elim (dec_lt (f.suitor v) n) [
          | yes lt ↦ inl (lt, same)
          | no ge ↦
              let out : f.suitor v ≡ n = omega (arith, ge, added.null_or_node v) in
              inr (out, same ∙ out ∙ sym free)
        ]
      ]

      joined-Edge :
          (t t2 j : Proposals)
          → IsMatching g t
          → IsMatching g t2
          → (v : ℕ)
          → Entry t.suitor (mate_weight beyond g t.suitor) j v
            ⊎ Entry t2.suitor (mate_weight beyond g t2.suitor) j v
          → j.suitor v < n
          → Edge g v (j.suitor v) (j.ws v)
      joined-Edge t t2 j found found2 v (inl (e, w)) lt =
          rw (e, w ∙ mate_weight-ws t found v) (found.matched v (omega arith))
      joined-Edge t t2 j found found2 v (inr (e, w)) lt =
          rw (e, w ∙ mate_weight-ws t2 found2 v) (found2.matched v (omega arith))
