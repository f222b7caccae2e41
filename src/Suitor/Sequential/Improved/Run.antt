-- ===== src/Suitor/Sequential/Improved/Run.antt =====
-- A run of `improved_procedure` of the sequential suitor on a new instance, in its parts.
use cpp_suitor_and_local_dom.Base.{
  ℕ, zero, suc, ◌+◌, ◌≤◌, ◌<◌, ◌≡◌, refl, ap, sym, ◌⊎◌, inl, inr, true, false, some, arith, total,
}
use cpp_suitor_and_local_dom.Graph.{Graph, Edge, IsSimple}
use cpp_suitor_and_local_dom.Graph.Usable.{usable, Has-keep}
use cpp_suitor_and_local_dom.Suitor.Protocol.{Proposals, IsSound}
use cpp_suitor_and_local_dom.Suitor.Outcome.{
  IsMatching, IsDominant, settled-IsMatching, settled-IsDominant,
}
use cpp_suitor_and_local_dom.Heavy.Pairing.{IsPairing}
use cpp_suitor_and_local_dom.Heavy.Track.{IsTwin}
use cpp_suitor_and_local_dom.Heavy.Joined.{Entry}
use cpp_suitor_and_local_dom.Heavy.Correct.{join_matchings_run}
use cpp_suitor_and_local_dom.Suitor.Sequential.{
  SequentialSuitor, fresh, create, asserts_hold, test_matching,
}
use cpp_suitor_and_local_dom.Suitor.Sequential.Loop.{enough, procedure_ends}
use cpp_suitor_and_local_dom.Suitor.Sequential.Second.{two_matchings}
use cpp_suitor_and_local_dom.Suitor.Sequential.Second.Beside.{
  beside, beside-IsSimple, procedure2-procedure,
}
use cpp_suitor_and_local_dom.Suitor.Sequential.Improved.{twin, copy_fourth, improved_procedure}
use cpp_suitor_and_local_dom.Suitor.Sequential.Improved.Rest.{procedure3_matches}
use cpp_suitor_and_local_dom.Graph.Free.{rest_of}
use cpp_suitor_and_local_dom.Heavy.Extended.{IsMaximal, both-IsMaximal}
use cpp_suitor_and_local_dom.Suitor.Sequential.Improved.Copied.{copied-cases}

-- What one run of `procedure` leaves, as a pairing: `ws` is the same at both ends.
sound-IsPairing :
    {g : Graph} {s : Proposals}
    → IsSimple g
    → IsSound g s
    → IsMatching g s
    → IsPairing g.num_nodes s.suitor s.ws
sound-IsPairing {g} {s} simple sound found = record {
  bound = found.null_or_node;
  inside = λ x lt. (found.matched x lt).0;
  symmetric = found.symmetric;
  loopless = λ x lt e. simple.no_loop x (s.suitor x) (s.ws x) (found.matched x lt) (sym e);
  weighs = λ x lt.
      let back = found.symmetric x lt in
      let inside = (found.matched x lt).0 in
      omega (arith, sound.rising x lt, sound.rising (s.suitor x) (rw back inside), ap s.ws back);
  lone = found.unmatched;
}

-- The asserts of `test_matching` for one table.
asserts_of_symmetric :
    (g : Graph) (s : Proposals) (n : ℕ)
    → ((v : ℕ) → s.suitor v ≤ g.num_nodes)
    → ((v : ℕ) → s.suitor v < g.num_nodes → s.suitor (s.suitor v) ≡ v)
    → asserts_hold g s n ≡ true
unfolding asserts_hold
asserts_of_symmetric g s zero bound back = refl
asserts_of_symmetric g s (suc n) bound back =
    ground (arith, asserts_of_symmetric g s n bound back, back n, bound n)

module _ (g : Graph) (simple : IsSimple g) (plus : ℕ → ℕ → ℕ) where
  abbrev IsExact : Type 0
  IsExact = (a b : ℕ) → plus a b ≡ a + b

  abbrev pub both : Proposals → Proposals → ℕ → ℕ
  both t f = (copy_fourth g.num_nodes f.suitor g.num_nodes (t.suitor, (λ _. false))).0

  pub both-cases :
      (t f : Proposals)
      → IsMatching (rest_of g t.suitor) f
      → (v : ℕ)
      → (f.suitor v < g.num_nodes) × (both t f v ≡ f.suitor v)
        ⊎ (f.suitor v ≡ g.num_nodes) × (both t f v ≡ t.suitor v)
  both-cases t f found v =
      copied-cases g.num_nodes f.suitor t.suitor v (found.null_or_node v)
        λ lt. (found.matched v lt).0

  -- The parts of a run.
  pub record Run (m : SequentialSuitor) (joined : Proposals) : Type 0 where
    pub graph_is : m.graph ≡ g
    pub optimized_is : m.optimized ≡ true
    pub first_found : IsMatching g m.first
    pub first_dominant : IsDominant g m.first
    pub second_found : IsMatching (usable g (beside g m.first.suitor)) m.second
    pub pairing : IsPairing g.num_nodes joined.suitor joined.ws
    pub made :
        (x : ℕ)
        → Entry m.first.suitor m.first.ws joined x ⊎ Entry m.second.suitor m.second.ws joined x
    pub heavy : IsExact → total g.num_nodes m.first.ws ≤ total g.num_nodes joined.ws
    pub heavy2 : IsExact → total g.num_nodes m.second.ws ≤ total g.num_nodes joined.ws
    pub added : IsMatching (rest_of g joined.suitor) m.fourth
    pub added_dominant : IsDominant (rest_of g joined.suitor) m.fourth
    pub added_positive : (v : ℕ) → (m.fourth.suitor v ≡ g.num_nodes) ⊎ (0 < m.fourth.ws v)
    pub third_is : m.third ≡ record joined { suitor = both joined m.fourth }

  pub improved-Run :
      (fuel2 : ℕ) × (fuel3 : ℕ) × (m : SequentialSuitor) × (joined : Proposals)
      × (improved_procedure plus (enough g) fuel2 fuel3 (create g) ≡ some m)
      × Run m joined
  unfolding improved_procedure two_matchings create
  improved-Run =
      let (t, ends, last) = procedure_ends simple in
      let found = settled-IsMatching simple last.sound last.settled in
      let simple2 = beside-IsSimple g simple t found in
      let (t2, ends2, last2) = procedure_ends simple2 in
      let found2 = settled-IsMatching simple2 last2.sound last2.settled in
      let b : SequentialSuitor = record (create g) { first = t; second = t2; optimized = true } in
      let paired : IsTwin (twin plus b) = record {
        first = sound-IsPairing simple last.sound found;
        second = sound-IsPairing simple2 last2.sound found2;
      } in
      let (j, ends3, (pairing, made), heavier) = join_matchings_run paired in
      let (f, ends4, added, added_dominant, positive) = procedure3_matches g j.suitor simple in
      let h : Graph = usable g (beside g t.suitor) in
      (
        enough h,
        enough (rest_of g j.suitor),
        record b { third = record j { suitor = both j f }; fourth = f },
        j,
        rw (ends, procedure2-procedure g t.suitor (enough h) (fresh g), ends2, ends3, ends4) refl,
        record {
          graph_is = refl;
          optimized_is = refl;
          first_found = found;
          first_dominant = settled-IsDominant simple last.sound last.settled;
          second_found = found2;
          pairing = pairing;
          made = made;
          heavy = λ exact. (heavier exact).0;
          heavy2 = λ exact. (heavier exact).1;
          added = added;
          added_dominant = added_dominant;
          added_positive = positive;
          third_is = refl;
        },
      )

  -- An edge of either matching is one of the graph.
  joined-Edge :
      (m : SequentialSuitor) (joined : Proposals)
      → Run m joined
      → (v : ℕ) → joined.suitor v < g.num_nodes
      → Edge g v (joined.suitor v) (joined.ws v)
  joined-Edge m joined r v lt = elim (r.made v) [
    | inl (e, w) ↦ rw (e, w) (r.first_found.matched v (omega arith))
    | inr (e, w) ↦
        let along = r.second_found.matched v (omega arith) in
        rw (e, w) (along.0, ((Has-keep (beside g m.first.suitor v) (g.arcs v) _ _).0 along.1).0)
  ]

  pub Run-IsMaximal :
      (m : SequentialSuitor) (joined : Proposals) → Run m joined → IsMaximal g m.third.suitor
  Run-IsMaximal m joined r = rw r.third_is (
      both-IsMaximal g joined m.fourth r.pairing r.added (both-cases joined m.fourth r.added)
        r.added_dominant (joined-Edge m joined r))

  pub Run-test : (m : SequentialSuitor) (joined : Proposals) → Run m joined → test_matching m ≡ true
  unfolding test_matching
  Run-test m joined r =
      let whole = Run-IsMaximal m joined r in
      let holds =
        λ (t : Proposals) (bound : (v : ℕ) → t.suitor v ≤ g.num_nodes)
            (back : (v : ℕ) → t.suitor v < g.num_nodes → t.suitor (t.suitor v) ≡ v).
          asserts_of_symmetric g t g.num_nodes bound back in
      rw
        (
          r.optimized_is,
          r.graph_is,
          holds m.first r.first_found.null_or_node r.first_found.symmetric,
          holds m.second r.second_found.null_or_node r.second_found.symmetric,
          holds m.third whole.null_or_node whole.symmetric,
          holds m.fourth r.added.null_or_node r.added.symmetric,
        )
        refl
