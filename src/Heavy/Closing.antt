-- ===== src/Heavy/Closing.antt =====
-- A walk of the heavy matching has ended: at a node without the next mate, or where it began.
use cpp_suitor_and_local_dom.Base.{
  ℕ, ◌<◌, ◌≡◌, refl, sym, inl, inr, Bool, true, false, not, ◌∷◌, [], ◌++◌, ℕ_discrete, update,
  to_update, of_update, arith, ap, ◌∙◌,
}
use cpp_suitor_and_local_dom.EdgeList.{EdgeList}
use cpp_suitor_and_local_dom.Heavy.{Twin, Choice, Walk, advance}
use cpp_suitor_and_local_dom.Heavy.Pairing.{IsPairing, weight_old}
use cpp_suitor_and_local_dom.Heavy.Steps.{Visited, IsWalk, taken_edges, taken-Stored}
use cpp_suitor_and_local_dom.Heavy.Track.{along, IsTwin, pairing, opening, IsTrack}
use cpp_suitor_and_local_dom.Heavy.Ends.{IsSide, IsDone}

-- The last edge of a cycle, back to its start.
module _ {n : ℕ} {before : ℕ → Bool} {f wf g wg : ℕ → ℕ} {OpenF OpenG : ℕ → Type 0}
    {processed : ℕ → Bool} {current : ℕ} {last previous : EdgeList} (other : IsPairing n g wg)
    (walk : IsWalk n before f wf g wg OpenF OpenG processed current last previous)
    (goes : g current < n) (seen : Visited before processed (g current)) where
  abbrev after : ℕ → Bool
  after = update processed (g current) true

  keeps : (x : ℕ) → processed x ≡ true → after x ≡ true
  keeps x e = to_update (λ b. b ≡ true) processed (g current) true x (λ _. refl) λ _. e

  was : (x : ℕ) → Visited before after x → Visited before processed x
  was x v = elim (of_update (λ b. b ≡ true) processed (g current) true x v.0) [
    | inl here ↦ rw (sym here.0) seen
    | inr old ↦ (old.1, v.1)
  ]

  close-last :
      ((x : ℕ) → OpenG x → x ≡ g current)
      → IsSide n before after g wg
          (previous ++ (record { from = current; to = g current; length = wg current } ∷ []))
  close-last here = record {
    edges_of = taken_edges other walk goes after keeps (keeps (g current) seen.0, seen.1);
    stored = λ x v lt.
        taken-Stored other walk goes after keeps (keeps (g current) seen.0, seen.1) x
          (elim (ℕ_discrete x (g current)) [
            | yes e ↦ inr e
            | no ne ↦ inl (was x v, λ o. ne (here x o))
          ])
          lt;
  }

  close-previous : ((x : ℕ) → ¬ OpenF x) → IsSide n before after f wf last
  close-previous shut = record {
    edges_of = λ x y k h.
        let e = walk.last_edges x y k h in
        ((keeps x e.0.0, e.0.1), (keeps y e.1.0, e.1.1), e.2, e.3);
    stored = λ x v lt. walk.last_stored x (was x v) (shut x) lt;
  }

opening_none :
    {m : Twin} (twin : IsTwin m) (late : Bool) (u : ℕ) (b : Bool)
    → along m late u ≡ m.null
    → opening m late u b ≡ 0
opening_none twin true u true e = twin.first.lone u e
opening_none twin true u false e = refl
opening_none twin false u true e = refl
opening_none twin false u false e = twin.second.lone u e

module _ {m : Twin} (twin : IsTwin m) {before : ℕ → Bool} where
  -- A path ends at a node without the next mate; it began at one.
  pub path-IsDone :
      {late : Bool} {u : ℕ} {w : Walk}
      → IsTrack m before late u w
      → along m late u ≡ m.null
      → along m (not w.mate_runner) w.current ≡ m.null
      → IsDone m before w
  path-IsDone {late} {u} {w} t lone stop = record {
    grown = t.on.grown;
    inside = t.on.inside;
    last_side = record {
      edges_of = t.on.last_edges;
      stored = λ x v lt. t.on.last_stored x v (λ o. shut w.mate_runner x o lt) lt;
    };
    previous_side = record {
      edges_of = λ x y k h. (t.on.previous_edges x y k h).0;
      stored = λ x v lt.
          t.on.previous_stored x v
            (λ e. absurd (omega (arith, lt, stop, ap (along m (not w.mate_runner)) e)))
            (λ o. shut (not w.mate_runner) x o lt) lt;
    };
    last_weighed = λ exact.
        omega (arith, (t.tally exact).last_tally, opening_none twin late u w.mate_runner lone);
    previous_weighed = λ exact. omega (
      arith,
      (t.tally exact).previous_tally,
      opening_none twin late u (not w.mate_runner) lone,
      (pairing twin (not w.mate_runner)).lone w.current stop,
    );
  }
    where
      shut : (b : Bool) (x : ℕ) → (b ≡ late) × (x ≡ u) → along m b x < m.null → ⊥
      shut b x (e, same) lt =
          let nowhere : along m b x ≡ m.null = rw e (rw same lone) in
          absurd (omega (arith, lt, nowhere))

  -- A cycle is closed by the edge that was left out at its start.
  pub cycle-IsDone :
      (b : Bool) {u : ℕ} (p : ℕ → Bool) (x : ℕ) (last previous : Choice)
      → let w : Walk = record {
        processed = p;
        current = x;
        mate_runner = b;
        last = last;
        previous = previous;
      } in
        IsTrack m before (not b) u w
        → before u ≡ false
        → u < m.null
        → along m (not b) x ≡ u
        → IsDone m before (advance m w)
  unfolding advance
  cycle-IsDone true {u} p x last previous t fresh lt back = record {
    grown = λ y e. keeps twin.second t.on goes seen y (t.on.grown y e);
    inside = λ y v. t.on.inside y (was twin.second t.on goes seen y v);
    last_side = close-last twin.second t.on goes seen λ y o. o.1 ∙ sym back;
    previous_side = close-previous twin.second t.on goes seen λ y o. absurd (ground (arith, o.0));
    last_weighed = λ exact. omega (
      arith,
      (t.tally exact).previous_tally,
      weight_old m.null p m.weight2 (m.mate2 x) seen.0,
      twin.second.weighs x goes,
      ap m.weight2 back,
      exact previous.total_weight (m.weight2 x),
    );
    previous_weighed = λ exact.
        omega (arith, (t.tally exact).last_tally, weight_old m.null p m.weight (m.mate2 x) seen.0);
  }
    where
      goes : m.mate2 x < m.null
      goes = rw back lt

      seen : Visited before p (m.mate2 x)
      seen = rw back (t.started, fresh)
  cycle-IsDone false {u} p x last previous t fresh lt back = record {
    grown = λ y e. keeps twin.first t.on goes seen y (t.on.grown y e);
    inside = λ y v. t.on.inside y (was twin.first t.on goes seen y v);
    last_side = close-last twin.first t.on goes seen λ y o. o.1 ∙ sym back;
    previous_side = close-previous twin.first t.on goes seen λ y o. absurd (ground (arith, o.0));
    last_weighed = λ exact. omega (
      arith,
      (t.tally exact).previous_tally,
      weight_old m.null p m.weight (m.mate x) seen.0,
      twin.first.weighs x goes,
      ap m.weight back,
      exact previous.total_weight (m.weight x),
    );
    previous_weighed = λ exact.
        omega (arith, (t.tally exact).last_tally, weight_old m.null p m.weight2 (m.mate x) seen.0);
  }
    where
      goes : m.mate x < m.null
      goes = rw back lt

      seen : Visited before p (m.mate x)
      seen = rw back (t.started, fresh)
