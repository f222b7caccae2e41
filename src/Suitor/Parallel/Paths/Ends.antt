-- ===== src/Suitor/Parallel/Paths/Ends.antt =====
-- The two ends of a path find each other, and so one of the two handles it.
use cpp_suitor_and_local_dom.Base.{
  ℕ, zero, suc, ◌+◌, ◌-◌, ◌<◌, ◌≡◌, refl, sym, ap, ◌∙◌, subst, ◌≢◌, inl, inr, Bool, true, false,
  not, ◌&&◌, some, Bool-cases, arith, ◌==◌, ltb,
}
use mathlib.Core.Option.{some_inj}
use cpp_suitor_and_local_dom.Heavy.{Twin, Walk, begin1, begin2, advance}
use cpp_suitor_and_local_dom.Heavy.Pairing.{count}
use cpp_suitor_and_local_dom.Heavy.Track.{
  along, IsTwin, pairing, IsClosed, IsTrack, begin_weight, begin1-IsTrack, begin2-IsTrack,
}
use cpp_suitor_and_local_dom.Heavy.Walks.{count-le, path_step}
use cpp_suitor_and_local_dom.Suitor.Parallel.Paths.{scout, far_end, is_handled_at}

module _ {m : Twin} (twin : IsTwin m) where
  abbrev goes_on : ℕ → Bool
  goes_on x = not (m.mate x == m.null) && not (m.mate2 x == m.null)

  module _ {before : ℕ → Bool} (closed : IsClosed m before) where
    -- The loop ends, at another node than the first.
    scout_ends :
        (fuel : ℕ) {late : Bool} {u : ℕ} (w : Walk)
        → IsTrack m before late u w
        → along m late u ≡ m.null
        → w.current ≢ u
        → m.null < fuel + count m.null w.processed
        → (v : ℕ) × (scout m fuel w.mate_runner w.current ≡ some v) × (v ≢ u)
    unfolding scout advance
    scout_ends zero w t lone apart enough =
        absurd (omega (arith, enough, count-le m.null w.processed))
    scout_ends (suc fuel) w t lone apart enough =
        elim (Bool-cases (not (m.mate w.current == m.null) && not (m.mate2 w.current == m.null))) [
          | inr stop ↦ rw stop (w.current, refl, apart)
          | inl more ↦
              let (track, away, counted) = path_step twin closed w t lone more in
              rw more
                (scout_ends fuel (advance m w) track lone away (omega (arith, enough, counted)))
        ]

  -- A node with a mate in the matching `b` alone.
  abbrev pub IsEnd : Bool → ℕ → Type 0
  IsEnd b u = (along m b u < m.null) × (along m (not b) u ≡ m.null)

  far_end_lem :
      (b : Bool) (u fuel : ℕ) → IsEnd b u → far_end m fuel u ≡ scout m fuel b (along m b u)
  unfolding far_end
  far_end_lem true u fuel (goes, lone) =
      let other : (m.mate u == m.null) ≡ false = ground (arith, goes) in rw other refl
  far_end_lem false u fuel (goes, lone) =
      let none_of : (m.mate u == m.null) ≡ true = ground (arith, lone) in rw none_of refl

  far_end_ends :
      (b : Bool) (u : ℕ) → IsEnd b u → (v : ℕ) × (scout m m.null b (along m b u) ≡ some v) × (v ≢ u)
  unfolding begin1 begin2
  far_end_ends b u (goes, lone) = by_side b goes lone
    where
      closed : IsClosed m (λ _. false)
      closed = record { closes = λ b x e. absurd (ground (arith, e)) }

      by_side :
          (b : Bool)
          → along m b u < m.null
          → along m (not b) u ≡ m.null
          → (v : ℕ) × (scout m m.null b (along m b u) ≡ some v) × (v ≢ u)
      by_side true goes lone =
          scout_ends closed m.null (begin1 m (λ _. false) u) (begin1-IsTrack twin closed refl goes)
            lone (twin.first.loopless u goes)
            (omega (arith, begin_weight twin closed refl true goes (λ _. 1)))
      by_side false goes lone =
          scout_ends closed m.null (begin2 m (λ _. false) u) (begin2-IsTrack twin closed refl goes)
            lone (twin.second.loopless u goes)
            (omega (arith, begin_weight twin closed refl false goes (λ _. 1)))

  -- A step of the loop.
  scout_stops : (fuel : ℕ) (b : Bool) (x : ℕ) → goes_on x ≡ false → scout m (suc fuel) b x ≡ some x
  unfolding scout
  scout_stops fuel b x stop = rw stop refl

  scout_goes :
      (fuel : ℕ) (b : Bool) (x : ℕ)
      → goes_on x ≡ true
      → scout m (suc fuel) b x ≡ scout m fuel (not b) (along m (not b) x)
  unfolding scout
  scout_goes fuel true x more = rw more refl
  scout_goes fuel false x more = rw more refl

  scout_returns :
      (fuel : ℕ) (b : Bool) (x : ℕ)
      → goes_on x ≡ true
      → scout m (suc fuel) (not b) x ≡ scout m fuel b (along m b x)
  unfolding scout
  scout_returns fuel true x more = rw more refl
  scout_returns fuel false x more = rw more refl

  both_mates : (b : Bool) (x : ℕ) → goes_on x ≡ true → along m b x < m.null
  both_mates true x e = ground (arith, e, twin.first.bound x)
  both_mates false x e = ground (arith, e, twin.second.bound x)

  -- Whoever comes to `v` by the matching `c` has come from where the loop began.
  record IsBack (fuel : ℕ) (b : Bool) (x v : ℕ) : Type 0 where
    pub steps : ℕ
    pub side : Bool
    pub steps_less : steps < fuel
    pub came : along m side v < m.null
    pub stopped : goes_on v ≡ false
    pub back :
        (more : ℕ) → scout m (steps + more) side (along m side v) ≡ scout m more b (along m b x)

  scout-IsBack :
      (fuel : ℕ) (b : Bool) (x v : ℕ)
      → along m b x < m.null
      → scout m fuel b x ≡ some v
      → IsBack fuel b x v
  unfolding scout
  scout-IsBack zero b x v came e = absurd (ground (arith, e))
  scout-IsBack (suc fuel) b x v came e = elim (Bool-cases (goes_on x)) [
    | inr stop ↦
        let same : x ≡ v = some_inj.0 (sym (scout_stops fuel b x stop) ∙ e) in
        subst (IsBack (suc fuel) b x) same (record {
          steps = 0;
          side = b;
          steps_less = omega arith;
          came = came;
          stopped = stop;
          back = λ more.
              let none_yet : 0 + more ≡ more = omega arith in
              ap (λ f. scout m f b (along m b x)) none_yet;
        })
    | inl more ↦
        let next = along m (not b) x in
        let goes : next < m.null = both_mates (not b) x more in
        let home : along m (not b) next ≡ x = (pairing twin (not b)).symmetric x goes in
        let r =
          scout-IsBack fuel (not b) next v (omega (arith, home, (pairing twin b).inside x came))
            (sym (scout_goes fuel b x more) ∙ e) in
        record {
          steps = suc r.steps;
          side = r.side;
          steps_less = omega (arith, r.steps_less);
          came = r.came;
          stopped = r.stopped;
          back = λ k.
              let moved : suc r.steps + k ≡ r.steps + suc k = omega arith in
              ap (λ f. scout m f r.side (along m r.side v)) moved
              ∙ r.back (suc k)
              ∙ ap (scout m (suc k) (not b)) home
              ∙ scout_returns k b x more;
        }
  ]

  -- At `v` the loop that began at `u` has ended.
  other-IsEnd : (c : Bool) (v : ℕ) → along m c v < m.null → goes_on v ≡ false → IsEnd c v
  other-IsEnd true v came stop = (came, ground (arith, came, stop))
  other-IsEnd false v came stop = (came, ground (arith, came, stop))

  end-stops : (b : Bool) (u : ℕ) → IsEnd b u → goes_on u ≡ false
  end-stops true u (goes, lone) = ground (arith, lone)
  end-stops false u (goes, lone) = ground (arith, lone)

  ends_meet :
      (b : Bool) (u : ℕ)
      → IsEnd b u
      → (v : ℕ) × (c : Bool) × IsEnd c v
        × (v ≢ u)
        × (far_end m m.null u ≡ some v)
        × (far_end m m.null v ≡ some u)
  ends_meet b u end =
      let (v, ends, apart) = far_end_ends b u end in
      let home = (pairing twin b).symmetric u end.0 in
      let inside = (pairing twin b).inside u end.0 in
      let r = scout-IsBack m.null b (along m b u) v (omega (arith, home, inside)) ends in
      let other = other-IsEnd r.side v r.came r.stopped in
      let left = m.null - suc r.steps in
      let fuel : m.null ≡ r.steps + suc left = omega (arith, r.steps_less) in
      (
        v,
        r.side,
        other,
        apart,
        far_end_lem b u m.null end ∙ ends,
        far_end_lem r.side v m.null other
            ∙ ap (λ f. scout m f r.side (along m r.side v)) fuel
            ∙ r.back (suc left)
            ∙ ap (scout m (suc left) b) home
            ∙ scout_stops left b u (end-stops b u end),
      )

  -- For two matchings given as tables of mates: the first loop of `path_discovery` ends, with as
  -- many steps as there are nodes, at each end `u` of a path, a node with a mate in one of the two
  -- alone. It ends at another end of a path, from which it ends at `u`, and of the two nodes exactly
  -- the one with the higher number goes on to handle the path.
  pub path_handled_once :
      (b : Bool) (u : ℕ)
      → IsEnd b u
      → (v : ℕ) × (c : Bool) × IsEnd c v
        × (far_end m m.null u ≡ some v)
        × (far_end m m.null v ≡ some u)
        × (is_handled_at m m.null u ≡ some (ltb v u))
        × (is_handled_at m m.null v ≡ some (not (ltb v u)))
  unfolding is_handled_at
  path_handled_once b u end =
      let (v, c, other, apart, there, back) = ends_meet b u end in
      let flip : not (ltb u v) ≡ ltb v u = ground (arith, apart) in
      (v, c, other, there, back, rw (there, flip) refl, rw back refl)
