-- ===== src/Heavy/Walks.antt =====
-- The loops of the walks: they end, and every node and edge of the walk is in its choices.
use cpp_suitor_and_local_dom.Base.{
  ℕ, zero, suc, ◌+◌, ◌<◌, ◌≤◌, ◌≡◌, refl, sym, subst, ◌≢◌, inl, inr, Bool, true, false, not, ◌&&◌,
  some, Bool-cases, ℕ_discrete, arith, ap, ◌∙◌, ◌==◌, update, total-le, if◌then◌else◌,
}
use mathlib.Core.Bool.{Bool-discrete}
use cpp_suitor_and_local_dom.Heavy.{Twin, Walk, advance, along_path, around_cycle}
use cpp_suitor_and_local_dom.Heavy.Pairing.{weight_new, count}
use cpp_suitor_and_local_dom.Heavy.Steps.{next_new}
use cpp_suitor_and_local_dom.Heavy.Track.{
  along, IsTwin, pairing, IsClosed, IsTrack, advance-IsTrack, advance-keeps,
}
use cpp_suitor_and_local_dom.Heavy.Ends.{IsDone}
use cpp_suitor_and_local_dom.Heavy.Closing.{path-IsDone, cycle-IsDone}

pub count-le : (n : ℕ) (p : ℕ → Bool) → count n p ≤ n
count-le n p = omega (
  arith,
  total-le n 1 (λ x. if p x then 1 else 0)
      λ x. elim (Bool-cases (p x)) [ inl e ↦ rw e (omega arith) | inr e ↦ rw e (omega arith) ],
)

module _ {m : Twin} (twin : IsTwin m) {before : ℕ → Bool} (closed : IsClosed m before) where
  -- Away from where the walk began, the next node is new.
  new_node :
      {late : Bool} {u : ℕ} {w : Walk}
      → IsTrack m before late u w
      → along m (not w.mate_runner) w.current < m.null
      → ¬ ((not w.mate_runner ≡ late) × (along m (not w.mate_runner) w.current ≡ u))
      → w.processed (along m (not w.mate_runner) w.current) ≡ false
  new_node {w = w} t goes away =
      next_new (pairing twin (not w.mate_runner)) t.on goes (closed.closes (not w.mate_runner)) away

  count_advance :
      (b : Bool) (p : ℕ → Bool) (x : ℕ)
      → along m (not b) x < m.null
      → p (along m (not b) x) ≡ false
      → count m.null (update p (if b then m.mate2 x else m.mate x) true) ≡ suc (count m.null p)
  count_advance true p x goes new = omega (arith, weight_new m.null p (λ _. 1) (m.mate2 x) new goes)
  count_advance false p x goes new = omega (arith, weight_new m.null p (λ _. 1) (m.mate x) new goes)

  along_mates :
      (b : Bool) (x : ℕ)
      → not (m.mate x == m.null) && not (m.mate2 x == m.null) ≡ true
      → along m b x < m.null
  along_mates true x e = ground (arith, e, twin.first.bound x)
  along_mates false x e = ground (arith, e, twin.second.bound x)

  along_stop :
      (b : Bool) (x : ℕ)
      → not (m.mate x == m.null) && not (m.mate2 x == m.null) ≡ false
      → along m b x < m.null
      → along m (not b) x ≡ m.null
  along_stop true x e lt = ground (arith, e)
  along_stop false x e lt = ground (arith, e)

  away :
      {late : Bool} {u : ℕ} (w : Walk)
      → IsTrack m before late u w
      → along m (not w.mate_runner) w.current < m.null
      → along m late u ≡ m.null
      → ¬ ((not w.mate_runner ≡ late) × (along m (not w.mate_runner) w.current ≡ u))
  away {u = u} w t goes lone (side, back) =
      let p = pairing twin (not w.mate_runner) in
      let here : along m (not w.mate_runner) u ≡ w.current =
        rw (sym back) (p.symmetric w.current goes) in
      let nowhere : along m (not w.mate_runner) u ≡ m.null = rw side lone in
      absurd (omega (arith, here, nowhere, t.on.inside w.current t.on.here))

  next_is : (b : Bool) (x : ℕ) → (if b then m.mate2 x else m.mate x) ≡ along m (not b) x
  next_is true x = refl
  next_is false x = refl

  -- One more step of a path: it leads to a new node, other than the first.
  pub path_step :
      {late : Bool} {u : ℕ} (w : Walk)
      → IsTrack m before late u w
      → along m late u ≡ m.null
      → not (m.mate w.current == m.null) && not (m.mate2 w.current == m.null) ≡ true
      → IsTrack m before late u (advance m w)
        × ((advance m w).current ≢ u)
        × (count m.null (advance m w).processed ≡ suc (count m.null w.processed))
  unfolding advance
  path_step w t lone more =
      let goes = along_mates (not w.mate_runner) w.current more in
      let new = new_node t goes (away w t goes lone) in
      (
        advance-IsTrack twin t goes new,
        λ e. ground (arith, t.started, new, next_is w.mate_runner w.current, e),
        count_advance w.mate_runner w.processed w.current goes new,
      )

  pub along_path_ends :
      (fuel : ℕ) {late : Bool} {u : ℕ} (w : Walk)
      → IsTrack m before late u w
      → along m late u ≡ m.null
      → m.null < fuel + count m.null w.processed
      → (v : Walk) × (along_path m fuel w ≡ some v) × IsDone m before v × (v.processed u ≡ true)
  unfolding along_path
  along_path_ends zero w t lone enough = absurd (omega (arith, enough, count-le m.null w.processed))
  along_path_ends (suc fuel) {late} {u} w t lone enough =
      elim (Bool-cases (not (m.mate w.current == m.null) && not (m.mate2 w.current == m.null))) [
        | inr stop ↦ rw stop (
          w,
          refl,
          path-IsDone twin t lone (along_stop w.mate_runner w.current stop t.on.came),
          t.started,
        )
        | inl more ↦
            let (track, _, counted) = path_step w t lone more in
            rw more (along_path_ends fuel (advance m w) track lone (omega (arith, enough, counted)))
      ]

  stops_at :
      (fuel : ℕ) {u : ℕ} (w : Walk) → 0 < fuel → w.current ≡ u → around_cycle m fuel u w ≡ some w
  unfolding around_cycle
  stops_at zero w lt e = absurd (omega arith)
  stops_at (suc fuel) {u} w lt e =
      let here : (w.current == u) ≡ true = ground (arith, e) in rw here refl

  pub around_cycle_ends :
      (fuel : ℕ) {late : Bool} {u : ℕ} (w : Walk)
      → IsTrack m before late u w
      → before u ≡ false
      → u < m.null
      → w.current ≢ u
      → ((b : Bool) (x : ℕ) → x < m.null → before x ≡ false → along m b x < m.null)
      → suc m.null < fuel + count m.null w.processed
      → (v : Walk) × (around_cycle m fuel u w ≡ some v) × IsDone m before v × (v.processed u ≡ true)
  unfolding around_cycle advance
  around_cycle_ends zero w t fresh lt apart full enough =
      absurd (omega (arith, enough, count-le m.null w.processed))
  around_cycle_ends (suc fuel) {late} {u} w t fresh lt apart full enough =
      let goes = full (not w.mate_runner) w.current (t.on.inside w.current t.on.here) t.on.here.1 in
      let going : (w.current == u) ≡ false = ground (arith, apart) in
      rw going (elim (ℕ_discrete (along m (not w.mate_runner) w.current) u) [
        | no away ↦
            let new = new_node t goes (λ back. away back.1) in
            around_cycle_ends fuel (advance m w) (advance-IsTrack twin t goes new) fresh lt
              (λ e. away (sym (next_is w.mate_runner w.current) ∙ e)) full
              (omega (arith, enough, count_advance w.mate_runner w.processed w.current goes new))
        | yes back ↦ elim (Bool-discrete (not w.mate_runner) late) [
          | no elsewhere ↦
              absurd (
                ground
                  (arith, new_node t goes (λ o. elsewhere o.0), t.started, ap w.processed back))
          | yes side ↦ (
            advance m w,
            stops_at fuel (advance m w) (omega (arith, enough, count-le m.null w.processed))
                (next_is w.mate_runner w.current ∙ back),
            cycle-IsDone twin w.mate_runner w.processed w.current w.last w.previous
                (subst (λ l. IsTrack m before l u w) (sym side) t) fresh lt back,
            advance-keeps m w u t.started,
          )
        ]
      ])
