-- ===== src/Heavy/Track.antt =====
-- The walks of the heavy matching, of either kind: what holds while they go on.
use cpp_suitor_and_local_dom.Base.{
  ℕ, ◌+◌, ◌*◌, ◌<◌, ◌≡◌, refl, Bool, true, false, not, update, to_update, arith, if◌then◌else◌,
}
use cpp_suitor_and_local_dom.Heavy.{Twin, Choice, Walk, begin1, begin2, advance}
use cpp_suitor_and_local_dom.Heavy.Pairing.{IsPairing, weight_in, weight_new}
use cpp_suitor_and_local_dom.Heavy.Steps.{IsWalk, advance-IsWalk}
use cpp_suitor_and_local_dom.Heavy.Starts.{begin-IsWalk, mate_new}

-- The matching whose edge was taken last when `mate_runner == 1` is `b`.
abbrev pub along : Twin → Bool → ℕ → ℕ
along m b = if b then m.mate else m.mate2

abbrev pub weight_along : Twin → Bool → ℕ → ℕ
weight_along m b = if b then m.weight else m.weight2

pub record IsTwin (m : Twin) : Type 0 where
  pub first : IsPairing m.null m.mate m.weight
  pub second : IsPairing m.null m.mate2 m.weight2

pub pairing : {m : Twin} → IsTwin m → (b : Bool) → IsPairing m.null (along m b) (weight_along m b)
pairing twin true = twin.first
pairing twin false = twin.second

-- No processed node has a mate that is not.
pub record IsClosed (m : Twin) (processed : ℕ → Bool) : Type 0 where
  pub closes :
      (b : Bool) (x : ℕ)
      → processed x ≡ true
      → along m b x < m.null
      → processed (along m b x) ≡ true

-- The edge of `u` in the matching `late` is still to be taken.
abbrev pub Open : Bool → ℕ → Bool → ℕ → Type 0
Open late u b x = (b ≡ late) × (x ≡ u)

abbrev pub opening : Twin → Bool → ℕ → Bool → ℕ
opening m true u true = m.weight u
opening m true u false = 0
opening m false u true = 0
opening m false u false = m.weight2 u

abbrev pub IsOn : Twin → (ℕ → Bool) → Bool → ℕ → Walk → Type 0
IsOn m before late u w =
    IsWalk m.null before (along m w.mate_runner) (weight_along m w.mate_runner)
      (along m (not w.mate_runner)) (weight_along m (not w.mate_runner)) (Open late u w.mate_runner)
      (Open late u (not w.mate_runner)) w.processed w.current w.last.edges w.previous.edges

-- Sums of weights are not rounded.
abbrev pub IsExact : Twin → Type 0
IsExact m = (a b : ℕ) → m.plus a b ≡ a + b

-- By exact sums the weight of the choices is that of the nodes visited, each edge having two.
pub record IsTally (m : Twin) (before : ℕ → Bool) (late : Bool) (u : ℕ) (w : Walk) : Type 0 where
  pub last_tally :
      weight_in m.null w.processed (weight_along m w.mate_runner)
      ≡ weight_in m.null before (weight_along m w.mate_runner)
        + 2 * w.last.total_weight
        + opening m late u w.mate_runner
  pub previous_tally :
      weight_in m.null w.processed (weight_along m (not w.mate_runner))
      ≡ weight_in m.null before (weight_along m (not w.mate_runner))
        + 2 * w.previous.total_weight
        + weight_along m (not w.mate_runner) w.current
        + opening m late u (not w.mate_runner)

pub record IsTrack (m : Twin) (before : ℕ → Bool) (late : Bool) (u : ℕ) (w : Walk) : Type 0 where
  pub on : IsOn m before late u w
  pub tally : IsExact m → IsTally m before late u w
  pub started : w.processed u ≡ true

pub advance-keeps :
    (m : Twin) (w : Walk) (x : ℕ) → w.processed x ≡ true → (advance m w).processed x ≡ true
unfolding advance
advance-keeps m w x e = to_update (λ b. b ≡ true) w.processed _ true x (λ _. refl) λ _. e

module _ {m : Twin} (twin : IsTwin m) {before : ℕ → Bool} where
  -- The weights after a step to a new node.
  advance-IsTally :
      IsExact m
      → {late : Bool} {u : ℕ} (b : Bool) {p : ℕ → Bool} {x : ℕ} {last previous : Choice}
      → let w : Walk = record {
        processed = p;
        current = x;
        mate_runner = b;
        last = last;
        previous = previous;
      } in
        IsTally m before late u w
        → along m (not b) x < m.null
        → p (along m (not b) x) ≡ false
        → IsTally m before late u (advance m w)
  unfolding advance
  advance-IsTally exact true {p} {x} {previous = previous} t goes new = record {
    last_tally = omega (
      arith,
      t.previous_tally,
      weight_new m.null p m.weight2 (m.mate2 x) new goes,
      twin.second.weighs x goes,
      exact previous.total_weight (m.weight2 x),
    );
    previous_tally = omega (arith, t.last_tally, weight_new m.null p m.weight (m.mate2 x) new goes);
  }
  advance-IsTally exact false {p} {x} {previous = previous} t goes new = record {
    last_tally = omega (
      arith,
      t.previous_tally,
      weight_new m.null p m.weight (m.mate x) new goes,
      twin.first.weighs x goes,
      exact previous.total_weight (m.weight x),
    );
    previous_tally = omega (arith, t.last_tally, weight_new m.null p m.weight2 (m.mate x) new goes);
  }

  advance-IsOn :
      {late : Bool} {u : ℕ} (b : Bool) {p : ℕ → Bool} {x : ℕ} (last previous : Choice)
      → let w : Walk = record {
        processed = p;
        current = x;
        mate_runner = b;
        last = last;
        previous = previous;
      } in
        IsOn m before late u w
        → along m (not b) x < m.null
        → p (along m (not b) x) ≡ false
        → IsOn m before late u (advance m w)
  unfolding advance
  advance-IsOn true last previous t goes new = advance-IsWalk twin.second t goes new
  advance-IsOn false last previous t goes new = advance-IsWalk twin.first t goes new

  -- A step to a new node.
  pub advance-IsTrack :
      {late : Bool} {u : ℕ} {w : Walk}
      → IsTrack m before late u w
      → along m (not w.mate_runner) w.current < m.null
      → w.processed (along m (not w.mate_runner) w.current) ≡ false
      → IsTrack m before late u (advance m w)
  advance-IsTrack {u = u} {w = w} t goes new = record {
    on = advance-IsOn w.mate_runner w.last w.previous t.on goes new;
    tally = λ exact. advance-IsTally exact w.mate_runner (t.tally exact) goes new;
    started = advance-keeps m w u t.started;
  }

  module _ (closed : IsClosed m before) {u : ℕ} (fresh : before u ≡ false) where
    pub begin_weight :
        (b : Bool)
        → along m b u < m.null
        → (w : ℕ → ℕ)
        → weight_in m.null (update (update before u true) (along m b u) true) w
          ≡ weight_in m.null before w + w u + w (along m b u)
    begin_weight b goes w = omega (
      arith,
      weight_new m.null (update before u true) w (along m b u)
          (mate_new (pairing twin b) fresh goes (closed.closes b)) goes,
      weight_new m.null before w u fresh ((pairing twin b).inside u goes),
    )

    started : (y : ℕ) → update (update before u true) y true u ≡ true
    started y =
        to_update (λ b. b ≡ true) (update before u true) y true u (λ _. refl)
          λ _. to_update (λ b. b ≡ true) before u true u (λ _. refl) λ ne. absurd (ne refl)

    -- A walk begins with the edge of `u` in one matching; that in the other is to be taken last.
    pub begin2-IsTrack : m.mate2 u < m.null → IsTrack m before true u (begin2 m before u)
    unfolding begin2
    begin2-IsTrack goes = record {
      on = begin-IsWalk twin.second fresh goes (closed.closes false) (refl, refl);
      tally = λ _. record {
        last_tally = omega (arith, begin_weight false goes m.weight2, twin.second.weighs u goes);
        previous_tally = omega (arith, begin_weight false goes m.weight);
      };
      started = started (m.mate2 u);
    }

    pub begin1-IsTrack : m.mate u < m.null → IsTrack m before false u (begin1 m before u)
    unfolding begin1
    begin1-IsTrack goes = record {
      on = begin-IsWalk twin.first fresh goes (closed.closes true) (refl, refl);
      tally = λ _. record {
        last_tally = omega (arith, begin_weight true goes m.weight, twin.first.weighs u goes);
        previous_tally = omega (arith, begin_weight true goes m.weight2);
      };
      started = started (m.mate u);
    }
