-- ===== src/Heavy/Ends.antt =====
-- The end of a walk of the heavy matching, and the choice that `valid_path` makes.
use cpp_suitor_and_local_dom.Base.{
  ℕ, ◌+◌, ◌*◌, ◌<◌, ◌≤◌, ◌≡◌, inl, inr, Bool, true, false, not, Bool-cases, arith, ltb,
}
use cpp_suitor_and_local_dom.EdgeList.{EdgeList, Among}
use cpp_suitor_and_local_dom.Heavy.{Twin, Walk, valid_path}
use cpp_suitor_and_local_dom.Heavy.Pairing.{weight_in}
use cpp_suitor_and_local_dom.Heavy.Steps.{Visited, Stored, Belongs}
use cpp_suitor_and_local_dom.Heavy.Track.{along, weight_along, IsTwin, IsExact}

-- The list has the edges that the nodes of this walk have in a matching, and no others.
pub record IsSide (n : ℕ) (before processed : ℕ → Bool) (f wf : ℕ → ℕ) (l : EdgeList) : Type 0 where
  pub edges_of : (x y k : ℕ) → Among l x y k → Belongs before processed f wf x y k
  pub stored : (x : ℕ) → Visited before processed x → f x < n → Stored l f wf x

abbrev pub Side : Twin → (ℕ → Bool) → (ℕ → Bool) → Bool → EdgeList → Type 0
Side m before processed b l = IsSide m.null before processed (along m b) (weight_along m b) l

abbrev pub IsWeighed : Twin → (ℕ → Bool) → (ℕ → Bool) → Bool → ℕ → Type 0
IsWeighed m before processed b k =
    weight_in m.null processed (weight_along m b)
    ≡ weight_in m.null before (weight_along m b) + 2 * k

pub record IsDone (m : Twin) (before : ℕ → Bool) (w : Walk) : Type 0 where
  pub grown : (x : ℕ) → before x ≡ true → w.processed x ≡ true
  pub inside : (x : ℕ) → Visited before w.processed x → x < m.null
  pub last_side : Side m before w.processed w.mate_runner w.last.edges
  pub previous_side : Side m before w.processed (not w.mate_runner) w.previous.edges
  pub last_weighed : IsExact m → IsWeighed m before w.processed w.mate_runner w.last.total_weight
  pub previous_weighed :
      IsExact m → IsWeighed m before w.processed (not w.mate_runner) w.previous.total_weight

-- A list that has a matching's edges and, by exact sums, weighs no less than that of the other.
pub record IsBest (m : Twin) (before processed : ℕ → Bool) (b : Bool) (l : EdgeList) : Type 0 where
  pub side : Side m before processed b l
  pub closed :
      (c : Bool) (x : ℕ)
      → Visited before processed x
      → along m c x < m.null
      → Visited before processed (along m c x)
  pub heavier :
      IsExact m
      → (c : Bool)
      → weight_in m.null processed (weight_along m c) + weight_in m.null before (weight_along m b)
        ≤ weight_in m.null processed (weight_along m b) + weight_in m.null before (weight_along m c)

either {ℓ} : (P : Bool → Type ℓ) (r : Bool) → P r → P (not r) → (c : Bool) → P c
either P true h k true = h
either P true h k false = k
either P false h k true = k
either P false h k false = h

-- What is no lighter by its list is no lighter at the nodes.
heavier_side :
    {m : Twin} {before : ℕ → Bool} (exact : IsExact m) (w : Walk) (d : IsDone m before w) (b : Bool)
    {k : ℕ}
    → IsWeighed m before w.processed b k
    → w.last.total_weight ≤ k
    → w.previous.total_weight ≤ k
    → (c : Bool)
    → weight_in m.null w.processed (weight_along m c) + weight_in m.null before (weight_along m b)
      ≤ weight_in m.null w.processed (weight_along m b) + weight_in m.null before (weight_along m c)
heavier_side {m} {before} exact w d b weighed le_last le_previous =
    either
      (λ c.
        weight_in m.null w.processed (weight_along m c) + weight_in m.null before (weight_along m b)
        ≤ weight_in m.null w.processed (weight_along m b)
          + weight_in m.null before (weight_along m c))
      w.mate_runner (omega (arith, d.last_weighed exact, weighed, le_last))
      (omega (arith, d.previous_weighed exact, weighed, le_previous))

side_closed :
    {n : ℕ} {before processed : ℕ → Bool} {f wf : ℕ → ℕ} {l : EdgeList}
    → IsSide n before processed f wf l
    → (x : ℕ) → Visited before processed x
    → f x < n
    → Visited before processed (f x)
side_closed side x v lt = elim (side.stored x v lt) [
  | inl a ↦ (side.edges_of _ _ _ a).1
  | inr a ↦ (side.edges_of _ _ _ a).0
]

done_closed :
    {m : Twin} {before : ℕ → Bool} (w : Walk)
    → IsDone m before w
    → (c : Bool) (x : ℕ) → Visited before w.processed x
    → along m c x < m.null
    → Visited before w.processed (along m c x)
done_closed {m} {before} w d =
    either
      (λ c.
        (x : ℕ)
        → Visited before w.processed x
        → along m c x < m.null
        → Visited before w.processed (along m c x))
      w.mate_runner (side_closed d.last_side) (side_closed d.previous_side)

module _ {m : Twin} (twin : IsTwin m) {before : ℕ → Bool} where
  -- `valid_path` is one of the two and, by exact sums, no lighter than the other.
  pub valid_path-IsBest :
      (w : Walk) → IsDone m before w → (b : Bool) × IsBest m before w.processed b (valid_path w)
  unfolding valid_path
  valid_path-IsBest w d = elim (Bool-cases (ltb w.previous.total_weight w.last.total_weight)) [
    | inl lt ↦ rw lt (
      w.mate_runner,
      record {
        side = d.last_side;
        closed = done_closed w d;
        heavier = λ exact.
            heavier_side exact w d w.mate_runner (d.last_weighed exact) (omega arith)
              (ground (arith, lt));
      },
    )
    | inr nlt ↦ rw nlt (
      not w.mate_runner,
      record {
        side = d.previous_side;
        closed = done_closed w d;
        heavier = λ exact.
            heavier_side exact w d (not w.mate_runner) (d.previous_weighed exact)
              (ground (arith, nlt)) (omega arith);
      },
    )
  ]
