-- ===== src/Heavy/Joining.antt =====
-- The invariant of the table after one more walk: the nodes of the walk hold the edges of the
-- matching that was chosen there.
use cpp_suitor_and_local_dom.Base.{
  ℕ, ◌+◌, ◌<◌, ◌≡◌, refl, sym, ◌⊎◌, inl, inr, Bool, true, false, Bool-cases, arith, ap, ◌∙◌, subst,
  total-add, total_ext, if◌then◌else◌,
}
use cpp_suitor_and_local_dom.EdgeList.{EdgeList, Among}
use cpp_suitor_and_local_dom.Suitor.Protocol.{Proposals}
use cpp_suitor_and_local_dom.Heavy.{Twin, store}
use cpp_suitor_and_local_dom.Heavy.Pairing.{weight_in}
use cpp_suitor_and_local_dom.Heavy.Steps.{Visited}
use cpp_suitor_and_local_dom.Heavy.Track.{along, weight_along}
use cpp_suitor_and_local_dom.Heavy.Ends.{IsBest}
use cpp_suitor_and_local_dom.Heavy.Joined.{
  Entry, Unwritten, store-Entry, mate_of, weight_of, IsJoined,
}

module _ {m : Twin} {before : ℕ → Bool} {t : Proposals} {chosen : ℕ → Bool}
    (old : IsJoined m before t chosen) {processed : ℕ → Bool} {b : Bool} {l : EdgeList}
    (grown : (x : ℕ) → before x ≡ true → processed x ≡ true)
    (inside : (x : ℕ) → Visited before processed x → x < m.null)
    (best : IsBest m before processed b l) where
  abbrev joint : ℕ → Bool
  joint x = if before x then chosen x else b

  of_list : (x y k : ℕ) → Among l x y k → (y ≡ along m b x) × (k ≡ weight_along m b x)
  of_list x y k h = let e = best.side.edges_of x y k h in (e.2, e.3)

  after :
      (x : ℕ)
      → ((y : ℕ) × (k : ℕ) × Among l x y k) × Entry (along m b) (weight_along m b) (store l t) x
        ⊎ ((y k : ℕ) → ¬ Among l x y k) × Entry t.suitor t.ws (store l t) x
  after = store-Entry (along m b) (weight_along m b) l t of_list

  -- A node outside the walk keeps its entry.
  kept : (x : ℕ) → ¬ Visited before processed x → Entry t.suitor t.ws (store l t) x
  kept x out = elim (after x) [
    | inl ((y, k, h), _) ↦ absurd (out (best.side.edges_of x y k h).0)
    | inr (_, same) ↦ same
  ]

  out_old : (x : ℕ) → before x ≡ true → ¬ Visited before processed x
  out_old x e v = ground (arith, e, v.1)

  -- A node of the walk holds its mate, or has none written.
  taken :
      (x : ℕ)
      → Visited before processed x
      → Unwritten m.null (store l t) x ⊎ Entry (along m b) (weight_along m b) (store l t) x
  taken x v = elim (after x) [
    | inl (_, entry) ↦ inr entry
    | inr (_, same) ↦ let new = old.fresh x v.1 in inl (same.0 ∙ new.0, same.1 ∙ new.1)
  ]

  held : (x y k : ℕ) → Among l x y k → Entry (along m b) (weight_along m b) (store l t) x
  held x y k h = elim (after x) [
    | inl (_, entry) ↦ entry
    | inr (none_of, _) ↦ absurd (none_of y k h)
  ]

  joint_old : (x : ℕ) → before x ≡ true → joint x ≡ chosen x
  joint_old x e = rw e refl

  joint_new : (x : ℕ) → before x ≡ false → joint x ≡ b
  joint_new x e = rw e refl

  old_entry :
      (x : ℕ)
      → before x ≡ true
      → Entry (mate_of m chosen) (weight_of m chosen) t x
      → Entry (mate_of m joint) (weight_of m joint) (store l t) x
  old_entry x long en =
      let k = kept x (out_old x long) in
      let same = joint_old x long in
      (
        k.0 ∙ en.0 ∙ ap (λ c. along m c x) (sym same),
        k.1 ∙ en.1 ∙ ap (λ c. weight_along m c x) (sym same),
      )

  new_entry :
      (x : ℕ)
      → before x ≡ false
      → Entry (along m b) (weight_along m b) (store l t) x
      → Entry (mate_of m joint) (weight_of m joint) (store l t) x
  new_entry x new en =
      let same = joint_new x new in
      (en.0 ∙ ap (λ c. along m c x) (sym same), en.1 ∙ ap (λ c. weight_along m c x) (sym same))

  -- What `joint` says of `x` in terms of the matching `c` that holds there.
  module _ (x : ℕ) (c : Bool) (is : joint x ≡ c) (lt : mate_of m joint x < m.null) where
    mate_is : along m c x ≡ mate_of m joint x
    mate_is = ap (λ d. along m d x) (sym is)

    less : along m c x < m.null
    less = rw mate_is lt

    carry {ℓ} : (P : ℕ → Type ℓ) → P (along m c x) → P (mate_of m joint x)
    carry P = subst P mate_is

  placed_old :
      (x : ℕ) (long : before x ≡ true) (lt : mate_of m joint x < m.null)
      → Entry (mate_of m joint) (weight_of m joint) (store l t) x
        ⊎ Entry (mate_of m joint) (weight_of m joint) (store l t) (mate_of m joint x)
  placed_old x long lt =
      let is = joint_old x long in
      let down = less x (chosen x) is lt in
      elim (old.placed x long down) [
        | inl en ↦ inl (old_entry x long en)
        | inr en ↦ inr (
            carry x (chosen x) is lt (Entry (mate_of m joint) (weight_of m joint) (store l t))
              (old_entry (mate_of m chosen x) (old.closed.closes (chosen x) x long down) en))
      ]

  placed_new :
      (x : ℕ) (v : Visited before processed x) (lt : mate_of m joint x < m.null)
      → Entry (mate_of m joint) (weight_of m joint) (store l t) x
        ⊎ Entry (mate_of m joint) (weight_of m joint) (store l t) (mate_of m joint x)
  placed_new x v lt =
      let is = joint_new x v.1 in
      let down = less x b is lt in
      elim (best.side.stored x v down) [
        | inl a ↦ inl (new_entry x v.1 (held _ _ _ a))
        | inr a ↦ inr (
            carry x b is lt (Entry (mate_of m joint) (weight_of m joint) (store l t))
              (new_entry (along m b x) (best.closed b x v down).1 (held _ _ _ a)))
      ]

  agreed_joint :
      (x : ℕ)
      → processed x ≡ true
      → mate_of m joint x < m.null
      → joint (mate_of m joint x) ≡ joint x
  agreed_joint x e lt = elim (Bool-cases (before x)) [
    | inl long ↦
        let is = joint_old x long in
        let down = less x (chosen x) is lt in
        carry x (chosen x) is lt (λ y. joint y ≡ joint x)
          (joint_old (mate_of m chosen x) (old.closed.closes (chosen x) x long down)
            ∙ old.agreed x long down
            ∙ sym is)
    | inr new ↦
        let is = joint_new x new in
        let down = less x b is lt in
        carry x b is lt (λ y. joint y ≡ joint x)
          (joint_new (along m b x) (best.closed b x (e, new) down).1 ∙ sym is)
  ]

  -- The weight of the choice: the old one and, at the nodes of the walk, that of `b`.
  weights :
      weight_in m.null before (weight_of m chosen) + weight_in m.null processed (weight_along m b)
      ≡ weight_in m.null processed (weight_of m joint) + weight_in m.null before (weight_along m b)
  weights = omega (
    arith,
    total-add m.null (λ x. if before x then weight_of m chosen x else 0)
        (λ x. if processed x then weight_along m b x else 0),
    total-add m.null (λ x. if processed x then weight_of m joint x else 0)
        (λ x. if before x then weight_along m b x else 0),
    total_ext m.null _ _ (λ x _. pointwise x),
  )
    where
      pointwise :
          (x : ℕ)
          → (if before x then weight_of m chosen x else 0)
              + (if processed x then weight_along m b x else 0)
            ≡ (if processed x then weight_of m joint x else 0)
              + (if before x then weight_along m b x else 0)
      pointwise x = elim (Bool-cases (before x)) [
        | inl long ↦ rw (long, grown x long) refl
        | inr new ↦ rw new (omega arith)
      ]

  pub store-IsJoined : IsJoined m processed (store l t) joint
  store-IsJoined = record {
    closed = record {
      closes = λ c x e lt. elim (Bool-cases (before x)) [
        | inl long ↦ grown (along m c x) (old.closed.closes c x long lt)
        | inr new ↦ (best.closed c x (e, new) lt).0
      ];
    };
    inside = λ x e. elim (Bool-cases (before x)) [
      | inl long ↦ old.inside x long
      | inr new ↦ inside x (e, new)
    ];
    fresh = λ x e.
        let new = old.fresh x (not_before x e) in
        let k = kept x (λ v. ground (arith, e, v.0)) in (k.0 ∙ new.0, k.1 ∙ new.1);
    entry = λ x e. elim (Bool-cases (before x)) [
      | inl long ↦ elim (old.entry x long) [
        | inl new ↦ let k = kept x (out_old x long) in inl (k.0 ∙ new.0, k.1 ∙ new.1)
        | inr en ↦ inr (old_entry x long en)
      ]
      | inr new ↦ elim (taken x (e, new)) [ inl un ↦ inl un | inr en ↦ inr (new_entry x new en) ]
    ];
    placed = λ x e lt. elim (Bool-cases (before x)) [
      | inl long ↦ placed_old x long lt
      | inr new ↦ placed_new x (e, new) lt
    ];
    agreed = agreed_joint;
    heavier = λ exact c. omega (arith, weights, best.heavier exact c, old.heavier exact c);
  }
    where
      not_before : (x : ℕ) → processed x ≡ false → before x ≡ false
      not_before x e = elim (Bool-cases (before x)) [
        | inl long ↦ absurd (ground (arith, e, grown x long))
        | inr new ↦ new
      ]
