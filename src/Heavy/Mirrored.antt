-- ===== src/Heavy/Mirrored.antt =====
-- The last loop of the heavy matching, which writes the other direction of each edge.
use cpp_suitor_and_local_dom.Base.{
  ℕ, zero, suc, ◌<◌, ◌≡◌, refl, sym, subst, ◌≢◌, ◌⊎◌, inl, inr, Bool-cases, ℕ_discrete, dec_lt,
  to_updates, arith, ap, ◌∙◌, ◌==◌,
}
use cpp_suitor_and_local_dom.Suitor.Protocol.{Proposals, propose}
use cpp_suitor_and_local_dom.Heavy.{Twin, counter_edges}
use cpp_suitor_and_local_dom.Heavy.Pairing.{IsPairing}
use cpp_suitor_and_local_dom.Heavy.Joined.{Entry, Unwritten}

-- After the counter edges of the nodes below `k`.
pub record IsMirrored (n : ℕ) (f w : ℕ → ℕ) (k : ℕ) (t : Proposals) : Type 0 where
  pub entry : (x : ℕ) → Unwritten n t x ⊎ Entry f w t x
  pub placed : (x : ℕ) → f x < n → Entry f w t x ⊎ Entry f w t (f x)
  pub mirrored : (x : ℕ) → x < k → f x < n → Entry f w t x → Entry f w t (f x)

module _ (m : Twin) {f w : ℕ → ℕ} (p : IsPairing m.null f w) where
  -- The write of a counter edge.
  module _ (t : Proposals) (k : ℕ) (lt : f k < m.null) (en : Entry f w t k) where
    counter_Entry :
        (x : ℕ)
        → Entry f w (propose t k (t.suitor k) (t.ws k)) x
          ⊎ (x ≢ f k) × Entry t.suitor t.ws (propose t k (t.suitor k) (t.ws k)) x
    counter_Entry x =
        to_updates (λ a b. (a ≡ f x) × (b ≡ w x) ⊎ (x ≢ f k) × ((a ≡ t.suitor x) × (b ≡ t.ws x)))
          t.suitor t.ws (t.suitor k) k (t.ws k) x
          (λ here.
            let is : f k ≡ x = sym en.0 ∙ here in
            inl (sym (p.symmetric k lt) ∙ ap f is, en.1 ∙ sym (p.weighs k lt) ∙ ap w is))
          (λ ne. inr (λ e. ne (en.0 ∙ sym e), (refl, refl)))

    keeps : (x : ℕ) → Entry f w t x → Entry f w (propose t k (t.suitor k) (t.ws k)) x
    keeps x old = elim (counter_Entry x) [
      | inl now ↦ now
      | inr (_, same) ↦ (same.0 ∙ old.0, same.1 ∙ old.1)
    ]

    written : Entry f w (propose t k (t.suitor k) (t.ws k)) (f k)
    written = elim (counter_Entry (f k)) [ inl now ↦ now | inr (ne, _) ↦ absurd (ne refl) ]

    counter-IsMirrored :
        IsMirrored m.null f w k t
        → IsMirrored m.null f w (suc k) (propose t k (t.suitor k) (t.ws k))
    counter-IsMirrored i = record {
      entry = λ x. elim (counter_Entry x) [
        | inl now ↦ inr now
        | inr (_, same) ↦ elim (i.entry x) [
          | inl un ↦ inl (same.0 ∙ un.0, same.1 ∙ un.1)
          | inr old ↦ inr (same.0 ∙ old.0, same.1 ∙ old.1)
        ]
      ];
      placed = λ x less. elim (i.placed x less) [
        | inl old ↦ inl (keeps x old)
        | inr old ↦ inr (keeps (f x) old)
      ];
      mirrored = λ x below less now. elim (ℕ_discrete x k) [
        | yes e ↦ rw e written
        | no apart ↦ elim (ℕ_discrete x (f k)) [
          | yes e ↦
              subst (Entry f w (propose t k (t.suitor k) (t.ws k)))
                (sym (p.symmetric k lt) ∙ ap f (sym e)) (keeps k en)
          | no ne ↦
              let same = counter_Same x ne in
              keeps (f x) (i.mirrored x (omega arith) less (sym same.0 ∙ now.0, sym same.1 ∙ now.1))
        ]
      ];
    }
      where
        counter_Same : (x : ℕ) → x ≢ f k → Entry t.suitor t.ws (propose t k (t.suitor k) (t.ws k)) x
        counter_Same x ne =
            to_updates (λ a b. (a ≡ t.suitor x) × (b ≡ t.ws x)) t.suitor t.ws (t.suitor k) k
              (t.ws k) x (λ here. absurd (ne (sym here ∙ en.0))) λ _. (refl, refl)

  counter_edges-IsMirrored :
      (k : ℕ) (t : Proposals)
      → IsMirrored m.null f w 0 t
      → IsMirrored m.null f w k (counter_edges m k t)
  unfolding counter_edges
  counter_edges-IsMirrored zero t start = start
  counter_edges-IsMirrored (suc k) t start =
      let s = counter_edges m k t in
      let i = counter_edges-IsMirrored k t start in
      elim (Bool-cases (s.suitor k == m.null)) [
        | inl empty ↦ rw empty (record {
          entry = i.entry;
          placed = i.placed;
          mirrored = λ x below less now. elim (ℕ_discrete x k) [
            | yes e ↦ absurd (ground (arith, empty, less, now.0, ap s.suitor e))
            | no apart ↦ i.mirrored x (omega arith) less now
          ];
        })
        | inr full ↦ rw full (elim (i.entry k) [
          | inl un ↦ absurd (ground (arith, un.0, full))
          | inr en ↦ counter-IsMirrored s k (ground (arith, en.0, full, p.bound k)) en i
        ])
      ]

  pub counter_edges_Entry :
      (t : Proposals) → IsMirrored m.null f w 0 t → (x : ℕ) → Entry f w (counter_edges m m.null t) x
  counter_edges_Entry t start x =
      let i = counter_edges-IsMirrored m.null t start in
      elim (dec_lt (f x) m.null) [
        | yes lt ↦ elim (i.placed x lt) [
          | inl en ↦ en
          | inr en ↦
              subst (Entry f w (counter_edges m m.null t)) (p.symmetric x lt)
                (i.mirrored (f x) lt (rw (p.symmetric x lt) (p.inside x lt)) en)
        ]
        | no ge ↦ elim (i.entry x) [
          | inr en ↦ en
          | inl un ↦
              let none_of : f x ≡ m.null = omega (arith, ge, p.bound x) in
              (un.0 ∙ sym none_of, un.1 ∙ sym (p.lone x none_of))
        ]
      ]
