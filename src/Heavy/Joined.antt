-- ===== src/Heavy/Joined.antt =====
-- The table that the walks of the heavy matching fill: at the processed nodes it holds, of each
-- pair, at least one direction.
use cpp_suitor_and_local_dom.Base.{
  ℕ, ◌<◌, ◌≤◌, ◌≡◌, refl, sym, ◌⊎◌, inl, inr, Bool, true, false, [], ◌∷◌, ℕ_discrete, to_updates,
  ◌∙◌,
}
use cpp_suitor_and_local_dom.EdgeList.{EdgeList, Among}
use cpp_suitor_and_local_dom.Suitor.Protocol.{Proposals, propose}
use cpp_suitor_and_local_dom.Heavy.{Twin, store}
use cpp_suitor_and_local_dom.Heavy.Pairing.{weight_in}
use cpp_suitor_and_local_dom.Heavy.Track.{along, weight_along, IsClosed, IsExact}

-- The entry of `x` is its mate, or is not written.
abbrev pub Entry : (ℕ → ℕ) → (ℕ → ℕ) → Proposals → ℕ → Type 0
Entry f wf t x = (t.suitor x ≡ f x) × (t.ws x ≡ wf x)

abbrev pub Unwritten : ℕ → Proposals → ℕ → Type 0
Unwritten n t x = (t.suitor x ≡ n) × (t.ws x ≡ 0)

-- A node at which an edge of the list begins has its mate stored, any other its old entry.
pub store-Entry :
    (f wf : ℕ → ℕ) (l : EdgeList) (t : Proposals)
    → ((x y k : ℕ) → Among l x y k → (y ≡ f x) × (k ≡ wf x))
    → (x : ℕ)
    → ((y : ℕ) × (k : ℕ) × Among l x y k) × Entry f wf (store l t) x
      ⊎ ((y k : ℕ) → ¬ Among l x y k) × Entry t.suitor t.ws (store l t) x
unfolding store
store-Entry f wf [] t of x = inr (λ y k h. h, (refl, refl))
store-Entry f wf (e ∷ rest) t of x =
    elim (store-Entry f wf rest (propose t e.to e.from e.length) (λ a b k h. of a b k (inr h)) x) [
      | inl ((y, k, h), entry) ↦ inl ((y, k, inr h), entry)
      | inr (out, entry) ↦ elim (ℕ_discrete e.from x) [
        | yes here ↦
            let is = of x e.to e.length (inl (sym here, refl, refl)) in
            let now =
              to_updates (λ a b. (a ≡ f x) × (b ≡ wf x)) t.suitor t.ws e.from e.to e.length x
                (λ _. is) λ ne. absurd (ne here) in
            inl ((e.to, e.length, inl (sym here, refl, refl)), (entry.0 ∙ now.0, entry.1 ∙ now.1))
        | no apart ↦
            let now =
              to_updates (λ a b. (a ≡ t.suitor x) × (b ≡ t.ws x)) t.suitor t.ws e.from e.to e.length
                x (λ same. absurd (apart same)) λ _. (refl, refl) in
            inr (
              (λ y k h. elim h [ inl here ↦ apart (sym here.0) | inr old ↦ out y k old ]),
              (entry.0 ∙ now.0, entry.1 ∙ now.1),
            )
      ]
    ]

-- `chosen`: which of the matchings holds at a processed node.
module _ (m : Twin) (chosen : ℕ → Bool) where
  abbrev pub mate_of : ℕ → ℕ
  mate_of x = along m (chosen x) x

  abbrev pub weight_of : ℕ → ℕ
  weight_of x = weight_along m (chosen x) x

pub record IsJoined (m : Twin) (processed : ℕ → Bool) (t : Proposals) (chosen : ℕ → Bool)
    : Type 0 where
  pub closed : IsClosed m processed
  pub inside : (x : ℕ) → processed x ≡ true → x < m.null
  pub fresh : (x : ℕ) → processed x ≡ false → Unwritten m.null t x
  pub entry :
      (x : ℕ)
      → processed x ≡ true
      → Unwritten m.null t x ⊎ Entry (mate_of m chosen) (weight_of m chosen) t x
  pub placed :
      (x : ℕ)
      → processed x ≡ true
      → mate_of m chosen x < m.null
      → Entry (mate_of m chosen) (weight_of m chosen) t x
        ⊎ Entry (mate_of m chosen) (weight_of m chosen) t (mate_of m chosen x)
  pub agreed :
      (x : ℕ)
      → processed x ≡ true
      → mate_of m chosen x < m.null
      → chosen (mate_of m chosen x) ≡ chosen x
  pub heavier :
      IsExact m
      → (c : Bool)
      → weight_in m.null processed (weight_along m c)
        ≤ weight_in m.null processed (weight_of m chosen)
