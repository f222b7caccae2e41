-- ===== src/Heavy/Single.antt =====
-- A node without mates is a walk of its own, with nothing to store.
use cpp_suitor_and_local_dom.Base.{
  ℕ, ◌<◌, ◌≡◌, refl, sym, inl, inr, Bool, true, false, [], Bool-cases, update, of_update, to_update,
  arith,
}
use cpp_suitor_and_local_dom.Suitor.Protocol.{Proposals}
use cpp_suitor_and_local_dom.Heavy.{Twin, store}
use cpp_suitor_and_local_dom.Heavy.Pairing.{weight_in, weight_new, weight_old}
use cpp_suitor_and_local_dom.Heavy.Steps.{Visited}
use cpp_suitor_and_local_dom.Heavy.Track.{along, weight_along, IsTwin, pairing}
use cpp_suitor_and_local_dom.Heavy.Ends.{IsBest}
use cpp_suitor_and_local_dom.Heavy.Joined.{IsJoined}
use cpp_suitor_and_local_dom.Heavy.Joining.{store-IsJoined}

module _ {m : Twin} (twin : IsTwin m) where
  -- A node without mates.
  single-IsBest :
      (processed : ℕ → Bool) (u : ℕ)
      → u < m.null
      → m.mate u ≡ m.null
      → m.mate2 u ≡ m.null
      → IsBest m processed (update processed u true) true []
  single-IsBest processed u lt no1 no2 = record {
    side = record {
      edges_of = λ x y k h. absurd h;
      stored = λ x v less. absurd (omega (arith, less, lack true x v));
    };
    closed = λ c x v less. absurd (omega (arith, less, lack c x v));
    heavier = λ _ c. omega (arith, unchanged c, unchanged true);
  }
    where
      lone : (c : Bool) → along m c u ≡ m.null
      lone true = no1
      lone false = no2

      lack :
          (c : Bool) (x : ℕ) → Visited processed (update processed u true) x → along m c x ≡ m.null
      lack c x v = elim (of_update (λ b. b ≡ true) processed u true x v.0) [
        | inl here ↦ rw (sym here.0) (lone c)
        | inr old ↦ absurd (ground (arith, old.1, v.1))
      ]

      unchanged :
          (c : Bool)
          → weight_in m.null (update processed u true) (weight_along m c)
            ≡ weight_in m.null processed (weight_along m c)
      unchanged c = elim (Bool-cases (processed u)) [
        | inl old ↦ weight_old m.null processed (weight_along m c) u old
        | inr new ↦ omega (
          arith,
          weight_new m.null processed (weight_along m c) u new lt,
          (pairing twin c).lone u (lone c),
        )
      ]

  module _ {processed : ℕ → Bool} {t : Proposals} {chosen : ℕ → Bool}
      (j : IsJoined m processed t chosen) where
    pub single-IsJoined :
        (u : ℕ)
        → u < m.null
        → m.mate u ≡ m.null
        → m.mate2 u ≡ m.null
        → (joint : ℕ → Bool) × IsJoined m (update processed u true) t joint
    unfolding store
    single-IsJoined u lt no1 no2 = (
      _,
      store-IsJoined j (λ x e. to_update (λ b. b ≡ true) processed u true x (λ _. refl) λ _. e)
          (λ x v. elim (of_update (λ b. b ≡ true) processed u true x v.0) [
            | inl here ↦ rw (sym here.0) lt
            | inr old ↦ absurd (ground (arith, old.1, v.1))
          ])
          (single-IsBest processed u lt no1 no2),
    )
