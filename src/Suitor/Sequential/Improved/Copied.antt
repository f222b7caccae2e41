-- ===== src/Suitor/Sequential/Improved/Copied.antt =====
-- The last loop of `improved_procedure`: `suitor4` is copied into `suitor3`.
use cpp_suitor_and_local_dom.Base.{
  ℕ, zero, suc, ◌≤◌, ◌<◌, ◌≡◌, refl, ap, ◌≢◌, ◌⊎◌, inl, inr, Bool, true, false, not, ◌&&◌, ◌==◌,
  arith, dec_lt, ℕ_discrete, Bool-cases, to_update,
}
use cpp_suitor_and_local_dom.Suitor.Sequential.Improved.{copy_fourth}

module _ (null : ℕ) (f t : ℕ → ℕ) where
  abbrev copied : ℕ → (ℕ → ℕ) × (ℕ → Bool)
  copied k = copy_fourth null f k (t, (λ _. false))

  -- The entries of the table and the marks after `k` rounds.
  abbrev CopiedAt : ℕ → ℕ → Type 0
  CopiedAt k x =
      (x < k → f x ≢ null → (copied k).0 x ≡ f x)
      × ((k ≤ x) ⊎ (f x ≡ null) → (copied k).0 x ≡ t x)
      × (k ≤ x → (copied k).1 x ≡ false)

  copied_at : (k x : ℕ) → CopiedAt k x
  unfolding copy_fourth
  copied_at zero x = (λ lt. absurd (omega arith), λ _. refl, λ _. refl)
  copied_at (suc k) x =
      let (here, other, mark) = copied_at k x in
      let unmarked = (copied_at k k).2 (omega arith) in
      elim (Bool-cases (not (f k == null) && not ((copied k).1 k))) [
        | inl copies ↦ rw copies (
          λ lt full.
              to_update (λ a. a ≡ f x) (copied k).0 k (f k) x (λ e. ap f e)
                λ ne. here (omega arith) full,
          λ out.
              to_update (λ a. a ≡ t x) (copied k).0 k (f k) x
                (λ e. absurd (ground (arith, out, copies, ap f e)))
                λ ne. other (ground (arith, out)),
          λ le.
              to_update (λ b. b ≡ false) (copied k).1 k true x (λ e. absurd (omega arith))
                λ ne. mark (omega arith),
        )
        | inr stays ↦ rw stays (
          λ lt full. elim (ℕ_discrete k x) [
            | yes e ↦ absurd (ground (arith, stays, unmarked, full, ap f e))
            | no ne ↦ here (omega arith) full
          ],
          λ out. other (ground (arith, out)),
          λ le. mark (omega arith),
        )
      ]

  pub copied-cases :
      (v : ℕ)
      → f v ≤ null
      → (f v < null → v < null)
      → (f v < null) × ((copied null).0 v ≡ f v) ⊎ (f v ≡ null) × ((copied null).0 v ≡ t v)
  copied-cases v bound inside = elim (dec_lt (f v) null) [
    | yes lt ↦ inl (lt, (copied_at null v).0 (inside lt) (omega arith))
    | no ge ↦ let e : f v ≡ null = omega arith in inr (e, (copied_at null v).1 (inr e))
  ]
