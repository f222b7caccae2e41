-- ===== src/Suitor/Parallel/UnionFind/Forest.antt =====
-- The forest of a `UnionFind`, and that its operations keep to it.
use cpp_suitor_and_local_dom.Base.{
  ℕ, zero, suc, ◌≡◌, refl, sym, subst, ◌∙◌, ◌≢◌, ◌⊎◌, inl, inr, some, ◌==◌, Bool-cases, update,
  to_update, arith,
}
use cpp_suitor_and_local_dom.Suitor.Parallel.UnionFind.{climb}

-- From `a` it is at most `d` steps up to the root `r`.
abbrev pub Climbs : ℕ → (ℕ → ℕ) → ℕ → ℕ → ℕ → Type 0
Climbs null parent zero a r = (a ≡ r) × (parent r ≡ null)
Climbs null parent (suc d) a r =
    (a ≡ r) × (parent r ≡ null) ⊎ (parent a ≢ null) × Climbs null parent d (parent a) r

module _ (null : ℕ) (parent : ℕ → ℕ) where
  pub at_root : (d a r : ℕ) → Climbs null parent d a r → parent r ≡ null
  at_root zero a r (_, e) = e
  at_root (suc d) a r (inl (_, e)) = e
  at_root (suc d) a r (inr (_, c)) = at_root d (parent a) r c

  pub self : (d r : ℕ) → parent r ≡ null → Climbs null parent d r r
  self zero r at = (refl, at)
  self (suc d) r at = inl (refl, at)

  pub top_root : (d a r : ℕ) → parent a ≡ null → Climbs null parent d a r → a ≡ r
  top_root zero a r top (e, _) = e
  top_root (suc d) a r top (inl (e, _)) = e
  top_root (suc d) a r top (inr (up, _)) = absurd (up top)

  -- A node has one root.
  pub one_root : (d d' a r r' : ℕ) → Climbs null parent d a r → Climbs null parent d' a r' → r ≡ r'
  one_root zero d' a r r' (e, at) c' = sym e ∙ top_root d' a r' (rw e at) c'
  one_root (suc d) d' a r r' (inl (e, at)) c' = sym e ∙ top_root d' a r' (rw e at) c'
  one_root (suc d) zero a r r' (inr (up, c)) (e', at') = absurd (up (rw e' at'))
  one_root (suc d) (suc d') a r r' (inr (up, c)) (inl (e', at')) = absurd (up (rw e' at'))
  one_root (suc d) (suc d') a r r' (inr (up, c)) (inr (_, c')) = one_root d d' (parent a) r r' c c'

  climb_at : (fuel a : ℕ) → parent a ≡ null → climb (suc fuel) null parent a ≡ some a
  unfolding climb
  climb_at fuel a at = rw at (ground arith)

  -- The first loop finds the root.
  pub climb-Climbs : (d a r : ℕ) → Climbs null parent d a r → climb (suc d) null parent a ≡ some r
  unfolding climb
  climb-Climbs zero a r (e, at) =
      subst (λ x. climb 1 null parent a ≡ some x) e (climb_at 0 a (rw e at))
  climb-Climbs (suc d) a r (inl (e, at)) =
      subst (λ x. climb (suc (suc d)) null parent a ≡ some x) e (climb_at (suc d) a (rw e at))
  climb-Climbs (suc d) a r (inr (up, c)) = elim (Bool-cases (parent a == null)) [
    | inl top ↦ absurd (up (ground arith))
    | inr below ↦ rw below (climb-Climbs d (parent a) r c)
  ]

  -- Hanging a node below its root keeps everybody's root, and nobody gets further from it.
  module _ (a root d₀ : ℕ) (way : Climbs null parent d₀ a root) (other : a ≢ root)
      (inside : root ≢ null) where
    abbrev hung : ℕ → ℕ
    hung = update parent a root

    a_below : parent a ≢ null
    a_below top = other (top_root d₀ a root top way)

    root_hung : hung root ≡ null
    root_hung = ground (arith, at_root d₀ a root way)

    stays : (y : ℕ) → parent y ≡ null → hung y ≡ null
    stays y at =
        to_update (λ z. z ≡ null) parent a root y (λ same. absurd (a_below (rw same at))) λ _. at

    pub hung-Climbs : (d x y : ℕ) → Climbs null parent d x y → Climbs null hung d x y
    hung-Climbs zero x y (e, at) = (e, stays y at)
    hung-Climbs (suc d) x y (inl (e, at)) = inl (e, stays y at)
    hung-Climbs (suc d) x y (inr (up, c)) = inr (
        to_update (λ z. (z ≢ null) × Climbs null hung d z y) parent a root x
          (λ same.
            let one : root ≡ y =
              one_root d₀ (suc d) x root y (subst (λ z. Climbs null parent d₀ z root) same way)
                (inr (up, c)) in
            (inside, subst (Climbs null hung d root) one (self_hung d)))
          λ _. (up, hung-Climbs d (parent x) y c))
      where
        self_hung : (d : ℕ) → Climbs null hung d root root
        self_hung zero = (refl, root_hung)
        self_hung (suc d) = inl (refl, root_hung)
