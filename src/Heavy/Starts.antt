-- ===== src/Heavy/Starts.antt =====
-- The first edge of a walk.
use cpp_suitor_and_local_dom.Base.{
  ℕ, ◌<◌, ◌≡◌, refl, sym, ◌⊎◌, inl, inr, Bool, true, false, [], ◌∷◌, Bool-cases, update, of_update,
  to_update, arith, ap, ◌∙◌,
}
use cpp_suitor_and_local_dom.EdgeList.{Edge, Among}
use cpp_suitor_and_local_dom.Heavy.Pairing.{IsPairing}
use cpp_suitor_and_local_dom.Heavy.Steps.{Visited, IsWalk}

module _ {n : ℕ} {before : ℕ → Bool} {f wf : ℕ → ℕ} {u : ℕ} (first : IsPairing n f wf)
    (fresh : before u ≡ false) (goes : f u < n)
    (closed : (x : ℕ) → before x ≡ true → f x < n → before (f x) ≡ true) where
  back : f (f u) ≡ u
  back = first.symmetric u goes

  back_less : f (f u) < n
  back_less = rw back (first.inside u goes)

  pub mate_fresh : before (f u) ≡ false
  mate_fresh = elim (Bool-cases (before (f u))) [
    | inr new ↦ new
    | inl old ↦ absurd (ground (arith, closed (f u) old back_less, ap before back))
  ]

  abbrev once : ℕ → Bool
  once = update before u true

  pub mate_new : once (f u) ≡ false
  mate_new =
      to_update (λ b. b ≡ false) before u true (f u) (λ e. absurd (first.loopless u goes (sym e)))
        λ _. mate_fresh

  abbrev twice : ℕ → Bool
  twice = update once (f u) true

  abbrev edge : Edge
  edge = record { from = u; to = f u; length = wf u }

  twice_old : (x : ℕ) → before x ≡ true → twice x ≡ true
  twice_old x e =
      to_update (λ b. b ≡ true) once (f u) true x (λ _. refl)
        λ _. to_update (λ b. b ≡ true) before u true x (λ _. refl) λ _. e

  twice-u : twice u ≡ true
  twice-u =
      to_update (λ b. b ≡ true) once (f u) true u (λ _. refl)
        λ _. to_update (λ b. b ≡ true) before u true u (λ _. refl) λ ne. absurd (ne refl)

  twice_mate : twice (f u) ≡ true
  twice_mate = to_update (λ b. b ≡ true) once (f u) true (f u) (λ _. refl) λ ne. absurd (ne refl)

  these : (x : ℕ) → Visited before twice x → (x ≡ u) ⊎ (x ≡ f u)
  these x (v, new) = elim (of_update (λ b. b ≡ true) once (f u) true x v) [
    | inl here ↦ inr (sym here.0)
    | inr (_, v2) ↦ elim (of_update (λ b. b ≡ true) before u true x v2) [
      | inl here ↦ inl (sym here.0)
      | inr (_, old) ↦ absurd (ground (arith, old, new))
    ]
  ]

  Among-edge : Among (edge ∷ []) u (f u) (wf u)
  Among-edge = inl (refl, refl, refl)

  of_edge : (a b l : ℕ) → Among (edge ∷ []) a b l → (a ≡ u) × (b ≡ f u) × (l ≡ wf u)
  of_edge a b l h = elim h [ inl e ↦ e | inr e ↦ absurd e ]

  pub begin-IsWalk :
      {g wg : ℕ → ℕ} {OpenF OpenG : ℕ → Type 0}
      → OpenG u
      → IsWalk n before f wf g wg OpenF OpenG twice (f u) (edge ∷ []) []
  begin-IsWalk opens = record {
    here = (twice_mate, mate_fresh);
    grown = twice_old;
    inside = λ x v. elim (these x v) [ inl e ↦ rw e (first.inside u goes) | inr e ↦ rw e goes ];
    came = back_less;
    last_edges = λ a b l h.
        let e = of_edge a b l h in
        (
          rw e.0 (twice-u, fresh),
          rw e.1 (twice_mate, mate_fresh),
          e.1 ∙ ap f (sym e.0),
          e.2 ∙ ap wf (sym e.0),
        );
    previous_edges = λ a b l h. absurd h;
    last_stored = λ x v _ _. elim (these x v) [
      | inl e ↦ rw e (inl Among-edge)
      | inr e ↦ inr (inl (ap f e ∙ back, e, ap wf e ∙ first.weighs u goes))
    ];
    previous_stored = λ x v apart shut _. elim (these x v) [
      | inl e ↦ absurd (shut (rw e opens))
      | inr e ↦ absurd (apart e)
    ];
  }
