-- ===== src/Heavy/Steps.antt =====
-- A walk that takes the edges of two matchings in turn: `f` is the matching of its last edge and
-- `g` that of the next.
use cpp_suitor_and_local_dom.Base.{
  ℕ, ◌<◌, ◌≡◌, refl, sym, ap, ◌∙◌, ◌≢◌, ◌⊎◌, inl, inr, ◌↔◌, Bool, true, false, [], ◌∷◌, ◌++◌,
  Bool-cases, ℕ_discrete, update, of_update, to_update, arith,
}
use cpp_suitor_and_local_dom.EdgeList.{Edge, EdgeList, Among}
use cpp_suitor_and_local_dom.EdgeList.Read.{Among-append}
use cpp_suitor_and_local_dom.Heavy.Pairing.{IsPairing}

-- Processed in this walk.
abbrev pub Visited : (ℕ → Bool) → (ℕ → Bool) → ℕ → Type 0
Visited before processed x = (processed x ≡ true) × (before x ≡ false)

-- The edge of `x` is in the list, in one of its directions.
abbrev pub Stored : EdgeList → (ℕ → ℕ) → (ℕ → ℕ) → ℕ → Type 0
Stored l f w x = Among l x (f x) (w x) ⊎ Among l (f x) x (w x)

-- Every edge of the list belongs to a matching, and lies between nodes of this walk.
abbrev pub Belongs : (ℕ → Bool) → (ℕ → Bool) → (ℕ → ℕ) → (ℕ → ℕ) → ℕ → ℕ → ℕ → Type 0
Belongs before processed f w a b l =
    Visited before processed a × Visited before processed b × (b ≡ f a) × (l ≡ w a)

-- `OpenF`, `OpenG`: where the walk began, if that node's edge is still to be taken.
pub record IsWalk (n : ℕ) (before : ℕ → Bool) (f wf g wg : ℕ → ℕ) (OpenF OpenG : ℕ → Type 0)
    (processed : ℕ → Bool) (current : ℕ) (last previous : EdgeList) : Type 0 where
  pub here : Visited before processed current
  pub grown : (x : ℕ) → before x ≡ true → processed x ≡ true
  pub inside : (x : ℕ) → Visited before processed x → x < n
  pub came : f current < n
  pub last_edges : (a b l : ℕ) → Among last a b l → Belongs before processed f wf a b l
  pub previous_edges :
      (a b l : ℕ)
      → Among previous a b l
      → Belongs before processed g wg a b l × (a ≢ current) × (b ≢ current)
  pub last_stored : (x : ℕ) → Visited before processed x → ¬ OpenF x → f x < n → Stored last f wf x
  pub previous_stored :
      (x : ℕ)
      → Visited before processed x
      → x ≢ current
      → ¬ OpenG x
      → g x < n
      → Stored previous g wg x

module _ {n : ℕ} {before : ℕ → Bool} {f wf g wg : ℕ → ℕ} {OpenF OpenG : ℕ → Type 0}
    {processed : ℕ → Bool} {current : ℕ} {last previous : EdgeList} (other : IsPairing n g wg)
    (walk : IsWalk n before f wf g wg OpenF OpenG processed current last previous)
    (goes : g current < n) where
  back : g (g current) ≡ current
  back = other.symmetric current goes

  back_less : g (g current) < n
  back_less = rw back (walk.inside current walk.here)

  -- The next node is a new one, unless the walk is back where it began.
  pub next_new :
      ((x : ℕ) → before x ≡ true → g x < n → before (g x) ≡ true)
      → ¬ OpenG (g current)
      → processed (g current) ≡ false
  next_new closed shut = elim (Bool-cases (processed (g current))) [
    | inr new ↦ new
    | inl old ↦ elim (Bool-cases (before (g current))) [
      | inl long_ago ↦
          absurd
            (ground (arith, walk.here.1, closed (g current) long_ago back_less, ap before back))
      | inr since ↦
          elim (walk.previous_stored (g current) (old, since) (other.loopless current goes) shut
            back_less) [
              | inl a ↦ absurd ((walk.previous_edges _ _ _ a).2 back)
              | inr a ↦ absurd ((walk.previous_edges _ _ _ a).1 back)
            ]
    ]
  ]

  abbrev edge : Edge
  edge = record { from = current; to = g current; length = wg current }

  -- The list with the edge that is taken.
  Among-edge :
      (a b l : ℕ)
      → Among (previous ++ (edge ∷ [])) a b l
        ↔ (Among previous a b l ⊎ (a ≡ current) × (b ≡ g current) × (l ≡ wg current))
  Among-edge a b l = ground (arith, Among-append previous (edge ∷ []) a b l)

  module _ (processed' : ℕ → Bool) (keeps : (x : ℕ) → processed x ≡ true → processed' x ≡ true)
      (next_in : Visited before processed' (g current)) where
    kept : (x : ℕ) → Visited before processed x → Visited before processed' x
    kept x v = (keeps x v.0, v.1)

    pub taken_edges :
        (a b l : ℕ) → Among (previous ++ (edge ∷ [])) a b l → Belongs before processed' g wg a b l
    taken_edges a b l h = elim ((Among-edge a b l).0 h) [
      | inl old ↦
          let e = walk.previous_edges a b l old in (kept a e.0.0, kept b e.0.1, e.0.2, e.0.3)
      | inr (ea, eb, el) ↦
          (rw ea (kept current walk.here), rw eb next_in, eb ∙ ap g (sym ea), el ∙ ap wg (sym ea))
    ]

    -- Of the nodes that were there, and of the next, the edge in `g` is in the list.
    pub taken-Stored :
        (x : ℕ)
        → (Visited before processed x × ¬ OpenG x) ⊎ (x ≡ g current)
        → g x < n
        → Stored (previous ++ (edge ∷ [])) g wg x
    taken-Stored x (inr same) lt = inr (
        (Among-edge (g x) x (wg x)).1
          (inr (ap g same ∙ back, same, ap wg same ∙ other.weighs current goes)))
    taken-Stored x (inl (v, shut)) lt = elim (ℕ_discrete x current) [
      | yes same ↦ inl ((Among-edge x (g x) (wg x)).1 (inr (same, ap g same, ap wg same)))
      | no apart ↦ elim (walk.previous_stored x v apart shut lt) [
        | inl a ↦ inl ((Among-edge x (g x) (wg x)).1 (inl a))
        | inr a ↦ inr ((Among-edge (g x) x (wg x)).1 (inl a))
      ]
    ]

  module _ (new : processed (g current) ≡ false) where
    abbrev after : ℕ → Bool
    after = update processed (g current) true

    before_new : before (g current) ≡ false
    before_new = elim (Bool-cases (before (g current))) [
      | inl old ↦ absurd (ground (arith, walk.grown (g current) old))
      | inr since ↦ since
    ]

    after_keeps : (x : ℕ) → processed x ≡ true → after x ≡ true
    after_keeps x e = to_update (λ b. b ≡ true) processed (g current) true x (λ _. refl) λ _. e

    next_in : Visited before after (g current)
    next_in = (
      to_update (λ b. b ≡ true) processed (g current) true (g current) (λ _. refl)
          λ ne. absurd (ne refl),
      before_new,
    )

    was : (x : ℕ) → after x ≡ true → (processed x ≡ true) ⊎ (x ≡ g current)
    was x e = elim (of_update (λ b. b ≡ true) processed (g current) true x e) [
      | inl here ↦ inr (sym here.0)
      | inr old ↦ inl old.1
    ]

    -- The nodes of the old lists are not the new one.
    old_apart : (x : ℕ) → Visited before processed x → x ≢ g current
    old_apart x v e = ground (arith, v.0, ap processed e)

    -- A step of the walk to a new node.
    pub advance-IsWalk :
        IsWalk n before g wg f wf OpenG OpenF after (g current) (previous ++ (edge ∷ [])) last
    advance-IsWalk = record {
      here = next_in;
      grown = λ x e. after_keeps x (walk.grown x e);
      inside =
          λ x v. elim (was x v.0) [ inl old ↦ walk.inside x (old, v.1) | inr same ↦ rw same goes ];
      came = back_less;
      last_edges = taken_edges after after_keeps next_in;
      previous_edges = λ a b l h.
          let e = walk.last_edges a b l h in
          (
            ((after_keeps a e.0.0, e.0.1), (after_keeps b e.1.0, e.1.1), e.2, e.3),
            old_apart a e.0,
            old_apart b e.1,
          );
      last_stored = λ x v shut lt.
          taken-Stored after after_keeps next_in x
            (elim (was x v.0) [ inl old ↦ inl ((old, v.1), shut) | inr same ↦ inr same ]) lt;
      previous_stored = λ x v apart shut lt. elim (was x v.0) [
        | inl old ↦ walk.last_stored x (old, v.1) shut lt
        | inr same ↦ absurd (apart same)
      ];
    }
