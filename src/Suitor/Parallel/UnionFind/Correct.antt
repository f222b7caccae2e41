-- ===== src/Suitor/Parallel/UnionFind/Correct.antt =====
-- What `find_representative` and `unify` do to the forest.
use cpp_suitor_and_local_dom.Base.{
  ℕ, zero, suc, ◌≡◌, refl, sym, subst, ◌≢◌, ◌⊎◌, inl, inr, true, false, some, ltb, ◌==◌, Bool-cases,
  update, to_update, arith,
}
use cpp_suitor_and_local_dom.Suitor.Parallel.UnionFind.{
  UnionFind, unify, compress, find_representative,
}
use cpp_suitor_and_local_dom.Suitor.Parallel.UnionFind.Forest.{
  Climbs, at_root, climb-Climbs, hung-Climbs,
}

-- A forest in which nobody loses its root or gets further from it.
abbrev pub Keeps : ℕ → (ℕ → ℕ) → (ℕ → ℕ) → Type 0
Keeps null parent parent' = (d x y : ℕ) → Climbs null parent d x y → Climbs null parent' d x y

compress-Climbs :
    (null d : ℕ) (parent : ℕ → ℕ) (a root : ℕ)
    → Climbs null parent d a root
    → root ≢ null
    → (parent' : ℕ → ℕ) × (compress (suc d) parent a root ≡ some parent')
      × Keeps null parent parent'
      × Climbs null parent' 1 a root
unfolding compress
compress-Climbs null zero parent a root (e, at) inside =
    (parent, rw e (ground arith), λ d x y c. c, inl (e, at))
compress-Climbs null (suc d) parent a root (inl (e, at)) inside =
    (parent, rw e (ground arith), λ d x y c. c, inl (e, at))
compress-Climbs null (suc d) parent a root (inr (up, c)) inside =
    let other : a ≢ root = λ e. up (rw e (at_root null parent d (parent a) root c)) in
    let keep = hung-Climbs null parent a root (suc d) (inr (up, c)) other inside in
    let (parent', runs, keep', near) =
      compress-Climbs null d (update parent a root) (parent a) root (keep d (parent a) root c)
        inside in
    (
      parent',
      elim (Bool-cases (a == root)) [
        | inl same ↦ absurd (other (ground arith))
        | inr below ↦ rw below runs
      ],
      λ e x y way. keep' e x y (keep e x y way),
      keep' 1 a root (
          inr (
            to_update (λ z. z ≢ null) parent a root a (λ _. inside) (λ ne. absurd (ne refl)),
            (
              to_update (λ z. z ≡ root) parent a root a (λ _. refl) (λ ne. absurd (ne refl)),
              at_root null (update parent a root) (suc d) a root
                  (keep (suc d) a root (inr (up, c))),
            ),
          )),
    )

-- `find_representative` of a node that is at most `d` steps below its root, with `d + 1` turns of
-- fuel for each of its loops, returns the root. In the forest that it leaves the node is at the
-- root or directly below, and any node `x` has the root that it had and is not further from it.
pub find_representative_root :
    (f : UnionFind) (d a root : ℕ)
    → Climbs f.null f.union_find d a root
    → root ≢ f.null
    → (e x y : ℕ) → Climbs f.null f.union_find e x y
    → (f' : UnionFind) × (find_representative (suc d) f a ≡ some (root, f'))
      × Climbs f.null f'.union_find 1 a root
      × Climbs f.null f'.union_find e x y
unfolding find_representative
find_representative_root f d a root way inside e x y other =
    let (parent', runs, keep, near) = compress-Climbs f.null d f.union_find a root way inside in
    (
      record f { union_find = parent' },
      rw (climb-Climbs f.null f.union_find d a root way, runs) refl,
      near,
      keep e x y other,
    )

further :
    (null : ℕ) (parent : ℕ → ℕ) (d x r : ℕ)
    → Climbs null parent d x r
    → Climbs null parent (suc d) x r
further null parent zero x r c = inl c
further null parent (suc d) x r (inl c) = inl c
further null parent (suc d) x r (inr (up, c)) = inr (up, further null parent d (parent x) r c)

-- One root is hung below another.
module _ (null : ℕ) (parent : ℕ → ℕ) (child root : ℕ) (top_child : parent child ≡ null)
    (top : parent root ≡ null) (apart : child ≢ root) (inside : root ≢ null) where
  abbrev joined : ℕ → ℕ
  joined = update parent child root

  top_joined : (y : ℕ) → y ≢ child → parent y ≡ null → joined y ≡ null
  top_joined y ne at =
      to_update (λ z. z ≡ null) parent child root y (λ e. absurd (ne (sym e))) λ _. at

  not_child : (x : ℕ) → parent x ≢ null → child ≢ x
  not_child x up e = up (subst (λ z. parent z ≡ null) e top_child)

  others-Climbs : (d x y : ℕ) → y ≢ child → Climbs null parent d x y → Climbs null joined d x y
  others-Climbs zero x y ne (e, at) = (e, top_joined y ne at)
  others-Climbs (suc d) x y ne (inl (e, at)) = inl (e, top_joined y ne at)
  others-Climbs (suc d) x y ne (inr (up, c)) = inr (
      to_update (λ z. (z ≢ null) × Climbs null joined d z y) parent child root x
        (λ e. absurd (not_child x up e)) λ _. (up, others-Climbs d (parent x) y ne c))

  hangs : Climbs null joined 1 child root
  hangs = inr (
      to_update (λ z. (z ≢ null) × Climbs null joined 0 z root) parent child root child
        (λ _. (inside, (refl, top_joined root (λ e. apart (sym e)) top))) λ ne. absurd (ne refl))

  below-Climbs : (d x : ℕ) → Climbs null parent d x child → Climbs null joined (suc d) x root
  below-Climbs zero x (e, at) = subst (λ z. Climbs null joined 1 z root) (sym e) hangs
  below-Climbs (suc d) x (inl (e, at)) =
      subst (λ z. Climbs null joined (suc (suc d)) z root) (sym e) (deep d)
    where
      deep : (d : ℕ) → Climbs null joined (suc (suc d)) child root
      deep zero = further null joined 1 child root hangs
      deep (suc d) = further null joined (suc (suc d)) child root (deep d)
  below-Climbs (suc d) x (inr (up, c)) = inr (
      to_update (λ z. (z ≢ null) × Climbs null joined (suc d) z root) parent child root x
        (λ e. absurd (not_child x up e)) λ _. (up, below-Climbs d (parent x) c))

module _ (f : UnionFind) (root1 root2 : ℕ) (two : (root1 == root2) ≡ false) where
  unify_lower :
      ltb (f.ranks root1) (f.ranks root2) ≡ true
      → (unify f root1 root2).union_find ≡ update f.union_find root1 root2
  unfolding unify
  unify_lower lower = rw (two, lower) refl

  unify_higher :
      ltb (f.ranks root1) (f.ranks root2) ≡ false
      → (unify f root1 root2).union_find ≡ update f.union_find root2 root1
  unfolding unify
  unify_higher higher = rw (two, higher) refl

-- After `unify` of two roots a node `x` below the one and a node `y` below the other have one of
-- the two as their common root, at most one step further away. A node `z` below a third root
-- stays there.
pub unify_roots :
    (f : UnionFind) (root1 root2 : ℕ)
    → root1 ≢ root2
    → root1 ≢ f.null
    → root2 ≢ f.null
    → (d x d' y e z root3 : ℕ) → Climbs f.null f.union_find d x root1
    → Climbs f.null f.union_find d' y root2
    → Climbs f.null f.union_find e z root3
    → root3 ≢ root1
    → root3 ≢ root2
    → (root : ℕ) × ((root ≡ root1) ⊎ (root ≡ root2))
      × Climbs f.null (unify f root1 root2).union_find (suc d) x root
      × Climbs f.null (unify f root1 root2).union_find (suc d') y root
      × Climbs f.null (unify f root1 root2).union_find e z root3
unify_roots f root1 root2 apart in1 in2 d x d' y e z root3 way1 way2 way3 ne1 ne2 =
    elim (Bool-cases (ltb (f.ranks root1) (f.ranks root2))) [
      | inl lower ↦ subst After (sym (unify_lower f root1 root2 two lower)) (
        root2,
        inr refl,
        below-Climbs null up root1 root2 top1 top2 apart in2 d x way1,
        further null (update up root1 root2) d' y root2
            (others-Climbs null up root1 root2 top1 top2 apart in2 d' y root2 back way2),
        others-Climbs null up root1 root2 top1 top2 apart in2 e z root3 ne1 way3,
      )
      | inr higher ↦ subst After (sym (unify_higher f root1 root2 two higher)) (
        root1,
        inl refl,
        further null (update up root2 root1) d x root1
            (others-Climbs null up root2 root1 top2 top1 back in1 d x root1 apart way1),
        below-Climbs null up root2 root1 top2 top1 back in1 d' y way2,
        others-Climbs null up root2 root1 top2 top1 back in1 e z root3 ne2 way3,
      )
    ]
  where
    null : ℕ
    null = f.null

    up : ℕ → ℕ
    up = f.union_find

    two : (root1 == root2) ≡ false
    two = ground (arith, apart)

    back : root2 ≢ root1
    back p = apart (sym p)

    top1 : up root1 ≡ null
    top1 = at_root null up d x root1 way1

    top2 : up root2 ≡ null
    top2 = at_root null up d' y root2 way2

    After : (ℕ → ℕ) → Type 0
    After parent =
        (root : ℕ) × ((root ≡ root1) ⊎ (root ≡ root2))
        × Climbs null parent (suc d) x root
        × Climbs null parent (suc d') y root
        × Climbs null parent e z root3
