-- ===== src/Examples/UnionFind.antt =====
-- `UnionFind` on five nodes: 0 - 1 - 2, and 3 and 4 apart.
use cpp_suitor_and_local_dom.Base.{
  ℕ, zero, suc, ◌≡◌, refl, ◌⊎◌, inr, Option, none, some, arith, ℕ_discrete,
}
use cpp_suitor_and_local_dom.Suitor.Parallel.UnionFind.{
  UnionFind, separate, unify, climb, compress, find_representative,
}
use cpp_suitor_and_local_dom.Suitor.Parallel.UnionFind.Forest.{Climbs}
use cpp_suitor_and_local_dom.Suitor.Parallel.UnionFind.Correct.{
  find_representative_root, unify_roots,
}

abbrev up : ℕ → ℕ
up zero = 1
up (suc zero) = 2
up _ = 5

abbrev chain : UnionFind
chain = record { null = 5; num_nodes = 3; union_find = up; ranks = λ _. 1 }

two_steps : Climbs 5 up 2 0 2
two_steps = inr (λ e. absurd (omega (arith, e)), inr (λ e. absurd (omega (arith, e)), (refl, refl)))

find_representative_root_example :
    (f : UnionFind) × (find_representative 3 chain 0 ≡ some (2, f))
    × Climbs 5 f.union_find 1 0 2
    × Climbs 5 f.union_find 0 4 4
find_representative_root_example =
    find_representative_root chain 2 0 2 two_steps (λ e. absurd (omega (arith, e))) 0 4 4
      (refl, refl)

unify_roots_example :
    (root : ℕ) × ((root ≡ 2) ⊎ (root ≡ 3))
    × Climbs 5 (unify chain 2 3).union_find 3 0 root
    × Climbs 5 (unify chain 2 3).union_find 1 3 root
    × Climbs 5 (unify chain 2 3).union_find 0 4 4
unify_roots_example =
    unify_roots chain 2 3 (λ e. absurd (omega (arith, e))) (λ e. absurd (omega (arith, e)))
      (λ e. absurd (omega (arith, e))) 2 0 0 3 0 4 4 two_steps (refl, refl) (refl, refl)
      (λ e. absurd (omega (arith, e))) (λ e. absurd (omega (arith, e)))

abbrev found_root : Option (ℕ × UnionFind) → ℕ
found_root none = 5
found_root (some r) = r.0

-- Of equal ranks the first root stays, and is found from the other set.
joined_find : found_root (find_representative 3 (unify (unify (separate 5) 3 1) 0 3) 1) ≡ 3
unfolding find_representative climb compress unify separate ℕ_discrete
joined_find = refl
