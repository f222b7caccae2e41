-- ===== src/Suitor/Sequential/Loop.antt =====
-- The loops of `procedure` end, and what they leave is a matching.
use cpp_suitor_and_local_dom.Base.{
  ℕ, zero, suc, ◌+◌, ◌*◌, ◌≤◌, ◌<◌, ◌≡◌, refl, subst, ap, ◌∙◌, ◌>>=◌, Option, none, some, arith,
  total, total-le, dec_lt,
}
use cpp_suitor_and_local_dom.Graph.{Graph, IsSimple, weight_bound, le-weight_bound}
use cpp_suitor_and_local_dom.Suitor.Protocol.{Proposals, IsSound, IsSound-fresh}
use cpp_suitor_and_local_dom.Suitor.Sequential.{fresh, round, resume, chase, for_nodes, procedure}
use cpp_suitor_and_local_dom.Suitor.Sequential.Round.{IsAt, IsBefore, After, round-After}

-- Rounds enough for any `while` loop: each round adds to the sum of `ws`, which is bounded.
abbrev pub enough : Graph → ℕ
enough g = suc (g.num_nodes * weight_bound g)

pub total-le-bound :
    (g : Graph) (s : Proposals)
    → IsSound g s
    → total g.num_nodes s.ws ≤ g.num_nodes * weight_bound g
total-le-bound g s sound = total-le g.num_nodes (weight_bound g) s.ws λ v.
    elim (dec_lt (s.suitor v) g.num_nodes) [
      | yes lt ↦ le-weight_bound g _ v _ (sound.edge v lt)
      | no other ↦ omega (arith, sound.nothing v (omega (arith, sound.null_or_node v)))
    ]

-- Loops whose rounds make offers or leave their node idle.
module _ {g : Graph} (body : Proposals → ℕ → Proposals × Option ℕ)
    (makes : (s : Proposals) (u current : ℕ)
      → IsAt g s u current
      → After g s u (body s current)) where
  resume_ends :
      (fuel : ℕ) (s : Proposals) (u : ℕ) (r : Proposals × Option ℕ)
      → ((t : Proposals) (next : ℕ)
          → IsAt g t u next
          → enough g ≤ total g.num_nodes t.ws + fuel
          → (z : Proposals) × (chase body fuel t next ≡ some z) × IsBefore g z (suc u))
      → enough g ≤ total g.num_nodes s.ws + suc fuel
      → After g s u r
      → (z : Proposals) × (resume (chase body fuel) r ≡ some z) × IsBefore g z (suc u)
  resume_ends fuel s u (t, none) again h after = (t, refl, after)
  resume_ends fuel s u (t, some next) again h (at, more) = again t next at (omega arith)

  chase_ends :
      (fuel : ℕ) (s : Proposals) (u current : ℕ)
      → IsAt g s u current
      → enough g ≤ total g.num_nodes s.ws + fuel
      → (z : Proposals) × (chase body fuel s current ≡ some z) × IsBefore g z (suc u)
  unfolding chase
  chase_ends zero s u current at h = absurd (omega (arith, total-le-bound g s at.sound))
  chase_ends (suc fuel) s u current at h =
      resume_ends fuel s u (body s current) (λ t next. chase_ends fuel t u next) h
        (makes s u current at)

  IsBefore-IsAt : (s : Proposals) (u : ℕ) → u < g.num_nodes → IsBefore g s u → IsAt g s u u
  IsBefore-IsAt s u lt before = record {
    sound = before.sound;
    in_range = lt;
    started = omega arith;
    jobless = before.waiting u (omega arith) lt;
    waiting = λ q more. before.waiting q (omega arith);
    settled = λ q less ne. before.settled q (omega arith);
  }

  for_nodes_ends :
      (k u : ℕ) (s : Proposals)
      → u + k ≡ g.num_nodes
      → IsBefore g s u
      → (z : Proposals) × (for_nodes body (enough g) k u s ≡ some z) × IsBefore g z g.num_nodes
  unfolding for_nodes
  for_nodes_ends zero u s e before = (s, refl, subst (IsBefore g s) (omega arith) before)
  for_nodes_ends (suc k) u s e before =
      let (t, ends, after) =
        chase_ends (enough g) s u u (IsBefore-IsAt s u (omega arith) before) (omega arith) in
      let (z, rest, last) = for_nodes_ends k (suc u) t (omega arith) after in
      (z, ap (λ o. o >>= for_nodes body (enough g) k (suc u)) ends ∙ rest, last)

  -- From the empty tables every loop ends within `enough g` rounds, and what is left is sound with
  -- every node settled.
  pub loops_end :
      (z : Proposals) × (for_nodes body (enough g) g.num_nodes 0 (fresh g) ≡ some z)
      × IsBefore g z g.num_nodes
  loops_end = for_nodes_ends g.num_nodes 0 (fresh g) (omega arith) (record {
    sound = IsSound-fresh g;
    waiting = λ q _ lt v e. omega arith;
    settled = λ q lt. absurd (omega arith);
  })

pub procedure_ends :
    {g : Graph}
    → IsSimple g
    → (z : Proposals) × (procedure g (enough g) (fresh g) ≡ some z) × IsBefore g z g.num_nodes
unfolding procedure
procedure_ends {g} simple = loops_end (round g) (round-After simple)
