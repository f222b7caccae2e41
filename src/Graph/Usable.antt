-- ===== src/Graph/Usable.antt =====
-- The graph of the edges that `procedure2` of source/sequential_suitor.cpp and `processVertex2` of
-- source/sequential_dominant.cpp may use.
use mathlib.Core.Path.{fun_ext}
use cpp_suitor_and_local_dom.Base.{
  ℕ, ◌≡◌, refl, ap, ◌↔◌, inl, inr, Bool, true, List, [], ◌∷◌, arith, if◌then◌else◌, Bool-cases,
}
use cpp_suitor_and_local_dom.Graph.{Arc, Graph, Has, Edge, IsSimple}

unfoldable pub keep : (ℕ → Bool) → List Arc → List Arc
keep p [] = []
keep p (a ∷ rest) = let kept = keep p rest in if p a.head then a ∷ kept else kept

abbrev pub usable : Graph → (ℕ → ℕ → Bool) → Graph
usable g allowed = record { num_nodes = g.num_nodes; arcs = λ u. keep (allowed u) (g.arcs u) }

pub Has-keep :
    (p : ℕ → Bool) (l : List Arc) (v w : ℕ) → Has (keep p l) v w ↔ Has l v w × (p v ≡ true)
unfolding keep
Has-keep p [] v w = (λ h. absurd h, λ h. absurd h.0)
Has-keep p (a ∷ rest) v w = (
  λ h. elim (Bool-cases (p a.head)) [
    | inl kept ↦ ground (arith, (Has-keep p rest v w).0, rw kept at h)
    | inr left_out ↦ ground (arith, (Has-keep p rest v w).0, rw left_out at h)
  ],
  λ (h, e). elim (Bool-cases (p a.head)) [
    | inl kept ↦ rw kept (ground (arith, (Has-keep p rest v w).1))
    | inr left_out ↦ rw left_out (ground (arith, (Has-keep p rest v w).1))
  ],
)

keep_all : (l : List Arc) → keep (λ _. true) l ≡ l
unfolding keep
keep_all [] = refl
keep_all (a ∷ rest) = ap (λ l. a ∷ l) (keep_all rest)

-- `processVertex` may use them all.
pub usable_all : (g : Graph) → usable g (λ _ _. true) ≡ g
usable_all g = λ i. record {
  num_nodes = g.num_nodes;
  arcs = fun_ext {f = λ u. keep (λ _. true) (g.arcs u)} {g = g.arcs} (λ u. keep_all (g.arcs u)) i;
}

-- Fewer edges, but both directions of each.
pub usable-IsSimple :
    (g : Graph) (allowed : ℕ → ℕ → Bool)
    → IsSimple g
    → ((u v w : ℕ) → Edge g u v w → allowed u v ≡ true → allowed v u ≡ true)
    → IsSimple (usable g allowed)
usable-IsSimple g allowed simple both = record {
  edge_sym = λ u v w e.
      let (along, may) = of_usable u v w e in
      let (lt, back) = simple.edge_sym u v w along in
      (lt, (Has-keep (allowed v) (g.arcs v) u w).1 (back, both u v w along may));
  no_loop = λ u v w e. simple.no_loop u v w (of_usable u v w e).0;
  distinct =
      λ u v x y w e e'. simple.distinct u v x y w (of_usable u v w e).0 (of_usable x y w e').0;
}
  where
    of_usable : (u v w : ℕ) → Edge (usable g allowed) u v w → Edge g u v w × (allowed u v ≡ true)
    of_usable u v w (lt, h) =
        let (has, may) = (Has-keep (allowed u) (g.arcs u) v w).0 h in ((lt, has), may)
