-- ===== src/EdgeList/Drawn.antt =====
-- Where the edges that `readEdges` returns come from: a pair of the file and its random weight.
use cpp_suitor_and_local_dom.Base.{
  ℕ, suc, ◌≤◌, ◌≡◌, refl, subst, sym, ◌∙◌, ◌≢◌, ◌↔◌, ◌⊎◌, inl, inr, List, [], ◌∷◌, arith,
}
use cpp_suitor_and_local_dom.EdgeList.{Among, Reading, read_pair, read_pairs, read_edges}
use cpp_suitor_and_local_dom.EdgeList.Read.{Among-read_pair, read_edges-IsUndirected}

-- The edge is one of the pairs, in one of its directions; the k-th weight is that of the first.
abbrev pub Drawn : (ℕ → ℕ) → ℕ → List (ℕ × ℕ) → ℕ → ℕ → ℕ → Type 0
Drawn draw k [] u v w = ⊥
Drawn draw k ((from, to) ∷ rest) u v w =
    (w ≡ draw k) × ((u ≡ from) × (v ≡ to) ⊎ (u ≡ to) × (v ≡ from)) ⊎ Drawn draw (suc k) rest u v w

-- No pair is an edge of a node to itself.
abbrev pub NoLoops : List (ℕ × ℕ) → Type 0
NoLoops [] = Unit
NoLoops ((from, to) ∷ rest) = (from ≢ to) × NoLoops rest

pub Drawn-sym :
    (draw : ℕ → ℕ) (k : ℕ) (pairs : List (ℕ × ℕ)) (u v w : ℕ)
    → Drawn draw k pairs u v w
    → Drawn draw k pairs v u w
Drawn-sym draw k [] u v w h = h
Drawn-sym draw k ((from, to) ∷ rest) u v w (inl h) = inl (ground arith)
Drawn-sym draw k ((from, to) ∷ rest) u v w (inr h) = inr (Drawn-sym draw (suc k) rest u v w h)

pub Drawn-apart :
    (draw : ℕ → ℕ) (k : ℕ) (pairs : List (ℕ × ℕ)) (u v w : ℕ)
    → NoLoops pairs
    → Drawn draw k pairs u v w
    → u ≢ v
Drawn-apart draw k [] u v w loopless h = absurd h
Drawn-apart draw k ((from, to) ∷ rest) u v w (apart, _) (inl h) = ground arith
Drawn-apart draw k ((from, to) ∷ rest) u v w (_, loopless) (inr h) =
    Drawn-apart draw (suc k) rest u v w loopless h

Drawn-draw :
    (draw : ℕ → ℕ) (k : ℕ) (pairs : List (ℕ × ℕ)) (u v w : ℕ)
    → Drawn draw k pairs u v w
    → (j : ℕ) × (k ≤ j) × (w ≡ draw j)
Drawn-draw draw k [] u v w h = absurd h
Drawn-draw draw k ((from, to) ∷ rest) u v w (inl (e, _)) = (k, omega arith, e)
Drawn-draw draw k ((from, to) ∷ rest) u v w (inr h) =
    let (j, le, e) = Drawn-draw draw (suc k) rest u v w h in (j, omega arith, e)

-- A weight that is drawn once tells its edge.
pub Drawn-distinct :
    (draw : ℕ → ℕ) (once : (i j : ℕ) → draw i ≡ draw j → i ≡ j) (k : ℕ) (pairs : List (ℕ × ℕ))
    (u v x y w : ℕ)
    → Drawn draw k pairs u v w
    → Drawn draw k pairs x y w
    → (u ≡ x) × (v ≡ y) ⊎ (u ≡ y) × (v ≡ x)
Drawn-distinct draw once k [] u v x y w h h' = absurd h
Drawn-distinct draw once k ((from, to) ∷ rest) u v x y w (inl h) (inl h') = ground arith
Drawn-distinct draw once k ((from, to) ∷ rest) u v x y w (inl h) (inr h') =
    let (j, le, e) = Drawn-draw draw (suc k) rest x y w h' in
    absurd (omega (arith, once k j (sym h.0 ∙ e)))
Drawn-distinct draw once k ((from, to) ∷ rest) u v x y w (inr h) (inl h') =
    let (j, le, e) = Drawn-draw draw (suc k) rest u v w h in
    absurd (omega (arith, once k j (sym h'.0 ∙ e)))
Drawn-distinct draw once k ((from, to) ∷ rest) u v x y w (inr h) (inr h') =
    Drawn-distinct draw once (suc k) rest u v x y w h h'

Among-read_pairs :
    (draw : ℕ → ℕ) (k : ℕ) (r : Reading) (pairs : List (ℕ × ℕ)) (u v w : ℕ)
    → Among (read_pairs draw k r pairs).edges u v w
      ↔ (Among r.edges u v w ⊎ Drawn draw k pairs u v w)
unfolding read_pairs
Among-read_pairs draw k r [] u v w = (λ h. inl h, λ h. ground arith)
Among-read_pairs draw k r ((from, to) ∷ rest) u v w =
    let (out, into) = Among-read_pairs draw (suc k) (read_pair r from to (draw k)) rest u v w in
    let (out₁, into₁) = Among-read_pair r from to (draw k) u v w in
    (λ h. ground (arith, out h, out₁), λ h. ground (arith, into, into₁))

-- What `readEdges` returns are the drawn edges.
pub Among-read_edges :
    (draw : ℕ → ℕ) (pairs : List (ℕ × ℕ)) (u v w : ℕ)
    → Among (read_edges draw pairs).0 u v w ↔ Drawn draw 0 pairs u v w
unfolding read_edges
Among-read_edges draw pairs u v w =
    let (out, into) = Among-read_pairs draw 0 (record { edges = []; last_one = 0 }) pairs u v w in
    (λ h. ground (arith, out h), λ h. into (inr h))

no_pairs : (draw : ℕ → ℕ) (pairs : List (ℕ × ℕ)) → (read_edges draw pairs).0 ≡ [] → pairs ≡ []
no_pairs draw [] e = refl
no_pairs draw ((from, to) ∷ rest) e =
    let here =
      (Among-read_edges draw ((from, to) ∷ rest) from to (draw 0)).1
        (inl (refl, inl (refl, refl))) in
    absurd (subst (λ es. Among es from to (draw 0)) e here)

-- Whatever pairs the file holds and whatever weights are drawn: the list that `readEdges` returns
-- holds each pair in both directions, with the weight that was drawn for it, and no other edge. All
-- indices are below the number of nodes that it returns, and the index one less than that number is
-- in a pair, unless the file has no pair: then it returns 1.
pub read_edges-Drawn :
    (draw : ℕ → ℕ) (pairs : List (ℕ × ℕ))
    → (last_one : ℕ) × ((read_edges draw pairs).1 ≡ suc last_one)
      × ((u v w : ℕ) → Among (read_edges draw pairs).0 u v w ↔ Drawn draw 0 pairs u v w)
      × ((u v w : ℕ) → Drawn draw 0 pairs u v w → (u ≤ last_one) × (v ≤ last_one))
      × ((pairs ≡ []) × (last_one ≡ 0) ⊎ ((v : ℕ) × (w : ℕ) × Drawn draw 0 pairs last_one v w))
read_edges-Drawn draw pairs =
    let (last_one, count, undirected) = read_edges-IsUndirected draw pairs in
    let held = Among-read_edges draw pairs in
    (
      last_one,
      count,
      held,
      λ u v w h.
          let a = (held u v w).1 h in
          (undirected.bounded u v w a, undirected.bounded v u w (undirected.both_ways u v w a)),
      elim undirected.attained [
        | inl (none_read, zero_last) ↦ inl (no_pairs draw pairs none_read, zero_last)
        | inr (v, w, a) ↦ inr (v, w, (held last_one v w).0 a)
      ],
    )
