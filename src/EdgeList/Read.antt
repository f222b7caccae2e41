-- ===== src/EdgeList/Read.antt =====
-- What `readEdges` returns: an undirected list over nodes below its second result, which is one
-- more than an index that occurs.
use cpp_suitor_and_local_dom.Base.{
  ℕ, suc, ◌≤◌, ◌≡◌, refl, ◌⊎◌, inl, inr, ◌↔◌, List, [], ◌∷◌, ◌++◌, arith,
}
use cpp_suitor_and_local_dom.EdgeList.{EdgeList, Among, Reading, read_pair, read_pairs, read_edges}

pub Among-append :
    (es bs : EdgeList) (u v w : ℕ) → Among (es ++ bs) u v w ↔ (Among es u v w ⊎ Among bs u v w)
Among-append [] bs u v w = (λ h. inr h, λ h. elim h [ inl a ↦ absurd a | inr b ↦ b ])
Among-append (e ∷ es) bs u v w = ground (arith, Among-append es bs u v w)

pub record IsUndirected (es : EdgeList) (last_one : ℕ) : Type 0 where
  pub bounded : (u v w : ℕ) → Among es u v w → u ≤ last_one
  pub both_ways : (u v w : ℕ) → Among es u v w → Among es v u w
  pub attained : (es ≡ []) × (last_one ≡ 0) ⊎ ((v : ℕ) × (w : ℕ) × Among es last_one v w)

module _ (r : Reading) (from to length : ℕ) where
  -- An edge after a pair of numbers is an old edge, or the new one in one of its directions.
  pub Among-read_pair :
      (u v w : ℕ)
      → Among (read_pair r from to length).edges u v w ↔ (
          Among r.edges u v w
          ⊎ (u ≡ from) × (v ≡ to) × (w ≡ length)
          ⊎ (u ≡ to) × (v ≡ from) × (w ≡ length))
  unfolding read_pair
  Among-read_pair u v w = ground (
    arith,
    Among-append r.edges
        (record { from = from; to = to; length = length }
          ∷ record { from = to; to = from; length = length }
          ∷ [])
        u v w,
  )

  last_one-read_pair :
      (r.last_one ≤ (read_pair r from to length).last_one)
      × (from ≤ (read_pair r from to length).last_one)
      × (to ≤ (read_pair r from to length).last_one)
      × (((read_pair r from to length).last_one ≡ r.last_one)
          ⊎ ((read_pair r from to length).last_one ≡ from)
          ⊎ ((read_pair r from to length).last_one ≡ to))
  unfolding read_pair
  last_one-read_pair = ground arith

  read_pair-attained :
      (r.edges ≡ []) × (r.last_one ≡ 0) ⊎ ((v : ℕ) × (w : ℕ) × Among r.edges r.last_one v w)
      → (v : ℕ) × (w : ℕ) × Among
          (read_pair r from to length).edges
          (read_pair r from to length).last_one
          v
          w
  read_pair-attained h = elim last_one-read_pair.3 [
    | inr (inl e) ↦ (to, length, ground (arith, Among-read_pair from to length))
    | inr (inr e) ↦ (from, length, ground (arith, Among-read_pair to from length))
    | inl e ↦ elim h [
      | inl (_, zero) ↦
          (to, length, ground (arith, last_one-read_pair, Among-read_pair from to length))
      | inr (v, w, a) ↦ (v, w, ground (arith, Among-read_pair r.last_one v w))
    ]
  ]

  read_pair-IsUndirected :
      IsUndirected r.edges r.last_one
      → IsUndirected (read_pair r from to length).edges (read_pair r from to length).last_one
  read_pair-IsUndirected h = record {
    bounded = λ u v w a. ground (arith, Among-read_pair u v w, last_one-read_pair, h.bounded u v w);
    both_ways =
        λ u v w a. ground (arith, Among-read_pair u v w, Among-read_pair v u w, h.both_ways u v w);
    attained = inr (read_pair-attained h.attained);
  }

read_pairs-IsUndirected :
    (draw : ℕ → ℕ) (pairs : List (ℕ × ℕ)) (k : ℕ) (r : Reading)
    → IsUndirected r.edges r.last_one
    → IsUndirected (read_pairs draw k r pairs).edges (read_pairs draw k r pairs).last_one
unfolding read_pairs
read_pairs-IsUndirected draw [] k r h = h
read_pairs-IsUndirected draw ((from, to) ∷ rest) k r h =
    read_pairs-IsUndirected draw rest (suc k) (read_pair r from to (draw k))
      (read_pair-IsUndirected r from to (draw k) h)

-- Whatever pairs the file holds and whatever weights are drawn, `readEdges` returns with each edge
-- its reverse of the same weight, all indices are below the number of nodes that it returns, and the
-- index one less than that number has an edge, unless the file has no pair: then it returns 1.
pub read_edges-IsUndirected :
    (draw : ℕ → ℕ) (pairs : List (ℕ × ℕ))
    → (last_one : ℕ) × ((read_edges draw pairs).1 ≡ suc last_one)
      × IsUndirected (read_edges draw pairs).0 last_one
unfolding read_edges
read_edges-IsUndirected draw pairs = (
  _,
  refl,
  read_pairs-IsUndirected draw pairs 0 (record { edges = []; last_one = 0 })
      (record {
        bounded = λ u v w a. absurd a;
        both_ways = λ u v w a. absurd a;
        attained = inl (refl, refl);
      }),
)
