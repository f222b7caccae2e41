-- ===== src/EdgeList.antt =====
-- implementation/edge_list2.hpp: an edge list, and how it is read. The stream gives the pairs of
-- numbers of the file, and `draw k` is the k-th weight from the random source.
pub mod Sort
pub mod Read
pub mod Drawn
pub mod Weighted
use cpp_suitor_and_local_dom.Base.{
  ℕ, suc, ◌≤◌, ◌≡◌, ◌⊎◌, Bool, true, false, List, [], ◌∷◌, ◌++◌, ltb, if◌then◌else◌,
}

pub record Edge : Type 0 where
  pub from : ℕ
  pub to : ℕ
  pub length : ℕ

abbrev pub EdgeList : Type 0
EdgeList = List Edge

-- `operator <`
abbrev pub less : Edge → Edge → Bool
less this that =
    if ltb this.from that.from
    then true
    else if ltb that.from this.from
    then false
    else ltb this.to that.to

-- There is an edge from `u` to `v` of length `w` in the list.
abbrev pub Among : EdgeList → ℕ → ℕ → ℕ → Type 0
Among [] u v w = ⊥
Among (e ∷ es) u v w = (u ≡ e.from) × (v ≡ e.to) × (w ≡ e.length) ⊎ Among es u v w

-- The variables of `readEdges`: the list so far, and `last_one`.
pub record Reading : Type 0 where
  pub edges : EdgeList
  pub last_one : ℕ

-- One pair of numbers: the edge is stored in both directions.
unfoldable pub read_pair : Reading → ℕ → ℕ → ℕ → Reading
read_pair r from to length = record {
  edges =
      r.edges
      ++ (record { from = from; to = to; length = length }
          ∷ record { from = to; to = from; length = length }
          ∷ []);
  last_one =
      if ltb to from
      then (if ltb r.last_one from then from else r.last_one)
      else if ltb r.last_one to
      then to
      else r.last_one;
}

unfoldable pub read_pairs : (ℕ → ℕ) → ℕ → Reading → List (ℕ × ℕ) → Reading
unfolding read_pair
read_pairs draw k r [] = r
read_pairs draw k r ((from, to) ∷ rest) =
    read_pairs draw (suc k) (read_pair r from to (draw k)) rest

-- `readEdges`: the edges, and one more than the highest index.
unfoldable pub read_edges : (ℕ → ℕ) → List (ℕ × ℕ) → EdgeList × ℕ
unfolding read_pairs
read_edges draw pairs =
    let r = read_pairs draw 0 (record { edges = []; last_one = 0 }) pairs in
    (r.edges, suc r.last_one)
