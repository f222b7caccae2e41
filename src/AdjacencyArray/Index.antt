-- ===== src/AdjacencyArray/Index.antt =====
-- What the constructor's loop leaves in `edges_`, `weights_` and `index_`.
use cpp_suitor_and_local_dom.Base.{
  ℕ, zero, suc, ◌+◌, ◌-◌, ◌≤◌, ◌<◌, ◌≡◌, refl, ◌⊎◌, inl, inr, [], ◌∷◌, arith, update, dec_le,
}
use cpp_suitor_and_local_dom.EdgeList.{Edge, EdgeList, Among}
use cpp_suitor_and_local_dom.EdgeList.Sort.{FromAtLeast, FromAtLeast-mono, IsSorted}
use cpp_suitor_and_local_dom.AdjacencyArray.{Building, fill, place, build}
use cpp_suitor_and_local_dom.AdjacencyArray.Slices.{below, below-eq-zero, Stored}

fill_out :
    (n lo at : ℕ) (index : ℕ → ℕ) (j : ℕ) → (j < lo) ⊎ (lo + n ≤ j) → fill n lo at index j ≡ index j
unfolding fill
fill_out zero lo at index j h = refl
fill_out (suc n) lo at index j h = ground (arith, fill_out n (suc lo) at (update index lo at) j)

fill_in : (n lo at : ℕ) (index : ℕ → ℕ) (j : ℕ) → lo ≤ j → j < lo + n → fill n lo at index j ≡ at
unfolding fill
fill_in zero lo at index j ge lt = absurd (omega arith)
fill_in (suc n) lo at index j ge lt = ground (
  arith,
  fill_in n (suc lo) at (update index lo at) j,
  fill_out n (suc lo) at (update index lo at) j,
)

-- One edge of the sorted list.
module _ (b : Building) (at : ℕ) (e : Edge) where
  place-arrays :
      (j : ℕ)
      → ((place b at e).edges j ≡ update b.edges at e.to j)
        × ((place b at e).weights j ≡ update b.weights at e.length j)
  unfolding place
  place-arrays j = ground arith

  place-current : (place b at e).current ≡ e.from
  unfolding place
  place-current = ground arith

  place-index_old :
      b.current ≤ e.from → (j : ℕ) → j ≤ b.current → (place b at e).index j ≡ b.index j
  unfolding place
  place-index_old le j old =
      ground (arith, fill_out (e.from - b.current) (suc b.current) at b.index j)

  place-index_new : (j : ℕ) → b.current < j → j ≤ e.from → (place b at e).index j ≡ at
  unfolding place
  place-index_new j new le =
      ground (arith, fill_in (e.from - b.current) (suc b.current) at b.index j)

-- Positions before `at` are not written.
build-frozen :
    (es : EdgeList) (b : Building) (at j : ℕ)
    → j < at
    → ((build b at es).edges j ≡ b.edges j) × ((build b at es).weights j ≡ b.weights j)
unfolding build
build-frozen [] b at j lt = (refl, refl)
build-frozen (e ∷ es) b at j lt =
    ground (arith, build-frozen es (place b at e) (suc at) j, place-arrays b at e j)

pub build-Stored :
    (es : EdgeList) (b : Building) (at : ℕ)
    → Stored (build b at es).edges (build b at es).weights at es
unfolding build
build-Stored [] b at = tt
build-Stored (e ∷ es) b at =
    let (kept, kept_w) = build-frozen es (place b at e) (suc at) at (omega arith) in
    (
      ground (arith, kept, place-arrays b at e at),
      ground (arith, kept_w, place-arrays b at e at),
      build-Stored es (place b at e) (suc at),
    )

pub build-index_old :
    (es : EdgeList) (b : Building) (at j : ℕ)
    → FromAtLeast b.current es
    → IsSorted es
    → j ≤ b.current
    → (build b at es).index j ≡ b.index j
unfolding build
build-index_old [] b at j ge so le = refl
build-index_old (e ∷ es) b at j (h, hs) (ge, so) le = ground (
  arith,
  build-index_old es (place b at e) (suc at) j (rw (place-current b at e) ge) so,
  place-current b at e,
  place-index_old b at e h j le,
)

-- Once the loop has come to a node, `index_` counts the edges of the nodes below it.
pub build-index_new :
    (es : EdgeList) (b : Building) (at j : ℕ)
    → FromAtLeast b.current es
    → IsSorted es
    → b.current < j
    → j ≤ (build b at es).current
    → (build b at es).index j ≡ at + below j es
unfolding build
build-index_new [] b at j ge so new le = absurd (omega arith)
build-index_new (e ∷ es) b at j (h, hs) (ge, so) new le = elim (dec_le j e.from) [
  | yes here ↦ ground (
    arith,
    build-index_old es (place b at e) (suc at) j (rw (place-current b at e) ge) so,
    place-current b at e,
    place-index_new b at e j new here,
    below-eq-zero j es (FromAtLeast-mono j e.from es here ge),
  )
  | no later ↦ ground (
    arith,
    build-index_new es (place b at e) (suc at) j (rw (place-current b at e) ge) so,
    place-current b at e,
  )
]

-- The loop comes to every node that an edge starts at.
build-current_mono :
    (es : EdgeList) (b : Building) (at : ℕ)
    → FromAtLeast b.current es
    → IsSorted es
    → b.current ≤ (build b at es).current
unfolding build
build-current_mono [] b at ge so = omega arith
build-current_mono (e ∷ es) b at (h, hs) (ge, so) = ground (
  arith,
  build-current_mono es (place b at e) (suc at) (rw (place-current b at e) ge) so,
  place-current b at e,
)

pub build-current :
    (es : EdgeList) (b : Building) (at u v w : ℕ)
    → FromAtLeast b.current es
    → IsSorted es
    → Among es u v w
    → u ≤ (build b at es).current
unfolding build
build-current [] b at u v w ge so a = absurd a
build-current (e ∷ es) b at u v w (h, hs) (ge, so) (inl (e_u, _, _)) = ground (
  arith,
  build-current_mono es (place b at e) (suc at) (rw (place-current b at e) ge) so,
  place-current b at e,
)
build-current (e ∷ es) b at u v w (h, hs) (ge, so) (inr a) =
    build-current es (place b at e) (suc at) u v w (rw (place-current b at e) ge) so a
