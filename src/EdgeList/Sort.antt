-- ===== src/EdgeList/Sort.antt =====
-- `std::sort` of an edge list by `operator <`, as insertion sort.
use cpp_suitor_and_local_dom.Base.{ℕ, ◌≤◌, ◌↔◌, [], ◌∷◌, arith, if◌then◌else◌}
use cpp_suitor_and_local_dom.EdgeList.{Edge, EdgeList, less, Among}

unfoldable pub insert : Edge → EdgeList → EdgeList
insert e [] = e ∷ []
insert e (x ∷ xs) = if less x e then x ∷ insert e xs else e ∷ x ∷ xs

unfoldable pub sort : EdgeList → EdgeList
unfolding insert
sort [] = []
sort (e ∷ es) = insert e (sort es)

abbrev pub FromAtLeast : ℕ → EdgeList → Type 0
FromAtLeast n [] = Unit
FromAtLeast n (e ∷ es) = (n ≤ e.from) × FromAtLeast n es

-- In the order of `from`.
abbrev pub IsSorted : EdgeList → Type 0
IsSorted [] = Unit
IsSorted (e ∷ es) = FromAtLeast e.from es × IsSorted es

pub FromAtLeast-mono : (m n : ℕ) (es : EdgeList) → m ≤ n → FromAtLeast n es → FromAtLeast m es
FromAtLeast-mono m n [] le h = tt
FromAtLeast-mono m n (e ∷ es) le (h, hs) = (omega arith, FromAtLeast-mono m n es le hs)

insert-FromAtLeast :
    (n : ℕ) (e : Edge) (es : EdgeList) → n ≤ e.from → FromAtLeast n es → FromAtLeast n (insert e es)
unfolding insert
insert-FromAtLeast n e [] le h = (le, tt)
insert-FromAtLeast n e (x ∷ xs) le (h, hs) = ground (arith, insert-FromAtLeast n e xs le hs)

insert-IsSorted : (e : Edge) (es : EdgeList) → IsSorted es → IsSorted (insert e es)
unfolding insert
insert-IsSorted e [] h = (tt, tt)
insert-IsSorted e (x ∷ xs) (h, hs) = ground (
  arith,
  insert-IsSorted e xs hs,
  insert-FromAtLeast x.from e xs,
  FromAtLeast-mono e.from x.from xs,
)

pub sort-IsSorted : (es : EdgeList) → IsSorted (sort es)
unfolding sort
sort-IsSorted [] = tt
sort-IsSorted (e ∷ es) = insert-IsSorted e (sort es) (sort-IsSorted es)

insert-Among :
    (e : Edge) (es : EdgeList) (u v w : ℕ) → Among (insert e es) u v w ↔ Among (e ∷ es) u v w
unfolding insert
insert-Among e [] u v w = (λ h. h, λ h. h)
insert-Among e (x ∷ xs) u v w = ground (arith, insert-Among e xs u v w)

-- Sorting neither adds nor drops an edge.
pub sort-Among : (es : EdgeList) (u v w : ℕ) → Among (sort es) u v w ↔ Among es u v w
unfolding sort
sort-Among [] u v w = (λ h. h, λ h. h)
sort-Among (e ∷ es) u v w = ground (arith, insert-Among e (sort es) u v w, sort-Among es u v w)
