-- ===== src/Split.antt =====
-- How `procedure` of source/parallel_suitor.cpp, and `simple_procedure` of the other two parallel
-- classes, deal the nodes out to threads: thread `i` of `created` runs over [first, last).
use native.Mathlib.Bridge.{le_prop}
use native.Mathlib.Nat.{mul-le-mul, le_refl}
use std.Equiv.{IsContr}
use std.HLevel.{Σ_prop_path}
use cpp_suitor_and_local_dom.Base.{
  ℕ, ◌+◌, ◌-◌, ◌*◌, ◌/◌, ◌≤◌, ◌<◌, ◌≡◌, arith, ◌==◌, if◌then◌else◌, dec_lt,
}

-- `size_t nodes_per_thread = numNodes / num_threads;`
abbrev pub per_thread : ℕ → ℕ → ℕ
per_thread threads nodes = nodes / threads

unfoldable pub created : ℕ → ℕ → ℕ
created threads nodes = if per_thread threads nodes == 0 then nodes else threads

unfoldable pub first : ℕ → ℕ → ℕ → ℕ
first threads nodes i = if per_thread threads nodes == 0 then i else i * per_thread threads nodes

unfoldable pub last : ℕ → ℕ → ℕ → ℕ
last threads nodes i =
    if per_thread threads nodes == 0
    then i + 1
    else if i == threads - 1
    then nodes
    else (i + 1) * per_thread threads nodes

module _ (threads nodes : ℕ) (some_thread : 0 < threads) where
  scaled : (a b : ℕ) → a ≤ b → a * per_thread threads nodes ≤ b * per_thread threads nodes
  scaled a b h = mul-le-mul h (le_refl (per_thread threads nodes))

  pub last-le : (i : ℕ) → i < created threads nodes → last threads nodes i ≤ nodes
  unfolding created last
  last-le i lt = ground (arith, scaled (i + 1) threads)

  pub first-le-last :
      (i : ℕ) → i < created threads nodes → first threads nodes i ≤ last threads nodes i
  unfolding created first last
  first-le-last i lt = ground (arith, scaled i (i + 1), scaled i threads)

  -- The ranges stand in the order of the threads.
  last-le-first :
      (i j : ℕ) → i < j → j < created threads nodes → last threads nodes i ≤ first threads nodes j
  unfolding created first last
  last-le-first i j lt lj = ground (arith, scaled (i + 1) j)

  -- Each node is in the range of a thread.
  pub range_of :
      (q : ℕ)
      → q < nodes
      → (i : ℕ) × (i < created threads nodes)
        × (first threads nodes i ≤ q)
        × (q < last threads nodes i)
  unfolding created first last
  range_of q lt = elim (dec_lt 0 (nodes / threads)) [
    | no few ↦ (q, ground arith, ground arith, ground arith)
    | yes many ↦ elim (dec_lt (q / (nodes / threads)) (threads - 1)) [
      | yes early ↦ (q / (nodes / threads), ground arith, ground arith, ground arith)
      | no late ↦ (
        threads - 1,
        ground arith,
        ground (arith, scaled (threads - 1) (q / (nodes / threads))),
        ground arith,
      )
    ]
  ]

  -- And of no other.
  pub range_unique :
      (i j q : ℕ)
      → i < created threads nodes
      → j < created threads nodes
      → first threads nodes i ≤ q
      → q < last threads nodes i
      → first threads nodes j ≤ q
      → q < last threads nodes j
      → i ≡ j
  range_unique i j q li lj fi ti fj tj = ground (arith, last-le-first i j, last-le-first j i)

  -- Thread `i` is created, and the node `q` is in its range.
  abbrev pub Deals : ℕ → ℕ → Type 0
  Deals q i = (i < created threads nodes) × (first threads nodes i ≤ q) × (q < last threads nodes i)

  -- With at least one thread, every node is in the range of one thread and no other.
  pub dealt_once : (q : ℕ) → q < nodes → IsContr ((i : ℕ) × Deals q i)
  dealt_once q lt =
      let (i, li, fi, ti) = range_of q lt in
      (
        (i, (li, fi, ti)),
        λ (j, (lj, fj, tj)).
            Σ_prop_path (λ k. hlevel (le_prop)) (range_unique j i q lj li fj tj fi ti),
      )
