-- ===== src/Suitor/Parallel/UnionFind.antt =====
-- source/parallel_suitor.cpp: `UnionFind`, which tells the cycles of the heavy matching apart.
-- Its operations are taken one at a time; the threads call `unify` under the locks of both roots.
pub mod Forest
pub mod Correct
use cpp_suitor_and_local_dom.Base.{
  ℕ, zero, suc, ◌-◌, Option, none, some, ◌>>=◌, ltb, ◌==◌, if◌then◌else◌, update,
}

-- `union_find[a]` is `null` at a root.
pub record UnionFind : Type 0 where
  pub null : ℕ
  pub num_nodes : ℕ
  pub union_find : ℕ → ℕ
  pub ranks : ℕ → ℕ

-- The constructor, for a graph whose `null_node()` is `nodes`.
unfoldable pub separate : ℕ → UnionFind
separate nodes = record { null = nodes; num_nodes = nodes; union_find = λ _. nodes; ranks = λ _. 1 }

abbrev pub parent_of : UnionFind → ℕ → ℕ
parent_of f a = f.union_find a

-- `unify`, on two roots.
unfoldable pub unify : UnionFind → ℕ → ℕ → UnionFind
unify f root1 root2 =
    if root1 == root2
    then f
    else if ltb (f.ranks root1) (f.ranks root2)
    then record f {
      union_find = update f.union_find root1 root2;
      ranks =
          if f.ranks root1 == f.ranks root2
          then update f.ranks root2 (suc (f.ranks root2))
          else f.ranks;
      num_nodes = f.num_nodes - 1;
    }
    else record f {
      union_find = update f.union_find root2 root1;
      ranks =
          if f.ranks root1 == f.ranks root2
          then update f.ranks root1 (suc (f.ranks root1))
          else f.ranks;
      num_nodes = f.num_nodes - 1;
    }

-- The first loop of `find_representative`, on fuel: up to a root.
unfoldable pub climb : ℕ → ℕ → (ℕ → ℕ) → ℕ → Option ℕ
climb zero null parent root = none
climb (suc fuel) null parent root =
    let above = climb fuel null parent (parent root) in
    if parent root == null then some root else above

-- The second loop: the nodes on the way are hung below the root.
unfoldable pub compress : ℕ → (ℕ → ℕ) → ℕ → ℕ → Option (ℕ → ℕ)
compress zero parent a root = none
compress (suc fuel) parent a root =
    let above = compress fuel (update parent a root) (parent a) root in
    if a == root then some parent else above

-- `find_representative`
unfoldable pub find_representative : ℕ → UnionFind → ℕ → Option (ℕ × UnionFind)
unfolding climb compress
find_representative fuel f a = climb fuel f.null f.union_find a >>= λ root.
    compress fuel f.union_find a root >>= λ parent. some (root, record f { union_find = parent })
