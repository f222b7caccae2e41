-- ===== src/ParallelDominant/Ending.antt =====
-- Both sections of phase 1 end, and leave what they are for: a thread is done after as many turns as
-- its range has nodes.
use cpp_suitor_and_local_dom.Base.{
  ℕ, suc, ◌+◌, ◌≤◌, ◌<◌, not, ◌&&◌, List, [], ◌∷◌, ◌==◌, if◌then◌else◌,
}
use cpp_suitor_and_local_dom.Graph.{Graph}
use cpp_suitor_and_local_dom.Split.{created, first, last}

-- How often the thread `i` has its turn.
unfoldable pub turns_of : ℕ → List ℕ → ℕ
turns_of i [] = 0
turns_of i (j ∷ order) = let later = turns_of i order in if j == i then suc later else later

-- Every thread has a turn for each node of its range.
abbrev pub IsEnough : ℕ → ℕ → List ℕ → Type 0
IsEnough threads nodes order =
    (i : ℕ)
    → i < created threads nodes
    → last threads nodes i ≤ first threads nodes i + turns_of i order

module _ (threads nodes : ℕ) where
  -- Where the thread `i`, at `u`, is after a turn of the thread `j`.
  abbrev moved : ℕ → ℕ → ℕ → ℕ
  moved j i u = if (j == i) && not (u == last threads nodes i) then suc u else u

module _ (g : Graph) (threads : ℕ) (some_thread : 0 < threads) where
  abbrev nodes : ℕ
  nodes = g.num_nodes
