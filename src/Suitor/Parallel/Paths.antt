-- ===== src/Suitor/Parallel/Paths.antt =====
-- source/parallel_suitor.cpp: how `path_discovery` chooses the end at which it handles a path.
pub mod Ends
use cpp_suitor_and_local_dom.Base.{
  ℕ, zero, suc, Bool, true, false, not, ◌&&◌, Option, none, some, ◌>>=◌, ltb, ◌==◌, if◌then◌else◌,
}
use cpp_suitor_and_local_dom.Heavy.{Twin}

module _ (m : Twin) where
  -- The first `while` loop, with `mate_runner == 1` and `current_node`.
  unfoldable pub scout : ℕ → Bool → ℕ → Option ℕ
  scout zero mate_runner current = none
  scout (suc fuel) mate_runner current =
      let rest =
        scout fuel (not mate_runner) (if mate_runner then m.mate2 current else m.mate current) in
      if not (m.mate current == m.null) && not (m.mate2 current == m.null)
      then rest
      else some current

  -- The node at which the path from `u` ends.
  unfoldable pub far_end : ℕ → ℕ → Option ℕ
  unfolding scout
  far_end fuel u =
      if m.mate u == m.null then scout fuel false (m.mate2 u) else scout fuel true (m.mate u)

  -- `if (nodeId < current_nodeId) continue;`
  unfoldable pub is_handled_at : ℕ → ℕ → Option Bool
  unfolding far_end
  is_handled_at fuel u = far_end fuel u >>= λ v. some (not (ltb u v))
