-- ===== src/Suitor/LockFree/Table.antt =====
-- The proposals that an array of edge positions stands for.
use mathlib.Core.Path.{fun_ext}
use cpp_suitor_and_local_dom.Base.{ℕ, ◌≡◌, arith, update}
use cpp_suitor_and_local_dom.Suitor.Protocol.{Proposals, propose}
use cpp_suitor_and_local_dom.AdjacencyArray2.{AdjacencyArray2, null_edge, weight, edge_head}

abbrev pub table : AdjacencyArray2 → (ℕ → ℕ) → Proposals
table a suitor = record { suitor = λ v. edge_head a (suitor v); ws = λ v. weight a (suitor v) }

Proposals_path :
    (f f' g g' : ℕ → ℕ)
    → f ≡ f'
    → g ≡ g'
    → ◌≡◌ {A = Proposals} (record { suitor = f; ws = g }) (record { suitor = f'; ws = g' })
Proposals_path f f' g g' p q = λ i. record { suitor = p i; ws = q i }

-- An exchange that succeeds is a proposal along the edge `e`.
pub table-update :
    (a : AdjacencyArray2) (suitor : ℕ → ℕ) (y e : ℕ)
    → table a (update suitor y e) ≡ propose (table a suitor) (edge_head a e) y (weight a e)
table-update a suitor y e =
    Proposals_path _ _ _ _ (fun_ext (λ v. ground arith)) (fun_ext (λ v. ground arith))

-- The constructor's array of `null_edge()`s stands for the empty table.
pub table-fresh :
    (a : AdjacencyArray2)
    → table a (λ _. null_edge a) ≡ record { suitor = λ _. a.base.num_nodes; ws = λ _. 0 }
table-fresh a = Proposals_path _ _ _ _ (fun_ext (λ v. ground arith)) (fun_ext (λ v. ground arith))
