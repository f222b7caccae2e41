-- ===== src/Graph/Free.antt =====
-- The edges that are left beside a matching: those between nodes that have no mate in it.
use cpp_suitor_and_local_dom.Base.{ℕ, Bool, ◌&&◌, ◌==◌, arith}
use cpp_suitor_and_local_dom.Graph.{Graph, IsSimple}
use cpp_suitor_and_local_dom.Graph.Usable.{usable, usable-IsSimple}

-- `suitor3[*v] == G.null_node() && suitor3[G.nodeId(current)] == G.null_node()`
abbrev pub both_free : ℕ → (ℕ → ℕ) → ℕ → ℕ → Bool
both_free null mate current v = (mate v == null) && (mate current == null)

abbrev pub rest_of : Graph → (ℕ → ℕ) → Graph
rest_of g mate = usable g (both_free g.num_nodes mate)

pub rest_of-IsSimple : (g : Graph) (mate : ℕ → ℕ) → IsSimple g → IsSimple (rest_of g mate)
rest_of-IsSimple g mate simple =
    usable-IsSimple g (both_free g.num_nodes mate) simple λ u v w e may. ground (arith, may)
