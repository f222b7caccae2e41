-- ===== src/Suitor/Sequential/Second.antt =====
-- source/sequential_suitor.cpp: `procedure2`, which finds a second matching in `suitor2` and `ws2`
-- beside the one in `suitor`.
pub mod Beside
use cpp_suitor_and_local_dom.Base.{
  ℕ, zero, suc, Bool, true, not, ◌&&◌, Option, none, some, ltb, ◌==◌, ◌>>=◌, if◌then◌else◌,
}
use cpp_suitor_and_local_dom.Graph.{Arc, Graph}
use cpp_suitor_and_local_dom.Scan.{Best, scan}
use cpp_suitor_and_local_dom.Suitor.Protocol.{Proposals, propose}
use cpp_suitor_and_local_dom.Suitor.Sequential.{SequentialSuitor, conclude, for_nodes, procedure}

module _ (g : Graph) (suitor : ℕ → ℕ) where
  -- `weight_v > ws2[*v] && suitor[*v] != current`
  abbrev pub accepts2 : Proposals → ℕ → Arc → Bool
  accepts2 s current a = ltb (s.ws a.head) a.weight && not (suitor a.head == current)

  -- One round of the `while` loop.
  unfoldable pub round2 : Proposals → ℕ → Proposals × Option ℕ
  round2 s current =
      let own : Best = record { partner = s.suitor current; heaviest = s.ws current } in
      conclude g s current (scan (accepts2 s current) own (g.arcs current))

  unfoldable pub procedure2 : ℕ → Proposals → Option Proposals
  unfolding round2
  procedure2 fuel s = for_nodes round2 fuel g.num_nodes 0 s

-- How `improved_procedure` begins, with fuel for each of the two procedures.
unfoldable pub two_matchings : ℕ → ℕ → SequentialSuitor → Option SequentialSuitor
unfolding procedure2
two_matchings fuel fuel2 m = procedure m.graph fuel m.first >>= λ s.
    procedure2 m.graph s.suitor fuel2 m.second >>= λ t.
    some (record m { first = s; second = t; optimized = true })
