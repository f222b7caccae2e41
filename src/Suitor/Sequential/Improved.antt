-- ===== src/Suitor/Sequential/Improved.antt =====
-- source/sequential_suitor.cpp: `procedure3` and `improved_procedure`, which joins the matchings in
-- `suitor` and `suitor2` into `suitor3` and adds what `procedure3` finds between the nodes that are
-- left.
pub mod Rest
pub mod Copied
pub mod Run
pub mod Correct
use cpp_suitor_and_local_dom.Base.{
  ℕ, zero, suc, Bool, true, false, not, ◌&&◌, Option, some, ltb, ◌==◌, ◌>>=◌, if◌then◌else◌, update,
}
use cpp_suitor_and_local_dom.Graph.{Arc, Graph}
use cpp_suitor_and_local_dom.Graph.Free.{both_free}
use cpp_suitor_and_local_dom.Scan.{Best, scan}
use cpp_suitor_and_local_dom.Suitor.Protocol.{Proposals}
use cpp_suitor_and_local_dom.Suitor.Sequential.{SequentialSuitor, accepts, conclude, for_nodes}
use cpp_suitor_and_local_dom.Suitor.Sequential.Second.{two_matchings}
use cpp_suitor_and_local_dom.Heavy.{Twin, join_matchings}

module _ (g : Graph) (suitor3 : ℕ → ℕ) where
  abbrev pub accepts3 : Proposals → ℕ → Arc → Bool
  accepts3 s current a = accepts s a && both_free g.num_nodes suitor3 current a.head

  -- One round of the `while` loop.
  unfoldable pub round3 : Proposals → ℕ → Proposals × Option ℕ
  round3 s current =
      conclude g s current (
        scan (accepts3 s current) (record { partner = g.num_nodes; heaviest = 0 }) (g.arcs current))

  unfoldable pub procedure3 : ℕ → Proposals → Option Proposals
  unfolding round3
  procedure3 fuel s = for_nodes round3 fuel g.num_nodes 0 s

-- The last loop, over the first `k` entries of `suitor4`: `suitor3` and `processed`.
unfoldable pub copy_fourth : ℕ → (ℕ → ℕ) → ℕ → (ℕ → ℕ) × (ℕ → Bool) → (ℕ → ℕ) × (ℕ → Bool)
copy_fourth null suitor4 zero s = s
copy_fourth null suitor4 (suc k) s =
    let (suitor3, processed) = copy_fourth null suitor4 k s in
    if not (suitor4 k == null) && not (processed k)
    then (update suitor3 k (suitor4 k), update processed k true)
    else (suitor3, processed)

abbrev pub twin : (ℕ → ℕ → ℕ) → SequentialSuitor → Twin
twin plus m = record {
  null = m.graph.num_nodes;
  mate = m.first.suitor;
  mate2 = m.second.suitor;
  weight = m.first.ws;
  weight2 = m.second.ws;
  plus = plus;
}

-- With fuel for each of the three procedures; `plus` adds doubles.
unfoldable pub improved_procedure :
    (ℕ → ℕ → ℕ) → ℕ → ℕ → ℕ → SequentialSuitor → Option SequentialSuitor
unfolding two_matchings procedure3 copy_fourth
improved_procedure plus fuel fuel2 fuel3 m = two_matchings fuel fuel2 m >>= λ b.
    join_matchings (twin plus b) b.graph.num_nodes b.third >>= λ t.
    procedure3 b.graph t.suitor fuel3 b.fourth >>= λ f. some (record b {
      third = record t {
        suitor =
            (copy_fourth b.graph.num_nodes f.suitor b.graph.num_nodes (t.suitor, (λ _. false))).0;
      };
      fourth = f;
    })
