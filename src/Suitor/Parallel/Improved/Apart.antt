-- ===== src/Suitor/Parallel/Improved/Apart.antt =====
-- What the two runs leave with which `improved_procedure` begins.
use cpp_suitor_and_local_dom.Base.{ℕ, ◌<◌, ◌≡◌, ◌≢◌, subst, ◌⊎◌, List}
use cpp_suitor_and_local_dom.Graph.{Graph, IsSimple}
use cpp_suitor_and_local_dom.Graph.Usable.{usable}
use cpp_suitor_and_local_dom.Suitor.Outcome.{IsMatching, IsDominant}
use cpp_suitor_and_local_dom.Suitor.Sequential.{fresh}
use cpp_suitor_and_local_dom.Suitor.Sequential.Second.Beside.{beside, beside-IsSimple, apart}
use cpp_suitor_and_local_dom.Suitor.Parallel.{start, run, IsJoined}
use cpp_suitor_and_local_dom.Suitor.Parallel.Correct.{joined-IsMatching, joined_half}
use cpp_suitor_and_local_dom.Suitor.Parallel.Instance.{create, procedure}
use cpp_suitor_and_local_dom.Suitor.Parallel.Improved.{procedure2, two_matchings}
use cpp_suitor_and_local_dom.Suitor.Parallel.Improved.Thinned.{procedure2-run}

module _ (g : Graph) (simple : IsSimple g) (threads : ℕ) (some_thread : 0 < threads)
    (order : List ℕ) (joined : IsJoined g threads (procedure g threads order (fresh g)))
    (order2 : List ℕ)
    (joined2 : let s = (procedure g threads order (fresh g)).table.suitor in
      IsJoined g threads (procedure2 g threads s order2 (fresh g))) where
  -- On a simple graph with distinct weights, on a new instance and with at least one thread, when
  -- the threads of both runs have been joined, `suitor` and `ws` are a matching, in whatever orders
  -- the threads took their steps. `suitor2` and `ws2` are a matching of the edges that are not
  -- matched in `suitor`, no such edge is heavier than what each of its ends has there, and no node
  -- has the same suitor in both.
  pub tables_apart :
      let m = two_matchings threads order order2 (create g) in
      let h = usable g (beside g m.first_table.suitor) in
      IsMatching g m.first_table
      × IsMatching h m.second_table
      × IsDominant h m.second_table
      × ((v : ℕ)
          → (m.first_table.suitor v ≢ m.second_table.suitor v)
            ⊎ (m.first_table.suitor v ≡ g.num_nodes))
  unfolding two_matchings create procedure run start
  tables_apart =
      let t = (run g threads order).table in
      let h = usable g (beside g t.suitor) in
      let found = joined-IsMatching g simple threads some_thread order joined in
      let simple2 = beside-IsSimple g simple t found in
      let (fewer, done, same) = procedure2-run g t.suitor threads order2 joined2 in
      let matched = joined-IsMatching h simple2 threads some_thread fewer done in
      let dominant =
        (joined_half h simple2 threads some_thread fewer done (run h threads fewer).table
          matched).0 in
      let matched2 = subst (IsMatching h) same matched in
      (
        found,
        matched2,
        subst (IsDominant h) same dominant,
        apart g simple t (procedure2 g threads t.suitor order2 (fresh g)).table found matched2,
      )
