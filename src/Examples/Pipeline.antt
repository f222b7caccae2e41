-- ===== src/Examples/Pipeline.antt =====
-- From the pairs of a small file to a matching.
use cpp_suitor_and_local_dom.Base.{
  ℕ, zero, suc, ◌≡◌, refl, ◌⊎◌, ◌↔◌, true, List, [], ◌∷◌, some, arith, ℕ_discrete,
}
use cpp_suitor_and_local_dom.EdgeList.{Edge, Among, read_edges, read_pairs, read_pair}
use cpp_suitor_and_local_dom.EdgeList.Weighted.{read_weighted, read_weighted-Among}
use cpp_suitor_and_local_dom.EdgeList.Sort.{sort, insert}
use cpp_suitor_and_local_dom.EdgeList.Drawn.{Drawn, NoLoops}
use cpp_suitor_and_local_dom.AdjacencyArray.{construct, build, place, fill, begin_edges, end_edges}
use cpp_suitor_and_local_dom.AdjacencyArray2.{construct2, write_heads}
use cpp_suitor_and_local_dom.Split.{created, first, last}
use cpp_suitor_and_local_dom.Suitor.Outcome.{IsMatching}
use cpp_suitor_and_local_dom.Suitor.Sequential.{
  SequentialSuitor, create, simple_procedure, test_matching,
}
use cpp_suitor_and_local_dom.Suitor.Sequential.Loop.{enough}
use cpp_suitor_and_local_dom.Suitor.LockFree.{run, turn, step, look, start, IsJoined}
use cpp_suitor_and_local_dom.Suitor.LockFree.Table.{table}
use cpp_suitor_and_local_dom.Pipeline.{
  array_of_file, graph_of_file, suitor_of_file, lock_free_of_file,
}

abbrev file : List (ℕ × ℕ)
file = (0, 1) ∷ (1, 2) ∷ []

file-NoLoops : NoLoops file
file-NoLoops = ((λ e. absurd (omega (arith, e))), ((λ e. absurd (omega (arith, e))), _))

suitor_of_file_example :
    (m : SequentialSuitor) × (simple_procedure
        (enough (graph_of_file suc file))
        (create (graph_of_file suc file))
      ≡ some m)
    × (test_matching m ≡ true)
    × IsMatching (graph_of_file suc file) m.first
    × ((v : ℕ)
        → (m.first.suitor v ≡ (read_edges suc file).1)
          ⊎ Drawn suc 0 file v (m.first.suitor v) (m.first.ws v))
suitor_of_file_example =
    suitor_of_file suc (λ i j e. omega (arith, e)) 0 1 ((1, 2) ∷ []) file-NoLoops

abbrev repeat : ℕ → ℕ → List ℕ → List ℕ
repeat zero i rest = rest
repeat (suc n) i rest = i ∷ repeat n i rest

abbrev order : List ℕ
order = repeat 5 0 (repeat 30 1 (repeat 30 0 []))

file-IsJoined : IsJoined (array_of_file suc file) 2 (run (array_of_file suc file) 2 order)
unfolding created run turn step look start first last ℕ_discrete construct2 construct sort insert
    build place fill write_heads begin_edges end_edges read_edges read_pairs read_pair
file-IsJoined zero lt = refl
file-IsJoined (suc zero) lt = refl
file-IsJoined (suc (suc i)) lt = absurd (omega arith)

lock_free_of_file_example :
    IsMatching
      (graph_of_file suc file)
      (table (array_of_file suc file) (run (array_of_file suc file) 2 order).suitor)
lock_free_of_file_example =
    lock_free_of_file suc (λ i j e. omega (arith, e)) 0 1 ((1, 2) ∷ []) file-NoLoops 2 (omega arith)
      order file-IsJoined

abbrev lines : List Edge
lines = record { from = 2; to = 0; length = 7 } ∷ record { from = 0; to = 1; length = 9 } ∷ []

read_weighted-Among_example :
    ((read_weighted 3 lines).1 ≡ 3)
    × (Among (read_weighted 3 lines).0 0 2 7 ↔ (Among lines 0 2 7 ⊎ Among lines 2 0 7))
read_weighted-Among_example = read_weighted-Among 3 lines 0 2 7
