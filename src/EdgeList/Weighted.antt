-- ===== src/EdgeList/Weighted.antt =====
-- external/edge_list.hpp: `readEdges` of a file that starts with the number of nodes and gives each
-- edge with its weight. The stream is that number and the lines.
use cpp_suitor_and_local_dom.Base.{ℕ, ◌≡◌, refl, ◌↔◌, ◌⊎◌, inl, inr, List, [], ◌∷◌, ◌++◌, arith}
use cpp_suitor_and_local_dom.EdgeList.{Edge, EdgeList, Among}
use cpp_suitor_and_local_dom.EdgeList.Read.{Among-append}

-- The loop: each edge is stored in both directions.
unfoldable pub read_lines : EdgeList → List Edge → EdgeList
read_lines edges [] = edges
read_lines edges (line ∷ rest) =
    read_lines
      (edges ++ (line ∷ record { from = line.to; to = line.from; length = line.length } ∷ [])) rest

unfoldable pub read_weighted : ℕ → List Edge → EdgeList × ℕ
unfolding read_lines
read_weighted num_nodes lines = (read_lines [] lines, num_nodes)

Among-read_lines :
    (edges : EdgeList) (lines : List Edge) (u v w : ℕ)
    → Among (read_lines edges lines) u v w
      ↔ (Among edges u v w ⊎ Among lines u v w ⊎ Among lines v u w)
unfolding read_lines
Among-read_lines edges [] u v w = (λ h. inl h, λ h. ground arith)
Among-read_lines edges (line ∷ rest) u v w =
    let both : EdgeList =
      line ∷ record { from = line.to; to = line.from; length = line.length } ∷ [] in
    let (out, into) = Among-read_lines (edges ++ both) rest u v w in
    let (out₁, into₁) = Among-append edges both u v w in
    (λ h. ground (arith, out h, out₁), λ h. ground (arith, into, into₁))

-- The list holds the edges of the lines in both directions and no others, and is returned with
-- the number that the file starts with.
pub read_weighted-Among :
    (num_nodes : ℕ) (lines : List Edge) (u v w : ℕ)
    → ((read_weighted num_nodes lines).1 ≡ num_nodes)
      × (Among (read_weighted num_nodes lines).0 u v w ↔ (Among lines u v w ⊎ Among lines v u w))
unfolding read_weighted
read_weighted-Among num_nodes lines u v w =
    let (out, into) = Among-read_lines [] lines u v w in
    (refl, (λ h. ground (arith, out h), λ h. into (inr h)))
