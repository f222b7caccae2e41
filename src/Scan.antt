-- ===== src/Scan.antt =====
-- The inner loop that every algorithm runs over the arcs of one node,
-- `for (EdgeIterator v = G.beginEdges(current); v != G.endEdges(current); ++v)`: it keeps the
-- heaviest arc that passes the algorithm's own test.
use cpp_suitor_and_local_dom.Base.{
  ℕ, ◌≤◌, ◌<◌, ◌≡◌, refl, ◌⊎◌, inl, Bool, true, false, ◌&&◌, List, [], ◌∷◌, arith, ltb,
  if◌then◌else◌,
}
use cpp_suitor_and_local_dom.Graph.{Arc, Has}

-- `partner` and `heaviest`; in the dominant algorithms `max_wt_id` and `max_wt`.
pub record Best : Type 0 where
  pub partner : ℕ
  pub heaviest : ℕ

-- The body of the loop.
unfoldable pub consider : (Arc → Bool) → Best → Arc → Best
consider accepts b a =
    if ltb b.heaviest a.weight && accepts a
    then record { partner = a.head; heaviest = a.weight }
    else b

unfoldable pub scan : (Arc → Bool) → Best → List Arc → Best
unfolding consider
scan accepts b [] = b
scan accepts b (a ∷ rest) = scan accepts (consider accepts b a) rest

abbrev pub arc : ℕ → ℕ → Arc
arc v w = record { head = v; weight = w }

-- What the loop finds from `b`: `b` itself or a heavier arc that passes, and every arc that is
-- heavier fails the test.
pub record Finds (accepts : Arc → Bool) (b : Best) (rest : List Arc) (found : Best) : Type 0 where
  pub origin :
      (found ≡ b)
      ⊎ Has rest found.partner found.heaviest
        × (accepts (arc found.partner found.heaviest) ≡ true)
        × (b.heaviest < found.heaviest)
  pub rest_refused : (v w : ℕ) → Has rest v w → (w ≤ found.heaviest) ⊎ (accepts (arc v w) ≡ false)

Finds-consider :
    (accepts : Arc → Bool) (b : Best) (a : Arc) (rest : List Arc) (found : Best)
    → Finds accepts (consider accepts b a) rest found
    → Finds accepts b (a ∷ rest) found
unfolding consider
Finds-consider accepts b a rest found f = record {
  origin = ground (arith, f.origin);
  rest_refused = λ v w h. ground (arith, f.origin, f.rest_refused v w);
}

pub scan-Finds :
    (accepts : Arc → Bool) (b : Best) (rest : List Arc) → Finds accepts b rest (scan accepts b rest)
unfolding scan
scan-Finds accepts b [] = record { origin = inl refl; rest_refused = λ v w h. absurd h }
scan-Finds accepts b (a ∷ rest) =
    Finds-consider accepts b a rest _ (scan-Finds accepts (consider accepts b a) rest)
