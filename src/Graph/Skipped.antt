-- ===== src/Graph/Skipped.antt =====
-- The loop over the arcs of a node that may skip some.
use cpp_suitor_and_local_dom.Base.{
  ℕ, ◌≡◌, refl, sym, ap, ◌∙◌, inl, inr, Bool, true, false, ◌&&◌, List, [], ◌∷◌, arith, Bool-cases,
}
use cpp_suitor_and_local_dom.Graph.{Arc}
use cpp_suitor_and_local_dom.Graph.Usable.{keep}
use cpp_suitor_and_local_dom.Scan.{Best, consider, scan}

-- A scan that skips arcs is one over the others.
pub scan-keep :
    (test : Arc → Bool) (may : ℕ → Bool) (b : Best) (l : List Arc)
    → scan (λ a. test a && may a.head) b l ≡ scan test b (keep may l)
unfolding scan consider keep
scan-keep test may b [] = refl
scan-keep test may b (a ∷ rest) = elim (Bool-cases (may a.head)) [
  | inl kept ↦
      ap (λ c. scan both c rest) (passes kept)
      ∙ scan-keep test may (consider test b a) rest
      ∙ ap (λ l. scan test b l) (sym (stays kept))
  | inr skipped ↦
      ap (λ c. scan both c rest) (fails skipped)
      ∙ scan-keep test may b rest
      ∙ ap (λ l. scan test b l) (sym (goes skipped))
]
  where
    both : Arc → Bool
    both x = test x && may x.head

    passes : may a.head ≡ true → consider both b a ≡ consider test b a
    passes kept = ground (arith, kept)

    fails : may a.head ≡ false → consider both b a ≡ b
    fails skipped = ground (arith, skipped)

    stays : may a.head ≡ true → keep may (a ∷ rest) ≡ a ∷ keep may rest
    stays kept = rw kept refl

    goes : may a.head ≡ false → keep may (a ∷ rest) ≡ keep may rest
    goes skipped = rw skipped refl
