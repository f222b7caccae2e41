-- ===== src/Suitor/Sequential/Improved/Rest.antt =====
-- `procedure3` finds a matching of the nodes that have no suitor in `suitor3`.
use cpp_suitor_and_local_dom.Base.{ℕ, ◌<◌, ◌≡◌, ap, sym, subst, ◌⊎◌, inl, inr, some, arith}
use cpp_suitor_and_local_dom.Graph.{Graph, IsSimple}
use cpp_suitor_and_local_dom.Graph.Skipped.{scan-keep}
use cpp_suitor_and_local_dom.Graph.Free.{both_free, rest_of, rest_of-IsSimple}
use cpp_suitor_and_local_dom.Scan.{Best, Finds, scan, scan-Finds}
use cpp_suitor_and_local_dom.Suitor.Protocol.{Proposals, IsJobless, IsIdle, IsOffer}
use cpp_suitor_and_local_dom.Suitor.Outcome.{
  IsMatching, IsDominant, settled-IsMatching, settled-IsDominant,
}
use cpp_suitor_and_local_dom.Suitor.Sequential.{accepts, conclude, fresh}
use cpp_suitor_and_local_dom.Suitor.Sequential.Round.{IsAt, After, conclude-After}
use cpp_suitor_and_local_dom.Suitor.Sequential.Loop.{enough, loops_end}
use cpp_suitor_and_local_dom.Suitor.Sequential.Improved.{round3, procedure3}

module _ (g : Graph) (suitor3 : ℕ → ℕ) where
  module _ (simple : IsSimple (rest_of g suitor3)) (s : Proposals) (current : ℕ) where
    abbrev start : Best
    start = record { partner = g.num_nodes; heaviest = 0 }

    abbrev found : Best
    found = scan (accepts s) start ((rest_of g suitor3).arcs current)

    finds : Finds (accepts s) start ((rest_of g suitor3).arcs current) found
    finds = scan-Finds (accepts s) start ((rest_of g suitor3).arcs current)

    -- What the scan found, if anything, is a proposal of the protocol.
    found-IsOffer :
        current < g.num_nodes
        → IsJobless s current
        → 0 < found.heaviest
        → IsOffer (rest_of g suitor3) s current found.partner found.heaviest
    found-IsOffer lt free pos = elim finds.origin [
      | inl e ↦ absurd (ground (arith, pos, ap (λ (b : Best). b.heaviest) e))
      | inr (has, ok, more) ↦ record {
        jobless = free;
        along = (lt, has);
        accepted = ground (arith, ok);
        best = λ q x e. ground (arith, finds.rest_refused q x, e);
      }
    ]

    found-IsIdle : found.heaviest ≡ 0 → IsIdle (rest_of g suitor3) s current
    found-IsIdle h q x e = ground (arith, finds.rest_refused q x, e)

    round3-After :
        (u : ℕ)
        → IsAt (rest_of g suitor3) s u current
        → After (rest_of g suitor3) s u (round3 g suitor3 s current)
    unfolding round3
    round3-After u at =
        subst (λ b. After (rest_of g suitor3) s u (conclude g s current b))
          (sym
            (scan-keep (accepts s) (both_free g.num_nodes suitor3 current) start (g.arcs current)))
          (conclude-After simple s u current found at
            (found-IsOffer (omega (arith, at.started, at.in_range)) at.jobless) found-IsIdle)

  pub procedure3_matches :
      IsSimple g
      → (f : Proposals) × (procedure3 g suitor3 (enough (rest_of g suitor3)) (fresh g) ≡ some f)
        × IsMatching (rest_of g suitor3) f
        × IsDominant (rest_of g suitor3) f
        × ((v : ℕ) → (f.suitor v ≡ g.num_nodes) ⊎ (0 < f.ws v))
  unfolding procedure3
  procedure3_matches simple =
      let simple3 = rest_of-IsSimple g suitor3 simple in
      let (f, ends, last) =
        loops_end (round3 g suitor3) (λ s u current. round3-After simple3 s current u) in
      (
        f,
        ends,
        settled-IsMatching simple3 last.sound last.settled,
        settled-IsDominant simple3 last.sound last.settled,
        λ v. ground (arith, last.sound.null_or_node v, last.sound.positive v),
      )
