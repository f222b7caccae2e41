-- ===== src/Suitor/Sequential/Correct.antt =====
-- What `simple_procedure` computes on a new or a cleared `SequentialSuitor`.
use cpp_suitor_and_local_dom.Base.{
  ℕ, zero, suc, ◌+◌, ◌*◌, ◌≤◌, ◌≡◌, refl, ap, subst, true, some, total, arith,
}
use cpp_suitor_and_local_dom.Graph.{Graph, IsSimple}
use cpp_suitor_and_local_dom.Suitor.Protocol.{Proposals}
use cpp_suitor_and_local_dom.Suitor.Outcome.{
  IsMatching, IsDominant, settled-IsMatching, settled-IsDominant, half_of_any,
}
use cpp_suitor_and_local_dom.Suitor.Sequential.{
  SequentialSuitor, fresh, procedure, simple_procedure, clear_mate, accumulate, asserts_hold,
  test_matching,
}
use cpp_suitor_and_local_dom.Suitor.Sequential.Loop.{enough, procedure_ends}
use cpp_suitor_and_local_dom.Suitor.Sequential.Round.{IsBefore}

module _ (g : Graph) (simple : IsSimple g) where
  -- On a simple graph with distinct weights, `procedure` from the empty tables ends: `enough g`
  -- rounds for each node suffice.
  pub procedure_total : (z : Proposals) × (procedure g (enough g) (fresh g) ≡ some z)
  procedure_total = let (z, ends, _) = procedure_ends simple in (z, ends)

  module _ (z : Proposals) (ends : procedure g (enough g) (fresh g) ≡ some z) where
    last : IsBefore g z g.num_nodes
    last =
        let (z', ends', before) = procedure_ends simple in
        let same : z' ≡ z = cc in subst (λ t. IsBefore g t g.num_nodes) same before

    -- On a simple graph with distinct weights, what `procedure` leaves is a matching: every entry
    -- of `suitor` is a node or `null_node()`, partners point at one another, each pair is an edge
    -- and `ws` holds its weight at both ends, and `ws` is 0 at the other nodes.
    pub procedure-IsMatching : IsMatching g z
    procedure-IsMatching = settled-IsMatching simple last.sound last.settled

    -- On a simple graph with distinct weights, `procedure` leaves no edge that is heavier than what
    -- each of its ends has.
    pub procedure-IsDominant : IsDominant g z
    procedure-IsDominant = settled-IsDominant simple last.sound last.settled

    -- On a simple graph with distinct weights, any matching of the graph weighs at most twice what
    -- `procedure` finds (both sums count each matched edge at both of its ends).
    pub procedure_half :
        (other : Proposals)
        → IsMatching g other
        → total g.num_nodes other.ws ≤ 2 * total g.num_nodes z.ws
    procedure_half other m = half_of_any g z other procedure-IsDominant m

-- The asserts of `test_matching` hold for a table that is a matching.
pub asserts_hold_of_matching :
    (g : Graph) (s : Proposals) (n : ℕ)
    → IsMatching g s
    → n ≤ g.num_nodes
    → asserts_hold g s n ≡ true
unfolding asserts_hold
asserts_hold_of_matching g s zero m le = refl
asserts_hold_of_matching g s (suc n) m le =
    ground (arith, asserts_hold_of_matching g s n m, m.symmetric n, m.null_or_node n)

-- `simple_procedure` on an instance that is new or has been cleared, whatever ran on it before,
-- ends on a simple graph with distinct weights, and then `test_matching` passes.
pub simple_procedure_passes :
    (m : SequentialSuitor)
    → IsSimple m.graph
    → (m' : SequentialSuitor) × (simple_procedure (enough m.graph) (clear_mate m) ≡ some m')
      × (test_matching m' ≡ true)
unfolding simple_procedure clear_mate test_matching
simple_procedure_passes m simple =
    let (z, ends) = procedure_total m.graph simple in
    let matching = procedure-IsMatching m.graph simple z ends in
    (
      record (clear_mate m) { first = z },
      ground (arith, ends),
      ground (arith, asserts_hold_of_matching m.graph z m.graph.num_nodes matching),
    )

accumulate-total : (n : ℕ) (f : ℕ → ℕ) → accumulate ◌+◌ n f ≡ total n f
unfolding accumulate total
accumulate-total zero f = refl
accumulate-total (suc n) f = ap (λ (k : ℕ). k + f n) (accumulate-total n f)
