-- ===== src/Suitor/LockFree/Swapping.antt =====
-- The compare-and-swap of the lock-free `process` keeps what the threads rely on.
use cpp_suitor_and_local_dom.Base.{
  ℕ, suc, ◌<◌, ◌≡◌, refl, sym, subst, ap₂, ◌∙◌, ◌≢◌, ◌⊎◌, inl, inr, arith, ◌==◌, Bool-cases, update,
}
use cpp_suitor_and_local_dom.Graph.{Edge, IsSimple}
use cpp_suitor_and_local_dom.AdjacencyArray.{to_graph}
use cpp_suitor_and_local_dom.AdjacencyArray2.{
  AdjacencyArray2, null_edge, target, edge_head, graph_of,
}
use cpp_suitor_and_local_dom.AdjacencyArray2.Positions.{IsIndexed, Edge-position, position-Edge}
use cpp_suitor_and_local_dom.Suitor.Protocol.{Proposals, propose, IsOffer, IsJobless}
use cpp_suitor_and_local_dom.Suitor.Threads.{IsShared, IsShared-propose}
use cpp_suitor_and_local_dom.Suitor.Parallel.Claims.{Working}
use cpp_suitor_and_local_dom.Suitor.LockFree.{Pc, outer, swapping, restart, step}
use cpp_suitor_and_local_dom.Suitor.LockFree.Table.{table, table-update}
use cpp_suitor_and_local_dom.Suitor.LockFree.Claims.{Claims, Knows, lock_free_thread}
use cpp_suitor_and_local_dom.Suitor.LockFree.Searching.{
  claimed_at, head_le, Knows-at, restart-IsScanning, again-Kept,
}

module _ (a : AdjacencyArray2) (indexed : IsIndexed a) (simple : IsSimple (graph_of a)) {k : ℕ}
    (suitor : ℕ → ℕ) {pc : ℕ → Pc}
    (h : IsShared (graph_of a) (lock_free_thread a) k (table a suitor) pc) (i : ℕ)
    (lt : i < k) where
  abbrev s : Proposals
  s = table a suitor

  abbrev n : ℕ
  n = a.base.num_nodes

  abbrev Kept : (ℕ → ℕ) × Pc → Type 0
  Kept (suitor', p') =
      IsShared (graph_of a) (lock_free_thread a) k (table a suitor') (update pc i p')

  module _ (u finish current partner heaviest current_suitor : ℕ)
      (e : pc i ≡ swapping u finish current partner heaviest current_suitor) where
    at_swap : Knows a s (swapping u finish current partner heaviest current_suitor)
    at_swap = Knows-at a indexed simple suitor h i lt _ e

    here : (current < n) × IsJobless s current
    here = claimed_at a indexed simple suitor h i lt _ e current (inl refl)

    -- What the thread is about to write is an edge of `current`, with its weight.
    chosen :
        (partner < null_edge a)
        × (a.heads partner ≡ current)
        × Edge (graph_of a) current (target a partner) heaviest
    chosen =
        let in_array : partner < null_edge a =
          omega (arith, at_swap.1.choice.upto, indexed.inside current here.0) in
        (
          in_array,
          indexed.head_at current partner here.0 at_swap.1.choice.from at_swap.1.choice.upto,
          ground (
            arith,
            position-Edge a indexed current here.0 partner at_swap.1.choice.from
                at_swap.1.choice.upto,
            at_swap.1.choice.heavy,
          ),
        )

    -- If the entry is still the one that was loaded, the exchange is a proposal of the protocol.
    swap-IsOffer :
        suitor (target a partner) ≡ current_suitor
        → IsOffer (graph_of a) s current (target a partner) heaviest
    swap-IsOffer same = record {
      jobless = here.1;
      along = chosen.2;
      accepted = ground (arith, at_swap.2);
      best = λ q x edge.
          let (p, ge, under, hq, hx) = Edge-position a indexed current here.0 q x edge in
          ground (arith, at_swap.1.passed p ge under, hx, hq);
    }

    written :
        table a (update suitor (target a partner) partner)
        ≡ propose s current (target a partner) heaviest
    written =
        table-update a suitor (target a partner) partner
        ∙ ap₂ (λ c w. propose s c (target a partner) w) (ground (arith, chosen))
            (ground (arith, chosen, at_swap.1.choice.heavy))

    won :
        (p' : Pc)
        → suitor (target a partner) ≡ current_suitor
        → ((q : ℕ)
            → Claims p' q
            → Working u finish current q × (q ≢ current)
              ⊎ (s.suitor (target a partner) ≡ q) × (q < n))
        → ((q : ℕ) → Working u finish current q → (q ≡ current) ⊎ Claims p' q)
        → (s.suitor (target a partner) < n → Claims p' (s.suitor (target a partner)))
        → Knows a (propose s current (target a partner) heaviest) p'
        → Kept (update suitor (target a partner) partner, p')
    unfolding to_graph
    won p' same only rest takes knows =
        subst (λ t. IsShared (graph_of a) (lock_free_thread a) k t (update pc i p')) (sym written)
          (IsShared-propose simple (lock_free_thread a) h i lt current (target a partner) heaviest
            (swap-IsOffer same) (rw e (inl refl))
            (λ q c. elim (only q c) [ inl (c', ne) ↦ inl (rw e c', ne) | inr found ↦ inr found ])
            (λ q c. rest q (rw e at c)) takes knows)

    won_last :
        suitor (target a partner) ≡ current_suitor
        → edge_head a current_suitor ≡ n
        → Kept (update suitor (target a partner) partner, outer (suc u) finish)
    won_last same none =
        won (outer (suc u) finish) same (λ q c. inl (inr c, λ eq. at_swap.0.apart (omega arith)))
          (λ q c. c) (λ under. absurd (ground arith)) at_swap.0.before

    won_more :
        suitor (target a partner) ≡ current_suitor
        → edge_head a current_suitor < n
        → Kept (
          update suitor (target a partner) partner,
          restart a u finish (edge_head a current_suitor),
        )
    won_more same under =
        let dislodged : s.suitor (target a partner) ≡ edge_head a current_suitor = ground arith in
        won (restart a u finish (edge_head a current_suitor)) same
          (λ q c. elim c [
            | inl eq ↦ inr (dislodged ∙ sym eq, omega arith)
            | inr later ↦ inl (inr later, λ eq. at_swap.0.apart (omega arith))
          ])
          (λ q c. elim c [ inl eq ↦ inl eq | inr later ↦ inr (inr later) ]) (λ _. inl dislodged)
          (
            record {
              before = at_swap.0.before;
              apart = λ later.
                  (claimed_at a indexed simple suitor h i lt _ e (edge_head a current_suitor)
                      (inr later)).1
                    (target a partner) dislodged;
            },
            restart-IsScanning a indexed simple suitor h i lt _ (edge_head a current_suitor) under,
          )

    -- The exchange: `current_suitor` was an entry with a head that is a node or `null_node()`.
    pub swapping-Kept :
        Kept (step a suitor (swapping u finish current partner heaviest current_suitor))
    unfolding step
    swapping-Kept = elim (Bool-cases (suitor (target a partner) == current_suitor)) [
      | inr changed ↦ rw changed (
          again-Kept a indexed simple suitor h i lt u finish current partner heaviest _ e
            (λ q. (λ c. c, λ c. c)) λ w. w.0)
      | inl same ↦ elim (Bool-cases (edge_head a current_suitor == n)) [
        | inl none ↦ rw (same, none) (won_last (ground arith) (ground arith))
        | inr some_head ↦
            rw (same, some_head)
              (won_more (ground arith)
                (ground (arith, head_le a indexed simple suitor h i lt (target a partner))))
      ]
    ]
