-- ===== src/Suitor/LockFree/Searching.antt =====
-- A thread of the lock-free `process` that searches: its steps keep what the threads rely on.
use cpp_suitor_and_local_dom.Base.{
  ℕ, suc, ◌≤◌, ◌<◌, ◌≡◌, refl, sym, subst, ◌⊎◌, ◌↔◌, inl, inr, ◌&&◌, arith, ltb, ◌==◌, Bool-cases,
  update,
}
use cpp_suitor_and_local_dom.Graph.{IsSimple}
use cpp_suitor_and_local_dom.AdjacencyArray.{to_graph}
use cpp_suitor_and_local_dom.AdjacencyArray2.{
  AdjacencyArray2, null_edge, target, weight, edge_head, begin_at, end_at, graph_of,
}
use cpp_suitor_and_local_dom.AdjacencyArray2.Positions.{IsIndexed, Edge-position}
use cpp_suitor_and_local_dom.Suitor.Protocol.{Proposals, IsIdle, IsSettled, IsJobless}
use cpp_suitor_and_local_dom.Suitor.Threads.{IsShared, IsShared-quiet}
use cpp_suitor_and_local_dom.Suitor.Parallel.Claims.{Working, IsInside}
use cpp_suitor_and_local_dom.Suitor.LockFree.{
  Pc, outer, scanning, loading, swapping, restart, look, step,
}
use cpp_suitor_and_local_dom.Suitor.LockFree.Table.{table}
use cpp_suitor_and_local_dom.Suitor.LockFree.Claims.{Claims, IsScanning, Knows, lock_free_thread}

module _ (a : AdjacencyArray2) (indexed : IsIndexed a) (simple : IsSimple (graph_of a)) {k : ℕ}
    (suitor : ℕ → ℕ) {pc : ℕ → Pc}
    (h : IsShared (graph_of a) (lock_free_thread a) k (table a suitor) pc) (i : ℕ)
    (lt : i < k) where
  abbrev s : Proposals
  s = table a suitor

  abbrev n : ℕ
  n = a.base.num_nodes

  abbrev Kept : (ℕ → ℕ) × Pc → Type 0
  Kept (suitor', p') =
      IsShared (graph_of a) (lock_free_thread a) k (table a suitor') (update pc i p')

  -- A step of a thread at `p` that writes nothing.
  quiet :
      (p p' : Pc)
      → pc i ≡ p
      → ((q : ℕ) → Claims p' q → Claims p q)
      → ((q : ℕ) → Claims p q → Claims p' q ⊎ IsSettled (graph_of a) s q)
      → (Knows a s p → Knows a s p')
      → Kept (suitor, p')
  quiet p p' e fewer kept knows =
      IsShared-quiet simple (lock_free_thread a) h i lt (λ q c. rw e (fewer q c))
        (λ q c. kept q (rw e at c)) (knows (rw e at (h.knows i lt)))

  pub claimed_at : (p : Pc) → pc i ≡ p → (q : ℕ) → Claims p q → (q < n) × IsJobless s q
  unfolding to_graph
  claimed_at p e q c = h.claimed i q lt (rw e c)

  pub head_le : (v : ℕ) → edge_head a (suitor v) ≤ n
  unfolding to_graph
  head_le v = h.sound.null_or_node v

  pub Knows-at : (p : Pc) → pc i ≡ p → Knows a s p
  Knows-at p e = rw e at (h.knows i lt)

  -- The head of the `while` loop, for a node of the graph.
  pub restart-IsScanning :
      (t : Proposals) (c : ℕ) → c < n → IsScanning a t c (begin_at a c) (null_edge a) 0
  restart-IsScanning t c less = record {
    from = omega arith;
    upto = indexed.forwards c less;
    passed = λ p ge below. absurd (omega arith);
    found = inl refl;
  }

  pub outer-Kept : (u finish : ℕ) → pc i ≡ outer u finish → Kept (step a suitor (outer u finish))
  unfolding step
  outer-Kept u finish e = elim (Bool-cases (u == finish)) [
    | inl same ↦ rw same (quiet _ _ e (λ q c. c) (λ q c. inl c) (λ w. w))
    | inr other ↦ rw other (
        quiet _ (restart a u finish u) e (λ q c. ground (arith, u_le)) (λ q c. inl (ground arith))
          λ _. (
            record { before = ground (arith, u_le); apart = λ b. omega arith },
            restart-IsScanning s u (claimed_at _ e u (omega arith, ground (arith, u_le))).0,
          ))
  ]
    where
      u_le : u ≤ finish
      u_le = Knows-at _ e

  module _ (u finish current v partner heaviest : ℕ)
      (e : pc i ≡ scanning u finish current v partner heaviest) where
    known : Knows a s (scanning u finish current v partner heaviest)
    known = Knows-at _ e

    less : current < n
    less = (claimed_at _ e current (inl refl)).0

    -- An edge that is looked at leaves the best one so far.
    look-IsScanning :
        v < end_at a current → Knows a s (look a suitor u finish current v partner heaviest)
    unfolding look
    look-IsScanning below =
        elim (Bool-cases
          (ltb heaviest (weight a v) && ltb (weight a (suitor (target a v))) (weight a v))) [
            | inl better ↦ rw better (
              known.0,
              record {
                from = ground (arith, known.1.from);
                upto = below;
                passed = λ p ge p_lt. ground (arith, known.1.passed p ge, in_array);
                found = inr (record {
                  from = known.1.from;
                  upto = below;
                  heavy = ground (arith, in_array);
                });
              },
            )
            | inr worse ↦ rw worse (
              known.0,
              record {
                from = ground (arith, known.1.from);
                upto = below;
                passed = λ p ge p_lt. ground (arith, known.1.passed p ge, in_array);
                found = known.1.found;
              },
            )
          ]
      where
        in_array : v < null_edge a
        in_array = omega (arith, indexed.inside current less)

    idle : v ≡ end_at a current → heaviest ≡ 0 → IsIdle (graph_of a) s current
    idle at_end none q x edge =
        let (p, ge, under, hq, hx) = Edge-position a indexed current less q x edge in
        ground (arith, known.1.passed p, hx, hq)

    look-Claims :
        (q : ℕ)
        → Claims (look a suitor u finish current v partner heaviest) q ↔ Working u finish current q
    unfolding look
    look-Claims q =
        elim (Bool-cases
          (ltb heaviest (weight a v) && ltb (weight a (suitor (target a v))) (weight a v))) [
            | inl better ↦ rw better (λ c. c, λ c. c)
            | inr worse ↦ rw worse (λ c. c, λ c. c)
          ]

    -- A step of the loop over the edges, or its end.
    pub scanning-Kept : Kept (step a suitor (scanning u finish current v partner heaviest))
    unfolding step
    scanning-Kept = elim (Bool-cases (v == end_at a current)) [
      | inr inner ↦ rw inner (
          quiet _ (look a suitor u finish current v partner heaviest) e (λ q c. (look-Claims q).0 c)
            (λ q c. inl ((look-Claims q).1 c)) λ _. look-IsScanning (ground (arith, known.1.upto)))
      | inl at_end ↦ elim (Bool-cases (ltb 0 heaviest)) [
        | inl some_edge ↦
            rw (at_end, some_edge)
              (quiet _ (loading u finish current partner heaviest) e (λ q c. c) (λ q c. inl c)
                λ _. (
                  known.0,
                  record {
                    positive = ground arith;
                    choice = elim known.1.found [
                      | inl none ↦ absurd (ground arith)
                      | inr choice ↦ choice
                    ];
                    passed = λ p ge under. known.1.passed p ge (ground arith);
                  },
                ))
        | inr no_edge ↦
            rw (at_end, no_edge)
              (quiet (scanning u finish current v partner heaviest) (outer (suc u) finish) e
                (λ q c. inr c)
                (λ q c. elim c [
                  | inl same ↦ inr (
                      subst (IsSettled (graph_of a) s) (sym same)
                        (inr (idle (ground arith) (ground arith))))
                  | inr later ↦ inl later
                ])
                λ _. known.0.before)
      ]
    ]

  module _ (u finish current partner heaviest : ℕ) where
    -- The thread starts to search for `current` again.
    pub again-Kept :
        (p : Pc)
        → pc i ≡ p
        → ((q : ℕ) → Claims p q ↔ Working u finish current q)
        → (Knows a s p → IsInside u finish current)
        → Kept (suitor, restart a u finish current)
    again-Kept p e works inside =
        quiet p (restart a u finish current) e (λ q c. (works q).1 c) (λ q c. inl ((works q).0 c))
          λ w. (
            inside w,
            restart-IsScanning s current (claimed_at p e current ((works current).1 (inl refl))).0,
          )

    pub loading-Kept :
        pc i ≡ loading u finish current partner heaviest
        → Kept (step a suitor (loading u finish current partner heaviest))
    unfolding step
    loading-Kept e = elim (Bool-cases (ltb (weight a (suitor (target a partner))) heaviest)) [
      | inl light ↦ rw light (
          quiet _ (swapping u finish current partner heaviest (suitor (target a partner))) e
            (λ q c. c) (λ q c. inl c) λ w. (w.0, w.1, ground arith))
      | inr heavy ↦ rw heavy (again-Kept _ e (λ q. (λ c. c, λ c. c)) λ w. w.0)
    ]
