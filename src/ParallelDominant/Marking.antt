-- ===== src/ParallelDominant/Marking.antt =====
-- What the second section of phase 1 leaves, in whatever order its threads took their steps.
use cpp_suitor_and_local_dom.Base.{
  ℕ, suc, ◌≤◌, ◌<◌, ◌≡◌, ◌≢◌, inl, inr, refl, sym, ap, subst, Bool, true, false, not, ◌&&◌, List,
  [], ◌∷◌, foldl, ltb, ◌==◌, if◌then◌else◌, update, to_update, Bool-cases, ℕ_discrete, arith,
}
use cpp_suitor_and_local_dom.Graph.{Graph}
use cpp_suitor_and_local_dom.Split.{
  created, first, last, range_of, range_unique, first-le-last, last-le,
}
use cpp_suitor_and_local_dom.ParallelDominant.{
  ConcurrentQueue, Section2, start2, is_mutual, turn2, run2, IsOver,
}

module _ (g : Graph) (c : ConcurrentQueue) (threads : ℕ) (some_thread : 0 < threads)
    (candidate mate : ℕ → ℕ) where
  abbrev nodes : ℕ
  nodes = g.num_nodes

  -- Whether a node has been matched, its entry, and how often it is queued.
  abbrev pub Outcome : Bool → ℕ → Section2 g c → Type 0
  Outcome b u s =
      (s.mate u ≡ (if b then candidate u else mate u)) × (c.holds s.queue u ≡ (if b then 1 else 0))

  record IsMarked (s : Section2 g c) : Type 0 where
    pub inside :
        (i : ℕ)
        → i < created threads nodes
        → (first threads nodes i ≤ s.node i) × (s.node i ≤ last threads nodes i)
    pub outcome :
        (i u : ℕ)
        → i < created threads nodes
        → first threads nodes i ≤ u
        → u < last threads nodes i
        → Outcome (ltb u (s.node i) && is_mutual g c candidate u) u s
    pub outside : (u : ℕ) → nodes ≤ u → c.holds s.queue u ≡ 0

  module _ (s : Section2 g c) (inv : IsMarked s) (j : ℕ) (lj : j < created threads nodes)
      (left : s.node j ≢ last threads nodes j) where
    abbrev w : ℕ
    w = s.node j

    -- Only this thread has the node that it is at.
    mine :
        (i : ℕ)
        → i < created threads nodes
        → first threads nodes i ≤ w
        → w < last threads nodes i
        → i ≡ j
    mine i li from below =
        range_unique threads nodes some_thread i j w li lj from below (inv.inside j lj).0
          (omega (arith, left, (inv.inside j lj).1))

    step_inside :
        (i : ℕ)
        → i < created threads nodes
        → (first threads nodes i ≤ update s.node j (suc w) i)
          × (update s.node j (suc w) i ≤ last threads nodes i)
    step_inside i li =
        to_update (λ x. (first threads nodes i ≤ x) × (x ≤ last threads nodes i)) s.node j (suc w) i
          (λ e.
            ground
              (arith, inv.inside j lj, left, ap (first threads nodes) e, ap (last threads nodes) e))
          λ _. inv.inside i li

    -- Another node is done as far as it was.
    same_done : (i u : ℕ) → u ≢ w → ltb u (update s.node j (suc w) i) ≡ ltb u (s.node i)
    same_done i u ne =
        to_update (λ x. ltb u x ≡ ltb u (s.node i)) s.node j (suc w) i
          (λ e. ground (arith, ne, ap s.node e)) λ _. refl

    matched-Outcome :
        is_mutual g c candidate w ≡ true
        → (i u : ℕ) → i < created threads nodes
        → first threads nodes i ≤ u
        → u < last threads nodes i
        → Outcome (ltb u (update s.node j (suc w) i) && is_mutual g c candidate u) u (record {
          mate = update s.mate w (candidate w);
          queue = c.enqueue s.queue w;
          node = update s.node j (suc w);
        })
    matched-Outcome both i u li from below = elim (ℕ_discrete u w) [
      | no ne ↦
          let old = inv.outcome i u li from below in
          let apart : (w == u) ≡ false = ground (arith, ne) in
          rw (same_done i u ne, c.holds_enqueue s.queue w u, apart)
            (
              to_update
                  (λ a. a ≡ (
                    if ltb u (s.node i) && is_mutual g c candidate u then candidate u else mate u))
                  s.mate w (candidate w) u (λ e. absurd (ne (sym e))) λ _. old.0,
              old.1,
            )
      | yes e ↦
          let same =
            mine i li (subst (λ x. first threads nodes i ≤ x) e from)
              (subst (λ x. x < last threads nodes i) e below) in
          let old = inv.outcome i u li from below in
          let before : ltb u (s.node i) ≡ false = ground (arith, e, ap s.node same) in
          let none_yet : c.holds s.queue u ≡ 0 = rw before at old.1 in
          let done : ltb u (update s.node j (suc w) i) ≡ true =
            to_update (λ x. ltb u x ≡ true) s.node j (suc w) i (λ _. ground (arith, e))
              λ ne. absurd (ne (sym same)) in
          let here : (w == u) ≡ true = ground (arith, e) in
          let mutual_u : is_mutual g c candidate u ≡ true = rw e both in
          rw (done, mutual_u, c.holds_enqueue s.queue w u, here, none_yet)
            (
              to_update (λ a. a ≡ candidate u) s.mate w (candidate w) u (λ f. ap candidate f)
                  λ ne. absurd (ne (sym e)),
              refl,
            )
    ]

    skipped-Outcome :
        is_mutual g c candidate w ≡ false
        → (i u : ℕ) → i < created threads nodes
        → first threads nodes i ≤ u
        → u < last threads nodes i
        → Outcome
            (ltb u (update s.node j (suc w) i) && is_mutual g c candidate u)
            u
            (record s { node = update s.node j (suc w) })
    skipped-Outcome out i u li from below =
        let old = inv.outcome i u li from below in
        elim (ℕ_discrete u w) [
          | no ne ↦ rw (same_done i u ne) old
          | yes e ↦
              let not_u : is_mutual g c candidate u ≡ false = rw e out in
              let before : ltb u (s.node i) && is_mutual g c candidate u ≡ false =
                ground (arith, not_u) in
              let after : ltb u (update s.node j (suc w) i) && is_mutual g c candidate u ≡ false =
                ground (arith, not_u) in
              rw after (rw before at old)
        ]

  turn2-IsMarked :
      (s : Section2 g c) (j : ℕ) → IsMarked s → IsMarked (turn2 g c threads candidate s j)
  unfolding turn2
  turn2-IsMarked s j inv =
      elim (Bool-cases (ltb j (created threads nodes) && not (s.node j == last threads nodes j))) [
        | inr idle ↦ rw idle inv
        | inl goes ↦
            let lj : j < created threads nodes = ground (arith, goes) in
            let left : s.node j ≢ last threads nodes j = ground (arith, goes) in
            elim (Bool-cases (is_mutual g c candidate (s.node j))) [
              | inl both ↦
                  rw (goes, both)
                    (record {
                      inside = step_inside s inv j lj left;
                      outcome = matched-Outcome s inv j lj left both;
                      outside = λ u ge.
                          let other : (s.node j == u) ≡ false = ground (
                            arith,
                            ge,
                            left,
                            (inv.inside j lj).1,
                            last-le threads nodes some_thread j lj,
                          ) in
                          rw (c.holds_enqueue s.queue (s.node j) u, other) (inv.outside u ge);
                    })
              | inr out ↦
                  rw (goes, out)
                    (record {
                      inside = step_inside s inv j lj left;
                      outcome = skipped-Outcome s inv j lj left out;
                      outside = inv.outside;
                    })
            ]
      ]

  run2-IsMarked :
      (order : List ℕ) (s : Section2 g c)
      → IsMarked s
      → IsMarked (foldl (turn2 g c threads candidate) s order)
  run2-IsMarked [] s inv = inv
  run2-IsMarked (j ∷ order) s inv =
      run2-IsMarked order (turn2 g c threads candidate s j) (turn2-IsMarked s j inv)

  start2-IsMarked : IsMarked (start2 g c threads mate)
  unfolding start2
  start2-IsMarked = record {
    inside = λ i li. (omega arith, first-le-last threads nodes some_thread i li);
    outcome = λ i u li from below.
        let none_done : ltb u (first threads nodes i) ≡ false = ground (arith, from) in
        rw none_done (refl, c.holds_new nodes u);
    outside = λ u ge. c.holds_new nodes u;
  }

  -- Once the threads of the second section are joined, each node that is the candidate of its
  -- candidate has that one as its mate and is once in `QC`; the others keep their entries and are
  -- not in it.
  pub section2_marks :
      (order : List ℕ)
      → IsOver g threads (run2 g c threads candidate mate order).node
      → (u : ℕ) → u < nodes
      → Outcome (is_mutual g c candidate u) u (run2 g c threads candidate mate order)
  unfolding run2
  section2_marks order over u lt =
      let (i, li, from, below) = range_of threads nodes some_thread u lt in
      let inv = run2-IsMarked order (start2 g c threads mate) start2-IsMarked in
      let done : ltb u
            ((foldl (turn2 g c threads candidate) (start2 g c threads mate) order).node i)
          ≡ true =
        ground (arith, over i li, below) in
      rw done at (inv.outcome i u li from below)

  -- And `QC` holds nothing but nodes.
  pub section2_outside :
      (order : List ℕ) (u : ℕ)
      → nodes ≤ u
      → c.holds (run2 g c threads candidate mate order).queue u ≡ 0
  unfolding run2
  section2_outside order = (run2-IsMarked order (start2 g c threads mate) start2-IsMarked).outside
