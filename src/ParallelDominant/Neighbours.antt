-- ===== src/ParallelDominant/Neighbours.antt =====
-- In phase 2, whatever the order of the threads, candidates and mates are neighbours.
use cpp_suitor_and_local_dom.Base.{
  ℕ, ◌≤◌, ◌<◌, ◌≡◌, ◌⊎◌, inl, inr, refl, Bool, if◌then◌else◌, update, subst, true, false, not, ◌&&◌,
  List, [], ◌∷◌, Option, none, some, ◌==◌, ltb, to_update, Bool-cases, arith, ℕ_discrete,
}
use cpp_suitor_and_local_dom.Graph.{Arc, Graph, Has, Edge, IsSimple}
use cpp_suitor_and_local_dom.Scan.{Best, consider}
use cpp_suitor_and_local_dom.Dominant.{is_free}
use cpp_suitor_and_local_dom.ParallelDominant.{ConcurrentQueue}
use cpp_suitor_and_local_dom.ParallelDominant.Phase2.{
  Pc, dequeuing, looping, testing, searching, asking, choosing, comparing, matching, matching_with,
  returning, returning_to, queuing, queuing_mate, queuing_as, over, outside, Shared, take_node,
  step,
}

module _ (g : Graph) (c : ConcurrentQueue) where
  abbrev n : ℕ
  n = g.num_nodes

  -- `null_node()`, or a neighbour.
  abbrev pub IsNext : ℕ → ℕ → Type 0
  IsNext v x = (x ≡ n) ⊎ ((w : ℕ) × Edge g v x w)

  -- The queue holds nodes, or `null_node()`.
  abbrev pub Bounded : c.Queue → Type 0
  Bounded q = (x : ℕ) → (c.holds q x ≡ 0) ⊎ (x ≤ n)

  pub record IsNear (s : Shared g c) : Type 0 where
    pub candidate_next : (v : ℕ) → v < n → IsNext v (s.candidate v)
    pub mate_next : (v : ℕ) → v < n → IsNext v (s.mate v)
    pub current_in : Bounded s.current_queue
    pub next_in : Bounded s.next_queue

  abbrev Loops : ℕ → List Arc → Type 0
  Loops u rest = (u < n) × ((x w : ℕ) → Has rest x w → Has (g.arcs u) x w)

  -- What a thread holds in its variables: `u` and `v` are nodes, and `x` is next to `v`.
  abbrev pub IsPlausible : Pc → Type 0
  IsPlausible dequeuing = Unit
  IsPlausible over = Unit
  IsPlausible outside = Unit
  IsPlausible (looping u rest) = Loops u rest
  IsPlausible (testing u rest v) = Loops u rest × (v < n)
  IsPlausible (searching u rest v edges best) =
      Loops u rest × (v < n) × Loops v edges × IsNext v best.partner
  IsPlausible (asking u rest v) = Loops u rest × (v < n)
  IsPlausible (choosing u rest v) = Loops u rest × (v < n)
  IsPlausible (comparing u rest v x) = Loops u rest × (v < n) × IsNext v x
  IsPlausible (matching u rest v) = Loops u rest × (v < n)
  IsPlausible (matching_with u rest v x) = Loops u rest × (v < n) × IsNext v x
  IsPlausible (returning u rest v) = Loops u rest × (v < n)
  IsPlausible (returning_to u rest v x) = Loops u rest × (v < n) × IsNext v x
  IsPlausible (queuing u rest v) = Loops u rest × (v < n)
  IsPlausible (queuing_mate u rest v) = Loops u rest × (v < n)
  IsPlausible (queuing_as u rest v x) = Loops u rest × (v < n) × IsNext v x

  pub enqueue-Bounded : (q : c.Queue) (x : ℕ) → Bounded q → x ≤ n → Bounded (c.enqueue q x)
  enqueue-Bounded q x inside le y = elim (ℕ_discrete x y) [
    | yes e ↦ inr (omega arith)
    | no ne ↦
        let other : (x == y) ≡ false = ground (arith, ne) in
        rw (c.holds_enqueue q x y, other) (inside y)
  ]

  pub dequeue-Bounded :
      (q rest : c.Queue) (x : ℕ)
      → c.try_dequeue q ≡ some (x, rest)
      → Bounded q
      → (x ≤ n) × Bounded rest
  dequeue-Bounded q rest x e inside = (
    ground (arith, inside x, c.holds_dequeue q rest x x e),
    λ y. ground (arith, inside y, c.holds_dequeue q rest x y e),
  )

  take-IsNear :
      (s : Shared g c) (o : Option (ℕ × c.Queue))
      → c.try_dequeue s.current_queue ≡ o
      → IsNear s
      → IsNear (take_node g c s o).0 × IsPlausible (take_node g c s o).1
  unfolding take_node
  take-IsNear s none e near = (near, tt)
  take-IsNear s (some (u, q)) e near =
      let (le, inside) = dequeue-Bounded s.current_queue q u e near.current_in in
      let near' : IsNear (record s { current_queue = q }) = record {
        candidate_next = near.candidate_next;
        mate_next = near.mate_next;
        current_in = inside;
        next_in = near.next_in;
      } in
      elim (Bool-cases (u == n)) [
        | inl null ↦ rw null (near', tt)
        | inr node ↦ rw node (near', (ground (arith, node, le), λ x w h. h))
      ]

  module _ (simple : IsSimple g) where
    considered :
        (s : Shared g c) (v : ℕ)
        → v < n
        → (t : Arc) → Has (g.arcs v) t.head t.weight
        → (best : Best) → IsNext v best.partner
        → IsNext v (consider (is_free g (λ _ _. true) s.mate v) best t).partner
    unfolding consider
    considered s v less t has best next =
        elim (Bool-cases (ltb best.heaviest t.weight && is_free g (λ _ _. true) s.mate v t)) [
          | inl better ↦ rw better (inr (t.weight, (less, has)))
          | inr worse ↦ rw worse next
        ]

    next_le : (v x : ℕ) → IsNext v x → x ≤ n
    next_le v x (inl e) = omega arith
    next_le v x (inr (w, along)) = let back = simple.edge_sym v x w along in omega (arith, back.0)

    written :
        (s : Shared g c) (v x : ℕ)
        → IsNear s
        → (v < n → IsNext v x)
        → IsNear (record s { mate = update s.mate v x })
    written s v x near next = record {
      candidate_next = near.candidate_next;
      mate_next = λ y lt.
          to_update (IsNext y) s.mate v x y (λ e. subst (λ z. IsNext z x) e (next (rw e lt)))
            λ _. near.mate_next y lt;
      current_in = near.current_in;
      next_in = near.next_in;
    }

    queued :
        (s : Shared g c) (x : ℕ)
        → IsNear s
        → x ≤ n
        → IsNear (record s { next_queue = c.enqueue s.next_queue x })
    queued s x near le = record {
      candidate_next = near.candidate_next;
      mate_next = near.mate_next;
      current_in = near.current_in;
      next_in = enqueue-Bounded s.next_queue x near.next_in le;
    }

    -- Whichever way a test goes.
    either_way {ℓ} :
        {A : Type ℓ} (P : A → Type 0) (b : Bool) (y z : A)
        → (b ≡ true → P y)
        → (b ≡ false → P z)
        → P (if b then y else z)
    either_way P true y z yes_y no_z = yes_y refl
    either_way P false y z yes_y no_z = no_z refl

    pub step-IsNear :
        (s : Shared g c) (p : Pc)
        → IsNear s
        → IsPlausible p
        → IsNear (step g c s p).0 × IsPlausible (step g c s p).1
    unfolding step
    step-IsNear s dequeuing near _ = take-IsNear s (c.try_dequeue s.current_queue) refl near
    step-IsNear s over near _ = (near, tt)
    step-IsNear s outside near _ = (near, tt)
    step-IsNear s (looping u []) near l = (near, tt)
    step-IsNear s (looping u (v ∷ rest)) near (lt, has) =
        let later : Loops u rest = (lt, λ x w h. has x w (inr h)) in
        let along : Edge g u v.head v.weight = (lt, has v.head v.weight (inl (refl, refl))) in
        let back = simple.edge_sym u v.head v.weight along in
        (
          near,
          either_way IsPlausible (not (s.mate u == v.head)) _ _ (λ _. (later, back.0)) λ _. later,
        )
    step-IsNear s (testing u rest v) near (l, less) = (
      near,
      either_way IsPlausible (s.candidate v == u) _ _ (λ _. (l, less, (less, λ x w h. h), inl refl))
          λ _. l,
    )
    step-IsNear s (searching u rest v (t ∷ edges) best) near (l, less, (lt, has), next) = (
      near,
      (
        l,
        less,
        (lt, λ x w h. has x w (inr h)),
        considered s v less t (has t.head t.weight (inl (refl, refl))) best next,
      ),
    )
    step-IsNear s (searching u rest v [] best) near (l, less, has, next) = (
      record {
        candidate_next = λ x lt.
            to_update (IsNext x) s.candidate v best.partner x
              (λ e. subst (λ y. IsNext y best.partner) e next) λ _. near.candidate_next x lt;
        mate_next = near.mate_next;
        current_in = near.current_in;
        next_in = near.next_in;
      },
      (l, less),
    )
    step-IsNear s (asking u rest v) near (l, less) =
        (near, either_way IsPlausible (s.candidate v == n) _ _ (λ _. l) λ _. (l, less))
    step-IsNear s (choosing u rest v) near (l, less) = (near, (l, less, near.candidate_next v less))
    step-IsNear s (comparing u rest v x) near (l, less, next) = (
      near,
      either_way IsPlausible (x == n) _ _ (λ _. tt)
          λ _. either_way IsPlausible (s.candidate x == v) _ _ (λ _. (l, less)) λ _. l,
    )
    step-IsNear s (matching u rest v) near (l, less) = (near, (l, less, near.candidate_next v less))
    step-IsNear s (matching_with u rest v x) near (l, less, next) =
        (written s v x near (λ _. next), (l, less))
    step-IsNear s (returning u rest v) near (l, less) =
        (near, (l, less, near.candidate_next v less))
    step-IsNear s (returning_to u rest v x) near (l, less, next) = elim (Bool-cases (x == n)) [
      | inl null ↦ rw null (near, tt)
      | inr node ↦ rw node (
        written s x v near (λ lt. elim next [
          | inl e ↦ absurd (omega arith)
          | inr (w, along) ↦ inr (w, simple.edge_sym v x w along)
        ]),
        (l, less),
      )
    ]
    step-IsNear s (queuing u rest v) near (l, less) = (queued s v near (omega arith), (l, less))
    step-IsNear s (queuing_mate u rest v) near (l, less) =
        (near, (l, less, near.candidate_next v less))
    step-IsNear s (queuing_as u rest v x) near (l, less, next) =
        (queued s x near (next_le v x next), l)
