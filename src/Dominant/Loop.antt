-- ===== src/Dominant/Loop.antt =====
-- The loops of `procedure`, from a table without mates.
use cpp_suitor_and_local_dom.Base.{
  ℕ, zero, suc, ◌-◌, ◌≤◌, ◌<◌, ◌≡◌, refl, sym, ap, subst, ◌⊎◌, inl, inr, Bool, false, not, ◌&&◌,
  List, [], ◌∷◌, some, arith, ◌==◌, Bool-cases, total,
}
use cpp_suitor_and_local_dom.Graph.{Arc, Graph, Has, IsSimple}
use cpp_suitor_and_local_dom.LocalQueue.{with_capacity, pop_front}
use cpp_suitor_and_local_dom.LocalQueue.Contents.{
  contents, IsRing, with_capacity-IsRing, pop_front-contents,
}
use cpp_suitor_and_local_dom.Dominant.{State, process_vertex, process_all, visit, drain, procedure}
use cpp_suitor_and_local_dom.Graph.Usable.{usable, Has-keep}
use cpp_suitor_and_local_dom.Dominant.Sound.{IsSound, IsSound-turn, In}
use cpp_suitor_and_local_dom.Dominant.Room.{HasRoom, single}
use cpp_suitor_and_local_dom.Dominant.Process.{process_vertex-Kept}

-- Some arc of the list leads to `x`.
abbrev LeadsTo : List Arc → ℕ → Type 0
LeadsTo [] x = ⊥
LeadsTo (a ∷ rest) x = (x ≡ a.head) ⊎ LeadsTo rest x

Has-LeadsTo : (l : List Arc) (v w : ℕ) → Has l v w → LeadsTo l v
Has-LeadsTo [] v w h = h
Has-LeadsTo (a ∷ rest) v w (inl h) = inl h.0
Has-LeadsTo (a ∷ rest) v w (inr h) = inr (Has-LeadsTo rest v w h)

all_single : (n k : ℕ) → total k (single n λ _. n) ≡ k
unfolding total
all_single n zero = refl
all_single n (suc k) = ground (arith, all_single n k)

module _ (g : Graph) (allowed : ℕ → ℕ → Bool) (simple : IsSimple (usable g allowed)) where
  abbrev n : ℕ
  n = g.num_nodes

  abbrev h : Graph
  h = usable g allowed

  abbrev Kept : ℕ → (ℕ → ℕ → Type 0) → ℕ → State → Type 0
  Kept seen Waits m s = ((ws : ℕ → ℕ) × IsSound h seen Waits ws s) × HasRoom n m s

  -- Nothing waits.
  abbrev Nobody : ℕ → ℕ → Type 0
  Nobody _ _ = ⊥

  abbrev blank : State
  blank = record { candidate = λ _. n; mate = λ _. n; queue = with_capacity n }

  blank-Kept : Kept 0 Nobody n blank
  unfolding with_capacity
  blank-Kept = (
    (
      λ _. 0,
      record {
        null_or_node = λ v. omega arith;
        symmetric = λ v lt. absurd (omega arith);
        matched = λ v lt. absurd (omega arith);
        unmatched = λ v e. refl;
        dominant = λ p q w e lt. absurd (omega arith);
        agreed = λ v lt. absurd (omega arith);
        unseen = λ v ge. (refl, refl);
        chose = λ v lt at. absurd (omega arith);
        waits = λ v at lt taken. absurd (omega arith);
        not_mutual = λ v at lt. absurd (omega arith);
        queued = λ v i. absurd (subst (In v) (with_capacity-IsRing n).1 i);
      },
    ),
    record {
      ring = (with_capacity-IsRing n).0;
      capacity = refl;
      exact = ground (arith, all_single n n);
      small = omega arith;
    },
  )

  process_all-Kept : (k : ℕ) → k ≤ n → Kept k Nobody n (process_all g allowed k blank)
  unfolding process_all
  process_all-Kept zero le = blank-Kept
  process_all-Kept (suc k) le =
      let ((ws, sound), room) = process_all-Kept k (omega arith) in
      process_vertex-Kept g allowed simple (process_all g allowed k blank) sound room k
        (omega arith) (sound.unseen k (omega arith)).1 (omega arith) (omega arith) le
        (λ v lt. omega arith) Nobody λ x w r. absurd r

  -- The nodes at the rest of the arcs of `u`, whose candidate is `u`, are still to be processed.
  abbrev Rest : ℕ → List Arc → ℕ → ℕ → Type 0
  Rest u rest x w = (w ≡ u) × LeadsTo rest x

  visit-Kept :
      (u : ℕ) (rest : List Arc) (s : State) (m : ℕ)
      → u < n
      → Kept n (Rest u rest) m s
      → Kept n Nobody m (visit g allowed u rest s)
  unfolding visit
  visit-Kept u [] s m less ((ws, sound), room) =
      ((ws, IsSound-turn h s s.queue Nobody sound (λ v at lt q. ground (arith, q)) λ v i. i), room)
  visit-Kept u (a ∷ rest) s m less ((ws, sound), room) =
      elim (Bool-cases (not (s.mate u == a.head) && (s.candidate a.head == u))) [
        | inl tested ↦ rw tested (
            visit-Kept u rest (process_vertex g allowed s a.head) m less (
              process_vertex-Kept g allowed simple s sound room a.head
                (ground (arith, sound.unseen a.head))
                (ground (
                  arith,
                  sound.agreed a.head,
                  sound.symmetric a.head,
                  sound.null_or_node a.head,
                  λ (p : s.mate a.head ≡ u). ap s.mate p,
                ))
                (omega arith) (ground (arith, sound.unseen a.head)) (omega arith) (λ v lt. inl lt)
                (Rest u rest)
                λ x w r. elim r.1 [ inl here ↦ inl here | inr later ↦ inr (r.0, later) ]))
        | inr failed ↦ rw failed (
            visit-Kept u rest s m less (
              (ws, IsSound-turn h s s.queue (Rest u rest) sound (wait sound failed) (λ v i. i)),
              room,
            ))
      ]
    where
      -- Unless the loop processes the node `a.head`, it does not wait.
      wait :
          IsSound h n (Rest u (a ∷ rest)) ws s
          → (not (s.mate u == a.head) && (s.candidate a.head == u)) ≡ false
          → (v : ℕ) → s.mate v ≡ n
          → s.candidate v < n
          → In (s.candidate v) (contents s.queue) ⊎ Rest u (a ∷ rest) v (s.candidate v)
          → In (s.candidate v) (contents s.queue) ⊎ Rest u rest v (s.candidate v)
      wait sound failed v at lt (inl i) = inl i
      wait sound failed v at lt (inr (same, inl here)) = absurd (
          ground (
            arith,
            sound.symmetric u,
            sound.unseen v,
            λ (p : s.mate u ≡ v). ap s.mate p,
            ap s.candidate here,
          ))
      wait sound failed v at lt (inr (same, inr later)) = inr (same, later)

  -- `Q.pop_front()`
  module _ {ws : ℕ → ℕ} {m : ℕ} (s : State) (sound : IsSound h n Nobody ws s) (room : HasRoom n m s)
      (some_node : 0 < s.queue.size) where
    abbrev u : ℕ
    u = (pop_front s.queue).0

    abbrev popped : State
    popped = record s { queue = (pop_front s.queue).1 }

    front : IsRing popped.queue × (contents s.queue ≡ u ∷ contents popped.queue)
    front = pop_front-contents s.queue room.ring some_node

    front_less : u < n
    front_less = (sound.matched u (sound.queued u (subst (In u) (sym front.1) (inl refl)))).0

    -- A node that waits for `u` is at one of its edges.
    wait_front :
        (v : ℕ) → s.mate v ≡ n → s.candidate v < n → s.candidate v ≡ u → LeadsTo (g.arcs u) v
    wait_front v at lt same =
        let c = sound.chose v (ground (arith, sound.unseen v)) at in
        elim c.choice [
          | inl nobody ↦ absurd (omega arith)
          | inr (_, along, _) ↦
              let back = simple.edge_sym v (s.candidate v) c.weight along in
              Has-LeadsTo (g.arcs u) v c.weight (
                subst (λ x. Has (g.arcs x) v c.weight) same
                  ((Has-keep (allowed (s.candidate v)) (g.arcs (s.candidate v)) v c.weight).0
                    back.1).0)
        ]

    popped-Kept : Kept n (Rest u (g.arcs u)) (m - 1) popped
    unfolding pop_front
    popped-Kept = (
      (
        ws,
        IsSound-turn h s popped.queue (Rest u (g.arcs u)) sound
            (λ v at lt q. elim q [
              | inl i ↦ elim (subst (In (s.candidate v)) front.1 i) [
                | inl same ↦ inr (same, wait_front v at lt same)
                | inr later ↦ inl later
              ]
              | inr r ↦ absurd r
            ])
            λ v i. subst (In v) (sym front.1) (inr i),
      ),
      record {
        ring = front.0;
        capacity = room.capacity;
        exact = omega (arith, room.exact);
        small = omega (arith, room.small);
      },
    )

  drain-Kept :
      (fuel m : ℕ) (s : State)
      → m < fuel
      → Kept n Nobody m s
      → (s' : State) × (drain g allowed fuel s ≡ some s')
        × (s'.queue.size ≡ 0)
        × (m' : ℕ) × Kept n Nobody m' s'
  unfolding drain
  drain-Kept zero m s lt kept = absurd (omega arith)
  drain-Kept (suc fuel) m s lt ((ws, sound), room) = elim (Bool-cases (s.queue.size == 0)) [
    | inl empty ↦ rw empty (s, refl, ground arith, m, ((ws, sound), room))
    | inr more ↦
        let some_node : 0 < s.queue.size = ground arith in
        rw more (
          drain-Kept fuel (m - 1) _ (ground (arith, room.exact)) (
            visit-Kept (u s sound room some_node) (g.arcs (u s sound room some_node))
              (popped s sound room some_node) (m - 1) (front_less s sound room some_node)
              (popped-Kept s sound room some_node)))
  ]

  -- `procedure` ends, with an empty queue and tables that are sound.
  pub procedure-Kept :
      (s : State) × (procedure g allowed (suc n) (λ _. n) ≡ some s)
      × (s.queue.size ≡ 0)
      × (m : ℕ) × Kept n Nobody m s
  unfolding procedure
  procedure-Kept = drain-Kept (suc n) n _ (omega arith) (process_all-Kept n (omega arith))
