-- ===== src/Dominant/Process.antt =====
-- `processVertex` at a node without a mate.
use cpp_suitor_and_local_dom.Base.{
  ℕ, ◌≤◌, ◌<◌, ◌≡◌, ap, ◌≢◌, ◌⊎◌, inl, inr, Bool, arith, ◌==◌, Bool-cases, update,
}
use cpp_suitor_and_local_dom.Graph.{Graph, Edge, IsSimple}
use cpp_suitor_and_local_dom.Scan.{Best, scan-Finds, Finds}
use cpp_suitor_and_local_dom.Dominant.{State, is_free, heaviest_free, match, process_vertex}
use cpp_suitor_and_local_dom.Graph.Usable.{usable, Has-keep}
use cpp_suitor_and_local_dom.Dominant.Sound.{IsSound}
use cpp_suitor_and_local_dom.Dominant.Vertex.{chosen-IsSound, match-IsSound}
use cpp_suitor_and_local_dom.Dominant.Room.{HasRoom, contents_pair, HasRoom-pair}

module _ (g : Graph) (allowed : ℕ → ℕ → Bool) (simple : IsSimple (usable g allowed)) {seen : ℕ}
    {Waits : ℕ → ℕ → Type 0} {ws : ℕ → ℕ} (s : State)
    (sound : IsSound (usable g allowed) seen Waits ws s) {m : ℕ} (room : HasRoom g.num_nodes m s)
    (u : ℕ) (less : u < g.num_nodes) (free : s.mate u ≡ g.num_nodes) {seen' : ℕ}
    (more : seen ≤ seen') (u_seen : u < seen') (all_nodes : seen' ≤ g.num_nodes)
    (only_u : (v : ℕ) → v < seen' → (v < seen) ⊎ (v ≡ u)) (Waits' : ℕ → ℕ → Type 0)
    (others : (x w : ℕ) → Waits x w → (x ≡ u) ⊎ Waits' x w) where
  abbrev h : Graph
  h = usable g allowed

  abbrev b : Best
  b = heaviest_free g allowed s.mate u

  found :
      Finds
        (is_free g allowed s.mate u)
        (record { partner = g.num_nodes; heaviest = 0 })
        (g.arcs u)
        b
  found = scan-Finds (is_free g allowed s.mate u) _ (g.arcs u)

  heaviest : (x z : ℕ) → Edge h u x z → (z ≤ b.heaviest) ⊎ (s.mate x < g.num_nodes)
  heaviest x z e = ground (
    arith,
    (Has-keep (allowed u) (g.arcs u) x z).0 e.1,
    found.rest_refused x z,
    sound.null_or_node x,
  )

  choice :
      (b.partner ≡ g.num_nodes) × (b.heaviest ≡ 0)
      ⊎ (b.partner < g.num_nodes)
        × Edge h u b.partner b.heaviest
        × (s.mate b.partner ≡ g.num_nodes)
        × (0 < b.heaviest)
  choice = elim found.origin [
    | inl none ↦ inl (ap (λ c. c.partner) none, ap (λ c. c.heaviest) none)
    | inr (has, passed, positive) ↦
        let along : Edge h u b.partner b.heaviest =
          (less, (Has-keep (allowed u) (g.arcs u) b.partner b.heaviest).1 (has, ground arith)) in
        inr ((simple.edge_sym u b.partner b.heaviest along).0, along, ground arith, positive)
  ]

  abbrev Kept : State → Type 0
  Kept s' = ((ws' : ℕ → ℕ) × IsSound h seen' Waits' ws' s') × HasRoom g.num_nodes m s'

  -- `candidate` does not matter for the room in the queue.
  HasRoom-chosen : HasRoom g.num_nodes m (record s { candidate = update s.candidate u b.partner })
  HasRoom-chosen = record {
    ring = room.ring;
    capacity = room.capacity;
    exact = room.exact;
    small = room.small;
  }

  undecided :
      (b.partner ≡ g.num_nodes) × (b.heaviest ≡ 0)
        ⊎ (b.partner < g.num_nodes)
          × Edge h u b.partner b.heaviest
          × (s.mate b.partner ≡ g.num_nodes)
          × (s.candidate b.partner ≢ u)
          × (0 < b.heaviest)
      → Kept (record s { candidate = update s.candidate u b.partner })
  undecided case = (
    (
      ws,
      chosen-IsSound h simple s sound u less free more u_seen all_nodes only_u Waits' others
          b.partner b.heaviest heaviest case,
    ),
    HasRoom-chosen,
  )

  mutual_choice :
      b.partner < g.num_nodes
      → Edge h u b.partner b.heaviest
      → s.mate b.partner ≡ g.num_nodes
      → s.candidate b.partner ≡ u
      → Kept (match (record s { candidate = update s.candidate u b.partner }) u b.partner)
  unfolding match
  mutual_choice lt along free_v wanted =
      let apart = simple.no_loop u b.partner b.heaviest along in
      (
        (
          _,
          match-IsSound h simple s sound u less free more u_seen all_nodes only_u Waits' others
              b.partner b.heaviest heaviest lt along free_v wanted
              (contents_pair g.num_nodes s room u b.partner apart less lt free free_v),
        ),
        HasRoom-pair g.num_nodes s room u b.partner apart less lt free free_v _,
      )

  pub process_vertex-Kept : Kept (process_vertex g allowed s u)
  unfolding process_vertex
  process_vertex-Kept = elim (Bool-cases (b.partner == g.num_nodes)) [
    | inl none ↦ rw none (undecided (ground (arith, choice)))
    | inr node ↦ elim (Bool-cases (update s.candidate u b.partner b.partner == u)) [
      | inr other ↦ rw (node, other) (undecided (ground (arith, choice, apart)))
      | inl same ↦
          rw (node, same)
            (elim choice [
              | inl none ↦ absurd (ground arith)
              | inr (lt, along, free_v, _) ↦
                  mutual_choice lt along free_v
                    (ground (arith, simple.no_loop u b.partner b.heaviest along))
            ])
    ]
  ]
    where
      apart : Edge h u b.partner b.heaviest → u ≢ b.partner
      apart = simple.no_loop u b.partner b.heaviest
