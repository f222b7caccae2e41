-- ===== src/Dominant/Rest/Alike.antt =====
-- `process_vertex` on a table that already has mates and on the edges between the nodes without
-- one, side by side.
use cpp_suitor_and_local_dom.Base.{
  ℕ, ◌≡◌, refl, sym, ap, ◌∙◌, ◌≢◌, ◌⊎◌, inl, inr, true, false, ◌&&◌, List, [], ◌∷◌, ◌==◌, update,
  to_update, to_updates, of_update, Bool-cases, ℕ_discrete, arith,
}
use mathlib.Core.Path.{fun_ext}
use cpp_suitor_and_local_dom.Graph.{Arc, Graph}
use cpp_suitor_and_local_dom.Graph.Usable.{keep}
use cpp_suitor_and_local_dom.Graph.Skipped.{scan-keep}
use cpp_suitor_and_local_dom.Graph.Free.{both_free, rest_of}
use cpp_suitor_and_local_dom.Scan.{Best, scan, scan-Finds}
use cpp_suitor_and_local_dom.LocalQueue.{push_back}
use cpp_suitor_and_local_dom.Dominant.{State, match, is_free, heaviest_free, process_vertex}

module _ (g : Graph) (mate₀ : ℕ → ℕ) (nowhere : mate₀ g.num_nodes ≡ g.num_nodes) where
  abbrev n : ℕ
  n = g.num_nodes

  abbrev rest : Graph
  rest = rest_of g mate₀

  -- `s` is a state of the run on the table, `r` the one of the run on the rest of the graph.
  pub record IsAlike (s r : State) : Type 0 where
    pub queue_same : s.queue ≡ r.queue
    pub free_same : (v : ℕ) → mate₀ v ≡ n → (s.mate v ≡ r.mate v) × (s.candidate v ≡ r.candidate v)
    pub free_candidate : (v : ℕ) → mate₀ v ≡ n → (s.candidate v ≡ n) ⊎ (mate₀ (s.candidate v) ≡ n)
    pub taken_same : (v : ℕ) → mate₀ v ≢ n → (s.mate v ≡ mate₀ v) × (r.mate v ≡ n)

  -- The tests of the loop over the arcs of a free node.
  same_test :
      (s r : State)
      → IsAlike s r
      → (u : ℕ) → mate₀ u ≡ n
      → (a : Arc)
      → is_free g (λ _ _. true) s.mate u a
        ≡ is_free rest (λ _ _. true) r.mate u a && both_free n mate₀ u a.head
  same_test s r alike u free a = elim (ℕ_discrete (mate₀ a.head) n) [
    | yes e ↦ ground (arith, e, free, alike.free_same a.head e)
    | no ne ↦ ground (arith, ne, free, alike.taken_same a.head ne)
  ]

  same_choice :
      (s r : State)
      → IsAlike s r
      → (u : ℕ) → mate₀ u ≡ n
      → heaviest_free g (λ _ _. true) s.mate u ≡ heaviest_free rest (λ _ _. true) r.mate u
  same_choice s r alike u free =
      ap (λ test. scan test (record { partner = n; heaviest = 0 }) (g.arcs u))
        (fun_ext (same_test s r alike u free))
      ∙ scan-keep (is_free rest (λ _ _. true) r.mate u) (both_free n mate₀ u) _ (g.arcs u)

  -- What a loop finds, if anything, had no mate.
  partner_free :
      (s r : State)
      → IsAlike s r
      → (u : ℕ)
      → let p = (heaviest_free g (λ _ _. true) s.mate u).partner in (p ≡ n) ⊎ (mate₀ p ≡ n)
  partner_free s r alike u =
      let start : Best = record { partner = n; heaviest = 0 } in
      let test = is_free g (λ _ _. true) s.mate u in
      let found = scan test start (g.arcs u) in
      elim (scan-Finds test start (g.arcs u)).origin [
        | inl e ↦ inl (ap (λ (b : Best). b.partner) e)
        | inr (_, ok, _) ↦ elim (ℕ_discrete (mate₀ found.partner) n) [
          | yes e ↦ inr e
          | no ne ↦ absurd (ground (arith, ok, ne, alike.taken_same found.partner ne))
        ]
      ]

  chosen_taken :
      (s r : State) (u p : ℕ)
      → IsAlike s r
      → mate₀ u ≢ n
      → IsAlike (record s { candidate = update s.candidate u p }) r
  chosen_taken s r u p alike taken = record {
    queue_same = alike.queue_same;
    free_same = λ v free.
        to_update (λ a. (s.mate v ≡ r.mate v) × (a ≡ r.candidate v)) s.candidate u p v
          (λ e. absurd (taken (ap mate₀ e ∙ free))) λ _. alike.free_same v free;
    free_candidate = λ v free.
        to_update (λ a. (a ≡ n) ⊎ (mate₀ a ≡ n)) s.candidate u p v
          (λ e. absurd (taken (ap mate₀ e ∙ free))) λ _. alike.free_candidate v free;
    taken_same = alike.taken_same;
  }

  -- Nobody who is left has the candidate `u` that has a mate.
  not_back :
      (s r : State) (u : ℕ)
      → IsAlike s r
      → mate₀ u ≢ n
      → (p : ℕ) → (mate₀ p ≡ n)
      → (update s.candidate u p p ≡ u)
      → ⊥
  not_back s r u alike taken p free back = elim (of_update (λ a. a ≡ u) s.candidate u p p back) [
    | inl (e, _) ↦ absurd (taken (ap mate₀ e ∙ free))
    | inr (_, is) ↦ elim (alike.free_candidate p free) [
      | inl e ↦ absurd (taken (ap mate₀ (sym is ∙ e) ∙ nowhere))
      | inr e ↦ absurd (taken (ap mate₀ (sym is) ∙ e))
    ]
  ]

  -- A vertex that has a mate is processed on the table alone.
  pub process_taken :
      (s r : State) (u : ℕ)
      → IsAlike s r
      → mate₀ u ≢ n
      → IsAlike (process_vertex g (λ _ _. true) s u) r
  unfolding process_vertex
  process_taken s r u alike taken =
      let p = (heaviest_free g (λ _ _. true) s.mate u).partner in
      let kept = chosen_taken s r u p alike taken in
      elim (Bool-cases (p == n)) [
        | inl nobody ↦ rw nobody kept
        | inr somebody ↦ elim (Bool-cases (update s.candidate u p p == u)) [
          | inr other ↦ rw (somebody, other) kept
          | inl both ↦ absurd (
              not_back s r u alike taken p (ground (arith, somebody, partner_free s r alike u))
                (ground (arith, both)))
        ]
      ]

  -- A vertex that has a mate has no arcs in the rest of the graph.
  no_arcs : (u : ℕ) (l : List Arc) → mate₀ u ≢ n → keep (both_free n mate₀ u) l ≡ []
  unfolding keep
  no_arcs u [] taken = refl
  no_arcs u (a ∷ more) taken =
      let out : both_free n mate₀ u a.head ≡ false = ground (arith, taken) in
      rw out (no_arcs u more taken)

  no_partner :
      (r : State) (u : ℕ)
      → mate₀ u ≢ n
      → heaviest_free rest (λ _ _. true) r.mate u ≡ record { partner = n; heaviest = 0 }
  unfolding scan
  no_partner r u taken = rw (no_arcs u (g.arcs u) taken) refl

  pub process_taken_rest :
      (s r : State) (u : ℕ)
      → IsAlike s r
      → mate₀ u ≢ n
      → IsAlike s (process_vertex rest (λ _ _. true) r u)
  unfolding process_vertex
  process_taken_rest s r u alike taken =
      let nobody : (n == n) ≡ true = ground arith in
      rw (no_partner r u taken, nobody)
        (record {
          queue_same = alike.queue_same;
          free_same = λ v free.
              to_update (λ a. (s.mate v ≡ r.mate v) × (s.candidate v ≡ a)) r.candidate u n v
                (λ e. absurd (taken (ap mate₀ e ∙ free))) λ _. alike.free_same v free;
          free_candidate = alike.free_candidate;
          taken_same = alike.taken_same;
        })

  chosen_free :
      (s r : State) (u p : ℕ)
      → IsAlike s r
      → mate₀ u ≡ n
      → (p ≡ n) ⊎ (mate₀ p ≡ n)
      → IsAlike
          (record s { candidate = update s.candidate u p })
          (record r { candidate = update r.candidate u p })
  chosen_free s r u p alike free to = record {
    queue_same = alike.queue_same;
    free_same = λ v f.
        to_updates (λ a b. (s.mate v ≡ r.mate v) × (a ≡ b)) s.candidate r.candidate u p p v
          (λ _. ((alike.free_same v f).0, refl)) λ _. alike.free_same v f;
    free_candidate = λ v f.
        to_update (λ a. (a ≡ n) ⊎ (mate₀ a ≡ n)) s.candidate u p v (λ _. to)
          λ _. alike.free_candidate v f;
    taken_same = alike.taken_same;
  }

  match_free :
      (s r : State) (u p : ℕ)
      → IsAlike s r
      → mate₀ u ≡ n
      → mate₀ p ≡ n
      → IsAlike (match s u p) (match r u p)
  unfolding match
  match_free s r u p alike free to = record {
    queue_same = ap (λ q. push_back (push_back q u) p) alike.queue_same;
    free_same = λ v f.
        to_updates (λ a b. (a ≡ b) × (s.candidate v ≡ r.candidate v)) (update s.mate u p)
          (update r.mate u p) p u u v (λ _. (refl, (alike.free_same v f).1))
          λ _.
            to_updates (λ a b. (a ≡ b) × (s.candidate v ≡ r.candidate v)) s.mate r.mate u p p v
              (λ _. (refl, (alike.free_same v f).1)) λ _. alike.free_same v f;
    free_candidate = alike.free_candidate;
    taken_same = λ v ne.
        to_updates (λ a b. (a ≡ mate₀ v) × (b ≡ n)) (update s.mate u p) (update r.mate u p) p u u v
          (λ e. absurd (ne (ap mate₀ (sym e) ∙ to)))
          λ _.
            to_updates (λ a b. (a ≡ mate₀ v) × (b ≡ n)) s.mate r.mate u p p v
              (λ e. absurd (ne (ap mate₀ (sym e) ∙ free))) λ _. alike.taken_same v ne;
  }

  pub process_free :
      (s r : State) (u : ℕ)
      → IsAlike s r
      → mate₀ u ≡ n
      → IsAlike (process_vertex g (λ _ _. true) s u) (process_vertex rest (λ _ _. true) r u)
  unfolding process_vertex
  process_free s r u alike free =
      let b = heaviest_free rest (λ _ _. true) r.mate u in
      let same = same_choice s r alike u free in
      let to : (b.partner ≡ n) ⊎ (mate₀ b.partner ≡ n) = rw same at (partner_free s r alike u) in
      let chosen = chosen_free s r u b.partner alike free to in
      rw same (elim (Bool-cases (b.partner == n)) [
        | inl nobody ↦ rw nobody chosen
        | inr somebody ↦
            let left : mate₀ b.partner ≡ n = ground (arith, somebody, to) in
            let at = (chosen.free_same b.partner left).1 in
            elim (Bool-cases (update r.candidate u b.partner b.partner == u)) [
              | inl both ↦ rw (somebody, at, both) (match_free _ _ u b.partner chosen free left)
              | inr other ↦ rw (somebody, at, other) chosen
            ]
      ])
