-- ===== src/Dominant/Rest.antt =====
-- `procedure` on a table that already has mates does what it does on the edges between the nodes
-- without one.
pub mod Alike
use cpp_suitor_and_local_dom.Base.{
  ℕ, zero, suc, ◌≡◌, refl, sym, ap, ◌∙◌, subst, ◌≢◌, ◌⊎◌, inl, inr, true, false, not, ◌&&◌, List,
  [], ◌∷◌, some, ◌==◌, if◌then◌else◌, update, to_update, to_updates, of_update, Bool-cases,
  ℕ_discrete, arith,
}
use mathlib.Core.Option.{some_inj}
use cpp_suitor_and_local_dom.Graph.{Arc, Graph}
use cpp_suitor_and_local_dom.Graph.Usable.{keep}
use cpp_suitor_and_local_dom.Graph.Skipped.{scan-keep}
use cpp_suitor_and_local_dom.Graph.Free.{both_free, rest_of}
use cpp_suitor_and_local_dom.Scan.{Best, scan, scan-Finds}
use cpp_suitor_and_local_dom.LocalQueue.{LocalQueue, with_capacity, push_back, pop_front}
use cpp_suitor_and_local_dom.Dominant.{
  State, match, is_free, heaviest_free, process_vertex, process_all, visit, drain, procedure,
}
use cpp_suitor_and_local_dom.Dominant.Rest.Alike.{
  IsAlike, process_taken, process_taken_rest, process_free,
}

module _ (g : Graph) (mate₀ : ℕ → ℕ) (nowhere : mate₀ g.num_nodes ≡ g.num_nodes) where
  abbrev n : ℕ
  n = g.num_nodes

  abbrev rest : Graph
  rest = rest_of g mate₀

  abbrev Alike : State → State → Type 0
  Alike = IsAlike g mate₀ nowhere

  visit-IsAlike :
      (u : ℕ) (l : List Arc) (s r : State)
      → Alike s r
      → Alike
          (visit g (λ _ _. true) u l s)
          (visit rest (λ _ _. true) u (keep (both_free n mate₀ u) l) r)
  unfolding visit keep
  visit-IsAlike u [] s r alike = alike
  visit-IsAlike u (a ∷ more) s r alike =
      let head = a.head in
      elim (ℕ_discrete (mate₀ head) n) [
        | no taken ↦
            let out : both_free n mate₀ u head ≡ false = ground (arith, taken) in
            rw out (elim (Bool-cases (not (s.mate u == head) && (s.candidate head == u))) [
              | inl turns ↦
                  rw turns
                    (visit-IsAlike u more _ r (process_taken g mate₀ nowhere s r head alike taken))
              | inr stays ↦ rw stays (visit-IsAlike u more s r alike)
            ])
        | yes free ↦ elim (ℕ_discrete (mate₀ u) n) [
          | no taken ↦
              let out : both_free n mate₀ u head ≡ false = ground (arith, taken) in
              let other : s.candidate head ≢ u = λ e. elim (alike.free_candidate head free) [
                | inl none_of ↦ taken (ap mate₀ (sym e ∙ none_of) ∙ nowhere)
                | inr left ↦ taken (ap mate₀ (sym e) ∙ left)
              ] in
              let stays : not (s.mate u == head) && (s.candidate head == u) ≡ false =
                ground (arith, other) in
              rw (out, stays) (visit-IsAlike u more s r alike)
          | yes free_u ↦
              let kept : both_free n mate₀ u head ≡ true = ground (arith, free, free_u) in
              let same_mate = (alike.free_same u free_u).0 in
              let same_candidate = (alike.free_same head free).1 in
              let longer : keep (both_free n mate₀ u) (a ∷ more)
                  ≡ a ∷ keep (both_free n mate₀ u) more =
                rw kept refl in
              let k = keep (both_free n mate₀ u) more in
              let turned : Alike
                  (visit g (λ _ _. true) u more
                    (if not (s.mate u == head) && (s.candidate head == u)
                      then process_vertex g (λ _ _. true) s head
                      else s))
                  (visit rest (λ _ _. true) u k
                    (if not (r.mate u == head) && (r.candidate head == u)
                      then process_vertex rest (λ _ _. true) r head
                      else r)) =
                rw (same_mate, same_candidate)
                  (elim (Bool-cases (not (r.mate u == head) && (r.candidate head == u))) [
                    | inl turns ↦ rw turns (
                        visit-IsAlike u more _ _ (process_free g mate₀ nowhere s r head alike free))
                    | inr stays ↦ rw stays (visit-IsAlike u more s r alike)
                  ]) in
              subst
                (λ l. Alike (visit g (λ _ _. true) u (a ∷ more) s) (visit rest (λ _ _. true) u l r))
                (sym longer) turned
        ]
      ]

  process_all-IsAlike :
      (k : ℕ) (s r : State)
      → Alike s r
      → Alike (process_all g (λ _ _. true) k s) (process_all rest (λ _ _. true) k r)
  unfolding process_all
  process_all-IsAlike zero s r alike = alike
  process_all-IsAlike (suc k) s r alike =
      let before = process_all-IsAlike k s r alike in
      elim (ℕ_discrete (mate₀ k) n) [
        | yes free ↦ process_free g mate₀ nowhere _ _ k before free
        | no taken ↦
            process_taken_rest g mate₀ nowhere _ _ k
              (process_taken g mate₀ nowhere _ _ k before taken) taken
      ]

  drain-IsAlike :
      (fuel : ℕ) (s r z : State)
      → Alike s r
      → drain rest (λ _ _. true) fuel r ≡ some z
      → (y : State) × (drain g (λ _ _. true) fuel s ≡ some y) × Alike y z
  unfolding drain
  drain-IsAlike zero s r z alike e = absurd (ground (arith, e))
  drain-IsAlike (suc fuel) s r z alike e =
      let same_s : s ≡ record s { queue = r.queue } =
        ap (λ q. record s { queue = q }) alike.queue_same in
      subst (λ t. (y : State) × (drain g (λ _ _. true) (suc fuel) t ≡ some y) × Alike y z)
        (sym same_s)
        (elim (Bool-cases (r.queue.size == 0)) [
          | inl over ↦
              let same : r ≡ z = some_inj.0 (rw over at e) in
              rw over (
                record s { queue = r.queue },
                refl,
                subst (Alike (record s { queue = r.queue })) same (on r.queue),
              )
          | inr going ↦
              let (u, left) = pop_front r.queue in
              rw going (
                drain-IsAlike fuel (visit g (λ _ _. true) u (g.arcs u) (record s { queue = left }))
                  (visit rest (λ _ _. true) u (rest.arcs u) (record r { queue = left })) z
                  (visit-IsAlike u (g.arcs u) (record s { queue = left })
                    (record r { queue = left }) (on left))
                  (rw going at e))
        ])
    where
      on : (q : LocalQueue) → Alike (record s { queue = q }) (record r { queue = q })
      on q = record {
        queue_same = refl;
        free_same = alike.free_same;
        free_candidate = alike.free_candidate;
        taken_same = alike.taken_same;
      }

  -- A matching to which `procedure` adds: given that `procedure` ends on the rest of the graph, it
  -- ends on the table of mates, leaves the mates that are there, and gives every other node the
  -- mate that it has in the rest.
  pub procedure-rest :
      (fuel : ℕ) (z : State)
      → procedure rest (λ _ _. true) fuel (λ _. n) ≡ some z
      → (y : State) × (procedure g (λ _ _. true) fuel mate₀ ≡ some y)
        × ((v : ℕ)
            → (mate₀ v ≡ n) × (y.mate v ≡ z.mate v)
              ⊎ (mate₀ v ≢ n) × (y.mate v ≡ mate₀ v) × (z.mate v ≡ n))
  unfolding procedure
  procedure-rest fuel z e =
      let q : LocalQueue = with_capacity n in
      let start : State = record { candidate = λ _. n; mate = mate₀; queue = q } in
      let start_rest : State = record { candidate = λ _. n; mate = λ _. n; queue = q } in
      let alike : Alike start start_rest = record {
        queue_same = refl;
        free_same = λ v free. (free, refl);
        free_candidate = λ v free. inl refl;
        taken_same = λ v taken. (refl, refl);
      } in
      let (y, ran, after) =
        drain-IsAlike fuel (process_all g (λ _ _. true) n start)
          (process_all rest (λ _ _. true) n start_rest) z
          (process_all-IsAlike n start start_rest alike) e in
      (
        y,
        ran,
        λ v. elim (ℕ_discrete (mate₀ v) n) [
          | yes free ↦ inl (free, (after.free_same v free).0)
          | no taken ↦ inr (taken, (after.taken_same v taken).0, (after.taken_same v taken).1)
        ],
      )
