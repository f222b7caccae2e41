-- ===== src/Suitor/Parallel/Improved/Thinned.antt =====
-- `process2` does what `process` does on the edges that are not matched in `suitor`, where the
-- threads take no steps at the other edges.
use cpp_suitor_and_local_dom.Base.{
  ℕ, ◌≡◌, refl, sym, ap, ◌∙◌, subst, ◌⊎◌, inl, inr, true, false, List, [], ◌∷◌, foldl, ltb, ◌==◌,
  to_update, to_updates, Bool-cases, arith,
}
use cpp_suitor_and_local_dom.Graph.{Arc, Graph}
use cpp_suitor_and_local_dom.Graph.Usable.{usable, keep}
use cpp_suitor_and_local_dom.Scan.{Best, consider}
use cpp_suitor_and_local_dom.Split.{created}
use cpp_suitor_and_local_dom.Suitor.Protocol.{Proposals}
use cpp_suitor_and_local_dom.Suitor.Sequential.{accepts, fresh}
use cpp_suitor_and_local_dom.Suitor.Sequential.Second.{accepts2}
use cpp_suitor_and_local_dom.Suitor.Sequential.Second.Beside.{beside}
use cpp_suitor_and_local_dom.Suitor.Parallel.{
  Pc, outer, scanning, locking, process, locked, System, start, turn, run, IsDone, IsJoined,
}
use cpp_suitor_and_local_dom.Suitor.Parallel.Improved.{process2, turn2, procedure2}

module _ (g : Graph) (suitor : ℕ → ℕ) where
  abbrev rest : Graph
  rest = usable g (beside g suitor)

  -- Where the thread stands on the edges that are left.
  unfoldable thinned : Pc → Pc
  thinned (outer u finish) = outer u finish
  thinned (scanning u finish current l b) =
      scanning u finish current (keep (beside g suitor current) l) b
  thinned (locking u finish current b) = locking u finish current b

  -- The edges that are left are considered as in `process`, and the others have no effect.
  consider_kept :
      (s : Proposals) (current : ℕ) (b : Best) (a : Arc)
      → beside g suitor current a.head ≡ true
      → consider (accepts2 g suitor s current) b a ≡ consider (accepts s) b a
  unfolding consider
  consider_kept s current b a kept = rw kept (ground arith)

  consider_out :
      (s : Proposals) (current : ℕ) (b : Best) (a : Arc)
      → beside g suitor current a.head ≡ false
      → consider (accepts2 g suitor s current) b a ≡ b
  unfolding consider
  consider_out s current b a out = rw out (ground arith)

  keep_kept :
      (current : ℕ) (a : Arc) (l : List Arc)
      → beside g suitor current a.head ≡ true
      → keep (beside g suitor current) (a ∷ l) ≡ a ∷ keep (beside g suitor current) l
  unfolding keep
  keep_kept current a l kept = rw kept refl

  keep_out :
      (current : ℕ) (a : Arc) (l : List Arc)
      → beside g suitor current a.head ≡ false
      → keep (beside g suitor current) (a ∷ l) ≡ keep (beside g suitor current) l
  unfolding keep
  keep_out current a l out = rw out refl

  keep_none : (current : ℕ) → keep (beside g suitor current) [] ≡ []
  unfolding keep
  keep_none current = refl

  -- A step is the same step there, or none.
  process2-process :
      (s : Proposals) (p : Pc)
      → (process rest s (thinned p)
          ≡ ((process2 g suitor s p).0, thinned (process2 g suitor s p).1))
        ⊎ ((process2 g suitor s p).0 ≡ s) × (thinned (process2 g suitor s p).1 ≡ thinned p)
  unfolding process process2 thinned locked
  process2-process s (outer u finish) = elim (Bool-cases (u == finish)) [
    | inl over ↦ inl (rw over refl)
    | inr more ↦ inl (rw more refl)
  ]
  process2-process s (scanning u finish current (a ∷ l) b) =
      elim (Bool-cases (beside g suitor current a.head)) [
        | inl kept ↦ inl (
            ap (λ k. process rest s (scanning u finish current k b)) (keep_kept current a l kept)
            ∙ ap (λ c. (s, scanning u finish current (keep (beside g suitor current) l) c))
                (sym (consider_kept s current b a kept)))
        | inr out ↦ inr (
          refl,
          ap (λ c. scanning u finish current (keep (beside g suitor current) l) c)
                (consider_out s current b a out)
              ∙ ap (λ k. scanning u finish current k b) (sym (keep_out current a l out)),
        )
      ]
  process2-process s (scanning u finish current [] b) = elim (Bool-cases (ltb 0 b.heaviest)) [
    | inl found ↦ inl (rw (keep_none current, found) refl)
    | inr nobody ↦ inl (rw (keep_none current, nobody) refl)
  ]
  process2-process s (locking u finish current b) =
      elim (Bool-cases (ltb (s.ws b.partner) b.heaviest)) [
        | inr no_more ↦ inl (rw no_more refl)
        | inl better ↦ elim (Bool-cases (s.suitor b.partner == g.num_nodes)) [
          | inl free ↦ inl (rw (better, free) refl)
          | inr taken ↦ inl (rw (better, taken) refl)
        ]
      ]

  module _ (threads : ℕ) where
    -- The same table, and the threads at the same places.
    record IsAlike (m k : System) : Type 0 where
      pub table_same : m.table ≡ k.table
      pub place_same : (i : ℕ) → thinned (m.pc i) ≡ k.pc i

    turn2-IsAlike :
        (m k : System) (i : ℕ)
        → IsAlike m k
        → IsAlike (turn2 g threads suitor m i) (turn rest threads k i)
          ⊎ IsAlike (turn2 g threads suitor m i) k
    unfolding turn2 turn
    turn2-IsAlike m k i alike = elim (Bool-cases (ltb i (created threads g.num_nodes))) [
      | inr none_such ↦ inr (rw none_such alike)
      | inl lt ↦ elim (process2-process m.table (m.pc i)) [
        | inl same ↦
            let (t, q) = process2 g suitor m.table (m.pc i) in
            let stepped : process rest k.table (k.pc i) ≡ (t, thinned q) =
              rw (sym alike.table_same, sym (alike.place_same i)) same in
            inl (
              rw (lt, stepped)
                (record {
                  table_same = refl;
                  place_same = λ x.
                      to_updates (λ a b. thinned a ≡ b) m.pc k.pc i q (thinned q) x (λ _. refl)
                        λ _. alike.place_same x;
                }))
        | inr (table, place) ↦
            let q = (process2 g suitor m.table (m.pc i)).1 in
            inr (
              rw lt (record {
                table_same = table ∙ alike.table_same;
                place_same = λ x.
                    to_update (λ a. thinned a ≡ k.pc x) m.pc i q x
                      (λ e. place ∙ alike.place_same i ∙ ap k.pc e) λ _. alike.place_same x;
              }))
      ]
    ]

    -- For each order there is one in which `process` does the same.
    turns-IsAlike :
        (order : List ℕ) (m k : System)
        → IsAlike m k
        → (fewer : List ℕ) × IsAlike
            (foldl (turn2 g threads suitor) m order)
            (foldl (turn rest threads) k fewer)
    turns-IsAlike [] m k alike = ([], alike)
    turns-IsAlike (i ∷ order) m k alike = elim (turn2-IsAlike m k i alike) [
      | inl both ↦ let (fewer, last) = turns-IsAlike order _ _ both in (i ∷ fewer, last)
      | inr one ↦ turns-IsAlike order _ k one
    ]

    thinned-IsDone : (p : Pc) → IsDone p → IsDone (thinned p)
    unfolding thinned
    thinned-IsDone (outer u finish) d = d
    thinned-IsDone (scanning _ _ _ _ _) d = absurd d
    thinned-IsDone (locking _ _ _ _) d = absurd d

    start-IsAlike : IsAlike (start g threads) (start rest threads)
    unfolding start thinned
    start-IsAlike = record { table_same = refl; place_same = λ i. refl }

    pub procedure2-run :
        (order : List ℕ)
        → IsJoined g threads (procedure2 g threads suitor order (fresh g))
        → (fewer : List ℕ) × IsJoined rest threads (run rest threads fewer)
          × ((run rest threads fewer).table ≡ (procedure2 g threads suitor order (fresh g)).table)
    unfolding procedure2 run start
    procedure2-run order joined =
        let (fewer, alike) =
          turns-IsAlike order (start g threads) (start rest threads) start-IsAlike in
        (
          fewer,
          λ i lt. subst IsDone (alike.place_same i) (thinned-IsDone _ (joined i lt)),
          sym alike.table_same,
        )
