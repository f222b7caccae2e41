-- ===== src/Heavy/Passes.antt =====
-- The two loops over the nodes of the heavy matching: the first finds the paths, the second the
-- cycles.
use cpp_suitor_and_local_dom.Base.{
  ℕ, zero, suc, ◌<◌, ◌≡◌, refl, sym, subst, inl, inr, Bool, true, false, not, ◌&&◌, ◌||◌, Option,
  some, ◌>>=◌, Bool-cases, ℕ_discrete, update, to_update, arith, ◌==◌,
}
use cpp_suitor_and_local_dom.Suitor.Protocol.{Proposals}
use cpp_suitor_and_local_dom.Heavy.{
  Twin, Walk, valid_path, store, finish, each_node, begin1, begin2, along_path, around_cycle,
  visit_path, visit_cycle,
}
use cpp_suitor_and_local_dom.Heavy.Pairing.{count}
use cpp_suitor_and_local_dom.Heavy.Track.{
  along, IsTwin, pairing, IsTrack, begin_weight, begin1-IsTrack, begin2-IsTrack,
}
use cpp_suitor_and_local_dom.Heavy.Ends.{IsDone, valid_path-IsBest}
use cpp_suitor_and_local_dom.Heavy.Walks.{along_path_ends, around_cycle_ends}
use cpp_suitor_and_local_dom.Heavy.Joined.{IsJoined}
use cpp_suitor_and_local_dom.Heavy.Joining.{store-IsJoined}
use cpp_suitor_and_local_dom.Heavy.Single.{single-IsJoined}

-- An invariant of the rounds of a loop over the nodes; each round ends.
pub each_node_ends {ℓ κ} :
    {S : Type ℓ} (P : ℕ → S → Type κ) (body : S → ℕ → Option S) (k : ℕ)
    → ((i : ℕ) (s : S) → i < k → P i s → (t : S) × (body s i ≡ some t) × P (suc i) t)
    → (s : S) → P 0 s
    → (t : S) × (each_node body k s ≡ some t) × P k t
unfolding each_node
each_node_ends P body zero round s p = (s, refl, p)
each_node_ends P body (suc k) round s p =
    let (t, ran, q) = each_node_ends P body k (λ i u lt. round i u (omega arith)) s p in
    let (v, more, r) = round k t (omega arith) q in (v, rw ran more, r)

module _ {m : Twin} (twin : IsTwin m) where
  -- What the walks have done so far.
  abbrev pub Paths : ℕ → (ℕ → Bool) × Proposals → Type 0
  Paths k s =
      ((chosen : ℕ → Bool) × IsJoined m s.0 s.1 chosen)
      × ((x : ℕ) (b : Bool) → x < k → along m b x ≡ m.null → s.0 x ≡ true)

  abbrev pub Cycles : ℕ → (ℕ → Bool) × Proposals → Type 0
  Cycles k s =
      ((chosen : ℕ → Bool) × IsJoined m s.0 s.1 chosen)
      × ((x : ℕ) (b : Bool) → x < m.null → along m b x ≡ m.null → s.0 x ≡ true)
      × ((x : ℕ) → x < k → s.0 x ≡ true)

  -- A finished walk keeps the invariant.
  finish-IsJoined :
      {processed : ℕ → Bool} {t : Proposals} {chosen : ℕ → Bool} (w : Walk)
      → IsJoined m processed t chosen
      → IsDone m processed w
      → (joint : ℕ → Bool) × IsJoined m w.processed (store (valid_path w) t) joint
  finish-IsJoined w j d =
      let (b, best) = valid_path-IsBest twin w d in (_, store-IsJoined j d.grown d.inside best)

  already :
      (b : Bool) (k : ℕ) (done : Bool)
      → ((m.mate k == m.null) || (m.mate2 k == m.null)) && not done ≡ false
      → along m b k ≡ m.null
      → done ≡ true
  already true k true e lack = refl
  already true k false e lack = ground (arith, e, lack)
  already false k true e lack = refl
  already false k false e lack = ground (arith, e, lack)

  -- Of the nodes before, and of `k`.
  and_this {ℓ} :
      {P : ℕ → Type ℓ} {k : ℕ} → ((x : ℕ) → x < k → P x) → P k → (x : ℕ) → x < suc k → P x
  and_this {P = P} {k} below here x lt = elim (ℕ_discrete x k) [
    | yes e ↦ subst P (sym e) here
    | no ne ↦ below x (omega arith)
  ]

  module _ {processed : ℕ → Bool} {t : Proposals} {chosen : ℕ → Bool}
      (j : IsJoined m processed t chosen) where
    path_joined :
        {late : Bool} (k : ℕ) (w : Walk)
        → ((x : ℕ) (b : Bool) → x < k → along m b x ≡ m.null → processed x ≡ true)
        → IsTrack m processed late k w
        → along m late k ≡ m.null
        → 0 < count m.null w.processed
        → (s : (ℕ → Bool) × Proposals) × ((along_path m m.null w >>= λ v. some (finish t v))
            ≡ some s)
          × Paths (suc k) s
    path_joined k w done track lone some_in =
        let (v, ran, d, here) =
          along_path_ends twin j.closed m.null w track lone (omega (arith, some_in)) in
        (
          finish t v,
          rw ran refl,
          (
            finish-IsJoined v j d,
            λ x b lt lack.
                and_this {P = λ y. along m b y ≡ m.null → v.processed y ≡ true}
                  (λ y less no_mate. d.grown y (done y b less no_mate)) (λ _. here) x lt lack,
          ),
        )

    cycle_joined :
        (k : ℕ)
        → k < m.null
        → ((x : ℕ) (b : Bool) → x < m.null → along m b x ≡ m.null → processed x ≡ true)
        → ((x : ℕ) → x < k → processed x ≡ true)
        → processed k ≡ false
        → (s : (ℕ → Bool) × Proposals) × ((around_cycle m m.null k (begin2 m processed k) >>= λ v.
              some (finish t v))
            ≡ some s)
          × Cycles (suc k) s
    unfolding begin2
    cycle_joined k lt lacking done new =
        let full : (b : Bool) (x : ℕ) → x < m.null → processed x ≡ false → along m b x < m.null =
          λ b x less fresh. elim (ℕ_discrete (along m b x) m.null) [
            | yes lack ↦ absurd (ground (arith, lacking x b less lack, fresh))
            | no ne ↦ omega (arith, ne, (pairing twin b).bound x)
          ] in
        let goes = full false k lt new in
        let (v, ran, d, here) =
          around_cycle_ends twin j.closed m.null (begin2 m processed k)
            (begin2-IsTrack twin j.closed new goes) new lt (twin.second.loopless k goes) full
            (omega (arith, begin_weight twin j.closed new false goes (λ _. 1))) in
        (
          finish t v,
          rw ran refl,
          (
            finish-IsJoined v j d,
            λ x b less lack. d.grown x (lacking x b less lack),
            and_this (λ x less. d.grown x (done x less)) here,
          ),
        )

  pub visit_path_ends :
      (k : ℕ) (s : (ℕ → Bool) × Proposals)
      → k < m.null
      → Paths k s
      → (t : (ℕ → Bool) × Proposals) × (visit_path m m.null s k ≡ some t) × Paths (suc k) t
  unfolding visit_path begin1 begin2
  visit_path_ends k (processed, t) lt ((chosen, j), done) =
      elim (Bool-cases ((m.mate k == m.null) && (m.mate2 k == m.null))) [
        | inl single ↦ rw single (
          (update processed k true, t),
          refl,
          (
            single-IsJoined twin j k lt (ground (arith, single)) (ground (arith, single)),
            λ x b less lack.
                to_update (λ c. c ≡ true) processed k true x (λ _. refl)
                  λ ne. done x b (omega (arith, less, ne)) lack,
          ),
        )
        | inr paired ↦
            rw paired
              (elim (Bool-cases
                (((m.mate k == m.null) || (m.mate2 k == m.null)) && not (processed k))) [
                  | inr other ↦ rw other (
                    (processed, t),
                    refl,
                    (
                      (chosen, j),
                      λ x b.
                          and_this {P = λ y. along m b y ≡ m.null → processed y ≡ true}
                            (λ y. done y b) (already b k (processed k) other) x,
                    ),
                  )
                  | inl start ↦ rw start (elim (Bool-cases (m.mate k == m.null)) [
                    | inl lone ↦
                        let fresh : processed k ≡ false = ground (arith, start) in
                        let away : m.mate2 k < m.null =
                          ground (arith, lone, paired, twin.second.bound k) in
                        rw lone (
                          path_joined j k (begin2 m processed k) done
                            (begin2-IsTrack twin j.closed fresh away) (ground (arith, lone))
                            (omega (arith, begin_weight twin j.closed fresh false away (λ _. 1))))
                    | inr goes ↦
                        let fresh : processed k ≡ false = ground (arith, start) in
                        let away : m.mate k < m.null = ground (arith, goes, twin.first.bound k) in
                        rw goes (
                          path_joined j k (begin1 m processed k) done
                            (begin1-IsTrack twin j.closed fresh away) (ground (arith, goes, start))
                            (omega (arith, begin_weight twin j.closed fresh true away (λ _. 1))))
                  ])
                ])
      ]

  pub visit_cycle_ends :
      (k : ℕ) (s : (ℕ → Bool) × Proposals)
      → k < m.null
      → Cycles k s
      → (t : (ℕ → Bool) × Proposals) × (visit_cycle m m.null s k ≡ some t) × Cycles (suc k) t
  unfolding visit_cycle
  visit_cycle_ends k (processed, t) lt ((chosen, j), lacking, done) =
      elim (Bool-cases (processed k)) [
        | inl old ↦ rw old ((processed, t), refl, ((chosen, j), lacking, and_this done old))
        | inr new ↦ rw new (cycle_joined j k lt lacking done new)
      ]
