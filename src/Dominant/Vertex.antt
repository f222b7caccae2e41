-- ===== src/Dominant/Vertex.antt =====
-- `processVertex` keeps what the tables say.
use cpp_suitor_and_local_dom.Base.{
  ℕ, ◌≤◌, ◌<◌, ◌≡◌, sym, ap, ◌≢◌, ◌⊎◌, inl, inr, ◌↔◌, [], ◌∷◌, ◌++◌, arith, subst, dec_lt, update,
  to_update, to_updates, ℕ_discrete,
}
use cpp_suitor_and_local_dom.Graph.{Graph, Edge, IsSimple}
use cpp_suitor_and_local_dom.LocalQueue.{push_back}
use cpp_suitor_and_local_dom.LocalQueue.Contents.{contents}
use cpp_suitor_and_local_dom.Dominant.{State}
use cpp_suitor_and_local_dom.Dominant.Sound.{IsSound, Chose, In, In-snoc}

-- The node `u` has no mate; `v` is what its search found, over an edge of weight `y`.
module _ (h : Graph) (simple : IsSimple h) {seen : ℕ} {Waits : ℕ → ℕ → Type 0} {ws : ℕ → ℕ}
    (s : State) (sound : IsSound h seen Waits ws s) (u : ℕ) (less : u < h.num_nodes)
    (free : s.mate u ≡ h.num_nodes) {seen' : ℕ} (more : seen ≤ seen') (u_seen : u < seen')
    (all_nodes : seen' ≤ h.num_nodes) (only_u : (v : ℕ) → v < seen' → (v < seen) ⊎ (v ≡ u))
    (Waits' : ℕ → ℕ → Type 0) (others : (x w : ℕ) → Waits x w → (x ≡ u) ⊎ Waits' x w) (v y : ℕ)
    (heaviest : (x z : ℕ) → Edge h u x z → (z ≤ y) ⊎ (s.mate x < h.num_nodes)) where
  abbrev n : ℕ
  n = h.num_nodes

  -- `candidate[u_id] = max_wt_id;`
  abbrev chosen : State
  chosen = record s { candidate = update s.candidate u v }

  -- `u` found nobody, or a node that has another candidate.
  pub chosen-IsSound :
      (v ≡ n) × (y ≡ 0) ⊎ (v < n) × Edge h u v y × (s.mate v ≡ n) × (s.candidate v ≢ u) × (0 < y)
      → IsSound h seen' Waits' ws chosen
  chosen-IsSound found = record {
    null_or_node = sound.null_or_node;
    symmetric = sound.symmetric;
    matched = sound.matched;
    unmatched = sound.unmatched;
    dominant = sound.dominant;
    agreed = λ w lt. ground (arith, sound.agreed w);
    unseen = λ w ge. ground (arith, sound.unseen w);
    chose = chose;
    waits = λ w at.
        to_update (λ x. x < n → s.mate x < n → In x (contents s.queue) ⊎ Waits' w x) s.candidate u v
          w (λ same lt taken. absurd (ground arith))
          λ other lt taken. elim (sound.waits w at lt taken) [
            | inl q ↦ inl q
            | inr r ↦ elim (others w (s.candidate w) r) [
              | inl same ↦ absurd (other (sym same))
              | inr r' ↦ inr r'
            ]
          ];
    not_mutual = λ w at.
        to_update (λ x. x < n → s.mate x ≡ n → chosen.candidate x ≢ w) s.candidate u v w
          (λ same lt at' e. ground (arith, apart))
          λ other lt at' e.
            ground (
              arith,
              sound.not_mutual w at lt at',
              sound.unseen w,
              λ (p : v ≡ w). ap s.candidate p,
            );
    queued = sound.queued;
  }
    where
      apart : v < n → u ≢ v
      apart lt = ground (arith, simple.no_loop u v y)

      chose : (w : ℕ) → w < seen' → s.mate w ≡ n → Chose h chosen w
      chose w lt at = elim (ℕ_discrete u w) [
        | yes same ↦
            subst (Chose h chosen) same
              (record { weight = y; heaviest = heaviest; choice = ground arith })
        | no other ↦
            let old = sound.chose w (ground (arith, only_u w)) at in
            record {
              weight = old.weight;
              heaviest = old.heaviest;
              choice = ground (arith, old.choice);
            }
      ]

  module _ (lt_v : v < n) (along : Edge h u v y) (free_v : s.mate v ≡ n)
      (wanted : s.candidate v ≡ u)
      (pushed : contents (push_back (push_back s.queue u) v)
        ≡ (contents s.queue ++ (u ∷ [])) ++ (v ∷ [])) where
    abbrev ws' : ℕ → ℕ
    ws' = update (update ws u y) v y

    abbrev both : State
    both = record chosen {
      mate = update (update s.mate u v) v u;
      queue = push_back (push_back s.queue u) v;
    }

    apart : u ≢ v
    apart = simple.no_loop u v y along

    In-pushed : (w : ℕ) → In w (contents both.queue) ↔ (In w (contents s.queue) ⊎ (w ≡ u) ⊎ (w ≡ v))
    In-pushed w = rw pushed (
      λ i. ground (
        arith,
        (In-snoc w v (contents s.queue ++ (u ∷ []))).0,
        (In-snoc w u (contents s.queue)).0,
      ),
      λ i. ground (
        arith,
        (In-snoc w v (contents s.queue ++ (u ∷ []))).1,
        (In-snoc w u (contents s.queue)).1,
      ),
    )

    back : Edge h v u y
    back = simple.edge_sym u v y along

    -- The candidate of `v` is `u`, so no free node is a heavier neighbour of `v` than `u`.
    heaviest_v : (x z : ℕ) → Edge h v x z → (z ≤ y) ⊎ (s.mate x < n)
    heaviest_v x z e =
        let old = sound.chose v (ground (arith, sound.unseen v)) free_v in
        ground (
          arith,
          old.heaviest x z e,
          old.choice,
          heaviest v old.weight,
          simple.edge_sym v u old.weight,
        )

    pub match-IsSound : IsSound h seen' Waits' ws' both
    match-IsSound = record {
      null_or_node = λ w. ground (arith, sound.null_or_node w);
      symmetric = λ w lt. ground (arith, apart, sound.symmetric w, stays w);
      matched = matched;
      unmatched = λ w e. ground (arith, sound.unmatched w);
      dominant = λ p q w e lt. ground (
        arith,
        heaviest q w,
        heaviest_v q w,
        simple.edge_sym p q w,
        sound.dominant p q w,
        sound.dominant q p w,
        sound.unmatched u free,
        sound.unmatched v free_v,
        stays q,
      );
      agreed = λ w lt. ground (arith, apart, wanted, sound.agreed w);
      unseen = λ w ge. ground (arith, sound.unseen w, sound.unseen v);
      chose = λ w lt at.
          let old = sound.chose w (ground (arith, only_u w)) (ground arith) in
          record {
            weight = old.weight;
            heaviest = λ x z e. ground (arith, old.heaviest x z e);
            choice = ground (arith, old.choice);
          };
      waits = λ w at.
          to_update (λ x. x < n → both.mate x < n → In x (contents both.queue) ⊎ Waits' w x)
            s.candidate u v w (λ same lt taken. absurd (ground (arith, apart)))
            λ other lt taken. waits w (ground arith) other lt taken;
      not_mutual = λ w at.
          to_update (λ x. x < n → both.mate x ≡ n → both.candidate x ≢ w) s.candidate u v w
            (λ same lt at' e. ground (arith, apart))
            λ other lt at' e. ground (arith, sound.not_mutual w);
      queued = λ w i. ground (arith, In-pushed w, sound.queued w);
    }
      where
        stays : (w : ℕ) → s.mate w < n → (w ≢ u) × (w ≢ v) × (s.mate w ≢ u) × (s.mate w ≢ v)
        stays w lt =
            let back_to = sound.symmetric w lt in
            let edge = sound.matched w lt in
            (
              λ e. absurd (omega (arith, rw e at lt)),
              λ e. absurd (omega (arith, rw e at lt)),
              λ e. absurd (omega (arith, rw e at back_to)),
              λ e. absurd (omega (arith, rw e at back_to)),
            )

        matched : (w : ℕ) → both.mate w < n → Edge h w (both.mate w) (ws' w)
        matched w =
            to_updates (λ m x. m < n → Edge h w m x) (update s.mate u v) (update ws u y) v u y w
              (λ same _. subst (λ x. Edge h x u y) same back)
              λ _.
                to_updates (λ m x. m < n → Edge h w m x) s.mate ws u v y w
                  (λ same _. subst (λ x. Edge h x v y) same along) λ _. sound.matched w

        waits :
            (w : ℕ)
            → s.mate w ≡ n
            → u ≢ w
            → s.candidate w < n
            → both.mate (s.candidate w) < n
            → In (s.candidate w) (contents both.queue) ⊎ Waits' w (s.candidate w)
        waits w at other lt taken = elim (dec_lt (s.mate (s.candidate w)) n) [
          | no new ↦ inl ((In-pushed (s.candidate w)).1 (ground arith))
          | yes old ↦ elim (sound.waits w at lt old) [
            | inl q ↦ inl ((In-pushed (s.candidate w)).1 (inl q))
            | inr r ↦ elim (others w (s.candidate w) r) [
              | inl same ↦ absurd (other (sym same))
              | inr r' ↦ inr r'
            ]
          ]
        ]
