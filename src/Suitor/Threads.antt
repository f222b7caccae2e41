-- ===== src/Suitor/Threads.antt =====
-- Any number of threads that work on one table of proposals, interleaved in any order. What a
-- thread is (its position and local variables) is left open; `Claims p q` says that a thread at `p`
-- has still to serve the node `q`, and `Knows s p` what its local variables say of the table.
use cpp_suitor_and_local_dom.Base.{
  ℕ, ◌≤◌, ◌<◌, ◌≡◌, refl, sym, subst, ◌≢◌, ◌⊎◌, inl, inr, arith, update, ℕ_discrete, of_update,
  to_update,
}
use cpp_suitor_and_local_dom.Graph.{Graph, IsSimple}
use cpp_suitor_and_local_dom.Suitor.Protocol.{
  Proposals, propose, IsJobless, IsSettled, IsSound, IsOffer, IsSound-propose, IsSettled-propose,
  IsSettled-proposer, IsJobless-propose, IsJobless-dislodged, ws_mono,
}

pub record Thread (Pc : Type 0) : Type 1 where
  pub Claims : Pc → ℕ → Type 0
  pub Knows : Proposals → Pc → Type 0
  -- What a thread knows does not depend on how much the others have raised `ws`.
  pub knows_mono : (s t : Proposals) (p : Pc) → ((v : ℕ) → s.ws v ≤ t.ws v) → Knows s p → Knows t p

module _ {Pc : Type 0} (g : Graph) (kind : Thread Pc) where
  open kind use {Claims, Knows, knows_mono}

  pub record IsShared (k : ℕ) (s : Proposals) (pc : ℕ → Pc) : Type 0 where
    pub sound : IsSound g s
    pub claimed : (i q : ℕ) → i < k → Claims (pc i) q → (q < g.num_nodes) × IsJobless s q
    pub alone : (i j q : ℕ) → i < k → j < k → Claims (pc i) q → Claims (pc j) q → i ≡ j
    pub covered :
        (q : ℕ) → q < g.num_nodes → ((i : ℕ) × (i < k) × Claims (pc i) q) ⊎ IsSettled g s q
    pub knows : (i : ℕ) → i < k → Knows s (pc i)

  -- What a step of one thread has to see to.
  pub record IsTurn (s t : Proposals) (p p' : Pc) : Type 0 where
    pub sound : IsSound g t
    pub raised : (v : ℕ) → s.ws v ≤ t.ws v
    pub claimed : (q : ℕ) → Claims p' q → (q < g.num_nodes) × IsJobless t q
    pub spared : (q : ℕ) → IsJobless s q → IsJobless t q ⊎ Claims p q
    pub gained : (q : ℕ) → Claims p' q → Claims p q ⊎ ((v : ℕ) × (s.suitor v ≡ q))
    pub kept :
        (q : ℕ) → q < g.num_nodes → Claims p q ⊎ IsSettled g s q → Claims p' q ⊎ IsSettled g t q
    pub knows : Knows t p'

  module _ {k : ℕ} {s t : Proposals} {pc : ℕ → Pc} (h : IsShared k s pc) (i : ℕ) (lt : i < k) where
    -- No other thread claims what the moving one claims.
    foreign :
        {p' : Pc}
        → IsTurn s t (pc i) p'
        → (b q : ℕ) → b < k
        → i ≢ b
        → Claims p' q
        → ¬ Claims (pc b) q
    foreign turn b q lb ne mine other = elim (turn.gained q mine) [
      | inl old ↦ ne (h.alone i b q lt lb old other)
      | inr (v, own) ↦ (h.claimed b q lb other).1 v own
    ]

    spared :
        {p' : Pc}
        → IsTurn s t (pc i) p'
        → (j q : ℕ) → j < k
        → i ≢ j
        → Claims (pc j) q
        → IsJobless t q
    spared turn j q lj ne c = elim (turn.spared q (h.claimed j q lj c).1) [
      | inl free ↦ free
      | inr mine ↦ absurd (ne (h.alone i j q lt lj mine c))
    ]

    covered :
        {p' : Pc}
        → IsTurn s t (pc i) p'
        → (q : ℕ) → q < g.num_nodes
        → ((j : ℕ) × (j < k) × Claims (update pc i p' j) q) ⊎ IsSettled g t q
    covered {p'} turn q less = elim (h.covered q less) [
      | inr old ↦ served (turn.kept q less (inr old))
      | inl (j, lj, c) ↦ elim (ℕ_discrete i j) [
        | yes e ↦ served (turn.kept q less (inl (subst (λ n. Claims (pc n) q) (sym e) c)))
        | no ne ↦ inl (j, lj, to_update (λ p. Claims p q) pc i p' j (λ e. absurd (ne e)) (λ _. c))
      ]
    ]
      where
        served :
            Claims p' q ⊎ IsSettled g t q
            → ((j : ℕ) × (j < k) × Claims (update pc i p' j) q) ⊎ IsSettled g t q
        served (inl c) =
            inl (i, lt, to_update (λ p. Claims p q) pc i p' i (λ _. c) (λ ne. absurd (ne refl)))
        served (inr st) = inr st

    pub IsShared-turn : {p' : Pc} → IsTurn s t (pc i) p' → IsShared k t (update pc i p')
    IsShared-turn {p'} turn = record {
      sound = turn.sound;
      claimed = λ j q less c. elim (of_update (λ p. Claims p q) pc i p' j c) [
        | inl (_, mine) ↦ turn.claimed q mine
        | inr (ne, old) ↦ ((h.claimed j q less old).0, spared turn j q less ne old)
      ];
      alone = λ a b q la lb ca cb. elim (of_update (λ p. Claims p q) pc i p' a ca) [
        | inl (ea, mine) ↦ elim (of_update (λ p. Claims p q) pc i p' b cb) [
          | inl (eb, _) ↦ omega arith
          | inr (ne, other) ↦ absurd (foreign turn b q lb ne mine other)
        ]
        | inr (na, old) ↦ elim (of_update (λ p. Claims p q) pc i p' b cb) [
          | inl (_, mine) ↦ absurd (foreign turn a q la na mine old)
          | inr (_, other) ↦ h.alone a b q la lb old other
        ]
      ];
      covered = covered turn;
      knows = λ j less.
          to_update (Knows t) pc i p' j (λ _. turn.knows)
            (λ _. knows_mono s t (pc j) turn.raised (h.knows j less));
    }

module _ {Pc : Type 0} {g : Graph} (simple : IsSimple g) (kind : Thread Pc) where
  open kind use {Claims, Knows, knows_mono}

  -- A step that writes nothing: the thread gives up only nodes that are settled.
  module _ {k : ℕ} {s : Proposals} {pc : ℕ → Pc} (h : IsShared g kind k s pc) (i : ℕ)
      (lt : i < k) where
    pub IsShared-quiet :
        {p' : Pc}
        → ((q : ℕ) → Claims p' q → Claims (pc i) q)
        → ((q : ℕ) → Claims (pc i) q → Claims p' q ⊎ IsSettled g s q)
        → Knows s p'
        → IsShared g kind k s (update pc i p')
    IsShared-quiet fewer kept knows = IsShared-turn g kind h i lt (record {
      sound = h.sound;
      raised = λ v. omega arith;
      claimed = λ q c. h.claimed i q lt (fewer q c);
      spared = λ q free. inl free;
      gained = λ q c. inl (fewer q c);
      kept = λ q less old. elim old [ inl c ↦ kept q c | inr st ↦ inr st ];
      knows = knows;
    })

    -- A step that proposes for `c`: the thread is done with `c`, and takes on the suitor that it
    -- dislodged, if there was one.
    pub IsShared-propose :
        {p' : Pc} (c y w : ℕ)
        → IsOffer g s c y w
        → Claims (pc i) c
        → ((q : ℕ) → Claims p' q → Claims (pc i) q × (q ≢ c) ⊎ (s.suitor y ≡ q) × (q < g.num_nodes))
        → ((q : ℕ) → Claims (pc i) q → (q ≡ c) ⊎ Claims p' q)
        → (s.suitor y < g.num_nodes → Claims p' (s.suitor y))
        → Knows (propose s c y w) p'
        → IsShared g kind k (propose s c y w) (update pc i p')
    IsShared-propose {p'} c y w o mine only rest takes knows = IsShared-turn g kind h i lt (record {
      sound = IsSound-propose simple h.sound c y w o;
      raised = ws_mono g s c y w o;
      claimed = λ q cl. elim (only q cl) [
        | inl (old, ne) ↦
            ((h.claimed i q lt old).0, IsJobless-propose g s c y w o q ne (h.claimed i q lt old).1)
        | inr (e, less) ↦ (less, subst (IsJobless (propose s c y w)) e (loser (omega arith)))
      ];
      spared = λ q free. elim (ℕ_discrete q c) [
        | yes e ↦ inr (subst (Claims (pc i)) (sym e) mine)
        | no ne ↦ inl (IsJobless-propose g s c y w o q ne free)
      ];
      gained = λ q cl. elim (only q cl) [ inl (old, _) ↦ inl old | inr (e, _) ↦ inr (y, e) ];
      kept = λ q less old. elim old [ inl cl ↦ claims_kept q cl | inr st ↦ settled_kept q less st ];
      knows = knows;
    })
      where
        loser : s.suitor y < g.num_nodes → IsJobless (propose s c y w) (s.suitor y)
        loser = IsJobless-dislodged g s c y w o h.sound

        claims_kept : (q : ℕ) → Claims (pc i) q → Claims p' q ⊎ IsSettled g (propose s c y w) q
        claims_kept q cl = elim (rest q cl) [
          | inl e ↦
              inr (subst (IsSettled g (propose s c y w)) (sym e) (IsSettled-proposer g s c y w o))
          | inr cl' ↦ inl cl'
        ]

        settled_kept :
            (q : ℕ)
            → q < g.num_nodes
            → IsSettled g s q
            → Claims p' q ⊎ IsSettled g (propose s c y w) q
        settled_kept q less st = elim (ℕ_discrete q (s.suitor y)) [
          | yes e ↦ inl (subst (Claims p') (sym e) (takes (omega arith)))
          | no ne ↦ inr (IsSettled-propose g s c y w o q ne st)
        ]
