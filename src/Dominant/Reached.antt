-- ===== src/Dominant/Reached.antt =====
-- The instances of source/sequential_dominant.cpp that its public operations make.
use mathlib.Core.Option.{some_inj}
use cpp_suitor_and_local_dom.Base.{
  ℕ, ◌≡◌, refl, sym, ap, subst, ◌⊎◌, inl, inr, true, false, Option, some, ◌>>=◌, some_of_bind, ◌∙◌,
}
use cpp_suitor_and_local_dom.Graph.{Graph}
use cpp_suitor_and_local_dom.Suitor.Protocol.{Proposals}
use cpp_suitor_and_local_dom.Heavy.{join_matchings}
use cpp_suitor_and_local_dom.Dominant.{State, procedure}
use cpp_suitor_and_local_dom.Dominant.Instance.{
  SequentialDominant, create, simple_procedure, unmatched, two_matchings, clear_mate,
}
use cpp_suitor_and_local_dom.Dominant.Improved.{twin, improved_procedure}

-- Each operation with any fuel with which it ends; those that only read the instance are left out.
pub data Reached (g : Graph) : SequentialDominant → Type 0 where
  created : Reached g (create g)
  cleared : {m : SequentialDominant} → Reached g m → Reached g (clear_mate m)
  ran :
      {m m' : SequentialDominant} (fuel : ℕ)
      → simple_procedure fuel m ≡ some m'
      → Reached g m
      → Reached g m'
  improved :
      {m m' : SequentialDominant} (plus : ℕ → ℕ → ℕ) (beyond : ℕ → ℕ) (fuel : ℕ)
      → improved_procedure plus beyond fuel m ≡ some m'
      → Reached g m
      → Reached g m'

-- Until `improved_procedure` has run, `mate2` and `mate3` have no mates.
abbrev IsTidy : SequentialDominant → Type 0
IsTidy m =
    (m.optimized ≡ true)
    ⊎ (m.optimized ≡ false)
      × (m.mate2 ≡ (λ _. m.graph.num_nodes))
      × (m.mate3 ≡ (λ _. m.graph.num_nodes))

cleared_is_new : (m : SequentialDominant) → IsTidy m → clear_mate m ≡ create m.graph
unfolding clear_mate create
cleared_is_new m (inl optimized) = rw optimized refl
cleared_is_new m (inr (plain, two, three)) = rw plain λ i. record {
  graph = m.graph;
  mate = λ _. m.graph.num_nodes;
  mate2 = two i;
  mate3 = three i;
  optimized = false;
}

simple_procedure-IsTidy :
    (m m' : SequentialDominant) (fuel : ℕ)
    → simple_procedure fuel m ≡ some m'
    → IsTidy m
    → IsTidy m' × (m'.graph ≡ m.graph)
unfolding simple_procedure
simple_procedure-IsTidy m m' fuel e tidy =
    let (s, _, same) =
      some_of_bind (procedure m.graph (λ _ _. true) fuel m.mate)
        (λ s. some (record m { mate = s.mate })) m' e in
    subst (λ x. IsTidy x × (x.graph ≡ m.graph)) (some_inj.0 same) (tidy, refl)

two_matchings-optimized :
    (m m' : SequentialDominant) (fuel : ℕ)
    → two_matchings fuel m ≡ some m'
    → (m'.optimized ≡ true) × (m'.graph ≡ m.graph)
unfolding two_matchings
two_matchings-optimized m m' fuel e =
    let ends : State → State → Option SequentialDominant =
      λ s s2. some (record m { mate = s.mate; mate2 = s2.mate; optimized = true }) in
    let second : State → Option State = λ s. procedure m.graph (unmatched s.mate) fuel m.mate2 in
    let (s, _, rest) =
      some_of_bind (procedure m.graph (λ _ _. true) fuel m.mate) (λ s. second s >>= ends s) m' e in
    let (s2, _, same) = some_of_bind (second s) (ends s) m' rest in
    subst (λ x. (x.optimized ≡ true) × (x.graph ≡ m.graph)) (some_inj.0 same) (refl, refl)

improved_procedure-optimized :
    (plus : ℕ → ℕ → ℕ) (beyond : ℕ → ℕ) (m m' : SequentialDominant) (fuel : ℕ)
    → improved_procedure plus beyond fuel m ≡ some m'
    → (m'.optimized ≡ true) × (m'.graph ≡ m.graph)
unfolding improved_procedure
improved_procedure-optimized plus beyond m m' fuel e =
    let joins : SequentialDominant → Option Proposals = λ b.
      join_matchings (twin plus beyond b) b.graph.num_nodes
        (record { suitor = b.mate3; ws = λ _. 0 }) in
    let extends : SequentialDominant → Proposals → Option State =
      λ b t. procedure b.graph (λ _ _. true) fuel t.suitor in
    let ends : SequentialDominant → State → Option SequentialDominant =
      λ b s. some (record b { mate3 = s.mate }) in
    let (b, first, rest) =
      some_of_bind (two_matchings fuel m) (λ b. joins b >>= λ t. extends b t >>= λ s. ends b s) m'
        e in
    let (t, _, last) = some_of_bind (joins b) (λ t. extends b t >>= λ s. ends b s) m' rest in
    let (s, _, same) = some_of_bind (extends b t) (ends b) m' last in
    subst (λ x. (x.optimized ≡ true) × (x.graph ≡ m.graph)) (some_inj.0 same)
      (two_matchings-optimized m b fuel first)

reached-IsTidy : (g : Graph) (m : SequentialDominant) → Reached g m → IsTidy m × (m.graph ≡ g)
unfolding create clear_mate
reached-IsTidy g m created = (inr (refl, refl, refl), refl)
reached-IsTidy g m (cleared {m = m₀} r) =
    let (tidy, same) = reached-IsTidy g m₀ r in
    let new = cleared_is_new m₀ tidy in
    subst (λ x. IsTidy x × (x.graph ≡ g)) (sym new) (inr (refl, refl, refl), same)
reached-IsTidy g m (ran {m = m₀} fuel e r) =
    let (tidy, same) = reached-IsTidy g m₀ r in
    let (tidy', same') = simple_procedure-IsTidy m₀ m fuel e tidy in (tidy', same' ∙ same)
reached-IsTidy g m (improved {m = m₀} plus beyond fuel e r) =
    let (optimized, same) = improved_procedure-optimized plus beyond m₀ m fuel e in
    (inl optimized, same ∙ (reached-IsTidy g m₀ r).1)

-- Whatever sequence of the constructor, `clear_mate`, `simple_procedure` and `improved_procedure`
-- made an instance: it has its graph still, and `clear_mate` turns it into the new instance.
pub reached_clears :
    (g : Graph) (m : SequentialDominant) → Reached g m → (m.graph ≡ g) × (clear_mate m ≡ create g)
reached_clears g m r =
    let (tidy, same) = reached-IsTidy g m r in (same, cleared_is_new m tidy ∙ ap create same)
