-- ===== src/Suitor/Protocol.antt =====
-- The contract of every suitor algorithm: `suitor[y]` and `ws[y]` change only by proposals, and a
-- proposal goes to a best partner that accepts it. The sequential loop and the threads of the
-- parallel one are shown to keep to it.
use cpp_suitor_and_local_dom.Base.{
  ℕ, ◌≤◌, ◌<◌, ◌≡◌, refl, ◌≢◌, ◌⊎◌, inl, inr, arith, update, dec_lt,
}
use cpp_suitor_and_local_dom.Graph.{Graph, Edge, IsSimple}

-- `suitor` and `ws`, indexed by node; `num_nodes` stands for `null_node()`.
pub record Proposals : Type 0 where
  pub suitor : ℕ → ℕ
  pub ws : ℕ → ℕ

-- `suitor[y] = c; ws[y] = w;`
abbrev pub propose : Proposals → ℕ → ℕ → ℕ → Proposals
propose s c y w = record { suitor = update s.suitor y c; ws = update s.ws y w }

abbrev pub IsJobless : Proposals → ℕ → Type 0
IsJobless s c = (v : ℕ) → s.suitor v ≢ c

module _ (g : Graph) where
  -- No neighbour of `q` would accept it.
  abbrev pub IsIdle : Proposals → ℕ → Type 0
  IsIdle s q = (r x : ℕ) → Edge g q r x → x ≤ s.ws r

  -- `q` has been served: it is somebody's suitor, or nobody would accept it.
  abbrev pub IsSettled : Proposals → ℕ → Type 0
  IsSettled s q = ((v : ℕ) × (s.suitor v ≡ q)) ⊎ IsIdle s q

  pub record IsSound (s : Proposals) : Type 0 where
    pub null_or_node : (v : ℕ) → s.suitor v ≤ g.num_nodes
    pub edge : (v : ℕ) → s.suitor v < g.num_nodes → Edge g (s.suitor v) v (s.ws v)
    pub positive : (v : ℕ) → s.suitor v < g.num_nodes → 0 < s.ws v
    pub nothing : (v : ℕ) → s.suitor v ≡ g.num_nodes → s.ws v ≡ 0
    pub single : (v u : ℕ) → s.suitor v < g.num_nodes → s.suitor v ≡ s.suitor u → v ≡ u
    pub stable :
        (v q x : ℕ)
        → s.suitor v < g.num_nodes
        → Edge g (s.suitor v) q x
        → (x ≤ s.ws v) ⊎ (x ≤ s.ws q)
    pub rising : (v : ℕ) → s.suitor v < g.num_nodes → s.ws (s.suitor v) ≤ s.ws v

  -- What makes `propose s c y w` a proposal that the algorithm may make.
  pub record IsOffer (s : Proposals) (c y w : ℕ) : Type 0 where
    pub jobless : IsJobless s c
    pub along : Edge g c y w
    pub accepted : s.ws y < w
    pub best : (q x : ℕ) → Edge g c q x → (x ≤ w) ⊎ (x ≤ s.ws q)

  -- Before anything is proposed.
  pub IsSound-fresh : IsSound (record { suitor = λ _. g.num_nodes; ws = λ _. 0 })
  IsSound-fresh = record {
    null_or_node = λ v. omega arith;
    edge = λ v h. absurd (omega arith);
    positive = λ v h. absurd (omega arith);
    nothing = λ v h. refl;
    single = λ v u h e. absurd (omega arith);
    stable = λ v q x h e. absurd (omega arith);
    rising = λ v h. absurd (omega arith);
  }

module _ {g : Graph} (simple : IsSimple g) {s : Proposals} (sound : IsSound g s) where
  open simple use {edge_sym, no_loop, distinct}
  open sound use {null_or_node, edge, positive, nothing, single, stable, rising}

  -- Two nodes that point at one another by an edge of equal weight.
  pub suitor_of_Edge :
      (v q x : ℕ) → s.suitor v < g.num_nodes → Edge g v q x → x ≡ s.ws v → s.suitor v ≡ q
  suitor_of_Edge v q x lt e h =
      let own = edge v lt in
      ground (arith, distinct (s.suitor v) v v q x, edge v, no_loop (s.suitor v) v x, no_loop v q x)

  -- A jobless node never proposes below its own weight.
  offer-ge : (c y w : ℕ) → IsOffer g s c y w → s.ws c ≤ w
  offer-ge c y w o = elim (dec_lt (s.suitor c) g.num_nodes) [
    | no none ↦ omega (arith, nothing c (omega (arith, null_or_node c)))
    | yes lt ↦ ground (
      arith,
      rising c lt,
      edge_sym (s.suitor c) c (s.ws c) (edge c lt),
      o.best (s.suitor c) (s.ws c),
      positive c lt,
      nothing (s.suitor c),
      null_or_node (s.suitor c),
      o.jobless (s.suitor c),
      suitor_of_Edge (s.suitor c) c (s.ws c),
      edge c lt,
    )
  ]

  pub IsSound-propose : (c y w : ℕ) → IsOffer g s c y w → IsSound g (propose s c y w)
  IsSound-propose c y w o = record {
    null_or_node = λ v. ground (arith, null_or_node v, o.along);
    edge = λ v h. ground (arith, edge v, o.along);
    positive = λ v h. ground (arith, positive v, o.accepted);
    nothing = λ v h. ground (arith, nothing v, o.along);
    single = λ v u h e. ground (arith, single v u, o.jobless u, o.jobless v);
    stable = λ v q x h e. ground (arith, stable v q x, o.best q x, o.accepted);
    rising = λ v h. ground (
      arith,
      rising v,
      offer-ge c y w o,
      o.accepted,
      stable v c w,
      edge_sym c y w o.along,
      o.along,
      suitor_of_Edge c y w,
      single v c,
      nothing c,
      null_or_node c,
    );
  }

-- What a proposal does to the other nodes' standing.
module _ (g : Graph) (s : Proposals) (c y w : ℕ) (o : IsOffer g s c y w) where
  -- No entry of `ws` falls.
  pub ws_mono : (v : ℕ) → s.ws v ≤ (propose s c y w).ws v
  ws_mono v = ground (arith, o.accepted)

  -- The proposer is settled.
  pub IsSettled-proposer : IsSettled g (propose s c y w) c
  IsSettled-proposer = inl (y, ground arith)

  -- Whoever was settled stays so, but for the suitor that loses `y`.
  pub IsSettled-propose :
      (q : ℕ) → q ≢ s.suitor y → IsSettled g s q → IsSettled g (propose s c y w) q
  IsSettled-propose q ne (inl (v, own)) = inl (v, ground arith)
  IsSettled-propose q ne (inr idle) = inr λ r x e. omega (arith, idle r x e, ws_mono r)

  -- Other jobless nodes stay jobless.
  pub IsJobless-propose : (q : ℕ) → q ≢ c → IsJobless s q → IsJobless (propose s c y w) q
  IsJobless-propose q ne free v e = ground (arith, free v)

  -- The suitor that loses `y` is jobless.
  pub IsJobless-dislodged :
      IsSound g s → s.suitor y < g.num_nodes → IsJobless (propose s c y w) (s.suitor y)
  IsJobless-dislodged sound lt v e = ground (arith, sound.single y v, o.jobless y)
