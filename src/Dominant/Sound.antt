-- ===== src/Dominant/Sound.antt =====
-- What the tables of the dominant algorithm say at each point of `procedure`.
use cpp_suitor_and_local_dom.Base.{ℕ, ◌≤◌, ◌<◌, ◌≡◌, ◌≢◌, ◌⊎◌, ◌↔◌, List, [], ◌∷◌, ◌++◌, arith}
use cpp_suitor_and_local_dom.Graph.{Graph, Edge}
use cpp_suitor_and_local_dom.LocalQueue.{LocalQueue}
use cpp_suitor_and_local_dom.LocalQueue.Contents.{contents}
use cpp_suitor_and_local_dom.Dominant.{State}

abbrev pub In : ℕ → List ℕ → Type 0
In x [] = ⊥
In x (y ∷ l) = (x ≡ y) ⊎ In x l

pub In-snoc : (x y : ℕ) (l : List ℕ) → In x (l ++ (y ∷ [])) ↔ (In x l ⊎ (x ≡ y))
In-snoc x y [] = (λ h. ground arith, λ h. ground arith)
In-snoc x y (z ∷ l) =
    (λ h. ground (arith, (In-snoc x y l).0), λ h. ground (arith, (In-snoc x y l).1))

-- `g` holds the edges that may be used; the nodes below `seen` have been processed.
module _ (g : Graph) where
  -- What `candidate[u]` says of a processed node without a mate: its edge to the candidate, of
  -- weight `y`, is the heaviest to a node without a mate.
  pub record Chose (s : State) (u : ℕ) : Type 0 where
    pub weight : ℕ
    pub heaviest : (x z : ℕ) → Edge g u x z → (z ≤ weight) ⊎ (s.mate x < g.num_nodes)
    pub choice :
        (s.candidate u ≡ g.num_nodes) × (weight ≡ 0)
        ⊎ (s.candidate u < g.num_nodes) × Edge g u (s.candidate u) weight × (0 < weight)

  -- `Waits x w`: the loop that is running is still to process `x`, whose candidate `w` is taken.
  pub record IsSound (seen : ℕ) (Waits : ℕ → ℕ → Type 0) (ws : ℕ → ℕ) (s : State) : Type 0 where
    pub null_or_node : (v : ℕ) → s.mate v ≤ g.num_nodes
    pub symmetric : (v : ℕ) → s.mate v < g.num_nodes → s.mate (s.mate v) ≡ v
    pub matched : (v : ℕ) → s.mate v < g.num_nodes → Edge g v (s.mate v) (ws v)
    pub unmatched : (v : ℕ) → s.mate v ≡ g.num_nodes → ws v ≡ 0
    pub dominant : (p q w : ℕ) → Edge g p q w → s.mate p < g.num_nodes → (w ≤ ws p) ⊎ (w ≤ ws q)
    pub agreed : (v : ℕ) → s.mate v < g.num_nodes → s.candidate v ≡ s.mate v
    pub unseen : (v : ℕ) → seen ≤ v → (s.candidate v ≡ g.num_nodes) × (s.mate v ≡ g.num_nodes)
    pub chose : (v : ℕ) → v < seen → s.mate v ≡ g.num_nodes → Chose s v
    pub waits :
        (v : ℕ)
        → s.mate v ≡ g.num_nodes
        → s.candidate v < g.num_nodes
        → s.mate (s.candidate v) < g.num_nodes
        → In (s.candidate v) (contents s.queue) ⊎ Waits v (s.candidate v)
    pub not_mutual :
        (v : ℕ)
        → s.mate v ≡ g.num_nodes
        → s.candidate v < g.num_nodes
        → s.mate (s.candidate v) ≡ g.num_nodes
        → s.candidate (s.candidate v) ≢ v
    pub queued : (v : ℕ) → In v (contents s.queue) → s.mate v < g.num_nodes

  -- Another queue, and another loop that runs.
  pub IsSound-turn :
      {seen : ℕ} {Waits : ℕ → ℕ → Type 0} {ws : ℕ → ℕ} (s : State) (queue : LocalQueue)
      (Waits' : ℕ → ℕ → Type 0)
      → IsSound seen Waits ws s
      → ((v : ℕ)
          → s.mate v ≡ g.num_nodes
          → s.candidate v < g.num_nodes
          → In (s.candidate v) (contents s.queue) ⊎ Waits v (s.candidate v)
          → In (s.candidate v) (contents queue) ⊎ Waits' v (s.candidate v))
      → ((v : ℕ) → In v (contents queue) → In v (contents s.queue))
      → IsSound seen Waits' ws (record s { queue = queue })
  IsSound-turn s queue Waits' sound wait fewer = record {
    null_or_node = sound.null_or_node;
    symmetric = sound.symmetric;
    matched = sound.matched;
    unmatched = sound.unmatched;
    dominant = sound.dominant;
    agreed = sound.agreed;
    unseen = sound.unseen;
    chose = λ v lt at.
        let c = sound.chose v lt at in
        record { weight = c.weight; heaviest = c.heaviest; choice = c.choice };
    waits = λ v at lt taken. wait v at lt (sound.waits v at lt taken);
    not_mutual = sound.not_mutual;
    queued = λ v i. sound.queued v (fewer v i);
  }
