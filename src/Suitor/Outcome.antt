-- ===== src/Suitor/Outcome.antt =====
-- What a sound table of proposals says once every node is settled: it is a matching, no edge is
-- heavier than what both of its ends have, and it weighs at least half of any other matching.
use cpp_suitor_and_local_dom.Base.{
  ℕ, zero, suc, ◌+◌, ◌*◌, ◌≤◌, ◌<◌, ◌≡◌, ◌⊎◌, inl, inr, ite, arith, dec_lt, total, total_mono,
  total-add, total_inj,
}
use cpp_suitor_and_local_dom.Graph.{Graph, Edge, IsSimple, weight_bound, le-weight_bound}
use cpp_suitor_and_local_dom.Suitor.Protocol.{Proposals, IsSettled, IsSound, suitor_of_Edge}

module _ (g : Graph) where
  -- What `test_matching` asserts, for matched edges of the graph with their weights.
  pub record IsMatching (s : Proposals) : Type 0 where
    pub null_or_node : (v : ℕ) → s.suitor v ≤ g.num_nodes
    pub symmetric : (v : ℕ) → s.suitor v < g.num_nodes → s.suitor (s.suitor v) ≡ v
    pub matched : (v : ℕ) → s.suitor v < g.num_nodes → Edge g v (s.suitor v) (s.ws v)
    pub unmatched : (v : ℕ) → s.suitor v ≡ g.num_nodes → s.ws v ≡ 0

  -- Each edge weighs at most what one of its ends already has.
  abbrev pub IsDominant : Proposals → Type 0
  IsDominant s = (p q w : ℕ) → Edge g p q w → (w ≤ s.ws p) ⊎ (w ≤ s.ws q)

module _ {g : Graph} (simple : IsSimple g) {s : Proposals} (sound : IsSound g s) where
  open sound use {null_or_node, edge, nothing, single, stable, rising}

  back : (v : ℕ) → s.suitor v < g.num_nodes → Edge g v (s.suitor v) (s.ws v)
  back v lt = simple.edge_sym (s.suitor v) v (s.ws v) (edge v lt)

  module _ (settled : (q : ℕ) → q < g.num_nodes → IsSettled g s q) where
    -- A suited node and its suitor are mutual if that holds one step up, at a heavier proposal.
    mutual_step :
        (v : ℕ)
        → s.suitor v < g.num_nodes
        → ((u : ℕ) → s.suitor u ≡ v → s.ws v < s.ws u → s.suitor v ≡ u)
        → s.suitor (s.suitor v) ≡ v
    mutual_step v lt up = elim (settled v (back v lt).0) [
      | inl (u, own) ↦
          ground
            (arith, up u, rising u, edge u, back v lt, suitor_of_Edge simple sound v u (s.ws u))
      | inr idle ↦ ground (
        arith,
        idle (s.suitor v) (s.ws v),
        back v,
        edge v,
        rising v,
        sound.positive v,
        nothing (s.suitor v),
        null_or_node (s.suitor v),
        suitor_of_Edge simple sound (s.suitor v) v (s.ws v),
      )
    ]

    -- Induction on how far `ws v` is below the largest weight.
    mutual_up :
        (d v : ℕ)
        → weight_bound g ≤ s.ws v + d
        → s.suitor v < g.num_nodes
        → s.suitor (s.suitor v) ≡ v
    mutual_up zero v h lt =
        mutual_step v lt
          λ u own more. ground (arith, le-weight_bound g (s.suitor u) u (s.ws u), edge u, back v lt)
    mutual_up (suc d) v h lt =
        mutual_step v lt λ u own more. ground (arith, mutual_up d u, back v lt)

    pub settled-IsMatching : IsMatching g s
    settled-IsMatching = record {
      null_or_node = null_or_node;
      symmetric = λ v lt. mutual_up (weight_bound g) v (omega arith) lt;
      matched = back;
      unmatched = nothing;
    }

    pub settled-IsDominant : IsDominant g s
    settled-IsDominant p q w e = elim (settled p e.0) [
      | inl (v, own) ↦
          ground (arith, stable v q w, settled-IsMatching.symmetric v, rising p, back v)
      | inr idle ↦ inr (idle q w e)
    ]

-- The partner in a matching, or the node itself where it has none.
abbrev partner : Graph → Proposals → ℕ → ℕ
partner g t v = ite (dec_lt (t.suitor v) g.num_nodes) (t.suitor v) v

partner_inj :
    {g : Graph} {t : Proposals} → IsMatching g t → (u v : ℕ) → partner g t u ≡ partner g t v → u ≡ v
partner_inj m u v e = ground (arith, m.symmetric u, m.symmetric v, m.matched u, m.matched v)

-- A matching against a dominant table: `t.ws` sums to at most twice `s.ws`.
module _ (g : Graph) (s t : Proposals) (dominant : IsDominant g s) (other : IsMatching g t) where
  covered : (v : ℕ) → t.ws v ≤ s.ws v + s.ws (partner g t v)
  covered v = ground (
    arith,
    other.matched v,
    dominant v (t.suitor v) (t.ws v),
    other.unmatched v,
    other.null_or_node v,
  )

  pub half_of_any : total g.num_nodes t.ws ≤ 2 * total g.num_nodes s.ws
  half_of_any = omega (
    arith,
    total_mono g.num_nodes t.ws (λ v. s.ws v + s.ws (partner g t v)) (λ v _. covered v),
    total-add g.num_nodes s.ws (λ v. s.ws (partner g t v)),
    total_inj g.num_nodes g.num_nodes s.ws (partner g t) in_range λ u v _ _. partner_inj other u v,
  )
    where
      in_range : (v : ℕ) → v < g.num_nodes → partner g t v < g.num_nodes
      in_range v lt = ground arith
