-- ===== src/Suitor/Sequential/Round.antt =====
-- A round of the `while` loop makes an offer of the protocol, or leaves the node idle.
use cpp_suitor_and_local_dom.Base.{
  ℕ, suc, ◌≤◌, ◌<◌, ◌≡◌, refl, sym, subst, ◌≢◌, inl, inr, Option, none, some, arith, ℕ_discrete,
  dec_le, ltb, Bool-cases, ◌==◌, total, total_write,
}
use cpp_suitor_and_local_dom.Graph.{Graph, Edge, IsSimple}
use cpp_suitor_and_local_dom.Scan.{Best, Finds, scan, scan-Finds}
use cpp_suitor_and_local_dom.Suitor.Protocol.{
  Proposals, propose, IsJobless, IsIdle, IsSettled, IsSound, IsOffer, IsSound-propose,
  IsSettled-propose, IsSettled-proposer, IsJobless-propose, IsJobless-dislodged, suitor_of_Edge,
}
use cpp_suitor_and_local_dom.Suitor.Sequential.{accepts, conclude, round}

module _ (g : Graph) where
  -- `current` is at work, in the round of the node `u`.
  pub record IsAt (s : Proposals) (u current : ℕ) : Type 0 where
    pub sound : IsSound g s
    pub in_range : u < g.num_nodes
    pub started : current ≤ u
    pub jobless : IsJobless s current
    pub waiting : (q : ℕ) → u < q → q < g.num_nodes → IsJobless s q
    pub settled : (q : ℕ) → q ≤ u → q ≢ current → IsSettled g s q

  -- The nodes below `u` are settled, and the others have not begun.
  pub record IsBefore (s : Proposals) (u : ℕ) : Type 0 where
    pub sound : IsSound g s
    pub waiting : (q : ℕ) → u ≤ q → q < g.num_nodes → IsJobless s q
    pub settled : (q : ℕ) → q < u → IsSettled g s q

module _ {g : Graph} (simple : IsSimple g) (s : Proposals) (current : ℕ) where
  abbrev own : Best
  own = record { partner = s.suitor current; heaviest = s.ws current }

  abbrev found : Best
  found = scan (accepts s) own (g.arcs current)

  finds : Finds (accepts s) own (g.arcs current) found
  finds = scan-Finds (accepts s) own (g.arcs current)

  module _ (sound : IsSound g s) (lt : current < g.num_nodes) (free : IsJobless s current) where
    -- The node's own suitor may be proposed to: it has less than it offers.
    own-along :
        0 < s.ws current
        → Edge g current (s.suitor current) (s.ws current)
          × (s.ws (s.suitor current) < s.ws current)
    own-along pos = ground (
      arith,
      sound.null_or_node current,
      sound.nothing current,
      sound.rising current,
      sound.edge current,
      simple.edge_sym (s.suitor current) current (s.ws current),
      sound.nothing (s.suitor current),
      sound.null_or_node (s.suitor current),
      suitor_of_Edge simple sound (s.suitor current) current (s.ws current),
      free (s.suitor current),
    )

    found-along :
        0 < found.heaviest
        → Edge g current found.partner found.heaviest × (s.ws found.partner < found.heaviest)
    found-along pos = elim finds.origin [
      | inl e ↦
          subst (λ (b : Best). Edge g current b.partner b.heaviest × (s.ws b.partner < b.heaviest))
            (sym e) (own-along (subst (λ (b : Best). 0 < b.heaviest) e pos))
      | inr (has, ok, more) ↦ ground arith
    ]

    -- What the scan found, if anything, is a proposal of the protocol.
    found-IsOffer : 0 < found.heaviest → IsOffer g s current found.partner found.heaviest
    found-IsOffer pos = record {
      jobless = free;
      along = (found-along pos).0;
      accepted = (found-along pos).1;
      best = λ q x e. ground (arith, finds.rest_refused q x, e);
    }

    -- A round that finds nothing leaves the node idle.
    found-IsIdle : found.heaviest ≡ 0 → IsIdle g s current
    found-IsIdle h q x e = ground (arith, finds.rest_refused q x, e)

module _ {g : Graph} (simple : IsSimple g) (s : Proposals) (u current : ℕ)
    (at : IsAt g s u current) where
  open at use {sound, in_range, started, jobless, waiting, settled}

  module _ (y w : ℕ) (o : IsOffer g s current y w) where
    -- A proposal to a node with no suitor ends the loop.
    IsBefore-propose : s.suitor y ≡ g.num_nodes → IsBefore g (propose s current y w) (suc u)
    IsBefore-propose e = record {
      sound = IsSound-propose simple sound current y w o;
      waiting = λ q more lt.
          IsJobless-propose g s current y w o q (omega arith) (waiting q (omega arith) lt);
      settled = λ q less. elim (ℕ_discrete q current) [
        | yes same ↦
            subst (IsSettled g (propose s current y w)) (sym same)
              (IsSettled-proposer g s current y w o)
        | no other ↦
            IsSettled-propose g s current y w o q (omega arith) (settled q (omega arith) other)
      ];
    }

    -- Otherwise the dislodged suitor goes on.
    IsAt-propose : s.suitor y < g.num_nodes → IsAt g (propose s current y w) u (s.suitor y)
    IsAt-propose lt = record {
      sound = IsSound-propose simple sound current y w o;
      in_range = in_range;
      started = elim (dec_le (s.suitor y) u) [
        | yes le ↦ le
        | no gt ↦ absurd (waiting (s.suitor y) (omega arith) lt y refl)
      ];
      jobless = IsJobless-dislodged g s current y w o sound lt;
      waiting =
          λ q more less. IsJobless-propose g s current y w o q (omega arith) (waiting q more less);
      settled = λ q less ne. elim (ℕ_discrete q current) [
        | yes same ↦
            subst (IsSettled g (propose s current y w)) (sym same)
              (IsSettled-proposer g s current y w o)
        | no other ↦ IsSettled-propose g s current y w o q ne (settled q less other)
      ];
    }

    pub total-propose : total g.num_nodes s.ws < total g.num_nodes (propose s current y w).ws
    total-propose = omega (
      arith,
      total_write g.num_nodes s.ws y w (simple.edge_sym current y w o.along).0,
      o.accepted,
    )

  -- A round with nothing to propose ends the loop.
  IsBefore-idle : IsIdle g s current → IsBefore g s (suc u)
  IsBefore-idle idle = record {
    sound = sound;
    waiting = λ q more lt. waiting q (omega arith) lt;
    settled = λ q less. elim (ℕ_discrete q current) [
      | yes same ↦ subst (IsSettled g s) (sym same) (inr idle)
      | no other ↦ settled q (omega arith) other
    ];
  }

-- What a round leaves: the next node to work for, with more weight in the table, or a settled one.
abbrev pub After : Graph → Proposals → ℕ → Proposals × Option ℕ → Type 0
After g s u (t, none) = IsBefore g t (suc u)
After g s u (t, some next) = IsAt g t u next × (total g.num_nodes s.ws < total g.num_nodes t.ws)

pub conclude-After :
    {g : Graph} (simple : IsSimple g) (s : Proposals) (u current : ℕ) (b : Best)
    → IsAt g s u current
    → (0 < b.heaviest → IsOffer g s current b.partner b.heaviest)
    → (b.heaviest ≡ 0 → IsIdle g s current)
    → After g s u (conclude g s current b)
conclude-After {g} simple s u current b at offer idle = elim (Bool-cases (ltb 0 b.heaviest)) [
  | inl some_found ↦
      let o = offer (ground (arith, some_found)) in
      elim (Bool-cases (s.suitor b.partner == g.num_nodes)) [
        | inl last ↦
            rw (some_found, last) (IsBefore-propose simple s u current at _ _ o (ground arith))
        | inr more ↦
            rw (some_found, more)
              (
                IsAt-propose simple s u current at _ _ o
                    (ground (arith, at.sound.null_or_node b.partner)),
                total-propose simple s u current at _ _ o,
              )
      ]
  | inr nothing_found ↦
      rw nothing_found (IsBefore-idle simple s u current at (idle (ground (arith, nothing_found))))
]

pub round-After :
    {g : Graph} (simple : IsSimple g) (s : Proposals) (u current : ℕ)
    → IsAt g s u current
    → After g s u (round g s current)
unfolding round
round-After {g} simple s u current at =
    conclude-After simple s u current (found simple s current) at
      (found-IsOffer simple s current at.sound in_range at.jobless)
      (found-IsIdle simple s current at.sound in_range at.jobless)
  where
    in_range : current < g.num_nodes
    in_range = omega (arith, at.started, at.in_range)
