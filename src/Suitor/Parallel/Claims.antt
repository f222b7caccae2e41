-- ===== src/Suitor/Parallel/Claims.antt =====
-- What a thread of `process` has still to serve, and what its local variables say of the table.
use cpp_suitor_and_local_dom.Base.{ℕ, ◌≤◌, ◌<◌, ◌≡◌, refl, ◌⊎◌, inl, inr, List, ◌∷◌, arith}
use cpp_suitor_and_local_dom.Graph.{Arc, Graph, Has}
use cpp_suitor_and_local_dom.Scan.{Best, consider}
use cpp_suitor_and_local_dom.Suitor.Protocol.{Proposals}
use cpp_suitor_and_local_dom.Suitor.Sequential.{accepts}
use cpp_suitor_and_local_dom.Suitor.Threads.{Thread}
use cpp_suitor_and_local_dom.Suitor.Parallel.{Pc, outer, scanning, locking}

-- `current`, and the nodes that the outer loop has not reached.
abbrev pub Working : ℕ → ℕ → ℕ → ℕ → Type 0
Working u finish current q = (q ≡ current) ⊎ (u < q) × (q < finish)

abbrev pub Claims : Pc → ℕ → Type 0
Claims (outer u finish) q = (u ≤ q) × (q < finish)
Claims (scanning u finish current _ _) q = Working u finish current q
Claims (locking u finish current _) q = Working u finish current q

module _ (g : Graph) (s : Proposals) where
  -- The arcs of `current` up to `rest` have been read, and `b` is the best of those that passed.
  pub record IsScanning (current : ℕ) (rest : List Arc) (b : Best) : Type 0 where
    pub within : (q x : ℕ) → Has rest q x → Has (g.arcs current) q x
    pub passed :
        (q x : ℕ) → Has (g.arcs current) q x → Has rest q x ⊎ (x ≤ b.heaviest) ⊎ (x ≤ s.ws q)
    pub found : (b.heaviest ≡ 0) ⊎ Has (g.arcs current) b.partner b.heaviest

  pub record IsLocking (current : ℕ) (b : Best) : Type 0 where
    pub positive : 0 < b.heaviest
    pub along : Has (g.arcs current) b.partner b.heaviest
    pub best : (q x : ℕ) → Has (g.arcs current) q x → (x ≤ b.heaviest) ⊎ (x ≤ s.ws q)

-- `current` is none of the nodes that the outer loop has still to reach.
pub record IsInside (u finish current : ℕ) : Type 0 where
  pub before : u < finish
  pub apart : ¬ ((u < current) × (current < finish))

abbrev pub Knows : Graph → Proposals → Pc → Type 0
Knows g s (outer u finish) = u ≤ finish
Knows g s (scanning u finish current rest b) =
    IsInside u finish current × IsScanning g s current rest b
Knows g s (locking u finish current b) = IsInside u finish current × IsLocking g s current b

pub Knows-mono :
    (g : Graph) (s t : Proposals) (p : Pc) → ((v : ℕ) → s.ws v ≤ t.ws v) → Knows g s p → Knows g t p
Knows-mono g s t (outer u finish) up h = h
Knows-mono g s t (scanning u finish current rest b) up (inside, h) = (
  inside,
  record {
    within = h.within;
    passed = λ q x e. ground (arith, h.passed q x, e, up q);
    found = h.found;
  },
)
Knows-mono g s t (locking u finish current b) up (inside, h) = (
  inside,
  record {
    positive = h.positive;
    along = h.along;
    best = λ q x e. ground (arith, h.best q x, e, up q);
  },
)

abbrev pub suitor_thread : Graph → Thread Pc
suitor_thread g = record { Claims = Claims; Knows = Knows g; knows_mono = Knows-mono g }

module _ (g : Graph) (s : Proposals) where
  pub enter-IsScanning :
      (current : ℕ)
      → IsScanning g s current (g.arcs current) (record { partner = g.num_nodes; heaviest = 0 })
  enter-IsScanning current = record {
    within = λ q x e. e;
    passed = λ q x e. inl e;
    found = inl refl;
  }

  pub consider-IsScanning :
      (current : ℕ) (a : Arc) (rest : List Arc) (b : Best)
      → IsScanning g s current (a ∷ rest) b
      → IsScanning g s current rest (consider (accepts s) b a)
  unfolding consider
  consider-IsScanning current a rest b h = record {
    within = λ q x e. h.within q x (inr e);
    passed = λ q x e. ground (arith, h.passed q x e);
    found = ground (arith, h.found, h.within a.head a.weight (inl (refl, refl)));
  }
