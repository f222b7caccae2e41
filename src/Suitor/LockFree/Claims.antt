-- ===== src/Suitor/LockFree/Claims.antt =====
-- What a thread of the lock-free `process` has still to serve, and what its local variables say.
use cpp_suitor_and_local_dom.Base.{ℕ, ◌≤◌, ◌<◌, ◌≡◌, ◌⊎◌, arith}
use cpp_suitor_and_local_dom.AdjacencyArray2.{AdjacencyArray2, weight, begin_at, end_at}
use cpp_suitor_and_local_dom.Suitor.Protocol.{Proposals}
use cpp_suitor_and_local_dom.Suitor.Threads.{Thread}
use cpp_suitor_and_local_dom.Suitor.Parallel.Claims.{Working, IsInside}
use cpp_suitor_and_local_dom.Suitor.LockFree.{Pc, outer, scanning, loading, swapping}

abbrev pub Claims : Pc → ℕ → Type 0
Claims (outer u finish) q = (u ≤ q) × (q < finish)
Claims (scanning u finish current _ _ _) q = Working u finish current q
Claims (loading u finish current _ _) q = Working u finish current q
Claims (swapping u finish current _ _ _) q = Working u finish current q

module _ (a : AdjacencyArray2) where
  -- `partner` is an edge of `current` of weight `heaviest`.
  pub record IsChoice (current partner heaviest : ℕ) : Type 0 where
    pub from : begin_at a current ≤ partner
    pub upto : partner < end_at a current
    pub heavy : a.base.weights partner ≡ heaviest

  -- No edge of `current` before the position `v` is heavier and would be accepted.
  abbrev pub Passed : Proposals → ℕ → ℕ → ℕ → Type 0
  Passed s current v heaviest =
      (p : ℕ)
      → begin_at a current ≤ p
      → p < v
      → (a.base.weights p ≤ heaviest) ⊎ (a.base.weights p ≤ s.ws (a.base.edges p))

  pub record IsScanning (s : Proposals) (current v partner heaviest : ℕ) : Type 0 where
    pub from : begin_at a current ≤ v
    pub upto : v ≤ end_at a current
    pub passed : Passed s current v heaviest
    pub found : (heaviest ≡ 0) ⊎ IsChoice current partner heaviest

  pub record IsLoading (s : Proposals) (current partner heaviest : ℕ) : Type 0 where
    pub positive : 0 < heaviest
    pub choice : IsChoice current partner heaviest
    pub passed : Passed s current (end_at a current) heaviest

  abbrev pub Knows : Proposals → Pc → Type 0
  Knows s (outer u finish) = u ≤ finish
  Knows s (scanning u finish current v partner heaviest) =
      IsInside u finish current × IsScanning s current v partner heaviest
  Knows s (loading u finish current partner heaviest) =
      IsInside u finish current × IsLoading s current partner heaviest
  Knows s (swapping u finish current partner heaviest current_suitor) =
      IsInside u finish current
      × IsLoading s current partner heaviest
      × (weight a current_suitor < heaviest)

  module _ (s t : Proposals) (up : (v : ℕ) → s.ws v ≤ t.ws v) where
    Passed-mono :
        (current v heaviest : ℕ) → Passed s current v heaviest → Passed t current v heaviest
    Passed-mono current v heaviest h p ge lt = ground (arith, h p ge lt, up (a.base.edges p))

    IsLoading-mono :
        (current partner heaviest : ℕ)
        → IsLoading s current partner heaviest
        → IsLoading t current partner heaviest
    IsLoading-mono current partner heaviest h = record {
      positive = h.positive;
      choice = h.choice;
      passed = Passed-mono current (end_at a current) heaviest h.passed;
    }

  pub Knows-mono : (s t : Proposals) (p : Pc) → ((v : ℕ) → s.ws v ≤ t.ws v) → Knows s p → Knows t p
  Knows-mono s t (outer u finish) up h = h
  Knows-mono s t (scanning u finish current v partner heaviest) up (inside, h) = (
    inside,
    record {
      from = h.from;
      upto = h.upto;
      passed = Passed-mono s t up current v heaviest h.passed;
      found = h.found;
    },
  )
  Knows-mono s t (loading u finish current partner heaviest) up (inside, h) =
      (inside, IsLoading-mono s t up current partner heaviest h)
  Knows-mono s t (swapping u finish current partner heaviest e) up (inside, h, light) =
      (inside, IsLoading-mono s t up current partner heaviest h, light)

abbrev pub lock_free_thread : AdjacencyArray2 → Thread Pc
lock_free_thread a = record { Claims = Claims; Knows = Knows a; knows_mono = Knows-mono a }
