-- ===== src/Suitor/Parallel/Turns.antt =====
-- Every step of a thread of `process` keeps what the threads rely on.
use cpp_suitor_and_local_dom.Base.{
  ℕ, suc, ◌≤◌, ◌<◌, ◌≡◌, refl, sym, subst, ◌≢◌, ◌⊎◌, inl, inr, false, List, [], ◌∷◌, arith, ltb,
  ◌==◌, Bool-cases, update,
}
use cpp_suitor_and_local_dom.Graph.{Arc, Graph, IsSimple}
use cpp_suitor_and_local_dom.Scan.{Best}
use cpp_suitor_and_local_dom.Suitor.Protocol.{
  Proposals, propose, IsOffer, IsIdle, IsSettled, IsJobless,
}
use cpp_suitor_and_local_dom.Suitor.Threads.{IsShared, IsShared-quiet, IsShared-propose}
use cpp_suitor_and_local_dom.Suitor.Parallel.{Pc, outer, scanning, locking, enter, process}
use cpp_suitor_and_local_dom.Suitor.Parallel.Claims.{
  Working, Claims, Knows, suitor_thread, enter-IsScanning, consider-IsScanning,
}

module _ {g : Graph} (simple : IsSimple g) {k : ℕ} {s : Proposals} {pc : ℕ → Pc}
    (h : IsShared g (suitor_thread g) k s pc) (i : ℕ) (lt : i < k) where
  -- A step of a thread at `p` that writes nothing.
  quiet :
      (p p' : Pc)
      → pc i ≡ p
      → ((q : ℕ) → Claims p' q → Claims p q)
      → ((q : ℕ) → Claims p q → Claims p' q ⊎ IsSettled g s q)
      → (Knows g s p → Knows g s p')
      → IsShared g (suitor_thread g) k s (update pc i p')
  quiet p p' e fewer kept knows =
      IsShared-quiet simple (suitor_thread g) h i lt (λ q c. rw e (fewer q c))
        (λ q c. kept q (rw e at c)) (knows (rw e at (h.knows i lt)))

  outer-IsShared :
      (u finish : ℕ)
      → pc i ≡ outer u finish
      → IsShared g
          (suitor_thread g)
          k
          (process g s (outer u finish)).0
          (update pc i (process g s (outer u finish)).1)
  unfolding process
  outer-IsShared u finish e = elim (Bool-cases (u == finish)) [
    | inl same ↦ rw same (quiet _ _ e (λ q c. c) (λ q c. inl c) (λ w. w))
    | inr other ↦ rw other (
        quiet _ (enter g u finish u) e (λ q c. ground (arith, u_le)) (λ q c. inl (ground arith))
          λ _. (
            record { before = ground (arith, u_le); apart = λ b. omega arith },
            enter-IsScanning g s u,
          ))
  ]
    where
      u_le : u ≤ finish
      u_le = rw e at (h.knows i lt)

  look-IsShared :
      (u finish current : ℕ) (a : Arc) (rest : List Arc) (b : Best)
      → pc i ≡ scanning u finish current (a ∷ rest) b
      → IsShared g
          (suitor_thread g)
          k
          (process g s (scanning u finish current (a ∷ rest) b)).0
          (update pc i (process g s (scanning u finish current (a ∷ rest) b)).1)
  unfolding process
  look-IsShared u finish current a rest b e =
      quiet _ _ e (λ q c. c) (λ q c. inl c)
        λ (inside, w). (inside, consider-IsScanning g s current a rest b w)

  -- With every arc read the thread goes on to the lock, or to the next node with this one settled.
  found-IsShared :
      (u finish current : ℕ) (b : Best)
      → pc i ≡ scanning u finish current [] b
      → IsShared g
          (suitor_thread g)
          k
          (process g s (scanning u finish current [] b)).0
          (update pc i (process g s (scanning u finish current [] b)).1)
  unfolding process
  found-IsShared u finish current b e = elim (Bool-cases (ltb 0 b.heaviest)) [
    | inl some_arc ↦ rw some_arc (
        quiet _ (locking u finish current b) e (λ q c. c) (λ q c. inl c)
          λ (inside, w). (
            inside,
            record {
              positive = ground arith;
              along = ground (arith, w.found);
              best = λ q x a. ground (arith, w.passed q x a);
            },
          ))
    | inr no_arc ↦ rw no_arc (
        quiet (scanning u finish current [] b) (outer (suc u) finish) e (λ q c. inr c)
          (λ q c. elim c [
            | inl same ↦ inr (subst (IsSettled g s) (sym same) (inr (idle no_arc)))
            | inr later ↦ inl later
          ])
          λ (inside, w). inside.before)
  ]
    where
      known : Knows g s (scanning u finish current [] b)
      known = rw e at (h.knows i lt)

      idle : ltb 0 b.heaviest ≡ false → IsIdle g s current
      idle none q x (_, a) = ground (arith, known.1.passed q x a)

  module _ (u finish current : ℕ) (b : Best) (e : pc i ≡ locking u finish current b) where
    at_lock : Knows g s (locking u finish current b)
    at_lock = rw e at (h.knows i lt)

    claimed_here : (q : ℕ) → Working u finish current q → (q < g.num_nodes) × IsJobless s q
    claimed_here q c = h.claimed i q lt (rw e c)

    -- If `ws[partner]` has not passed it, the thread's arc is a proposal of the protocol.
    locked-IsOffer : s.ws b.partner < b.heaviest → IsOffer g s current b.partner b.heaviest
    locked-IsOffer more = record {
      jobless = (claimed_here current (inl refl)).1;
      along = ((claimed_here current (inl refl)).0, at_lock.1.along);
      accepted = more;
      best = λ q x (_, a). at_lock.1.best q x a;
    }

    won :
        (p' : Pc)
        → s.ws b.partner < b.heaviest
        → ((q : ℕ)
            → Claims p' q
            → Working u finish current q × (q ≢ current)
              ⊎ (s.suitor b.partner ≡ q) × (q < g.num_nodes))
        → ((q : ℕ) → Working u finish current q → (q ≡ current) ⊎ Claims p' q)
        → (s.suitor b.partner < g.num_nodes → Claims p' (s.suitor b.partner))
        → Knows g (propose s current b.partner b.heaviest) p'
        → IsShared g (suitor_thread g) k (propose s current b.partner b.heaviest) (update pc i p')
    won p' more only rest takes knows =
        IsShared-propose simple (suitor_thread g) h i lt current b.partner b.heaviest
          (locked-IsOffer more) (rw e (inl refl))
          (λ q c. elim (only q c) [ inl (c', ne) ↦ inl ((rw e c'), ne) | inr found ↦ inr found ])
          (λ q c. rest q (rw e at c)) takes knows

    won_last :
        s.ws b.partner < b.heaviest
        → s.suitor b.partner ≡ g.num_nodes
        → IsShared g
            (suitor_thread g)
            k
            (propose s current b.partner b.heaviest)
            (update pc i (outer (suc u) finish))
    won_last more none =
        won (outer (suc u) finish) more (λ q c. inl (inr c, λ same. at_lock.0.apart (omega arith)))
          (λ q c. c) (λ less. absurd (omega arith)) at_lock.0.before

    won_more :
        s.ws b.partner < b.heaviest
        → s.suitor b.partner < g.num_nodes
        → IsShared g
            (suitor_thread g)
            k
            (propose s current b.partner b.heaviest)
            (update pc i (enter g u finish (s.suitor b.partner)))
    won_more more less =
        won (enter g u finish (s.suitor b.partner)) more
          (λ q c. elim c [
            | inl same ↦ inr (sym same, omega arith)
            | inr later ↦ inl (inr later, λ same. at_lock.0.apart (omega arith))
          ])
          (λ q c. elim c [ inl same ↦ inl same | inr later ↦ inr (inr later) ]) (λ _. inl refl)
          (
            record {
              before = at_lock.0.before;
              apart = λ later. (claimed_here (s.suitor b.partner) (inr later)).1 b.partner refl;
            },
            enter-IsScanning g (propose s current b.partner b.heaviest) (s.suitor b.partner),
          )

  locking-IsShared :
      (u finish current : ℕ) (b : Best)
      → pc i ≡ locking u finish current b
      → IsShared g
          (suitor_thread g)
          k
          (process g s (locking u finish current b)).0
          (update pc i (process g s (locking u finish current b)).1)
  unfolding process
  locking-IsShared u finish current b e = elim (Bool-cases (ltb (s.ws b.partner) b.heaviest)) [
    | inr lost ↦ rw lost (
        quiet (locking u finish current b) (enter g u finish current) e (λ q c. c) (λ q c. inl c)
          λ (inside, w). (inside, enter-IsScanning g s current))
    | inl ahead ↦ elim (Bool-cases (s.suitor b.partner == g.num_nodes)) [
      | inl last ↦ rw (ahead, last) (won_last u finish current b e (ground arith) (ground arith))
      | inr more ↦
          rw (ahead, more)
            (won_more u finish current b e (ground arith)
              (ground (arith, h.sound.null_or_node b.partner)))
    ]
  ]

  -- The step of thread `i`, wherever it stands.
  process_at :
      (p : Pc)
      → pc i ≡ p
      → IsShared g (suitor_thread g) k (process g s p).0 (update pc i (process g s p).1)
  process_at (outer u finish) e = outer-IsShared u finish e
  process_at (scanning u finish current [] b) e = found-IsShared u finish current b e
  process_at (scanning u finish current (a ∷ rest) b) e = look-IsShared u finish current a rest b e
  process_at (locking u finish current b) e = locking-IsShared u finish current b e

  pub process-IsShared :
      IsShared g (suitor_thread g) k (process g s (pc i)).0 (update pc i (process g s (pc i)).1)
  process-IsShared = process_at (pc i) refl
