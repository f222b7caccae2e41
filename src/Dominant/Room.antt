-- ===== src/Dominant/Room.antt =====
-- The queue of the dominant algorithm never holds more than there are nodes.
use cpp_suitor_and_local_dom.Base.{
  ℕ, ◌+◌, ◌≤◌, ◌<◌, ◌≡◌, ◌≢◌, ◌∙◌, [], ◌∷◌, ◌++◌, ap, arith, ◌==◌, if◌then◌else◌, update, total,
  total_write, total_ext,
}
use cpp_suitor_and_local_dom.LocalQueue.{LocalQueue, push_back}
use cpp_suitor_and_local_dom.LocalQueue.Contents.{contents, IsRing, push_back-contents}
use cpp_suitor_and_local_dom.Dominant.{State}

-- 1 for a node without a mate.
abbrev pub single : ℕ → (ℕ → ℕ) → ℕ → ℕ
single n mate v = if mate v == n then 1 else 0

-- `measure` is the size of the queue and the number of nodes without a mate.
pub record HasRoom (n measure : ℕ) (s : State) : Type 0 where
  pub ring : IsRing s.queue
  pub capacity : s.queue.capacity ≡ n
  pub exact : s.queue.size + total n (single n s.mate) ≡ measure
  pub small : measure ≤ n

-- Two nodes that become mates.
single_pair :
    (n : ℕ) (mate : ℕ → ℕ) (u v : ℕ)
    → u ≢ v
    → u < n
    → v < n
    → mate u ≡ n
    → mate v ≡ n
    → total n (single n (update (update mate u v) v u)) + 2 ≡ total n (single n mate)
single_pair n mate u v apart lt_u lt_v free_u free_v = omega (
  arith,
  total_write n (single n mate) u 0 lt_u,
  total_write n (update (single n mate) u 0) v 0 lt_v,
  total_ext n (single n (update (update mate u v) v u)) (update (update (single n mate) u 0) v 0)
      (λ i lt. ground arith),
  one u free_u,
  two,
)
  where
    one : (w : ℕ) → mate w ≡ n → single n mate w ≡ 1
    one w free = ground arith

    two : update (single n mate) u 0 v ≡ 1
    two = ground arith

-- Room for two more.
module _ (n : ℕ) (s : State) {m : ℕ} (room : HasRoom n m s) (u v : ℕ) (apart : u ≢ v) (lt_u : u < n)
    (lt_v : v < n) (free_u : s.mate u ≡ n) (free_v : s.mate v ≡ n) where
  abbrev first_push : LocalQueue
  first_push = push_back s.queue u

  pair : total n (single n (update (update s.mate u v) v u)) + 2 ≡ total n (single n s.mate)
  pair = single_pair n s.mate u v apart lt_u lt_v free_u free_v

  pushed_once : IsRing first_push × (contents first_push ≡ contents s.queue ++ (u ∷ []))
  pushed_once =
      push_back-contents s.queue u room.ring
        (omega (arith, pair, room.exact, room.small, room.capacity))

  pushed_twice :
      IsRing (push_back first_push v)
      × (contents (push_back first_push v) ≡ contents first_push ++ (v ∷ []))
  unfolding push_back
  pushed_twice =
      push_back-contents first_push v pushed_once.0
        (omega (arith, pair, room.exact, room.small, room.capacity))

  pub contents_pair : contents (push_back first_push v) ≡ (contents s.queue ++ (u ∷ [])) ++ (v ∷ [])
  contents_pair = pushed_twice.1 ∙ ap (λ l. l ++ (v ∷ [])) pushed_once.1

  pub HasRoom-pair :
      (candidate : ℕ → ℕ)
      → HasRoom n m (record {
        candidate = candidate;
        mate = update (update s.mate u v) v u;
        queue = push_back first_push v;
      })
  unfolding push_back
  HasRoom-pair candidate = record {
    ring = pushed_twice.0;
    capacity = room.capacity;
    exact = omega (arith, pair, room.exact);
    small = room.small;
  }
