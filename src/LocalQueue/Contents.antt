-- ===== src/LocalQueue/Contents.antt =====
-- The ring buffer as a list: what it holds, from `tail` to `head`.
use native.Mathlib.Nat.{mod-eq_of_lt, mod_self}
use cpp_suitor_and_local_dom.Base.{
  ℕ, zero, suc, ◌+◌, ◌-◌, ◌%◌, ◌<◌, ◌≤◌, ◌≡◌, refl, ap, ap₂, ◌⊎◌, inl, inr, List, [], ◌∷◌, ◌++◌,
  arith, dec_lt, ◌∙◌, update,
}
use cpp_suitor_and_local_dom.LocalQueue.{LocalQueue, with_capacity, push_back, pop_front}

ring : (ℕ → ℕ) → ℕ → ℕ → ℕ → List ℕ
ring array capacity tail zero = []
ring array capacity tail (suc n) = array tail ∷ ring array capacity ((tail + 1) % capacity) n

unfoldable pub contents : LocalQueue → List ℕ
unfolding ring
contents q = ring q.array q.capacity q.tail q.size

-- `head` is `size` places behind `tail` on the ring.
pub record IsRing (q : LocalQueue) : Type 0 where
  pub fits : q.size ≤ q.capacity
  pub tail_inside : (q.capacity ≡ 0) ⊎ (q.tail < q.capacity)
  pub head_at :
      (q.capacity ≡ 0)
      ⊎ (q.tail + q.size < q.capacity) × (q.head ≡ q.tail + q.size)
      ⊎ (q.capacity ≤ q.tail + q.size) × (q.head + q.capacity ≡ q.tail + q.size)

next_index :
    (t c : ℕ) → t < c → (t + 1 < c) × ((t + 1) % c ≡ t + 1) ⊎ (t + 1 ≡ c) × ((t + 1) % c ≡ 0)
next_index t c lt = elim (dec_lt (t + 1) c) [
  | yes inside ↦ inl (inside, mod-eq_of_lt inside)
  | no outside ↦ let e : t + 1 ≡ c = omega arith in inr (e, ap (λ m. m % c) e ∙ mod_self c)
]

-- `h` is `n` places behind `t`.
abbrev Behind : ℕ → ℕ → ℕ → ℕ → Type 0
Behind c t n h = (t + n < c) × (h ≡ t + n) ⊎ (c ≤ t + n) × (h + c ≡ t + n)

-- A write `n` places behind the tail adds an element to the `n` that are there.
ring-update :
    (array : ℕ → ℕ) (c n t h e : ℕ)
    → t < c
    → n < c
    → Behind c t n h
    → ring (update array h e) c t (suc n) ≡ ring array c t n ++ (e ∷ [])
unfolding ring
ring-update array c zero t h e lt less at = ap (λ x. x ∷ []) (ground arith)
ring-update array c (suc n) t h e lt less at =
    ap₂ (λ x l. x ∷ l) (ground arith)
      (ring-update array c n ((t + 1) % c) h e (ground (arith, next_index t c lt)) (omega arith)
        (ground (arith, next_index t c lt)))

ring_front :
    (array : ℕ → ℕ) (c t n : ℕ)
    → 0 < n
    → ring array c t n ≡ array t ∷ ring array c ((t + 1) % c) (n - 1)
unfolding ring
ring_front array c t zero lt = absurd (omega arith)
ring_front array c t (suc n) lt = ap (λ m. array t ∷ ring array c ((t + 1) % c) m) (omega arith)

-- As long as the queue has room, `push_back` adds its element at the end of what it holds.
pub push_back-contents :
    (q : LocalQueue) (e : ℕ)
    → IsRing q
    → q.size < q.capacity
    → IsRing (push_back q e) × (contents (push_back q e) ≡ contents q ++ (e ∷ []))
unfolding push_back contents
push_back-contents q e h room = (
  record {
    fits = omega arith;
    tail_inside = h.tail_inside;
    head_at = ground (arith, h.head_at, h.tail_inside, next_index q.head q.capacity);
  },
  ring-update q.array q.capacity q.size q.tail q.head e (ground (arith, h.tail_inside)) room
      (ground (arith, h.head_at)),
)

-- As long as the queue is not empty, `pop_front` takes the first of what it holds.
pub pop_front-contents :
    (q : LocalQueue)
    → IsRing q
    → 0 < q.size
    → IsRing (pop_front q).1 × (contents q ≡ (pop_front q).0 ∷ contents (pop_front q).1)
unfolding pop_front contents
pop_front-contents q h some_element = (
  record {
    fits = omega (arith, h.fits);
    tail_inside = ground (arith, h.fits, h.tail_inside, next_index q.tail q.capacity);
    head_at = ground (arith, h.fits, h.head_at, h.tail_inside, next_index q.tail q.capacity);
  },
  ring_front q.array q.capacity q.tail q.size some_element,
)

pub with_capacity-IsRing :
    (capacity : ℕ) → IsRing (with_capacity capacity) × (contents (with_capacity capacity) ≡ [])
unfolding with_capacity contents
with_capacity-IsRing capacity =
    (record { fits = omega arith; tail_inside = ground arith; head_at = ground arith }, refl)

pub ring_empty : (q : LocalQueue) → q.size ≡ 0 → contents q ≡ []
unfolding contents
ring_empty q e = ap (ring q.array q.capacity q.tail) e
