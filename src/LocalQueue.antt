-- ===== src/LocalQueue.antt =====
-- implementation/local_queue.hpp: the ring buffer of the sequential dominant algorithm. It does not
-- check for overflow: "user must not exceed size".
pub mod Contents
use cpp_suitor_and_local_dom.Base.{ℕ, zero, suc, ◌+◌, ◌-◌, ◌%◌, List, [], ◌∷◌, update}

-- `LocalQueue<NodeHandle>`
pub record LocalQueue : Type 0 where
  pub array : ℕ → ℕ
  pub tail : ℕ
  pub head : ℕ
  pub size : ℕ
  pub capacity : ℕ

-- The constructor.
unfoldable pub with_capacity : ℕ → LocalQueue
with_capacity capacity = record {
  array = λ _. 0;
  tail = 0;
  head = 0;
  size = 0;
  capacity = capacity;
}

unfoldable pub push_back : LocalQueue → ℕ → LocalQueue
push_back q e = record q {
  array = update q.array q.head e;
  head = (q.head + 1) % q.capacity;
  size = suc q.size;
}

-- The popped element and the queue; the size is a `size_t`, so the caller must not pop when it
-- is 0.
unfoldable pub pop_front : LocalQueue → ℕ × LocalQueue
pop_front q = (q.array q.tail, record q { tail = (q.tail + 1) % q.capacity; size = q.size - 1 })
