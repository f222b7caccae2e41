-- ===== src/ParallelDominant/Concurrent.antt =====
-- A queue that obeys the laws of `ConcurrentQueue`: a list, first in, first out.
use cpp_suitor_and_local_dom.Base.{
  ℕ, suc, ◌≡◌, refl, ap, List, [], ◌∷◌, ◌++◌, Option, none, some, ◌==◌, if◌then◌else◌, arith,
}
use mathlib.Core.Option.{some_inj}
use cpp_suitor_and_local_dom.ParallelDominant.{ConcurrentQueue}

abbrev occurs : List ℕ → ℕ → ℕ
occurs [] y = 0
occurs (x ∷ rest) y = let n = occurs rest y in if x == y then suc n else n

abbrev take_first : List ℕ → Option (ℕ × List ℕ)
take_first [] = none
take_first (x ∷ rest) = some (x, rest)

abbrev size : List ℕ → ℕ
size [] = 0
size (x ∷ rest) = suc (size rest)

pub occurs-append :
    (l : List ℕ) (x y : ℕ)
    → occurs (l ++ (x ∷ [])) y ≡ (if x == y then suc (occurs l y) else occurs l y)
occurs-append [] x y = refl
occurs-append (z ∷ rest) x y = ground (arith, occurs-append rest x y)

pub occurs-take_first :
    (l rest : List ℕ) (x y : ℕ)
    → take_first l ≡ some (x, rest)
    → occurs l y ≡ (if x == y then suc (occurs rest y) else occurs rest y)
occurs-take_first [] rest x y e = absurd (ground (arith, e))
occurs-take_first (z ∷ l) rest x y e =
    let same = some_inj.0 e in rw (ap (λ p. p.0) same, ap (λ p. p.1) same) refl

abbrev pub list_queue : ConcurrentQueue
list_queue = record {
  Queue = List ℕ;
  with_room = λ _. [];
  enqueue = λ q x. q ++ (x ∷ []);
  try_dequeue = take_first;
  size_approx = size;
  holds = occurs;
  holds_new = λ room x. refl;
  holds_enqueue = occurs-append;
  holds_dequeue = occurs-take_first;
}
