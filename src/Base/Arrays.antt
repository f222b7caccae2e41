-- ===== src/Base/Arrays.antt =====
-- A C++ array or vector of `n` entries, as a function of the index: one write, and sums over the
-- first `n` entries.
use Prim.Native.Nat.{ℕ, zero, suc, ◌+◌, ◌*◌, ◌≤◌, ◌<◌}
use mathlib.Core.Path.{◌≡◌, refl}
use mathlib.Core.Logic.{ite, ◌⊎◌, inl, inr, ◌≢◌}
use native.Mathlib.Decide.{ℕ_discrete}
use native.Mathlib.Omega.{arith}

abbrev pub update {ℓ} : {A : Type ℓ} → (ℕ → A) → ℕ → A → ℕ → A
update f i a j = ite (ℕ_discrete i j) a (f j)

module _ {ℓ κ} {A : Type ℓ} (P : A → Type κ) (f : ℕ → A) (i : ℕ) (a : A) (j : ℕ) where
  -- A fact about an entry after a write is one about the value written or about the old entry.
  pub of_update : P (update f i a j) → (i ≡ j) × P a ⊎ (i ≢ j) × P (f j)
  of_update =
      elim (ℕ_discrete i j) as (λ d. P (ite d a (f j)) → (i ≡ j) × P a ⊎ (i ≢ j) × P (f j)) [
        | yes e ↦ λ h. inl (e, h)
        | no ne ↦ λ h. inr (ne, h)
      ]

  pub to_update : (i ≡ j → P a) → (i ≢ j → P (f j)) → P (update f i a j)
  to_update new old = elim (ℕ_discrete i j) as (λ d. P (ite d a (f j))) [
    | yes e ↦ new e
    | no ne ↦ old ne
  ]

-- The same for two arrays that are written at one index.
pub to_updates {ℓ ℓ' κ} :
    {A : Type ℓ} {B : Type ℓ'} (P : A → B → Type κ) (f : ℕ → A) (g : ℕ → B) (i : ℕ) (a : A) (b : B)
    (j : ℕ)
    → (i ≡ j → P a b)
    → (i ≢ j → P (f j) (g j))
    → P (update f i a j) (update g i b j)
to_updates P f g i a b j new old =
    elim (ℕ_discrete i j) as (λ d. P (ite d a (f j)) (ite d b (g j))) [
      | yes e ↦ new e
      | no ne ↦ old ne
    ]

-- The sum of the first `n` entries.
unfoldable pub total : ℕ → (ℕ → ℕ) → ℕ
total zero f = 0
total (suc n) f = total n f + f n

-- A write past the end is not seen.
total_beyond : (k : ℕ) (f : ℕ → ℕ) (j x : ℕ) → k ≤ j → total k (update f j x) ≡ total k f
unfolding total
total_beyond zero f j x le = refl
total_beyond (suc k) f j x le = ground (arith, total_beyond k f j x)

-- A write trades the old entry for the new one.
pub total_write :
    (k : ℕ) (f : ℕ → ℕ) (j x : ℕ) → j < k → total k f + x ≡ total k (update f j x) + f j
unfolding total
total_write zero f j x lt = absurd (omega arith)
total_write (suc k) f j x lt = elim (ℕ_discrete j k) [
  | yes e ↦ ground (arith, total_beyond k f j x)
  | no ne ↦ ground (arith, total_write k f j x)
]

pub total-le : (n b : ℕ) (f : ℕ → ℕ) → ((i : ℕ) → f i ≤ b) → total n f ≤ n * b
unfolding total
total-le zero b f h = omega arith
total-le (suc n) b f h = grind (arith, h n, total-le n b f h)

pub total_mono : (n : ℕ) (f g : ℕ → ℕ) → ((i : ℕ) → i < n → f i ≤ g i) → total n f ≤ total n g
unfolding total
total_mono zero f g h = omega arith
total_mono (suc n) f g h =
    omega (arith, h n (omega arith), total_mono n f g (λ i lt. h i (omega arith)))

pub total-add : (n : ℕ) (f g : ℕ → ℕ) → total n (λ i. f i + g i) ≡ total n f + total n g
unfolding total
total-add zero f g = omega arith
total-add (suc n) f g = omega (arith, total-add n f g)

pub total_ext : (n : ℕ) (f g : ℕ → ℕ) → ((i : ℕ) → i < n → f i ≡ g i) → total n f ≡ total n g
unfolding total
total_ext zero f g h = refl
total_ext (suc n) f g h =
    omega (arith, h n (omega arith), total_ext n f g (λ i lt. h i (omega arith)))

-- Reading `f` along an injection of the first `k` indices into the first `n` sums to no more.
pub total_inj :
    (k n : ℕ) (f m : ℕ → ℕ)
    → ((i : ℕ) → i < k → m i < n)
    → ((i j : ℕ) → i < k → j < k → m i ≡ m j → i ≡ j)
    → total k (λ i. f (m i)) ≤ total n f
unfolding total
total_inj zero n f m range inj = omega arith
total_inj (suc k) n f m range inj = omega (
  arith,
  total_write n f (m k) 0 (range k (omega arith)),
  total_ext k (λ i. f (m i)) (λ i. update f (m k) 0 (m i)) apart,
  total_inj k n (update f (m k) 0) m (λ i lt. range i (omega arith))
      λ i j hi hj. inj i j (omega arith) (omega arith),
)
  where
    apart : (i : ℕ) → i < k → f (m i) ≡ update f (m k) 0 (m i)
    apart i lt = ground (arith, inj k i)
