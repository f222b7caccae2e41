-- ===== src/Heavy/Pairing.antt =====
-- A matching as a table of mates with the weights of their edges.
use cpp_suitor_and_local_dom.Base.{
  ℕ, ◌+◌, ◌≤◌, ◌<◌, ◌≡◌, refl, sym, ap, ◌≢◌, arith, Bool, true, false, ℕ_discrete, dec_lt, ite,
  update, to_update, total, total_write, total_ext, if◌then◌else◌,
}

pub record IsPairing (n : ℕ) (f w : ℕ → ℕ) : Type 0 where
  pub bound : (x : ℕ) → f x ≤ n
  pub inside : (x : ℕ) → f x < n → x < n
  pub symmetric : (x : ℕ) → f x < n → f (f x) ≡ x
  pub loopless : (x : ℕ) → f x < n → f x ≢ x
  pub weighs : (x : ℕ) → f x < n → w (f x) ≡ w x
  pub lone : (x : ℕ) → f x ≡ n → w x ≡ 0

-- `null_node()` has no mate.
pub nobody_beyond : {n : ℕ} {f w : ℕ → ℕ} → IsPairing n f w → f n ≡ n
nobody_beyond {n} {f} p = elim (dec_lt (f n) n) [
  | yes lt ↦ absurd (omega (arith, p.inside n lt))
  | no ge ↦ omega (arith, p.bound n)
]

-- The weight at the nodes that have been processed.
abbrev pub weight_in : ℕ → (ℕ → Bool) → (ℕ → ℕ) → ℕ
weight_in n processed w = total n (λ x. if processed x then w x else 0)

-- A new node adds its weight, an old one nothing.
pub weight_new :
    (n : ℕ) (p : ℕ → Bool) (w : ℕ → ℕ) (j : ℕ)
    → p j ≡ false
    → j < n
    → weight_in n (update p j true) w ≡ weight_in n p w + w j
weight_new n p w j new lt =
    omega (
      arith,
      total_write n (λ x. if p x then w x else 0) j (w j) lt,
      none_yet,
      total_ext n _ _ same,
    )
  where
    none_yet : (if p j then w j else 0) ≡ 0
    none_yet = rw new refl

    same :
        (x : ℕ)
        → x < n
        → (if update p j true x then w x else 0) ≡ update (λ y. if p y then w y else 0) j (w j) x
    same x _ =
        elim (ℕ_discrete j x)
          as (λ d. (if ite d true (p x) then w x else 0) ≡ ite d (w j) (if p x then w x else 0)) [
            | yes e ↦ ap w (sym e)
            | no _ ↦ refl
          ]

pub weight_old :
    (n : ℕ) (p : ℕ → Bool) (w : ℕ → ℕ) (j : ℕ)
    → p j ≡ true
    → weight_in n (update p j true) w ≡ weight_in n p w
weight_old n p w j old = total_ext n _ _ λ x _.
    to_update (λ b. (if b then w x else 0) ≡ (if p x then w x else 0)) p j true x
      (λ e. rw (sym e) (rw old refl)) λ _. refl

-- How many nodes have been processed.
abbrev pub count : ℕ → (ℕ → Bool) → ℕ
count n p = weight_in n p λ _. 1
