-- ===== src/Base/Counts.antt =====
-- Families that are indexed by process: a change at one index, and the sum of a measure over the
-- processes below a number.
use Prim.Native.Nat.{ℕ, zero, suc, ◌+◌, ◌*◌, ◌≤◌, ◌<◌}
use mathlib.Core.Path.{◌≡◌, refl}
use mathlib.Core.Logic.{◌≢◌}
use native.Mathlib.Decide.{dec_lt}
use native.Mathlib.Omega.{arith}
use so_magazyn_firmy_spedycy.Base.Tests.{◌==◌, if◌then◌else◌}

abbrev pub update {ℓ} : {A : Type ℓ} → (ℕ → A) → ℕ → A → ℕ → A
update f p x q = if p == q then x else f q

module _ {ℓ} {A : Type ℓ} (measure : A → ℕ) where
  pub sum_below : ℕ → (ℕ → A) → ℕ
  sum_below zero f = 0
  sum_below (suc n) f = measure (f n) + sum_below n f

  above-update :
      (n : ℕ) (f : ℕ → A) (p : ℕ) (x : A) → n ≤ p → sum_below n (update f p x) ≡ sum_below n f
  unfolding sum_below
  above-update zero f p x h = refl
  above-update (suc n) f p x h = ground (arith, above-update n f p x)

  pub sum_below-update :
      (n : ℕ) (f : ℕ → A) (p : ℕ) (x : A)
      → p < n
      → sum_below n (update f p x) + measure (f p) ≡ sum_below n f + measure x
  unfolding sum_below
  sum_below-update zero f p x h = absurd (omega arith)
  sum_below-update (suc n) f p x h = elim (dec_lt p n) [
    | yes below ↦ ground (arith, sum_below-update n f p x below)
    | no last ↦ ground (arith, above-update n f p x)
  ]

  pub le-sum_below : (n : ℕ) (f : ℕ → A) (p : ℕ) → p < n → measure (f p) ≤ sum_below n f
  unfolding sum_below
  le-sum_below zero f p h = absurd (omega arith)
  le-sum_below (suc n) f p h = elim (dec_lt p n) [
    | yes below ↦ omega (arith, le-sum_below n f p below)
    | no last ↦ ground arith
  ]

  pub pair-le-sum_below :
      (n : ℕ) (f : ℕ → A) (p q : ℕ)
      → p ≢ q
      → p < n
      → q < n
      → measure (f p) + measure (f q) ≤ sum_below n f
  unfolding sum_below
  pair-le-sum_below zero f p q ne hp hq = absurd (omega arith)
  pair-le-sum_below (suc n) f p q ne hp hq = elim (dec_lt p n) [
    | yes below ↦ elim (dec_lt q n) [
      | yes low ↦ omega (arith, pair-le-sum_below n f p q ne below low)
      | no last ↦ ground (arith, le-sum_below n f p below)
    ]
    | no last ↦ ground (arith, le-sum_below n f q)
  ]

  -- A sum that is not zero has a summand that is not.
  pub find_below : (n : ℕ) (f : ℕ → A) → 0 < sum_below n f → (p : ℕ) × (p < n) × (0 < measure (f p))
  unfolding sum_below
  find_below zero f h = absurd (omega arith)
  find_below (suc n) f h = elim (dec_lt 0 (measure (f n))) [
    | yes here ↦ (n, omega arith, here)
    | no gone ↦ let (p, lt, pos) = find_below n f (omega arith) in (p, omega arith, pos)
  ]

  pub sum_below-const : (n : ℕ) (x : A) → measure x ≡ 0 → sum_below n (λ i. x) ≡ 0
  unfolding sum_below
  sum_below-const zero x h = refl
  sum_below-const (suc n) x h = omega (arith, sum_below-const n x h)

  pub sum_below-bound :
      (n k : ℕ) (f : ℕ → A) → ((p : ℕ) → measure (f p) ≤ k) → sum_below n f ≤ k * n
  unfolding sum_below
  sum_below-bound zero k f h = omega arith
  sum_below-bound (suc n) k f h = omega (arith, sum_below-bound n k f h, h n)
