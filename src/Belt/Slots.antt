-- ===== src/Belt/Slots.antt =====
-- The packages that lie on the belt, read off the circular buffer.
use so_magazyn_firmy_spedycy.Base.{
  ℕ, zero, suc, ◌+◌, ◌-◌, ◌%◌, ◌≤◌, ◌<◌, ◌≡◌, refl, ap, ◌≢◌, List, [], ◌∷◌, ◌++◌, arith, Double,
  length, get_or, set, get_or-set_self, get_or-set_ne,
}
use so_magazyn_firmy_spedycy.Shared.{Package, zero_package, max_belt_capacity_k}

module _ {W : Type 0} ⦃d : Double W⦄ where
  -- the `n` packages from index `i` on, going round at the end
  abbrev pub slots : List (Package W) → ℕ → ℕ → List (Package W)
  slots belt i zero = []
  slots belt i (suc n) = get_or belt i zero_package ∷ slots belt ((i + 1) % max_belt_capacity_k) n

  pub length-slots : (belt : List (Package W)) (i n : ℕ) → length (slots belt i n) ≡ n
  length-slots belt i zero = refl
  length-slots belt i (suc n) = ap suc (length-slots belt ((i + 1) % 10) n)

  -- A write that is at least `n` steps ahead of `i` is outside the window.
  pub slots-set :
      (belt : List (Package W)) (v : Package W) (i n j : ℕ)
      → i < 10
      → j < 10
      → n ≤ (j + 10 - i) % 10
      → slots (set belt j v) i n ≡ slots belt i n
  slots-set belt v i zero j hi hj h = refl
  slots-set belt v i (suc n) j hi hj h = rw (get_or-set_ne belt j i v zero_package apart) (
      ap (λ rest. get_or belt i zero_package ∷ rest)
        (slots-set belt v ((i + 1) % 10) n j (omega arith) hj (omega arith)))
    where
      apart : j ≢ i
      apart = omega arith

  -- The window grows by the slot behind it.
  pub slots-suc :
      (belt : List (Package W)) (i n : ℕ)
      → i < 10
      → slots belt i (suc n) ≡ slots belt i n ++ get_or belt ((i + n) % 10) zero_package ∷ []
  slots-suc belt i zero h = ap (λ k. get_or belt k zero_package ∷ []) (omega arith)
  slots-suc belt i (suc n) h =
      ap (λ rest. get_or belt i zero_package ∷ rest)
        (rw (slots-suc belt ((i + 1) % 10) n (omega arith))
          (ap (λ k. slots belt ((i + 1) % 10) n ++ get_or belt k zero_package ∷ []) (omega arith)))

  -- Writing the slot behind a window that leaves room appends to it.
  pub slots-push :
      (belt : List (Package W)) (v : Package W) (i n : ℕ)
      → length belt ≡ 10
      → i < 10
      → n < 10
      → slots (set belt ((i + n) % 10) v) i (suc n) ≡ slots belt i n ++ v ∷ []
  slots-push belt v i n len hi hn = rw (
    slots-suc (set belt ((i + n) % 10) v) i n hi,
    slots-set belt v i n ((i + n) % 10) hi (omega arith) (omega arith),
    get_or-set_self belt ((i + n) % 10) v zero_package (omega arith),
  )

  -- Clearing the first slot of a window leaves the rest.
  pub slots-pop :
      (belt : List (Package W)) (v : Package W) (i n : ℕ)
      → i < 10
      → 0 < n
      → n ≤ 10
      → slots belt i n ≡ get_or belt i zero_package ∷ slots (set belt i v) ((i + 1) % 10) (n - 1)
  slots-pop belt v i zero hi pos le = absurd (omega arith)
  slots-pop belt v i (suc n) hi pos le =
      ap (λ rest. get_or belt i zero_package ∷ rest)
        (rw (ap (λ k. slots (set belt i v) ((i + 1) % 10) k) back)
          (rw (slots-set belt v ((i + 1) % 10) n i (omega arith) hi (omega arith))))
    where
      back : suc n - 1 ≡ n
      back = omega arith
