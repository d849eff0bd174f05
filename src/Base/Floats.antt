-- ===== src/Base/Floats.antt =====
-- `double`, as the code uses it: literals, `+`, `-`, `*` and two comparisons. The processor's
-- arithmetic is a parameter; what is proved without `IsOrdered` holds of rounded numbers as well.
use mathlib.Core.Path.{◌≡◌}
use mathlib.Core.Bool.{Bool, true}
use Prim.Native.Nat.{ℕ, zero, suc, ◌+◌, ◌-◌, ◌*◌, ◌/◌, ◌^◌, ◌≤◌}
use native.Mathlib.Nat.{le-div_iff_mul-le, div-mul-le_self, le_trans}
use native.Mathlib.Omega.{arith}
use so_magazyn_firmy_spedycy.Base.Tests.{leb, ltb, le→leb}

pub record Double (W : Type 0) : Type 0 where
  -- the literal m / 10^k: `decimal 99 2` is 0.99
  pub decimal : ℕ → ℕ → W
  pub add : W → W → W
  pub sub : W → W → W
  pub mul : W → W → W
  pub le : W → W → Bool
  pub lt : W → W → Bool

module _ {W : Type 0} ⦃d : Double W⦄ where
  infixl 65 ◌⊕◌ ◌⊖◌
  infixl 70 ◌⊗◌
  infix 50 ◌<=◌ ◌<?◌
  abbrev pub ◌⊕◌ : W → W → W
  ◌⊕◌ = d.add

  abbrev pub ◌⊖◌ : W → W → W
  ◌⊖◌ = d.sub

  abbrev pub ◌⊗◌ : W → W → W
  ◌⊗◌ = d.mul

  abbrev pub ◌<=◌ : W → W → Bool
  ◌<=◌ = d.le

  abbrev pub ◌<?◌ : W → W → Bool
  ◌<?◌ = d.lt

  abbrev pub decimal : ℕ → ℕ → W
  decimal = d.decimal

-- 0.0, also what `memset` to zero leaves in a `double`
abbrev pub zero_double : {W : Type 0} ⦃d : Double W⦄ → W
zero_double ⦃d⦄ = d.decimal 0 0

-- What a theorem may assume of the arithmetic: IEEE 754 comparisons are transitive, adding to zero
-- changes no comparison, and rounding keeps the order of literals.
pub record IsOrdered (W : Type 0) ⦃d : Double W⦄ : Type 0 where
  pub le_trans : (a b c : W) → (a <= b) ≡ true → (b <= c) ≡ true → (a <= c) ≡ true
  pub literal_le : (m n k : ℕ) → m ≤ n → (d.decimal m k <= d.decimal n k) ≡ true
  pub zero-add : (a b : W) → (d.add (d.decimal 0 0) a <= b) ≡ (a <= b)

-- Whole millionths of a unit: an instance that the witnesses run on.
instance abbrev pub micro_double : Double ℕ
micro_double = record {
  decimal = λ m k. m * 10 ^ 6 / 10 ^ k;
  add = λ a b. a + b;
  sub = λ a b. a - b;
  mul = λ a b. a * b / 10 ^ 6;
  le = leb;
  lt = ltb;
}

div_mono : {a b : ℕ} (c : ℕ) → a ≤ b → a / c ≤ b / c
div_mono zero h = omega arith
div_mono {a} (suc c) h =
    (le-div_iff_mul-le {k = suc c} (omega arith)).1 (le_trans (div-mul-le_self a (suc c)) h)

pub micro-IsOrdered : IsOrdered ℕ
micro-IsOrdered = record {
  le_trans = λ a b c p q. ground arith;
  literal_le = λ m n k h. le→leb _ _ (div_mono (10 ^ k) (omega arith));
  zero-add = λ a b. ground arith;
}
