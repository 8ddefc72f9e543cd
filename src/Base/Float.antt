-- ===== src/Base/Float.antt =====
-- What the code does with a `float64`, and what it leaves to `fmt`. The type and its operations are
-- a parameter of the model; the laws are those of IEEE 754, and none of them is exactness.
use Prim.Native.Nat.{ℕ, ◌≤◌, ◌<◌, ◌^◌}
use Prim.Native.String.{String}
use mathlib.Core.Path.{◌≡◌}
use mathlib.Core.Bool.{Bool, true, false}
use mathlib.Core.Logic.{◌⊎◌}
use brod_cli.Base.Int.{ℤ, pos, ◌≤ℤ◌}

pub record Float {ℓ} (F : Type ℓ) : Type ℓ where
  pub add : F → F → F
  pub sub : F → F → F
  pub mul : F → F → F
  pub div : F → F → F
  -- `a < b`, `a <= b` and `a == b`; `a > b` is `b < a`, and all of them fail at NaN
  pub lt : F → F → Bool
  pub le : F → F → Bool
  pub eq : F → F → Bool
  -- the constant m / 10 ^ k, correctly rounded
  pub lit : ℕ → ℕ → F
  -- `float64(n)` and `int(x)`
  pub of_int : ℤ → F
  pub to_int : F → ℤ
  -- `math.Round`, `math.Ceil` and `math.Max`
  pub round : F → F
  pub ceil : F → F
  pub max : F → F → F
  -- `%.kf` of `fmt`, and its `%q`
  pub fixed : ℕ → F → String
  pub quote : String → String

module _ {ℓ} {F : Type ℓ} ⦃f : Float F⦄ where
  abbrev pub nought : F
  nought = f.lit 0 0

  -- Zero of either sign, a positive number, or NaN.
  abbrev pub NotNeg : F → Type 0
  NotNeg x = f.lt x nought ≡ false

  abbrev pub IsPos : F → Type 0
  IsPos x = f.lt nought x ≡ true

  -- Every float but NaN equals itself.
  abbrev pub IsNum : F → Type 0
  IsNum x = f.eq x x ≡ true

-- Signs and comparisons. They hold at infinities and NaN too: no operation with operands that are
-- not below zero has a result below zero.
pub record IsIeee {ℓ} (F : Type ℓ) ⦃f : Float F⦄ : Type ℓ where
  pub lit-NotNeg : (m k : ℕ) → NotNeg (f.lit m k)
  pub lit-IsPos : (m k : ℕ) → 0 < m → k ≤ 20 → IsPos (f.lit m k)
  pub of_int-NotNeg : (n : ℕ) → NotNeg (f.of_int (pos n))
  pub of_int-IsPos : (n : ℕ) → 0 < n → IsPos (f.of_int (pos n))
  pub add-NotNeg : (x y : F) → NotNeg x → NotNeg y → NotNeg (f.add x y)
  pub mul-NotNeg : (x y : F) → NotNeg x → NotNeg y → NotNeg (f.mul x y)
  pub div-NotNeg : (x y : F) → NotNeg x → IsPos y → NotNeg (f.div x y)
  pub div-of_int-IsPos :
      (n m : ℕ) → 0 < n → 0 < m → m ≤ 1_000_000_000 → IsPos (f.div (f.of_int (pos n)) (f.lit m 0))
  pub round-NotNeg : (x : F) → NotNeg x → NotNeg (f.round x)
  -- `int` of a float that is in range and not below an integer is not below it
  pub to_int-max-of_int :
      (n : ℕ) (x : F)
      → n ≤ 2 ^ 53
      → f.lt (f.max (f.of_int (pos n)) x) (f.lit (2 ^ 63) 0) ≡ true
      → pos n ≤ℤ f.to_int (f.max (f.of_int (pos n)) x)
  pub lt_asymm : (x y : F) → f.lt x y ≡ true → f.lt y x ≡ false
  pub lt_trans : (x y z : F) → f.lt x y ≡ true → f.lt y z ≡ true → f.lt x z ≡ true
  pub lt_le_trans : (x y z : F) → f.lt x y ≡ true → f.le y z ≡ true → f.lt x z ≡ true
  pub le-of_lt : (x y : F) → f.lt x y ≡ true → f.le x y ≡ true
  -- of two numbers one is less, or they are equal, and equal numbers compare alike
  pub trichotomy :
      (x y : F) → IsNum x → IsNum y → (f.lt x y ≡ true) ⊎ ((f.lt y x ≡ true) ⊎ (f.eq x y ≡ true))
  pub eq_symm : (x y : F) → f.eq x y ≡ true → f.eq y x ≡ true
  pub eq_trans : (x y z : F) → f.eq x y ≡ true → f.eq y z ≡ true → f.eq x z ≡ true
  pub lt-ne : (x y : F) → f.lt x y ≡ true → f.eq x y ≡ false
  pub lt_eq_trans : (x y z : F) → f.lt x y ≡ true → f.eq y z ≡ true → f.lt x z ≡ true
  pub eq_lt_trans : (x y z : F) → f.eq x y ≡ true → f.lt y z ≡ true → f.lt x z ≡ true
