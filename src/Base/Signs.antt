-- ===== src/Base/Signs.antt =====
-- The signs of floats that come from integers.
use Prim.Native.Nat.{ℕ, ◌<◌}
use mathlib.Core.Path.{◌≡◌}
use mathlib.Core.Bool.{true, false}
use native.Mathlib.Omega.{arith}
use brod_cli.Base.Int.{ℤ, pos, negsuc, ◌≤ℤ◌, ◌<ℤ◌}
use brod_cli.Base.Float.{Float, IsIeee, NotNeg, IsPos, nought}

module _ {F : Type 0} ⦃f : Float F⦄ (laws : IsIeee F) where
  pub IsPos-NotNeg : (x : F) → IsPos x → NotNeg x
  IsPos-NotNeg x h = laws.lt_asymm nought x h

  -- What is not at most zero is not below zero.
  pub not-le-NotNeg : (x : F) → f.le x nought ≡ false → NotNeg x
  not-le-NotNeg x h = ground (arith, laws.le-of_lt x nought)

  -- What is not below a bound that is at least zero is not below zero.
  pub above-NotNeg : (x m : F) → f.le nought m ≡ true → f.lt x m ≡ false → NotNeg x
  above-NotNeg x m h k = ground (arith, laws.lt_le_trans x nought m)

  pub of_ℤ-NotNeg : (z : ℤ) → pos 0 ≤ℤ z → NotNeg (f.of_int z)
  of_ℤ-NotNeg (pos n) h = laws.of_int-NotNeg n
  of_ℤ-NotNeg (negsuc n) h = absurd (omega arith)

  pub of_ℤ-IsPos : (z : ℤ) → pos 0 <ℤ z → IsPos (f.of_int z)
  of_ℤ-IsPos (pos n) h = laws.of_int-IsPos n (omega arith)
  of_ℤ-IsPos (negsuc n) h = absurd (omega arith)

  pub gigabytes-IsPos : (z : ℤ) → pos 0 <ℤ z → IsPos (f.div (f.of_int z) (f.lit 1_000_000_000 0))
  gigabytes-IsPos (pos n) h =
      laws.div-of_int-IsPos n 1_000_000_000 (omega arith) (omega arith) (omega arith)
  gigabytes-IsPos (negsuc n) h = absurd (omega arith)

  pub lit_int-IsPos : (n : ℕ) → 0 < n → IsPos (f.lit n 0)
  lit_int-IsPos n h = laws.lit-IsPos n 0 h (omega arith)
