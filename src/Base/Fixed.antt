-- ===== src/Base/Fixed.antt =====
-- A concrete arithmetic that meets the laws of `IsIeee`: integers as multiples of 1 / 10 ^ 20, with
-- products and quotients truncated. The examples run on it.
use Prim.Native.Nat.{ℕ, zero, suc, ◌+◌, ◌-◌, ◌*◌, ◌/◌, ◌%◌, ◌^◌, ◌≤◌, ◌<◌}
use Prim.Native.String.{String, ◌++◌}
use mathlib.Core.Bool.{Bool}
use native.Mathlib.Omega.{arith}
use native.Mathlib.Nat.{pow-le-pow_right, one-le-pow, le-div_iff_mul-le}
use brod_cli.Base.Tests.{◌==◌, if◌then◌else◌}
use brod_cli.Base.Int.{ℤ, pos, negsuc, ◌+ℤ◌, ◌-ℤ◌, pos_part, neg_part, ltb_ℤ, leb_ℤ, ◌≤ℤ◌}
use brod_cli.Base.Text.{digit, show_ℕ}
use brod_cli.Base.Float.{Float, IsIeee, NotNeg, IsPos}

abbrev scale : ℕ
scale = 10 ^ 20

abbrev neg : ℕ → ℤ
neg zero = pos 0
neg (suc n) = negsuc n

abbrev times : ℤ → ℤ → ℤ
times (pos a) (pos b) = pos (a * b / scale)
times (pos a) (negsuc b) = neg (a * suc b / scale)
times (negsuc a) (pos b) = neg (suc a * b / scale)
times (negsuc a) (negsuc b) = pos (suc a * suc b / scale)

abbrev over : ℤ → ℤ → ℤ
over (pos a) (pos b) = pos (a * scale / b)
over (pos a) (negsuc b) = neg (a * scale / suc b)
over (negsuc a) (pos b) = neg (suc a * scale / b)
over (negsuc a) (negsuc b) = pos (suc a * scale / suc b)

abbrev nearest : ℤ → ℤ
nearest (pos a) = pos ((a + scale / 2) / scale * scale)
nearest (negsuc a) = neg ((suc a + scale / 2) / scale * scale)

abbrev upwards : ℤ → ℤ
upwards (pos a) = pos ((a + scale - 1) / scale * scale)
upwards (negsuc a) = neg (suc a / scale * scale)

abbrev whole : ℤ → ℤ
whole (pos a) = pos (a / scale)
whole (negsuc a) = neg (suc a / scale)

abbrev units : ℤ → ℤ
units (pos n) = pos (n * scale)
units (negsuc n) = neg (suc n * scale)

abbrev same : ℤ → ℤ → Bool
same a b = pos_part a + neg_part b == pos_part b + neg_part a

-- The last `k` digits of a number.
digits : ℕ → ℕ → String → String
digits zero n rest = rest
digits (suc k) n rest = digits k (n / 10) (digit (n % 10) ++ rest)

show_fixed : ℕ → ℕ → String
unfolding digits show_ℕ
show_fixed k a =
    let q = (a * 10 ^ k + scale / 2) / scale in
    show_ℕ (q / 10 ^ k) ++ (if k == 0 then "" else "." ++ digits k q "")

unfoldable pub show_decimal : ℕ → ℤ → String
unfolding show_fixed
show_decimal k (pos a) = show_fixed k a
show_decimal k (negsuc a) = "-" ++ show_fixed k (suc a)

instance abbrev pub fixed_float : Float ℤ
fixed_float = record {
  add = ◌+ℤ◌;
  sub = ◌-ℤ◌;
  mul = times;
  div = over;
  lt = ltb_ℤ;
  le = leb_ℤ;
  eq = same;
  lit = λ m k. pos (m * scale / 10 ^ k);
  of_int = units;
  to_int = whole;
  round = nearest;
  ceil = upwards;
  max = λ a b. if ltb_ℤ a b then b else a;
  fixed = show_decimal;
  quote = λ s. "\"" ++ s ++ "\"";
}

times-NotNeg : (x y : ℤ) → NotNeg x → NotNeg y → NotNeg (times x y)
times-NotNeg (pos a) (pos b) hx hy = ground arith
times-NotNeg (pos a) (negsuc b) hx hy = absurd (ground arith)
times-NotNeg (negsuc a) y hx hy = absurd (ground arith)

over-NotNeg : (x y : ℤ) → NotNeg x → IsPos y → NotNeg (over x y)
over-NotNeg (pos a) (pos b) hx hy = ground arith
over-NotNeg (pos a) (negsuc b) hx hy = absurd (ground arith)
over-NotNeg (negsuc a) y hx hy = absurd (ground arith)

nearest-NotNeg : (x : ℤ) → NotNeg x → NotNeg (nearest x)
nearest-NotNeg (pos a) h = ground arith
nearest-NotNeg (negsuc a) h = absurd (ground arith)

sum-NotNeg : (x y : ℤ) → NotNeg x → NotNeg y → NotNeg (x +ℤ y)
unfolding ◌+ℤ◌
sum-NotNeg x y hx hy = ground arith

lit_pos : (m k : ℕ) → 0 < m → k ≤ 20 → 0 < m * scale / 10 ^ k
lit_pos m k hm hk =
    let power : 10 ^ k ≤ scale = pow-le-pow_right {n = 10} (omega arith) hk in
    let some_power : 0 < 10 ^ k = one-le-pow k 10 (omega arith) in
    (le-div_iff_mul-le some_power).1 (omega (arith, power))

quotient_pos :
    (n m : ℕ) → 0 < n → 0 < m → m ≤ 1_000_000_000 → 0 < n * scale * scale / (m * scale / 1)
quotient_pos n m hn hm h = (le-div_iff_mul-le (omega arith)).1 (omega arith)

whole_max : (n : ℕ) (x : ℤ) → pos n ≤ℤ whole (fixed_float.max (units (pos n)) x)
whole_max n (pos b) =
    ground (arith, (le-div_iff_mul-le {k = scale} {x = n} {y = b} (omega arith)).1)
whole_max n (negsuc b) = ground arith

pub fixed_IsIeee : IsIeee ℤ
fixed_IsIeee = record {
  lit-NotNeg = λ m k. ground arith;
  lit-IsPos = λ m k hm hk. ground (arith, lit_pos m k hm hk);
  of_int-NotNeg = λ n. ground arith;
  of_int-IsPos = λ n h. ground arith;
  add-NotNeg = sum-NotNeg;
  mul-NotNeg = times-NotNeg;
  div-NotNeg = over-NotNeg;
  div-of_int-IsPos = λ n m hn hm h. ground (arith, quotient_pos n m hn hm h);
  round-NotNeg = nearest-NotNeg;
  to_int-max-of_int = λ n x _ _. whole_max n x;
  lt_asymm = λ x y h. ground arith;
  lt_trans = λ x y z h k. ground arith;
  lt_le_trans = λ x y z h k. ground arith;
  le-of_lt = λ x y h. ground arith;
  trichotomy = λ x y hx hy. ground arith;
  eq_symm = λ x y h. ground arith;
  eq_trans = λ x y z h k. ground arith;
  lt-ne = λ x y h. ground arith;
  lt_eq_trans = λ x y z h k. ground arith;
  eq_lt_trans = λ x y z h k. ground arith;
}
