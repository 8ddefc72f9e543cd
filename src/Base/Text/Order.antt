-- ===== src/Base/Text/Order.antt =====
-- The order of texts is a strict weak order.
use Prim.Native.String.{String}
use Prim.Native.String.compare
use mathlib.Core.Path.{◌≡◌}
use mathlib.Core.Bool.{true, false}
use native.Mathlib.Omega.{arith}
use brod_cli.Base.Text.{str_lt}

pub str_lt_asymm : (s t : String) → str_lt s t ≡ true → str_lt t s ≡ false
str_lt_asymm String.[] String.[] h = ground (arith, compare.nil-nil)
str_lt_asymm String.[] (String.◌∷◌ d t) h = ground (arith, compare.cons-nil d t)
str_lt_asymm (String.◌∷◌ c s) String.[] h = ground (arith, compare.cons-nil c s)
str_lt_asymm (String.◌∷◌ c s) (String.◌∷◌ d t) h =
    ground (arith, compare.cons-cons c d s t, compare.cons-cons d c t s, str_lt_asymm s t)

pub str_lt_neg_trans :
    (s t u : String) → str_lt t s ≡ false → str_lt u t ≡ false → str_lt u s ≡ false
str_lt_neg_trans String.[] t String.[] h k = ground (arith, compare.nil-nil)
str_lt_neg_trans String.[] t (String.◌∷◌ e u) h k = ground (arith, compare.cons-nil e u)
str_lt_neg_trans (String.◌∷◌ c s) String.[] u h k = absurd (ground (arith, compare.nil-cons c s))
str_lt_neg_trans (String.◌∷◌ c s) (String.◌∷◌ d t) String.[] h k =
    absurd (ground (arith, compare.nil-cons d t))
str_lt_neg_trans (String.◌∷◌ c s) (String.◌∷◌ d t) (String.◌∷◌ e u) h k = ground (
  arith,
  compare.cons-cons d c t s,
  compare.cons-cons e d u t,
  compare.cons-cons e c u s,
  str_lt_neg_trans s t u,
)
