-- ===== src/Rules/Helpers.antt =====
-- internal/rules/helpers.go, `gb` of engine.go, and the helpers that the rules share.
use Prim.Native.Nat.{◌*◌, ◌^◌}
use Prim.Native.String.{String, ◌++◌}
use text.Mathlib.Text.{◌==◌ as str_eq}
use brod_cli.Base.{Bool, false, not, ◌&&◌, ◌||◌, List, [], ◌∷◌, if◌then◌else◌}
use brod_cli.Base.Int.{ℤ, pos, ltb_ℤ, leb_ℤ}
use brod_cli.Base.Text.{has_prefix, has_suffix}
use brod_cli.Base.Float.{Float, nought}
use brod_cli.Rules.Types.{Severity, info, warning, critical, Topic, ConsumerGrp, Snapshot}
use brod_cli.Rules.Config.{streams_internal_suffixes, day_ms}

unfoldable pub max_i64 : ℤ → ℤ → ℤ
max_i64 a b = if ltb_ℤ b a then a else b

unfoldable pub severity_for_bytes : ℤ → Severity
severity_for_bytes b =
    if leb_ℤ (pos (100 * 2 ^ 30)) b
    then critical
    else if leb_ℤ (pos (10 * 2 ^ 30)) b
    then warning
    else info

unfoldable pub match_suffix : String → List String → String
match_suffix name [] = ""
match_suffix name (s ∷ suffixes) = if has_suffix name s then s else match_suffix name suffixes

unfoldable pub is_streams_internal : String → Bool
unfolding match_suffix
is_streams_internal name = not (str_eq (match_suffix name streams_internal_suffixes) "")

unfoldable pub has_owning_app : String → List ConsumerGrp → Bool
has_owning_app topic [] = false
has_owning_app topic (g ∷ groups) =
    not (str_eq g.group_id "") && has_prefix topic g.group_id || has_owning_app topic groups

unfoldable pub label_empty : String → String
label_empty s = if str_eq s "" then "none" else s

-- The map `uncompressedTypes`.
unfoldable pub is_uncompressed : String → Bool
is_uncompressed c =
    str_eq c "" || (str_eq c "none" || (str_eq c "uncompressed" || str_eq c "producer"))

module _ {F : Type 0} ⦃f : Float F⦄ where
  open f use {mul, div, lt, le, lit, of_int, fixed}

  unfoldable pub gb : ℤ → F
  gb bytes = div (of_int bytes) (lit 1_000_000_000 0)

  unfoldable pub round2 : F → F
  round2 x = div (f.round (mul x (lit 100 0))) (lit 100 0)

  unfoldable pub min_f : F → F → F
  min_f a b = if lt a b then a else b

  unfoldable pub lookup_in : String → List (Topic F) → F
  lookup_in name [] = nought
  lookup_in name (t ∷ ts) = if str_eq t.name name then t.bytes_in_per_sec else lookup_in name ts

  unfoldable pub lookup_bytes_in_per_sec : Snapshot F → String → F
  unfolding lookup_in
  lookup_bytes_in_per_sec s name = lookup_in name s.topics

unfoldable pub dur_ms : (F : Type 0) ⦃f : Float F⦄ → ℤ → String
dur_ms F ⦃f⦄ ms =
    let d : F = f.div (f.of_int ms) (f.of_int day_ms) in
    if ltb_ℤ ms (pos 0)
    then "∞"
    else if f.le (f.lit 1 0) d
    then f.fixed 1 d ++ "d"
    else f.fixed 1 (f.div (f.of_int ms) (f.lit 3_600_000 0)) ++ "h"
