-- ===== src/Rules/Proposals.antt =====
-- What R3 proposes.
use Prim.Native.Nat.{◌^◌}
use brod_cli.Base.{◌≡◌, false, ◌&&◌, some, arith}
use brod_cli.Base.Int.{ℤ, pos, negsuc, ◌*ℤ◌, ◌≤ℤ◌, ◌<ℤ◌, i64, i64_of_IsI64, leb_ℤ, ltb_ℤ}
use brod_cli.Base.Float.{Float}
use mathlib.Core.Path.{subst}
use brod_cli.Rules.Types.{Topic, Finding}
use brod_cli.Rules.Config.{EvalCtx}
use brod_cli.Rules.Helpers.{max_i64}
use brod_cli.Rules.Retention.{r3_topic, proposed_retention}
use brod_cli.Rules.Guards.{r3_topic-eq-some}

twice_no_wrap :
    (z : ℤ) → z <ℤ pos (2 ^ 62) → ltb_ℤ z (pos 0) ≡ false → i64 (pos 2 *ℤ z) ≡ pos 2 *ℤ z
unfolding ◌*ℤ◌
twice_no_wrap (pos n) h k = i64_of_IsI64 (pos 2 *ℤ pos n) (ground arith)
twice_no_wrap (negsuc n) h k = absurd (ground arith)

max_i64_bounds : (a b : ℤ) → (a ≤ℤ max_i64 a b) × (b ≤ℤ max_i64 a b)
unfolding max_i64
max_i64_bounds a b = ground arith

below_of_guard : (a b : ℤ) → (leb_ℤ (pos 0) a && leb_ℤ a b) ≡ false → pos 0 ≤ℤ a → b <ℤ a
below_of_guard a b h k = ground arith

module _ {F : Type 0} ⦃f : Float F⦄ (ctx : EvalCtx F) where
  -- Where R3 reports a topic whose lag is under 2 ^ 62 ms, the proposed retention is at least the
  -- configured floor and at least twice the lag, and it is less than the present retention, if
  -- that is not infinite.
  pub r3_topic_proposal :
      (t : Topic F) (x : Finding F)
      → t.max_consumer_lag_ms <ℤ pos (2 ^ 62)
      → r3_topic ctx t ≡ some x
      → (ctx.cfg.r3.min_floor_ms ≤ℤ proposed_retention ctx t)
        × (pos 2 *ℤ t.max_consumer_lag_ms ≤ℤ proposed_retention ctx t)
        × (pos 0 ≤ℤ t.retention_ms → proposed_retention ctx t <ℤ t.retention_ms)
  unfolding proposed_retention
  r3_topic_proposal t x bound e =
      let guards = r3_topic-eq-some ctx t e in
      let twice = i64 (pos 2 *ℤ t.max_consumer_lag_ms) in
      let (floor, doubled) = max_i64_bounds ctx.cfg.r3.min_floor_ms twice in
      (
        floor,
        subst (λ z. z ≤ℤ proposed_retention ctx t)
            (twice_no_wrap t.max_consumer_lag_ms bound guards.2) doubled,
        below_of_guard t.retention_ms (proposed_retention ctx t) guards.3,
      )
