-- ===== src/Rules/Retention.antt =====
-- Rule R3, internal/rules/r3_retention.go.
use Prim.Native.String.{◌++◌}
use brod_cli.Base.{true, ◌&&◌, Option, none, some, List, [], ◌∷◌, if◌then◌else◌}
use mathlib.Core.List.{filter_map}
use brod_cli.Base.Int.{ℤ, pos, ◌*ℤ◌, ltb_ℤ, leb_ℤ, i64}
use brod_cli.Base.Text.{show_ℤ}
use brod_cli.Base.Float.{Float, nought}
use brod_cli.Rules.Types.{Topic, Finding, Evidence, warning, medium}
use brod_cli.Rules.Config.{EvalCtx}
use brod_cli.Rules.Helpers.{gb, round2, max_i64, min_f, lookup_bytes_in_per_sec, dur_ms}

module _ {F : Type 0} ⦃f : Float F⦄ where
  open f use {sub, mul, div, le, lit, of_int, fixed, quote}

  unfoldable pub proposed_retention : EvalCtx F → Topic F → ℤ
  proposed_retention ctx t = max_i64 ctx.cfg.r3.min_floor_ms (i64 (pos 2 *ℤ t.max_consumer_lag_ms))

  -- Retained bytes at the proposed retention, never more than there are.
  unfoldable pub projected_bytes : EvalCtx F → Topic F → F
  projected_bytes ctx t =
      min_f
        (div (mul (lookup_bytes_in_per_sec ctx.snap t.name) (of_int (proposed_retention ctx t)))
          (lit 1000 0))
        (of_int t.retained_bytes)

  unfoldable pub saved_gb : EvalCtx F → Topic F → F
  saved_gb ctx t = div (sub (of_int t.retained_bytes) (projected_bytes ctx t)) (lit 1_000_000_000 0)

  unfoldable pub r3_finding : EvalCtx F → Topic F → Finding F
  r3_finding ctx t =
      let proposed = proposed_retention ctx t in
      let projected : F = projected_bytes ctx t in
      let price : F = ctx.prices.storage_eur_per_gb_mo in
      let eur : F = mul (saved_gb ctx t) price in
      record {
        rule_id = "R3";
        rule_version = pos 1;
        title =
            "Topic "
            ++ quote t.name
            ++ " keeps "
            ++ dur_ms F t.retention_ms
            ++ " retention vs "
            ++ dur_ms F t.max_consumer_lag_ms
            ++ " consumption horizon";
        severity = warning;
        resource_key = "R3:" ++ t.name;
        evidence =
            ("retention_ms", Evidence.of_int t.retention_ms)
            ∷ ("proposed_retention_ms", Evidence.of_int proposed)
            ∷ ("max_consumer_lag_ms", Evidence.of_int t.max_consumer_lag_ms)
            ∷ ("retained_gb", Evidence.of_float (round2 (gb t.retained_bytes)))
            ∷ ("projected_gb", Evidence.of_float (round2 (div projected (lit 1_000_000_000 0))))
            ∷ [];
        est_saving_eur = round2 eur;
        basis =
            "("
            ++ fixed 1 (gb t.retained_bytes)
            ++ " GB current − "
            ++ fixed 1 (div projected (lit 1_000_000_000 0))
            ++ " GB projected at "
            ++ dur_ms F proposed
            ++ ") × "
            ++ fixed 4 price
            ++ " €/GB-mo; projected = bytes-in × proposed retention. Storage basis: "
            ++ ctx.prices.storage_basis;
        confidence = medium;
        remediation = record {
          summary =
              "Lower retention.ms on "
              ++ quote t.name
              ++ " to "
              ++ show_ℤ proposed
              ++ " ("
              ++ dur_ms F proposed
              ++ ").";
          kafka_configs_cmd =
              "kafka-configs --alter --topic "
              ++ t.name
              ++ " --add-config retention.ms="
              ++ show_ℤ proposed;
          terraform_diff =
              "  config = {\n-   \"retention.ms\" = \""
              ++ show_ℤ t.retention_ms
              ++ "\"\n+   \"retention.ms\" = \""
              ++ show_ℤ proposed
              ++ "\"\n  }";
          strimzi_yaml = "    config:\n      retention.ms: " ++ show_ℤ proposed;
          one_click = true;
        };
      }

  -- The body of the loop over the topics.
  unfoldable pub r3_topic : EvalCtx F → Topic F → Option (Finding F)
  r3_topic ctx t =
      let cfg = ctx.cfg.r3 in
      if ltb_ℤ t.retained_bytes cfg.min_retained_bytes
      then none
      else if ltb_ℤ t.max_consumer_lag_ms (pos 0)
      then none
      else if leb_ℤ (pos 0) t.retention_ms
          && le (of_int t.retention_ms) (mul cfg.lag_multiplier (of_int t.max_consumer_lag_ms))
      then none
      else if leb_ℤ (pos 0) t.retention_ms && leb_ℤ t.retention_ms (proposed_retention ctx t)
      then none
      else if le (saved_gb ctx t) nought
      then none
      else some (r3_finding ctx t)

  unfoldable pub eval_r3 : EvalCtx F → List (Finding F)
  unfolding filter_map
  eval_r3 ctx = filter_map (r3_topic ctx) ctx.snap.topics
