-- ===== src/Rules/DeadTopic.antt =====
-- Rule R1, internal/rules/r1_dead_topic.go.
use Prim.Native.String.{◌++◌}
use brod_cli.Base.{false, Option, none, some, List, [], ◌∷◌, if◌then◌else◌}
use mathlib.Core.List.{filter_map}
use brod_cli.Base.Int.{pos, ltb_ℤ}
use brod_cli.Base.Float.{Float}
use brod_cli.Rules.Types.{Topic, Finding, Evidence, low}
use brod_cli.Rules.Config.{EvalCtx}
use brod_cli.Rules.Helpers.{gb, round2, severity_for_bytes, is_streams_internal}

module _ {F : Type 0} ⦃f : Float F⦄ where
  open f use {mul, lt, fixed, quote}

  -- The finding that the loop appends for a topic that no guard skips.
  unfoldable pub r1_finding : EvalCtx F → Topic F → Finding F
  r1_finding ctx t =
      let retained_gb : F = gb t.retained_bytes in
      let price : F = ctx.prices.storage_eur_per_gb_mo in
      let eur : F = mul retained_gb price in
      record {
        rule_id = "R1";
        rule_version = pos 2;
        title =
            "Topic "
            ++ quote t.name
            ++ " looks dead: "
            ++ fixed 1 retained_gb
            ++ " GB retained, no traffic, no consumers";
        severity = severity_for_bytes t.retained_bytes;
        resource_key = "R1:" ++ t.name;
        evidence =
            ("bytes_in_per_sec", Evidence.of_float t.bytes_in_per_sec)
            ∷ ("active_consumers", Evidence.of_int t.active_consumers)
            ∷ ("retained_gb", Evidence.of_float (round2 retained_gb))
            ∷ (
              "approximation",
              Evidence.of_text "single snapshot — SaaS confirms over 30d before booking",
            )
            ∷ [];
        est_saving_eur = round2 eur;
        basis =
            "APPROXIMATION (single snapshot): "
            ++ fixed 1 retained_gb
            ++ " GB × "
            ++ fixed 4 price
            ++ " €/GB-mo. Storage basis: "
            ++ ctx.prices.storage_basis;
        confidence = low;
        remediation = record {
          summary =
              "Delete topic "
              ++ quote t.name
              ++ " after confirming no producers/consumers depend on it.";
          kafka_configs_cmd = "kafka-topics --delete --topic " ++ t.name;
          terraform_diff = "- resource \"kafka_topic\" " ++ quote t.name ++ " { ... }";
          strimzi_yaml = "";
          one_click = false;
        };
      }

  -- The body of the loop over the topics; `none` is `continue`.
  unfoldable pub r1_topic : EvalCtx F → Topic F → Option (Finding F)
  r1_topic ctx t =
      let cfg = ctx.cfg.r1 in
      if is_streams_internal t.name
      then none
      else if lt cfg.max_bytes_in_per_sec t.bytes_in_per_sec
      then none
      else if ltb_ℤ (pos 0) t.active_consumers
      then none
      else if ltb_ℤ t.retained_bytes cfg.min_retained_bytes
      then none
      else some (r1_finding ctx t)

  unfoldable pub eval_r1 : EvalCtx F → List (Finding F)
  unfolding filter_map
  eval_r1 ctx = filter_map (r1_topic ctx) ctx.snap.topics
