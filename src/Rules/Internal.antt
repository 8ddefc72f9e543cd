-- ===== src/Rules/Internal.antt =====
-- Rule R8, internal/rules/r8_internal.go.
use Prim.Native.String.{◌++◌}
use text.Mathlib.Text.{◌==◌ as str_eq}
use brod_cli.Base.{false, Option, none, some, List, [], ◌∷◌, if◌then◌else◌}
use mathlib.Core.List.{filter_map}
use brod_cli.Base.Int.{pos, ltb_ℤ}
use brod_cli.Base.Float.{Float}
use brod_cli.Rules.Types.{Topic, Finding, Evidence, medium}
use brod_cli.Rules.Config.{EvalCtx}
use brod_cli.Rules.Helpers.{gb, round2, severity_for_bytes, match_suffix, has_owning_app}

module _ {F : Type 0} ⦃f : Float F⦄ where
  open f use {mul, fixed, quote}

  unfoldable pub r8_finding : EvalCtx F → Topic F → Finding F
  r8_finding ctx t =
      let price : F = ctx.prices.storage_eur_per_gb_mo in
      let retained_gb : F = gb t.retained_bytes in
      let eur : F = mul retained_gb price in
      record {
        rule_id = "R8";
        rule_version = pos 1;
        title =
            "Orphaned internal topic "
            ++ quote t.name
            ++ ": "
            ++ fixed 1 retained_gb
            ++ " GB, owning app gone";
        severity = severity_for_bytes t.retained_bytes;
        resource_key = "R8:" ++ t.name;
        evidence =
            ("suffix", Evidence.of_text (match_suffix t.name ctx.cfg.r8.suffixes))
            ∷ ("retained_gb", Evidence.of_float (round2 retained_gb))
            ∷ ("owning_group_present", Evidence.of_bool false)
            ∷ (
              "approximation",
              Evidence.of_text
                  "single snapshot — confirm the Streams/Connect app is truly gone before deleting",
            )
            ∷ [];
        est_saving_eur = round2 eur;
        basis =
            "APPROXIMATION: no consumer group is a prefix of "
            ++ quote t.name
            ++ " (Streams application.id absent) → orphaned. "
            ++ fixed 1 retained_gb
            ++ " GB × "
            ++ fixed 4 price
            ++ " €/GB-mo. Storage basis: "
            ++ ctx.prices.storage_basis;
        confidence = medium;
        remediation = record {
          summary =
              "Delete orphaned internal topic "
              ++ quote t.name
              ++ " after confirming no Kafka Streams/Connect app owns it.";
          kafka_configs_cmd = "kafka-topics --delete --topic " ++ t.name;
          terraform_diff = "";
          strimzi_yaml = "";
          one_click = false;
        };
      }

  -- The body of the loop over the topics.
  unfoldable pub r8_topic : EvalCtx F → Topic F → Option (Finding F)
  r8_topic ctx t =
      let cfg = ctx.cfg.r8 in
      if str_eq (match_suffix t.name cfg.suffixes) ""
      then none
      else if ltb_ℤ t.retained_bytes cfg.min_retained_bytes
      then none
      else if has_owning_app t.name ctx.snap.groups
      then none
      else some (r8_finding ctx t)

  unfoldable pub eval_r8 : EvalCtx F → List (Finding F)
  unfolding filter_map
  eval_r8 ctx = filter_map (r8_topic ctx) ctx.snap.topics
