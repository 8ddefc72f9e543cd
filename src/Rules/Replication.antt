-- ===== src/Rules/Replication.antt =====
-- Rule R6, internal/rules/r6_replication.go.
use Prim.Native.String.{String, ◌++◌}
use brod_cli.Base.{Bool, false, not, ◌||◌, Option, none, some, List, [], ◌∷◌, if◌then◌else◌}
use mathlib.Core.List.{filter_map}
use brod_cli.Base.Int.{pos, ◌-ℤ◌, ltb_ℤ, leb_ℤ, i64}
use brod_cli.Base.Text.{show_ℤ}
use brod_cli.Base.Float.{Float}
use brod_cli.Rules.Types.{Topic, Finding, Evidence, warning, medium}
use brod_cli.Rules.Pattern.{Pattern}
use brod_cli.Rules.Config.{EvalCtx}
use brod_cli.Rules.Helpers.{gb, round2}

-- `cfg.NamePattern == nil || !cfg.NamePattern.MatchString(name)`, negated.
unfoldable pub matches_pattern : Option Pattern → String → Bool
matches_pattern none name = false
matches_pattern (some p) name = p.match_string name

-- `cfg.NamePattern.String()`, which is called on a pattern that is not nil.
unfoldable pub pattern_source : Option Pattern → String
pattern_source none = ""
pattern_source (some p) = p.source

module _ {F : Type 0} ⦃f : Float F⦄ where
  open f use {mul, div, of_int, fixed, quote}

  unfoldable pub r6_finding : EvalCtx F → Topic F → Finding F
  r6_finding ctx t =
      let cfg = ctx.cfg.r6 in
      let price : F = ctx.prices.storage_eur_per_gb_mo in
      let retained_gb : F = gb t.retained_bytes in
      let frac : F =
        div (of_int (i64 (t.replication_factor -ℤ cfg.proposed_rf)))
          (of_int t.replication_factor) in
      let eur : F = mul (mul retained_gb frac) price in
      record {
        rule_id = "R6";
        rule_version = pos 1;
        title = "Non-prod topic " ++ quote t.name ++ " runs RF=" ++ show_ℤ t.replication_factor;
        severity = warning;
        resource_key = "R6:" ++ t.name;
        evidence =
            ("replication_factor", Evidence.of_int t.replication_factor)
            ∷ ("proposed_rf", Evidence.of_int cfg.proposed_rf)
            ∷ ("retained_gb", Evidence.of_float (round2 retained_gb))
            ∷ ("matched_pattern", Evidence.of_text (pattern_source cfg.name_pattern))
            ∷ [];
        est_saving_eur = round2 eur;
        basis =
            fixed 1 retained_gb
            ++ " GB × ("
            ++ show_ℤ t.replication_factor
            ++ "−"
            ++ show_ℤ cfg.proposed_rf
            ++ ")/"
            ++ show_ℤ t.replication_factor
            ++ " replicas × "
            ++ fixed 4 price
            ++ " €/GB-mo. Storage basis: "
            ++ ctx.prices.storage_basis;
        confidence = medium;
        remediation = record {
          summary =
              "Reduce replication factor to "
              ++ show_ℤ cfg.proposed_rf
              ++ " via a partition-reassignment PR (non-prod data).";
          kafka_configs_cmd = "";
          terraform_diff =
              "  topic "
              ++ quote t.name
              ++ " {\n-   replication_factor = "
              ++ show_ℤ t.replication_factor
              ++ "\n+   replication_factor = "
              ++ show_ℤ cfg.proposed_rf
              ++ "\n  }";
          strimzi_yaml = "  spec:\n    replicas: " ++ show_ℤ cfg.proposed_rf;
          one_click = false;
        };
      }

  -- The body of the loop over the topics.
  unfoldable pub r6_topic : EvalCtx F → Topic F → Option (Finding F)
  r6_topic ctx t =
      let cfg = ctx.cfg.r6 in
      if ltb_ℤ t.replication_factor cfg.trigger_rf || leb_ℤ t.replication_factor cfg.proposed_rf
      then none
      else if not (matches_pattern cfg.name_pattern t.name)
      then none
      else some (r6_finding ctx t)

  unfoldable pub eval_r6 : EvalCtx F → List (Finding F)
  unfolding filter_map
  eval_r6 ctx = filter_map (r6_topic ctx) ctx.snap.topics
