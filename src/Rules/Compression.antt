-- ===== src/Rules/Compression.antt =====
-- Rule R5, internal/rules/r5_compression.go.
use Prim.Native.String.{◌++◌}
use brod_cli.Base.{true, not, Option, none, some, List, [], ◌∷◌, if◌then◌else◌}
use mathlib.Core.List.{filter_map}
use brod_cli.Base.Int.{pos}
use brod_cli.Base.Float.{Float}
use brod_cli.Cost.{monthly_gb}
use brod_cli.Rules.Types.{Topic, Finding, Evidence, warning, low}
use brod_cli.Rules.Config.{EvalCtx}
use brod_cli.Rules.Helpers.{round2, label_empty, is_uncompressed}

module _ {F : Type 0} ⦃f : Float F⦄ where
  open f use {add, mul, div, lt, lit, fixed, quote}

  unfoldable pub r5_finding : EvalCtx F → Topic F → Finding F
  r5_finding ctx t =
      let cfg = ctx.cfg.r5 in
      let storage : F = ctx.prices.storage_eur_per_gb_mo in
      let network : F = ctx.prices.network_eur_per_gb in
      let in_gb : F = monthly_gb t.bytes_in_per_sec in
      let saved : F = mul in_gb cfg.assumed_ratio in
      let eur : F = mul saved (add storage network) in
      record {
        rule_id = "R5";
        rule_version = pos 1;
        title =
            "Topic "
            ++ quote t.name
            ++ " ingests "
            ++ fixed 1 (div t.bytes_in_per_sec (lit 1_048_576 0))
            ++ " MB/s uncompressed";
        severity = warning;
        resource_key = "R5:" ++ t.name;
        evidence =
            ("bytes_in_per_sec", Evidence.of_float t.bytes_in_per_sec)
            ∷ ("compression_type", Evidence.of_text (label_empty t.compression_type))
            ∷ ("monthly_in_gb", Evidence.of_float (round2 in_gb))
            ∷ ("assumed_saved_gb", Evidence.of_float (round2 saved))
            ∷ ("throughput_source", Evidence.of_text t.throughput_source)
            ∷ [];
        est_saving_eur = round2 eur;
        basis =
            "ASSUMPTION: "
            ++ fixed 1 in_gb
            ++ " GB/mo in × "
            ++ fixed 0 (mul cfg.assumed_ratio (lit 100 0))
            ++ "% zstd ratio × ("
            ++ fixed 4 storage
            ++ " storage + "
            ++ fixed 4 network
            ++ " network €/GB). Storage basis: "
            ++ ctx.prices.storage_basis;
        confidence = low;
        remediation = record {
          summary = "Set compression.type=zstd on the topic (or enable producer-side zstd).";
          kafka_configs_cmd =
              "kafka-configs --alter --topic " ++ t.name ++ " --add-config compression.type=zstd";
          terraform_diff =
              "  config = {\n-   \"compression.type\" = \""
              ++ label_empty t.compression_type
              ++ "\"\n+   \"compression.type\" = \"zstd\"\n  }";
          strimzi_yaml = "    config:\n      compression.type: zstd";
          one_click = true;
        };
      }

  -- The body of the loop over the topics.
  unfoldable pub r5_topic : EvalCtx F → Topic F → Option (Finding F)
  r5_topic ctx t =
      if lt t.bytes_in_per_sec ctx.cfg.r5.min_bytes_in_per_sec
      then none
      else if not (is_uncompressed t.compression_type)
      then none
      else some (r5_finding ctx t)

  unfoldable pub eval_r5 : EvalCtx F → List (Finding F)
  unfolding filter_map
  eval_r5 ctx = filter_map (r5_topic ctx) ctx.snap.topics
