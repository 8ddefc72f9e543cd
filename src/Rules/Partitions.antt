-- ===== src/Rules/Partitions.antt =====
-- Rule R4, internal/rules/r4_partitions.go.
use Prim.Native.String.{String, ◌++◌}
use text.Mathlib.Text.{◌==◌ as str_eq}
use brod_cli.Base.{false, ◌&&◌, Option, none, some, List, [], ◌∷◌, foldl, if◌then◌else◌}
use mathlib.Core.List.{filter_map}
use brod_cli.Base.Int.{ℤ, pos, ◌+ℤ◌, ◌-ℤ◌, ltb_ℤ, leb_ℤ, i64}
use brod_cli.Base.Text.{show_ℤ}
use brod_cli.Base.Float.{Float, nought}
use brod_cli.Rules.Types.{Topic, Finding, Evidence, plan, medium}
use brod_cli.Rules.Config.{EvalCtx}
use brod_cli.Rules.Helpers.{gb, round2}

module _ {F : Type 0} ⦃f : Float F⦄ where
  open f use {add, mul, div, lt, le, lit, of_int, to_int, fixed, quote}

  -- `totalParts`
  unfoldable pub total_parts : List (Topic F) → ℤ
  total_parts = foldl (λ sum t. i64 (sum +ℤ t.partitions)) (pos 0)

  -- `clusterGB`
  unfoldable pub cluster_gb : List (Topic F) → F
  cluster_gb = foldl (λ sum t. add sum (gb t.retained_bytes)) nought

  unfoldable pub bytes_per_partition : Topic F → F
  bytes_per_partition t =
      if ltb_ℤ (pos 0) t.partitions then div t.bytes_in_per_sec (of_int t.partitions) else nought

  unfoldable pub proposed_partitions : EvalCtx F → Topic F → ℤ
  proposed_partitions ctx t =
      let cfg = ctx.cfg.r4 in
      to_int (
        f.max (of_int cfg.min_partitions)
          (f.ceil (div t.bytes_in_per_sec cfg.target_bytes_per_part)))

  -- `perPartCost`
  unfoldable pub partition_cost : EvalCtx F → F
  partition_cost ctx =
      let parts = total_parts ctx.snap.topics in
      if ltb_ℤ (pos 0) parts
      then div (mul (lit 20 2) (mul (cluster_gb ctx.snap.topics) ctx.prices.storage_eur_per_gb_mo))
          (of_int parts)
      else nought

  -- The branch on the provider: the saving and its basis.
  unfoldable pub r4_saving : EvalCtx F → ℤ → F × String
  r4_saving ctx removed =
      let per_month : F = ctx.cfg.r4.confluent_per_partition_eur_mo in
      if str_eq ctx.snap.cluster.provider "confluent" && lt nought per_month
      then (
        mul (of_int removed) per_month,
        "ASSUMPTION: "
            ++ show_ℤ removed
            ++ " partitions removed × "
            ++ fixed 2 per_month
            ++ " €/partition-mo (Confluent dimension)",
      )
      else (
        mul (partition_cost ctx) (of_int removed),
        "ASSUMPTION: amortized broker overhead — 20% partition weight × storage-priced cluster ÷ "
            ++ show_ℤ (total_parts ctx.snap.topics)
            ++ " partitions × "
            ++ show_ℤ removed
            ++ " removed. Storage basis: "
            ++ ctx.prices.storage_basis,
      )

  unfoldable pub r4_finding : EvalCtx F → Topic F → Finding F
  r4_finding ctx t =
      let proposed = proposed_partitions ctx t in
      let saving = r4_saving ctx (i64 (t.partitions -ℤ proposed)) in
      record {
        rule_id = "R4";
        rule_version = pos 1;
        title =
            "Topic "
            ++ quote t.name
            ++ " over-partitioned: "
            ++ show_ℤ t.partitions
            ++ " partitions at "
            ++ fixed 0 (bytes_per_partition t)
            ++ " B/s each";
        severity = plan;
        resource_key = "R4:" ++ t.name;
        evidence =
            ("partitions", Evidence.of_int t.partitions)
            ∷ ("proposed_partitions", Evidence.of_int proposed)
            ∷ ("bytes_per_partition_sec", Evidence.of_float (round2 (bytes_per_partition t)))
            ∷ ("throughput_source", Evidence.of_text t.throughput_source)
            ∷ [];
        est_saving_eur = round2 saving.0;
        basis = saving.1;
        confidence = medium;
        remediation = record {
          summary =
              "PLAN: migrate "
              ++ quote t.name
              ++ " from "
              ++ show_ℤ t.partitions
              ++ " to "
              ++ show_ℤ proposed
              ++ " partitions. Kafka cannot shrink partitions in place — create a new topic and "
              ++ "reproduce/replay; coordinate with producers and key-ordering guarantees.";
          kafka_configs_cmd = "";
          terraform_diff = "";
          strimzi_yaml = "";
          one_click = false;
        };
      }

  -- The body of the loop over the topics.
  unfoldable pub r4_topic : EvalCtx F → Topic F → Option (Finding F)
  r4_topic ctx t =
      let cfg = ctx.cfg.r4 in
      if leb_ℤ t.partitions cfg.min_partitions
      then none
      else if le cfg.max_bytes_per_part_sec (bytes_per_partition t)
      then none
      else if leb_ℤ t.partitions (proposed_partitions ctx t)
      then none
      else some (r4_finding ctx t)

  unfoldable pub eval_r4 : EvalCtx F → List (Finding F)
  unfolding filter_map
  eval_r4 ctx = filter_map (r4_topic ctx) ctx.snap.topics
