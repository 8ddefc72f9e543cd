-- ===== src/Examples/Samples.antt =====
-- The snapshot of internal/rules/engine_test.go (`demoFixture`), with a topic and a group for each
-- of the rules R2, R7 and R8.
use Prim.Native.Nat.{◌*◌, ◌^◌}
use Prim.Native.String.{String}
use mathlib.Core.List.{filter_map, map}
use brod_cli.Base.{ℕ, ◌≡◌, refl, Option, none, some, List, [], ◌∷◌}
use brod_cli.Base.Int.{ℤ, pos, negsuc, ◌+ℤ◌, ◌-ℤ◌, ◌*ℤ◌, half, i64}
use brod_cli.Base.Text.{
  codes, is_prefix, has_prefix, has_suffix, is_space, trim_left, trim_space, to_lower, same_codes,
  show_from, show_ℕ, show_ℤ,
}
use brod_cli.Base.Sort.{insert, sort}
use brod_cli.Base.Fixed.{fixed_float, show_decimal}
use brod_cli.Cost.{
  CostModel, Weights, provider_label, default_weights, provider_preset, is_zero_weights,
  effective_weights, storage_price, network_price, resolve, monthly_gb, total_bytes,
  total_throughput, total_partitions, weighted_share, topic_cost, allocate,
}
use brod_cli.Rules.Types.{Topic, ConsumerGrp, Snapshot, SnapshotHistory, Finding, latest}
use brod_cli.Rules.Pattern.{match_non_prod, non_prod_pattern}
use brod_cli.Rules.Config.{
  RuleConfig, default_r1, default_r2, default_r3, default_r4, default_r5, default_r6, default_r7,
  default_r8, default_config,
}
use brod_cli.Rules.Helpers.{
  max_i64, severity_for_bytes, match_suffix, is_streams_internal, has_owning_app, label_empty,
  is_uncompressed, gb, round2, min_f, lookup_in, lookup_bytes_in_per_sec, dur_ms,
}
use brod_cli.Rules.DeadTopic.{r1_finding, r1_topic, eval_r1}
use brod_cli.Rules.ZombieGroup.{is_empty_state, r2_finding, r2_group, eval_r2}
use brod_cli.Rules.Retention.{
  proposed_retention, projected_bytes, saved_gb, r3_finding, r3_topic, eval_r3,
}
use brod_cli.Rules.Partitions.{
  total_parts, cluster_gb, bytes_per_partition, proposed_partitions, partition_cost, r4_saving,
  r4_finding, r4_topic, eval_r4,
}
use brod_cli.Rules.Compression.{r5_finding, r5_topic, eval_r5}
use brod_cli.Rules.Replication.{matches_pattern, pattern_source, r6_finding, r6_topic, eval_r6}
use brod_cli.Rules.Skew.{
  median_int64, last, sorted_sizes, r7_finding, r7_skewed, r7_topic, r7_topics, eval_r7,
}
use brod_cli.Rules.Internal.{r8_finding, r8_topic, eval_r8}
use brod_cli.Rules.Engine.{
  append_all, registry, total_retained, context, rule_output, run_rules, reports_before,
  sort_findings, evaluate, total_savings_eur,
}

-- A topic with no traffic, three partitions and three replicas.
abbrev pub quiet : String → ℕ → Topic ℤ
quiet name bytes = record {
  name = name;
  partitions = pos 3;
  replication_factor = pos 3;
  retention_ms = negsuc 0;
  compression_type = "zstd";
  cleanup_policy = "delete";
  retained_bytes = pos bytes;
  bytes_in_per_sec = pos 0;
  bytes_out_per_sec = pos 0;
  throughput_source = "metrics";
  partition_bytes = [];
  earliest_offset = pos 0;
  latest_offset = pos 0;
  max_consumer_lag_ms = negsuc 0;
  active_consumers = pos 1;
}

abbrev pub rate : ℕ → ℤ
rate n = fixed_float.of_int (pos n)

abbrev pub events : Topic ℤ
events = record (quiet "events.raw" (40 * 2 ^ 30)) {
  partitions = pos 6;
  compression_type = "none";
  bytes_in_per_sec = rate (2 * 2 ^ 20);
}

abbrev pub legacy : Topic ℤ
legacy = record (quiet "legacy.dump" (20 * 2 ^ 30)) { active_consumers = pos 0 }

abbrev pub dev_orders : Topic ℤ
dev_orders = record (quiet "dev.orders" (10 * 2 ^ 30)) { bytes_in_per_sec = rate 1000 }

abbrev pub metrics : Topic ℤ
metrics = record (quiet "metrics.fine" (8 * 2 ^ 30)) {
  partitions = pos 48;
  bytes_in_per_sec = rate (10 * 2 ^ 10);
}

abbrev pub clicks : Topic ℤ
clicks = record (quiet "clicks" (30 * 2 ^ 30)) {
  partitions = pos 6;
  retention_ms = pos (30 * 86_400_000);
  bytes_in_per_sec = rate (2 * 2 ^ 10);
  max_consumer_lag_ms = pos 3_600_000;
}

abbrev pub orphan : Topic ℤ
orphan = record (quiet "orders-app-store-changelog" (4 * 2 ^ 30)) { active_consumers = pos 0 }

abbrev pub skewed : Topic ℤ
skewed = record (quiet "skewed" (13 * 2 ^ 30)) {
  partition_bytes = pos (2 ^ 30) ∷ pos (10 * 2 ^ 30) ∷ pos (2 ^ 30) ∷ pos (2 ^ 30) ∷ [];
}

abbrev pub old_etl : ConsumerGrp
old_etl = record { group_id = "old-etl"; state = "Empty"; last_commit_age_days = pos 95 }

abbrev pub snapshot : Snapshot ℤ
snapshot = record {
  taken_at = pos 0;
  cluster = record { name = "prod"; provider = "self" };
  topics = events ∷ legacy ∷ dev_orders ∷ metrics ∷ clicks ∷ orphan ∷ skewed ∷ [];
  groups = old_etl ∷ [];
  brokers = [];
}

abbrev pub history : SnapshotHistory ℤ
history = snapshot ∷ []

abbrev pub even_weights : Weights ℤ
even_weights = record {
  storage = fixed_float.lit 40 2;
  throughput = fixed_float.lit 40 2;
  partition = fixed_float.lit 20 2;
}

abbrev pub model : CostModel ℤ
model = record {
  provider = "self";
  monthly_cost_eur = pos 0;
  storage_eur_per_gb_mo = fixed_float.lit 10 2;
  network_eur_per_gb = fixed_float.lit 1 2;
  weights = even_weights;
}

-- A line `unfolding program` opens the whole program.
unfoldable pub program : Unit {0}
unfolding filter_map ◌+ℤ◌ ◌-ℤ◌ ◌*ℤ◌ half i64 codes is_prefix has_prefix has_suffix is_space
    trim_left trim_space to_lower same_codes show_from show_ℕ show_ℤ insert sort show_decimal
    provider_label default_weights provider_preset is_zero_weights effective_weights storage_price
    network_price resolve monthly_gb total_bytes total_throughput total_partitions weighted_share
    topic_cost allocate latest match_non_prod non_prod_pattern default_r1 default_r2 default_r3
    default_r4 default_r5 default_r6 default_r7 default_r8 default_config max_i64 severity_for_bytes
    match_suffix is_streams_internal has_owning_app label_empty is_uncompressed gb round2 min_f
    lookup_in lookup_bytes_in_per_sec dur_ms r1_finding r1_topic eval_r1 is_empty_state r2_finding
    r2_group eval_r2 proposed_retention projected_bytes saved_gb r3_finding r3_topic eval_r3
    total_parts cluster_gb bytes_per_partition proposed_partitions partition_cost r4_saving
    r4_finding r4_topic eval_r4 r5_finding r5_topic eval_r5 matches_pattern pattern_source
    r6_finding r6_topic eval_r6 median_int64 last sorted_sizes r7_finding r7_skewed r7_topic
    r7_topics eval_r7 r8_finding r8_topic eval_r8 append_all registry total_retained context
    rule_output run_rules reports_before sort_findings evaluate total_savings_eur
program = tt

abbrev pub config : RuleConfig ℤ
config = default_config (pos 0)

abbrev pub findings_of : Option (List (Finding ℤ)) → List (Finding ℤ)
findings_of none = []
findings_of (some fs) = fs

abbrev pub report : List (Finding ℤ)
report = findings_of (evaluate history model config)

pub evaluate-report : evaluate history model config ≡ some report
unfolding program
evaluate-report = refl

-- Each rule reports one resource, and the report orders them by saving.
fired :
    map (λ x. x.resource_key) report
    ≡ "R5:events.raw" ∷ "R3:clicks" ∷ "R1:legacy.dump" ∷ "R4:metrics.fine"
      ∷ "R8:orders-app-store-changelog" ∷ "R6:dev.orders" ∷ "R2:old-etl" ∷ "R7:skewed" ∷ []
unfolding program
fired = refl
