-- ===== src/Examples/Collections.antt =====
-- A small cluster of two topics, after the fixture of internal/collect/collect_test.go.
use Prim.Native.String.{String}
use brod_cli.Base.{
  ℕ, suc, ◌-◌, ◌+◌, ◌*◌, ◌^◌, ◌<◌, ◌≡◌, refl, false, none, some, ◌⊎◌, inl, inr, List, [], ◌∷◌, map,
  All, arith,
}
use brod_cli.Base.Int.{ℤ, pos, negsuc, ◌≤ℤ◌}
use brod_cli.Base.Sort.{IsSorted}
use brod_cli.Base.Text.{has_prefix, show_ℤ, show_ℕ, show_from}
use brod_cli.Base.Fixed.{fixed_float}
use brod_cli.Rules.Types.{Snapshot, Finding}
use brod_cli.Rules.Engine.{evaluate}
use brod_cli.Collect.Types.{
  no_config, GroupInfo, TopicInfo, TopicConfig, Options, Call, Offsets, Reader, done,
}
use brod_cli.Base.Maps.{find_id, find_name, or_zero}
use brod_cli.Collect.Mapping.{
  drop_internal, sum_replica_bytes, per_partition_bytes, offset_span, is_inactive_state, count_up,
  active_consumers, map_brokers, map_groups, parse_digits, parse_int, retention_ms, str_or,
  cluster_name, provider_or_self, total_records, delta_records, estimate_bytes_in_per_sec, widen,
}
use brod_cli.Collect.Build.{read_cluster, later_probe, topic_of, snapshot_of, build}
use brod_cli.Collect.Shape.{name_before, IsHonest, IsUnknown, build-IsSorted}
use brod_cli.Collect.Silent.{IsStatic, evaluate-build}
use brod_cli.Collect.Reads.{Answers, IsReliable, build-Answers}
use brod_cli.Collect.Consumers.{occurrences, is_idle, consumers, active_consumers-consumers}
use brod_cli.Collect.Numerals.{retention_ms-show_ℤ}
use brod_cli.Collect.Spans.{Covers, IsOffset, offset_span-Covers, offset_span_missing}
use brod_cli.Examples.Samples.{program, model, config, findings_of, rate}

abbrev info : String → TopicInfo
info name = record {
  name = name;
  is_internal = false;
  partitions = pos 2;
  replication_factor = pos 1;
  replicas = (pos 0, pos 1 ∷ []) ∷ (pos 1, pos 2 ∷ []) ∷ [];
}

abbrev orders_config : TopicConfig
orders_config = record no_config { retention_ms = some " 604800000 " }

abbrev starts : Offsets
starts = (pos 0, pos 100) ∷ (pos 1, pos 40) ∷ []

abbrev ends : Offsets
ends = (pos 0, pos 300) ∷ (pos 1, pos 140) ∷ []

-- The state counts the probes of the end offsets, each of which sees 60 records more.
abbrev probe : Call ℕ String (List (String × Offsets))
probe n = (inr (("orders", (pos 0, pos (300 + 60 * n)) ∷ (pos 1, pos 140) ∷ []) ∷ []), suc n)

abbrev reader : Reader ℕ String
reader = record {
  brokers = done (record { id = pos 1; host = "b1"; port = pos 9092; rack = "" } ∷ []);
  topics = done (info "orders" ∷ info "__consumer_offsets" ∷ info "clicks" ∷ []);
  topic_configs = λ _. done (("orders", orders_config) ∷ []);
  log_dir_sizes =
      done (("orders", (pos 1, pos 600 ∷ []) ∷ (pos 0, pos 2000 ∷ pos 400 ∷ []) ∷ []) ∷ []);
  start_offsets = done (("orders", starts) ∷ []);
  end_offsets = probe;
  groups = done (record { group_id = "billing"; state = "Stable" } ∷ []);
  committed_offsets = λ _. done (("billing", "orders" ∷ []) ∷ []);
}

abbrev wait : ℤ → Call ℕ String (Unit {0})
wait _ = done tt

abbrev options : Options
options = record {
  cluster_name = "prod";
  provider = "";
  now = some (pos 7);
  sample_window = pos 2_000_000_000;
  include_internal = false;
}

abbrev snapshot_in : (String ⊎ Snapshot ℤ) × ℕ → Snapshot ℤ
snapshot_in (inl e, n) = record {
  taken_at = pos 0;
  cluster = record { name = ""; provider = "" };
  topics = [];
  groups = [];
  brokers = [];
}
snapshot_in (inr snap, n) = snap

abbrev collected : Snapshot ℤ
collected = snapshot_in (build reader wait options (pos 0) 0)

-- A line `unfolding collection` opens the collection.
unfoldable pub collection : Unit {0}
unfolding program drop_internal sum_replica_bytes per_partition_bytes offset_span is_inactive_state
    count_up active_consumers map_brokers map_groups parse_digits parse_int retention_ms str_or
    cluster_name provider_or_self total_records delta_records estimate_bytes_in_per_sec widen
    read_cluster later_probe topic_of snapshot_of build
collection = tt

built : build reader wait options (pos 0) 0 ≡ (inr collected, 2)
unfolding collection
built = refl

-- Of the 3000 bytes in 300 records, 60 records came in two seconds: 300 bytes a second.
rates_seen : map (λ t. t.bytes_in_per_sec) collected.topics ≡ rate 0 ∷ rate 300 ∷ []
unfolding collection
rates_seen = refl

retention_seen : map (λ t. t.retention_ms) collected.topics ≡ negsuc 0 ∷ pos 604800000 ∷ []
unfolding collection
retention_seen = refl

sizes_seen : map (λ t. t.partition_bytes) collected.topics ≡ [] ∷ (pos 2400 ∷ pos 600 ∷ []) ∷ []
unfolding collection
sizes_seen = refl

build-IsSorted_example :
    IsSorted name_before collected.topics
    × All IsHonest collected.topics
    × All IsUnknown collected.groups
    × (options.include_internal ≡ false
        → All (λ t. has_prefix t.name "__" ≡ false) collected.topics)
build-IsSorted_example = build-IsSorted reader wait options (pos 0) 0 2 collected built

abbrev found : List (Finding ℤ)
found = findings_of (evaluate (collected ∷ []) model config)

evaluated : evaluate (collected ∷ []) model config ≡ some found
unfolding collection
evaluated = refl

evaluate-build_example : All IsStatic found
evaluate-build_example =
    evaluate-build reader wait options (pos 0) 0 2 collected model config found built evaluated

reliable : IsReliable reader
reliable = record {
  brokers = λ s. (_, s, refl);
  topics = λ s. (_, s, refl);
  configs = λ _ s. (_, s, refl);
  log_dirs = λ s. (_, s, refl);
  start = λ s. (_, s, refl);
  end = λ s. (_, suc s, refl);
  groups = λ s. (_, s, refl);
  committed = λ _ s. (_, s, refl);
}

waited : Answers (wait options.sample_window)
waited = λ s. (tt, s, refl)

build-Answers_example : Answers (build {F = ℤ} reader wait options (pos 0))
build-Answers_example = build-Answers reader wait options (pos 0) reliable waited

start_of_first : find_id (pos 0) starts ≡ some (pos 100)
start_of_first = refl

offset_span-Covers_example :
    (IsOffset starts (pos 0 ∷ pos 1 ∷ []) (offset_span (pos 0 ∷ pos 1 ∷ []) starts ends).0
      × (((offset_span (pos 0 ∷ pos 1 ∷ []) starts ends).1 ≡ pos 0)
          ⊎ IsOffset ends (pos 0 ∷ pos 1 ∷ []) (offset_span (pos 0 ∷ pos 1 ∷ []) starts ends).1))
    × All
        (Covers starts ends
          (offset_span (pos 0 ∷ pos 1 ∷ []) starts ends).0
          (offset_span (pos 0 ∷ pos 1 ∷ []) starts ends).1)
        (pos 0 ∷ pos 1 ∷ [])
offset_span-Covers_example =
    offset_span-Covers starts ends (pos 0) (pos 1 ∷ []) (pos 100) start_of_first

abbrev one_start : Offsets
one_start = (pos 1, pos 40) ∷ []

no_start : find_id (pos 0) one_start ≡ none
no_start = refl

starts_above : (p s : ℤ) → find_id p one_start ≡ some s → pos 0 ≤ℤ s
starts_above p s e = ground arith

offset_span_missing_example : (offset_span (pos 0 ∷ pos 1 ∷ []) one_start ends).0 ≡ pos 0
offset_span_missing_example =
    offset_span_missing one_start ends (pos 0) (pos 1 ∷ []) no_start starts_above

-- In the other order of the two partitions the earliest offset is 40.
other_order : (offset_span (pos 1 ∷ pos 0 ∷ []) one_start ends).0 ≡ pos 40
unfolding collection
other_order = refl

abbrev committed_topics : List (String × List String)
committed_topics =
    ("billing", "clicks" ∷ "orders" ∷ []) ∷ ("audit", "orders" ∷ []) ∷ ("old", "orders" ∷ []) ∷ []

abbrev three_groups : List GroupInfo
three_groups =
    record { group_id = "billing"; state = "Stable" }
    ∷ record { group_id = "audit"; state = "PreparingRebalance" }
    ∷ record { group_id = "old"; state = " Empty" }
    ∷ []

two_consumers : consumers "orders" committed_topics three_groups ≡ 2
unfolding collection consumers occurrences is_idle
two_consumers = refl

few_consumers : consumers "orders" committed_topics three_groups < 2 ^ 63
few_consumers = rw two_consumers (omega arith)

active_consumers-consumers_example :
    or_zero (pos 0) (find_name "orders" (active_consumers three_groups committed_topics))
    ≡ pos (consumers "orders" committed_topics three_groups)
active_consumers-consumers_example =
    active_consumers-consumers "orders" committed_topics three_groups few_consumers

retention_ms-show_ℤ_example : retention_ms (some "-9223372036854775808") ≡ negsuc (2 ^ 63 - 1)
unfolding show_ℤ show_ℕ show_from
retention_ms-show_ℤ_example = retention_ms-show_ℤ (negsuc (2 ^ 63 - 1)) (omega arith, omega arith)
