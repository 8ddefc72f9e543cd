-- ===== src/Collect/Build.antt =====
-- `build` of collect.go: the reads in their order, then the snapshot from the replies.
use Prim.Native.Nat.{◌/◌, ◌%◌}
use Prim.Native.String.{String}
use brod_cli.Base.{List, [], map, if◌then◌else◌}
use brod_cli.Base.Int.{ℤ, pos, negsuc, ltb_ℤ, pos_part}
use brod_cli.Base.Text.{str_lt}
use brod_cli.Base.Sort.{sort}
use brod_cli.Base.Float.{Float, nought}
use brod_cli.Rules.Types.{Topic, Snapshot}
use brod_cli.Collect.Types.{
  no_config, BrokerInfo, TopicInfo, TopicConfig, GroupInfo, Options, Call, ◌>>=◌, ◌>>◌, done, Sizes,
  Offsets, Reader,
}
use brod_cli.Base.Maps.{GoMap, find_name, or_zero}
use brod_cli.Collect.Mapping.{
  drop_internal, sum_replica_bytes, per_partition_bytes, offset_span, active_consumers, map_brokers,
  map_groups, retention_ms, str_or, cluster_name, provider_or_self, estimate_bytes_in_per_sec,
}

-- What the reads of one `build` return; `later_offsets` is empty without a sample window.
pub record Replies : Type 0 where
  pub brokers : List BrokerInfo
  pub topics : List TopicInfo
  pub configs : GoMap String TopicConfig
  pub log_dirs : GoMap String Sizes
  pub start_offsets : GoMap String Offsets
  pub end_offsets : GoMap String Offsets
  pub groups : List GroupInfo
  pub committed : GoMap String (List String)
  pub later_offsets : GoMap String Offsets

-- The topics without the internal ones, unless the options keep them.
abbrev pub kept : Options → List TopicInfo → List TopicInfo
kept opts topics = if opts.include_internal then topics else drop_internal topics

module _ {S E : Type 0} (r : Reader S E) (sleep : ℤ → Call S E (Unit {0})) (opts : Options) where
  -- The second probe of the end offsets, after the sample window.
  unfoldable pub later_probe : Call S E (GoMap String Offsets)
  later_probe =
      if ltb_ℤ (pos 0) opts.sample_window
      then (sleep opts.sample_window >> r.end_offsets)
      else done []

  unfoldable pub read_cluster : Call S E Replies
  read_cluster = do
    brokers ← r.brokers
    listed ← r.topics
    let topics = kept opts listed
    configs ← r.topic_configs (map (λ t. t.name) topics)
    log_dirs ← r.log_dir_sizes
    start_offsets ← r.start_offsets
    end_offsets ← r.end_offsets
    groups ← r.groups
    committed ← r.committed_offsets (map (λ g. g.group_id) groups)
    later_offsets ← later_probe
    done (record {
      brokers = brokers;
      topics = topics;
      configs = configs;
      log_dirs = log_dirs;
      start_offsets = start_offsets;
      end_offsets = end_offsets;
      groups = groups;
      committed = committed;
      later_offsets = later_offsets;
    })

module _ {F : Type 0} ⦃f : Float F⦄ (opts : Options) (q : Replies) where
  -- `opts.SampleWindow.Seconds()`, of a window that is not negative
  abbrev pub window_secs : F
  window_secs =
      let d = pos_part opts.sample_window in
      f.add (f.of_int (pos (d / 1_000_000_000)))
        (f.div (f.of_int (pos (d % 1_000_000_000))) (f.lit 1_000_000_000 0))

  -- The body of the loop over the topics.
  unfoldable pub topic_of : TopicInfo → Topic F
  topic_of t =
      let cfg = or_zero no_config (find_name t.name q.configs) in
      let sizes = or_zero [] (find_name t.name q.log_dirs) in
      let start = or_zero [] (find_name t.name q.start_offsets) in
      let end = or_zero [] (find_name t.name q.end_offsets) in
      let later = or_zero [] (find_name t.name q.later_offsets) in
      let retained = sum_replica_bytes sizes in
      let span = offset_span (map (λ entry. entry.0) t.replicas) start end in
      let sampled = ltb_ℤ (pos 0) opts.sample_window in
      record {
        name = t.name;
        partitions = t.partitions;
        replication_factor = t.replication_factor;
        retention_ms = retention_ms cfg.retention_ms;
        compression_type = str_or cfg.compression_type "producer";
        cleanup_policy = str_or cfg.cleanup_policy "delete";
        retained_bytes = retained;
        bytes_in_per_sec =
            if sampled
            then estimate_bytes_in_per_sec retained start end later window_secs
            else nought;
        bytes_out_per_sec = nought;
        throughput_source = if sampled then "estimated" else "none";
        partition_bytes = per_partition_bytes sizes;
        earliest_offset = span.0;
        latest_offset = span.1;
        max_consumer_lag_ms = negsuc 0;
        active_consumers =
            or_zero (pos 0) (find_name t.name (active_consumers q.groups q.committed));
      }

  unfoldable pub snapshot_of : ℤ → Snapshot F
  snapshot_of clock = record {
    taken_at = or_zero clock opts.now;
    cluster = record { name = cluster_name opts; provider = provider_or_self opts.provider };
    topics = sort (λ x y. str_lt x.name y.name) (map topic_of q.topics);
    groups = map_groups q.groups;
    brokers = map_brokers q.brokers;
  }

-- The clock is read for a zero `opts.Now` only.
unfoldable pub build :
    {F : Type 0} ⦃f : Float F⦄ {S E : Type 0}
    → Reader S E
    → (ℤ → Call S E (Unit {0}))
    → Options
    → ℤ
    → Call S E (Snapshot F)
build r sleep opts clock = do q ← read_cluster r sleep opts; done (snapshot_of opts q clock)
