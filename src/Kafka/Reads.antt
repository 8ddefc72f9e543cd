-- ===== src/Kafka/Reads.antt =====
-- internal/kafka/reads.go: the read methods of the client, and the reader that they make.
use Prim.Native.String.{String, ◌++◌}
use text.Mathlib.Text.{◌==◌ as str_eq}
use mathlib.Core.List.{filter_map, ◌++◌ as append}
use brod_cli.Base.{
  ℕ, Bool, false, Option, none, some, ◌⊎◌, inl, inr, List, [], ◌∷◌, map, foldl, length, ltb, ◌||◌,
  if◌then◌else◌,
}
use brod_cli.Base.Int.{ℤ, pos, ltb_ℤ}
use brod_cli.Base.Sort.{sort}
use brod_cli.Base.Text.{str_lt}
use brod_cli.Collect.Types.{
  BrokerInfo, TopicInfo, TopicConfig, GroupInfo, Call, ◌>>=◌, done, Sizes, Offsets, Reader,
  no_config,
}
use brod_cli.Base.Maps.{GoMap, or_zero, alter_name, alter_id}
use brod_cli.Kafka.ReadOnly.{ReadOnlyCheck, check_read_only}
use brod_cli.Kafka.Admin.{
  BrokerDetail, TopicDetail, ConfigEntry, ResourceConfig, LogDirPartition, ListedOffset,
  ListedOffsets, ListedGroup, OffsetReply, Admin,
}

-- `return nil, fmt.Errorf(text+": %w", err)`
abbrev pub blamed : {S A : Type 0} → String → (String ⊎ A) × S → (String ⊎ A) × S
blamed text (inl e, s) = (inl (text ++ e), s)
blamed text (inr a, s) = (inr a, s)

abbrev pub blame : {S A : Type 0} → String → Call S String A → Call S String A
blame text m s = blamed text (m s)

-- A loop that appends one result for each element and returns at the first error.
unfoldable pub map_each : {E A B : Type 0} → (A → E ⊎ B) → List A → E ⊎ List B
map_each f [] = inr []
map_each f (x ∷ xs) = elim (f x) [
  | inl e ↦ inl e
  | inr y ↦ elim (map_each f xs) [ inl e ↦ inl e | inr ys ↦ inr (y ∷ ys) ]
]

unfoldable pub broker_info : BrokerDetail → BrokerInfo
broker_info b = record { id = b.node_id; host = b.host; port = b.port; rack = or_zero "" b.rack }

unfoldable pub broker_infos : List BrokerDetail → List BrokerInfo
broker_infos bs = sort (λ x y. ltb_ℤ x.id y.id) (map broker_info bs)

-- `maxRF`
unfoldable pub max_replicas : GoMap ℤ (List ℤ) → ℕ
max_replicas = foldl (λ m entry. if ltb m (length entry.1) then length entry.1 else m) 0

unfoldable pub flatten_offsets : ListedOffsets → GoMap String Offsets
flatten_offsets = map λ entry. (
  entry.0,
  filter_map
      (λ (p : ℤ × ListedOffset). elim p.1.err [ none ↦ some (p.0, p.1.offset) | some e ↦ none ])
      entry.1,
)

unfoldable pub set_config : TopicConfig → ConfigEntry → TopicConfig
set_config tc cfg =
    if str_eq cfg.key "retention.ms"
    then record tc { retention_ms = cfg.value }
    else if str_eq cfg.key "compression.type"
    then record tc { compression_type = cfg.value }
    else if str_eq cfg.key "cleanup.policy"
    then record tc { cleanup_policy = cfg.value }
    else if str_eq cfg.key "min.insync.replicas"
    then record tc { min_insync_replicas = cfg.value }
    else if str_eq cfg.key "segment.bytes"
    then record tc { segment_bytes = cfg.value }
    else if str_eq cfg.key "segment.ms"
    then record tc { segment_ms = cfg.value }
    else tc

-- `tp[p.Partition] = append(tp[p.Partition], p.Size)`, with `tp` made where it is missing.
unfoldable pub add_size : GoMap String Sizes → LogDirPartition → GoMap String Sizes
add_size out p =
    if p.is_future
    then out
    else alter_name p.topic
        (λ tp.
          alter_id p.partition (λ sizes. append (or_zero [] sizes) (p.size ∷ [])) (or_zero [] tp))
        out

unfoldable pub collect_sizes : List (List LogDirPartition) → GoMap String Sizes
collect_sizes = foldl (λ out parts. foldl add_size out parts) []

unfoldable pub group_infos : List ListedGroup → List GroupInfo
group_infos gs =
    sort (λ x y. str_lt x.group_id y.group_id)
      (map (λ (g : ListedGroup). record { group_id = g.group; state = g.state }) gs)

unfoldable pub has_member : String → List String → Bool
has_member x [] = false
has_member x (y ∷ ys) = str_eq y x || has_member x ys

-- `topics[o.Topic] = struct{}{}`
unfoldable pub add_topic : List String → OffsetReply → List String
add_topic topics o = elim o.err [
  | some e ↦ topics
  | none ↦ if has_member o.topic topics then topics else append topics (o.topic ∷ [])
]

-- A failed fetch leaves the group out.
unfoldable pub add_group :
    String → String ⊎ List OffsetReply → GoMap String (List String) → GoMap String (List String)
add_group g (inl e) out = out
add_group g (inr reply) out = alter_name g (λ _. foldl add_topic [] reply) out

abbrev pub answered : {A : Type 0} → String ⊎ A → Option A
answered (inl e) = none
answered (inr a) = some a

-- A result that the cluster is not asked for.
abbrev pub give : {S A : Type 0} → String ⊎ A → Call S String A
give r s = (r, s)

-- `quote` is the verb `%q`.
module _ (quote : String → String) where
  unfoldable pub topic_info : String × TopicDetail → String ⊎ TopicInfo
  topic_info (name, d) = elim d.err [
    | some e ↦ inl ("kafka: topic " ++ (quote name ++ (" metadata: " ++ e)))
    | none ↦ inr (record {
      name = name;
      is_internal = d.is_internal;
      partitions = pos (length d.partitions);
      replication_factor = pos (max_replicas d.partitions);
      replicas = d.partitions;
    })
  ]

  unfoldable pub topic_infos : GoMap String TopicDetail → String ⊎ List TopicInfo
  topic_infos td = elim (map_each topic_info td) [
    | inl e ↦ inl e
    | inr ts ↦ inr (sort (λ x y. str_lt x.name y.name) ts)
  ]

  unfoldable pub config_info : ResourceConfig → String ⊎ (String × TopicConfig)
  config_info rc = elim rc.err [
    | some e ↦ inl ("kafka: topic " ++ (quote rc.name ++ (" configs: " ++ e)))
    | none ↦ inr (rc.name, foldl set_config no_config rc.configs)
  ]

  unfoldable pub config_infos : List ResourceConfig → String ⊎ GoMap String TopicConfig
  config_infos rcs = elim (map_each config_info rcs) [
    | inl e ↦ inl e
    | inr tcs ↦ inr (foldl (λ out tc. alter_name tc.0 (λ _. tc.1) out) [] tcs)
  ]

module _ {S : Type 0} (a : Admin S) where
  unfoldable pub committed_from :
      GoMap String (List String) → List String → Call S String (GoMap String (List String))
  committed_from out [] s = (inr out, s)
  committed_from out (g ∷ gs) s =
      let (reply, t) = a.fetch_offsets g s in committed_from (add_group g reply out) gs t

  module _ (quote : String → String) where
    -- No request is made for an empty list of names.
    unfoldable pub describe_configs : List String → Call S String (GoMap String TopicConfig)
    describe_configs [] = done []
    describe_configs (name ∷ names) = do
      rcs ← blame "kafka: describe topic configs: " (a.describe_topic_configs (name ∷ names))
      give (config_infos quote rcs)

    -- The methods of `Client`, as the interface `reader` of internal/collect.
    unfoldable pub client_reader : Reader S String
    client_reader = record {
      brokers = do
        bs ← blame "kafka: broker metadata: " a.broker_metadata
        done (broker_infos bs);
      topics = do
        td ← blame "kafka: list topics: " a.list_topics
        give (topic_infos quote td);
      topic_configs = describe_configs;
      log_dir_sizes = do
        dirs ← blame "kafka: describe log dirs: " a.describe_all_log_dirs
        done (collect_sizes dirs);
      start_offsets = do
        lo ← blame "kafka: list start offsets: " a.list_start_offsets
        done (flatten_offsets lo);
      end_offsets = do
        lo ← blame "kafka: list end offsets: " a.list_end_offsets
        done (flatten_offsets lo);
      groups = do
        lg ← blame "kafka: list groups: " a.list_groups
        done (group_infos lg);
      committed_offsets = committed_from [];
    }

  -- `CheckReadOnly`: a request that fails is an outcome that is not supported.
  unfoldable pub probe_rights : (String → String) → Call S String ReadOnlyCheck
  probe_rights quote s =
      let (reply, t) = a.describe_acls s in (inr (check_read_only quote (answered reply)), t)
