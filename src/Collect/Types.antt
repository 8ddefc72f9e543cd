-- ===== src/Collect/Types.antt =====
-- What collect.go reads: the replies of internal/kafka/reads.go, its options, and the calls.
use Prim.Native.String.{String}
use brod_cli.Base.{Bool, Option, none, List, ◌⊎◌, inl, inr}
use brod_cli.Base.Int.{ℤ}
use brod_cli.Base.Maps.{GoMap}

pub record BrokerInfo : Type 0 where
  pub id : ℤ
  pub host : String
  pub port : ℤ
  pub rack : String

pub record TopicInfo : Type 0 where
  pub name : String
  pub is_internal : Bool
  pub partitions : ℤ
  pub replication_factor : ℤ
  pub replicas : GoMap ℤ (List ℤ)

-- `none` is the nil pointer.
pub record TopicConfig : Type 0 where
  pub retention_ms : Option String
  pub compression_type : Option String
  pub cleanup_policy : Option String
  pub min_insync_replicas : Option String
  pub segment_bytes : Option String
  pub segment_ms : Option String

-- The zero value.
abbrev pub no_config : TopicConfig
no_config = record {
  retention_ms = none;
  compression_type = none;
  cleanup_policy = none;
  min_insync_replicas = none;
  segment_bytes = none;
  segment_ms = none;
}

pub record GroupInfo : Type 0 where
  pub group_id : String
  pub state : String

-- `now` is `none` for the zero time; `sample_window` is in nanoseconds.
pub record Options : Type 0 where
  pub cluster_name : String
  pub provider : String
  pub now : Option ℤ
  pub sample_window : ℤ
  pub include_internal : Bool

-- A call on a cluster in a state of type S fails with an error or has a value.
abbrev pub Call : (S E A : Type 0) → Type 0
Call S E A = S → (E ⊎ A) × S

abbrev pub and_then : {S E A B : Type 0} → (E ⊎ A) × S → (A → Call S E B) → (E ⊎ B) × S
and_then (inl e, s) k = (inl e, s)
and_then (inr a, s) k = k a s

-- `if err != nil { return ..., err }`
infixl 5 ◌>>=◌ ◌>>◌
abbrev pub ◌>>=◌ : {S E A B : Type 0} → Call S E A → (A → Call S E B) → Call S E B
(m >>= k) s = and_then (m s) k

abbrev pub ◌>>◌ : {S E A B : Type 0} → Call S E A → Call S E B → Call S E B
(m >> k) s = and_then (m s) (λ _. k)

abbrev pub done : {S E A : Type 0} → A → Call S E A
done a s = (inr a, s)

abbrev pub Sizes : Type 0
Sizes = GoMap ℤ (List ℤ)

abbrev pub Offsets : Type 0
Offsets = GoMap ℤ ℤ

-- The interface `reader`. A set of topics is the list of its members.
pub record Reader (S E : Type 0) : Type 0 where
  pub brokers : Call S E (List BrokerInfo)
  pub topics : Call S E (List TopicInfo)
  pub topic_configs : List String → Call S E (GoMap String TopicConfig)
  pub log_dir_sizes : Call S E (GoMap String Sizes)
  pub start_offsets : Call S E (GoMap String Offsets)
  pub end_offsets : Call S E (GoMap String Offsets)
  pub groups : Call S E (List GroupInfo)
  pub committed_offsets : List String → Call S E (GoMap String (List String))
