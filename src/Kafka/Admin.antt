-- ===== src/Kafka/Admin.antt =====
-- What internal/kafka asks of the libraries kadm and kgo: the replies and the requests.
use Prim.Native.String.{String}
use brod_cli.Base.{Bool, Option, List}
use brod_cli.Base.Int.{ℤ}
use brod_cli.Collect.Types.{Call}
use brod_cli.Base.Maps.{GoMap}
use brod_cli.Kafka.ReadOnly.{AclResult}

pub record BrokerDetail : Type 0 where
  pub node_id : ℤ
  pub port : ℤ
  pub host : String
  pub rack : Option String

-- `err` is `none` for a nil error, otherwise its text.
pub record TopicDetail : Type 0 where
  pub is_internal : Bool
  pub err : Option String
  pub partitions : GoMap ℤ (List ℤ)

pub record ConfigEntry : Type 0 where
  pub key : String
  pub value : Option String

pub record ResourceConfig : Type 0 where
  pub name : String
  pub err : Option String
  pub configs : List ConfigEntry

pub record LogDirPartition : Type 0 where
  pub topic : String
  pub partition : ℤ
  pub size : ℤ
  pub is_future : Bool

pub record ListedOffset : Type 0 where
  pub offset : ℤ
  pub err : Option String

pub record ListedGroup : Type 0 where
  pub group : String
  pub state : String

pub record OffsetReply : Type 0 where
  pub topic : String
  pub err : Option String

abbrev pub ListedOffsets : Type 0
ListedOffsets = GoMap String (GoMap ℤ ListedOffset)

-- The requests, each a call on the cluster that fails with a text or is answered. The log dirs of
-- one broker are the entries that `EachPartition` visits, the offsets those that `Each` visits.
pub record Admin (S : Type 0) : Type 0 where
  pub broker_metadata : Call S String (List BrokerDetail)
  pub list_topics : Call S String (GoMap String TopicDetail)
  pub describe_topic_configs : List String → Call S String (List ResourceConfig)
  pub describe_all_log_dirs : Call S String (List (List LogDirPartition))
  pub list_start_offsets : Call S String ListedOffsets
  pub list_end_offsets : Call S String ListedOffsets
  pub list_groups : Call S String (List ListedGroup)
  pub fetch_offsets : String → Call S String (List OffsetReply)
  pub describe_acls : Call S String (List AclResult)
