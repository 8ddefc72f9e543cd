-- ===== src/Rules/Types.antt =====
-- internal/rules/types.go: the snapshot that the rules read and the findings that they write.
use Prim.Native.String.{String}
use brod_cli.Base.{Bool, Option, none, some, List, [], ◌∷◌}
use brod_cli.Base.Int.{ℤ}

pub data Severity : Type 0 where
  info warning critical plan : Severity

pub data Confidence : Type 0 where
  low medium high : Confidence

pub record ClusterInfo : Type 0 where
  pub name : String
  pub provider : String

pub record Topic (F : Type 0) : Type 0 where
  pub name : String
  pub partitions : ℤ
  pub replication_factor : ℤ
  pub retention_ms : ℤ
  pub compression_type : String
  pub cleanup_policy : String
  pub retained_bytes : ℤ
  pub bytes_in_per_sec : F
  pub bytes_out_per_sec : F
  pub throughput_source : String
  pub partition_bytes : List ℤ
  pub earliest_offset : ℤ
  pub latest_offset : ℤ
  pub max_consumer_lag_ms : ℤ
  pub active_consumers : ℤ

pub record ConsumerGrp : Type 0 where
  pub group_id : String
  pub state : String
  pub last_commit_age_days : ℤ

pub record Broker : Type 0 where
  pub id : ℤ
  pub log_dir_bytes : ℤ

-- `taken_at` is an instant, in nanoseconds since the epoch.
pub record Snapshot (F : Type 0) : Type 0 where
  pub taken_at : ℤ
  pub cluster : ClusterInfo
  pub topics : List (Topic F)
  pub groups : List ConsumerGrp
  pub brokers : List Broker

-- Oldest first.
abbrev pub SnapshotHistory : Type 0 → Type 0
SnapshotHistory F = List (Snapshot F)

-- `none` where the Go function returns false.
unfoldable pub latest {ℓ} : {A : Type ℓ} → List A → Option A
latest [] = none
latest (x ∷ []) = some x
latest (x ∷ y ∷ rest) = latest (y ∷ rest)

pub record Remediation : Type 0 where
  pub summary : String
  pub kafka_configs_cmd : String
  pub terraform_diff : String
  pub strimzi_yaml : String
  pub one_click : Bool

-- The values of the evidence map, which Go holds as `any`.
pub data Evidence (F : Type 0) : Type 0 where
  of_text : String → Evidence F
  of_int : ℤ → Evidence F
  of_float : F → Evidence F
  of_bool : Bool → Evidence F

pub record Finding (F : Type 0) : Type 0 where
  pub rule_id : String
  pub rule_version : ℤ
  pub title : String
  pub severity : Severity
  pub resource_key : String
  pub evidence : List (String × Evidence F)
  pub est_saving_eur : F
  pub basis : String
  pub confidence : Confidence
  pub remediation : Remediation
