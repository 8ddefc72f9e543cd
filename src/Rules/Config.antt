-- ===== src/Rules/Config.antt =====
-- The thresholds of the rules (`R1Config` to `R8Config` in internal/rules/r1_dead_topic.go to
-- r8_internal.go, `RuleConfig` in engine.go), their defaults, and what a rule is evaluated in.
use Prim.Native.Nat.{◌*◌, ◌^◌}
use Prim.Native.String.{String}
use brod_cli.Base.{Bool, false, Option, some, List, [], ◌∷◌}
use brod_cli.Base.Int.{ℤ, pos}
use brod_cli.Base.Float.{Float}
use brod_cli.Cost.{UnitPrices}
use brod_cli.Rules.Types.{Snapshot}
use brod_cli.Rules.Pattern.{Pattern, non_prod_pattern}

pub record R1Config (F : Type 0) : Type 0 where
  pub max_bytes_in_per_sec : F
  pub min_retained_bytes : ℤ

pub record R2Config : Type 0 where
  pub min_empty_days : ℤ

pub record R3Config (F : Type 0) : Type 0 where
  pub lag_multiplier : F
  pub min_retained_bytes : ℤ
  pub min_floor_ms : ℤ

pub record R4Config (F : Type 0) : Type 0 where
  pub min_partitions : ℤ
  pub max_bytes_per_part_sec : F
  pub target_bytes_per_part : F
  pub confluent_per_partition_eur_mo : F

pub record R5Config (F : Type 0) : Type 0 where
  pub min_bytes_in_per_sec : F
  pub assumed_ratio : F

-- `none` is the nil pattern.
pub record R6Config : Type 0 where
  pub name_pattern : Option Pattern
  pub trigger_rf : ℤ
  pub proposed_rf : ℤ

pub record R7Config (F : Type 0) : Type 0 where
  pub skew_factor : F
  pub min_topic_bytes : ℤ
  pub min_partitions : ℤ

pub record R8Config : Type 0 where
  pub min_retained_bytes : ℤ
  pub suffixes : List String

-- `disabled` is the Go map, false at a missing key.
pub record RuleConfig (F : Type 0) : Type 0 where
  pub now : ℤ
  pub disabled : String → Bool
  pub r1 : R1Config F
  pub r2 : R2Config
  pub r3 : R3Config F
  pub r4 : R4Config F
  pub r5 : R5Config F
  pub r6 : R6Config
  pub r7 : R7Config F
  pub r8 : R8Config

abbrev pub day_ms : ℤ
day_ms = pos 86_400_000

abbrev pub streams_internal_suffixes : List String
streams_internal_suffixes = "-changelog" ∷ "-repartition" ∷ []

unfoldable pub default_r2 : R2Config
default_r2 = record { min_empty_days = pos 30 }

unfoldable pub default_r6 : R6Config
default_r6 = record {
  name_pattern = some non_prod_pattern;
  trigger_rf = pos 3;
  proposed_rf = pos 2;
}

unfoldable pub default_r8 : R8Config
default_r8 = record { min_retained_bytes = pos (2 ^ 28); suffixes = streams_internal_suffixes }

module _ {F : Type 0} ⦃f : Float F⦄ where
  open f use {lit}

  unfoldable pub default_r1 : R1Config F
  default_r1 = record { max_bytes_in_per_sec = lit 1 0; min_retained_bytes = pos (2 ^ 30) }

  unfoldable pub default_r3 : R3Config F
  default_r3 = record {
    lag_multiplier = lit 4 0;
    min_retained_bytes = pos (5 * 2 ^ 30);
    min_floor_ms = day_ms;
  }

  unfoldable pub default_r4 : R4Config F
  default_r4 = record {
    min_partitions = pos 12;
    max_bytes_per_part_sec = lit 1024 0;
    target_bytes_per_part = lit 1_048_576 0;
    confluent_per_partition_eur_mo = lit 5 1;
  }

  unfoldable pub default_r5 : R5Config F
  default_r5 = record { min_bytes_in_per_sec = lit 1_048_576 0; assumed_ratio = lit 65 2 }

  unfoldable pub default_r7 : R7Config F
  default_r7 = record {
    skew_factor = lit 3 0;
    min_topic_bytes = pos (2 ^ 30);
    min_partitions = pos 3;
  }

  unfoldable pub default_config : ℤ → RuleConfig F
  unfolding default_r1 default_r2 default_r3 default_r4 default_r5 default_r6 default_r7 default_r8
  default_config now = record {
    now = now;
    disabled = λ _. false;
    r1 = default_r1;
    r2 = default_r2;
    r3 = default_r3;
    r4 = default_r4;
    r5 = default_r5;
    r6 = default_r6;
    r7 = default_r7;
    r8 = default_r8;
  }

pub record EvalCtx (F : Type 0) : Type 0 where
  pub snap : Snapshot F
  pub prices : UnitPrices F
  pub cfg : RuleConfig F
