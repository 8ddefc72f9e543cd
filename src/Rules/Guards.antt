-- ===== src/Rules/Guards.antt =====
-- What is known of a topic or group for which a rule's loop body appends a finding.
use text.Mathlib.Text.{◌==◌ as str_eq}
use brod_cli.Base.{◌≡◌, true, false, ◌&&◌, some, arith}
use brod_cli.Base.Int.{ℤ, pos, ltb_ℤ, leb_ℤ}
use brod_cli.Base.Float.{Float, nought}
use brod_cli.Rules.Types.{Topic, ConsumerGrp, Finding}
use brod_cli.Rules.Config.{EvalCtx}
use brod_cli.Rules.Helpers.{is_streams_internal, is_uncompressed, match_suffix, has_owning_app}
use brod_cli.Rules.DeadTopic.{r1_topic, r1_finding}
use brod_cli.Rules.ZombieGroup.{r2_group, r2_finding, is_empty_state}
use brod_cli.Rules.Retention.{r3_topic, r3_finding, proposed_retention, saved_gb}
use brod_cli.Rules.Partitions.{r4_topic, r4_finding, proposed_partitions, bytes_per_partition}
use brod_cli.Rules.Compression.{r5_topic, r5_finding}
use brod_cli.Rules.Replication.{r6_topic, r6_finding, matches_pattern}
use brod_cli.Rules.Skew.{r7_skewed, r7_finding}
use brod_cli.Rules.Internal.{r8_topic, r8_finding}

module _ {F : Type 0} ⦃f : Float F⦄ (ctx : EvalCtx F) where
  pub r1_topic-eq-some :
      (t : Topic F) {x : Finding F}
      → r1_topic ctx t ≡ some x
      → (x ≡ r1_finding ctx t)
        × (is_streams_internal t.name ≡ false)
        × (f.lt ctx.cfg.r1.max_bytes_in_per_sec t.bytes_in_per_sec ≡ false)
        × (ltb_ℤ (pos 0) t.active_consumers ≡ false)
        × (ltb_ℤ t.retained_bytes ctx.cfg.r1.min_retained_bytes ≡ false)
  unfolding r1_topic
  r1_topic-eq-some t e = ground arith

  pub r2_group-eq-some :
      (g : ConsumerGrp) {x : Finding F}
      → r2_group ctx g ≡ some x
      → (x ≡ r2_finding g)
        × (is_empty_state g.state ≡ true)
        × (ltb_ℤ g.last_commit_age_days (pos 0) ≡ false)
        × (ltb_ℤ g.last_commit_age_days ctx.cfg.r2.min_empty_days ≡ false)
  unfolding r2_group
  r2_group-eq-some g e = ground arith

  pub r3_topic-eq-some :
      (t : Topic F) {x : Finding F}
      → r3_topic ctx t ≡ some x
      → (x ≡ r3_finding ctx t)
        × (ltb_ℤ t.retained_bytes ctx.cfg.r3.min_retained_bytes ≡ false)
        × (ltb_ℤ t.max_consumer_lag_ms (pos 0) ≡ false)
        × ((leb_ℤ (pos 0) t.retention_ms && leb_ℤ t.retention_ms (proposed_retention ctx t))
            ≡ false)
        × (f.le (saved_gb ctx t) nought ≡ false)
  unfolding r3_topic
  r3_topic-eq-some t e = ground arith

  pub r4_topic-eq-some :
      (t : Topic F) {x : Finding F}
      → r4_topic ctx t ≡ some x
      → (x ≡ r4_finding ctx t)
        × (leb_ℤ t.partitions ctx.cfg.r4.min_partitions ≡ false)
        × (f.le ctx.cfg.r4.max_bytes_per_part_sec (bytes_per_partition t) ≡ false)
        × (leb_ℤ t.partitions (proposed_partitions ctx t) ≡ false)
  unfolding r4_topic
  r4_topic-eq-some t e = ground arith

  pub r5_topic-eq-some :
      (t : Topic F) {x : Finding F}
      → r5_topic ctx t ≡ some x
      → (x ≡ r5_finding ctx t)
        × (f.lt t.bytes_in_per_sec ctx.cfg.r5.min_bytes_in_per_sec ≡ false)
        × (is_uncompressed t.compression_type ≡ true)
  unfolding r5_topic
  r5_topic-eq-some t e = ground arith

  pub r6_topic-eq-some :
      (t : Topic F) {x : Finding F}
      → r6_topic ctx t ≡ some x
      → (x ≡ r6_finding ctx t)
        × (ltb_ℤ t.replication_factor ctx.cfg.r6.trigger_rf ≡ false)
        × (leb_ℤ t.replication_factor ctx.cfg.r6.proposed_rf ≡ false)
        × (matches_pattern ctx.cfg.r6.name_pattern t.name ≡ true)
  unfolding r6_topic
  r6_topic-eq-some t e = ground arith

  pub r7_skewed-eq-some :
      (t : Topic F) (med max_p : ℤ) {x : Finding F}
      → r7_skewed ctx t med max_p ≡ some x
      → (x ≡ r7_finding ctx t med max_p) × (leb_ℤ med (pos 0) ≡ false)
  unfolding r7_skewed
  r7_skewed-eq-some t med max_p e = ground arith

  pub r8_topic-eq-some :
      (t : Topic F) {x : Finding F}
      → r8_topic ctx t ≡ some x
      → (x ≡ r8_finding ctx t)
        × (str_eq (match_suffix t.name ctx.cfg.r8.suffixes) "" ≡ false)
        × (ltb_ℤ t.retained_bytes ctx.cfg.r8.min_retained_bytes ≡ false)
        × (has_owning_app t.name ctx.snap.groups ≡ false)
  unfolding r8_topic
  r8_topic-eq-some t e = ground arith
