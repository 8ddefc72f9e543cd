-- ===== src/Examples/Reports.antt =====
-- The theorems on the report at the snapshot of the samples.
use Prim.Native.Nat.{◌^◌}
use std.Sets.{Bool-set}
use native.Mathlib.Bridge.{le_prop}
use mathlib.Core.List.{Mem, Perm}
use brod_cli.Base.{◌≡◌, refl, true, some, List, [], ◌∷◌, All, forall_mem-All, length, leb, arith}
use brod_cli.Base.Int.{ℤ, pos, ◌*ℤ◌, ◌≤ℤ◌, ◌<ℤ◌}
use brod_cli.Base.Float.{NotNeg, nought}
use brod_cli.Base.Fixed.{fixed_float, fixed_IsIeee}
use brod_cli.Rules.Types.{Topic, Finding, Snapshot, latest}
use brod_cli.Rules.Config.{EvalCtx, streams_internal_suffixes}
use brod_cli.Rules.DeadTopic.{r1_topic, r1_finding}
use brod_cli.Rules.Internal.{r8_topic, r8_finding}
use brod_cli.Rules.Retention.{r3_topic, r3_finding, proposed_retention}
use brod_cli.Rules.Engine.{evaluate, run_rules, context, registry}
use brod_cli.Rules.Engine.Order.{HasNumber, Ordered, evaluate-IsSorted}
use brod_cli.Rules.Engine.Total.{Returns, evaluate-Returns, evaluate-latest}
use brod_cli.Rules.Delivery.{IsReviewed, evaluate-IsReviewed}
use brod_cli.Rules.Origin.{IsGrounded, evaluate-IsGrounded}
use brod_cli.Rules.Savings.{IsMeasured, SavesNotNeg, evaluate-SavesNotNeg}
use brod_cli.Rules.Billing.{r1_r8_disjoint}
use brod_cli.Rules.Proposals.{r3_topic_proposal}
use brod_cli.Examples.Samples.{
  program, legacy, clicks, orphan, snapshot, history, model, config, report, findings_of,
  evaluate-report,
}

abbrev ctx : EvalCtx ℤ
ctx = context snapshot model config

abbrev empty_snapshot : Snapshot ℤ
empty_snapshot = record snapshot { topics = [] }

abbrev output : List (Finding ℤ)
output = findings_of (run_rules ctx true registry)

ran : run_rules (context snapshot model config) (leb (length history) 1) registry ≡ some output
unfolding program
ran = refl

numbers : All HasNumber output
unfolding program
numbers = (refl, (refl, (refl, (refl, (refl, (refl, (refl, (refl, tt))))))))

last_snapshot : latest history ≡ some snapshot
unfolding program
last_snapshot = refl

evaluate-IsSorted_example : Ordered report × Perm report output
evaluate-IsSorted_example =
    evaluate-IsSorted fixed_IsIeee history model config snapshot output report last_snapshot ran
      numbers evaluate-report

one_partition : pos 1 ≤ℤ config.r7.min_partitions
unfolding program
one_partition = omega arith

evaluate-Returns_example : Returns (evaluate history model config)
evaluate-Returns_example = evaluate-Returns history model config one_partition

evaluate-latest_example :
    evaluate (empty_snapshot ∷ snapshot ∷ []) model config ≡ evaluate (snapshot ∷ []) model config
evaluate-latest_example = evaluate-latest (empty_snapshot ∷ []) snapshot model config

evaluate-IsReviewed_example : All IsReviewed report
evaluate-IsReviewed_example = evaluate-IsReviewed history model config report evaluate-report

evaluate-IsGrounded_example : All (IsGrounded config snapshot) report
evaluate-IsGrounded_example =
    evaluate-IsGrounded history model config snapshot report last_snapshot evaluate-report

r1_legacy : r1_topic ctx legacy ≡ some (r1_finding ctx legacy)
unfolding program
r1_legacy = refl

r8_orphan : r8_topic ctx orphan ≡ some (r8_finding ctx orphan)
unfolding program
r8_orphan = refl

suffixes : ctx.cfg.r8.suffixes ≡ streams_internal_suffixes
unfolding program
suffixes = refl

r1_r8_disjoint_example : ¬ (legacy.name ≡ orphan.name)
r1_r8_disjoint_example =
    r1_r8_disjoint ctx legacy orphan (r1_finding ctx legacy) (r8_finding ctx orphan) suffixes
      r1_legacy r8_orphan

lag_fits : clicks.max_consumer_lag_ms <ℤ pos (2 ^ 62)
lag_fits = omega arith

r3_clicks : r3_topic ctx clicks ≡ some (r3_finding ctx clicks)
unfolding program
r3_clicks = refl

r3_topic_proposal_example :
    (ctx.cfg.r3.min_floor_ms ≤ℤ proposed_retention ctx clicks)
    × (pos 2 *ℤ clicks.max_consumer_lag_ms ≤ℤ proposed_retention ctx clicks)
    × (pos 0 ≤ℤ clicks.retention_ms → proposed_retention ctx clicks <ℤ clicks.retention_ms)
r3_topic_proposal_example = r3_topic_proposal ctx clicks (r3_finding ctx clicks) lag_fits r3_clicks

IsMeasured-prop : (t : Topic ℤ) → IsProp (IsMeasured ctx t)
IsMeasured-prop t = hlevel (le_prop, Bool-set)

All-IsMeasured : All (IsMeasured ctx) snapshot.topics
unfolding program
All-IsMeasured = (
  record {
    retained = omega arith;
    parts = (omega arith, omega arith);
    replicas = (omega arith, omega arith);
    scaled = refl;
  },
  (
    record {
      retained = omega arith;
      parts = (omega arith, omega arith);
      replicas = (omega arith, omega arith);
      scaled = refl;
    },
    (
      record {
        retained = omega arith;
        parts = (omega arith, omega arith);
        replicas = (omega arith, omega arith);
        scaled = refl;
      },
      (
        record {
          retained = omega arith;
          parts = (omega arith, omega arith);
          replicas = (omega arith, omega arith);
          scaled = refl;
        },
        (
          record {
            retained = omega arith;
            parts = (omega arith, omega arith);
            replicas = (omega arith, omega arith);
            scaled = refl;
          },
          (
            record {
              retained = omega arith;
              parts = (omega arith, omega arith);
              replicas = (omega arith, omega arith);
              scaled = refl;
            },
            (
              record {
                retained = omega arith;
                parts = (omega arith, omega arith);
                replicas = (omega arith, omega arith);
                scaled = refl;
              },
              tt,
            ),
          ),
        ),
      ),
    ),
  ),
)

measured : (t : Topic ℤ) → Mem t snapshot.topics → IsMeasured ctx t
measured = forall_mem-All (IsMeasured ctx) IsMeasured-prop snapshot.topics All-IsMeasured

weight : NotNeg model.weights.storage
weight = refl

rate_floor : fixed_float.le nought config.r5.min_bytes_in_per_sec ≡ true
unfolding program
rate_floor = refl

ratio : NotNeg config.r5.assumed_ratio
unfolding program
ratio = refl

replicas : pos 0 ≤ℤ config.r6.proposed_rf
unfolding program
replicas = omega arith

minimum : pos 0 ≤ℤ config.r4.min_partitions
unfolding program
minimum = omega arith

exact : config.r4.min_partitions ≤ℤ pos (2 ^ 53)
unfolding program
exact = omega arith

evaluate-SavesNotNeg_example : All SavesNotNeg report
evaluate-SavesNotNeg_example =
    evaluate-SavesNotNeg fixed_IsIeee history model config snapshot report last_snapshot weight
      rate_floor ratio replicas minimum exact measured evaluate-report
