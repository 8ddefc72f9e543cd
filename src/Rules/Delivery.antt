-- ===== src/Rules/Delivery.antt =====
-- What a fix ships as: the remediations of the findings of internal/rules.
use Prim.Native.String.{String, ◌++◌}
use brod_cli.Base.{◌≡◌, refl, true, some, List, All}
use brod_cli.Base.Float.{Float}
use brod_cli.Cost.{CostModel}
use brod_cli.Rules.Types.{Finding, SnapshotHistory, warning}
use brod_cli.Rules.Config.{EvalCtx, RuleConfig}
use brod_cli.Rules.DeadTopic.{r1_finding}
use brod_cli.Rules.ZombieGroup.{r2_finding}
use brod_cli.Rules.Retention.{r3_finding}
use brod_cli.Rules.Partitions.{r4_finding}
use brod_cli.Rules.Compression.{r5_finding}
use brod_cli.Rules.Replication.{r6_finding}
use brod_cli.Rules.Skew.{r7_finding}
use brod_cli.Rules.Internal.{r8_finding}
use brod_cli.Rules.Guards.{
  r1_topic-eq-some, r2_group-eq-some, r3_topic-eq-some, r4_topic-eq-some, r5_topic-eq-some,
  r6_topic-eq-some, r7_skewed-eq-some, r8_topic-eq-some,
}
use brod_cli.Rules.Engine.{evaluate}
use brod_cli.Rules.Engine.Lifting.{RulesFind, evaluate-RulesFind}

module _ {F : Type 0} ⦃f : Float F⦄ where
  -- A fix that ships as a one-click change is a warning, and alters the configuration of a topic.
  abbrev pub IsReviewed : Finding F → Type 0
  IsReviewed x =
      x.remediation.one_click ≡ true
      → (x.severity ≡ warning)
        × ((rest : String) × (x.remediation.kafka_configs_cmd
              ≡ "kafka-configs --alter --topic " ++ rest))

  rules_IsReviewed : (ctx : EvalCtx F) → RulesFind IsReviewed ctx
  unfolding r1_finding r2_finding r3_finding r4_finding r5_finding r6_finding r7_finding r8_finding
  rules_IsReviewed ctx = record {
    r1 = λ _ t _ x e. rw (r1_topic-eq-some ctx t e).0 λ on. cc;
    r2 = λ _ g _ x e. rw (r2_group-eq-some ctx g e).0 λ on. cc;
    r3 = λ _ t _ x e. rw (r3_topic-eq-some ctx t e).0 λ on. (refl, (_, refl));
    r4 = λ _ t _ x e. rw (r4_topic-eq-some ctx t e).0 λ on. cc;
    r5 = λ _ t _ x e. rw (r5_topic-eq-some ctx t e).0 λ on. (refl, (_, refl));
    r6 = λ _ t _ x e. rw (r6_topic-eq-some ctx t e).0 λ on. cc;
    r7 = λ _ t _ med max_p x e. rw (r7_skewed-eq-some ctx t med max_p e).0 λ on. cc;
    r8 = λ _ t _ x e. rw (r8_topic-eq-some ctx t e).0 λ on. cc;
  }

  -- In every report, a finding whose fix ships as a one-click change has severity `warning`, so
  -- never `plan`, and its command begins with `kafka-configs --alter --topic`: no command that
  -- deletes a topic or a group is one-click.
  pub evaluate-IsReviewed :
      (history : SnapshotHistory F) (cm : CostModel F) (cfg : RuleConfig F) (fs : List (Finding F))
      → evaluate history cm cfg ≡ some fs
      → All IsReviewed fs
  evaluate-IsReviewed history cm cfg =
      evaluate-RulesFind IsReviewed history cm cfg (λ snap _. rules_IsReviewed _)
