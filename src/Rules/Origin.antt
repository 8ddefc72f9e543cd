-- ===== src/Rules/Origin.antt =====
-- Where the findings come from: a rule that is on, and a topic or group of the last snapshot.
use Prim.Native.String.{◌++◌}
use text.Mathlib.TextLemmas.{append_assoc}
use mathlib.Core.Option.{some-injective}
use mathlib.Core.List.{Mem}
use brod_cli.Base.{◌≡◌, sym, ◌∙◌, false, some, ◌⊎◌, inl, inr, List, All}
use brod_cli.Base.Float.{Float}
use brod_cli.Cost.{CostModel}
use brod_cli.Rules.Types.{Topic, ConsumerGrp, Snapshot, Finding, SnapshotHistory, latest}
use brod_cli.Rules.Config.{EvalCtx, RuleConfig}
use brod_cli.Rules.DeadTopic.{r1_finding}
use brod_cli.Rules.ZombieGroup.{r2_finding}
use brod_cli.Rules.Retention.{r3_finding}
use brod_cli.Rules.Partitions.{r4_finding}
use brod_cli.Rules.Compression.{r5_finding}
use brod_cli.Rules.Replication.{r6_finding}
use brod_cli.Rules.Skew.{r7_finding}
use brod_cli.Rules.Internal.{r8_finding}
use brod_cli.Rules.Guards.{
  r1_topic-eq-some, r2_group-eq-some, r3_topic-eq-some, r4_topic-eq-some, r5_topic-eq-some,
  r6_topic-eq-some, r7_skewed-eq-some, r8_topic-eq-some,
}
use brod_cli.Rules.Engine.{evaluate, context}
use brod_cli.Rules.Engine.Lifting.{RulesFind, evaluate-RulesFind}

module _ {F : Type 0} ⦃f : Float F⦄ where
  -- The finding is about a topic of the snapshot, or about a group of it.
  abbrev pub IsAbout : Snapshot F → Finding F → Type 0
  IsAbout snap x =
      ((t : Topic F) × Mem t snap.topics × (x.resource_key ≡ x.rule_id ++ (":" ++ t.name)))
      ⊎ ((g : ConsumerGrp) × Mem g snap.groups
          × (x.resource_key ≡ x.rule_id ++ (":" ++ g.group_id)))

  abbrev pub IsGrounded : RuleConfig F → Snapshot F → Finding F → Type 0
  IsGrounded cfg snap x = (cfg.disabled x.rule_id ≡ false) × IsAbout snap x

  rules_IsGrounded : (ctx : EvalCtx F) → RulesFind (IsGrounded ctx.cfg ctx.snap) ctx
  unfolding r1_finding r2_finding r3_finding r4_finding r5_finding r6_finding r7_finding r8_finding
  rules_IsGrounded ctx = record {
    r1 = λ on t m x e.
        rw (r1_topic-eq-some ctx t e).0 (on, inl (t, m, append_assoc "R1" ":" t.name));
    r2 = λ on g m x e.
        rw (r2_group-eq-some ctx g e).0 (on, inr (g, m, append_assoc "R2" ":" g.group_id));
    r3 = λ on t m x e.
        rw (r3_topic-eq-some ctx t e).0 (on, inl (t, m, append_assoc "R3" ":" t.name));
    r4 = λ on t m x e.
        rw (r4_topic-eq-some ctx t e).0 (on, inl (t, m, append_assoc "R4" ":" t.name));
    r5 = λ on t m x e.
        rw (r5_topic-eq-some ctx t e).0 (on, inl (t, m, append_assoc "R5" ":" t.name));
    r6 = λ on t m x e.
        rw (r6_topic-eq-some ctx t e).0 (on, inl (t, m, append_assoc "R6" ":" t.name));
    r7 = λ on t m med max_p x e.
        rw (r7_skewed-eq-some ctx t med max_p e).0 (on, inl (t, m, append_assoc "R7" ":" t.name));
    r8 = λ on t m x e.
        rw (r8_topic-eq-some ctx t e).0 (on, inl (t, m, append_assoc "R8" ":" t.name));
  }

  -- Every finding of a report has the id of a rule that is not disabled, and its resource key is
  -- that id, a colon, and the name of a topic or the id of a group of the last snapshot.
  pub evaluate-IsGrounded :
      (history : SnapshotHistory F) (cm : CostModel F) (cfg : RuleConfig F) (snap : Snapshot F)
      (fs : List (Finding F))
      → latest history ≡ some snap
      → evaluate history cm cfg ≡ some fs
      → All (IsGrounded cfg snap) fs
  unfolding context
  evaluate-IsGrounded history cm cfg snap fs found =
      evaluate-RulesFind (IsGrounded cfg snap) history cm cfg
        (λ last e.
          let same : last ≡ snap = some-injective _ _ (sym e ∙ found) in
          rw same (rules_IsGrounded (context snap cm cfg)))
        fs
