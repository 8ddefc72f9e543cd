-- ===== src/Collect/Silent.antt =====
-- Which rules can report on a snapshot of `build`.
use text.Mathlib.Text.{◌==◌ as str_eq}
use mathlib.Core.Option.{some-injective}
use mathlib.Core.List.{Mem}
use brod_cli.Base.{
  ◌≡◌, refl, true, false, some, inr, List, [], ◌∷◌, All, All-imp, forall_mem-All, arith,
}
use brod_cli.Base.Int.{ℤ, pos, ltb_ℤ}
use brod_cli.Base.Float.{Float}
use brod_cli.Cost.{CostModel}
use brod_cli.Rules.Types.{Topic, ConsumerGrp, Snapshot, Finding, latest}
use brod_cli.Rules.Config.{EvalCtx, RuleConfig}
use brod_cli.Rules.DeadTopic.{r1_finding}
use brod_cli.Rules.Partitions.{r4_finding}
use brod_cli.Rules.Compression.{r5_finding}
use brod_cli.Rules.Replication.{r6_finding}
use brod_cli.Rules.Skew.{r7_finding}
use brod_cli.Rules.Internal.{r8_finding}
use brod_cli.Rules.Guards.{
  r1_topic-eq-some, r2_group-eq-some, r3_topic-eq-some, r4_topic-eq-some, r5_topic-eq-some,
  r6_topic-eq-some, r7_skewed-eq-some, r8_topic-eq-some,
}
use brod_cli.Rules.Engine.{evaluate, context}
use brod_cli.Rules.Engine.Lifting.{RulesFind, evaluate-RulesFind}
use brod_cli.Collect.Types.{Options, Call, Reader}
use brod_cli.Collect.Build.{build}
use brod_cli.Collect.Shape.{IsHonest, IsUnknown, build-IsSorted}

age_unknown :
    (gs : List ConsumerGrp)
    → All IsUnknown gs
    → (g : ConsumerGrp) → Mem g gs
    → ltb_ℤ g.last_commit_age_days (pos 0) ≡ true
age_unknown gs h =
    forall_mem-All (λ g. ltb_ℤ g.last_commit_age_days (pos 0) ≡ true) (λ g. hlevel) gs
      (All-imp IsUnknown _ (λ g e. rw e) gs h)

module _ {F : Type 0} ⦃f : Float F⦄ where
  -- Neither R2 nor R3 reported the finding.
  abbrev pub IsStatic : Finding F → Type 0
  IsStatic x = (str_eq x.rule_id "R2" ≡ false) × (str_eq x.rule_id "R3" ≡ false)

  lag_unknown :
      (ts : List (Topic F))
      → All IsHonest ts
      → (t : Topic F) → Mem t ts
      → ltb_ℤ t.max_consumer_lag_ms (pos 0) ≡ true
  lag_unknown ts h =
      forall_mem-All (λ t. ltb_ℤ t.max_consumer_lag_ms (pos 0) ≡ true) (λ t. hlevel) ts
        (All-imp IsHonest _ (λ t e. rw e.0) ts h)

  rules_IsStatic :
      (ctx : EvalCtx F)
      → All IsHonest ctx.snap.topics
      → All IsUnknown ctx.snap.groups
      → RulesFind IsStatic ctx
  unfolding r1_finding r4_finding r5_finding r6_finding r7_finding r8_finding
  rules_IsStatic ctx topics groups = record {
    r1 = λ _ t _ x e. rw (r1_topic-eq-some ctx t e).0 (refl, refl);
    r2 = λ _ g m x e.
        let young = (r2_group-eq-some ctx g e).2 in
        let unknown = age_unknown ctx.snap.groups groups g m in absurd (ground arith);
    r3 = λ _ t m x e.
        let lag = (r3_topic-eq-some ctx t e).2 in
        let unknown = lag_unknown ctx.snap.topics topics t m in absurd (ground arith);
    r4 = λ _ t _ x e. rw (r4_topic-eq-some ctx t e).0 (refl, refl);
    r5 = λ _ t _ x e. rw (r5_topic-eq-some ctx t e).0 (refl, refl);
    r6 = λ _ t _ x e. rw (r6_topic-eq-some ctx t e).0 (refl, refl);
    r7 = λ _ t _ med max_p x e. rw (r7_skewed-eq-some ctx t med max_p e).0 (refl, refl);
    r8 = λ _ t _ x e. rw (r8_topic-eq-some ctx t e).0 (refl, refl);
  }

module _ {S E : Type 0} (r : Reader S E) (sleep : ℤ → Call S E (Unit {0})) (opts : Options) where
  -- On a snapshot that `build` returns, whatever the cluster replies, `Evaluate` reports no
  -- finding of rule R2 and none of R3.
  pub evaluate-build :
      {F : Type 0} ⦃f : Float F⦄ (clock : ℤ) (s s' : S) (snap : Snapshot F) (cm : CostModel F)
      (cfg : RuleConfig F) (fs : List (Finding F))
      → build r sleep opts clock s ≡ (inr snap, s')
      → evaluate (snap ∷ []) cm cfg ≡ some fs
      → All IsStatic fs
  unfolding context latest
  evaluate-build clock s s' snap cm cfg fs h =
      let (_, topics, groups, _) = build-IsSorted r sleep opts clock s s' snap h in
      evaluate-RulesFind IsStatic (snap ∷ []) cm cfg
        (λ last e.
          let same : snap ≡ last = some-injective _ _ e in
          rw (← same) (rules_IsStatic (context snap cm cfg) topics groups))
        fs
