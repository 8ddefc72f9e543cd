-- ===== src/Rules/Savings.antt =====
-- The savings of the findings: none is below zero.
use mathlib.Core.Option.{some-injective}
use mathlib.Core.List.{Mem, mem-cons_self, mem-cons_of_mem}
use Prim.Native.Nat.{◌^◌}
use brod_cli.Base.{
  ℕ, ◌≡◌, sym, ◌∙◌, true, false, ◌&&◌, some, inl, inr, List, [], ◌∷◌, foldl, All, arith, Bool-cases,
}
use text.Mathlib.Text.{◌==◌ as str_eq}
use brod_cli.Base.Int.{ℤ, pos, negsuc, ◌-ℤ◌, ◌≤ℤ◌, ◌<ℤ◌, ltb_ℤ, leb_ℤ, i64, IsI64, i64_of_IsI64}
use brod_cli.Base.Float.{Float, IsIeee, NotNeg, nought}
use brod_cli.Base.Signs.{
  IsPos-NotNeg, not-le-NotNeg, above-NotNeg, of_ℤ-NotNeg, of_ℤ-IsPos, lit_int-IsPos,
}
use brod_cli.Cost.{CostModel, monthly_gb}
use brod_cli.Cost.Prices.{resolve-NotNeg}
use brod_cli.Rules.Types.{Topic, Finding, Snapshot, SnapshotHistory, latest}
use brod_cli.Rules.Config.{EvalCtx, RuleConfig}
use brod_cli.Rules.Helpers.{gb, round2}
use brod_cli.Rules.DeadTopic.{r1_finding}
use brod_cli.Rules.ZombieGroup.{r2_finding}
use brod_cli.Rules.Retention.{r3_finding, saved_gb}
use brod_cli.Rules.Partitions.{
  r4_finding, r4_saving, partition_cost, cluster_gb, total_parts, proposed_partitions,
}
use brod_cli.Rules.Compression.{r5_finding}
use brod_cli.Rules.Replication.{r6_finding}
use brod_cli.Rules.Skew.{r7_finding}
use brod_cli.Rules.Internal.{r8_finding}
use brod_cli.Rules.Guards.{
  r1_topic-eq-some, r2_group-eq-some, r3_topic-eq-some, r4_topic-eq-some, r5_topic-eq-some,
  r6_topic-eq-some, r7_skewed-eq-some, r8_topic-eq-some,
}
use brod_cli.Rules.Engine.{evaluate, context, total_retained}
use brod_cli.Rules.Engine.Lifting.{RulesFind, evaluate-RulesFind}

-- The difference of two counts, the smaller not below zero, does not wrap.
removed_pos : (a b : ℤ) → IsI64 a → pos 0 ≤ℤ b → b <ℤ a → pos 0 <ℤ i64 (a -ℤ b)
unfolding ◌-ℤ◌
removed_pos (pos a) (pos b) ha hb h =
    rw (i64_of_IsI64 (pos a -ℤ pos b) (ground arith)) (ground arith)
removed_pos (pos a) (negsuc b) ha hb h = absurd (omega arith)
removed_pos (negsuc a) (pos b) ha hb h = absurd (omega arith)
removed_pos (negsuc a) (negsuc b) ha hb h = absurd (omega arith)

gt_of_leb : (a b : ℤ) → leb_ℤ a b ≡ false → b <ℤ a
gt_of_leb a b h = ground arith

not_below : (a : ℤ) (n : ℕ) → pos n ≤ℤ a → pos 0 ≤ℤ a
not_below a n h = omega arith

below_pos : (a b : ℤ) → pos 0 ≤ℤ b → b <ℤ a → pos 0 <ℤ a
below_pos a b h k = omega arith

module _ {F : Type 0} ⦃f : Float F⦄ where
  -- Sizes that are not below zero, counts that are 64-bit integers, and a number of partitions for
  -- R4 to propose that is below 2 ^ 63 before it is converted, so neither NaN nor infinite.
  pub record IsMeasured (ctx : EvalCtx F) (t : Topic F) : Type 0 where
    pub retained : pos 0 ≤ℤ t.retained_bytes
    pub parts : IsI64 t.partitions
    pub replicas : IsI64 t.replication_factor
    pub scaled :
        f.lt
          (f.max
            (f.of_int ctx.cfg.r4.min_partitions)
            (f.ceil (f.div t.bytes_in_per_sec ctx.cfg.r4.target_bytes_per_part)))
          (f.lit (2 ^ 63) 0)
        ≡ true

  -- Thresholds and prices that are not below zero.
  pub record IsPriced (ctx : EvalCtx F) : Type 0 where
    pub storage : NotNeg ctx.prices.storage_eur_per_gb_mo
    pub network : NotNeg ctx.prices.network_eur_per_gb
    pub rate : f.le nought ctx.cfg.r5.min_bytes_in_per_sec ≡ true
    pub ratio : NotNeg ctx.cfg.r5.assumed_ratio
    pub replicas : pos 0 ≤ℤ ctx.cfg.r6.proposed_rf
    pub minimum : pos 0 ≤ℤ ctx.cfg.r4.min_partitions
    pub exact : ctx.cfg.r4.min_partitions ≤ℤ pos (2 ^ 53)

  abbrev pub SavesNotNeg : Finding F → Type 0
  SavesNotNeg x = NotNeg x.est_saving_eur

converted :
    {F : Type 0} ⦃f : Float F⦄ (laws : IsIeee F) (x : F) (n : ℤ)
    → pos 0 ≤ℤ n
    → n ≤ℤ pos (2 ^ 53)
    → f.lt (f.max (f.of_int n) x) (f.lit (2 ^ 63) 0) ≡ true
    → pos 0 ≤ℤ f.to_int (f.max (f.of_int n) x)
converted laws x (pos n) low high fits =
    not_below _ n (laws.to_int-max-of_int n x (omega arith) fits)
converted laws x (negsuc n) low high fits = absurd (omega arith)

module _ {F : Type 0} ⦃f : Float F⦄ (laws : IsIeee F) where
  open laws use {add-NotNeg, mul-NotNeg, div-NotNeg, lit-NotNeg, round-NotNeg}

  round2-NotNeg : (x : F) → NotNeg x → NotNeg (round2 x)
  unfolding round2
  round2-NotNeg x h =
      div-NotNeg _ _ (round-NotNeg _ (mul-NotNeg _ _ h (lit-NotNeg 100 0)))
        (lit_int-IsPos laws 100 (omega arith))

  gb-NotNeg : (b : ℤ) → pos 0 ≤ℤ b → NotNeg (gb {F = F} b)
  unfolding gb
  gb-NotNeg b h =
      div-NotNeg _ _ (of_ℤ-NotNeg laws b h) (lit_int-IsPos laws 1_000_000_000 (omega arith))

  monthly_gb-NotNeg : (x : F) → NotNeg x → NotNeg (monthly_gb x)
  unfolding monthly_gb
  monthly_gb-NotNeg x h =
      div-NotNeg _ _ (mul-NotNeg _ _ h (lit-NotNeg 2_592_000 0))
        (lit_int-IsPos laws 1_000_000_000 (omega arith))

  sum_gb-NotNeg :
      (s : F) (ts : List (Topic F))
      → NotNeg s
      → ((t : Topic F) → Mem t ts → pos 0 ≤ℤ t.retained_bytes)
      → NotNeg (foldl (λ sum t. f.add sum (gb t.retained_bytes)) s ts)
  sum_gb-NotNeg s [] hs h = hs
  sum_gb-NotNeg s (t ∷ ts) hs h =
      sum_gb-NotNeg (f.add s (gb t.retained_bytes)) ts
        (add-NotNeg _ _ hs (gb-NotNeg t.retained_bytes (h t mem-cons_self)))
        (λ u m. h u (mem-cons_of_mem t m))

  module _ (ctx : EvalCtx F) (priced : IsPriced ctx)
      (measured : (t : Topic F) → Mem t ctx.snap.topics → IsMeasured ctx t) where
    partition_cost-NotNeg : NotNeg (partition_cost ctx)
    unfolding partition_cost cluster_gb
    partition_cost-NotNeg = elim (Bool-cases (ltb_ℤ (pos 0) (total_parts ctx.snap.topics))) [
      | inl some_parts ↦ rw some_parts (
          div-NotNeg _ _
            (mul-NotNeg _ _ (lit-NotNeg 20 2) (
              mul-NotNeg _ _
                (sum_gb-NotNeg nought ctx.snap.topics (lit-NotNeg 0 0)
                  (λ t m. (measured t m).retained))
                priced.storage))
            (of_ℤ-IsPos laws (total_parts ctx.snap.topics) (ground arith)))
      | inr no_parts ↦ rw no_parts (lit-NotNeg 0 0)
    ]

    -- The proposal is not below the minimum.
    proposed_not_negative :
        (t : Topic F)
        → f.lt
            (f.max
              (f.of_int ctx.cfg.r4.min_partitions)
              (f.ceil (f.div t.bytes_in_per_sec ctx.cfg.r4.target_bytes_per_part)))
            (f.lit (2 ^ 63) 0)
          ≡ true
        → pos 0 ≤ℤ proposed_partitions ctx t
    unfolding proposed_partitions
    proposed_not_negative t fits =
        converted laws _ ctx.cfg.r4.min_partitions priced.minimum priced.exact fits

    r4_saving-NotNeg : (removed : ℤ) → pos 0 <ℤ removed → NotNeg (r4_saving ctx removed).0
    unfolding r4_saving
    r4_saving-NotNeg removed h =
        let per_month : F = ctx.cfg.r4.confluent_per_partition_eur_mo in
        let count = IsPos-NotNeg laws _ (of_ℤ-IsPos laws removed h) in
        elim (Bool-cases (str_eq ctx.snap.cluster.provider "confluent" && f.lt nought per_month)) [
          | inl e ↦
              let paid : f.lt nought per_month ≡ true = ground arith in
              rw e (mul-NotNeg _ _ count (IsPos-NotNeg laws per_month paid))
          | inr e ↦ rw e (mul-NotNeg _ _ partition_cost-NotNeg count)
        ]

    rules_SavesNotNeg : RulesFind SavesNotNeg ctx
    unfolding r1_finding r2_finding r3_finding r4_finding r5_finding r6_finding r7_finding
        r8_finding
    rules_SavesNotNeg = record {
      r1 = λ _ t m x e.
          rw (r1_topic-eq-some ctx t e).0
            (round2-NotNeg _ (mul-NotNeg _ _ (gb-NotNeg _ (measured t m).retained) priced.storage));
      r2 = λ _ g _ x e. rw (r2_group-eq-some ctx g e).0 (lit-NotNeg 0 0);
      r3 = λ _ t m x e. rw (r3_topic-eq-some ctx t e).0 (
          round2-NotNeg _ (
            mul-NotNeg _ _ (not-le-NotNeg laws (saved_gb ctx t) (r3_topic-eq-some ctx t e).4)
              priced.storage));
      r4 = λ _ t m x e. rw (r4_topic-eq-some ctx t e).0 (
          round2-NotNeg _ (
            r4_saving-NotNeg _ (
              removed_pos t.partitions (proposed_partitions ctx t) (measured t m).parts
                (proposed_not_negative t (measured t m).scaled)
                (gt_of_leb t.partitions (proposed_partitions ctx t)
                  (r4_topic-eq-some ctx t e).3))));
      r5 = λ _ t m x e. rw (r5_topic-eq-some ctx t e).0 (
          round2-NotNeg _ (
            mul-NotNeg _ _
              (mul-NotNeg _ _
                (monthly_gb-NotNeg _
                  (above-NotNeg laws t.bytes_in_per_sec _ priced.rate (r5_topic-eq-some ctx t e).1))
                priced.ratio)
              (add-NotNeg _ _ priced.storage priced.network)));
      r6 = λ _ t m x e.
          let above =
            gt_of_leb t.replication_factor ctx.cfg.r6.proposed_rf (r6_topic-eq-some ctx t e).2 in
          rw (r6_topic-eq-some ctx t e).0 (
            round2-NotNeg _ (
              mul-NotNeg _ _
                (mul-NotNeg _ _ (gb-NotNeg _ (measured t m).retained) (
                  div-NotNeg _ _
                    (IsPos-NotNeg laws _ (
                      of_ℤ-IsPos laws _ (
                        removed_pos t.replication_factor ctx.cfg.r6.proposed_rf
                          (measured t m).replicas priced.replicas above)))
                    (of_ℤ-IsPos laws t.replication_factor (below_pos _ _ priced.replicas above))))
                priced.storage));
      r7 = λ _ t _ med max_p x e. rw (r7_skewed-eq-some ctx t med max_p e).0 (lit-NotNeg 0 0);
      r8 = λ _ t m x e.
          rw (r8_topic-eq-some ctx t e).0
            (round2-NotNeg _ (mul-NotNeg _ _ (gb-NotNeg _ (measured t m).retained) priced.storage));
    }

  -- No finding of a report has a saving below zero, if the storage weight, the thresholds of R5 and
  -- the replication proposed by R6 are not below zero, if R4's minimum is from 0 to 2 ^ 53, and if
  -- each topic of the last snapshot has a size that is not below zero, counts that are 64-bit
  -- integers, and a number of partitions for R4 to propose (the larger of the minimum and the
  -- rounded up quotient of the topic's rate by the target rate) that as a float is below 2 ^ 63,
  -- so not NaN; also where the monthly cost or a price given in the cost model is negative or NaN.
  pub evaluate-SavesNotNeg :
      (history : SnapshotHistory F) (cm : CostModel F) (cfg : RuleConfig F) (snap : Snapshot F)
      (fs : List (Finding F))
      → latest history ≡ some snap
      → NotNeg cm.weights.storage
      → f.le nought cfg.r5.min_bytes_in_per_sec ≡ true
      → NotNeg cfg.r5.assumed_ratio
      → pos 0 ≤ℤ cfg.r6.proposed_rf
      → pos 0 ≤ℤ cfg.r4.min_partitions
      → cfg.r4.min_partitions ≤ℤ pos (2 ^ 53)
      → ((t : Topic F) → Mem t snap.topics → IsMeasured (context snap cm cfg) t)
      → evaluate history cm cfg ≡ some fs
      → All SavesNotNeg fs
  unfolding context
  evaluate-SavesNotNeg history cm cfg snap fs found weight rate ratio replicas minimum exact
        measured =
      evaluate-RulesFind SavesNotNeg history cm cfg
        (λ last e.
          let same : last ≡ snap = some-injective _ _ (sym e ∙ found) in
          let prices = resolve-NotNeg laws cm (total_retained snap.topics) weight in
          rw same (
            rules_SavesNotNeg (context snap cm cfg)
              (record {
                storage = prices.0;
                network = prices.1;
                rate = rate;
                ratio = ratio;
                replicas = replicas;
                minimum = minimum;
                exact = exact;
              })
              measured))
        fs
