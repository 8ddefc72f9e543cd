-- ===== src/Rules/Engine/Lifting.antt =====
-- From the rules to `Evaluate`: a property of every finding of every rule holds of the report.
use Prim.Native.String.{String}
use mathlib.Core.List.{filter_map, Mem}
use mathlib.Core.Option.{some-injective}
use brod_cli.Base.{
  not, ◌&&◌, leb, length, ◌≡◌, refl, Bool, false, ◌⊎◌, inl, inr, Option, none, some, List, [], ◌∷◌,
  ◌++◌, arith, All, All-append, All-filter_map, All-mem, Option-cases, Bool-cases,
}
use brod_cli.Base.Int.{ℤ}
use brod_cli.Base.Sort.{sort, sort-All}
use brod_cli.Base.Float.{Float}
use brod_cli.Cost.{CostModel}
use brod_cli.Rules.Types.{Topic, ConsumerGrp, Finding, Snapshot, SnapshotHistory, latest}
use brod_cli.Rules.Config.{EvalCtx, RuleConfig}
use brod_cli.Rules.DeadTopic.{r1_topic, eval_r1}
use brod_cli.Rules.ZombieGroup.{r2_group, eval_r2}
use brod_cli.Rules.Retention.{r3_topic, eval_r3}
use brod_cli.Rules.Partitions.{r4_topic, eval_r4}
use brod_cli.Rules.Compression.{r5_topic, eval_r5}
use brod_cli.Rules.Replication.{r6_topic, eval_r6}
use brod_cli.Rules.Skew.{
  r7_skewed, r7_topic, r7_topics, eval_r7, collect, sorted_sizes, median_int64, last,
}
use brod_cli.Rules.Internal.{r8_topic, eval_r8}
use brod_cli.Rules.Engine.{
  Rule, append_all, registry, context, rule_output, run_rules, reports_before, sort_findings,
  evaluate,
}

module _ {ℓ} {A : Type ℓ} where
  pub append_all-eq-some :
      (m k : Option (List A)) {out : List A}
      → append_all m k ≡ some out
      → (xs : List A) × (ys : List A) × (m ≡ some xs) × (k ≡ some ys) × (out ≡ xs ++ ys)
  unfolding append_all
  append_all-eq-some none k e = cc
  append_all-eq-some (some xs) none e = cc
  append_all-eq-some (some xs) (some ys) e = (xs, ys, refl, refl, ground arith)

module _ {F : Type 0} ⦃f : Float F⦄ where
  -- Every finding of the rule in the context has the property.
  abbrev pub Finds : (Finding F → Type 0) → Option (List (Finding F)) → Type 0
  Finds P m = (out : List (Finding F)) → m ≡ some out → All P out

  run_rules-Finds :
      (P : Finding F → Type 0) (ctx : EvalCtx F) (static_only : Bool) (rs : List (Rule F))
      → All (λ r. Finds P (rule_output ctx static_only r)) rs
      → Finds P (run_rules ctx static_only rs)
  unfolding run_rules
  run_rules-Finds P ctx b [] _ out e = ground arith
  run_rules-Finds P ctx b (r ∷ rs) (h, hs) out e =
      let (xs, ys, e1, e2, e3) = append_all-eq-some (rule_output ctx b r) (run_rules ctx b rs) e in
      rw e3 (All-append P xs ys (h xs e1) (run_rules-Finds P ctx b rs hs ys e2))

  -- A report is empty, for an empty history, or the sorted findings of the last snapshot.
  pub evaluate-eq-some :
      (history : SnapshotHistory F) (cm : CostModel F) (cfg : RuleConfig F) {fs : List (Finding F)}
      → evaluate history cm cfg ≡ some fs
      → (fs ≡ [])
        ⊎ ((snap : Snapshot F) × (out : List (Finding F)) × (latest history ≡ some snap)
            × (run_rules (context snap cm cfg) (leb (length history) 1) registry ≡ some out)
            × (fs ≡ sort reports_before out))
  unfolding evaluate sort_findings
  evaluate-eq-some history cm cfg e = elim (Option-cases (latest history)) [
    | inl none_left ↦ inl (ground arith)
    | inr (snap, found) ↦
        elim (Option-cases (run_rules (context snap cm cfg) (leb (length history) 1) registry)) [
          | inl panic ↦ absurd (ground arith)
          | inr (out, ran) ↦ inr (snap, out, found, ran, ground arith)
        ]
  ]

  pub evaluate-Finds :
      (P : Finding F → Type 0) (history : SnapshotHistory F) (cm : CostModel F) (cfg : RuleConfig F)
      → ((snap : Snapshot F) (b : Bool)
          → latest history ≡ some snap
          → All (λ r. Finds P (rule_output (context snap cm cfg) b r)) registry)
      → Finds P (evaluate history cm cfg)
  evaluate-Finds P history cm cfg h fs e = elim (evaluate-eq-some history cm cfg e) [
    | inl nothing ↦ rw nothing tt
    | inr (snap, out, found, ran, ordered) ↦
        let ctx = context snap cm cfg in
        let b = leb (length history) 1 in
        rw ordered (
          sort-All reports_before P out (run_rules-Finds P ctx b registry (h snap b found) out ran))
  ]

  abbrev pub IsOn : EvalCtx F → String → Type 0
  IsOn ctx id = ctx.cfg.disabled id ≡ false

  -- A property of the findings of each of the eight rules, by the body of the rule's loop.
  pub record RulesFind (P : Finding F → Type 0) (ctx : EvalCtx F) : Type 0 where
    pub r1 :
        IsOn ctx "R1"
        → (t : Topic F) → Mem t ctx.snap.topics
        → (x : Finding F) → r1_topic ctx t ≡ some x
        → P x
    pub r2 :
        IsOn ctx "R2"
        → (g : ConsumerGrp) → Mem g ctx.snap.groups
        → (x : Finding F) → r2_group ctx g ≡ some x
        → P x
    pub r3 :
        IsOn ctx "R3"
        → (t : Topic F) → Mem t ctx.snap.topics
        → (x : Finding F) → r3_topic ctx t ≡ some x
        → P x
    pub r4 :
        IsOn ctx "R4"
        → (t : Topic F) → Mem t ctx.snap.topics
        → (x : Finding F) → r4_topic ctx t ≡ some x
        → P x
    pub r5 :
        IsOn ctx "R5"
        → (t : Topic F) → Mem t ctx.snap.topics
        → (x : Finding F) → r5_topic ctx t ≡ some x
        → P x
    pub r6 :
        IsOn ctx "R6"
        → (t : Topic F) → Mem t ctx.snap.topics
        → (x : Finding F) → r6_topic ctx t ≡ some x
        → P x
    pub r7 :
        IsOn ctx "R7"
        → (t : Topic F) → Mem t ctx.snap.topics
        → (med max_p : ℤ) (x : Finding F) → r7_skewed ctx t med max_p ≡ some x
        → P x
    pub r8 :
        IsOn ctx "R8"
        → (t : Topic F) → Mem t ctx.snap.topics
        → (x : Finding F) → r8_topic ctx t ≡ some x
        → P x

  r7_topic-eq-some :
      (ctx : EvalCtx F) (t : Topic F) {x : Finding F}
      → r7_topic ctx t ≡ some (some x)
      → (med : ℤ) × (max_p : ℤ) × (r7_skewed ctx t med max_p ≡ some x)
  unfolding r7_topic
  r7_topic-eq-some ctx t e =
      let sizes = sorted_sizes t.partition_bytes in
      elim (Option-cases (median_int64 sizes)) [
        | inl no_median ↦ absurd (ground arith)
        | inr (med, e1) ↦ elim (Option-cases (last sizes)) [
          | inl empty ↦ absurd (ground arith)
          | inr (max_p, e2) ↦ (med, max_p, ground arith)
        ]
      ]

  collect-Finds :
      (P : Finding F → Type 0) (m : Option (Option (Finding F))) (k : Option (List (Finding F)))
      → ((x : Finding F) → m ≡ some (some x) → P x)
      → Finds P k
      → Finds P (collect m k)
  collect-Finds P none k h hs out e = cc
  collect-Finds P (some m) none h hs out e = cc
  collect-Finds P (some none) (some ys) h hs out e = hs out e
  collect-Finds P (some (some x)) (some ys) h hs out e =
      rw (← some-injective _ _ e) (h x refl, hs ys refl)

  r7_topics-Finds :
      (P : Finding F → Type 0) (ctx : EvalCtx F) (ts : List (Topic F))
      → All (λ t. (x : Finding F) → r7_topic ctx t ≡ some (some x) → P x) ts
      → Finds P (r7_topics ctx ts)
  unfolding r7_topics
  r7_topics-Finds P ctx [] h out e = rw (← some-injective _ _ e) tt
  r7_topics-Finds P ctx (t ∷ ts) (h, hs) out e =
      collect-Finds P (r7_topic ctx t) (r7_topics ctx ts) h (r7_topics-Finds P ctx ts hs) out e

  -- Every loop collects what its body returns.
  filter_map-Finds {ℓ} :
      {A : Type ℓ} (P : Finding F → Type 0) (body : A → Option (Finding F)) (xs : List A)
      → ((a : A) → Mem a xs → (x : Finding F) → body a ≡ some x → P x)
      → Finds P (some (filter_map body xs))
  filter_map-Finds P body xs h out e =
      rw (← some-injective _ _ e)
        (All-filter_map (λ a. Mem a xs) P body (λ a x m. h a m x) xs (All-mem _ xs (λ a m. m)))

  rule_output-Finds :
      (P : Finding F → Type 0) (ctx : EvalCtx F) (b : Bool) (r : Rule F)
      → (ctx.cfg.disabled r.id ≡ false → Finds P (r.eval ctx))
      → Finds P (rule_output ctx b r)
  unfolding rule_output
  rule_output-Finds P ctx b r h out e = elim (Bool-cases (ctx.cfg.disabled r.id)) [
    | inl off ↦ let nothing : [] ≡ out = ground arith in rw (← nothing) tt
    | inr on ↦ elim (Bool-cases (b && not r.static_capable)) [
      | inl skip ↦ let nothing : [] ≡ out = ground arith in rw (← nothing) tt
      | inr run ↦ h on out (ground arith)
    ]
  ]

  -- A property of the findings of every loop body holds of every finding of the report.
  pub evaluate-RulesFind :
      (P : Finding F → Type 0) (history : SnapshotHistory F) (cm : CostModel F) (cfg : RuleConfig F)
      → ((snap : Snapshot F) → latest history ≡ some snap → RulesFind P (context snap cm cfg))
      → Finds P (evaluate history cm cfg)
  unfolding registry eval_r1 eval_r2 eval_r3 eval_r4 eval_r5 eval_r6 eval_r7 eval_r8
  evaluate-RulesFind P history cm cfg h = evaluate-Finds P history cm cfg λ snap b found.
      let ctx = context snap cm cfg in
      let topics = ctx.snap.topics in
      let rules = h snap found in
      let on = rule_output-Finds P ctx b in
      let skew =
        λ (is_on : IsOn ctx "R7") (t : Topic F) (m : Mem t topics) (x : Finding F)
            (e : r7_topic ctx t ≡ some (some x)).
          let (med, max_p, found) = r7_topic-eq-some ctx t e in
          rules.r7 is_on t m med max_p x found in
      (
        on _ (λ o. filter_map-Finds P (r1_topic ctx) topics (rules.r1 o)),
        (
          on _ (λ o. filter_map-Finds P (r2_group ctx) ctx.snap.groups (rules.r2 o)),
          (
            on _ (λ o. filter_map-Finds P (r3_topic ctx) topics (rules.r3 o)),
            (
              on _ (λ o. filter_map-Finds P (r4_topic ctx) topics (rules.r4 o)),
              (
                on _ (λ o. filter_map-Finds P (r5_topic ctx) topics (rules.r5 o)),
                (
                  on _ (λ o. filter_map-Finds P (r6_topic ctx) topics (rules.r6 o)),
                  (
                    on _ (λ o. r7_topics-Finds P ctx topics (All-mem _ topics (skew o))),
                    (on _ (λ o. filter_map-Finds P (r8_topic ctx) topics (rules.r8 o)), tt),
                  ),
                ),
              ),
            ),
          ),
        ),
      )
