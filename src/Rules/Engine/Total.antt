-- ===== src/Rules/Engine/Total.antt =====
-- `Evaluate` does not panic, and reads the last snapshot only.
use Prim.Native.Nat.{◌/◌, ◌%◌, ◌-◌}
use mathlib.Core.List.{◌++◌ as append}
use brod_cli.Base.{
  ℕ, zero, suc, ◌<◌, ◌≡◌, refl, ap, Bool, true, not, ◌&&◌, ◌||◌, Option, none, some, inl, inr, List,
  [], ◌∷◌, ◌++◌, arith, All, leb, ◌==◌, length, get_elem?, Bool-cases, Option-cases,
}
use brod_cli.Base.Int.{ℤ, pos, ltb_ℤ, ◌≤ℤ◌, ◌+ℤ◌, half, i64}
use brod_cli.Base.Sort.{sort, length-sort}
use brod_cli.Base.Float.{Float}
use brod_cli.Cost.{CostModel}
use brod_cli.Rules.Types.{Topic, Finding, Snapshot, SnapshotHistory, latest}
use brod_cli.Rules.Config.{EvalCtx, RuleConfig}
use brod_cli.Rules.Skew.{
  last, median_int64, sorted_sizes, r7_skewed, r7_topic, r7_topics, eval_r7, collect,
}
use brod_cli.Rules.Engine.{
  Rule, reports_before, sort_findings, evaluate, run_rules, rule_output, append_all, context,
  registry,
}

-- There is a value.
abbrev pub Returns {ℓ} : {A : Type ℓ} → Option A → Type ℓ
Returns {A} m = (a : A) × (m ≡ some a)

get_elem?-Returns {ℓ} : {A : Type ℓ} (l : List A) (i : ℕ) → i < length l → Returns (get_elem? l i)
get_elem?-Returns [] i h = absurd (omega arith)
get_elem?-Returns (x ∷ xs) zero h = (x, refl)
get_elem?-Returns (x ∷ xs) (suc i) h = get_elem?-Returns xs i (omega arith)

pub last-Returns : (l : List ℤ) → 0 < length l → Returns (last l)
unfolding last
last-Returns [] h = absurd (omega arith)
last-Returns (x ∷ []) h = (x, refl)
last-Returns (x ∷ y ∷ l) h = last-Returns (y ∷ l) (omega arith)

-- Neither index of `medianInt64` is out of range.
pub median_int64-Returns : (l : List ℤ) → Returns (median_int64 l)
unfolding median_int64
median_int64-Returns [] = (pos 0, refl)
median_int64-Returns (x ∷ xs) =
    let l : List ℤ = x ∷ xs in
    let n = length l in
    let (b, e2) = get_elem?-Returns l (n / 2) (omega arith) in
    elim (Bool-cases (n % 2 == 1)) [
      | inl odd ↦ (b, ground arith)
      | inr even ↦
          let (a, e1) = get_elem?-Returns l (n / 2 - 1) (omega arith) in
          (half (i64 (a +ℤ b)), ground arith)
    ]

append_all-Returns {ℓ} :
    {A : Type ℓ} (m k : Option (List A)) → Returns m → Returns k → Returns (append_all m k)
unfolding append_all
append_all-Returns m k (xs, e1) (ys, e2) = (xs ++ ys, ground arith)

registry_static :
    (F : Type 0) ⦃f : Float F⦄ → All {A = Rule F} (λ r. r.static_capable ≡ true) registry
unfolding registry
registry_static F = (refl, (refl, (refl, (refl, (refl, (refl, (refl, (refl, tt))))))))

latest-append_one : {A : Type 0} (older : List A) (x : A) → latest (append older (x ∷ [])) ≡ some x
unfolding latest
latest-append_one [] x = refl
latest-append_one (y ∷ []) x = refl
latest-append_one (y ∷ z ∷ older) x = latest-append_one (z ∷ older) x

module _ {F : Type 0} ⦃f : Float F⦄ where
  r7_topic-Returns :
      (ctx : EvalCtx F) (t : Topic F)
      → pos 1 ≤ℤ ctx.cfg.r7.min_partitions
      → Returns (r7_topic ctx t)
  unfolding r7_topic sorted_sizes
  r7_topic-Returns ctx t h =
      elim (Bool-cases (
        ltb_ℤ (pos (length t.partition_bytes)) ctx.cfg.r7.min_partitions
        || ltb_ℤ t.retained_bytes ctx.cfg.r7.min_topic_bytes)) [
          | inl skip ↦ (none, ground arith)
          | inr run ↦
              let sizes = sorted_sizes t.partition_bytes in
              let (med, e1) = median_int64-Returns sizes in
              let (max_p, e2) =
                last-Returns sizes (ground (arith, length-sort ltb_ℤ t.partition_bytes)) in
              (r7_skewed ctx t med max_p, ground arith)
        ]

  collect-Returns :
      (m : Option (Option (Finding F))) (k : Option (List (Finding F)))
      → Returns m
      → Returns k
      → Returns (collect m k)
  collect-Returns m k (none, e1) (ys, e2) = (ys, ground arith)
  collect-Returns m k (some x, e1) (ys, e2) = (x ∷ ys, ground arith)

  r7_topics-Returns :
      (ctx : EvalCtx F) (ts : List (Topic F))
      → pos 1 ≤ℤ ctx.cfg.r7.min_partitions
      → Returns (r7_topics ctx ts)
  unfolding r7_topics
  r7_topics-Returns ctx [] h = ([], refl)
  r7_topics-Returns ctx (t ∷ ts) h =
      collect-Returns (r7_topic ctx t) (r7_topics ctx ts) (r7_topic-Returns ctx t h)
        (r7_topics-Returns ctx ts h)

  rule_output-Returns :
      (ctx : EvalCtx F) (b : Bool) (r : Rule F)
      → Returns (r.eval ctx)
      → Returns (rule_output ctx b r)
  unfolding rule_output
  rule_output-Returns ctx b r (out, e) = elim (Bool-cases (ctx.cfg.disabled r.id)) [
    | inl off ↦ ([], ground arith)
    | inr on ↦ elim (Bool-cases (b && not r.static_capable)) [
      | inl skip ↦ ([], ground arith)
      | inr run ↦ (out, ground arith)
    ]
  ]

  run_rules-Returns :
      (ctx : EvalCtx F) (b : Bool) (rs : List (Rule F))
      → All (λ r. Returns (r.eval ctx)) rs
      → Returns (run_rules ctx b rs)
  unfolding run_rules
  run_rules-Returns ctx b [] _ = ([], refl)
  run_rules-Returns ctx b (r ∷ rs) (h, hs) =
      append_all-Returns (rule_output ctx b r) (run_rules ctx b rs) (rule_output-Returns ctx b r h)
        (run_rules-Returns ctx b rs hs)

  registry-Returns :
      (ctx : EvalCtx F)
      → pos 1 ≤ℤ ctx.cfg.r7.min_partitions
      → All (λ r. Returns (r.eval ctx)) registry
  unfolding registry eval_r7
  registry-Returns ctx h =
      let skew = r7_topics-Returns ctx ctx.snap.topics h in
      (
        (_, refl),
        ((_, refl), ((_, refl), ((_, refl), ((_, refl), ((_, refl), (skew, ((_, refl), tt))))))),
      )

  -- If rule R7 asks for at least one partition, `Evaluate` returns a report for every history and
  -- cost model: no index is out of range, however few partition sizes a topic carries.
  pub evaluate-Returns :
      (history : SnapshotHistory F) (cm : CostModel F) (cfg : RuleConfig F)
      → pos 1 ≤ℤ cfg.r7.min_partitions
      → Returns (evaluate history cm cfg)
  unfolding evaluate sort_findings context
  evaluate-Returns history cm cfg h = elim (Option-cases (latest history)) [
    | inl nothing ↦ ([], ground arith)
    | inr (snap, found) ↦
        let ctx = context snap cm cfg in
        let b = leb (length history) 1 in
        let (out, ran) = run_rules-Returns ctx b registry (registry-Returns ctx h) in
        (sort reports_before out, ground arith)
  ]

  rule_output_static :
      (ctx : EvalCtx F) (b c : Bool) (r : Rule F)
      → r.static_capable ≡ true
      → rule_output ctx b r ≡ rule_output ctx c r
  unfolding rule_output
  rule_output_static ctx b c r h = ground arith

  run_rules_static :
      (ctx : EvalCtx F) (b c : Bool) (rs : List (Rule F))
      → All (λ r. r.static_capable ≡ true) rs
      → run_rules ctx b rs ≡ run_rules ctx c rs
  unfolding run_rules
  run_rules_static ctx b c [] _ = refl
  run_rules_static ctx b c (r ∷ rs) (h, hs) =
      rw (rule_output_static ctx b c r h, run_rules_static ctx b c rs hs)

  -- The report of a history that ends in a snapshot is that of this snapshot alone: with the rules
  -- registered today, all of them static, the older snapshots change nothing.
  pub evaluate-latest :
      (older : SnapshotHistory F) (snap : Snapshot F) (cm : CostModel F) (cfg : RuleConfig F)
      → evaluate (append older (snap ∷ [])) cm cfg ≡ evaluate (snap ∷ []) cm cfg
  unfolding evaluate latest
  evaluate-latest older snap cm cfg =
      let history = append older (snap ∷ []) in
      rw (latest-append_one older snap, evaluate)
        (ap sort_findings (
          run_rules_static (context snap cm cfg) (leb (length history) 1) true registry
            (registry_static F)))
