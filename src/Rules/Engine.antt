-- ===== src/Rules/Engine.antt =====
-- internal/rules/engine.go: the registry and `Evaluate`.
pub mod Lifting
pub mod Order
pub mod Total
use Prim.Native.String.{String}
use brod_cli.Base.{
  ℕ, Bool, true, false, not, ◌&&◌, Option, none, some, List, [], ◌∷◌, ◌++◌, foldl, leb, length,
  if◌then◌else◌,
}
use brod_cli.Base.Int.{ℤ, pos, ◌+ℤ◌, i64}
use brod_cli.Base.Sort.{sort}
use brod_cli.Base.Text.{str_lt}
use brod_cli.Base.Float.{Float, nought}
use brod_cli.Cost.{CostModel, resolve}
use brod_cli.Rules.Types.{Topic, Snapshot, SnapshotHistory, latest, Finding}
use brod_cli.Rules.Config.{RuleConfig, EvalCtx}
use brod_cli.Rules.DeadTopic.{eval_r1}
use brod_cli.Rules.ZombieGroup.{eval_r2}
use brod_cli.Rules.Retention.{eval_r3}
use brod_cli.Rules.Partitions.{eval_r4}
use brod_cli.Rules.Compression.{eval_r5}
use brod_cli.Rules.Replication.{eval_r6}
use brod_cli.Rules.Skew.{eval_r7}
use brod_cli.Rules.Internal.{eval_r8}

-- `none` is a panic of the rule.
pub record Rule (F : Type 0) : Type 0 where
  pub id : String
  pub static_capable : Bool
  pub eval : EvalCtx F → Option (List (Finding F))

-- `append(out, fs...)`, where either side may have panicked.
unfoldable pub append_all {ℓ} : {A : Type ℓ} → Option (List A) → Option (List A) → Option (List A)
append_all none _ = none
append_all (some xs) none = none
append_all (some xs) (some ys) = some (xs ++ ys)

module _ {F : Type 0} ⦃f : Float F⦄ where
  open f use {add, lt, eq}

  unfoldable pub registry : List (Rule F)
  registry =
      record { id = "R1"; static_capable = true; eval = λ ctx. some (eval_r1 ctx) }
      ∷ record { id = "R2"; static_capable = true; eval = λ ctx. some (eval_r2 ctx) }
      ∷ record { id = "R3"; static_capable = true; eval = λ ctx. some (eval_r3 ctx) }
      ∷ record { id = "R4"; static_capable = true; eval = λ ctx. some (eval_r4 ctx) }
      ∷ record { id = "R5"; static_capable = true; eval = λ ctx. some (eval_r5 ctx) }
      ∷ record { id = "R6"; static_capable = true; eval = λ ctx. some (eval_r6 ctx) }
      ∷ record { id = "R7"; static_capable = true; eval = eval_r7 }
      ∷ record { id = "R8"; static_capable = true; eval = λ ctx. some (eval_r8 ctx) }
      ∷ []

  -- `totalRetained`
  unfoldable pub total_retained : List (Topic F) → ℤ
  total_retained = foldl (λ sum t. i64 (sum +ℤ t.retained_bytes)) (pos 0)

  unfoldable pub context : Snapshot F → CostModel F → RuleConfig F → EvalCtx F
  context snap cm cfg = record {
    snap = snap;
    prices = resolve cm (total_retained snap.topics);
    cfg = cfg;
  }

  -- The body of the loop over the registry: `continue`, or what the rule finds.
  unfoldable pub rule_output : EvalCtx F → Bool → Rule F → Option (List (Finding F))
  rule_output ctx static_only r =
      if ctx.cfg.disabled r.id
      then some []
      else if static_only && not r.static_capable
      then some []
      else r.eval ctx

  unfoldable pub run_rules : EvalCtx F → Bool → List (Rule F) → Option (List (Finding F))
  run_rules ctx static_only [] = some []
  run_rules ctx static_only (r ∷ rs) =
      append_all (rule_output ctx static_only r) (run_rules ctx static_only rs)

  -- The order of the report: the larger saving first, then the rule id.
  unfoldable pub reports_before : Finding F → Finding F → Bool
  reports_before x y =
      if not (eq x.est_saving_eur y.est_saving_eur)
      then lt y.est_saving_eur x.est_saving_eur
      else str_lt x.rule_id y.rule_id

  -- `sort.SliceStable` on what the rules found.
  unfoldable pub sort_findings : Option (List (Finding F)) → Option (List (Finding F))
  sort_findings none = none
  sort_findings (some out) = some (sort reports_before out)

  unfoldable pub evaluate :
      SnapshotHistory F → CostModel F → RuleConfig F → Option (List (Finding F))
  evaluate history cm cfg = elim (latest history) [
    | none ↦ some []
    | some snap ↦ sort_findings (run_rules (context snap cm cfg) (leb (length history) 1) registry)
  ]

  unfoldable pub total_savings_eur : List (Finding F) → F
  total_savings_eur = foldl (λ t x. add t x.est_saving_eur) nought
