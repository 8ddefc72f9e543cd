-- ===== src/Rules/Engine/Order.antt =====
-- The order of the report of `Evaluate`.
use mathlib.Core.List.{Perm}
use brod_cli.Base.{
  ◌≡◌, true, false, some, List, arith, All, leb, length, ◌⊎◌, inl, inr, Bool-cases, ◌∷◌, [],
}
use brod_cli.Base.Sort.{sort, IsSorted, IsWeakOrder, sort-IsSorted, sort-perm}
use brod_cli.Base.Text.{str_lt}
use brod_cli.Base.Text.Order.{str_lt_asymm, str_lt_neg_trans}
use brod_cli.Base.Float.{Float, IsIeee, IsNum}
use brod_cli.Cost.{CostModel}
use brod_cli.Rules.Types.{Finding, Snapshot, SnapshotHistory, latest}
use brod_cli.Rules.Config.{RuleConfig}
use brod_cli.Rules.Engine.{sort_findings, evaluate, run_rules, context, registry, reports_before}

module _ {F : Type 0} ⦃f : Float F⦄ where
  -- The saving of a finding is not NaN.
  abbrev pub HasNumber : Finding F → Type 0
  HasNumber x = IsNum x.est_saving_eur

  -- The second finding does not save more, and where both save the same, its rule id is not the
  -- smaller one.
  abbrev pub InOrder : Finding F → Finding F → Type 0
  InOrder x y =
      (f.lt x.est_saving_eur y.est_saving_eur ≡ false)
      × ((f.eq x.est_saving_eur y.est_saving_eur ≡ false) ⊎ (str_lt y.rule_id x.rule_id ≡ false))

  -- Each finding and each one behind it are in this order.
  abbrev pub Ordered : List (Finding F) → Type 0
  Ordered [] = Unit
  Ordered (x ∷ xs) = All (InOrder x) xs × Ordered xs

module _ {F : Type 0} ⦃f : Float F⦄ (laws : IsIeee F) where
  open laws use {lt_asymm, lt_trans, trichotomy, eq_symm, eq_trans, lt-ne, lt_eq_trans, eq_lt_trans}

  before_asymm :
      (x y : Finding F)
      → HasNumber x
      → HasNumber y
      → reports_before x y ≡ true
      → reports_before y x ≡ false
  unfolding reports_before
  before_asymm x y px py h =
      let a = x.est_saving_eur in
      let b = y.est_saving_eur in
      ground (arith, lt_asymm b a, eq_symm a b, eq_symm b a, str_lt_asymm x.rule_id y.rule_id)

  before_neg_trans :
      (x y z : Finding F)
      → HasNumber x
      → HasNumber y
      → HasNumber z
      → reports_before y x ≡ false
      → reports_before z y ≡ false
      → reports_before z x ≡ false
  unfolding reports_before
  before_neg_trans x y z px py pz h k =
      let a = x.est_saving_eur in
      let b = y.est_saving_eur in
      let c = z.est_saving_eur in
      ground (
        arith,
        trichotomy a b px py,
        trichotomy b c py pz,
        eq_symm a b,
        eq_symm b c,
        lt-ne c a,
        lt-ne b a,
        lt-ne a b,
        lt-ne c b,
        lt-ne b c,
        lt_asymm c a,
        lt_trans c b a,
        eq_lt_trans c b a,
        lt_eq_trans c b a,
        eq_trans c b a,
        str_lt_neg_trans x.rule_id y.rule_id z.rule_id,
      )

  not_before-InOrder : (x y : Finding F) → reports_before y x ≡ false → InOrder x y
  unfolding reports_before
  not_before-InOrder x y h =
      let a = x.est_saving_eur in
      let b = y.est_saving_eur in
      elim (Bool-cases (f.eq a b)) [
        | inl same ↦ (ground (arith, lt-ne a b, eq_symm a b), inr (ground (arith, eq_symm a b, h)))
        | inr apart ↦ (ground (arith, eq_symm b a, h), inl apart)
      ]

  before_order : IsWeakOrder (reports_before {F = F}) HasNumber
  before_order = record { asymm = before_asymm; neg_trans = before_neg_trans }

  rows_InOrder :
      (x : Finding F) (ys : List (Finding F))
      → All (λ y. reports_before y x ≡ false) ys
      → All (InOrder x) ys
  rows_InOrder x [] _ = tt
  rows_InOrder x (y ∷ ys) (h, hs) = (not_before-InOrder x y h, rows_InOrder x ys hs)

  IsSorted-Ordered : (fs : List (Finding F)) → IsSorted reports_before fs → Ordered fs
  IsSorted-Ordered [] _ = tt
  IsSorted-Ordered (x ∷ xs) (h, hs) = (rows_InOrder x xs h, IsSorted-Ordered xs hs)

  -- If the rules return findings on the last snapshot and no saving of them is NaN, the report is
  -- ordered: of two findings the later one neither saves more nor, at equal savings, has the
  -- smaller rule id. And it holds the findings that the rules return, each as often as they do.
  pub evaluate-IsSorted :
      (history : SnapshotHistory F) (cm : CostModel F) (cfg : RuleConfig F) (snap : Snapshot F)
      (out fs : List (Finding F))
      → latest history ≡ some snap
      → run_rules (context snap cm cfg) (leb (length history) 1) registry ≡ some out
      → All HasNumber out
      → evaluate history cm cfg ≡ some fs
      → Ordered fs × Perm fs out
  unfolding evaluate sort_findings
  evaluate-IsSorted history cm cfg snap out fs found ran numbers e =
      let sorted : sort reports_before out ≡ fs = ground arith in
      rw (← sorted) (
        IsSorted-Ordered _ (sort-IsSorted reports_before HasNumber before_order out numbers),
        sort-perm reports_before out,
      )
