-- ===== src/Rules/Skew.antt =====
-- Rule R7, internal/rules/r7_skew.go. An index out of range is a panic, `none`.
use Prim.Native.Nat.{◌/◌, ◌%◌, ◌-◌}
use Prim.Native.String.{◌++◌}
use brod_cli.Base.{
  ℕ, false, ◌||◌, Option, none, some, List, [], ◌∷◌, ◌==◌, length, get_elem?, if◌then◌else◌,
}
use brod_cli.Base.Int.{ℤ, pos, ◌+ℤ◌, half, ltb_ℤ, leb_ℤ, i64}
use brod_cli.Base.Sort.{sort}
use brod_cli.Base.Float.{Float, nought}
use brod_cli.Rules.Types.{Topic, Finding, Evidence, high}
use brod_cli.Rules.Config.{EvalCtx}
use brod_cli.Rules.Helpers.{gb, round2, severity_for_bytes}

-- `sorted[i]`
abbrev at : List ℤ → ℕ → Option ℤ
at = get_elem?

unfoldable pub median_int64 : List ℤ → Option ℤ
median_int64 sorted =
    let n = length sorted in
    if n == 0
    then some (pos 0)
    else if n % 2 == 1
    then at sorted (n / 2)
    else elim (at sorted (n / 2 - 1)) [
      | none ↦ none
      | some a ↦ elim (at sorted (n / 2)) [ none ↦ none | some b ↦ some (half (i64 (a +ℤ b))) ]
    ]

-- `sizes[len(sizes)-1]`
unfoldable pub last : List ℤ → Option ℤ
last [] = none
last (x ∷ []) = some x
last (x ∷ y ∷ rest) = last (y ∷ rest)

-- The sizes in ascending order.
unfoldable pub sorted_sizes : List ℤ → List ℤ
unfolding sort
sorted_sizes = sort ltb_ℤ

module _ {F : Type 0} ⦃f : Float F⦄ where
  open f use {mul, div, le, of_int, fixed, quote}

  unfoldable pub r7_finding : EvalCtx F → Topic F → (med max_p : ℤ) → Finding F
  r7_finding ctx t med max_p =
      let skew : F = div (of_int max_p) (of_int med) in
      record {
        rule_id = "R7";
        rule_version = pos 1;
        title =
            "Partition skew on "
            ++ quote t.name
            ++ ": largest "
            ++ fixed 1 (gb max_p)
            ++ " GB vs "
            ++ fixed 1 (gb med)
            ++ " GB median";
        severity = severity_for_bytes t.retained_bytes;
        resource_key = "R7:" ++ t.name;
        evidence =
            ("max_partition_gb", Evidence.of_float (round2 (gb max_p)))
            ∷ ("median_partition_gb", Evidence.of_float (round2 (gb med)))
            ∷ ("skew_x", Evidence.of_float (round2 skew))
            ∷ ("partitions", Evidence.of_int (pos (length t.partition_bytes)))
            ∷ [];
        est_saving_eur = nought;
        basis =
            "reliability finding — €0 savings; flags an uneven keying/partitioning problem "
            ++ "(hot partition)";
        confidence = high;
        remediation = record {
          summary =
              "Investigate the partitioning key for "
              ++ quote t.name
              ++ " — one partition holds "
              ++ fixed 1 skew
              ++ "× the median size. Rebalancing requires a key/partitioner change (topic migration).";
          kafka_configs_cmd = "";
          terraform_diff = "";
          strimzi_yaml = "";
          one_click = false;
        };
      }

  -- The last guard, on the median and the largest size.
  unfoldable pub r7_skewed : EvalCtx F → Topic F → (med max_p : ℤ) → Option (Finding F)
  r7_skewed ctx t med max_p =
      if leb_ℤ med (pos 0) || le (of_int max_p) (mul ctx.cfg.r7.skew_factor (of_int med))
      then none
      else some (r7_finding ctx t med max_p)

  -- The body of the loop over the topics: a panic, `continue`, or a finding.
  unfoldable pub r7_topic : EvalCtx F → Topic F → Option (Option (Finding F))
  r7_topic ctx t =
      let cfg = ctx.cfg.r7 in
      let sizes = sorted_sizes t.partition_bytes in
      if ltb_ℤ (pos (length t.partition_bytes)) cfg.min_partitions
        || ltb_ℤ t.retained_bytes cfg.min_topic_bytes
      then some none
      else elim (median_int64 sizes) [
        | none ↦ none
        | some med ↦ elim (last sizes) [
          | none ↦ none
          | some max_p ↦ some (r7_skewed ctx t med max_p)
        ]
      ]

  -- `append(out, …)` where the body returned a finding.
  abbrev pub collect :
      Option (Option (Finding F)) → Option (List (Finding F)) → Option (List (Finding F))
  collect none _ = none
  collect (some _) none = none
  collect (some none) (some out) = some out
  collect (some (some x)) (some out) = some (x ∷ out)

  unfoldable pub r7_topics : EvalCtx F → List (Topic F) → Option (List (Finding F))
  r7_topics ctx [] = some []
  r7_topics ctx (t ∷ ts) = collect (r7_topic ctx t) (r7_topics ctx ts)

  unfoldable pub eval_r7 : EvalCtx F → Option (List (Finding F))
  eval_r7 ctx = r7_topics ctx ctx.snap.topics
