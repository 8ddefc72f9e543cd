-- ===== src/Cost.antt =====
-- internal/cost/cost.go: unit prices from the cost model, and the allocation of a cluster's monthly
-- cost to its topics.
pub mod Prices
pub mod Allocation
use Prim.Native.String.{String, ◌++◌}
use text.Mathlib.Text.{◌==◌ as str_eq}
use brod_cli.Base.{ℕ, Bool, true, false, ◌&&◌, List, [], ◌∷◌, map, foldl, if◌then◌else◌}
use brod_cli.Base.Int.{ℤ, pos, ◌+ℤ◌, ltb_ℤ, i64}
use brod_cli.Base.Float.{Float, nought}

pub record Weights (F : Type 0) : Type 0 where
  pub storage : F
  pub throughput : F
  pub partition : F

pub record CostModel (F : Type 0) : Type 0 where
  pub provider : String
  pub monthly_cost_eur : F
  pub storage_eur_per_gb_mo : F
  pub network_eur_per_gb : F
  pub weights : Weights F

pub record UnitPrices (F : Type 0) : Type 0 where
  pub storage_eur_per_gb_mo : F
  pub storage_basis : String
  pub network_eur_per_gb : F
  pub network_basis : String

pub record TopicCostInput (F : Type 0) : Type 0 where
  pub name : String
  pub retained_bytes : ℤ
  pub bytes_in_per_sec : F
  pub bytes_out_per_sec : F
  pub partitions : ℤ

pub record TopicCost (F : Type 0) : Type 0 where
  pub name : String
  pub eur : F
  pub basis : String

unfoldable pub provider_label : String → String
provider_label p = if str_eq p "" then "self-hosted" else p

module _ {F : Type 0} ⦃f : Float F⦄ where
  open f use {add, mul, div, lt, eq, lit, of_int, fixed}

  abbrev pub bytes_per_gb : F
  bytes_per_gb = lit 1_000_000_000 0

  abbrev pub seconds_per_month : F
  seconds_per_month = lit 2_592_000 0

  unfoldable pub default_weights : Weights F
  default_weights = record { storage = lit 40 2; throughput = lit 40 2; partition = lit 20 2 }

  -- Assumed prices, storage and network, of a provider.
  unfoldable pub provider_preset : String → F × F
  provider_preset provider =
      if str_eq provider "confluent"
      then (lit 12 2, lit 4 2)
      else if str_eq provider "msk"
      then (lit 11 2, lit 2 2)
      else (lit 8 2, lit 1 2)

  -- `w == (Weights{})`
  unfoldable pub is_zero_weights : Weights F → Bool
  is_zero_weights w = eq w.storage nought && (eq w.throughput nought && eq w.partition nought)

  -- The first lines of `Resolve` and of `Allocate`.
  unfoldable pub effective_weights : CostModel F → Weights F
  effective_weights m = if is_zero_weights m.weights then default_weights else m.weights

  -- The `switch` of `Resolve`: the storage price and its basis.
  unfoldable pub storage_price : CostModel F → ℤ → F × String
  storage_price m total_retained_bytes =
      let total_gb : F = div (of_int total_retained_bytes) bytes_per_gb in
      let w : Weights F = effective_weights m in
      let preset : F = (provider_preset m.provider).0 in
      if lt nought m.storage_eur_per_gb_mo
      then (
        m.storage_eur_per_gb_mo,
        "configured (" ++ fixed 4 m.storage_eur_per_gb_mo ++ " €/GB-mo)",
      )
      else if lt nought m.monthly_cost_eur && ltb_ℤ (pos 0) total_retained_bytes
      then (
        div (mul m.monthly_cost_eur w.storage) total_gb,
        "derived: "
            ++ fixed 0 m.monthly_cost_eur
            ++ "€/mo × "
            ++ fixed 0 (mul w.storage (lit 100 0))
            ++ "% storage weight ÷ "
            ++ fixed 1 total_gb
            ++ " GB retained",
      )
      else (
        preset,
        "assumed: "
            ++ provider_label m.provider
            ++ " preset ("
            ++ fixed 4 preset
            ++ " €/GB-mo) — give --cost for a derived rate",
      )

  -- The last test of `Resolve`: the network price and its basis.
  unfoldable pub network_price : CostModel F → F × String
  network_price m =
      let preset : F = (provider_preset m.provider).1 in
      if lt nought m.network_eur_per_gb
      then (m.network_eur_per_gb, "configured (" ++ fixed 4 m.network_eur_per_gb ++ " €/GB)")
      else (
        preset,
        "assumed: " ++ provider_label m.provider ++ " preset (" ++ fixed 4 preset ++ " €/GB)",
      )

  unfoldable pub resolve : CostModel F → ℤ → UnitPrices F
  resolve m total_retained_bytes =
      let storage = storage_price m total_retained_bytes in
      let network = network_price m in
      record {
        storage_eur_per_gb_mo = storage.0;
        storage_basis = storage.1;
        network_eur_per_gb = network.0;
        network_basis = network.1;
      }

  unfoldable pub monthly_gb : F → F
  monthly_gb bytes_per_sec = div (mul bytes_per_sec seconds_per_month) bytes_per_gb

  -- The totals of `Allocate`'s first loop.
  unfoldable pub total_bytes : List (TopicCostInput F) → F
  total_bytes = foldl (λ sum t. add sum (of_int t.retained_bytes)) nought

  unfoldable pub total_throughput : List (TopicCostInput F) → F
  total_throughput = foldl (λ sum t. add sum (add t.bytes_in_per_sec t.bytes_out_per_sec)) nought

  unfoldable pub total_partitions : List (TopicCostInput F) → ℤ
  total_partitions = foldl (λ sum t. i64 (sum +ℤ t.partitions)) (pos 0)

  unfoldable pub weighted_share : Weights F → TopicCostInput F → F → F → ℤ → F
  weighted_share w t tot_bytes tot_thru tot_parts =
      let s0 : F = nought in
      let s1 : F =
        if lt nought tot_bytes
        then add s0 (mul w.storage (div (of_int t.retained_bytes) tot_bytes))
        else s0 in
      let s2 : F =
        if lt nought tot_thru
        then add s1 (mul w.throughput (div (add t.bytes_in_per_sec t.bytes_out_per_sec) tot_thru))
        else s1 in
      if ltb_ℤ (pos 0) tot_parts
      then add s2 (mul w.partition (div (of_int t.partitions) (of_int tot_parts)))
      else s2

  -- The body of `Allocate`'s second loop.
  unfoldable pub topic_cost : CostModel F → Weights F → F → F → ℤ → TopicCostInput F → TopicCost F
  topic_cost m w tot_bytes tot_thru tot_parts t =
      if f.le m.monthly_cost_eur nought
      then record {
        name = t.name;
        eur = nought;
        basis = "no cluster cost given — set --cost to allocate";
      }
      else record {
        name = t.name;
        eur = mul m.monthly_cost_eur (weighted_share w t tot_bytes tot_thru tot_parts);
        basis =
            "allocated from "
            ++ fixed 0 m.monthly_cost_eur
            ++ "€/mo using "
            ++ fixed 0 (mul w.storage (lit 100 0))
            ++ "/"
            ++ fixed 0 (mul w.throughput (lit 100 0))
            ++ "/"
            ++ fixed 0 (mul w.partition (lit 100 0))
            ++ " weights";
      }

  unfoldable pub allocate : CostModel F → List (TopicCostInput F) → List (TopicCost F)
  allocate m topics =
      map
        (topic_cost m (effective_weights m) (total_bytes topics) (total_throughput topics)
          (total_partitions topics))
        topics
