-- ===== src/Examples/Costs.antt =====
-- The theorems on prices and the allocation at small inputs.
use mathlib.Core.List.{map}
use brod_cli.Base.{ℕ, ◌≡◌, refl, false, List, [], ◌∷◌, All, arith}
use brod_cli.Base.Int.{ℤ, pos}
use brod_cli.Base.Float.{NotNeg}
use brod_cli.Base.Fixed.{fixed_float, fixed_IsIeee}
use brod_cli.Cost.{
  CostModel, TopicCostInput, effective_weights, is_zero_weights, total_throughput, resolve,
  allocate,
}
use brod_cli.Cost.Prices.{resolve-NotNeg}
use brod_cli.Cost.Allocation.{IsCounted, IsWeighting, allocate_idle, allocate-NotNeg}
use brod_cli.Examples.Samples.{program, model, rate}

abbrev paid : CostModel ℤ
paid = record model { monthly_cost_eur = rate 1000 }

abbrev input : ℕ → TopicCostInput ℤ
input n = record {
  name = "orders";
  retained_bytes = pos 750;
  bytes_in_per_sec = rate n;
  bytes_out_per_sec = rate 0;
  partitions = pos 3;
}

abbrev other : TopicCostInput ℤ
other = record (input 0) { name = "clicks"; retained_bytes = pos 250 }

abbrev idle_topics : List (TopicCostInput ℤ)
idle_topics = input 0 ∷ other ∷ []

abbrev busy_topics : List (TopicCostInput ℤ)
busy_topics = input 8 ∷ other ∷ []

-- Of 1000 € the two topics get 600, since the 40 % for the throughput are lost.
idle_costs : map (λ c. c.eur) (allocate paid idle_topics) ≡ rate 400 ∷ rate 200 ∷ []
unfolding program
idle_costs = refl

busy_costs : map (λ c. c.eur) (allocate paid busy_topics) ≡ rate 800 ∷ rate 200 ∷ []
unfolding program
busy_costs = refl

weight : NotNeg paid.weights.storage
weight = refl

resolve-NotNeg_example :
    NotNeg (resolve paid (pos 1000)).storage_eur_per_gb_mo
    × NotNeg (resolve paid (pos 1000)).network_eur_per_gb
resolve-NotNeg_example = resolve-NotNeg fixed_IsIeee paid (pos 1000) weight

given : is_zero_weights paid.weights ≡ false
unfolding program
given = refl

given_none : is_zero_weights (record paid.weights { throughput = rate 0 }) ≡ false
unfolding program
given_none = refl

idle : fixed_float.lt (rate 0) (total_throughput idle_topics) ≡ false
unfolding program
idle = refl

allocate_idle_example :
    map (λ c. c.eur) (allocate paid idle_topics)
    ≡ map
        (λ c. c.eur)
        (allocate
          (record paid { weights = record paid.weights { throughput = rate 0 } })
          idle_topics)
allocate_idle_example = allocate_idle paid (rate 0) idle_topics given given_none idle

weighting : IsWeighting (effective_weights paid)
unfolding program
weighting = record { storage = refl; throughput = refl; partition = refl }

counted : All IsCounted busy_topics
counted =
    let orders : IsCounted (input 8) = record {
      retained = omega arith;
      rate_in = refl;
      rate_out = refl;
      parts = omega arith;
    } in
    let clicks : IsCounted other = record {
      retained = omega arith;
      rate_in = refl;
      rate_out = refl;
      parts = omega arith;
    } in
    (orders, (clicks, tt))

allocate-NotNeg_example :
    (map (λ c. c.name) (allocate paid busy_topics) ≡ map (λ t. t.name) busy_topics)
    × All (λ c. NotNeg c.eur) (allocate paid busy_topics)
allocate-NotNeg_example = allocate-NotNeg fixed_IsIeee paid busy_topics weighting counted
