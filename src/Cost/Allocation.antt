-- ===== src/Cost/Allocation.antt =====
-- What `Allocate` gives each topic.
use brod_cli.Base.{
  ◌≡◌, refl, Bool, true, false, List, [], ◌∷◌, map, All, arith, Bool-cases, inl, inr, if◌then◌else◌,
}
use brod_cli.Base.Int.{ℤ, pos, ◌≤ℤ◌, ltb_ℤ}
use brod_cli.Base.Float.{Float, IsIeee, NotNeg, nought}
use brod_cli.Base.Signs.{of_ℤ-NotNeg, of_ℤ-IsPos, not-le-NotNeg}
use brod_cli.Cost.{
  Weights, CostModel, TopicCostInput, is_zero_weights, effective_weights, weighted_share,
  topic_cost, total_bytes, total_throughput, total_partitions, allocate,
}

module _ {F : Type 0} ⦃f : Float F⦄ where
  weighted_share_idle :
      (w : Weights F) (thru bytes tot : F) (parts : ℤ) (t : TopicCostInput F)
      → f.lt nought tot ≡ false
      → weighted_share w t bytes tot parts
        ≡ weighted_share (record w { throughput = thru }) t bytes tot parts
  unfolding weighted_share
  weighted_share_idle w thru bytes tot parts t h = rw h

  topic_cost_idle :
      (m n : CostModel F) (w : Weights F) (thru bytes tot : F) (parts : ℤ) (t : TopicCostInput F)
      → m.monthly_cost_eur ≡ n.monthly_cost_eur
      → f.lt nought tot ≡ false
      → (topic_cost m w bytes tot parts t).eur
        ≡ (topic_cost n (record w { throughput = thru }) bytes tot parts t).eur
  unfolding topic_cost
  topic_cost_idle m n w thru bytes tot parts t same h =
      ground (arith, weighted_share_idle w thru bytes tot parts t h)

  costs_idle :
      (m n : CostModel F) (w : Weights F) (thru bytes tot : F) (parts : ℤ)
      (ts : List (TopicCostInput F))
      → m.monthly_cost_eur ≡ n.monthly_cost_eur
      → f.lt nought tot ≡ false
      → map (λ c. c.eur) (map (topic_cost m w bytes tot parts) ts)
        ≡ map (λ c. c.eur) (map (topic_cost n (record w { throughput = thru }) bytes tot parts) ts)
  costs_idle m n w thru bytes tot parts [] same h = refl
  costs_idle m n w thru bytes tot parts (t ∷ ts) same h = cc (
    topic_cost_idle m n w thru bytes tot parts t same h,
    costs_idle m n w thru bytes tot parts ts same h,
  )

  given_weights :
      (m : CostModel F) → is_zero_weights m.weights ≡ false → effective_weights m ≡ m.weights
  unfolding effective_weights
  given_weights m h = rw h

  -- Where the topics have no throughput in total, and the weights are not all zero with the given
  -- throughput weight or with another one, the euros of all topics are the same with both: the
  -- throughput weight's part of the monthly cost goes to no topic.
  pub allocate_idle :
      (m : CostModel F) (thru : F) (ts : List (TopicCostInput F))
      → is_zero_weights m.weights ≡ false
      → is_zero_weights (record m.weights { throughput = thru }) ≡ false
      → f.lt nought (total_throughput ts) ≡ false
      → map (λ c. c.eur) (allocate m ts)
        ≡ map
            (λ c. c.eur)
            (allocate (record m { weights = record m.weights { throughput = thru } }) ts)
  unfolding allocate
  allocate_idle m thru ts g1 g2 h =
      let n : CostModel F = record m { weights = record m.weights { throughput = thru } } in
      rw (given_weights m g1, given_weights n g2)
        (costs_idle m n m.weights thru (total_bytes ts) (total_throughput ts) (total_partitions ts)
          ts refl h)

  -- A topic with sizes, rates and partitions that are not below zero.
  pub record IsCounted (t : TopicCostInput F) : Type 0 where
    pub retained : pos 0 ≤ℤ t.retained_bytes
    pub rate_in : NotNeg t.bytes_in_per_sec
    pub rate_out : NotNeg t.bytes_out_per_sec
    pub parts : pos 0 ≤ℤ t.partitions

  pub record IsWeighting (w : Weights F) : Type 0 where
    pub storage : NotNeg w.storage
    pub throughput : NotNeg w.throughput
    pub partition : NotNeg w.partition

  costs_names :
      (m : CostModel F) (w : Weights F) (bytes tot : F) (parts : ℤ) (ts : List (TopicCostInput F))
      → map (λ c. c.name) (map (topic_cost m w bytes tot parts) ts) ≡ map (λ t. t.name) ts
  unfolding topic_cost
  costs_names m w bytes tot parts [] = refl
  costs_names m w bytes tot parts (t ∷ ts) = ground (arith, costs_names m w bytes tot parts ts)

module _ {F : Type 0} ⦃f : Float F⦄ (laws : IsIeee F) where
  open laws use {add-NotNeg, mul-NotNeg, div-NotNeg, lit-NotNeg}

  step_NotNeg :
      (b : Bool) (s x : F) → NotNeg s → (b ≡ true → NotNeg x) → NotNeg (if b then f.add s x else s)
  step_NotNeg true s x hs hx = add-NotNeg s x hs (hx refl)
  step_NotNeg false s x hs hx = hs

  weighted_share-NotNeg :
      (w : Weights F) (t : TopicCostInput F) (bytes tot : F) (parts : ℤ)
      → IsWeighting w
      → IsCounted t
      → NotNeg (weighted_share w t bytes tot parts)
  unfolding weighted_share
  weighted_share-NotNeg w t bytes tot parts hw ht =
      let s1 =
        step_NotNeg (f.lt nought bytes) nought
          (f.mul w.storage (f.div (f.of_int t.retained_bytes) bytes)) (lit-NotNeg 0 0)
          (λ e. mul-NotNeg _ _ hw.storage (div-NotNeg _ _ (of_ℤ-NotNeg laws _ ht.retained) e)) in
      let s2 =
        step_NotNeg (f.lt nought tot) _
          (f.mul w.throughput (f.div (f.add t.bytes_in_per_sec t.bytes_out_per_sec) tot)) s1
          (λ e.
            mul-NotNeg _ _ hw.throughput
              (div-NotNeg _ _ (add-NotNeg _ _ ht.rate_in ht.rate_out) e)) in
      step_NotNeg (ltb_ℤ (pos 0) parts) _
        (f.mul w.partition (f.div (f.of_int t.partitions) (f.of_int parts))) s2
        (λ e.
          mul-NotNeg _ _ hw.partition
            (div-NotNeg _ _ (of_ℤ-NotNeg laws _ ht.parts) (of_ℤ-IsPos laws parts (ground arith))))

  topic_cost-NotNeg :
      (m : CostModel F) (w : Weights F) (bytes tot : F) (parts : ℤ) (t : TopicCostInput F)
      → IsWeighting w
      → IsCounted t
      → NotNeg (topic_cost m w bytes tot parts t).eur
  unfolding topic_cost
  topic_cost-NotNeg m w bytes tot parts t hw ht =
      elim (Bool-cases (f.le m.monthly_cost_eur nought)) [
        | inl free ↦ rw free (lit-NotNeg 0 0)
        | inr paid ↦ rw paid (
            mul-NotNeg _ _ (not-le-NotNeg laws _ paid)
              (weighted_share-NotNeg w t bytes tot parts hw ht))
      ]

  costs-NotNeg :
      (m : CostModel F) (w : Weights F) (bytes tot : F) (parts : ℤ) (ts : List (TopicCostInput F))
      → IsWeighting w
      → All IsCounted ts
      → All (λ c. NotNeg c.eur) (map (topic_cost m w bytes tot parts) ts)
  costs-NotNeg m w bytes tot parts [] hw _ = tt
  costs-NotNeg m w bytes tot parts (t ∷ ts) hw (h, hs) =
      (topic_cost-NotNeg m w bytes tot parts t hw h, costs-NotNeg m w bytes tot parts ts hw hs)

  -- Where the effective weights and the topics' figures are not below zero, the allocation has one
  -- entry for each topic, in the order given and under its name, and no entry is below zero: also
  -- for a monthly cost that is.
  pub allocate-NotNeg :
      (m : CostModel F) (ts : List (TopicCostInput F))
      → IsWeighting (effective_weights m)
      → All IsCounted ts
      → (map (λ c. c.name) (allocate m ts) ≡ map (λ t. t.name) ts)
        × All (λ c. NotNeg c.eur) (allocate m ts)
  unfolding allocate
  allocate-NotNeg m ts hw h = (costs_names m _ _ _ _ ts, costs-NotNeg m _ _ _ _ ts hw h)
