-- ===== src/Cost/Prices.antt =====
-- The prices of `Resolve`.
use Prim.Native.String.{String}
use text.Mathlib.Text.{◌==◌ as str_eq}
use brod_cli.Base.{◌≡◌, true, ◌&&◌, inl, inr, arith, Bool-cases}
use brod_cli.Base.Int.{ℤ, pos, ◌<ℤ◌, ltb_ℤ}
use brod_cli.Base.Float.{Float, IsIeee, NotNeg, nought}
use brod_cli.Base.Signs.{IsPos-NotNeg, gigabytes-IsPos}
use brod_cli.Cost.{
  CostModel, default_weights, is_zero_weights, effective_weights, provider_preset, storage_price,
  network_price, resolve,
}

module _ {F : Type 0} ⦃f : Float F⦄ (laws : IsIeee F) (m : CostModel F) where
  open laws use {lit-NotNeg, mul-NotNeg, div-NotNeg}

  effective_storage-NotNeg : NotNeg m.weights.storage → NotNeg (effective_weights m).storage
  unfolding effective_weights default_weights
  effective_storage-NotNeg h = elim (Bool-cases (is_zero_weights m.weights)) [
    | inl zero ↦ rw zero (lit-NotNeg 40 2)
    | inr given ↦ rw given h
  ]

  preset-NotNeg :
      (p : String) → NotNeg (provider_preset {F = F} p).0 × NotNeg (provider_preset {F = F} p).1
  unfolding provider_preset
  preset-NotNeg p = elim (Bool-cases (str_eq p "confluent")) [
    | inl e ↦ rw e (lit-NotNeg 12 2, lit-NotNeg 4 2)
    | inr e ↦ rw e (elim (Bool-cases (str_eq p "msk")) [
      | inl k ↦ rw k (lit-NotNeg 11 2, lit-NotNeg 2 2)
      | inr k ↦ rw k (lit-NotNeg 8 2, lit-NotNeg 1 2)
    ])
  ]

  storage_price-NotNeg : (total : ℤ) → NotNeg m.weights.storage → NotNeg (storage_price m total).0
  unfolding storage_price
  storage_price-NotNeg total h = elim (Bool-cases (f.lt nought m.storage_eur_per_gb_mo)) [
    | inl given ↦ rw given (IsPos-NotNeg laws _ given)
    | inr p ↦ elim (Bool-cases (f.lt nought m.monthly_cost_eur && ltb_ℤ (pos 0) total)) [
      | inl known ↦
          let both : (f.lt nought m.monthly_cost_eur ≡ true) × (pos 0 <ℤ total) = ground arith in
          rw (p, known)
            (div-NotNeg _ _
              (mul-NotNeg _ _ (IsPos-NotNeg laws _ both.0) (effective_storage-NotNeg h))
              (gigabytes-IsPos laws total both.1))
      | inr unknown ↦ rw (p, unknown) (preset-NotNeg m.provider).0
    ]
  ]

  network_price-NotNeg : NotNeg (network_price m).0
  unfolding network_price
  network_price-NotNeg = elim (Bool-cases (f.lt nought m.network_eur_per_gb)) [
    | inl given ↦ rw given (IsPos-NotNeg laws _ given)
    | inr p ↦ rw p (preset-NotNeg m.provider).1
  ]

  -- Whatever the cost model holds, and also where the monthly cost or a configured price is
  -- negative or NaN, neither resolved price is below zero, if the storage weight is not.
  pub resolve-NotNeg :
      (total_retained : ℤ)
      → NotNeg m.weights.storage
      → NotNeg (resolve m total_retained).storage_eur_per_gb_mo
        × NotNeg (resolve m total_retained).network_eur_per_gb
  unfolding resolve
  resolve-NotNeg total h = (storage_price-NotNeg total h, network_price-NotNeg)
