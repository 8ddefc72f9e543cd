-- ===== src/Collect/Keeps.antt =====
-- Calls that leave a part of the state as it is, `build` among them.
use brod_cli.Base.{
  ◌≡◌, refl, sym, ap, ◌∙◌, ◌⊎◌, inl, inr, List, Bool-cases, if◌then◌else◌, Bool, true, false,
}
use brod_cli.Base.Int.{ℤ, pos, ltb_ℤ}
use brod_cli.Base.Float.{Float}
use brod_cli.Collect.Types.{Options, Call, and_then, Reader}
use brod_cli.Collect.Build.{read_cluster, later_probe, build}

-- The part `part` of the state is the same after the call.
abbrev pub Keeps : {S A X : Type 0} → (S → X) → (S → A × S) → Type 0
Keeps {S} {A} part m = (s s' : S) (r : A) → m s ≡ (r, s') → part s' ≡ part s

pub same-Keeps :
    {S A X : Type 0} (part : S → X) (m : S → A × S)
    → ((s : S) → part (m s).1 ≡ part s)
    → Keeps part m
same-Keeps part m h s s' r e = sym (ap (λ z. part z.1) e) ∙ h s

pub and_then-Keeps :
    {S E A B X : Type 0} (part : S → X) (m : Call S E A) (k : A → Call S E B)
    → Keeps part m
    → ((a : A) → Keeps part (k a))
    → Keeps part (λ s. and_then (m s) k)
and_then-Keeps {S} {E} {A} part m k h hk s s' b = step (m s) refl
  where
    step : (r : (E ⊎ A) × S) → m s ≡ r → and_then r k ≡ (b, s') → part s' ≡ part s
    step (inl e, t) p q = h s s' (inl e) (p ∙ ap (λ z. (inl e, z.1)) q)
    step (inr a, t) p q = hk a t s' b q ∙ h s t (inr a) p

pub if-Keeps :
    {S A X : Type 0} (part : S → X) (b : Bool) (m k : S → A × S)
    → Keeps part m
    → Keeps part k
    → Keeps part (λ s. if b then m s else k s)
if-Keeps part true m k h hk = h
if-Keeps part false m k h hk = hk

pub record KeepsReads {S E X : Type 0} (part : S → X) (r : Reader S E) : Type 0 where
  pub brokers : Keeps part r.brokers
  pub topics : Keeps part r.topics
  pub configs : (names : List _) → Keeps part (r.topic_configs names)
  pub log_dirs : Keeps part r.log_dir_sizes
  pub start : Keeps part r.start_offsets
  pub end : Keeps part r.end_offsets
  pub groups : Keeps part r.groups
  pub committed : (ids : List _) → Keeps part (r.committed_offsets ids)

module _ {S E X : Type 0} (part : S → X) (r : Reader S E) (sleep : ℤ → Call S E (Unit {0}))
    (opts : Options) where
  later_probe-Keeps :
      KeepsReads part r
      → Keeps part (sleep opts.sample_window)
      → Keeps part (later_probe r sleep opts)
  unfolding later_probe
  later_probe-Keeps keeps slept = elim (Bool-cases (ltb_ℤ (pos 0) opts.sample_window)) [
    | inl sampled ↦ rw sampled (and_then-Keeps part _ _ slept (λ _. keeps.end))
    | inr single ↦ rw single (same-Keeps part _ (λ s. refl))
  ]

  read_cluster-Keeps :
      KeepsReads part r
      → Keeps part (sleep opts.sample_window)
      → Keeps part (read_cluster r sleep opts)
  unfolding read_cluster
  read_cluster-Keeps keeps slept = and_then-Keeps part _ _ keeps.brokers λ _.
      and_then-Keeps part _ _ keeps.topics λ _. and_then-Keeps part _ _ (keeps.configs _) λ _.
        and_then-Keeps part _ _ keeps.log_dirs λ _. and_then-Keeps part _ _ keeps.start λ _.
          and_then-Keeps part _ _ keeps.end λ _. and_then-Keeps part _ _ keeps.groups λ _.
            and_then-Keeps part _ _ (keeps.committed _) λ _.
              and_then-Keeps part _ _ (later_probe-Keeps keeps slept)
                λ _. same-Keeps part _ (λ s. refl)

  pub build-Keeps :
      {F : Type 0} ⦃f : Float F⦄ (clock : ℤ)
      → KeepsReads part r
      → Keeps part (sleep opts.sample_window)
      → Keeps part (build {F = F} r sleep opts clock)
  unfolding build
  build-Keeps clock keeps slept =
      and_then-Keeps part _ _ (read_cluster-Keeps keeps slept) λ _. same-Keeps part _ (λ s. refl)
