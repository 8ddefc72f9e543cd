-- ===== src/Collect/Reads.antt =====
-- The reads of `build` against a cluster that answers.
use brod_cli.Base.{◌≡◌, refl, ap, ◌∙◌, inl, inr, List, Bool-cases}
use brod_cli.Base.Int.{ℤ, pos, ltb_ℤ}
use brod_cli.Base.Float.{Float}
use brod_cli.Collect.Types.{Options, Call, and_then, Reader}
use brod_cli.Collect.Build.{read_cluster, later_probe, build}

-- The call has a value in every state.
abbrev pub Answers : {S E A : Type 0} → Call S E A → Type 0
Answers {S} {E} {A} m = (s : S) → (a : A) × (s' : S) × (m s ≡ (inr a, s'))

and_then-Answers :
    {S E A B : Type 0} (m : Call S E A) (k : A → Call S E B)
    → Answers m
    → ((a : A) → Answers (k a))
    → Answers (λ s. and_then (m s) k)
and_then-Answers m k h hk s =
    let (a, s1, e) = h s in let (b, s2, e2) = hk a s1 in (b, s2, ap (λ z. and_then z k) e ∙ e2)

pub record IsReliable {S E : Type 0} (r : Reader S E) : Type 0 where
  pub brokers : Answers r.brokers
  pub topics : Answers r.topics
  pub configs : (names : List _) → Answers (r.topic_configs names)
  pub log_dirs : Answers r.log_dir_sizes
  pub start : Answers r.start_offsets
  pub end : Answers r.end_offsets
  pub groups : Answers r.groups
  pub committed : (ids : List _) → Answers (r.committed_offsets ids)

module _ {S E : Type 0} (r : Reader S E) (sleep : ℤ → Call S E (Unit {0})) (opts : Options) where
  later_probe-Answers :
      IsReliable r → Answers (sleep opts.sample_window) → Answers (later_probe r sleep opts)
  unfolding later_probe
  later_probe-Answers rel slept = elim (Bool-cases (ltb_ℤ (pos 0) opts.sample_window)) [
    | inl sampled ↦ rw sampled (and_then-Answers _ _ slept (λ _. rel.end))
    | inr single ↦ rw single (λ s. (_, s, refl))
  ]

  read_cluster-Answers :
      IsReliable r → Answers (sleep opts.sample_window) → Answers (read_cluster r sleep opts)
  unfolding read_cluster
  read_cluster-Answers rel slept = and_then-Answers _ _ rel.brokers λ _.
      and_then-Answers _ _ rel.topics λ _. and_then-Answers _ _ (rel.configs _) λ _.
        and_then-Answers _ _ rel.log_dirs λ _. and_then-Answers _ _ rel.start λ _.
          and_then-Answers _ _ rel.end λ _. and_then-Answers _ _ rel.groups λ _.
            and_then-Answers _ _ (rel.committed _)
              λ _. and_then-Answers _ _ (later_probe-Answers rel slept) λ _ s. (_, s, refl)

  -- If every read of the cluster answers and the wait is not cancelled, `build` returns a
  -- snapshot, whatever the options and the answers are.
  pub build-Answers :
      {F : Type 0} ⦃f : Float F⦄ (clock : ℤ)
      → IsReliable r
      → Answers (sleep opts.sample_window)
      → Answers (build {F = F} r sleep opts clock)
  unfolding build
  build-Answers clock rel slept =
      and_then-Answers _ _ (read_cluster-Answers rel slept) λ _ s. (_, s, refl)
