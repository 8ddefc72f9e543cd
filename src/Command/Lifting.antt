-- ===== src/Command/Lifting.antt =====
-- Properties of calls, carried over to the calls of a command and to deferred calls.
use Prim.Native.String.{String}
use mathlib.Core.Path.{subst}
use brod_cli.Base.{
  Bool, false, ◌≡◌, refl, sym, ap, ◌∙◌, ◌⊎◌, inl, inr, Option, none, some, if◌then◌else◌, true,
}
use brod_cli.Collect.Types.{Call}
use brod_cli.Collect.Keeps.{Keeps, same-Keeps}
use brod_cli.Command.World.{Failure, error, panicked, to_failure, lift, deferred}
use brod_cli.Kafka.Errors.{Blames, error_of}

-- The failure is an error, not a panic.
abbrev pub IsError : Failure → Type 0
IsError (error e) = Unit
IsError panicked = ⊥

module _ {S X : Type 0} (part : S → X) where
  pub lift-Keeps : {A : Type 0} (m : Call S String A) → Keeps part m → Keeps part (lift m)
  lift-Keeps {A} m h s s' r = step (m s) refl
    where
      step : (z : (String ⊎ A) × S) → m s ≡ z → to_failure z ≡ (r, s') → part s' ≡ part s
      step (inl e, t) p q = sym (ap (λ w. part w.1) q) ∙ h s t (inl e) p
      step (inr v, t) p q = sym (ap (λ w. part w.1) q) ∙ h s t (inr v) p

  -- The call, where there is one, keeps the part.
  abbrev pub KeepsSome : {E A : Type 0} → Option (Call S E A) → Type 0
  KeepsSome none = Unit
  KeepsSome (some m) = Keeps part m

  pub deferred-Keeps :
      {E A : Type 0} (m : Call S E A) (start cleanup : S → S)
      → Keeps part m
      → ((s : S) → part (start s) ≡ part s)
      → ((s : S) → part (cleanup s) ≡ part s)
      → Keeps part (λ s. deferred cleanup m (start s))
  deferred-Keeps m start cleanup h hs hc =
      same-Keeps part _ (λ s. hc _ ∙ h (start s) _ _ refl ∙ hs s)

pub lift-Blames : {S A : Type 0} (m : Call S String A) → Blames IsError (lift m)
lift-Blames {S} {A} m s s' e p = step (m s) p
  where
    step : (r : (String ⊎ A) × S) → to_failure r ≡ (inl e, s') → IsError e
    step (inl x, t) q = subst IsError (ap (error_of e) q) tt
    step (inr v, t) q = cc

pub if-Blames :
    {S E A : Type 0} (P : E → Type 0) (b : Bool) (m k : Call S E A)
    → Blames P m
    → Blames P k
    → Blames P (λ s. if b then m s else k s)
if-Blames P true m k h hk = h
if-Blames P false m k h hk = hk

pub deferred-Blames :
    {S E A : Type 0} (P : E → Type 0) (m : Call S E A) (start cleanup : S → S)
    → Blames P m
    → Blames P (λ s. deferred cleanup m (start s))
deferred-Blames P m start cleanup h s s' e p =
    h (start s) (m (start s)).1 e (ap (λ z. (z.0, (m (start s)).1)) p)
