-- ===== src/Base/Lists.antt =====
-- Lists measured by native numbers, and a predicate on every element.
use Prim.Native.Nat.{ℕ, zero, suc}
use mathlib.Core.Path.{◌≡◌}
use mathlib.Core.List.{
  List, [], ◌∷◌, ◌++◌, filter_map, map, Mem, mem-cons_self, mem-cons_of_mem, not-mem-nil,
  forall_mem-cons,
}
use mathlib.Core.Logic.{inl, inr}
use mathlib.Core.Option.{Option, none, some}
use brod_cli.Base.Tests.{Option-cases}

module _ {ℓ} {A : Type ℓ} where
  abbrev pub length : List A → ℕ
  length [] = 0
  length (x ∷ xs) = suc (length xs)

  abbrev pub get_elem? : List A → ℕ → Option A
  get_elem? [] i = none
  get_elem? (x ∷ xs) zero = some x
  get_elem? (x ∷ xs) (suc i) = get_elem? xs i

  abbrev pub All {κ} : (A → Type κ) → List A → Type κ
  All P [] = Unit
  All P (x ∷ xs) = P x × All P xs

  pub All-append {κ} : (P : A → Type κ) (xs ys : List A) → All P xs → All P ys → All P (xs ++ ys)
  All-append P [] ys _ q = q
  All-append P (x ∷ xs) ys (p, ps) q = (p, All-append P xs ys ps q)

module _ {ℓ} {A : Type ℓ} where
  pub All-forall {κ} : (P : A → Type κ) (f : (x : A) → P x) (xs : List A) → All P xs
  All-forall P f [] = tt
  All-forall P f (x ∷ xs) = (f x, All-forall P f xs)

  pub All-imp {κ μ} :
      (P : A → Type κ) (Q : A → Type μ) (f : (x : A) → P x → Q x) (xs : List A)
      → All P xs
      → All Q xs
  All-imp P Q f [] _ = tt
  All-imp P Q f (x ∷ xs) (p, ps) = (f x p, All-imp P Q f xs ps)

  pub All-mem {κ} : (P : A → Type κ) (xs : List A) → ((x : A) → Mem x xs → P x) → All P xs
  All-mem P [] h = tt
  All-mem P (x ∷ xs) h = (h x mem-cons_self, All-mem P xs (λ y m. h y (mem-cons_of_mem x m)))

  -- Membership is a proposition, so the predicate has to be one.
  pub forall_mem-All {κ} :
      (P : A → Type κ)
      → ((x : A) → IsProp (P x))
      → (xs : List A) → All P xs
      → (x : A) → Mem x xs
      → P x
  forall_mem-All P prop [] _ x m = absurd (not-mem-nil m)
  forall_mem-All P prop (y ∷ ys) (p, ps) x m =
      (forall_mem-cons prop).1 (p, forall_mem-All P prop ys ps) x m

module _ {ℓ κ} {A : Type ℓ} {B : Type κ} where
  pub All-map {μ} :
      (P : B → Type μ) (f : A → B) (xs : List A) → All (λ x. P (f x)) xs → All P (map f xs)
  All-map P f [] _ = tt
  All-map P f (x ∷ xs) (p, ps) = (p, All-map P f xs ps)

  -- What holds of every value that a loop's body appends holds of the list that the loop builds.
  pub All-filter_map {μ ν} :
      (P : A → Type μ) (Q : B → Type ν) (f : A → Option B)
      → ((a : A) (b : B) → P a → f a ≡ some b → Q b)
      → (xs : List A) → All P xs
      → All Q (filter_map f xs)
  unfolding filter_map
  All-filter_map P Q f h [] _ = tt
  All-filter_map P Q f h (x ∷ xs) (p, ps) = elim (Option-cases (f x)) [
    | inl e ↦ rw e (All-filter_map P Q f h xs ps)
    | inr (b, e) ↦ rw e (h x b p e, All-filter_map P Q f h xs ps)
  ]
