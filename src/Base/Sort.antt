-- ===== src/Base/Sort.antt =====
-- `sort.SliceStable` as the stable insertion sort, and what it keeps.
use mathlib.Core.Bool.{Bool, true, false}
use mathlib.Core.List.{List, [], ◌∷◌, Perm}
use mathlib.Core.List.Perm
use mathlib.Core.Logic.{inl, inr}
use brod_cli.Base.Tests.{if◌then◌else◌, Bool-cases}
use Prim.Native.Nat.{suc}
use mathlib.Core.Path.{◌≡◌, refl}
use native.Mathlib.Omega.{arith}
use brod_cli.Base.Lists.{All, length}

module _ {ℓ} {A : Type ℓ} (less : A → A → Bool) where
  unfoldable pub insert : A → List A → List A
  insert x [] = x ∷ []
  insert x (y ∷ ys) = if less y x then y ∷ insert x ys else x ∷ y ∷ ys

  unfoldable pub sort : List A → List A
  unfolding insert
  sort [] = []
  sort (x ∷ xs) = insert x (sort xs)

  pub insert-perm : (x : A) (l : List A) → Perm (insert x l) (x ∷ l)
  unfolding insert
  insert-perm x [] = Perm.rfl
  insert-perm x (y ∷ ys) = elim (Bool-cases (less y x)) [
    | inl e ↦ rw e (Perm.trans (Perm.cons y (insert-perm x ys)) (Perm.swap x y ys))
    | inr e ↦ rw e Perm.rfl
  ]

  -- The result holds each element as often as the input does.
  pub sort-perm : (l : List A) → Perm (sort l) l
  unfolding sort
  sort-perm [] = Perm.rfl
  sort-perm (x ∷ xs) = Perm.trans (insert-perm x (sort xs)) (Perm.cons x (sort-perm xs))

  module _ {κ} (P : A → Type κ) where
    insert-All : (x : A) (l : List A) → P x → All P l → All P (insert x l)
    unfolding insert
    insert-All x [] p _ = (p, tt)
    insert-All x (y ∷ ys) p (q, qs) = elim (Bool-cases (less y x)) [
      | inl e ↦ rw e (q, insert-All x ys p qs)
      | inr e ↦ rw e (p, (q, qs))
    ]

    pub sort-All : (l : List A) → All P l → All P (sort l)
    unfolding sort
    sort-All [] _ = tt
    sort-All (x ∷ xs) (p, ps) = insert-All x (sort xs) p (sort-All xs ps)

  -- No later element is less than an earlier one.
  abbrev pub IsSorted : List A → Type 0
  IsSorted [] = Unit
  IsSorted (x ∷ xs) = All (λ y. less y x ≡ false) xs × IsSorted xs

  -- What `sort.SliceStable` asks of its comparison, on the elements with a property.
  pub record IsWeakOrder {κ} (P : A → Type κ) : Type (ℓ ⊔ κ) where
    pub asymm : (x y : A) → P x → P y → less x y ≡ true → less y x ≡ false
    pub neg_trans :
        (x y z : A) → P x → P y → P z → less y x ≡ false → less z y ≡ false → less z x ≡ false

  module _ {κ} (P : A → Type κ) (order : IsWeakOrder P) where
    above :
        (x y : A) (l : List A)
        → P x
        → P y
        → All P l
        → less y x ≡ false
        → All (λ z. less z y ≡ false) l
        → All (λ z. less z x ≡ false) l
    above x y [] px py _ h _ = tt
    above x y (z ∷ zs) px py (pz, pzs) h (hz, hzs) =
        (order.neg_trans x y z px py pz h hz, above x y zs px py pzs h hzs)

    insert-IsSorted : (x : A) (l : List A) → P x → All P l → IsSorted l → IsSorted (insert x l)
    unfolding insert
    insert-IsSorted x [] px _ _ = (tt, tt)
    insert-IsSorted x (y ∷ ys) px (py, pys) (hy, s) = elim (Bool-cases (less y x)) [
      | inl e ↦ rw e (
        insert-All (λ z. less z y ≡ false) x ys (order.asymm y x py px e) hy,
        insert-IsSorted x ys px pys s,
      )
      | inr e ↦ rw e ((e, above x y ys px py pys e hy), (hy, s))
    ]

    pub sort-IsSorted : (l : List A) → All P l → IsSorted (sort l)
    unfolding sort
    sort-IsSorted [] _ = tt
    sort-IsSorted (x ∷ xs) (px, pxs) =
        insert-IsSorted x (sort xs) px (sort-All P xs pxs) (sort-IsSorted xs pxs)

  length-insert : (x : A) (l : List A) → length (insert x l) ≡ suc (length l)
  unfolding insert
  length-insert x [] = refl
  length-insert x (y ∷ ys) = ground (arith, length-insert x ys)

  pub length-sort : (l : List A) → length (sort l) ≡ length l
  unfolding sort
  length-sort [] = refl
  length-sort (x ∷ xs) = omega (arith, length-insert x (sort xs), length-sort xs)
