-- ===== src/Base/Maps.antt =====
-- Go maps.
use Prim.Native.String.{String}
use text.Mathlib.Text.{◌==◌ as str_eq}
use text.Mathlib.TextEquality.{eq_iff}
use mathlib.Core.Path.{◌≡◌, refl}
use mathlib.Core.Logic.{◌↔◌}
use mathlib.Core.Bool.{Bool, true, ◌&&◌}
use mathlib.Core.Option.{Option, none, some}
use mathlib.Core.List.{List, [], ◌∷◌}
use native.Mathlib.Omega.{arith}
use brod_cli.Base.Tests.{if◌then◌else◌}
use brod_cli.Base.Int.{ℤ, leb_ℤ, eq_of_parts}

-- A map as the list of its entries, each key once, in the order in which `range` meets them.
abbrev pub GoMap : Type 0 → Type 0 → Type 0
GoMap K V = List (K × V)

abbrev pub same_id : ℤ → ℤ → Bool
same_id a b = leb_ℤ a b && leb_ℤ b a

abbrev pub find_by : {V K : Type 0} → (K → K → Bool) → K → GoMap K V → Option V
find_by same key [] = none
find_by same key ((k, v) ∷ rest) = if same k key then some v else find_by same key rest

-- `v, ok := m[key]`
abbrev pub find_name : {V : Type 0} → String → GoMap String V → Option V
find_name = find_by str_eq

abbrev pub find_id : {V : Type 0} → ℤ → GoMap ℤ V → Option V
find_id = find_by same_id

-- `m[key]`, the zero value where the key is missing.
abbrev pub or_zero : {V : Type 0} → V → Option V → V
or_zero zero none = zero
or_zero zero (some v) = v

-- `m[key] = f(m[key])`, where a missing key is `none`.
abbrev pub alter_by : {V K : Type 0} → (K → K → Bool) → K → (Option V → V) → GoMap K V → GoMap K V
alter_by same key f [] = (key, f none) ∷ []
alter_by same key f ((k, v) ∷ rest) =
    if same k key then (k, f (some v)) ∷ rest else (k, v) ∷ alter_by same key f rest

abbrev pub alter_name : {V : Type 0} → String → (Option V → V) → GoMap String V → GoMap String V
alter_name = alter_by str_eq

abbrev pub alter_id : {V : Type 0} → ℤ → (Option V → V) → GoMap ℤ V → GoMap ℤ V
alter_id = alter_by same_id

pub same_id_iff : (a b : ℤ) → (same_id a b ≡ true) ↔ (a ≡ b)
same_id_iff a b = (λ h. eq_of_parts a b (ground arith), λ e. rw e (ground arith))

-- The map after a write, at every key.
pub find-alter_by :
    {V K : Type 0} (same : K → K → Bool)
    → ((a b : K) → (same a b ≡ true) ↔ (a ≡ b))
    → (j k : K) (f : Option V → V) (m : GoMap K V)
    → find_by same j (alter_by same k f m)
      ≡ (if same k j then some (f (find_by same k m)) else find_by same j m)
find-alter_by same iff j k f [] = refl
find-alter_by same iff j k f ((i, v) ∷ m) =
    ground (arith, iff k j, iff i k, iff i j, find-alter_by same iff j k f m)

pub find-alter_name :
    {V : Type 0} (j k : String) (f : Option V → V) (m : GoMap String V)
    → find_name j (alter_name k f m)
      ≡ (if str_eq k j then some (f (find_name k m)) else find_name j m)
find-alter_name = find-alter_by str_eq eq_iff

pub find-alter_id :
    {V : Type 0} (j k : ℤ) (f : Option V → V) (m : GoMap ℤ V)
    → find_id j (alter_id k f m) ≡ (if same_id k j then some (f (find_id k m)) else find_id j m)
find-alter_id = find-alter_by same_id same_id_iff
