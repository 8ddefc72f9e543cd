-- ===== src/Command/Rows.antt =====
-- The rows of the cost tables.
use Prim.Native.String.{String, ◌++◌}
use text.Mathlib.Text.{◌==◌ as str_eq}
use brod_cli.Base.{Bool, true, false, List, [], ◌∷◌, ◌≡◌, ◌⊎◌, if◌then◌else◌}
use brod_cli.Base.Maps.{GoMap, alter_name}
use brod_cli.Base.Float.{Float, nought}
use brod_cli.Rules.Types.{Topic, Snapshot}
use brod_cli.Cost.{TopicCost}
use brod_cli.Command.Words.{truncate, pad_right, pad_left, eur}
use brod_cli.Command.Shows.{Shows, IsShown, IsCut}
use brod_cli.Command.Teams.{Row}
use brod_cli.Command.Tables.{euro_row, gb_row}

module _ {F : Type 0} ⦃f : Float F⦄ where
  -- The sum of the costs, in the order of the allocation.
  abbrev pub sum_eur : F → List (TopicCost F) → F
  sum_eur s [] = s
  sum_eur s (c ∷ alloc) = sum_eur (f.add s c.eur) alloc

  -- The share in percent, which is zero where the sum is not above zero.
  abbrev pub IsShare : F → F → F → Type 0
  IsShare sum euros p =
      ((f.lt nought sum ≡ true) × (p ≡ f.div (f.mul (f.lit 100 0) euros) sum))
      ⊎ ((f.lt nought sum ≡ false) × (p ≡ nought))

  -- The retained gigabytes of the last topic of the name, else `g`.
  abbrev pub last_gb : String → List (Topic F) → F → F
  last_gb name [] g = g
  last_gb name (t ∷ ts) g =
      last_gb name ts (
        if str_eq t.name name then f.div (f.of_int t.retained_bytes) (f.lit 1_000_000_000 0) else g)

  -- What the table of a report shows of a topic.
  abbrev pub IsListed : Snapshot F → List (TopicCost F) → TopicCost F → Bool → List String → Type 0
  IsListed snap alloc c true lines =
      (name : String) × (IsCut 40 c.name name
        × ((p : F) × (IsShare (sum_eur nought alloc) c.eur p
              × IsShown (name ∷ ("€" ++ f.fixed 2 c.eur) ∷ (f.fixed 1 p ++ "%") ∷ []) lines)))
  IsListed snap alloc c false lines =
      (name : String) × (IsCut 40 c.name name
        × IsShown (name ∷ f.fixed 1 (last_gb c.name snap.topics nought) ∷ []) lines)

  abbrev noted : GoMap String F → Topic F → GoMap String F
  noted m t = alter_name t.name (λ _. f.div (f.of_int t.retained_bytes) (f.lit 1_000_000_000 0)) m

  abbrev gb_line : String → F → String
  gb_line name g = "  " ++ (pad_right 40 name ++ ("  " ++ pad_left 8 (f.fixed 1 g)))

module _ {F : Type 0} ⦃f : Float F⦄
    (sort_slice : (Row F → Row F → Bool) → List (Row F) → List (Row F))
    (range : GoMap String F → GoMap String F) where
  abbrev topic_line : Bool → F → Row F → String
  topic_line true total r = euro_row total (pad_right 40 (truncate r.label 40)) r
  topic_line false total r = gb_row (pad_right 40 (truncate r.label 40)) r
