-- ===== src/Command/Totals.antt =====
-- The figures of a team.
use Prim.Native.String.{String}
use text.Mathlib.Text.{◌==◌ as str_eq}
use text.Mathlib.TextEquality.{eq_iff}
use brod_cli.Base.{
  ◌≡◌, refl, ap, ◌∙◌, List, [], ◌∷◌, foldl, inl, inr, some, if◌then◌else◌, Bool-cases,
}
use brod_cli.Base.Maps.{GoMap, find_name, or_zero, find-alter_name}
use brod_cli.Base.Float.{Float, nought}
use brod_cli.Cost.{TopicCost}
use brod_cli.Command.Teams.{TeamRule, team_for, add_to, eur_by_team, gb_by_team}

module _ {F : Type 0} ⦃f : Float F⦄ where
  -- The sum of `value` over the topics of one team, in their order.
  abbrev pub team_sum : List TeamRule → String → (TopicCost F → F) → F → List (TopicCost F) → F
  team_sum rules team value sum [] = sum
  team_sum rules team value sum (a ∷ alloc) =
      let here = team_sum rules team value (f.add sum (value a)) alloc in
      let other = team_sum rules team value sum alloc in
      if str_eq (team_for rules a.name) team then here else other

  sums-team_sum :
      (rules : List TeamRule) (team : String) (value : TopicCost F → F) (m : GoMap String F)
      (alloc : List (TopicCost F))
      → or_zero nought
          (find_name team (foldl (λ m a. add_to (team_for rules a.name) (value a) m) m alloc))
        ≡ team_sum rules team value (or_zero nought (find_name team m)) alloc
  sums-team_sum rules team value m [] = refl
  sums-team_sum rules team value m (a ∷ alloc) =
      let key = team_for rules a.name in
      let next = add_to key (value a) m in
      let rest = sums-team_sum rules team value next alloc in
      let law = find-alter_name team key (λ old. f.add (or_zero nought old) (value a)) m in
      elim (Bool-cases (str_eq key team)) [
        | inl e ↦
            let same : key ≡ team = (eq_iff key team).0 e in
            let found : find_name team next
                ≡ some (f.add (or_zero nought (find_name team m)) (value a)) =
              rw (law, e, same) refl in
            rw e (rest ∙ ap (λ o. team_sum rules team value (or_zero nought o) alloc) found)
        | inr e ↦
            let found : find_name team next ≡ find_name team m = rw (law, e) refl in
            rw e (rest ∙ ap (λ o. team_sum rules team value (or_zero nought o) alloc) found)
      ]

  -- The figure of every team is the sum of the figures of the topics that the first matching rule
  -- gives to it, added in the order of the topics from 0, and so are its gigabytes: no topic is
  -- lost or counted twice, whatever the rounding of the additions.
  pub eur_by_team-team_sum :
      (rules : List TeamRule) (gb : GoMap String F) (alloc : List (TopicCost F)) (team : String)
      → (or_zero nought (find_name team (eur_by_team rules alloc))
          ≡ team_sum rules team (λ a. a.eur) nought alloc)
        × (or_zero nought (find_name team (gb_by_team rules gb alloc))
            ≡ team_sum rules team (λ a. or_zero nought (find_name a.name gb)) nought alloc)
  unfolding eur_by_team gb_by_team
  eur_by_team-team_sum rules gb alloc team = (
    sums-team_sum rules team (λ a. a.eur) [] alloc,
    sums-team_sum rules team (λ a. or_zero nought (find_name a.name gb)) [] alloc,
  )
