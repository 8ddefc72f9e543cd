-- ===== src/Command/Teams.antt =====
-- cmd/brod/cost.go: the team rules, and the report of an allocation.
use Prim.Native.String.{String, ◌++◌}
use text.Mathlib.TextBridge.{of_list}
use mathlib.Core.List.{◌++◌ as append}
use brod_cli.Base.{Bool, none, some, List, [], ◌∷◌, ◌⊎◌, inl, inr, map, foldl, if◌then◌else◌}
use brod_cli.Base.Maps.{GoMap, find_name, or_zero, alter_name}
use brod_cli.Base.Float.{Float, nought}
use brod_cli.Rules.Types.{Topic, Snapshot}
use brod_cli.Cost.{TopicCost}
use brod_cli.Command.Words.{runes, cut}

-- `matches` is the method `MatchString` of the compiled expression.
pub record TeamRule : Type 0 where
  pub matches : String → Bool
  pub name : String

-- `compile` is `regexp.Compile`, `quote` the verb `%q`.
module _ (compile : String → String ⊎ (String → Bool)) (quote : String → String) where
  -- The method `Set`, for `--team`.
  unfoldable pub set_team : List TeamRule → String → String ⊎ List TeamRule
  set_team rules v = elim (cut b'=' (runes v)) [
    | none ↦ inl ("--team must be 'regex=Team', got " ++ quote v)
    | some ([], after) ↦ inl ("--team must be 'regex=Team', got " ++ quote v)
    | some (c ∷ cs, after) ↦ elim (compile (of_list (c ∷ cs))) [
      | inl e ↦ inl ("--team regex " ++ (quote (of_list (c ∷ cs)) ++ (": " ++ e)))
      | inr matches ↦ inr (append rules (record { matches = matches; name = of_list after } ∷ []))
    ]
  ]

unfoldable pub team_for : List TeamRule → String → String
team_for [] topic = "unassigned"
team_for (r ∷ rules) topic = if r.matches topic then r.name else team_for rules topic

-- A row of a table: a topic or a team.
pub record Row (F : Type 0) : Type 0 where
  pub label : String
  pub euros : F
  pub gb : F

module _ {F : Type 0} ⦃f : Float F⦄ where
  open f use {add, mul, div, lt, lit, of_int, fixed}

  -- `m[key] += v`
  abbrev pub add_to : String → F → GoMap String F → GoMap String F
  add_to key v = alter_name key (λ old. add (or_zero nought old) v)

  -- The map `gbByTopic`.
  unfoldable pub gb_by_topic : List (Topic F) → GoMap String F
  gb_by_topic =
      foldl (λ m t. alter_name t.name (λ _. div (of_int t.retained_bytes) (lit 1_000_000_000 0)) m)
        []

  -- The maps `eurByTeam` and `gbByTeam`.
  unfoldable pub eur_by_team : List TeamRule → List (TopicCost F) → GoMap String F
  eur_by_team rules = foldl (λ m a. add_to (team_for rules a.name) a.eur m) []

  unfoldable pub gb_by_team : List TeamRule → GoMap String F → List (TopicCost F) → GoMap String F
  gb_by_team rules gb =
      foldl (λ m a. add_to (team_for rules a.name) (or_zero nought (find_name a.name gb)) m) []

  -- The sum in the order of the rows.
  unfoldable pub total_of : List (Row F) → F
  total_of = foldl (λ t r. add t r.euros) nought

  -- The order that both tables ask for.
  unfoldable pub row_before : Bool → Row F → Row F → Bool
  row_before has_cost x y = if has_cost then lt y.euros x.euros else lt y.gb x.gb

  unfoldable pub share : F → F → F
  share total euros = if lt nought total then div (mul (lit 100 0) euros) total else nought

  abbrev pub topic_row : Snapshot F → TopicCost F → Row F
  topic_row snap a = record {
    label = a.name;
    euros = a.eur;
    gb = or_zero nought (find_name a.name (gb_by_topic snap.topics));
  }

  unfoldable pub topic_rows : Snapshot F → List (TopicCost F) → List (Row F)
  topic_rows snap = map (topic_row snap)

  -- `entries` are those of `eurByTeam`, in the order in which `range` meets them.
  unfoldable pub team_rows : GoMap String F → GoMap String F → List (Row F)
  team_rows gb = map λ entry. record {
    label = entry.0;
    euros = entry.1;
    gb = or_zero nought (find_name entry.0 gb);
  }
