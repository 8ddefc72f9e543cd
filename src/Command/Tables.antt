-- ===== src/Command/Tables.antt =====
-- cmd/brod/cost.go: the tables of `brod cost`, as the lines that it writes, and its JSON document.
use Prim.Native.String.{String, ◌++◌}
use mathlib.Core.List.{◌++◌ as append}
use brod_cli.Base.{Bool, ◌||◌, List, [], ◌∷◌, map, length, ltb, if◌then◌else◌}
use brod_cli.Base.Maps.{GoMap, find_name, or_zero}
use brod_cli.Base.Text.{show_ℕ}
use brod_cli.Base.Float.{Float, nought}
use brod_cli.Rules.Types.{Snapshot}
use brod_cli.Cost.{Weights, CostModel, TopicCost}
use brod_cli.Command.Words.{truncate, pad_right, pad_left, eur}
use brod_cli.Command.Report.{rule_line, cluster_name, provider_of}
use brod_cli.Command.Teams.{
  TeamRule, Row, team_for, gb_by_topic, eur_by_team, gb_by_team, total_of, row_before, share,
  topic_rows, team_rows,
}

-- An entry of `topics`; an empty team is left out of the text.
pub record TopicOut (F : Type 0) : Type 0 where
  pub topic : String
  pub eur_per_month : F
  pub team : String
  pub basis : String

-- The document of `emitCostJSON`.
pub record CostDoc (F : Type 0) : Type 0 where
  pub cluster : String
  pub monthly_cost_eur : F
  pub weights : Weights F
  pub topics : List (TopicOut F)

abbrev pub table_head : String → String → String → List String
table_head label euros gb = ("  " ++ (label ++ ("  " ++ (pad_right 10 euros ++ ("  " ++ gb))))) ∷ []

module _ {F : Type 0} ⦃f : Float F⦄ where
  open f use {lt, fixed}

  -- A row with its share, and a row with its retained gigabytes; the name is padded already.
  abbrev pub euro_row : F → String → Row F → String
  euro_row total label r =
      "  "
      ++ (label
          ++ ("  "
              ++ (pad_right 10 (eur r.euros)
                  ++ ("  " ++ (pad_left 4 (fixed 1 (share total r.euros)) ++ "%")))))

  abbrev pub gb_row : String → Row F → String
  gb_row label r = "  " ++ (label ++ ("  " ++ pad_left 8 (fixed 1 r.gb)))

  -- The table, with `cell` for the first column and `heading` for its name.
  unfoldable pub table_lines :
      Bool → (Row F → String) → (String → String) → String → F → List (Row F) → List String
  table_lines has_cost cell column heading total rows =
      if has_cost
      then append (table_head (column heading) "€/MO" "SHARE") (
          append (map (λ r. euro_row total (cell r) r) rows)
            (rule_line ∷ ("  " ++ (column "TOTAL" ++ ("  " ++ pad_right 10 (eur total)))) ∷ []))
      else ("  " ++ (column heading ++ "  RETAINED GB")) ∷ map (λ r. gb_row (cell r) r) rows

  abbrev pub basis_note : List (TopicCost F) → List String
  basis_note [] = []
  basis_note (a ∷ alloc) = "" ∷ ("  basis: " ++ a.basis) ∷ []

  -- `sort_slice` is `sort.Slice`, `range` the order in which a map is visited.
  module _ (sort_slice : (Row F → Row F → Bool) → List (Row F) → List (Row F))
      (range : GoMap String F → GoMap String F) where
    unfoldable pub render_topics : Snapshot F → List (TopicCost F) → Bool → List String
    render_topics snap alloc has_cost =
        let rows = topic_rows snap alloc in
        append
          (table_lines has_cost (λ r. pad_right 40 (truncate r.label 40)) (pad_right 40) "TOPIC"
            (total_of rows) (sort_slice (row_before has_cost) rows))
          (append (basis_note alloc) (
            "" ∷ "  → Per-team attribution and showback CSV are on the roadmap at https://brod.sh"
            ∷ []))

    abbrev pub unassigned_note : GoMap String F → GoMap String F → List String
    unassigned_note euros gb =
        if lt nought (or_zero nought (find_name "unassigned" euros))
          || lt nought (or_zero nought (find_name "unassigned" gb))
        then ""
          ∷ "  note: 'unassigned' topics matched no --team rule — add rules to finish the mapping."
          ∷ []
        else []

    unfoldable pub render_teams :
        Snapshot F → List (TopicCost F) → List TeamRule → Bool → List String
    render_teams snap alloc rules has_cost =
        let euros = eur_by_team rules alloc in
        let gb = gb_by_team rules (gb_by_topic snap.topics) alloc in
        let rows = team_rows gb (range euros) in
        append
          (table_lines has_cost (λ r. pad_right 24 r.label) (pad_right 24) "TEAM" (total_of rows)
            (sort_slice (row_before has_cost) rows))
          (unassigned_note euros gb)

    unfoldable pub render_cost :
        Snapshot F → CostModel F → List (TopicCost F) → List TeamRule → List String
    render_cost snap cm alloc rules =
        let has_cost = lt nought cm.monthly_cost_eur in
        let note =
          if has_cost
          then "  Allocating €"
            ++ (fixed 2 cm.monthly_cost_eur
                ++ ("/mo across "
                    ++ (show_ℕ (length snap.topics)
                        ++ " topics using 40/40/20 (storage/throughput/partitions).")))
          else "  No --cost given: showing the storage driver per topic. Pass --cost <€/mo> to allocate euros." in
        append
          (""
            ∷ ("  brod cost — cluster "
                ++ (f.quote (cluster_name snap) ++ (" (" ++ (provider_of snap ++ ")"))))
            ∷ note
            ∷ rule_line
            ∷ [])
          (if ltb 0 (length rules)
            then render_teams snap alloc rules has_cost
            else render_topics snap alloc has_cost)

  unfoldable pub cost_doc :
      Snapshot F → CostModel F → List (TopicCost F) → List TeamRule → CostDoc F
  cost_doc snap cm alloc rules = record {
    cluster = snap.cluster.name;
    monthly_cost_eur = cm.monthly_cost_eur;
    weights = cm.weights;
    topics =
        map
          (λ a. record {
            topic = a.name;
            eur_per_month = a.eur;
            team = if ltb 0 (length rules) then team_for rules a.name else "";
            basis = a.basis;
          })
          alloc;
  }
