-- ===== src/Examples/Texts.antt =====
-- Hosts, titles, reports and teams on small inputs.
use Prim.Native.Nat.{◌≤◌}
use Prim.Native.Char.{Char}
use Prim.Native.String.{String, ◌++◌}
use text.Mathlib.TextBridge.{of_list}
use mathlib.Core.List.{mem-cons_self, ◌++◌ as append}
use brod_cli.Base.{Bool, true, false, ◌≡◌, refl, List, [], ◌∷◌, length, arith}
use brod_cli.Base.Int.{ℤ, pos}
use brod_cli.Base.Fixed.{fixed_float}
use brod_cli.Base.Float.{nought}
use brod_cli.Base.Maps.{find_name, or_zero}
use brod_cli.Base.Text.{has_prefix, is_space}
use brod_cli.Rules.Types.{warning, high, Finding}
use brod_cli.Cost.{TopicCost}
use brod_cli.Command.Words.{runes, split_comma, drop_spaces, trim, keep_parts, split_csv, truncate}
use brod_cli.Command.Hosts.{IsHost, join_comma, split_csv-join_comma, truncate_bound}
use brod_cli.Command.Report.{render_report}
use brod_cli.Command.Shows.{IsShown, IsCut}
use brod_cli.Command.Basis.{render_report-Mem}
use brod_cli.Command.Teams.{TeamRule, eur_by_team, gb_by_team}
use brod_cli.Command.Totals.{team_sum, eur_by_team-team_sum}
use brod_cli.Examples.Samples.{snapshot}

abbrev quoted : String → String
quoted s = "\"" ++ s ++ "\""

abbrev host1 : List Char
host1 = runes "b1:9092"

abbrev host2 : List Char
host2 = runes "b2:9092"

hosts_read : split_csv " b1:9092,, b2:9092 " ≡ "b1:9092" ∷ "b2:9092" ∷ []
unfolding split_csv keep_parts split_comma trim drop_spaces is_space
hosts_read = refl

host1-IsHost : IsHost host1
unfolding trim drop_spaces is_space
host1-IsHost = (refl, (refl, λ e. ground arith))

host2-IsHost : IsHost host2
unfolding trim drop_spaces is_space
host2-IsHost = (refl, (refl, λ e. ground arith))

split_csv-join_comma_example :
    split_csv (of_list (join_comma (host1 ∷ host2 ∷ []))) ≡ "b1:9092" ∷ "b2:9092" ∷ []
split_csv-join_comma_example =
    split_csv-join_comma host1 (host2 ∷ []) host1-IsHost (host2-IsHost, tt)

truncate_bound_example :
    (length (runes (truncate "orders" 4)) ≤ 4)
    × (length (runes "orders") ≤ 4 → truncate "orders" 4 ≡ "orders")
truncate_bound_example = truncate_bound "orders" 4 (λ e. ground arith)

cut_short : truncate "orders" 4 ≡ "ord…"
unfolding truncate
cut_short = refl

abbrev first_finding : Finding ℤ
first_finding = record {
  rule_id = "R1";
  rule_version = pos 1;
  title = "Dead topic legacy.dump";
  severity = warning;
  resource_key = "R1:legacy.dump";
  evidence = [];
  est_saving_eur = pos 3;
  basis = "20 GB at an assumed price";
  confidence = high;
  remediation = record {
    summary = "Delete the topic";
    kafka_configs_cmd = "";
    terraform_diff = "";
    strimzi_yaml = "";
    one_click = false;
  };
}

render_report-Mem_example :
    ((title : String) × (IsCut 60 "Dead topic legacy.dump" title
        × IsShown
            ("R1" ∷ ("€" ++ fixed_float.fixed 2 (pos 3)) ∷ title ∷ [])
            (render_report snapshot (first_finding ∷ []) false true)))
    × IsShown
        ("R1" ∷ ("€" ++ fixed_float.fixed 2 (pos 3)) ∷ "20 GB at an assumed price" ∷ [])
        (render_report snapshot (first_finding ∷ []) false true)
render_report-Mem_example =
    render_report-Mem snapshot (first_finding ∷ []) false true first_finding mem-cons_self

abbrev matches : String → Bool
matches t = has_prefix t "ord"

abbrev old_rules : List TeamRule
old_rules = record { matches = λ t. has_prefix t "clicks"; name = "web" } ∷ []

abbrev costs : List (TopicCost ℤ)
costs =
    record { name = "clicks"; eur = pos 7; basis = "" }
    ∷ record { name = "orders"; eur = pos 2; basis = "" }
    ∷ record { name = "clicks.raw"; eur = pos 5; basis = "" }
    ∷ []

eur_by_team-team_sum_example :
    (or_zero nought (find_name "web" (eur_by_team old_rules costs))
      ≡ team_sum old_rules "web" (λ a. a.eur) nought costs)
    × (or_zero nought (find_name "web" (gb_by_team old_rules [] costs))
        ≡ team_sum old_rules "web" (λ a. or_zero nought (find_name a.name [])) nought costs)
eur_by_team-team_sum_example = eur_by_team-team_sum old_rules [] costs "web"
