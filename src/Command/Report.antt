-- ===== src/Command/Report.antt =====
-- cmd/brod/report.go: the report of a scan, as the lines that it writes.
use Prim.Native.String.{String, ◌++◌}
use text.Mathlib.Text.{◌==◌ as str_eq}
use mathlib.Core.List.{◌++◌ as append}
use brod_cli.Base.{Bool, true, false, List, [], ◌∷◌, map, length, if◌then◌else◌}
use brod_cli.Base.Text.{show_ℕ}
use brod_cli.Base.Float.{Float}
use brod_cli.Rules.Types.{
  Severity, info, warning, critical, plan, Confidence, low, medium, high, Snapshot, Finding,
}
use brod_cli.Rules.Engine.{total_savings_eur}
use brod_cli.Command.Words.{truncate, repeat, pad_right, eur}

abbrev pub saas_pointer : String
saas_pointer =
    "→ See this continuously, attributed per team, at https://brod.sh — read-only, metadata-only, fixes ship as PRs."

abbrev pub rule_line : String
rule_line = "  " ++ repeat 64 "─"

-- The texts of the constants of type `Severity` and `Confidence`.
abbrev pub severity_text : Severity → String
severity_text info = "info"
severity_text warning = "warning"
severity_text critical = "critical"
severity_text plan = "plan"

abbrev pub confidence_text : Confidence → String
confidence_text low = "low"
confidence_text medium = "medium"
confidence_text high = "high"

-- `append` of the lines of each item, in their order.
abbrev pub concat_map : {A B : Type 0} → (A → List B) → List A → List B
concat_map f [] = []
concat_map f (x ∷ xs) = append (f x) (concat_map f xs)

-- The heading of the table.
abbrev pub report_header : List String
report_header =
    ("  "
      ++ (pad_right 4 "RULE"
          ++ ("  "
              ++ (pad_right 9 "€/MO"
                  ++ ("  "
                      ++ (pad_right 12 "SEVERITY"
                          ++ ("  " ++ (pad_right 6 "CONF" ++ ("  " ++ "FINDING")))))))))
    ∷ []

module _ {F : Type 0} ⦃f : Float F⦄ where
  abbrev pub cluster_name : Snapshot F → String
  cluster_name s = if str_eq s.cluster.name "" then "(unnamed)" else s.cluster.name

  abbrev pub provider_of : Snapshot F → String
  provider_of s = if str_eq s.cluster.provider "" then "self-hosted" else s.cluster.provider

  -- The row of a finding in the ranked table.
  unfoldable pub finding_row : Finding F → String
  finding_row x =
      "  "
      ++ (pad_right 4 x.rule_id
          ++ ("  "
              ++ (pad_right 9 (eur x.est_saving_eur)
                  ++ ("  "
                      ++ (pad_right 12 (severity_text x.severity)
                          ++ ("  "
                              ++ (pad_right 6 (confidence_text x.confidence)
                                  ++ ("  " ++ truncate x.title 60))))))))

  unfoldable pub basis_line : Finding F → String
  basis_line x = "   • [" ++ (x.rule_id ++ (" " ++ (eur x.est_saving_eur ++ ("] " ++ x.basis))))

  unfoldable pub remediation_lines : Finding F → List String
  remediation_lines x =
      let delivery =
        if x.remediation.one_click
        then "     delivery: one-click reviewable PR"
        else "     delivery: PLAN — needs a migration/reassignment you drive (never auto-applied)" in
      let command = x.remediation.kafka_configs_cmd in
      ""
      ∷ ("   ▸ " ++ (x.rule_id ++ (" — " ++ x.title)))
      ∷ ("     " ++ x.remediation.summary)
      ∷ delivery
      ∷ (if str_eq command "" then [] else ("     $ " ++ command) ∷ [])

  -- The heading, up to the rule.
  unfoldable pub report_head : Snapshot F → List (Finding F) → Bool → List String
  report_head snap fs used_demo =
      ""
      ∷ ("  brod scan — cluster "
          ++ (f.quote (cluster_name snap) ++ (" (" ++ (provider_of snap ++ ")"))))
      ∷ append
          (if used_demo
            then "  [demo snapshot — run `brod scan --snapshot your.json` on your own metadata]"
              ∷ []
            else [])
          (("  "
              ++ (show_ℕ (length fs)
                  ++ (" findings · est. up to "
                      ++ (eur (total_savings_eur fs) ++ "/mo recoverable"))))
            ∷ rule_line
            ∷ [])

  -- The end of the report of the findings.
  unfoldable pub report_tail : List (Finding F) → Bool → List String
  report_tail fs true =
      ""
      ∷ "  Remediation (review before applying — brod never touches your cluster):"
      ∷ append (concat_map remediation_lines fs) ("" ∷ ("  " ++ saas_pointer) ∷ [])
  report_tail fs false =
      ""
      ∷ "  Run with --verbose for the exact config diff per finding."
      ∷ ""
      ∷ ("  " ++ saas_pointer)
      ∷ []

  -- The table and the basis of each finding.
  unfoldable pub findings_table : List (Finding F) → Bool → List String
  findings_table fs verbose = append report_header (
      append (map finding_row fs) (
        ""
        ∷ "  Basis (how each € was computed):"
        ∷ append (map basis_line fs) (report_tail fs verbose)))

  unfoldable pub report_body : List (Finding F) → Bool → List String
  report_body [] verbose =
      "  No waste detected in this snapshot. 🎉" ∷ "" ∷ ("  " ++ saas_pointer) ∷ []
  report_body (x ∷ xs) verbose = findings_table (x ∷ xs) verbose

  unfoldable pub render_report : Snapshot F → List (Finding F) → Bool → Bool → List String
  render_report snap fs used_demo verbose =
      append (report_head snap fs used_demo) (report_body fs verbose)
