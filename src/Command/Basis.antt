-- ===== src/Command/Basis.antt =====
-- What the report of a scan shows of each finding.
use mathlib.Core.List.{
  Mem, not-mem-nil, mem-cons_of_mem, mem-append_left, mem-append_right, mem-map_of_mem,
  ◌++◌ as append,
}
use Prim.Native.String.{String, ◌++◌}
use brod_cli.Base.{Bool, List, [], ◌∷◌, map}
use brod_cli.Base.Float.{Float}
use brod_cli.Rules.Types.{Snapshot, Finding}
use brod_cli.Command.Words.{truncate, eur}
use brod_cli.Command.Shows.{
  Shows, IsShown, IsCut, truncate-IsCut, append-Shows, first-Shows, last-Shows, pad_right-Shows,
  after_pad-Shows,
}
use brod_cli.Command.Report.{
  finding_row, basis_line, report_head, report_tail, report_header, findings_table, report_body,
  severity_text, confidence_text, render_report,
}

module _ {F : Type 0} ⦃f : Float F⦄ where
  finding_row-Shows :
      (x : Finding F)
      → Shows
          (x.rule_id ∷ ("€" ++ f.fixed 2 x.est_saving_eur) ∷ truncate x.title 60 ∷ [])
          (finding_row x)
  unfolding finding_row eur
  finding_row-Shows x =
      let title = truncate x.title 60 in
      let shown = title ∷ [] in
      let saving = "€" ++ f.fixed 2 x.est_saving_eur in
      append-Shows (x.rule_id ∷ saving ∷ shown) "  " _ (
        pad_right-Shows (saving ∷ shown) 4 x.rule_id _ (
          append-Shows (saving ∷ shown) "  " _ (
            pad_right-Shows shown 9 saving _ (
              append-Shows shown "  " _ (
                after_pad-Shows shown 12 (severity_text x.severity) _ (
                  append-Shows shown "  " _ (
                    after_pad-Shows shown 6 (confidence_text x.confidence) _
                      (append-Shows shown "  " title (last-Shows title)))))))))

  basis_line-Shows :
      (x : Finding F)
      → Shows (x.rule_id ∷ ("€" ++ f.fixed 2 x.est_saving_eur) ∷ x.basis ∷ []) (basis_line x)
  unfolding basis_line eur
  basis_line-Shows x =
      let shown = x.basis ∷ [] in
      let saving = "€" ++ f.fixed 2 x.est_saving_eur in
      append-Shows (x.rule_id ∷ saving ∷ shown) "   • [" _ (
        first-Shows (saving ∷ shown) x.rule_id _ (
          append-Shows (saving ∷ shown) " " _
            (first-Shows shown saving _ (append-Shows shown "] " x.basis (last-Shows x.basis)))))

  findings_table-Mem :
      (head : List String) (fs : List (Finding F)) (verbose : Bool) (x : Finding F)
      → Mem x fs
      → Mem (finding_row x) (append head (findings_table fs verbose))
        × Mem (basis_line x) (append head (findings_table fs verbose))
  unfolding findings_table
  findings_table-Mem head fs verbose x m =
      let row : Mem (finding_row x) (map finding_row fs) = mem-map_of_mem finding_row m in
      let basis : Mem (basis_line x) (map basis_line fs) = mem-map_of_mem basis_line m in
      (
        mem-append_right head (mem-append_right report_header (mem-append_left _ row)),
        mem-append_right head (
            mem-append_right report_header (
              mem-append_right (map finding_row fs) (
                mem-cons_of_mem _
                  (mem-cons_of_mem _ (mem-append_left (report_tail fs verbose) basis))))),
      )

  -- For every finding of a report, a line of it shows the rule id, the saving in euros with two
  -- decimals and the title, cut to 60 characters where it is longer; and a line shows the rule id,
  -- the saving and the whole text that tells how the figure was computed: with or without
  -- `--verbose`, and for the demo snapshot too.
  pub render_report-Mem :
      (snap : Snapshot F) (fs : List (Finding F)) (used_demo verbose : Bool) (x : Finding F)
      → Mem x fs
      → ((title : String) × (IsCut 60 x.title title
            × IsShown
                (x.rule_id ∷ ("€" ++ f.fixed 2 x.est_saving_eur) ∷ title ∷ [])
                (render_report snap fs used_demo verbose)))
        × IsShown
            (x.rule_id ∷ ("€" ++ f.fixed 2 x.est_saving_eur) ∷ x.basis ∷ [])
            (render_report snap fs used_demo verbose)
  unfolding render_report report_body
  render_report-Mem snap [] used_demo verbose x m = absurd (not-mem-nil m)
  render_report-Mem snap (y ∷ ys) used_demo verbose x m =
      let (row, basis) =
        findings_table-Mem (report_head snap (y ∷ ys) used_demo) (y ∷ ys) verbose x m in
      (
        (truncate x.title 60, (truncate-IsCut x.title 60, (_, (row, finding_row-Shows x)))),
        (_, (basis, basis_line-Shows x)),
      )
