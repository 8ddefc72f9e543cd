-- ===== src/Command/Main.antt =====
-- cmd/brod/main.go and the commands of cost.go: the sources of a snapshot, the commands, the exit
-- code.
use Prim.Native.String.{String, ◌++◌}
use text.Mathlib.Text.{◌==◌ as str_eq}
use brod_cli.Base.{
  ℕ, Bool, true, false, not, ◌||◌, Option, none, some, List, [], ◌∷◌, ◌⊎◌, inl, inr, map, foldl,
  if◌then◌else◌,
}
use brod_cli.Base.Float.{Float}
use brod_cli.Rules.Types.{Snapshot, Finding}
use brod_cli.Rules.Config.{default_config}
use brod_cli.Rules.Engine.{evaluate, total_savings_eur}
use brod_cli.Cost.{CostModel, TopicCostInput, default_weights, allocate}
use brod_cli.Collect.Types.{Call, ◌>>=◌, done}
use brod_cli.Kafka.Admin.{Admin}
use brod_cli.Kafka.Connect.{Dialer}
use brod_cli.Command.Usage.{usage}
use brod_cli.Command.World.{System, Failure, error, panicked, lift, effect, deferred}
use brod_cli.Command.Live.{
  ConnectFlags, collect_timeout, connect_and_collect, within_timeout, collect_command,
}
use brod_cli.Command.Report.{render_report}
use brod_cli.Command.Teams.{set_team}
use brod_cli.Command.Tables.{render_cost, cost_doc}
use brod_cli.Command.Services.{ScanFlags, CostFlags, ScanDoc, Library}

-- `quote` is the verb `%q`, `env` is `os.Getenv`.
module _ {F : Type 0} ⦃f : Float F⦄ (lib : Library F) (env : String → String) {S : Type 0}
    (os : System S) (d : Dialer S) (a : Admin S) where
  -- The end of `readSnapshot`; the flag is `usedDemo`.
  unfoldable pub demo : Call S String (String × Bool)
  demo s =
      if str_eq lib.sample ""
      then (inl "no snapshot given and no embedded demo available", s)
      else (inr (lib.sample, true), s)

  -- What `readSnapshot` does with the standard input that it has read.
  unfoldable pub piped : String → Call S String (String × Bool)
  piped text = if str_eq text "" then demo else done (text, false)

  unfoldable pub read_snapshot : String → Call S String (String × Bool)
  read_snapshot path s =
      if str_eq path "-"
      then (os.read_stdin >>= λ text. done (text, false)) s
      else if not (str_eq path "")
      then (os.read_file path >>= λ text. done (text, false)) s
      else if os.stdin_piped s
      then (os.read_stdin >>= piped) s
      else demo s

  abbrev pub parsed : {A : Type 0} → String ⊎ A → Call S String A
  parsed (inl e) s = (inl e, s)
  parsed (inr x) s = (inr x, s)

  abbrev pub parsing : String ⊎ Snapshot F → String ⊎ Snapshot F
  parsing (inl e) = inl ("parsing snapshot: " ++ e)
  parsing (inr snap) = inr snap

  -- The snapshot of a file, of the standard input or of the demo.
  unfoldable pub decoded : String → Call S String (Snapshot F × Bool)
  decoded path = do
    raw ← read_snapshot path
    snap ← parsed (parsing (lib.unmarshal raw.0))
    done (snap, raw.1)

  -- The lines on the standard output.
  abbrev pub print_lines : List String → S → S
  print_lines lines s = foldl (λ t line. os.print (line ++ "\n") t) s lines

  -- An encoder writes its text, or fails.
  abbrev pub emit : String ⊎ String → Call S String (Unit {0})
  emit (inl e) s = (inl e, s)
  emit (inr text) s = os.write_out text s

  unfoldable pub cost_model : String → F → Snapshot F → CostModel F
  cost_model provider cost snap = record {
    provider = if str_eq provider "" then snap.cluster.provider else provider;
    monthly_cost_eur = cost;
    storage_eur_per_gb_mo = f.lit 0 0;
    network_eur_per_gb = f.lit 0 0;
    weights = default_weights;
  }

  unfoldable pub scan_doc : Snapshot F → List (Finding F) → ScanDoc F
  scan_doc snap fs = record {
    cluster = snap.cluster.name;
    taken_at = snap.taken_at;
    total_saving_eur = total_savings_eur fs;
    findings = fs;
  }

  -- The end of `cmdScan`, of the findings or the panic.
  unfoldable pub reported :
      ScanFlags F → Snapshot F → Bool → Option (List (Finding F)) → Call S Failure (Unit {0})
  reported flags snap used_demo none s = (inl panicked, s)
  reported flags snap used_demo (some fs) s =
      if flags.as_json
      then lift (emit (lib.encode_scan (scan_doc snap fs))) s
      else (inr tt, print_lines (render_report snap fs used_demo flags.verbose) s)

  -- The part of `cmdScan` after the snapshot. The clock is read for the rules.
  unfoldable pub scan_snapshot : ScanFlags F → Snapshot F → Bool → Call S Failure (Unit {0})
  scan_snapshot flags snap used_demo s =
      let (now, t) = os.now s in
      reported flags snap used_demo
        (evaluate (snap ∷ []) (cost_model flags.provider flags.cost snap) (default_config now)) t

  -- `cmdScan` after its flags are parsed. In live mode the timeout ends with the command.
  unfoldable pub scan_command : ScanFlags F → Call S Failure (Unit {0})
  scan_command flags s =
      if not (str_eq flags.connect.bootstrap "")
      then deferred os.cancel
          (lift (connect_and_collect f.quote env os d a flags.connect) >>= λ snap.
            scan_snapshot flags snap false)
          (os.with_timeout (collect_timeout flags.connect.sample_window) s)
      else (lift (decoded flags.snapshot) >>= λ got. scan_snapshot flags got.0 got.1) s

  unfoldable pub load_snapshot : String → ConnectFlags → Call S String (Snapshot F)
  load_snapshot path cf s =
      if not (str_eq cf.bootstrap "")
      then within_timeout f.quote env os d a cf s
      else (decoded path >>= λ got. done got.0) s

  unfoldable pub cost_inputs : Snapshot F → List (TopicCostInput F)
  cost_inputs snap =
      map
        (λ t. record {
          name = t.name;
          retained_bytes = t.retained_bytes;
          bytes_in_per_sec = t.bytes_in_per_sec;
          bytes_out_per_sec = t.bytes_out_per_sec;
          partitions = t.partitions;
        })
        snap.topics

  -- `cmdCost` after its flags are parsed.
  unfoldable pub cost_snapshot : CostFlags F → Snapshot F → Call S String (Unit {0})
  cost_snapshot flags snap s =
      let cm = cost_model flags.provider flags.cost snap in
      let alloc = allocate cm (cost_inputs snap) in
      if flags.as_json
      then emit (lib.encode_cost (cost_doc snap cm alloc flags.teams)) s
      else (inr tt, print_lines (render_cost lib.sort_slice lib.range snap cm alloc flags.teams) s)

  unfoldable pub cmd_scan : List String → Call S Failure (Unit {0})
  cmd_scan argv = lift (parsed (lib.parse_scan argv)) >>= scan_command

  unfoldable pub cmd_collect : List String → Call S Failure (Unit {0})
  cmd_collect argv = lift (
      parsed (lib.parse_collect argv) >>= λ flags.
      collect_command f.quote env os d a lib.marshal flags.connect flags.out)

  unfoldable pub cmd_cost : List String → Call S Failure (Unit {0})
  cmd_cost argv = lift (
      parsed (lib.parse_cost (set_team lib.compile f.quote) argv) >>= λ flags.
      load_snapshot flags.snapshot flags.connect >>= cost_snapshot flags)

  unfoldable pub cmd_sample : Call S Failure (Unit {0})
  cmd_sample = lift (os.write_out lib.sample)

  -- The end of `main`. A panic ends the program with the code 2.
  unfoldable pub exit_code : (Failure ⊎ Unit {0}) × S → ℕ × S
  exit_code (inr _, s) = (0, s)
  exit_code (inl (error e), s) = (1, os.note ("brod: " ++ (e ++ "\n")) s)
  exit_code (inl panicked, s) = (2, s)

  -- The commands by their names; `none` is the default of the switch.
  unfoldable pub command : String → List String → Option (Call S Failure (Unit {0}))
  command name argv =
      if str_eq name "scan"
      then some (cmd_scan argv)
      else if str_eq name "collect"
      then some (cmd_collect argv)
      else if str_eq name "cost"
      then some (cmd_cost argv)
      else if str_eq name "sample"
      then some cmd_sample
      else if str_eq name "version" || str_eq name "--version" || str_eq name "-v"
      then some (effect (os.print ("brod " ++ (lib.version ++ "\n"))))
      else if str_eq name "help" || str_eq name "-h" || str_eq name "--help"
      then some (effect (os.note usage))
      else none

  -- `main`, of the arguments after the program's name.
  unfoldable pub run : List String → S → ℕ × S
  run [] s = (2, os.note usage s)
  run (name ∷ argv) s = elim (command name argv) [
    | some m ↦ exit_code (m s)
    | none ↦ (2, os.note usage (os.note ("unknown command " ++ (f.quote name ++ "\n\n")) s))
  ]
