-- ===== src/Command/Closed.antt =====
-- No command of the program leaves a connection open.
use Prim.Native.Nat.{ℕ}
use Prim.Native.String.{String, ◌++◌}
use text.Mathlib.Text.{◌==◌ as str_eq}
use mathlib.Core.Path.{subst}
use mathlib.Core.Option.{some-injective}
use brod_cli.Base.{
  if_both, Bool, false, not, ◌≡◌, refl, sym, ap, ◌∙◌, ◌⊎◌, inl, inr, List, [], ◌∷◌, Bool-cases,
  Option-cases, Option, none, some, ◌||◌,
}
use brod_cli.Base.Float.{Float}
use brod_cli.Rules.Types.{Snapshot, Finding}
use brod_cli.Collect.Types.{Call}
use brod_cli.Collect.Keeps.{Keeps, same-Keeps, and_then-Keeps, if-Keeps}
use brod_cli.Kafka.Admin.{Admin}
use brod_cli.Kafka.Connect.{Dialer}
use brod_cli.Command.Usage.{usage}
use brod_cli.Command.World.{System, Failure, error, panicked, effect}
use brod_cli.Command.Live.{
  ConnectFlags, connect_and_collect, within_timeout, wrote, write_text, write_snapshot,
  collect_command,
}
use brod_cli.Command.Keeps.{IsCounting, connect_and_collect-opened}
use brod_cli.Command.Report.{render_report}
use brod_cli.Command.Teams.{set_team}
use brod_cli.Command.Tables.{render_cost, cost_doc}
use brod_cli.Cost.{allocate}
use brod_cli.Command.Main.{
  parsing, cost_model, cost_inputs, demo, piped, read_snapshot, parsed, decoded, print_lines, emit,
  reported, scan_snapshot, scan_command, load_snapshot, cost_snapshot, cmd_scan, cmd_collect,
  cmd_cost, cmd_sample, exit_code, command, run,
}
use brod_cli.Command.Services.{Library, ScanFlags, CostFlags}
use brod_cli.Command.Lifting.{lift-Keeps, deferred-Keeps, KeepsSome}

module _ {F : Type 0} ⦃f : Float F⦄ (lib : Library F) (env : String → String) {S : Type 0}
    (os : System S) (d : Dialer S) (a : Admin S) (opened : S → ℕ)
    (counting : IsCounting os d a opened) where
  live-Keeps :
      (cf : ConnectFlags) → Keeps opened (connect_and_collect f.quote env os d a {F = F} cf)
  live-Keeps cf =
      same-Keeps opened _ (connect_and_collect-opened os d a opened counting f.quote env F cf)

  demo-Keeps : Keeps opened (demo lib env os d a)
  unfolding demo
  demo-Keeps =
      if-Keeps opened (str_eq lib.sample "") _ _ (same-Keeps opened _ (λ s. refl))
        (same-Keeps opened _ (λ s. refl))

  piped-Keeps : (text : String) → Keeps opened (piped lib env os d a text)
  unfolding piped
  piped-Keeps text = elim (Bool-cases (str_eq text "")) [
    | inl e ↦ rw e demo-Keeps
    | inr e ↦ rw e (same-Keeps opened _ (λ s. refl))
  ]

  read_snapshot-Keeps : (path : String) → Keeps opened (read_snapshot lib env os d a path)
  unfolding read_snapshot
  read_snapshot-Keeps path =
      if-Keeps opened (str_eq path "-") _ _
        (and_then-Keeps opened _ _ counting.reads_in (λ _. same-Keeps opened _ (λ s. refl)))
        (if-Keeps opened (not (str_eq path "")) _ _
          (and_then-Keeps opened _ _ (counting.reads path) (λ _. same-Keeps opened _ (λ s. refl)))
          (same-Keeps opened _ λ s. elim (Bool-cases (os.stdin_piped s)) [
            | inl e ↦ rw e (and_then-Keeps opened _ _ counting.reads_in piped-Keeps s _ _ refl)
            | inr e ↦ rw e (demo-Keeps s _ _ refl)
          ]))

  parsed-Keeps : {A : Type 0} (r : String ⊎ A) → Keeps opened (parsed lib env os d a r)
  parsed-Keeps (inl e) = same-Keeps opened _ (λ s. refl)
  parsed-Keeps (inr v) = same-Keeps opened _ (λ s. refl)

  decoded-Keeps : (path : String) → Keeps opened (decoded lib env os d a path)
  unfolding decoded
  decoded-Keeps path = and_then-Keeps opened _ _ (read_snapshot-Keeps path) λ _.
      and_then-Keeps opened _ _
        (parsed-Keeps {A = Snapshot F} (parsing lib env os d a (lib.unmarshal _)))
        λ _. same-Keeps opened _ (λ s. refl)

  print_lines-opened :
      (lines : List String) (s : S) → opened (print_lines lib env os d a lines s) ≡ opened s
  print_lines-opened [] s = refl
  print_lines-opened (line ∷ lines) s = print_lines-opened lines _ ∙ counting.prints _ s

  emit-Keeps : (r : String ⊎ String) → Keeps opened (emit lib env os d a r)
  emit-Keeps (inl e) = same-Keeps opened _ (λ s. refl)
  emit-Keeps (inr text) = counting.writes_out text

  reported-Keeps :
      (flags : ScanFlags F) (snap : Snapshot F) (used_demo : Bool) (fs : Option (List (Finding F)))
      → Keeps opened (reported lib env os d a flags snap used_demo fs)
  unfolding reported
  reported-Keeps flags snap used_demo none = same-Keeps opened _ (λ s. refl)
  reported-Keeps flags snap used_demo (some fs) =
      if-Keeps opened flags.as_json _ _ (lift-Keeps opened _ (emit-Keeps _))
        (same-Keeps opened _ (print_lines-opened (render_report snap fs used_demo flags.verbose)))

  scan_snapshot-Keeps :
      (flags : ScanFlags F) (snap : Snapshot F) (used_demo : Bool)
      → Keeps opened (scan_snapshot lib env os d a flags snap used_demo)
  unfolding scan_snapshot
  scan_snapshot-Keeps flags snap used_demo =
      same-Keeps opened _
        λ s. reported-Keeps flags snap used_demo _ _ _ _ refl ∙ counting.tells_time s _ _ refl

  scan_command-Keeps : (flags : ScanFlags F) → Keeps opened (scan_command lib env os d a flags)
  unfolding scan_command
  scan_command-Keeps flags =
      if-Keeps opened (not (str_eq flags.connect.bootstrap "")) _ _
        (deferred-Keeps opened _ (os.with_timeout _) os.cancel
          (and_then-Keeps opened _ _ (lift-Keeps opened _ (live-Keeps flags.connect))
            (λ snap. scan_snapshot-Keeps flags snap false))
          (counting.times_out _) counting.cancels)
        (and_then-Keeps opened _ _ (lift-Keeps opened _ (decoded-Keeps flags.snapshot))
          (λ got. scan_snapshot-Keeps flags got.0 got.1))

  load_snapshot-Keeps :
      (path : String) (cf : ConnectFlags) → Keeps opened (load_snapshot lib env os d a path cf)
  unfolding load_snapshot within_timeout
  load_snapshot-Keeps path cf =
      if-Keeps opened (not (str_eq cf.bootstrap "")) _ _
        (deferred-Keeps opened _ (os.with_timeout _) os.cancel (live-Keeps cf)
          (counting.times_out _) counting.cancels)
        (and_then-Keeps opened _ _ (decoded-Keeps path) (λ _. same-Keeps opened _ (λ s. refl)))

  cost_snapshot-Keeps :
      (flags : CostFlags F) (snap : Snapshot F)
      → Keeps opened (cost_snapshot lib env os d a flags snap)
  unfolding cost_snapshot
  cost_snapshot-Keeps flags snap =
      let cm = cost_model lib env os d a flags.provider flags.cost snap in
      let alloc = allocate cm (cost_inputs lib env os d a snap) in
      if-Keeps opened flags.as_json _ _
        (emit-Keeps (lib.encode_cost (cost_doc snap cm alloc flags.teams)))
        (same-Keeps opened _
          (print_lines-opened (render_cost lib.sort_slice lib.range snap cm alloc flags.teams)))

  wrote-opened :
      (out : String) (snap : Snapshot F) (r : (String ⊎ Unit {0}) × S)
      → opened (wrote f.quote env os d a out snap r).1 ≡ opened r.1
  unfolding wrote
  wrote-opened out snap (inl e, t) = refl
  wrote-opened out snap (inr _, t) = counting.notes _ t

  write_text-Keeps :
      (out : String) (snap : Snapshot F) (r : String ⊎ String)
      → Keeps opened (write_text f.quote env os d a out snap r)
  unfolding write_text
  write_text-Keeps out snap (inl e) s s' r p = sym (ap (λ z. opened z.1) p)
  write_text-Keeps out snap (inr text) s s' r p =
      if-Keeps opened (str_eq out "" || str_eq out "-") (os.write_out (text ++ "\n"))
        (λ t. wrote f.quote env os d a out snap (os.write_file out (text ++ "\n") t))
        (counting.writes_out _)
        (same-Keeps opened _ (λ t. wrote-opened out snap _ ∙ counting.writes out _ t _ _ refl)) s s'
        r p

  write_snapshot-Keeps :
      (marshal : Snapshot F → String ⊎ String) (out : String) (snap : Snapshot F)
      → Keeps opened (write_snapshot f.quote env os d a marshal out snap)
  unfolding write_snapshot
  write_snapshot-Keeps marshal out snap = write_text-Keeps out snap (marshal snap)

  collect_command-Keeps :
      (cf : ConnectFlags) (out : String)
      → Keeps opened (collect_command f.quote env os d a lib.marshal cf out)
  unfolding collect_command
  collect_command-Keeps cf out =
      deferred-Keeps opened _ (os.with_timeout _) os.cancel
        (and_then-Keeps opened _ _ (live-Keeps cf) (write_snapshot-Keeps lib.marshal out))
        (counting.times_out _) counting.cancels

  cmd_scan-Keeps : (argv : List String) → Keeps opened (cmd_scan lib env os d a argv)
  unfolding cmd_scan
  cmd_scan-Keeps argv =
      and_then-Keeps opened _ _ (lift-Keeps opened _ (parsed-Keeps (lib.parse_scan argv)))
        scan_command-Keeps

  cmd_collect-Keeps : (argv : List String) → Keeps opened (cmd_collect lib env os d a argv)
  unfolding cmd_collect
  cmd_collect-Keeps argv = lift-Keeps opened _ (
      and_then-Keeps opened _ _ (parsed-Keeps (lib.parse_collect argv))
        (λ flags. collect_command-Keeps flags.connect flags.out))

  cmd_cost-Keeps : (argv : List String) → Keeps opened (cmd_cost lib env os d a argv)
  unfolding cmd_cost
  cmd_cost-Keeps argv = lift-Keeps opened _ (
      and_then-Keeps opened _ _ (parsed-Keeps (lib.parse_cost (set_team lib.compile f.quote) argv))
        λ flags.
          and_then-Keeps opened _ _ (load_snapshot-Keeps flags.snapshot flags.connect)
            (cost_snapshot-Keeps flags))

  cmd_sample-Keeps : Keeps opened (cmd_sample lib env os d a)
  unfolding cmd_sample
  cmd_sample-Keeps = lift-Keeps opened _ (counting.writes_out lib.sample)

  -- Every command of the switch.
  command-Keeps :
      (name : String) (argv : List String) → KeepsSome opened (command lib env os d a name argv)
  unfolding command
  command-Keeps name argv =
      let P : Option (Call S Failure (Unit {0})) → Type 0 = KeepsSome opened in
      if_both P (str_eq name "scan") _ _ (cmd_scan-Keeps argv) (
        if_both P (str_eq name "collect") _ _ (cmd_collect-Keeps argv) (
          if_both P (str_eq name "cost") _ _ (cmd_cost-Keeps argv) (
            if_both P (str_eq name "sample") _ _ cmd_sample-Keeps (
              if_both P (str_eq name "version" || str_eq name "--version" || str_eq name "-v")
                (some (effect (os.print ("brod " ++ (lib.version ++ "\n"))))) _
                (same-Keeps opened
                  (effect {E = Failure} (os.print ("brod " ++ (lib.version ++ "\n"))))
                  (counting.prints _))
                (if_both P (str_eq name "help" || str_eq name "-h" || str_eq name "--help")
                  (some (effect (os.note usage))) none
                  (same-Keeps opened (effect {E = Failure} (os.note usage)) (counting.notes _))
                  tt)))))

  kept_some :
      (m : Option (Call S Failure (Unit {0}))) (k : Call S Failure (Unit {0}))
      → KeepsSome opened m
      → m ≡ some k
      → Keeps opened k
  kept_some none k h e = cc
  kept_some (some j) k h e = subst (Keeps opened) (some-injective _ _ e) h

  exit_code-opened :
      (r : (Failure ⊎ Unit {0}) × S) → opened (exit_code lib env os d a r).1 ≡ opened r.1
  unfolding exit_code
  exit_code-opened (inr _, s) = refl
  exit_code-opened (inl (error e), s) = counting.notes _ s
  exit_code-opened (inl panicked, s) = refl

  -- However the program ends, on whatever arguments, no connection to a cluster is open that was
  -- not open before.
  pub run-opened : (args : List String) (s : S) → opened (run lib env os d a args s).1 ≡ opened s
  unfolding run
  run-opened [] s = counting.notes _ s
  run-opened (name ∷ argv) s = elim (Option-cases (command lib env os d a name argv)) [
    | inl unknown ↦ rw (run, unknown) (counting.notes _ _ ∙ counting.notes _ s)
    | inr (m, e) ↦
        rw (run, e) (exit_code-opened (m s) ∙ kept_some _ m (command-Keeps name argv) e s _ _ refl)
  ]
