-- ===== src/Command/Exit.antt =====
-- How the program ends.
use Prim.Native.String.{String, ◌++◌}
use text.Mathlib.Text.{◌==◌ as str_eq}
use brod_cli.Base.{
  if_both, Bool, true, false, not, ◌≡◌, refl, sym, ap, ◌∙◌, ◌⊎◌, inl, inr, List, [], ◌∷◌,
  Bool-cases, arith, Option, none, some, ◌||◌,
}
use brod_cli.Base.Float.{Float}
use brod_cli.Rules.Types.{Snapshot, Finding}
use brod_cli.Rules.Config.{default_config, default_r7}
use brod_cli.Rules.Engine.{evaluate}
use brod_cli.Rules.Engine.Total.{Returns, evaluate-Returns}
use brod_cli.Collect.Types.{Call}
use brod_cli.Kafka.Admin.{Admin}
use brod_cli.Kafka.Connect.{Dialer}
use brod_cli.Kafka.Errors.{Blames, and_then-Blames}
use brod_cli.Command.Usage.{usage}
use brod_cli.Command.World.{System, Failure, error, panicked, effect}
use brod_cli.Command.Live.{connect_and_collect}
use brod_cli.Command.Main.{
  cost_model, decoded, emit, reported, scan_doc, scan_snapshot, scan_command, cmd_scan, cmd_collect,
  cmd_cost, cmd_sample, exit_code, command, run,
}
use brod_cli.Command.Services.{Library, ScanFlags}
use brod_cli.Command.Lifting.{IsError, lift-Blames, deferred-Blames, if-Blames}

-- The names that the program knows.
abbrev pub is_command : String → Bool
is_command name =
    str_eq name "scan"
    || (str_eq name "collect"
        || (str_eq name "cost"
            || (str_eq name "sample"
                || (str_eq name "version"
                    || (str_eq name "--version"
                        || (str_eq name "-v"
                            || (str_eq name "help"
                                || (str_eq name "-h" || str_eq name "--help"))))))))

module _ {F : Type 0} ⦃f : Float F⦄ (lib : Library F) (env : String → String) {S : Type 0}
    (os : System S) (d : Dialer S) (a : Admin S) where
  -- The rules return a report under the default configuration.
  evaluate_default :
      (snap : Snapshot F) (flags : ScanFlags F) (now : _)
      → Returns (
          evaluate
            (snap ∷ [])
            (cost_model lib env os d a flags.provider flags.cost snap)
            (default_config now))
  unfolding default_config default_r7
  evaluate_default snap flags now = evaluate-Returns _ _ _ (omega arith)

  reported-IsError :
      (flags : ScanFlags F) (snap : Snapshot F) (used_demo : Bool) (fs : List (Finding F))
      → Blames IsError (reported lib env os d a flags snap used_demo (some fs))
  unfolding reported
  reported-IsError flags snap used_demo fs s s' e = elim (Bool-cases flags.as_json) [
    | inl json ↦ rw json (
        lift-Blames (emit lib env os d a (lib.encode_scan (scan_doc lib env os d a snap fs))) s s'
          e)
    | inr text ↦ rw text (λ p. cc)
  ]

  scan_snapshot-IsError :
      (flags : ScanFlags F) (snap : Snapshot F) (used_demo : Bool)
      → Blames IsError (scan_snapshot lib env os d a flags snap used_demo)
  unfolding scan_snapshot
  scan_snapshot-IsError flags snap used_demo s s' e p =
      let (fs, found) = evaluate_default snap flags (os.now s).0 in
      reported-IsError flags snap used_demo fs (os.now s).1 s' e
        (ap (λ r. reported lib env os d a flags snap used_demo r (os.now s).1) (sym found) ∙ p)

  scan_command-IsError : (flags : ScanFlags F) → Blames IsError (scan_command lib env os d a flags)
  unfolding scan_command
  scan_command-IsError flags =
      if-Blames IsError (not (str_eq flags.connect.bootstrap "")) _ _
        (deferred-Blames IsError _ (os.with_timeout _) os.cancel (
          and_then-Blames IsError _ _
            (lift-Blames (connect_and_collect f.quote env os d a flags.connect))
            (λ snap. scan_snapshot-IsError flags snap false)))
        (and_then-Blames IsError _ _ (lift-Blames (decoded lib env os d a flags.snapshot))
          (λ got. scan_snapshot-IsError flags got.0 got.1))

  -- The call, where there is one, does not panic.
  abbrev Sound : Option (Call S Failure (Unit {0})) → Type 0
  Sound none = Unit
  Sound (some m) = Blames IsError m

  command-Sound : (name : String) (argv : List String) → Sound (command lib env os d a name argv)
  unfolding command cmd_collect cmd_cost cmd_sample cmd_scan
  command-Sound name argv =
      if_both Sound (str_eq name "scan") (some (cmd_scan lib env os d a argv)) _
        (and_then-Blames IsError _ _ (lift-Blames _) scan_command-IsError)
        (if_both Sound (str_eq name "collect") (some (cmd_collect lib env os d a argv)) _
          (lift-Blames _)
          (if_both Sound (str_eq name "cost") (some (cmd_cost lib env os d a argv)) _
            (lift-Blames _)
            (if_both Sound (str_eq name "sample") (some (cmd_sample lib env os d a)) _
              (lift-Blames _)
              (if_both Sound (str_eq name "version" || str_eq name "--version" || str_eq name "-v")
                (some (effect (os.print ("brod " ++ (lib.version ++ "\n"))))) _ (λ s s' e p. cc)
                (if_both Sound (str_eq name "help" || str_eq name "-h" || str_eq name "--help")
                  (some (effect (os.note usage))) none (λ s s' e p. cc) tt)))))

  abbrev is_some : {A : Type 0} → Option A → Bool
  is_some none = false
  is_some (some x) = true

  command-is_command :
      (name : String) (argv : List String)
      → is_some (command lib env os d a name argv) ≡ is_command name
  unfolding command
  command-is_command name argv = ground arith

  exit_code_below :
      (m : Call S Failure (Unit {0})) (s : S)
      → Blames IsError m
      → ((exit_code lib env os d a (m s)).0 ≡ 0) ⊎ ((exit_code lib env os d a (m s)).0 ≡ 1)
  unfolding exit_code
  exit_code_below m s h = step (m s) refl
    where
      step :
          (r : (Failure ⊎ Unit {0}) × S)
          → m s ≡ r
          → ((exit_code lib env os d a r).0 ≡ 0) ⊎ ((exit_code lib env os d a r).0 ≡ 1)
      step (inr _, t) p = inl refl
      step (inl (error e), t) p = inr refl
      step (inl panicked, t) p = absurd (h s t panicked p)

  -- The exit code of the program is 2 if and only if its first argument is no command; otherwise
  -- it is 0 or 1, so no command ends in a panic of the rules, whatever the snapshot.
  pub run-is_command :
      (name : String) (argv : List String) (s : S)
      → (is_command name ≡ false → (run lib env os d a (name ∷ argv) s).0 ≡ 2)
        × (is_command name ≡ true
            → ((run lib env os d a (name ∷ argv) s).0 ≡ 0)
              ⊎ ((run lib env os d a (name ∷ argv) s).0 ≡ 1))
  unfolding run
  run-is_command name argv s =
      step (command lib env os d a name argv) (command-is_command name argv)
        (command-Sound name argv) refl
    where
      step :
          (m : Option (Call S Failure (Unit {0})))
          → is_some m ≡ is_command name
          → Sound m
          → command lib env os d a name argv ≡ m
          → (is_command name ≡ false → (run lib env os d a (name ∷ argv) s).0 ≡ 2)
            × (is_command name ≡ true
                → ((run lib env os d a (name ∷ argv) s).0 ≡ 0)
                  ⊎ ((run lib env os d a (name ∷ argv) s).0 ≡ 1))
      step none e h q = (λ k. rw (run, q) refl, λ k. cc)
      step (some m) e h q = (λ k. cc, λ k. rw (run, q) (exit_code_below m s h))
