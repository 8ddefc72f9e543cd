-- ===== src/Examples/Commands.antt =====
-- The commands on a small machine.
use Prim.Native.String.{String, ◌++◌}
use brod_cli.Base.{true, false, ◌≡◌, refl, ◌⊎◌, inl, inr, [], ◌∷◌, arith}
use brod_cli.Base.Int.{ℤ}
use brod_cli.Base.Fixed.{fixed_float}
use brod_cli.Base.Text.{is_space}
use brod_cli.Kafka.ReadOnly.{check_read_only}
use brod_cli.Kafka.Rights.{total_excess, all_answered}
use brod_cli.Kafka.Connect.{connect, sasl_mechanism, client_options, verified}
use brod_cli.Command.Words.{runes, split_comma, drop_spaces, trim, keep_parts, split_csv}
use brod_cli.Command.Live.{verdict, judged, enforce_read_only, config_of, connect_and_collect}
use brod_cli.Command.Main.{read_snapshot, run}
use brod_cli.Command.Keeps.{after, connect-opened, connect_and_collect-opened}
use brod_cli.Command.Closed.{run-opened}
use brod_cli.Command.Refusal.{connect_and_collect-total_excess, enforce_read_only-total_excess}
use brod_cli.Command.Sources.{IsTold, read_snapshot-IsTold}
use brod_cli.Kafka.Admin.{Admin}
use brod_cli.Kafka.Reads.{probe_rights}
use brod_cli.Collect.Types.{done}
use brod_cli.Command.Exit.{is_command, run-is_command}
use brod_cli.Examples.Samples.{snapshot}
use brod_cli.Examples.Worlds.{
  Site, new_site, system, dialer, requests, grants, flags, strict_flags, library, counted,
}

abbrev quoted : String → String
quoted s = "\"" ++ s ++ "\""

abbrev no_env : String → String
no_env _ = ""

connect-opened_example :
    (connect quoted no_env dialer (config_of flags) new_site).1.opened
    ≡ after (connect quoted no_env dialer (config_of flags) new_site).0 0
connect-opened_example =
    connect-opened system dialer requests (λ s. s.opened) counted quoted no_env (config_of flags)
      new_site

connect_and_collect-opened_example :
    (connect_and_collect quoted no_env system dialer requests {F = ℤ} strict_flags
      new_site).1.opened
    ≡ 0
connect_and_collect-opened_example =
    connect_and_collect-opened system dialer requests (λ s. s.opened) counted quoted no_env ℤ
      strict_flags new_site

run-opened_example :
    (run (library snapshot) no_env system dialer requests ("collect" ∷ []) new_site).1.opened ≡ 0
run-opened_example =
    run-opened (library snapshot) no_env system dialer requests (λ s. s.opened) counted
      ("collect" ∷ []) new_site

run-is_command_example :
    (is_command "scna" ≡ false
      → (run (library snapshot) no_env system dialer requests ("scna" ∷ []) new_site).0 ≡ 2)
    × (is_command "scna" ≡ true
        → ((run (library snapshot) no_env system dialer requests ("scna" ∷ []) new_site).0 ≡ 0)
          ⊎ ((run (library snapshot) no_env system dialer requests ("scna" ∷ []) new_site).0 ≡ 1))
run-is_command_example =
    run-is_command (library snapshot) no_env system dialer requests "scna" [] new_site

abbrev connected : Site
connected = record new_site { opened = 1 }

opens : connect quoted no_env dialer (config_of strict_flags) new_site ≡ (inr tt, connected)
unfolding connect sasl_mechanism client_options verified split_csv keep_parts split_comma trim
    drop_spaces is_space
opens = refl

listed : trim (runes strict_flags.bootstrap) ≡ "b" ∷ runes "1:9092"
unfolding trim drop_spaces is_space
listed = refl

connect_and_collect-total_excess_example :
    (e : String) × (connect_and_collect quoted no_env system dialer requests {F = ℤ} strict_flags
        new_site
      ≡ (inl e, new_site))
unfolding all_answered total_excess
connect_and_collect-total_excess_example =
    connect_and_collect-total_excess quoted no_env system dialer requests ℤ strict_flags "b"
      (runes "1:9092") grants new_site connected connected refl listed opens refl refl (omega arith)

abbrev told : Site
told = record new_site { files = ("snap.json", "{}\n") ∷ [] }

read_snapshot-IsTold_example :
    IsTold
      (library snapshot)
      no_env
      system
      dialer
      requests
      "snap.json"
      told
      (read_snapshot (library snapshot) no_env system dialer requests "snap.json" told)
read_snapshot-IsTold_example =
    read_snapshot-IsTold (library snapshot) no_env system dialer requests "snap.json" told

-- A cluster whose credential may only read metadata.
abbrev harmless : Admin Site
harmless = record requests { describe_acls = done [] }

passes :
    (w : Site) × (enforce_read_only quoted no_env system dialer harmless new_site ≡ (inr tt, w))
unfolding enforce_read_only probe_rights judged verdict check_read_only
passes = (_, refl)

enforce_read_only-total_excess_example : (all_answered [] ≡ false) ⊎ (total_excess [] ≡ 0)
enforce_read_only-total_excess_example =
    enforce_read_only-total_excess quoted no_env system dialer harmless [] new_site new_site
      passes.0 refl passes.1
