-- ===== src/Examples/Handover.antt =====
-- `brod collect --out snap.json`, then `brod scan --snapshot snap.json`.
use Prim.Native.String.{String}
use text.Mathlib.TextEquality.{eq_iff}
use brod_cli.Base.{false, ◌≡◌, refl, ap, sym, ◌∙◌, ◌⊎◌, inl, inr, [], ◌∷◌, map}
use brod_cli.Base.Int.{ℤ, pos}
use brod_cli.Base.Maps.{find_name, find-alter_name}
use brod_cli.Base.Fixed.{fixed_float}
use brod_cli.Rules.Types.{Snapshot}
use brod_cli.Kafka.Connect.{connect, sasl_mechanism, client_options, verified}
use brod_cli.Kafka.Reads.{
  map_each, broker_info, broker_infos, max_replicas, flatten_offsets, add_size, collect_sizes,
  group_infos, topic_info, topic_infos, config_info, config_infos, committed_from, describe_configs,
  client_reader,
}
use brod_cli.Command.Words.{
  cut, split_comma, drop_spaces, trim, keep_parts, split_csv, host_part, first_host,
}
use brod_cli.Command.Live.{
  collect_timeout, options_of, collected, use_client, with_bootstrap, connect_and_collect,
  collect_command,
}
use brod_cli.Command.Main.{scan_command, scan_snapshot}
use brod_cli.Command.Transfer.{IsDisk, scan_command-collect_command}
use brod_cli.Examples.Samples.{snapshot}
use brod_cli.Examples.Collections.{collection}
use brod_cli.Examples.Worlds.{
  Site, new_site, system, dialer, requests, flags, demo_flags, library, loaded,
}

abbrev quoted : String → String
quoted s = fixed_float.quote s

abbrev no_env : String → String
no_env _ = ""

abbrev snapshot_in : (String ⊎ Snapshot ℤ) × Site → Snapshot ℤ
snapshot_in (inl e, s) = snapshot
snapshot_in (inr snap, s) = snap

abbrev live : Snapshot ℤ
live = snapshot_in (connect_and_collect quoted no_env system dialer requests flags new_site)

-- A line `unfolding client` opens the live collection.
unfoldable client : Unit {0}
unfolding collection connect sasl_mechanism client_options verified map_each broker_info
    broker_infos max_replicas flatten_offsets add_size collect_sizes group_infos topic_info
    topic_infos config_info config_infos committed_from describe_configs client_reader cut
    split_comma drop_spaces trim keep_parts split_csv host_part first_host collect_timeout
    options_of collected use_client with_bootstrap connect_and_collect
client = tt

collected_live :
    connect_and_collect quoted no_env system dialer requests flags new_site ≡ (inr live, new_site)
unfolding client
collected_live = refl

sizes_seen : map (λ t. t.retained_bytes) live.topics ≡ pos 700 ∷ []
unfolding client
sizes_seen = refl

named_after : live.cluster.name ≡ "b1"
unfolding client
named_after = refl

disk : IsDisk system (λ s path. find_name path s.files)
disk = record {
  stores = λ path text s s' e.
      ap (λ z. find_name path z.1.files) (sym e)
      ∙ (find-alter_name path path (λ _. text) s.files ∙ rw ((eq_iff path path).1 refl) refl);
  loads = λ path text s e. ap (λ o. loaded o s) e;
  notes = λ text s. refl;
  cancels = λ s. refl;
}

scan_command-collect_command_example :
    (w : Site) × ((collect_command quoted no_env system dialer requests
          (library live).marshal
          flags
          "snap.json"
          new_site
        ≡ (inr tt, w))
      × (scan_command
            (library live)
            no_env
            system
            dialer
            requests
            (record demo_flags { snapshot = "snap.json" })
            w
          ≡ scan_snapshot
              (library live)
              no_env
              system
              dialer
              requests
              (record demo_flags { snapshot = "snap.json" })
              live
              false
              w))
unfolding collect_timeout
scan_command-collect_command_example =
    scan_command-collect_command (library live) no_env system dialer requests
      (λ s path. find_name path s.files) disk flags (record demo_flags { snapshot = "snap.json" })
      "{}" live new_site new_site (record new_site { files = ("snap.json", "{}\n") ∷ [] }) refl refl
      refl collected_live refl refl refl
