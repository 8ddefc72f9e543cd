-- ===== src/Command/Transfer.antt =====
-- `brod collect --out FILE`, then `brod scan --snapshot FILE`.
use Prim.Native.String.{String, ◌++◌}
use text.Mathlib.Text.{◌==◌ as str_eq}
use brod_cli.Base.{true, false, ◌||◌, ◌≡◌, refl, ap, ◌∙◌, ◌⊎◌, inr, Option, some, length}
use brod_cli.Base.Text.{show_ℕ}
use brod_cli.Base.Float.{Float}
use brod_cli.Rules.Types.{Snapshot}
use brod_cli.Kafka.Admin.{Admin}
use brod_cli.Kafka.Connect.{Dialer}
use brod_cli.Command.World.{System}
use brod_cli.Command.Live.{
  ConnectFlags, collect_timeout, connect_and_collect, wrote, write_text, write_snapshot,
  collect_command,
}
use brod_cli.Command.Main.{read_snapshot, decoded, scan_snapshot, scan_command}
use brod_cli.Command.Services.{Library, ScanFlags}

-- The files that the state holds: what is written is there afterwards, what is there is read, and
-- neither a message nor the end of a timeout changes a file.
pub record IsDisk {S : Type 0} (os : System S) (file : S → String → Option String) : Type 0 where
  pub stores :
      (path text : String) (s s' : S)
      → os.write_file path text s ≡ (inr tt, s')
      → file s' path ≡ some text
  pub loads :
      (path text : String) (s : S) → file s path ≡ some text → os.read_file path s ≡ (inr text, s)
  pub notes : (text : String) (s : S) → file (os.note text s) ≡ file s
  pub cancels : (s : S) → file (os.cancel s) ≡ file s

module _ {F : Type 0} ⦃f : Float F⦄ (lib : Library F) (env : String → String) {S : Type 0}
    (os : System S) (d : Dialer S) (a : Admin S) where
  -- The command ends well with the text in the file.
  abbrev pub Leaves :
      (S → String → Option String) → String → String → (String ⊎ Unit {0}) × S → Type 0
  Leaves file path text r = (w : S) × ((r ≡ (inr tt, w)) × (file w path ≡ some text))

  module _ (file : S → String → Option String) (disk : IsDisk os file) where
    collect_command-Leaves :
        (cf : ConnectFlags) (out text : String) (snap : Snapshot F) (s t u : S)
        → (str_eq out "" || str_eq out "-") ≡ false
        → connect_and_collect f.quote env os d a cf
            (os.with_timeout (collect_timeout cf.sample_window) s)
          ≡ (inr snap, t)
        → lib.marshal snap ≡ inr text
        → os.write_file out (text ++ "\n") t ≡ (inr tt, u)
        → Leaves file out (text ++ "\n") (collect_command f.quote env os d a lib.marshal cf out s)
    unfolding collect_command write_snapshot write_text wrote
    collect_command-Leaves cf out text snap s t u named live encoded stored =
        let kept = disk.stores out (text ++ "\n") t u stored in
        let told =
          "  wrote snapshot for "
          ++ (show_ℕ (length snap.topics) ++ (" topics to " ++ (out ++ "\n"))) in
        (
          os.cancel (os.note told u),
          (
            rw (live, encoded, named, stored) refl,
            ap (λ g. g out) (disk.cancels (os.note told u) ∙ disk.notes told u) ∙ kept,
          ),
        )

    decoded_file :
        (path text : String) (snap : Snapshot F) (w : S)
        → str_eq path "-" ≡ false
        → str_eq path "" ≡ false
        → file w path ≡ some text
        → lib.unmarshal text ≡ inr snap
        → decoded lib env os d a path w ≡ (inr (snap, false), w)
    unfolding decoded read_snapshot
    decoded_file path text snap w no_dash some_path there decode =
        rw (no_dash, some_path, disk.loads path text w there, decode) refl

    -- If a live collection returns a snapshot, the snapshot encodes to a text that with a new line
    -- after it decodes to the snapshot again, and the text is written to the file that `--out`
    -- names, then `collect` succeeds, and in the state that it leaves `scan` with that file and no
    -- bootstrap servers does exactly what it does with the snapshot that was collected.
    pub scan_command-collect_command :
        (cf : ConnectFlags) (flags : ScanFlags F) (text : String) (snap : Snapshot F) (s t u : S)
        → str_eq flags.snapshot "" ≡ false
        → str_eq flags.snapshot "-" ≡ false
        → str_eq flags.connect.bootstrap "" ≡ true
        → connect_and_collect f.quote env os d a cf
            (os.with_timeout (collect_timeout cf.sample_window) s)
          ≡ (inr snap, t)
        → lib.marshal snap ≡ inr text
        → lib.unmarshal (text ++ "\n") ≡ inr snap
        → os.write_file flags.snapshot (text ++ "\n") t ≡ (inr tt, u)
        → (w : S) × ((collect_command f.quote env os d a lib.marshal cf flags.snapshot s
              ≡ (inr tt, w))
            × (scan_command lib env os d a flags w
                ≡ scan_snapshot lib env os d a flags snap false w))
    unfolding scan_command
    scan_command-collect_command cf flags text snap s t u some_path no_dash no_hosts live encoded
          decode stored =
        let (w, (done_well, there)) =
          collect_command-Leaves cf flags.snapshot text snap s t u (rw (some_path, no_dash) refl)
            live encoded stored in
        let read =
          decoded_file flags.snapshot (text ++ "\n") snap w no_dash some_path there decode in
        (w, (done_well, rw (no_hosts, read) refl))
