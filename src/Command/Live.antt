-- ===== src/Command/Live.antt =====
-- cmd/brod/live.go: the live collection of a snapshot and `brod collect`.
use Prim.Native.Char.{Char}
use Prim.Native.String.{String, ◌++◌}
use text.Mathlib.Text.{◌==◌ as str_eq}
use brod_cli.Base.{
  Bool, false, ◌||◌, some, List, [], ◌∷◌, ◌⊎◌, inl, inr, foldl, length, if◌then◌else◌,
}
use brod_cli.Base.Int.{ℤ, pos, ◌+ℤ◌, i64}
use brod_cli.Base.Text.{show_ℕ}
use brod_cli.Base.Float.{Float}
use brod_cli.Rules.Types.{Snapshot}
use brod_cli.Collect.Types.{Options, Call, and_then, ◌>>=◌, ◌>>◌}
use brod_cli.Collect.Build.{build}
use brod_cli.Kafka.ReadOnly.{ReadOnlyCheck}
use brod_cli.Kafka.Admin.{Admin}
use brod_cli.Kafka.Reads.{client_reader, probe_rights}
use brod_cli.Kafka.Connect.{Config, Dialer, connect}
use brod_cli.Command.Words.{runes, trim, split_csv, first_host}
use brod_cli.Command.World.{System, deferred}

abbrev pub read_only_banner : String
read_only_banner =
    "brod is read-only: it issues only Admin/Describe/Metadata/ListOffsets/OffsetFetch — no produce, no consume, no message payloads ever."

-- The values of the flags; `sample_window` is in nanoseconds.
pub record ConnectFlags : Type 0 where
  pub bootstrap : String
  pub tls : Bool
  pub sasl_mechanism : String
  pub user : String
  pub pass : String
  pub cluster_name : String
  pub sample_window : ℤ
  pub require_read_only : Bool
  pub include_internal : Bool

-- The defaults that `registerConnectFlags` gives.
abbrev pub default_flags : ConnectFlags
default_flags = record {
  bootstrap = "";
  tls = false;
  sasl_mechanism = "";
  user = "";
  pass = "";
  cluster_name = "";
  sample_window = pos 30_000_000_000;
  require_read_only = false;
  include_internal = false;
}

abbrev pub config_of : ConnectFlags → Config
config_of cf = record {
  bootstrap = split_csv cf.bootstrap;
  tls = cf.tls;
  sasl = record { mechanism = cf.sasl_mechanism; user = cf.user; pass = cf.pass };
  dial_timeout = pos 0;
}

-- `provider` is left empty.
unfoldable pub options_of : ConnectFlags → ℤ → Options
options_of cf now = record {
  cluster_name = if str_eq cf.cluster_name "" then first_host cf.bootstrap else cf.cluster_name;
  provider = "";
  now = some now;
  sample_window = cf.sample_window;
  include_internal = cf.include_internal;
}

-- `window + 60*time.Second`
unfoldable pub collect_timeout : ℤ → ℤ
collect_timeout window = i64 (window +ℤ pos 60_000_000_000)

abbrev pub minimal_read_only_acl : String
minimal_read_only_acl =
    "  Grant a minimal read-only principal instead (adjust --bootstrap-server and User:brod):\n\n    kafka-acls --bootstrap-server <host:9092> \\\n      --add --allow-principal User:brod \\\n      --operation Describe --operation DescribeConfigs \\\n      --cluster --topic '*' --group '*'\n\n  This permits metadata/describe/offset reads only — no Read (consume), no Write, no Alter.\n"

-- The error that lists the detected grants.
unfoldable pub refusal : List String → String
refusal violations =
    "credential is NOT read-only — refusing to proceed (--require-readonly). Detected grants:\n"
    ++ (foldl (λ text v. text ++ ("    - " ++ (v ++ "\n"))) "" violations ++ minimal_read_only_acl)

-- `quote` is the verb `%q`, `env` is `os.Getenv`.
module _ (quote : String → String) (env : String → String) {S : Type 0} (os : System S)
    (d : Dialer S) (a : Admin S) where
  -- The last two steps of `enforceReadOnly`, on the violations.
  unfoldable pub verdict : List String → Call S String (Unit {0})
  verdict [] s = (
    inr tt,
    os.note "  read-only check: passed (no write/topic-READ grants detected for this principal).\n"
        s,
  )
  verdict (v ∷ vs) s = (inl (refusal (v ∷ vs)), s)

  -- `enforceReadOnly` after the probe, which can not fail.
  unfoldable pub judged : ReadOnlyCheck → Call S String (Unit {0})
  judged chk s = if chk.supported then verdict chk.violations s else (
    inr tt,
    os.note
        "  note: cluster did not expose ACLs (no authorizer or insufficient Describe) — could not verify read-only; proceeding on the read-only banner's guarantee. Full enforcement is a brod.sh (SaaS) feature.\n"
        s,
  )

  unfoldable pub enforce_read_only : Call S String (Unit {0})
  enforce_read_only = do chk ← probe_rights a quote; judged chk

  module _ {F : Type 0} ⦃f : Float F⦄ (cf : ConnectFlags) where
    -- The collection, with the clock read just before it.
    unfoldable pub collected : Call S String (Snapshot F)
    collected s =
        let (now, t) = os.now s in build (client_reader a quote) os.sleep (options_of cf now) now t

    -- What `connectAndCollect` does with a client.
    unfoldable pub use_client : Call S String (Snapshot F)
    use_client s = if cf.require_read_only then (enforce_read_only >> collected) s else collected s

    -- `connectAndCollect` on the bootstrap list without the white space around it.
    unfoldable pub with_bootstrap : List Char → Call S String (Snapshot F)
    with_bootstrap [] s = (inl "--bootstrap is required (comma-separated host:port)", s)
    with_bootstrap (c ∷ cs) s =
        and_then
          (connect quote env d (config_of cf) (os.note ("  " ++ (read_only_banner ++ "\n")) s))
          (λ _. deferred d.close use_client)

    unfoldable pub connect_and_collect : Call S String (Snapshot F)
    connect_and_collect = with_bootstrap (trim (runes cf.bootstrap))

    -- The live branch of `loadSnapshot`.
    unfoldable pub within_timeout : Call S String (Snapshot F)
    within_timeout s =
        deferred os.cancel connect_and_collect
          (os.with_timeout (collect_timeout cf.sample_window) s)

  module _ {F : Type 0} where
    -- The end of `cmdCollect` after the file is written.
    unfoldable pub wrote : String → Snapshot F → (String ⊎ Unit {0}) × S → (String ⊎ Unit {0}) × S
    wrote out snap (inl e, t) = (inl ("writing snapshot: " ++ e), t)
    wrote out snap (inr _, t) = (
      inr tt,
      os.note
          ("  wrote snapshot for "
            ++ (show_ℕ (length snap.topics) ++ (" topics to " ++ (out ++ "\n"))))
          t,
    )

    -- `out` is the path, and the text is the encoded snapshot or the encoder's error.
    unfoldable pub write_text : String → Snapshot F → String ⊎ String → Call S String (Unit {0})
    write_text out snap (inl e) s = (inl ("encoding snapshot: " ++ e), s)
    write_text out snap (inr text) s =
        if str_eq out "" || str_eq out "-"
        then os.write_out (text ++ "\n") s
        else wrote out snap (os.write_file out (text ++ "\n") s)

    -- `marshal` is `json.MarshalIndent`.
    unfoldable pub write_snapshot :
        (Snapshot F → String ⊎ String) → String → Snapshot F → Call S String (Unit {0})
    write_snapshot marshal out snap = write_text out snap (marshal snap)

  -- `cmdCollect` after its flags are parsed. The timeout ends with the command.
  module _ {F : Type 0} ⦃f : Float F⦄ where
    unfoldable pub collect_command :
        (Snapshot F → String ⊎ String) → ConnectFlags → String → Call S String (Unit {0})
    collect_command marshal cf out s =
        deferred os.cancel (connect_and_collect {F = F} cf >>= write_snapshot marshal out)
          (os.with_timeout (collect_timeout cf.sample_window) s)
