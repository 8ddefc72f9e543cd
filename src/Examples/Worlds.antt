-- ===== src/Examples/Worlds.antt =====
-- A machine with files and a small cluster, on which the commands run.
use Prim.Native.Nat.{◌-◌}
use Prim.Native.String.{String}
use text.Mathlib.Text.{◌==◌ as str_eq}
use brod_cli.Base.{
  sym, ℕ, suc, true, false, ◌≡◌, refl, none, some, Option, ◌⊎◌, inl, inr, List, [], ◌∷◌, ap,
  if◌then◌else◌,
}
use brod_cli.Base.Int.{ℤ, pos}
use brod_cli.Base.Text.{has_prefix}
use brod_cli.Base.Maps.{GoMap, find_name, alter_name}
use brod_cli.Rules.Types.{Snapshot}
use brod_cli.Collect.Types.{done}
use brod_cli.Collect.Keeps.{Keeps, same-Keeps}
use brod_cli.Kafka.ReadOnly.{AclResult, op_write}
use brod_cli.Kafka.Admin.{Admin}
use brod_cli.Kafka.Keeps.{KeepsRequests}
use brod_cli.Kafka.Connect.{Dialer}
use brod_cli.Command.World.{System}
use brod_cli.Command.Live.{ConnectFlags, default_flags}
use brod_cli.Command.Keeps.{IsCounting}
use brod_cli.Command.Services.{Library, ScanFlags}

pub record Site : Type 0 where
  pub opened : ℕ
  pub files : GoMap String String
  pub printed : List String

abbrev pub new_site : Site
new_site = record { opened = 0; files = []; printed = [] }

abbrev pub loaded : Option String → Site → (String ⊎ String) × Site
loaded none s = (inl "no such file", s)
loaded (some text) s = (inr text, s)

abbrev pub system : System Site
system = record {
  read_file = λ path s. loaded (find_name path s.files) s;
  write_file = λ path text s. (inr tt, record s { files = alter_name path (λ _. text) s.files });
  stdin_piped = λ _. false;
  read_stdin = done "";
  write_out = λ _. done tt;
  print = λ text s. record s { printed = text ∷ s.printed };
  note = λ _ s. s;
  now = λ s. (pos 5, s);
  sleep = λ _. done tt;
  with_timeout = λ _ s. s;
  cancel = λ s. s;
}

abbrev pub dialer : Dialer Site
dialer = record {
  new_client = λ _ s. (inr tt, record s { opened = suc s.opened });
  broker_metadata = done tt;
  close = λ s. record s { opened = s.opened - 1 };
}

-- The credential may write.
abbrev pub grants : List AclResult
grants =
    record {
      failed = false;
      described =
          record {
            is_topic = true;
            type_name = "TOPIC";
            name = "orders";
            operation = op_write;
            is_allow = true;
          }
          ∷ [];
    }
    ∷ []

abbrev pub requests : Admin Site
requests = record {
  broker_metadata =
      done (record { node_id = pos 1; port = pos 9092; host = "b1"; rack = none } ∷ []);
  list_topics = done (
      ("orders", record { is_internal = false; err = none; partitions = (pos 0, pos 1 ∷ []) ∷ [] })
      ∷ []);
  describe_topic_configs = λ _. done [];
  describe_all_log_dirs = done (
      (record { topic = "orders"; partition = pos 0; size = pos 700; is_future = false } ∷ [])
      ∷ []);
  list_start_offsets = done [];
  list_end_offsets = done [];
  list_groups = done [];
  fetch_offsets = λ _. done [];
  describe_acls = done grants;
}

abbrev pub flags : ConnectFlags
flags = record default_flags { bootstrap = "b1:9092"; sample_window = pos 0 }

abbrev pub strict_flags : ConnectFlags
strict_flags = record flags { require_read_only = true }

abbrev pub demo_flags : ScanFlags ℤ
demo_flags = record {
  snapshot = "";
  cost = pos 0;
  provider = "";
  as_json = false;
  verbose = false;
  connect = default_flags;
}

-- JSON that holds one snapshot.
abbrev pub library : Snapshot ℤ → Library ℤ
library snap = record {
  parse_scan = λ _. inr demo_flags;
  parse_collect = λ _. inr (record { out = "snap.json"; connect = flags });
  parse_cost = λ _ _. inl "flag: help requested";
  compile = λ p. inr (λ t. has_prefix t p);
  unmarshal = λ text. if str_eq text "{}\n" then inr snap else inl "unexpected end of JSON input";
  marshal = λ _. inr "{}";
  encode_scan = λ _. inr "{}\n";
  encode_cost = λ _. inr "{}\n";
  sort_slice = λ _ rows. rows;
  range = λ m. m;
  sample = "{}\n";
  version = "dev";
}

same :
    {A : Type 0} (m : Site → A × Site)
    → ((s : Site) → (m s).1.opened ≡ s.opened)
    → Keeps (λ s. s.opened) m
same m h = same-Keeps (λ s. s.opened) m h

loaded_opened : (o : Option String) (s : Site) → (loaded o s).1.opened ≡ s.opened
loaded_opened none s = refl
loaded_opened (some text) s = refl

requests_kept : KeepsRequests (λ s. s.opened) requests
requests_kept = record {
  metadata = same _ (λ s. refl);
  topics = same _ (λ s. refl);
  configs = λ _. same _ (λ s. refl);
  log_dirs = same _ (λ s. refl);
  start = same _ (λ s. refl);
  end = same _ (λ s. refl);
  groups = same _ (λ s. refl);
  offsets = λ _. same _ (λ s. refl);
  acls = same _ (λ s. refl);
}

pub counted : IsCounting system dialer requests (λ s. s.opened)
counted = record {
  new_fails = λ opts s s' e p. cc;
  new_opens = λ opts s s' p. sym (ap (λ z. z.1.opened) p);
  closes = λ s. refl;
  verifies = same _ (λ s. refl);
  requests = requests_kept;
  reads = λ path. same _ (λ s. loaded_opened (find_name path s.files) s);
  writes = λ path text. same _ (λ s. refl);
  reads_in = same _ (λ s. refl);
  writes_out = λ text. same _ (λ s. refl);
  prints = λ text s. refl;
  notes = λ text s. refl;
  tells_time = same _ (λ s. refl);
  sleeps = λ window. same _ (λ s. refl);
  times_out = λ window s. refl;
  cancels = λ s. refl;
}
