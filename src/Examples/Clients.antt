-- ===== src/Examples/Clients.antt =====
-- The client on small inputs.
use Prim.Native.String.{String, ◌++◌}
use text.Mathlib.Text.{◌==◌ as str_eq}
use mathlib.Core.List.{Perm}
use brod_cli.Base.{
  ◌⊎◌, none, map, false, if◌then◌else◌, true, false, ◌≡◌, refl, some, inl, inr, List, [], ◌∷◌,
}
use brod_cli.Base.Int.{ℤ, pos}
use brod_cli.Base.Fixed.{fixed_float}
use brod_cli.Collect.Types.{TopicInfo, Options, Call}
use brod_cli.Collect.Build.{build}
use brod_cli.Kafka.Admin.{TopicDetail, Admin, LogDirPartition}
use brod_cli.Kafka.Reads.{
  map_each, topic_info, topic_infos, max_replicas, collect_sizes, client_reader,
}
use brod_cli.Kafka.Topics.{name_before, IsReadFrom, Matches, topic_infos-IsSorted}
use brod_cli.Base.Maps.{GoMap}
use brod_cli.Base.Sort.{IsSorted, sort, insert}
use brod_cli.Kafka.LogDirs.{reported, all_reported, sizes_at, collect_sizes-all_reported}
use brod_cli.Kafka.Errors.{Blames, IsNamedOrWaits, build-NamesKafka}
use brod_cli.Kafka.Connect.{
  SaslConfig, scram_sha_256, mechanism_of, sasl_mechanism, replace_from, replace_all, redact_secret,
  redact_creds,
}
use brod_cli.Kafka.Credentials.{Chosen, name_of, user_of, pass_of, sasl_mechanism-IsOf}
use brod_cli.Kafka.Redact.{contains, redact_creds-IsSecret}
use brod_cli.Examples.Worlds.{Site, requests}

abbrev quoted : String → String
quoted s = "\"" ++ s ++ "\""

abbrev environment : String → String
environment name = if str_eq name "BROD_KAFKA_PASS" then "hunter2" else ""

abbrev credentials : SaslConfig
credentials = record { mechanism = "scram-sha-256"; user = "brod"; pass = "" }

abbrev failure : String
failure = "auth failed: hunter2 is wrong"

scrubbed : redact_creds environment failure credentials ≡ "auth failed: *** is wrong"
unfolding redact_creds redact_secret replace_all replace_from
scrubbed = refl

redact_creds-IsSecret_example :
    contains (redact_creds environment failure credentials) "hunter2" ≡ false
redact_creds-IsSecret_example =
    redact_creds-IsSecret environment failure credentials "hunter2" (inr refl) (refl, refl)

-- A password that is an asterisk is still there after the replacement.
asterisk : contains (redact_creds (λ _. "") "got *" (record credentials { pass = "*" })) "*" ≡ true
unfolding redact_creds redact_secret replace_all replace_from
asterisk = refl

built : sasl_mechanism quoted environment credentials ≡ inr (some (scram_sha_256 "brod" "hunter2"))
unfolding sasl_mechanism mechanism_of
built = refl

sasl_mechanism-IsOf_example :
    (name_of (scram_sha_256 "brod" "hunter2") ≡ "scram-sha-256")
    × ((Chosen "brod" "" (user_of (scram_sha_256 "brod" "hunter2"))
          × Chosen "" "hunter2" (pass_of (scram_sha_256 "brod" "hunter2")))
        × ((¬ (user_of (scram_sha_256 "brod" "hunter2") ≡ ""))
            × (¬ (pass_of (scram_sha_256 "brod" "hunter2") ≡ ""))))
sasl_mechanism-IsOf_example =
    sasl_mechanism-IsOf quoted environment credentials (scram_sha_256 "brod" "hunter2") built

abbrev dirs : List (List LogDirPartition)
dirs =
    (record { topic = "orders"; partition = pos 0; size = pos 700; is_future = false }
      ∷ record { topic = "orders"; partition = pos 1; size = pos 90; is_future = false }
      ∷ [])
    ∷ (record { topic = "orders"; partition = pos 0; size = pos 650; is_future = false }
        ∷ record { topic = "orders"; partition = pos 0; size = pos 3; is_future = true }
        ∷ [])
    ∷ []

replicas_seen : all_reported "orders" (pos 0) dirs ≡ pos 700 ∷ pos 650 ∷ []
unfolding all_reported reported
replicas_seen = refl

collect_sizes-all_reported_example :
    sizes_at "orders" (pos 0) (collect_sizes dirs) ≡ all_reported "orders" (pos 0) dirs
collect_sizes-all_reported_example = collect_sizes-all_reported "orders" (pos 0) dirs

-- A cluster that refuses to list its groups.
abbrev refusing : Admin Site
refusing = record requests { list_groups = λ s. (inl "not authorized", s) }

abbrev options : Options
options = record {
  cluster_name = "prod";
  provider = "";
  now = some (pos 7);
  sample_window = pos 30_000;
  include_internal = false;
}

-- A wait that the deadline of the command ends.
abbrev late : ℤ → Call Site String (Unit {0})
late window s = (inl "context deadline exceeded", s)

build-NamesKafka_example :
    Blames
      (IsNamedOrWaits refusing quoted late (pos 30_000))
      (build {F = ℤ} (client_reader refusing quoted) late options (pos 0))
build-NamesKafka_example = build-NamesKafka refusing quoted late options (pos 0)

-- Two replicas of one partition, and one of the other.
abbrev listing : GoMap String TopicDetail
listing =
    (
      "orders",
      record {
        is_internal = false;
        err = none;
        partitions = (pos 0, pos 1 ∷ []) ∷ (pos 1, pos 1 ∷ pos 2 ∷ []) ∷ [];
      },
    )
    ∷ ("clicks", record { is_internal = false; err = none; partitions = (pos 0, pos 2 ∷ []) ∷ [] })
    ∷ []

abbrev topics_in : String ⊎ List TopicInfo → List TopicInfo
topics_in (inl e) = []
topics_in (inr ts) = ts

abbrev topics : List TopicInfo
topics = topics_in (topic_infos quoted listing)

answered_topics : topic_infos quoted listing ≡ inr topics
unfolding topic_infos map_each topic_info sort insert max_replicas
answered_topics = refl

factors : map (λ t. t.replication_factor) topics ≡ pos 1 ∷ pos 2 ∷ []
unfolding topic_infos map_each topic_info sort insert max_replicas
factors = refl

topic_infos-IsSorted_example :
    IsSorted name_before topics
    × ((us : List TopicInfo) × (Perm topics us × Matches IsReadFrom listing us))
topic_infos-IsSorted_example = topic_infos-IsSorted quoted listing topics answered_topics
