-- ===== src/Command/Usage.antt =====
-- cmd/brod/main.go: the text of `usage`.
use Prim.Native.String.{String, ◌++◌}

abbrev pub usage : String
usage =
    "brod — read-only Kafka FinOps CLI (brod.sh)\n" ++ "\n" ++ "USAGE\n"
    ++ "  brod scan [--snapshot FILE | --bootstrap HOSTS] [--cost EUR] [--provider P] [--json] [--verbose]\n"
    ++ "  brod collect --bootstrap HOSTS [--out FILE] [connection flags]\n"
    ++ "  brod cost [--snapshot FILE | --bootstrap HOSTS] [--cost EUR] [--team 'regex=Team']...\n"
    ++ "  brod sample        print a sample snapshot JSON (the input format)\n"
    ++ "  brod version\n" ++ "\n"
    ++ "scan reads a metadata snapshot and prints a euro-ranked waste report. Source it\n"
    ++ "from a JSON file (--snapshot), a live cluster (--bootstrap, read-only), or — with\n"
    ++ "neither and nothing on stdin — the built-in demo snapshot.\n" ++ "\n"
    ++ "cost allocates the cluster's monthly € across topics (and --team groups) using the\n"
    ++ "weighted 40/40/20 model. Every figure carries a basis label.\n" ++ "\n"
    ++ "collect connects read-only to a live cluster and writes a metadata snapshot JSON\n"
    ++ "(round-trips with 'brod scan --snapshot'). brod NEVER produces or consumes: it\n"
    ++ "issues only Admin/Describe/Metadata/ListOffsets/OffsetFetch requests.\n" ++ "\n"
    ++ "SCAN/REPORT FLAGS\n" ++ "  --snapshot FILE   snapshot JSON file ('-' for stdin)\n"
    ++ "  --cost EUR        cluster monthly cost in € (enables derived, not assumed, rates)\n"
    ++ "  --provider P      confluent | msk | self  (default: from snapshot, else self)\n"
    ++ "  --json            emit findings as JSON\n"
    ++ "  --verbose         show remediation (config diff) per finding\n" ++ "\n"
    ++ "LIVE CONNECTION FLAGS (scan --bootstrap / collect)\n"
    ++ "  --bootstrap H     comma-separated bootstrap servers (host:port)\n"
    ++ "  --tls             use TLS\n"
    ++ "  --sasl-mechanism  plain | scram-sha-256 | scram-sha-512\n"
    ++ "  --user / --pass   SASL creds (or env BROD_KAFKA_USER / BROD_KAFKA_PASS)\n"
    ++ "  --cluster-name N  label for the snapshot\n"
    ++ "  --sample-window D throughput sampling window (default 30s; 0 = no estimate)\n"
    ++ "  --require-readonly  fail closed on detectable write/topic-READ ACLs\n"
    ++ "  --include-internal  include internal topics (e.g. __consumer_offsets)\n"
