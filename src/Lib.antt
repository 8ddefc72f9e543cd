-- ===== src/Lib.antt =====
-- A model of brod, a command-line tool that reads the metadata of a Kafka cluster and reports
-- where it wastes money, and proofs about it.
--
-- The program's parts, and where they are modelled:
--   internal/rules/types.go, the snapshot of a cluster and the findings: Rules/Types.antt.
--   internal/rules/engine.go, the registry of rules and `Evaluate`: Rules/Engine.antt, with the
--     configuration in Rules/Config.antt. `Evaluate` takes the last snapshot of the history,
--     resolves the prices (`cost.Resolve`), runs each rule that is on and sorts the findings.
--   internal/rules/r1_dead_topic.go to r8_internal.go, the eight rules: Rules/DeadTopic,
--     ZombieGroup, Retention, Partitions, Compression, Replication (its name pattern in
--     Rules/Pattern), Skew and Internal. `rN_topic` is the body of the rule's loop, `rN_finding` the
--     finding that it appends, `eval_rN` the loop. The helpers of these files and of helpers.go are
--     in Rules/Helpers.antt.
--   internal/cost/cost.go, prices and allocation: Cost.antt.
--   internal/collect/collect.go, a snapshot of a live cluster: Collect/Types (the replies, from
--     internal/kafka/reads.go, and the reader), Collect/Mapping (the pure helpers) and
--     Collect/Build. `build` is a chain of calls on the state of the cluster, each of which fails or
--     answers; `read_cluster` is its reads in their order and `snapshot_of` what it makes of the
--     replies. The reader and the wait for the sample window are parameters.
--   internal/kafka/readonly.go, the probe of the credential's rights: Kafka/ReadOnly. The reply of
--     the library is its input.
--   internal/kafka/client.go, the connection: Kafka/Connect. `connect` makes the options
--     (`client_options`), builds the mechanism (`sasl_mechanism`), makes a client and tests it;
--     `verified` is its end, where a client that does not reach the cluster is closed and its error
--     scrubbed (`redact_creds`).
--   internal/kafka/reads.go, the reads: Kafka/Reads. `client_reader` is the client as the reader
--     of internal/collect; what it asks of the library is the record `Admin` (Kafka/Admin).
--   cmd/brod/live.go, the live collection and `brod collect`: Command/Live, with the texts of its
--     flags in Command/Words. `connect_and_collect` connects, checks the rights where
--     `--require-readonly` is given (`enforce_read_only`), builds a snapshot and closes the client.
--   cmd/brod/report.go, the report of a scan: Command/Report, as the list of its lines.
--   cmd/brod/cost.go, `brod cost`: Command/Teams (the team rules and the rows), Command/Tables
--     (the tables as lines, and the JSON document) and the last part of Command/Main.
--   cmd/brod/main.go, the commands: Command/Main, with the usage text in Command/Usage. `run` is
--     `main` without the program's name, and its result is the exit code. A command is a call on a
--     state that holds the cluster, the files and the streams; it ends with an error, a panic of the
--     rules, or well. The services of the system are the record `System` (Command/World), those of
--     Go's library that read flags and JSON the record `Library` (Command/Services).
--
-- Proofs stand in Rules/Engine/Order (the order of the report), Rules/Engine/Total (panics,
-- histories), Rules/Engine/Lifting (from the loop bodies to the report), Rules/Guards (what a loop
-- body has tested), Rules/Origin, Rules/Delivery, Rules/Savings, Rules/Billing, Rules/Proposals,
-- Cost/Prices, Cost/Allocation, Collect/Shape and Collect/Silent (what a collected snapshot holds,
-- and which rules can report on it), Collect/Reads (a cluster that answers), Collect/Keeps (what a
-- collection leaves alone), Collect/Consumers (counts of groups), Collect/Spans (offsets),
-- Collect/Numerals (printed numbers), Kafka/Topics, Kafka/Rights (the probe), Kafka/Errors (whose
-- errors a collection returns), Kafka/LogDirs (sizes of replicas), Kafka/Keeps, Kafka/Credentials,
-- Kafka/Redact, Command/Hosts (texts), Command/TeamRules, Command/Totals (figures of a team),
-- Command/Shows, Command/Basis and Command/Rows (what the lines of the reports show),
-- Command/Sources (where a snapshot comes from), Command/Lifting, Command/Keeps and Command/Closed
-- (open connections), Command/Refusal (the read-only gate), Command/Transfer (from `collect` to
-- `scan`) and Command/Exit (exit codes). Examples holds a snapshot that fires every rule, a small
-- machine with a cluster (Examples/Worlds) and runs of the model on them. Base holds the shared
-- notation and lemmas.
--
-- How Go is read:
--   int and int64 are integers, and a sum, difference or product of them is wrapped to 64 bits by
--     `i64`.
--   float64 is a type F with the operations of the record `Float` (Base/Float.antt), which also
--     has the formatting verbs `%.kf` and `%q`. Theorems that need arithmetic take the laws
--     `IsIeee`, which hold of IEEE numbers with infinities and NaN. Base/Fixed.antt is a concrete F,
--     fixed-point decimals, that meets them and on which the examples run.
--   strings are texts. `strings.ToLower`, `strings.TrimSpace` and `strings.EqualFold` are modelled
--     on the characters that the code's comparisons can tell apart (Base/Text.antt).
--   an index out of range, which panics in Go, is `none`.
--   `sort.SliceStable` is insertion sort (Base/Sort.antt), and so is `sort.Slice` where the keys
--     are distinct or equal elements are the same. The rows of a cost table can tie, so there
--     `sort.Slice` is a parameter.
--   a map from rule ids to bool is a function; any other map is the list of its entries, in the
--     order in which `range` meets them, so a theorem about every such list is one about every
--     iteration order (Base/Maps.antt). Where the code ranges over a map that it has built, the
--     order is a parameter.
--   a call that fails is a function of a state to an error or a value, with the new state; `if err
--     != nil` is the bind of such calls, and `defer` is `deferred` (Command/World.antt).
--
-- Loops are structural recursion on the slices, so no fuel is needed.
--
-- Not modelled: the libraries kgo and kadm, packages flag, regexp, json and os, which are
-- parameters; the request of the rights probe; ctxSleep and the timers behind a timeout;
-- teamFlags.String; the texts of the flags' help.
pub mod Base
pub mod Cost
pub mod Rules
pub mod Collect
pub mod Kafka
pub mod Command
pub mod Examples
