-- ===== src/Lib.antt =====
-- Panorama is a service that collects what processes observe of each other's health. A local observer
-- registers, gets a handle and submits reports about subjects; a server stores the reports, infers
-- each subject's health from them, and exchanges them with its peers.
--
-- Parts, and the files that model them:
-- - Timestamp and Health: types/health.go and the messages of idl/health.proto.
-- - Raw, with Raw/Collect: store/raw.go. `RawHealthStorage` has a panorama per subject (`tenants`) with
--   a view per observer; `add_report`, `add_subject` and `remove_subject` are its methods, `gc` is GC.
--   Raw/Promise says what the store promises to a sequence of calls.
-- - Majority: decision/majority.go. `infer_observations` and `infer_view` are InferView; Majority/Pano has
--   `infer_pano`, InferPano. The metric objects that InferView changes belong to the raw store; the changed view is
--   part of the result.
-- - Inferences: store/inference.go. A workbook per subject holds the inference of each view; `turn` is
--   one round of the loop of Start, which takes a message from one of two channels.
-- - Cache: store/cache.go, a cache and a cache of lists; the service holds filtered reports in the latter.
-- - Exchange: exchange/exchange.go. Peers that ignore reports about a subject are kept in sets, which
--   stand on a heap, since a propagation holds a pointer to one.
-- - Db: ReadRegistrations of store/db.go, from the rows of the query; Db/Inserts: opening and inserting.
-- - Service: service/service.go. A handler changes the server's state and appends what it starts with
--   `go` to `tasks`; in Service/Tasks `run_task` runs one of them, in any order. Service/Queries has the
--   handlers that only read.
-- - Client: client/rpc.go, over a state of the world that net/rpc changes.
-- - Filter and Filter/Build: types/filter.go and util/regex.go, with the records of types/config.go.
-- - ZooKeeper: plugin/zookeeper.go, with types/event.go and util/validate.go; `parse_line` is ParseLine.
--   ZooKeeper/Ensemble has ParseEnsembleFile, ZooKeeper/Plugin the methods of the plugin.
-- - LogTail: cmd/hview-logtail/main.go. `report_event` is reportEvent, `tail_lines` the loop over the log,
--   and LogTail/Main has `main`, which sets up the plugin and registers. LogTail/Plugin is plugin/base.go:
--   the operations of a plugin, and the laws of it that the daemon relies on.
-- - Shell: cmd/hview-client/main.go. `run_cmd` is runCmd; a command's end is a value of `Ran`, with what it
--   shows, or the loop of `tail`. Shell/Subjects has cmpSubject, and Shell/Main `main`.
-- - Config: LoadConfig and SaveConfig of types/config.go, and the choice of the configuration in
--   cmd/hview-server/main.go; Config/Mkrc: cmd/hview-mkrc/main.go.
-- - Logging: the levels of util/logging.go. Health/Printing: the strings of types/health.go.
-- - Prelude: Go's strings (lists of bytes), maps (association lists, in the order of `range`), signed
--   integers with their wrap-around, Go's order on strings, and lemmas on lists. Tests: the theorems at concrete inputs.
--
-- The service calls the raw store first, then the inference store and the exchange; the inference store
-- reads the raw store's panoramas and calls the majority decision. The files below a part's folder
-- hold its proofs.
--
-- Service/Steps has the server as a state machine: a `Step` is a handler, a task, a turn of inference, a
-- collection, Start or Stop, and `Reachable` are the servers that a new one can become. The daemon of
-- LogTail calls the plugin's parser, whose filters are those of Filter, and reports to a service.
--
-- A method that takes a lock for its whole body is one step. Where the code drops a lock between two
-- parts, as GC of store/raw.go and InferSubject do, the model still runs them as one step.
-- Loops are structural recursion over the collection that they visit, and the reconnection counts its
-- retries down, so that no fuel is needed. Handles are uint64, votes uint32 and timestamps int64 and
-- int32, with their wrap-around; lengths are unbounded. A store into a nil map, or past a slice's end,
-- is a result of its own.
--
-- An observation always has a timestamp, a metric a value, and a report an observation: the pointers of
-- the messages are not nil. What the code does with a nil timestamp, which AddReport accepts, InferPano
-- takes for no observation and GC panics on, is outside of the statements.
--
-- Parameters: gRPC and net/rpc (`Network`, `Rpc`, `HealthService`, `HealthClient`), float32 (`FloatOps`),
-- Go's regexp (`RegexpOps`), `net`, `strconv` and `time.Parse` (`Standard`, `Library`), what `fmt` makes of
-- numbers and statuses (`Printer`, `Formats`), random numbers, the clock, SQLite (`Sql`),
-- and the writing and reading of JSON (`Json`). Files are maps of contents, or lists of lines.
--
-- Not modelled: the text of log messages, profiling, signals, the text of SQL statements, and the
-- Java client: they are input and output, or another language. Nothing calls MPatternMix and
-- NewMRegexpMap of util/regex.go.
pub mod Prelude
pub mod Timestamp
pub mod Health
pub mod Raw
pub mod Majority
pub mod Cache
pub mod Inferences
pub mod Exchange
pub mod Db
pub mod Service
pub mod Client
pub mod Filter
pub mod Tests
pub mod ZooKeeper
pub mod LogTail
pub mod Shell
pub mod Logging
pub mod Config
