-- ===== src/Lib.antt =====
-- Verification of netflow-collector.
--
-- The program receives NetFlow v5, v9 and IPFIX datagrams (or messages of a Kafka topic), turns them
-- into flow records, batches them in memory and writes each batch to every configured sink; an HTTP
-- API answers queries over what a sink stored. The parts modelled here, and how they meet:
--
--   * internal/flow/flow.go is the contract: `Flow.Record` has FlowRecord, `Flow.Time`, `Flow.Addr`
--     and `Flow.AddrMap` the parts of Go's time and net/netip packages that the code reads (a time is
--     an instant, an address a number with its kind and zone).
--   * internal/source/netflow/decode.go: `Netflow.Numbers` (beUint, addr, ipv4, uptimeToTime,
--     ntpToTime), `Netflow.Fields` (applyField), `Netflow.V5` (decodeV5), `Netflow.Templated`
--     (decodeTemplated), `Netflow.Decoder` (decoder, decode, templatesFor). `Netflow.Reads` describes
--     a record's numbers by its fields. goflow2, which parses
--     packets and keeps templates, is the record `Goflow` of operations: nothing is assumed of it.
--   * internal/source/netflow/netflow.go: `Netflow.Listener` (exporterAddr and the loop of Start; what
--     the socket and the template store hand over is a list of inputs), and
--     internal/source/netflow/templates.go: `Netflow.Sharing` (keys, envelopes, the publishing system
--     with its bounded queue, apply). net/netip's text form, encoding/json and goflow2's template
--     system are the records `AddrText`, `Json` and `Systems`. The listener takes the store as the
--     record `Store`, which `Netflow.Sharing.Local` fills.
--   * internal/templatestore/kafka.go: `TemplateStore` (NewKafka, ensureCompacted, Put, Watch).
--   * internal/wire/wire.go: `Wire` (Message, Encode, Decode). encoding/json is the record `Codec`,
--     with the law that unmarshalling undoes marshalling.
--   * internal/source/kafka/kafka.go: `Kafka.Dedup` (Decode, DedupKey, with SHA-256 a parameter) and
--     `Kafka.Session` (one session of StartPull: the poll loop and the committer, interleaved one
--     event at a time). What Written answers for a position is a parameter. `Kafka.Push` has New and
--     the push-shaped Start.
--   * internal/pipeline/watermark.go: `Pipeline.Watermark` (close, complete, wake, await; the channels
--     of `changed` are numbered, and a waiter sleeps until its own is closed).
--   * internal/pipeline/pipeline.go: `Pipeline.Buffer` (New, Offer, tryOffer, the intake's Offer),
--     `Pipeline.Batcher` (the closures take and flush of Run, and write) and `Pipeline.System` (Run:
--     sources, batcher, workers and waiters as actions on one state, in any order).
--   * internal/sink/postgres/postgres.go: `Sink.Cursor` and `Sink.Query` (Query with its keyset
--     cursor). The engine is the function `select`; `Sink.Paging.Selects` states what its statement
--     asks for. `Sink.Columns` has rows.go (a record as signed columns, and back), `Sink.Exporters`
--     resolveExporters with its cache, and WriteBatch.
--   * internal/sink/mariadb: `Sink.Mariadb` (insertStatement, WriteBatch in one transaction, New, the
--     retention loop) and `Sink.Mariadb.Query`, whose placeholders are bound by the server. Resolving
--     exporters is postgres'. internal/sink/clickhouse: `Sink.Clickhouse` (exporterID, rows,
--     touchExporters, WriteBatch) and `Sink.Clickhouse.Query`. `Sink.Listing` has ListExporters of the
--     three engines, and `Sink.Follow` a client that follows the cursors of any of them. internal/sink/kafka/kafka.go: `Sink.Kafka` (New, WriteBatch), and
--     `Sink.Kafka.Tier`, where internal/source/kafka reads what it wrote.
--   * internal/api/auth.go: `Api.Auth` (CheckConfig, requireAPIKey, bearerToken, keyMatches), and
--     internal/api/flows.go: `Api.Flows` (bind and the flows handler). The validator and Go's parsers
--     are parameters; a query string is its keys with their first values. `Api.Render` has toJSON,
--     `Api.Ops` readiness (internal/api/ops.go) and the exporters handler, and `Api.Server`
--     (internal/api/server.go) the muxes of New and the middleware.
--   * internal/config/config.go: `App.Environment` (findDotEnv, parseDotEnv, load) and `App.Settings`
--     (parse), and internal/app/run.go: `App.Start` (CheckNames, New), `App.Constructors` (newSink,
--     newSource) and `App.Run` (App.Run, as the list of the actions that it takes), with the
--     validator's tags and the constructors of sinks, sources and the template store as parameters.
--     cmd/collector/main.go and the package's Run: `App.Command` (flags and exit codes).
--
-- A goroutine's critical section is one step. Offer's load of `closing` and its send are one step,
-- since the program stops its sources before it cancels the pipeline. `stored`, `taken_in`,
-- `handed_off` and `history` of `System`, and `committed` of `Session`, are there for the statements only; a sink that
-- fails may have stored anything. The loop of `complete` has the number of entries of `done` as fuel,
-- and each round deletes one. `follow`, a client of `Query`, asks for at most as many pages as its
-- first argument says.
-- Where sequence numbers must not wrap, a theorem asks for fewer than 2^64 - 1 accepted records.
-- Numbers of Go's fixed widths are natural numbers; a conversion that cuts one is written `% 2 ^ w`.
--
-- The loop over the chunks of a batch has the number of records as fuel, and each round takes at least
-- one; retention has as many rounds as its first argument says.
--
-- Not modelled: metrics, logging and timeouts; the UDP socket itself, the wait for the replay of the
-- templates and the goroutine that closes the socket; migrations; the API's
-- request ids, the text of its envelopes and the OpenAPI document; the wording of errors; the deadlines of the
-- shutdown, which are the one condition that the pipeline drains in time.
pub mod Base
pub mod Flow
pub mod Wire
pub mod Netflow
pub mod Sink
pub mod Api
pub mod App
pub mod TemplateStore
pub mod Kafka
pub mod Pipeline
pub mod Examples
