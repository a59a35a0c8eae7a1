-- ===== src/Lib.antt =====
-- A model of go-toolkits, a collection of Go packages, and theorems about it.
--
-- Texts are lists of bytes, and Go's maps are association lists (Base/Assoc); where the order of a
-- range over a map shows, the order of insertion is taken. Integers are natural numbers with their
-- wrap-around written out. Base holds what all parts share: tests, lists, bytes, tables.
--
-- Mask models utils/utils.go: Match with MatchSingle's fast paths (Mask) and the loop of
-- matchIterative (Mask/Loop), and the older Any. Mask/Glob says what a mask means. The loop runs on
-- fuel, (len(value) + 1) * (len(expr) + 1) rounds, since every return to a star moves it on by one
-- byte of the value and every other round moves on in the mask.
-- Color models utils/color.go: the table of names (Color/Table), printing and reading of colours.
-- The hexadecimal digits of a uint are at most sixteen. Texts are ASCII where strings.ToUpper is
-- asked.
-- Eval models eval/eval.go: the functions that expressions call (Eval), and how an expression is
-- compiled and checked (Eval/Compile). It uses Match, Any and ColorEq of the parts above. The
-- library govaluate, structs.Map, floats and time.ParseDuration are parameters.
-- Wsrpc models wsrpc/: the codec of a connection (Wsrpc/Codec, wsrpc/codec.go), registration and
-- lookup of methods (Wsrpc/Service, wsrpc/server.go) and the loop of a connection with the
-- goroutines it starts (Wsrpc/Server, ServeCodec of wsrpc/server.go). An event is a message that
-- is read, the end of a goroutine, or the close of the codec behind the loop, and a run is any list of
-- events, so every interleaving is covered; sending is under one mutex, so an answer is one step, and
-- is written if the codec is open and the encoder, a parameter, writes it. A sequence number is a uint64, and
-- the theorems on runs ask for fewer than 2 ^ 64 events. Decoding of JSON is a parameter; log lines
-- and the websocket are not modelled. The lists of free requests and responses are Wsrpc/Free, where
-- an address is a number and the memory a function of it.
-- Wsrpc/Notifier and Wsrpc/Conn are wsrpc/notifier.go and wsrpc/conn.go: the queue of notifications
-- with its close flag, and the close handlers and data of a connection. The channel holds a thousand.
-- Observable models observable/: a callback is a number, and a slice is its array and a length, since
-- remove changes the array that it ranges over. Callbacks that call the observable are left out.
-- Sql models ArgsFilter of sql/sql.go; the expressions of goqu are values here. Sql/Query is the queries
-- of sql/sql.go over goqu and gorm, which are parameters, and Sql/Transaction is TransactionCtx of
-- sql/db.go as the calls that it makes and whether Begin and Commit succeed.
-- Log/Query models log/encoder/text_query.go: the chunks of a log file, and the search of their lines
-- (Log/Query/Scan) with the panics that processChunk recovers from; the search for a message runs on
-- fuel, two more rounds than the chunk has bytes, since each round moves on by a byte or more.
-- Times are numbers, and time.Parse is a parameter. Log/Text is
-- the text encoder's EncodeEntry (log/encoder/text_encoder.go), whose lines the search reads back, and
-- Log/Fix the encoder of log/encoder/fix_encoder.go.
-- Log/Hook models log/hook/core.go. Slices are arrays in a heap and a length, since the cores that With
-- makes share arrays; how append grows an array is a parameter.
-- Redis models redis/: configuration and addresses (Redis, redis/redis.go), and the operations of a
-- pool as the calls that they make on a connection (Redis/Pool, redis/pool.go). Redigo with its
-- replies and conversions is a parameter. The rounds of SCAN run on fuel, one for each page that the
-- server has.
-- Redis/PubSub is redis/pubsub.go: an event is a message that is received, the receive from a full
-- channel behind it, which may wait, a lost connection, a turn of the pushing goroutine or a call, and
-- a run is any list of events.
-- Cli models cli/cli.go: the flags, Init and the names made of them; Microtools models
-- microtools/cmd.go, which reads the server name back from a service name that Cli has made.
-- Metric models metric/: configuration, Start and the names of metrics (metric/metric.go,
-- metric/option.go), and the gauge of OpenTelemetry (Metric/Gauge, metric/otel_gauge.go) over any
-- interleaving of the rounds of its loops; where Start waits for such a loop it runs on fuel, and the
-- theorem holds for all fuel, since that loop does not end. Apptools models apptools/: the builder
-- (Apptools/Builder, apptools/builder.go) with what happens in Build, where a factory's cleanup is a
-- function and not nil, and the prefix and the instruments of apptools/metric.
-- Secrets models aws-secrets/secrets.go over a cipher and an encoding that are parameters.
-- Collector models collector/: its options and its queue, against a history of accepted messages.
-- Probe models k8sprobe/, the registry of probes and the answer to a request. Errors models
-- errors/errors.go, the codes of errors and the pool that keeps them apart.
--
-- Not modelled: kafka, trace, csv, the set-up of databases, and the rest of log, metric, microtools and
-- apptools, which are mostly calls of libraries and services; status and JSON in errors, which belong
-- to grpc; the script loading of redis.
pub mod Apptools
pub mod Base
pub mod Mask
pub mod Cli
pub mod Collector
pub mod Color
pub mod Eval
pub mod Errors
pub mod Log
pub mod Metric
pub mod Microtools
pub mod Observable
pub mod Probe
pub mod Redis
pub mod Secrets
pub mod Sql
pub mod Wsrpc
