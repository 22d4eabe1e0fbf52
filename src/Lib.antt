-- ===== src/Lib.antt =====
-- A verification library for kubemonitor.
--
-- kubemonitor is a Kubernetes operator: a `Monitor` resource names a kind of server (its model)
-- and a period; the operator then gathers samples from that server in a loop and writes them to
-- the Prometheus remote-write endpoints that the `PrometheusPush` resources name.
--
-- The parts, and the files that model them (paths from the root of the repository):
--
-- - SafeList: pkg/types/safe_list.go, the locked list that a handler pushes into and that the
--   writers queue on. `container/list` is a list from the front to the back; a method is one call,
--   since it holds the lock. SafeList.Fifo, SafeList.History, SafeList.Bounds hold the proofs.
-- - Value and Conv: pkg/types/utils.go and pkg/conv/conv.go, values of dynamic type and their
--   conversions. Strconv writes out the functions of Go's `strconv` that they call.
-- - Sample: pkg/types/sample.go, sample_list.go, pkg/tagx, internal/labels: samples, their labels,
--   and the Prometheus series of a sample.
-- - Process: pkg/process/process.go, from gathered samples to the samples that are written.
-- - Http and Writer: internal/writer/writer.go, one endpoint, with the headers of `net/http`.
-- - Counting and Writers: internal/writer/writers.go, the counters, the endpoints by name, the
--   limited queue of series, the goroutine that reads it, and the goroutines that each of its
--   rounds spawns, one for each endpoint. Writers.World interleaves the operations with the calls
--   of `snapshot` that `WriteSamples` spawns.
-- - Worker: pkg/worker/worker.go, tasks by name with their stop channels, and the loops that run
--   until their channel is closed.
-- - Factory: pkg/input, the registry of handlers with their lists, and the configuration maps.
-- - Controller: internal/controller, the two reconcilers and the round of a monitor's loop, over
--   the parts above.
-- - Metrics: pkg/metrics/metrics.go, the operator's own counters as samples.
-- - Redis: internal/handlers/redis/redis.go, the handler of Redis: its configuration and the
--   special lines of `INFO`; Redis.Lines has the loop over the lines, Redis.Gather has `Gather`.
-- - Mysql: internal/handlers/mysql. Mysql.Config has the configuration, Mysql.Names the names of
--   metrics.go, Mysql.Status, Mysql.Variables, Mysql.Innodb, Mysql.Binlog, Mysql.Processlist,
--   Mysql.Sizes and Mysql.Replica one gathering each or a few, Mysql.Rows what they share, and
--   Mysql.Gather `Gather`.
-- - Elastic: internal/handlers/elasticsearch/elasticsearch.go. Elastic has the data and `Init`,
--   Elastic.Requests the requests, Elastic.Stats, Elastic.Selection and Elastic.Indices what is
--   made of the answers, Elastic.Gather the two rounds of goroutines of `Gather`.
-- - Clickhouse: internal/handlers/clickhouse/clickhouse.go. Clickhouse has the data, `Init` and
--   the texts, Clickhouse.Queries the queries, Clickhouse.Requests `execQuery`, Clickhouse.Rows
--   and Clickhouse.Tables the samples of each table, Clickhouse.Custom the configured queries,
--   which run as goroutines on one URL, Clickhouse.Gather `Gather`.
-- - Postgresql: internal/handlers/postgresql/postgresql.go. Postgresql has the configuration,
--   Postgresql.Address the connection string without its secrets, Postgresql.Rows the samples of
--   rows, Postgresql.Gather `Gather`.
-- - Gathering and Goroutines: what one goroutine pushes, and every order in which goroutines may
--   run.
-- - Filter, Jsonx, Stringx: pkg/filter, pkg/jsonx and pkg/stringx, which the handlers share.
-- - Toy: small instances of the parameters, for the tests. Common: what all modules share.
--
-- How the code is read. Text is a list of bytes, numbers are natural numbers, an `int` is the ℤ of
-- Common.Int; `uint64` counters wrap at 2 ^ 64. A map is an association list in the order of its
-- range. A method of a shared object is a function from its state to its state; `Outcome` says
-- that it returns nil, returns an error or panics, and `none` stands for an error or, where the
-- comment says so, for a panic. Letters outside ASCII keep their case. A Go loop is a recursion on
-- the list that it ranges over; `PopBackN` is a recursion on the count, and `loopRead` is cut off
-- at a number of rounds, which is an argument of its theorem. A goroutine that others can
-- interleave with is the list of its atomic actions, and a run is an interleaving of these lists
-- (Goroutines.Interleave). The goroutines of `WriteTimeSeries` run in the order of a scheduler, a
-- parameter that theorems take to give interleavings; the range over the index matchers of
-- Elasticsearch, which is new for each index, is a field of its `Server`, which theorems on it take
-- to give permutations.
--
-- Parameters: the arithmetic and the parsing of floats (`Floats`), the client, marshalling and
-- compression of the remote write (`Transport`), the two methods of a handler (`Handler`), the
-- answers of the Kubernetes client (`Fetched`), the time of a round, the Redis server (`Client`)
-- and its times (`Clock`), the Elasticsearch server with the decoding of its answers (`Server`),
-- the ClickHouse server with URLs and decoding (`Net`), the MySQL server (`Db`) with its data
-- source names (`Dsn`) and the parsing of times (`Times`), the PostgreSQL server (`Db` of
-- Postgresql.Gather) with `Pgx` and `Urls`, the glob library (`Glob`), and the tables of package
-- unicode (`Unicode`).
--
-- Not modelled: the update of a monitor's status, the timing of the loops, and generated and
-- vendored code.
pub mod Common
pub mod Strconv
pub mod Value
pub mod Conv
pub mod SafeList
pub mod Sample
pub mod Process
pub mod Http
pub mod Writer
pub mod Counting
pub mod Writers
pub mod Worker
pub mod Factory
pub mod Controller
pub mod Metrics
pub mod Filter
pub mod Jsonx
pub mod Stringx
pub mod Gathering
pub mod Goroutines
pub mod Redis
pub mod Mysql
pub mod Elastic
pub mod Clickhouse
pub mod Postgresql
pub mod Toy
