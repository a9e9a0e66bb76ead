-- ===== src/Lib.antt =====
-- Log Cache keeps the latest envelopes of each source of a Cloud Foundry deployment in memory. A
-- node stores envelopes (internal/cache/store) and answers reads (internal/routing/
-- local_store_reader.go). A cluster gives every node ranges of hashes: the scheduler
-- (internal/scheduler) makes the ranges and an agent on each node (internal/routing/
-- orchestrator.go) keeps them; the routing table says which nodes hold a source, and the proxies
-- send envelopes and reads there.
--
--  * Common: numbers, tests, lists, dictionaries, and int64 as the offset from the least one.
--  * Tree: the ordered tree of the gods package, an interface AvlTree with one implementation.
--    `entries` lists a tree in order, and what an operation promises is said of that list.
--  * Envelope: the envelopes of loggregator's API.
--  * Store (internal/cache/store/store.go): Store.State is the state, Store.Put is Put with
--    insertOrSwap, Store.Expire is truncate with the heap of expirations, Store.Get is Get with the
--    two walks, and Store.Meta is Meta. A storage is found in the index where the code holds a
--    pointer to it, and is written back there. Go's container/heap is the interface HeapLib.
--  * Routing (internal/routing): Table is routing_table.go, Static is static_lookup.go,
--    Orchestrator is orchestrator.go, LocalReader is local_store_reader.go, Ingress is
--    ingress_reverse_proxy.go, Egress is egress_reverse_proxy.go.
--  * Scheduler (internal/scheduler/scheduler.go): the ranges of Start, what is told to the nodes,
--    and the calls to a node's agent.
--  * Client (pkg/client): Walk is walk.go with its backoffs and options, Window is window.go, and
--    Requests and Http are the requests of client.go over gRPC and over HTTP. What is outside of a
--    walk (the reader, the visitor, the clock and the context) is a function of the number of the
--    round, and a walk is run for a given number of rounds; so is a window, by its ticks.
--  * Marshaler (pkg/marshaler/marshaler.go): the results of PromQL queries as JSON values and back;
--    strconv and encoding/json are the interface FloatLib.
--  * Syslog (internal/syslog/server.go): the conversion of a syslog message into an envelope, and
--    the counters; strconv and strings are the interface TextLib. A message's pointers may be nil,
--    as the parser gives them for a `-`.
--  * Promql (internal/promql/promql.go and parsing.go): Query is the source ids of a query and their
--    replacement, Names the metric names, Series the builder of series and the iterator, Select is
--    LogCacheQuerier.Select, Engine is InstantQuery and RangeQuery, and DataReader is
--    data_reader/walking_data_reader.go. Prometheus is a parameter: a query by its selectors
--    (PromqlLib), and a run of the engine as a tree (Exec) of the questions that it asks of Select,
--    each with what the engine does with the answer.
--  * Auth (internal/auth): Middleware is cf_auth_middleware.go with its handlers, over an interface
--    of the services behind it; Capi is capi_client.go, with the Cloud Controller as a function of
--    the number of the request; Uaa is uaa_client.go, with UAA as such a function, and the decoding
--    of keys and tokens as interfaces.
--
-- Each operation of the routing table and of the orchestrator agent runs under one lock and is
-- one step. The operations of the store are one step each as well, as they run on their own. Get
-- holds the lock of its source; but Put takes two locks, one after the other
-- (getOrInitializeStorage and insertOrSwap), and truncate and Meta lock one source's tree at a
-- time, so that other operations may come in between: that is not covered. Nothing locks
-- IsAuthorized of the CAPI client. Auth.Capi has a call on its own, and Auth.Capi.Calls has
-- overlapping calls for one token as sequences of steps: a look into the cache, the listing with
-- the write of it, and rounds of pruneTokens. The requests of one listing are not interleaved
-- with others there. `none` as the result of an operation is a panic. The clock, the number of
-- envelopes to prune, regular expressions, hashes, and the answers of other nodes are parameters.
-- LookupAll runs on fuel, one more than the ranges of the table, which is enough since each round
-- passes one of them. The pages of the Cloud Controller are read on fuel; where each next page
-- has a smaller rank, fuel above that of the first page is enough.
--
-- Not modelled: the goroutines and tickers, the floating point of the prune consultant, the engine
-- and the parser of Prometheus, the libraries for HTTP, the access log, the gateway, the nozzle, the
-- blackbox tests, and the commands.
pub mod Common
pub mod Tree
pub mod Envelope
pub mod Store
pub mod Routing
pub mod Scheduler
pub mod Client
pub mod Marshaler
pub mod Syslog
pub mod Promql
pub mod Auth
