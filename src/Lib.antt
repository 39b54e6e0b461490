-- ===== src/Lib.antt =====
-- Verification library of hyperliquid-exporter, a Prometheus exporter for Hyperliquid nodes.
--
-- The program is a set of monitors, one goroutine each, that follow the files a node writes and
-- turn them into metrics, with caches and bounded sets that the monitors share. Each method that
-- takes a mutex is one step of a model, so an interleaving is a sequence of steps. Times are
-- arguments in nanoseconds; strings are lists of bytes; a Go map is an association list, whose
-- order is that of one `range`, and the laws hold for every order.
--
-- - Base: lists, maps, signed integers and Boolean tests that the other modules share.
-- - Lru: internal/cache/lru.go. `LruCache` is the struct, with list elements for pointers; `get`,
--   `set`, `delete_key`, `clear`, `len`, `get_all` and `cleanup_expired` are the methods. Lru/View
--   has the abstract cache, a list of entries by use; Lru/Refinement compares the methods with it
--   and Lru/Trace whole runs.
-- - Replica: internal/replica/parser.go and types.go. Replica/Count is `countJSONArrayElements`,
--   Replica/Actions `parseActionBundles` and `countOperations` over the JSON values of
--   Replica/Json, Replica/Parser the block pool, `ExtractMetrics` and the file loops.
-- - Peerset: internal/peerset/peerset.go. `register`, `evict_expired`, `unique_seen_in`, `len` and
--   `snapshot` are the methods; the counters wrap around at 2^64.
-- - Traffic: internal/monitors/tcp_traffic_monitor.go, which feeds the peer set by `register` and
--   keeps the series of the traffic.
-- - Publisher: internal/monitors/peer_set_monitor.go, `tickPeerSet`, which calls `evict_expired`
--   and publishes the set.
-- - Consensus: internal/monitors/consensus_monitor.go. Consensus has the state, the addresses and
--   the votes, Consensus/Blocks the blocks with the QC window, Consensus/Status heartbeats and
--   disconnected pairs. The validator cache and the signer map are caches of Lru. A handler
--   returns the metrics calls that it makes.
-- - Health: internal/metrics/health.go, the states of the monitors and `Ready`.
-- - Settings: internal/config/config.go, `LoadConfig`.
-- - Addresses: internal/metrics/address_cache.go, with the pattern of truncated addresses.
-- - Gauges: internal/metrics/setters.go and types.go, the labelled values that the gauges report:
--   `set_labeled` and the setters, `get_validator_labels`, the connectivity of pairs, the snapshot
--   of latencies and `cleanupLabeledValues`. Gauges/Connectivity carries out the calls of the status
--   handler of Consensus on them.
-- - Follow: the loops that follow a growing log, of internal/monitors/block_monitor.go,
--   consensus_monitor.go, proposal_monitor.go and round_advance_monitor.go, a round at a time, and
--   `GetLatestFile` of internal/utils/utils.go.
-- - Blocks: internal/monitors/block_monitor.go, what a line of block times does. Its two caches are
--   caches of Lru (Lru/Stable has what such a cache reads); Blocks/Runs has runs over the lines of
--   several streams, which Follow hands on.
-- - Startup: internal/exporter/exporter.go and safego.go with internal/monitors/safego.go, the
--   monitors that `Start` runs, on the health tracker of Health; a scheduler is a list of actions.
-- - ParentPeer: internal/monitors/parent_peer_monitor.go, over the samples of Traffic.
-- - Api: internal/hyperliquid-api/resolver.go, the client for validator data: Api/Cache the lookups
--   and the cache, Api/Retries the loop of retries.
-- - ValidatorApi: internal/monitors/validator_api_monitor.go, which takes the summaries of Api and
--   writes the caches of Lru and the values of Gauges.
-- - Contracts: internal/contracts/resolver.go, the names of contracts, with a cache of Lru, a bounded
--   queue and workers.
--
-- No loop needs fuel: every loop walks a list or counts down the attempts that are left. What comes
-- from outside is an argument: the entries and bytes of a directory walk, a reply of an HTTP
-- service, `json.Unmarshal`, `time.Parse`, `strings.ToLower` of any bytes, the clock. Not modelled
-- are floating-point rounding (rates are fractions, the sums of the published traffic are exact; the
-- sums of flows and of stakes take any addition), the decoding by encoding/json of anything but
-- action bundles and block lines (the handlers take decoded messages), and sorting. Counts of Go
-- type int and int64 are exact numbers. The ABCI reader, the remaining monitors, the instruments and
-- providers of the metrics, the logger and the command line are not modelled.
pub mod Base
pub mod Lru
pub mod Peerset
pub mod Replica
pub mod Consensus
pub mod Traffic
pub mod Publisher
pub mod Health
pub mod Addresses
pub mod Settings
pub mod Follow
pub mod Blocks
pub mod Startup
pub mod Api
pub mod Contracts
pub mod Gauges
pub mod ParentPeer
pub mod ValidatorApi
