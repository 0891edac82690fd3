-- ===== src/Lib.antt =====
-- GoCluster, a DX cluster server: it takes radio spots from skimmer networks, peers and users, drops
-- duplicates, keeps the recent ones, and sends each telnet user the spots that the user's filter
-- lets pass. This library models the parts that decide this, from the Go source of the repository.
--
-- The parts and how they interact. main.go moves each spot through normalisation (package spot),
-- the primary deduplicator (dedup/deduplicator.go) and the ring of recent spots
-- (buffer/ringbuffer.go); a secondary deduplicator (dedup/secondary.go) and a filter
-- (filter/filter.go) stand before each user. Corrections of busted calls (package spot) average
-- frequencies, follow the activity of the bands and spare calls with recent support. A spot is
-- given the countries of its calls (package cty). Links to other clusters (package peer) cut the
-- bytes of a connection into frames, send them on to each other, drop those that they saw before,
-- and wait between attempts to connect; log lines about it all are throttled (internal/ratelimit).
-- The spots that users enter pass a gate (package reputation) that limits those from one network
-- prefix and caches what it looked up of an address.
--
-- Files and the code they are about:
--   Prelude: Go's integers, times, maps, strings and comparisons; association lists stand for maps,
--     in the order in which a range loop meets the entries.
--   Buffer/Ring: RingBuffer of buffer/ringbuffer.go, with new_ring_buffer, add, get_recent,
--     get_recent_filtered for NewRingBuffer, Add, GetRecent, GetRecentFiltered. A spot is a pointer,
--     and the store of IDs that Add writes is part of the state. The files below it relate a ring to
--     the history of its additions.
--   Dedup/Shard, Dedup/Primary: cacheShard and Deduplicator; observe is the locked part of
--     processSpot, process_spot the whole; collect and delete_phase are the phases of cleanup.
--     Ledger is the abstract view, one table without shards; Race puts spots between the phases.
--   Dedup/Secondary: SecondaryDeduper with its key buffer, ShouldForward and cleanup.
--   Spot/Bands, Spot/Callsign, Spot/Record: spot/bands.go, spot/callsign.go, spot/ssid.go and the
--     record, EnsureNormalized and Hash32 of spot/spot.go. Spot/CallCache: CallCache, and
--     NormalizeCallsign through it. Spot/Cooldown: CallCooldown of spot/cooldown.go, with
--     record_call for Record. Spot/Adaptive: AdaptiveMinReports of
--     spot/adaptive_min_reports.go, with settle for the hysteresis inside evaluate.
--     Spot/Averager: FrequencyAverager of spot/frequency_averager.go.
--   Filter/Dimension: the allowlist, blocklist and two flags that bands, modes and the like share,
--     and passesStringFilter, passesIntFilter. Filter/Tokens: the normal forms of tokens.
--     Filter/Pattern: callsign patterns. Filter/State: Filter, NewFilter, the nearby mode, setters and
--     resets. Filter/Matches: matchesWithPath, cut at four places, and matchesNearby.
--   Cty/Trie: ctyTrie of cty/parser.go, its nodes in a list as in the source; Cty/Database: CTYDatabase,
--     with load_database for LoadCTYDatabaseFromReader behind the decoding.
--   Metadata/CallMeta: callMetaCache of call_meta_cache.go without LookupCTY, and
--     normalizeCallForMetadata of main.go.
--   Peer/SeenKeys, Peer/Backoff: dedupeCache and backoff. Peer/Telnet: telnetParser of
--     peer/protocol.go, with feed for Feed. Peer/Reader: lineReader of peer/reader.go, with
--     try_read_line and read_line; the connection is a list of reads. Peer/Frame: Frame, with
--     parse_frame, encode and payload_fields; Relay sends a frame from node to node. Peer/Pc93 and
--     Peer/Wwv: peer/pc93.go, sanitizeComment and peer/wwv.go. Peer/Manager: the cases of HandleFrame
--     of peer/manager.go whose frames carry no spot.
--   Reputation/PrefixLimiter: prefixLimiter of reputation/prefix.go; Bucket follows one prefix through
--     the calls of all, Sweep the cleanup. Reputation/TtlCache: ttlCache of reputation/cache.go, with
--     get_result and set_result for get and set.
--   Ratelimit/Counter: Counter, whose Inc is
--     also a step relation of atomic steps. Logs/DropDedupe: dropLogDeduper of drop_log_dedupe.go.
--   Tests: the theorems at concrete inputs.
--
-- Choices. An average of reporter counts is compared with a threshold by cross-multiplication, as
-- the floating point division of such small numbers decides it. The frequency of a spot is a number
-- of tenths of a kHz, the resolution to which the program rounds. An instant counts nanoseconds
-- from the zero Time; differences saturate as time.Sub does, and 64-bit counters wrap. The loops
-- over a ring are recursive on a number of rounds, which get_recent and get_recent_filtered set to
-- the number of indices between the two ends of the loop, so that it is never short. The loop of
-- tryReadLine has a fuel, which counts its rounds. A decimal number is written with a fuel of 20
-- digits, which every int64 has room in. A history is below 2^63 additions where a theorem says so.
-- A nil map and an empty map are one value, since the code reads lengths and entries only; a nil
-- receiver is not modelled. Unicode letters and white space outside ASCII are left alone by the
-- case and trimming functions.
--
-- Parameters: xxh3.Hash, a third-party function of bytes; the cells of a locator, which package
-- pathreliability computes from third-party tables; the default mode and source selections; for the
-- frequency averager the type float64 with its operations.
--
-- Not modelled: goroutines, tickers and channels beyond the sends of the deduplicator; network,
-- terminal and file access; the packages that the list of files does not name.
mod Prelude
pub mod Buffer
pub mod Cty
pub mod Dedup
pub mod Filter
pub mod Logs
pub mod Metadata
pub mod Peer
pub mod Ratelimit
pub mod Reputation
pub mod Spot
mod Tests
