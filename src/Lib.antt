-- ===== src/Lib.antt =====
-- Irongrid DNS: a model of the parts of the server that keep state (the guards against abusive
-- clients, the bans, the routes of clients, the filter, the in-process cache, the DHCP leases, the
-- statistics), of the address tables, the choice of an upstream and the DNSSEC validator, with the
-- theorems that make them correct.
--
-- The program answers DNS queries over UDP, TCP, TLS, HTTPS and QUIC. Each query first passes
-- guards that refuse abusive clients, then the geographic tables, the filters, the cache and the
-- upstream resolvers; a query log counts what was answered; a dashboard with a REST API controls
-- all of it, behind guards of its own. A DHCP server hands out the addresses of the local network.
--
-- What is modelled, and where (paths of the repository):
--
-- - Shards, and the files below it: internal/shardutil/shardutil.go (`FNV1a`), the maps in the
--   shards of every guard, and the eviction that internal/dnsserver has three times over
--   (`evictLocked`, `evictNXLocked`, `evictRQLocked`). A Go map is an association list; a lookup
--   does not depend on its order, and where a loop ranges over a map the order of the list is the
--   order of the loop, so that a theorem about every list holds for every order of iteration.
-- - RateLimit: internal/dnsserver/ratelimit.go, and `BuildRateLimiter` of
--   internal/dnsserver/policy.go. Tokens is one bucket; Rate, Client, Bounded, Blocking, Touches
--   and Isolated hold the proofs.
-- - NxGuard: internal/dnsserver/nxguard.go.
-- - RepeatGuard: internal/dnsserver/repeatguard.go.
-- - ConnLimit: internal/dnsserver/connlimit.go.
-- - LoginGuard: internal/api/loginguard.go.
-- - ApiRate: internal/api/apiratelimit.go.
-- - Geoip: internal/geoip. Ranges and Search are table.go, from the parsed ranges on, and Nets is
--   the table that is built from networks (`NewTableFromIPNets`, with `v4Range`, `v6Range` and
--   `Contains`); Merge, Lookup, Starts and Held hold the proofs. Blocker is the `Blocker` of
--   geoip.go, with the IPv6 half of table.go, and Countries is about its answers. Asn is asn.go,
--   without the split into prefixes, which is in Cidrs on the bits of Bits; Pruned and Exact hold
--   the proofs. An address is a number below 2 ^ 32 or 2 ^ 128, whose order is that of its bytes.
-- - Cache: internal/cache/l1.go, the in-process cache. Its keys, pairs of a hash and a flag, are
--   lists of two numbers here.
-- - Dhcp: internal/dhcp/pool.go and the types of internal/dhcp/dhcp.go, for IPv4: the addresses
--   of the pool (Addr), the lease tables (Leases), where the two tables share lease objects, and
--   the choice of an address for a client (Offer).
-- - QueryStats: internal/querylog/rolling.go, the counts of the last 24 hours and of today. A map
--   of counts is a function, and the time zone's midnight is a parameter.
--
-- - Filter: internal/filter. Rules is rules.go, Parse is parse.go, State, Engine and Decide are
--   engine.go (the state; the operations; what a published snapshot decides), Lists is lists.go and
--   Rewrite is rewrite.go. The other files below it hold the proofs: Parents and Verdict of the
--   decision, Loads, Invariant, Runs and History of the invariant, UserLists, Precedence and
--   Survives of `Compile` and the user's lists, Reload and Fetch of the list manager, Local of the
--   local records. The maps that a snapshot copies are values here, so that a snapshot shares
--   nothing with the working state.
--
-- - Dnssec: internal/dnssec. Anchors is anchor.go, Keys, Zones and Validate are validate.go and
--   Denial is denial.go. Trust and Answers prove what a secure answer has been checked for, Bundled
--   and Order are about the anchor in the source and the order of names.
--
-- - Clients: internal/dnsserver/acl.go (Acl) and clients.go (Router). A parsed network is the
--   test of its addresses. Coherent takes the calls of a router one after another; in Stale a
--   reload comes between the two halves of `Resolve`. Open is about the access list that is absent.
-- - Banner: internal/geoip/banner.go, and `CanonicalDomain` of internal/dnsname/dnsname.go.
--   Invariant and Bans hold the proofs. The bans are looked up in the table of Geoip.Nets, merged
--   with the wrap of 32 bits as the code does it. The file of bans can always be written, and what
--   is in it is part of the state; the hook that tells the firewall is left out.
--
-- - Forward: the choice of an upstream. Breaker is the circuit breaker of
--   internal/upstream/upstream.go; Upstreams is `queryUpstreams` with its two modes and Routes is
--   `routeMatch`, of internal/dnsserver/handler.go; Failover proves what the sequential mode
--   answers. What a query returns, whether the deadline has passed, and the order in which the
--   replies of a race arrive come from outside; the logs, and the sharing of the time that is left,
--   are left out.
--
-- - Serve: the path of a query, `serve` and `finishResolve` of internal/dnsserver/handler.go.
--   State is the query, the handler and what may be written; Guards, Answers (with Reverse,
--   `reverseNameIP`) and Finish are the code in its order, one function for each numbered part. A
--   part either answers, which ends the call, or passes the handler on, as an early return does.
--   Steps is a history: queries that come in, clients that are answered with what the cache has
--   past its time while their resolution goes on, and resolutions that end, in any order. Kept,
--   KeptAnswers, Checks and KeptFinish carry a property through all parts, and Says what they
--   write; Spoofed, Counted, Banned, Trapped, Answered, Cached and Early use them. A query reads
--   the clock once. The slice of a cookie that is too short panics, and the deferred function
--   answers. The addresses and names of DHCP clients, the proxy of the VPN, the response cache, the
--   HMAC and the validator are parameters; a message of the cache can be decoded, and the query log
--   is there.
--
-- Text holds what the filter uses of Go's package `strings`. On text that is not ASCII, the tables
-- of Unicode are parameters, as are the regular expressions, the conversion of international names,
-- and `net.ParseIP`, which gives the text of the address. Prelude, Bytes and Clock are shared:
-- native numbers and integers, Go's byte strings, and times.
--
-- How Go is read. A method on a pointer takes the state and returns the new state, beside its
-- result. Each guard locks the one shard that it works on for the whole of a call, so that calls on
-- a shard happen one after another; a history of the guard is a list of calls, each with the time
-- that it read from the clock. A time is a number of nanoseconds, with 0 for the zero time; a
-- duration is an integer. Times are those of the monotonic clock, but for the wall-clock times of
-- the query log, and neither they nor the counters overflow. A `float64` count of tokens is an
-- exact number of billionths of a token.
--
-- Fuel. The loop that evicts the oldest entries runs on as many rounds as the map has entries,
-- which is enough since each round deletes one (Shards.Evict.Laws). `sort.Search` runs on as many
-- rounds as there are places, which is enough since each round shortens the range (Geoip.Search).
-- The loop that evicts from a shard of the cache runs on one round for each slot of the queue and
-- one for each entry, which is enough since a round that does not drop a slot clears the mark of an
-- entry (Cache.Fuel). The search for a free DHCP address has the number of rounds that the source
-- gives it, and the walk to a trust anchor the depth that the source gives it. The split of a range
-- into prefixes needs a round for each address at most, and one to end (Geoip.Exact). All other
-- loops are recursions on lists.
--
-- `get` of the cache locks its shard twice, once to read and once to delete a dead entry; here it
-- is one step.
--
-- Not modelled: the listeners, the packing of messages with padding, extended errors and cookies,
-- the coalescing of equal queries, the latency and the totals by protocol, the HTTP and DHCP packet
-- handlers, the locks themselves, the functions that only report state (`BlockedList`, `snapshot`,
-- `Stats`, `Lists`, `Snapshot`), `AutoPerShard`, which computes in floating point, the downloads of
-- the lists, the IPv6 half of DHCP, `cidrs6`, the parsing of addresses and prefixes by the standard
-- library, and the rest of the program.
pub mod Prelude
pub mod Bytes
pub mod Clock
pub mod Shards
pub mod RateLimit
pub mod NxGuard
pub mod RepeatGuard
pub mod ConnLimit
pub mod LoginGuard
pub mod ApiRate
pub mod Geoip
pub mod Cache
pub mod Dhcp
pub mod QueryStats
pub mod Text
pub mod Filter
pub mod Dnssec
pub mod Clients
pub mod Banner
pub mod Forward
pub mod Serve
