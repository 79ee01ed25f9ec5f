-- ===== src/Lib.antt =====
-- dubbo-go-pixiu: a model of the gateway's routing, its load balancers, and the state it keeps of upstream
-- clusters: configurations, runtimes, snapshots of endpoints and their health.
--
-- The gateway takes a request in a listener, finds a route for its method and path, picks an endpoint of
-- the route's cluster by the cluster's balancer, and calls it, with retries where a filter does so.
-- Health checks run beside that and decide which endpoints a balancer may see.
--
-- Which file models which part, with the source's paths from the repository's root:
--   Prelude: native numbers, lists, lists of entries (Dict), byte strings (Text), decimal printing
--     (Decimal, `strconv.Itoa`), and Go's int where its sign matters (Int).
--   Util/StringUtil: pkg/common/util/stringutil/stringutil.go. A string is the list of its bytes.
--   Router/Trie: pkg/common/router/trie/trie.go. Node has the `Node` struct, a map as a function to slots
--     and a pointer as a slot (nil or the node); Put, Match and Get have the methods of `Node`, and Api
--     those of `Trie`. A method that mutates the tree returns the new tree. Paths has the independent
--     description: a trie as a partial map from lists of tokens to values (`route`), and which segments a
--     pattern takes (`Matches`). The other files prove the methods against it.
--   Router/Config, Router/Snapshot: pkg/model/router.go and pkg/model/router_snapshot.go: routes, compiled
--     headers and `ToSnapshot`. A node of a trie holds the identity of a route, and the snapshot has the
--     candidates of each identity, since a `*RouteCandidates` grows after it was put.
--   Router/Coordinator: pkg/common/router/router.go: `route`, and the publication of changed routes.
--     SnapshotTries, Routing and Provenance are about what is routed, Publication about the changes.
--   Router/Configuration: `RouteConfiguration` of pkg/model/router.go, which routes by one trie.
--   Cluster: pkg/model/base.go (Address) and pkg/model/cluster.go, llm.go (Endpoint): addresses, endpoints
--     and the IDs of endpoints. Identity and UniqueId are about the identity they give.
--   Cluster/Snapshot: the `EndpointSnapshot` of pkg/cluster/cluster.go. A map is a list of entries, an update
--     a new snapshot. Index says that a snapshot is a function of its list of endpoints, Updates and Marks
--     are about changes of health, Inherited about what a refresh keeps, Next about falling back.
--   Cluster/Runtime: the `Cluster` of the same file. Invariant has its events and the runtimes that can be
--     reached (`Reach`), Refinement the board of marks that it implements, Picks what requests ask of it.
--   Manager: pkg/server/cluster_manager.go. Assemble has the IDs and names of endpoints, Content and Slot
--     (with SlotLaws) where `SetEndpoint` puts an endpoint, Changes (with ChangesLaws) the changes of addresses,
--     Store the configurations with their runtimes, Endpoints `SetEndpoint` and `DeleteEndpoint`, Operations
--     the manager's operations, Configs and Ownership what they do to the configurations, Found, Published
--     and Registered that a runtime shows the endpoints of its configuration (`InStep`), Swap
--     and SwapLaws `CompareAndSetStore`. An operation runs under the manager's lock, so it is a function
--     from state to state; the runtimes that it stops and the changes that it notifies are kept in order.
--   Balancer: pkg/cluster/loadbalancer. Recheck has `pickEndpoint` with the check of what a balancer
--     returned, Legacy the path for balancers that only have `Handler`, Strategies the balancers, Maglev the
--     sizes and look-ups of a Maglev table. A `*model.Endpoint` is a `Ref`: where it is, and its value.
--   Health: pkg/cluster/healthcheck/healthcheck.go. Counters has the thresholds and counters of one
--     checker, Streaks what they report, Sessions the checkers of a cluster, one per address,
--     Effects what a report does.
--   Breaker: pkg/filter/ai/kvcache/circuit_breaker.go. Calls of several goroutines are interleavings of
--     `allow` and `recordResult` (`Step`, `Reach`), which hold the breaker's lock. Outage has what an open
--     breaker does while calls are still running.
--   Retry: pkg/cluster/retry. Policy has the three policies; Budget has the interface that callers rely on
--     (`RetryPolicy`) and its three instances.
--
-- Numbers: uint32 and uint64 counters wrap (`u32`, `u64`, `add32`), and the weights of weightrandom are
-- int64 patterns that wrap and have a sign (`add64`, `is_negative64`). A duration or a time is a number of
-- units. The version of a store wraps at 2^32, the IDs of configurations and events at 2^64. The failure
-- count of the breaker is an int that the model does not wrap.
--
-- Fuel: `unique_from`, the loop over suffixes of `StableUniqueEndpointID`, has one round more than there
-- are IDs taken, and the suffixes it tries are all different. `itoa` takes one digit per round
-- and has one round more than the number, which is never less than its count of digits. A snapshot is made
-- without fuel of its own, since the search for each ID ends. Everything else recurses on its data.
--
-- Parameters: regular expressions (`regexp.Compile`, `MatchString`), `strconv.Atoi`, float arithmetic, the
-- random source, the hashes and the test for primes of a Maglev table, the digest of an endpoint ID, a
-- legacy balancer's `Handler`, the answer of a consistent hash, the copy of an endpoint (a new reference),
-- and `reflect.DeepEqual` on the model metadata of an endpoint.
--
-- Not modelled: network I/O, goroutines and timers themselves (a step is what runs under a lock or in one
-- round of a loop), logging and the parsing of configurations. Of a snapshot the cached consistent hash is
-- left out, of the manager the registration of handlers; a configuration in the store is not nil. The
-- components that are left out stand in the project's manifest with the reason.
pub mod Prelude
pub mod Util
pub mod Router
pub mod Retry
pub mod Breaker
pub mod Health
pub mod Cluster
pub mod Manager
pub mod Balancer
