-- ===== src/Lib.antt =====
-- A model of proxy_gateway, a gateway that hands out HTTP proxies. Its core is the scheduler of
-- internal/pool/pool.go: a map of proxies, a snapshot of the live ones that is rebuilt after each
-- change, and the selections that read the snapshot.
--
-- The parts, and the files that model them:
--   Model          internal/model/proxy.go: the record of a proxy
--   Config         internal/config/config.go: the records of groups, backup pools, accounts, providers
--                  and health checks, and EnabledCheckURLs
--   Config/Defaults applyDefaults
--   Config/Validate and Config/Groups: Validate
--   Pool/State     the data types of internal/pool/pool.go, NewPool and Get
--   Pool/Region    regionMatches and regionAggregates
--   Pool/Layer     buildLayer and layerRefLatency: one tier of a group
--   Pool/Prio      buildPrioGroups: the legacy groups of equal priority
--   Pool/Rebuild   Rebuild, buildGroups and SetGroups: the snapshot
--   Pool/Search    the weighted random choice by sort.Search on running sums
--   Pool/Swrr      latencyScaledWeight and pickSWRR: the smooth weighted round robin
--   Pool/Next      pickLayer, the loops over tiers, Next, NextInGroup and the Excluding variants
--   Pool/Change    Add, Remove, SetCountry, MarkFailed, MarkSuccess, SetAlive, RemoveExpired,
--                  RemoveByProvider, ClearSticky
--   Pool/Sticky    StickyNext
--   Pool/Report    Stats, GroupStats, StatsByProvider, UnresolvedCountries
--   Persist        internal/persist/file.go: the JSON files of accounts, groups and providers
--   Text           the operations on texts of the Go library that the program uses
--   Auth/Password  hashPassword, isHashed and verifyPassword of internal/auth/auth.go
--   Auth/State     Account, Manager, New, ByToken and the writes to the file
--   Auth/Change    Login, AddAccount, UpdateAccount, RemoveAccount, List and SyncAll
--   Alert          the monitor of internal/alert/monitor.go, and the webhooks of
--                  internal/alert/alert.go
--   Alert/Dispatch Emit, UpdateEmail, UpdateDedup, UpdateMonitorSeconds, UpdateRecoverSeconds and
--                  persist of internal/alert/alert.go
--   Gateway/Creds  rebuildCreds and LookupGroup of internal/gateway/gateway.go
--   Gateway/Direct handleDirect
--   Gateway/Relay  relayHTTP, relayConnect and isUpstreamErrorPage: one hop
--   Gateway/Retry  handleHTTP and handleConnect
--   Store          internal/store/store.go: the recorder of allocations, as steps on events
--   Manager        internal/pool/manager.go: the data, NewManager, and the loops over the proxies of a
--                  provider; new_provider is New of internal/provider/provider.go
--   Manager/Change AddProvider, RemoveProvider, UpdateProvider, SetProviderEnabled, -Public, -Weight
--                  and -Priority, RefreshProvider and LoadInitial
--   Manager/Report enrichOnce, countryDistribution, providerRefreshInterval and the look-ups
--   Geo            internal/geo/geo.go: Lookup and its cache
--   Health         internal/health/checker.go: NewChecker, SetConfig, minInterval, checkDue, checkAll
--                  and resolveCheckURLs
--   Health/Probe   probe, probeOne, parseCountry and isAlpha2
--   Health/Outcome checkOne and deleteThreshold
--   Server         internal/server/server.go: authorize, bearerToken, the guards of Handler, and what an
--                  account may see, change and use
--   Server/Handout handleGetProxy, handleGetProxies, handleReport and handleFeedback
--   Server/Groups  handleAddGroup, handleUpdateGroup, handleRemoveGroup, validateGroup, applyGroups
-- The modules below these hold the proofs. Pool/Coherent says what a snapshot and a map that agree
-- are, Pool/Keeps that each change keeps it, Pool/Serve and Pool/Session what a selection may
-- return, Pool/Effects what a change does, Pool/History puts calls into sequences. Auth/Sound says
-- that the maps of the manager agree with its accounts, Auth/Keeps and Auth/Methods that the methods
-- keep it, Auth/Secret is about passwords, Persist/Files about files, Alert/Alternate about the
-- events of a provider, Alert/Quiet about their suppression. Gateway/Answers says when a request is answered. Store/Fifo and Store/Drain
-- follow the accepted calls. Manager/Keeps, Manager/Methods and Manager/History are about what all
-- methods of the manager keep, Manager/Refuse about their errors, Manager/Purge, Manager/Weight and
-- Manager/Enrich about single methods. Health/Interval is about the number that sets the ticker, Health/Due about the
-- rounds of checks. Config/Sound and
-- Config/Accepted say what Validate promises, Manager/Start what follows for NewManager, Server/Batch what a batch has,
-- Server/Isolated and Server/Synced what the handlers of groups keep.
-- Prelude has the shared names, Tests concrete runs.
--
-- How the parts interact: the gateway selects its proxies by NextInGroupExcluding of the pool; the
-- health checker, the manager and the country lookup change the pool by its operations, so that what
-- holds of every history of the pool holds under theirs.
--
-- How state corresponds: an operation is a function from a Pool to a Pool, with its result beside it
-- where it has one. Calls are modelled one after the other: each runs to its end before the next
-- begins. The locks of the pool do not make its calls so. `Rebuild` reads the map under a lock, but
-- builds and publishes the snapshot after it; `Add`, `Remove` and `SetCountry` unlock before they
-- call it, and `MarkFailed`, `MarkSuccess` and `SetAlive` take no write lock. Two calls that overlap
-- may publish their snapshots in the wrong order; this race is not modelled, and what is said of the
-- pool holds of calls that do not overlap.
--
-- A Go map is an association list, and an iteration over a map goes in the order of that list. A
-- pointer to a proxy is its ID, under which the map holds it. The atomic pointer to the snapshot is a
-- field. The state sink only receives notifications; the model keeps whether one is set, and the list
-- of what was sent.
--
-- What is a parameter: float64 numbers are bit patterns, with the operations as an instance
-- argument (Prelude/Float); what IEEE 754 says of products is a record of laws. The random numbers of
-- math/rand/v2 are a sequence of draws, each below its bound. The time is an argument.
--
-- The account manager shares accounts between its two maps by pointers; these are positions of a
-- heap of accounts. A file is absent, unreadable, or holds a list, and whether a write succeeds is an
-- argument: a write goes to a temporary file that is renamed, so that it replaces the list or leaves
-- it. JSON gives back what it was given. SHA-256 is an instance argument, random bytes are arguments.
--
-- What a provider fetches, what a check target, the country service or an upstream proxy answers, and
-- what the database does with a batch are arguments. A method of the manager runs to its end before
-- the next begins, although it takes its lock twice, with the fetch between.
--
-- Bounds: the durations and the ends of windows, which the code computes from seconds and
-- milliseconds, are int64 and wrap, as does the conversion of a configured weight to int32. The other
-- integers are unbounded: sums of weights, which int64 holds up to 2 ^ 63, and the count of the
-- failures of a proxy, an int32 in the code. Loops run over lists. The random choice with exclusions
-- tries 1000 draws, as the code does. The binary search of Go's library has the length of the range
-- as fuel, which the halving of the range never uses up. strings.EqualFold and strings.ToLower are
-- modelled on the ASCII letters.
--
-- A request tries three proxies; the number of attempts left is the fuel of the loop. The recorder's
-- channel has 4096 places.
--
-- Not modelled: calls of the pool that overlap, the formats of the providers' feeds and their requests,
-- the other handlers of the HTTP server and its settings, the delivery of alerts, the loop of the
-- health checker that sets its ticker and waits for it, the decoding of the configuration file, the
-- queries of the recorder, which are SQL, and the transport of bytes.
pub mod Prelude
pub mod Model
pub mod Config
pub mod Text
pub mod Pool
pub mod Persist
pub mod Auth
pub mod Alert
pub mod Tests
pub mod Gateway
pub mod Store
pub mod Manager
pub mod Geo
pub mod Health
pub mod Server
