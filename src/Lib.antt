-- ===== src/Lib.antt =====
-- authzmtls, a Docker authorization plugin. dockerd posts each API request to the plugin, which
-- answers whether the caller, known by the name in a client certificate, may make it.
--
-- A decision goes through these parts (paths from the repository's root):
--   internal/dockerapi/types.go: the wire types. DockerApi.
--   internal/rules/decision.go: rules, the chain in which the first active answer wins
--     (`Chain.Evaluate`), its use by the daemon with log and counters (`Chain.Decide`), the four
--     gates, and the built-in chain. Rules.Verdicts, Rules.Decision, Rules.Chain, Rules.Gates,
--     Rules.Builtin.
--   internal/rules/admin.go: the administrators' bypass. Rules.Admin.
--   internal/rules/mounts.go: which request a URI makes (Rules.Uri), what its body asks for
--     (Rules.Body; Rules.Body.Asks tells it without the code), canonical paths (Rules.Canonical), `$VAR` expansion (Rules.Expand), the prefix
--     matcher (Rules.Matcher), and the mount and volume rules (Rules.Mounts).
--   internal/rules/reqvars.go: the variables that a request gives. Rules.Reqvars.
--   internal/config/config.go: the schema (Config), which keys a file has (Config.Layers), how files
--     are merged (Config.Merge) and loaded (Config.Load), overrides (Config.Overrides), `Validate`
--     (Config.Validate), `LoadFull` (Config.Full) and the decoding methods (Config.Decode).
--   internal/datasources/cache.go: the cache in front of a provider, for one caller
--     (Datasources.Cache; Datasources.Cache.Resolved tells it without the code) and among callers at
--     the same time (Datasources.Cache.Flight).
--   internal/datasources/metrics.go: the instruments of a datasource. Telemetry.Instruments.
--   internal/datasources/provider.go: the set of providers (Datasources.Inputs), the warning
--     about a rejected variable (Datasources.Inputs.Warning), the registry and `NewSet`
--     (Datasources.Registry).
--   internal/datasources/ldap: the order of a subject's names (identity.go, Datasources.Names), the
--     substitution into filters (Datasources.Ldap.Filter), the pool of connections (pool.go,
--     Datasources.Ldap.Pool) with its dial (Datasources.Ldap.Dial), and the provider (ldap.go,
--     Datasources.Ldap.Provider), which Datasources.Ldap.Outage puts behind the cache.
--   internal/dockerapi/handler.go: the endpoints. Handler.
--   internal/logging/logging.go: the levels. Logging.
--   internal/server/server.go: the state that a reload swaps (Server), `Start`, `Addr` and the
--     goroutine that serves (Server.Lifecycle), and the paths of the endpoints (Server.Routes).
--   internal/telemetry/telemetry.go: the metrics that are built on first use. Telemetry.
--   cmd/authzmtls/main.go: the process from startup over requests and SIGHUPs (App), and `run` with
--     its log lines and errors up to the listener, and its end (App.Launch).
--
-- How code becomes definitions. A rule is a function from a request and the datasources' state to a
-- decision or an error and the next state; the context is left out. A Go string is a list of bytes,
-- a `range` over it the list of its runes, a map an association list, a set the list of its elements,
-- a `time.Duration` or `time.Time` an integer of nanoseconds (64-bit overflow would take centuries).
-- Loops are structural recursion; there is no fuel. The goroutines of one `errgroup` are writes to
-- slots in an arbitrary order.
--
-- What is outside is a parameter. Rules.Host holds the JSON decoder for the two wire shapes, the
-- working directory, the symbolic links (as they are during one evaluation: a change between the
-- check and the daemon's own use of a path is not modelled), `%q`, and the order of the goroutines.
-- Rules.Sources is what the rules ask of the datasources; Datasources.Inputs fills it, and
-- Datasources.Callers joins the two. The cache takes the clock, the provider and the LRU as
-- parameters, with `IsLru` for what golang-lru documents; singleflight is the parameter `Group` of
-- Datasources.Cache.Flight, with `IsGroup` for what it documents.
-- GoStd writes out the functions of Go's standard library on strings and lexical paths that the
-- code uses.
--
-- Config.Files and Config.Layers hold the files, the environment and yaml.v3; Datasources.Ldap.Pool
-- and Datasources.Ldap.Provider the dials, deadlines and searches of a directory; Server the
-- certificates and the registered factories; Server.Lifecycle listeners and the HTTP server;
-- Telemetry OpenTelemetry and the Prometheus client; App.Launch kong; GoStd.Fmt what is used of `fmt` and `strings.ToUpper`.
--
-- Interleavings are steps of a relation: those of callers that share a pool (the `select` of `get`
-- is one step, and its dial another), those of callers of one cached provider (one access to the
-- shared state is one step, and the provider's call another), and those of requests and SIGHUPs in
-- the process.
--
-- Not modelled: sockets, TLS handshakes, signals, the command line's syntax and slog's handlers,
-- which are input and output; the context of a live call (the calls that wait in singleflight share
-- that of the call that executes it); the duration histogram's place in `Resolve`; a request that is
-- served while the startup or the shutdown runs.
pub mod Common
pub mod GoStd
pub mod DockerApi
pub mod Config
pub mod Rules
pub mod Datasources
pub mod Handler
pub mod Logging
pub mod Server
pub mod Telemetry
pub mod App
pub mod Examples
