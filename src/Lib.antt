-- ===== src/Lib.antt =====
-- agent-cred-broker hands short-lived leases of secrets to workloads. A workload presents its
-- Kubernetes token; the broker has the token reviewed, looks up the workload's grant in its policy,
-- fetches the secret from a provider, notes a lease and signs an event into its audit stream. A
-- separate program verifies the stream.
--
-- The parts, the files that model them and the code:
--   Time        what is used of Go's package time: instants and durations in nanoseconds
--   RateLimit   internal/ratelimit/ratelimit.go: Limiter.Allow is allow, ByteBudget.Spend is spend;
--               Window, Spending and Budget are about one call or a history of them
--   Lease       internal/lease/store.go: Create, Get, Renew, Surrender, Remove, SweepExpired;
--               Outcomes, Sweep and Lifecycle are about one call, a sweep and a history
--   Audit       internal/audit/audit.go: Event; Audit/Codec is what it uses of JSON, the canonical
--               form, base64 and Ed25519; Audit/Emitter is Emit and Verify; Audit/Signer the keys
--   Verifier    cmd/acb-verify/main.go: the loop over the lines, the tally, gaps and duplicates;
--               Verifier/Written is about what an emitter leaves in the stream
--   Regexp      what is used of Go's package regexp
--   Policy      internal/policy/policy.go: Open, WindowOpen and the lookups; Policy/Patterns the
--               patterns; Policy/Parse is Parse; Policy/Listing GrantsFor, SubjectKeys and
--               ScopeNames; Policy/Watcher is internal/policy/watcher.go
--   Metrics     internal/server/metrics.go: Inc, Add, Set
--   Provider    internal/provider/provider.go: the interface; Provider/OnePassword is Fetch and Healthy
--               of internal/provider/onepassword.go, Provider/GitHub internal/provider/github.go
--   Server      internal/server/server.go and problem.go: the state, the limits, rateLimited;
--               Server/Auth withRequestID, withAuth and the routes; Server/Create, Server/Leases
--               Server/Claims and Server/Whoami the handlers of internal/server/handlers.go;
--               Server/Events is about what the events hold, Server/Progress about what every handler
--               does to the table and the stream
--   Authn       internal/authn/tokenreview.go: the judgement of Review; Authn/Exchange its request
--   Broker      cmd/broker/main.go: diffSorted; Broker/Reload the callbacks of a reload; Broker/Upkeep
--               the expiry gauge and readiness, and the cached probe of cmd/ha-notify-proxy/main.go;
--               Broker/History is about runs of the whole broker (requests, sweeps and reloads), and
--               Broker/History/Stream about what the verifier makes of their stream
--   Tls         internal/tlsx/reloader.go: GetCertificate and Config
--   Notify      internal/notify: the state of the notify proxy, a service of its own through which
--               workloads send notifications; Notify/Grants is policy.go, Notify/LeaseClient lease.go,
--               Notify/HomeAssistant ha.go, and Notify/Handlers with Notify/Auth server.go
--   Examples    concrete inputs
--
-- A handler is a function from the state (Server) to an answer and a state. The locks of the code
-- make each call of a limiter, of the table of leases and of the emitter one step; a handler is the
-- sequence of its steps, so what interleaves between two steps of one handler is not modelled here,
-- and is modelled for the limiter, the budget, the table and the emitter by histories of calls. What
-- the broker reads from outside (the clock, random identifiers, what becomes of a write) is a sequence
-- in the state, read in the order of the code. JSON bodies come decoded; the length of a JSON text, the
-- reviewer of tokens, the YAML reader, SHA-256 and the cron library are parameters.
--
-- Numbers: an int64 is an integer with its wrap-around written out, a uint64 sequence number wraps at
-- 2^64. A rate is a whole number per minute and tokens are counted in parts of 1/60000000000, so a
-- nanosecond adds a whole number of parts; the rounding of float64 is not modelled. No definition needs
-- fuel but the printing of a decimal, whose fuel is one more than the number.
--
-- The notify proxy shares the emitter, the counters and the clock of the broker's model. What it sends
-- to the broker and to Home Assistant is recorded in its state; what these answer is a parameter, which
-- may depend on how many requests went before.
--
-- Not modelled: the printing of metrics, the parsing of an RSA key, the playground, and of the main
-- programs the flags, the listeners and the tickers.
pub mod Prelude
pub mod Time
pub mod RateLimit
pub mod Lease
pub mod Audit
pub mod Verifier
pub mod Regexp
pub mod Policy
pub mod Metrics
pub mod Provider
pub mod Server
pub mod Authn
pub mod Examples
pub mod Broker
pub mod Notify
pub mod Tls
