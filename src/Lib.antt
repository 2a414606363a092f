-- ===== src/Lib.antt =====
-- mcp-resile is a gateway for the Model Context Protocol: it takes clients' requests over HTTP,
-- checks their token, merges the tool lists of several backends under prefixes, and dispatches each
-- tool call to its backend under a resilience policy. The Go code is under internal/ and
-- cmd/mcp-resile/.
--
-- The parts, and the files that model them:
--   Base       what all files share: Go strings as lists of bytes, maps with string keys as
--              association lists, float64 by its bits, int64 as ℤ, %d, and lemmas.
--   Errors     Go error trees with errors.Is and errors.As.
--   Pattern, Glob   path.Match of the standard library: the reading of a pattern, and the matching.
--   Durations  time.ParseDuration of the standard library.
--   Config     internal/config/config.go. Types: the structs. Defaults: applyDefaults. Tags: the
--              `checkers:` tags. Validate: validateAuth, validatePrefixes, validateBackendIDs,
--              validatePolicies. Load: Parse and Load. Yaml: Duration.UnmarshalYAML.
--   Policy     internal/policy/policy.go: newPolicy, NewResolver, Resolve.
--   Auth       internal/auth/auth.go: Middleware, extractToken, isAllowed, writeUnauthorized.
--   Proxy      internal/proxy. Middleware: Middleware in proxy.go. Dispatch: callTool,
--              dispatchTool, logDispatch, and resolveTool of schema.go. Listing: listTools.
--              Route: matchRoute, MergeCapabilities. Options: baseResilienceOptions,
--              resilienceOptions. Errors: errors.go and retry.go. Response: response.go.
--              Schema: schema.go. Notifications: notifications.go. Upstream: the two operations
--              of internal/egress/backend.go that the proxy calls. Concurrent: callTool and
--              dispatchTool in the pieces between which other goroutines run.
--   Metrics    internal/metrics/metrics.go: the collectors, RecordRequest, the instrumenter and the
--              breaker watcher; Exported: what it shows of the requests that the proxy counts.
--   Egress     internal/egress/backend.go: Dial and Close, with a trace of the sessions.
--   Ingress    internal/ingress/server.go: NewServer and NewHandler, over the SDK's part in serving a
--              request; internal/version/version.go.
--   Logging    internal/logging/logging.go: levels and New, and what such a logger prints.
--   Startup    cmd/mcp-resile/main.go: run, dialBackends with closeAll, and serveMetrics; Serving: the
--              handler of its http.Server.
--   Tests      runs on concrete inputs.
--
-- How they fit together. A Setup holds what the handlers are built over: the routes, the policies
-- of Policy, the response limit and the libraries. A Gateway is what they change: the schema cache,
-- the notification router, the recorded requests, the log, and a world `W`, of any type, that
-- stands for all that the libraries and the backends keep. Proxy.Middleware.handle takes a request
-- to Listing.list_tools or Dispatch.call_tool. The latter finds the route, checks the arguments
-- against the cached schema, tracks progress, runs the call under the options of Options, maps its
-- error by Errors or clamps its result by Response, and records and logs the outcome. Startup.start
-- builds a Setup from a configuration that Config.Load accepted, over the sessions that Egress
-- opens, and Startup.run closes those when the listener ends. In Notifications.Runs calls,
-- cleanups, timers and the clock interleave in any order.
--
-- Requests that run at the same time. Proxy.Middleware and Proxy.Dispatch serve one request after
-- the other. Proxy.Concurrent has a System of many calls in flight, each with its Place in
-- callTool, over the Shared state: the schema cache, the router with its timers, the counter and
-- the log. Each piece between two places is one access to that state or one answer of a library or
-- a backend; an answer is an Input, of any content and at any time. A Step is the arrival of a
-- request, a piece of a call, a tool that tools/list stores, a timer, or the clock; Reach holds of
-- all states that steps lead to. Sequential relates the two models. Where one call is watched,
-- Finishing.rounds takes its pieces in turn with anything that others may do to the Shared state,
-- which is a function of it there.
--
-- Parameters. Code of other projects is an argument of the definitions that use it: resile.Do (any
-- function that may run the dispatch any number of times), the backends' sessions, JSON and JSON
-- Schema, the YAML decoder, the struct checker, reading a file, the header lookup and the JSON text
-- of a refusal, float arithmetic, the MCP SDK's sessions and server, and all that happens while a
-- listener serves. path.Match is a parameter of Config and Policy too, for which Glob has a
-- function that can be put; the one thing that Durations leaves open is the float product that a
-- fraction adds. Which patterns ServeMux.Handle takes is a parameter as well; it panics on others.
-- The SDK's HTTP handler is any Ingress.Serving program: it keeps sessions of its own, passes MCP
-- requests on to the middleware as it likes, one after the other, and answers as it likes. The
-- hypotheses about such code are two: HonoursTags, that the struct checker accepts only documents
-- that meet the tags; and HonoursAttempts, that resile.Do makes no more attempts than its options
-- set. Where one call is watched among others, IsAwaited and IsTokenBlind say what its answers are.
--
-- Bounds. The router's counter is a uint64 and wraps at 2^64; where a theorem needs fewer tokens
-- than that it says so. Byte counts are natural numbers: a total of int64 sizes that overflows is
-- not reached by texts in memory. Recursion is on lists, but for the digits of a number, whose fuel
-- is the number and one; the loop of truncateUTF8, which recurses on the length; the loops of
-- path.Match, whose fuel is the length of the pattern or of what is left of it, since each round
-- takes at least a byte off; and the loop of time.ParseDuration, whose fuel is the length of the
-- text for the same reason. A call in Proxy.Concurrent takes at most nine pieces and one for each
-- tool that its backend lists.
--
-- Not modelled: what the listeners do; the latency that is recorded and logged; what is printed
-- while starting; main's flag and its exit; the exposition format of the metrics. Locks are not
-- modelled as such: each operation holds its lock throughout its access to the shared state, which
-- is one step here.
pub mod Base
pub mod Errors
pub mod Pattern
pub mod Glob
pub mod Durations
pub mod Config
pub mod Policy
pub mod Proxy
pub mod Auth
pub mod Metrics
pub mod Egress
pub mod Ingress
pub mod Logging
pub mod Startup
mod Tests
