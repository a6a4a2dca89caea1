-- ===== src/Lib.antt =====
-- The controller polls an endpoint of Pangolin for a Traefik configuration and writes it into a
-- Kubernetes cluster as objects of Traefik. A round fetches the configuration, decides from the
-- status, the ETag and a hash whether it is new, sanitizes its names, turns its routers and
-- services into objects, applies these with server-side apply, deletes the managed objects that
-- are no longer desired, and waits.
--
-- Which file models which part:
-- - Sanitize/Name, Sanitize/References, Sanitize/Config: internal/transform/sanitize/sanitize.go.
--   A configuration (TraefikConfig) has the maps of Config of
--   internal/transform/config/config.go; a raw object is its text.
-- - Protocol/Ports, Protocol/Servers, Protocol/TcpUdp: internal/transform/protocol/tcp_udp.go.
-- - Protocol/Conversion/Targets, Protocol/Conversion/Rewrite:
--   internal/transform/protocol/http_conversion.go.
-- - Routing: internal/transform/routing/routing.go.
-- - Apply/Metadata, Apply/Patch, Apply/Objects: metadata.go, unstructured.go and ingressroute.go
--   of internal/apply.
-- - Apply/Tracked: endpointslice.go and service.go of internal/apply.
-- - Labels: internal/kube/labels/resolver.go.
-- - Controller/Routers, Controller/Reconcile, Controller/Core, Controller/Gc, Controller/Gc/Pool:
--   internal/controller/apply.go. Core has the Services and EndpointSlices, Gc the collection of
--   stale objects, Gc/Pool the queue of the deletions with a grace period.
-- - Controller/Parallel: applyConfigParallel of internal/controller/apply.go. Its goroutines are a
--   step function on their statuses; Parallel/Phases has their programs and the interleavings of
--   their calls.
-- - Controller/Loop: loop.go, change_detection.go and fetchConfigOnce of internal/controller;
--   Controller/Fetch: the HTTP client of fetch.go; Controller/Backoff: backoff.go.
-- - Controller/Lifecycle: the loss of leadership, readiness and the identity of controller.go and
--   readiness.go of internal/controller.
-- - Config, Config/Validate, Config/Env, Config/Defaults, Config/File: internal/config;
--   Config/File/Documented has a table of the variables and defaults of its own to compare with.
-- - Logging: internal/observability/logging/redact.go, and the preview of loop.go.
-- - Certificates: internal/certificates/certificates.go.
-- - HttpServer: internal/httpserver, and the probe cmd/healthcheck/main.go.
-- - Orchestration: runControllerWithStarter of internal/orchestration/run.go, with what ends its
--   goroutines as events; Orchestration/Standalone: the mode that serves HTTP only.
-- - Kube: the calls of internal/kube/resources/resource_adapter.go and of the typed clients.
-- - Prelude, Text, Maps, Json, Result: numbers and lists, Go's strings, maps with string keys,
--   decoded JSON, and errors, of which the model keeps the kind and not the text.
-- - Examples: the theorems at concrete inputs, and tests.
-- The Go functions keep their names in snake case: reconcileTCP is reconcile_tcp.
--
-- A program that calls the API (Kube/Prog) takes a server and the calls made so far and returns a
-- result with the calls made by then. The server is a parameter: what it answers may depend in
-- any way on the calls before. So the theorems hold for every cluster, also for one that changes
-- under the controller. The state of the polling loop is a record that a round takes and returns.
-- The delayed deletions run on workers side by side: they are a step function on a pool, and a
-- run is a list of events in any order in which they can happen. So are the goroutines of a
-- parallel round and of the process. Each phase of a parallel round has a server of its own, since
-- the calls of the others between two of its calls may change any answer; the calls of the round
-- are an interleaving of those of its phases.
--
-- What is not under the repository's own code is a parameter: lower case beyond ASCII and SHA-256
-- (NameLib, with the form of a digest as HasDigest), the syntax of labels (LabelLib), net and
-- net/url (NetLib), encoding/json (Codec), the HTTP transport and the decoding of a body (World),
-- the reads of a body (Reader), the requests that net/http prepares for redirects, the API server
-- (Api), which fields of an object belong to the controller's earlier patches alone, the Secrets
-- with PEM and X.509 (CertLib), the environment, the file system, the YAML parser and
-- time.ParseDuration (Loader), the folding of letters of strings.EqualFold, and the
-- random factor of the backoff.
--
-- Bounds: every loop is a recursion on its list, but for two on a number: the five attempts of
-- server-side apply, and the rounds of the backoff, of which there are as many as errors. A
-- duration in the backoff is an int64 that wraps around; a port is parsed with the bounds of an
-- int32. A range over a Go map takes the entries of an association list in the list's order,
-- which is any order.
--
-- Not modelled: the wait between attempts; the errors of several routers that are joined, of which
-- the model returns the first one; the rounding of float64, and CLIENT_QPS, which is one; metrics,
-- and log lines but for the preview of a configuration; the differences of specs, which are only
-- logged; internal/reconcile, which the controller does not use; the protocol of leader election,
-- which is client-go's; the construction of the Kubernetes client; tools. The rounds of
-- Controller/Loop reconcile in sequence, and a parallel round is modelled by itself. An idle worker
-- of the pool that ends with the context is counted as idle.
mod Prelude
pub mod Text
pub mod Result
pub mod Maps
pub mod Json
pub mod Sanitize
pub mod Protocol
pub mod Routing
pub mod Kube
pub mod Apply
pub mod Config
pub mod Labels
pub mod Logging
pub mod Certificates
pub mod HttpServer
pub mod Controller
pub mod Orchestration
mod Examples
