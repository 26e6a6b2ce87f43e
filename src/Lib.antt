-- ===== src/Lib.antt =====
-- A model of the Go package pkg/runtime of the framework, and what is proved of it.
--
-- The parts and their files. Each definition has the name of its Go function in snake_case; a method
-- takes its receiver as an argument and returns the changed receiver beside its result.
-- - Router (pkg/runtime/router.go). Router/Path: normalizePath, routeMatches. Router/Pattern and
--   Router/Compile: routeSegment, segPart and compilePattern. Router/Match: matchParams, paramValue.
--   Router/Table: Router, routeEntry, Handle, Any, Use, matchRoute, ServeHTTP, PathValue. The index of
--   parameter patterns, a global of the package, is an argument and a result of Handle. A handler is
--   a value of any type, and a middleware a function on it. Router/Priority, Router/Dispatch,
--   Router/Determinism, Router/Captures, Router/Serve, Router/Index and Router/Values hold the theorems.
-- - Proxy (pkg/runtime/proxy.go). Proxy/Breaker: proxyCircuitBreaker. Proxy/Limiter:
--   proxyRateLimiter. Proxy/Retry: proxyRetryTransport. Proxy/Failover: failoverResponseWriter.
--   Proxy/Join: joinProxyPath. Proxy/Health: refreshHealthStatus. Proxy/Serve: Proxy.ServeHTTP, which
--   asks the limiter, the breaker and the health check in this order and then the upstream, through the
--   failover writer if there is a failover; the calls of the library's ReverseProxy on that writer are
--   a list in the request.
-- - RouteRegistry (pkg/runtime/config_registry.go, upstream.go, rollout.go, region.go and
--   tenant_registry.go). Registry/State: the stored configurations. Registry/Routes, Upstreams,
--   Rollouts, Regions and Tenants: the operations. Registry/Shape, Invariant, Weights, Pool, Selection,
--   Decisions, Failover, Lookups and Access hold the theorems. ResolveRouteTarget reads the routes and
--   the upstreams; Register checks a route's upstream.
-- - Governance (pkg/runtime/governance.go). Governance/Gate: ApprovalGate. Governance/Events:
--   DeploymentEventLog. Governance/Workflow: ReleaseWorkflow, which drives a gate and a log.
--   Governance/Manifest: DeploymentManifest and its registry. Governance/Ledger: DeploymentLedger.
--   Governance/Store: its file store, Persist and LoadFrom. Governance/Approvals, Transitions, Timeline
--   and Releases hold the theorems.
-- - Metrics (pkg/runtime/metrics.go). Metrics/Histogram, over Sorting: RouteHistogram. Metrics/Window:
--   the ring of outcomes and ErrorWindow. Metrics/Counters: Metrics, Record and its readers, which
--   compose the two. Metrics/Percentiles, Ring, Recent and Totals hold the theorems.
-- - Tenancy (pkg/runtime/tenant.go). Tenancy/Middleware: the tenant middleware and its quota.
--   Tenancy/Entries, Agreement, Quota, Bounds and Waiting hold the theorems.
-- - Policies (pkg/runtime/policy_versioning.go). Policies/Versions: PolicyVersioner, which changes the
--   policies of the RouteRegistry. Policies/Steps, Replacing, Numbering, Appending and
--   Restart hold the theorems.
-- - Plans (pkg/runtime/artifacts.go and governance.go). Plans/Artifacts: ArtifactProvenance.
--   Plans/Release: ReleasePlan, RollbackPlan and ComplianceReport. Plans/Promotion: PromotionPlan.
--   Plans/Diff: BuildConfigDiff. Plans/Signing, Readiness, Stages and Removed hold the theorems.
-- - Control (pkg/runtime/controlplane.go). Control/Auth: requireAuth. Control/Routing: the routing
--   table and routeAPI. Control/Server: the handlers of releases, which drive a ReleaseWorkflow, and
--   createDeployment, which writes to the DeploymentLedger. Control/PolicyHandlers: the handlers of
--   policies, on a PolicyVersioner. Control/Exclusive, Backing, Gates, Deployments, PolicyCalls
--   and PolicyReplies hold the theorems.
-- - Access (pkg/runtime/auth.go and identity.go). Access/Claims: Policy and AccessPolicy.
--   Access/Tokens: bearerToken, requireJWT with its key function, jwtClaimsMap, and what reads the
--   claims. Access/Identity:
--   IdentityPolicy. Access/Meeting, Granting and Names hold the theorems.
-- - Prelude: lists, options and tests over native numbers, Go's int as an unbounded integer with the
--   wrap-around of 64 bits where sums of weights need it, float64
--   as exact fractions, strings as lists of bytes with the functions of Go's strings package that the
--   code uses, and maps as association lists. The modules named Tests hold runs and examples.
--
-- Conventions. Go ranges over a map in any order: `order` is that order, an argument of what
-- ranges, and a hypothesis says that it visits exactly the entries. Random numbers, the answers of
-- the upstream and of health probes, url.Parse, the hashes, the JWT library, strings.EqualFold,
-- reflect.DeepEqual, JSON, the answers of stores and of the file system, and the clock are
-- arguments. Times are nanoseconds, and 0 is the zero time. A call is one step: interleavings of
-- concurrent calls are not modelled, also not for the few methods that take their mutex more than
-- once. Loops are structural recursion over the segments, the bytes, the entries or the retries
-- left; none needs fuel.
--
-- Not modelled: nil receivers; overflow of int, but for the total of PickUpstream; the rounding of
-- float64, so a bucket of the limiter holds exactly the tokens that the rate gives; headers,
-- observers and metrics of the proxy, and the reverse proxy of net/http, of which only the outcome
-- and the calls on the writer appear; the times that governance records; changes of a manifest
-- through a pointer that a caller keeps; the texts of errors, replies and policy diffs; the file
-- store of policies and the database stores; the handlers of the control plane for routes,
-- upstreams and reading deployments; request ids, audit records, secrets, tracing, TLS, the
-- server, the command line and the generator, which are glue over libraries or apart from the
-- rest.
pub mod Prelude
pub mod Router
pub mod Proxy
pub mod Registry
pub mod Governance
pub mod Metrics
pub mod Tenancy
pub mod Policies
pub mod Plans
pub mod Control
pub mod Access
