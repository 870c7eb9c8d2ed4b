-- ===== src/Lib.antt =====
-- Verification of the FastGateway backend: the rules that decide what reaches a cluster.
--
-- A change of a route is a request that a project's approval policy may gate. `Approval` models the
-- engine that plans the stages of a request, lets reviewers approve or reject them, and ends the
-- request; when it ends, a completer acts on the entity. `Route` models the completer of routes and
-- the state machine through which every status write of a route goes. `Write` models the requests
-- themselves, as clients of both, with the policies that a route carries; `Attach` models the requests
-- that attach a client to a route, and `Deploy` what brings a route to its cluster. `Stream` models
-- which ports a TCP or UDP stream claims and its routes use, and `Traffic` the validation of traffic
-- policies.
--
-- Base: shared names, tests, lists, Go results (`Result`), actions that write and may fail (`Exec`),
--   integers (`Base.Int`), chains of checks (`Base.Chains`), the order of strings (`Base.Texts`).
-- Route: internal/routestate/routestate.go and internal/services/route_approval.go.
--   Status and Table hold the statuses, call sites and `legalTransitions`; Machine is `Machine.To`;
--   Completer is OnApproved, OnRejected, OnCancelled and CanCancel. Legal restates the table as a
--   relation; Lifecycle, Outcomes and Endings hold the theorems.
-- Approval: internal/approval and internal/models/approval.go. Model and Ports hold the records and
--   what the engine calls; Planning is PlanStages; Authorize is authorizeStageReview; Guards are the
--   steps of ApproveStage, RejectStage and Cancel up to the first write, and Traversal the rest.
--   Authorized, Planned, Unchanged, Stages, Laws and Gate hold the theorems; Laws states what the
--   engine relies on of its stores, and Gate the invariant of the database.
-- Stream: internal/services/stream_port_collision.go, internal/models/stream_port.go and
--   template_listener.go. Model holds ports, claims and `Normalize`; Claims holds every check.
--   Sorting and Order are about the sort; Accepts, Accepted and Kept state what each check accepts.
--   Names is `ValidateStreamName` and `StreamGatewayName` of internal/services/stream_service.go;
--   Labels and GatewayName hold its theorems. Service is Create, ApplyGateway, ReconcileGateways,
--   Update and Delete of that file, and Served what a changed claim set has passed.
-- Traffic: internal/models/backend_traffic_policy.go and backend_traffic_policy_validation.go.
--   Balance, Retry, RateLimit, Faults and Health hold the validators; Passes and Valid the theorems.
-- Write: internal/services/route_write_service.go, route_write_approval.go,
--   route_write_validation.go, and parts of route_validation.go, internal/models/security_policy.go,
--   waf_policy.go, labels.go and internal/routeplan. Security and Policies hold the policies and
--   their checks, Tables what a write calls, Checks what precedes it, Submit is `Update` and
--   `Delete`, Create is `Create`. Dropped, Laws, Requested, Submitted, Settled, Undeployed and Blocked
--   hold the theorems; Laws states what they rely on of the repositories.
-- Config: internal/models/route.go (`RouteConfig`) and the checks of route_validation.go and
--   route_write_validation.go. Model, Backends, Matchers, Shape and Warnings hold the definitions;
--   Conflicts, Accepted, Targets, Updated and Granted hold the theorems, the last two on the update
--   of a route, Granted with the stream service as its port checker.
--   The results of fmt.Sprintf are `Keys`, strings.EqualFold and strings.ToLower are `Folding`.
-- Attach: internal/services/clients/client_attachment_service.go and client_cascade.go, and
--   internal/models/client_attachment.go. Checks and Service are the attaching and detaching of
--   clients, Ending the completer of their approvals, Cascade the redeploy of a changed client's
--   routes. Laws states what the theorems rely on of the repositories; Fanned, Turns, Queued, Settled,
--   Attached, Configured and FastAttach hold the theorems.
-- Deploy: internal/services/route_deploy_service.go, parts of route_deploy_clients.go,
--   internal/cluster/cleanup.go and internal/kubernetes/naming.go, over the service of `Write`. Steps
--   lists the calls of the cluster and whether their failure ends the deploy; Service is Deploy. Of
--   the calls, Clients is the removal of a route's per-client resources, Stale the search for stale
--   ones and Names their names. Laws states what the theorems rely on of the repositories, Cleaned
--   and Spared what they rely on of the cluster, Removed of the lists of attachments; these and
--   Required, Finished, Deployed, Extracted, FastDelete and FastCreate hold the theorems, the last
--   two on a write that a deploy follows.
-- Access: internal/middleware/permissions.go, internal/models/team.go and the merging of permissions
--   in internal/repository/team_repository.go. Teams and Checker hold the code, Agree and Gates the
--   theorems.
-- Leader: internal/leaderlock/leaderlock.go. Gate is the loop and its closures; Laws is what Postgres
--   and database/sql document; Exclusive and Stacked hold the theorems.
--
-- Each component's Tests applies the theorems at concrete inputs.
--
-- Conventions. A uuid is a number; a Go `int` is a `ℤ` of Base.Int; no code modelled here computes
-- beyond comparisons of them, so none can overflow. An error keeps its kind, or the fixed part of
-- its message. A nil pointer is `none`. A stage pointer into an approval's stages is a write of the
-- stage with that identifier. What a database write did before a later failure stays. Loops are
-- structural recursion on a list, but for the one that collapses dashes in a Gateway's name: it has
-- the length of the text as fuel, which Stream.GatewayName shows to be enough, and the election
-- loop, which runs for a given number of ticks.
--
-- Parameters: the stores and lookups (`RouteStore`, `Ports`, `StreamPortStore`), json.Unmarshal of a
-- snapshot and of a policy's stages, json.Marshal of a snapshot, strings.ToUpper and
-- strings.ToLower, regexp, the lock server, the repositories of `Tables`, `Repos`,
-- `AttachmentService` and `RouteDeploy`, the calls of the cluster (`run` of `RouteDeploy`, and
-- `ClusterApi` with `ClientCluster`; all may fail), the text of a uuid, and what the validators use of the packages time, net and regexp and of float32 (`Std`).
-- What the theorems need of them is stated as hypotheses, in Approval.Laws, Write.Laws,
-- Attach.Laws, Deploy.Laws and Leader.Laws, and holds of the databases of their Tests. The writes
-- take the checks of a route's configuration as an interface (`ConfigChecks`), which
-- `Config.Shape.config_checks` fills.
--
-- Not modelled: SQL (internal/repository), HTTP handlers, logging, the builders and clients of
-- Kubernetes but for the files above, what a deploy creates in the cluster (backends, policies,
-- per-client routes: manifests built field by field), and the services of domains, certificates and
-- of the clients themselves.
pub mod Base
pub mod Leader
pub mod Route
pub mod Approval
pub mod Traffic
pub mod Stream
pub mod Write
pub mod Config
pub mod Attach
pub mod Deploy
pub mod Access
