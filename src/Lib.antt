-- ===== src/Lib.antt =====
-- Elera: the supervisor of a MariaDB/Galera node. This library models the decisions of the
-- supervisor and proves what makes them safe.
--
-- A supervisor runs beside each database node. The supervisors tell each other what they see
-- (observations) and count a quorum over it; from the fresh observations each calculates the routes
-- of an application and assigns its writer. When the whole cluster is down, the supervisors collect
-- evidence of what each node holds, select a candidate, record an epoch for it, collect
-- acknowledgements and leases, and then one node alone starts a new cluster and the others join.
-- An operator can plan lifecycle actions, start a cold bootstrap, drain a node, or reset its data,
-- through the control API of a node that runs, or the smaller server of one that is pending. The
-- intent of a node says which cluster it belongs to, and is rendered to the files of MariaDB.
--
-- The files and the code they model, by paths from the repository's root:
-- - Fqdn for the forms of `isFqdn` that the files declare.
-- - Recovery.Evidence, Recovery.Candidate, Recovery.State, Recovery.Epoch for
--   evidence-validation.mjs, candidate.mjs, recovery-state.mjs and recovery-epoch.mjs of
--   src/cluster/cold-bootstrap.
-- - Recovery.Protocol for protocol.mjs and decision-store.mjs there. The variable `current`, the
--   decision file and the published events are the state; each handler is a computation on it that
--   returns or throws (Base), with Planning for `collect` and `plan` and Handlers for the others.
-- - Recovery.Lease for lease.mjs there, and the majority of leases of
--   src/runtime/recovery-authorization.mjs, where a member may not be reached or lose its answer.
-- - Recovery.Bootstrap for eligibility.mjs and service.mjs there.
-- - Recovery.Startup for startup-arguments.mjs, startup-state.mjs, explicit-startup.mjs and
--   join-verification.mjs there, and recovery-startup-decision.mjs and rejoin-decision.mjs of
--   src/runtime.
-- - Recovery.Joiners for src/runtime/sequential-joiners.mjs.
-- - Cluster.Observation, Cluster.Quorum, Cluster.Shutdown, Cluster.Lifecycle for the files of
--   src/cluster outside cold-bootstrap.
-- - Routing.Decision, Routing.Assignment, Routing.Events for decision.mjs, quorum-assignment.mjs,
--   assignment-store.mjs, address-validation.mjs, bundle-service.mjs, event-version-store.mjs and
--   event-snapshot.mjs of src/routing.
-- - Lifecycle.Drain, Lifecycle.Reset for the drains and the reset of src/lifecycle, and
--   Lifecycle.Shutdown for shutdown.mjs there, as the list of its calls over sequences of signals.
-- - Lifecycle.PendingInit for the server of a pending node, in src/lifecycle/pending-init: its
--   handler makes of a request an answer or the call that it goes on to make, Listener is its
--   listener and its timer over sequences of events, Sql the quoting of texts.
-- - Intent for src/intent/model.mjs, Intent.Render, Intent.Reconcile and Intent.State for the files
--   beside it; the state is the three files on disk, and every write of them can fail.
-- - Runtime.Startup for recovery-startup.mjs, recovery-decision.mjs and startup-decision-wiring.mjs of
--   src/runtime, Runtime.Plans for recovery-plan-retry.mjs and clean-restart-recovery.mjs there: steps
--   on the protocol, the recovery state and the Galera state file, which return or throw. Runtime.Authorization for
--   recovery-authorization.mjs there and promote-state.mjs of src/cluster/cold-bootstrap,
--   Runtime.DataDirectory for src/lifecycle/data-directory.mjs, Runtime.Maria for maria-startup.mjs
--   and bootstrap-watch.mjs.
-- - Runtime.Marker for clean-restart-marker.mjs there; the state is the marker's file, and
--   Runtime.Marker.Restart spends it over the stops and starts of a node. Runtime.Handoff for what a
--   blocked start of startup-coordinator.mjs hands over, with recovery-process-start.mjs and
--   recovery-join-start.mjs: each handoff is a list of calls that stops at the first that throws, over
--   the process, its listeners and the recovery state.
-- - Api for src/control-api.mjs and the routes of src/api/routes: each route makes of a request an
--   answer, a call of a service, or nothing; Api.Credentials has the routes that control-api.mjs
--   serves itself, and Api.Control puts them in their order. Http has the words that the handlers
--   share.
-- - Health for src/health.mjs.
-- - Prelude and Collation carry what these share; Examples uses the theorems on concrete data.
--
-- Parameters. How MariaDB reads quoted text is a record of the rules that the quoting relies on.
-- `localeCompare` is a total preorder on texts (Collation). SHA-256 and JSON texts are
-- functions of what they are applied to. Answers of the network, of files and of the database are
-- arguments, with a constructor for a call that throws. Times are natural numbers of milliseconds.
--
-- Numbers are natural numbers, or integers for sequence numbers and the numbers of an intent;
-- quotients in floating point are compared by cross products. Every loop of the model is structural
-- recursion, on a list or on the number of attempts that the code allows, so there is no fuel; the
-- loops of the source that poll a clock are the list of what the polls found, or one answer of the
-- code around the model.
--
-- Not modelled: SQL texts other than their quoting, the wiring in src/main.mjs and most of
-- src/runtime, the routes for the cluster, the accounts, the intent and the telemetry, the
-- metadata service, and the reading of evidence from disks and sockets.
pub mod Prelude
pub mod Collation
pub mod Fqdn
pub mod Recovery
pub mod Cluster
pub mod Routing
pub mod Lifecycle
pub mod Api
pub mod Health
pub mod Http
pub mod Runtime
pub mod Intent
pub mod Examples
