-- ===== src/Api/Control/Table.antt =====
-- The authority that each call of a service needs (control-api.mjs, api/routes/*.mjs).
use elera.Prelude.{Bool, true, false, none, nat_eq, string_eq}
use elera.Api.{Auth, Handled, passed, replied, called, has_scope, has_scope_or_all}
use elera.Api.Reconcile.{ReconcileCall}
use elera.Api.Artifacts as Art
use elera.Api.Artifacts.{
  ArtifactCall, handle_artifact_route, one_secret, decoded, matched, secret_name,
}
use elera.Api.ColdRecovery as Cold
use elera.Api.ColdRecovery.{
  ProtocolCall, RecoveryCall, handle_cold_recovery_route, without_protocol, handle_recovery_route,
}
use elera.Api.Managed as Man
use elera.Api.Managed.{
  ManagedCall, ApplicationCall, handle_managed_route, managed_path, may_manage,
  handle_application_route, for_application, then_body, with_deletion, status_of, status_route,
  delete_of, when_root, is_foreign, deleted_database, named_application,
}
use elera.Api.Routing as Rout
use elera.Api.Routing.{
  RoutingCall, handle_routing_admin_route, handle_routing_route, handle_routing_resync_route,
  handle_traffic_route, rebalance_body, application_from, bundle_for, bundle_of, is_set, differs,
  first_some,
}
use elera.Api.Control.{
  Service, reconciler, artifacts, initialization, metadata, data_reset, protocol, recovery, managed,
  applications, routing, credentials,
}

-- What a route calls, if anything, satisfies `p`.
abbrev pub calls_only : {C : Type 0} → (C → Bool) → Handled C → Bool
calls_only p passed = true
calls_only p (replied n) = true
calls_only p (called c n m) = p c

-- The authority that a call needs.
abbrev pub may_reconcile : Auth → ReconcileCall → Bool
may_reconcile u c = has_scope u "metadata:reconcile"

abbrev pub may_keep : Auth → ArtifactCall → Bool
may_keep u (Art.put_secret n t) = has_scope u "backup:create"
may_keep u (Art.remove n) = has_scope u "backup:restore"
may_keep u _ = has_scope u "backup:read"

abbrev pub may_recover : Auth → RecoveryCall → Bool
may_recover u Cold.abort = has_scope_or_all u "recovery:abort"
may_recover u Cold.acknowledge = has_scope_or_all u "recovery:acknowledge"
may_recover u _ = has_scope_or_all u "recovery:read"

abbrev pub may_manage_call : Auth → ManagedCall → Bool
may_manage_call u Man.export_all = may_manage u "metadata:read" none
may_manage_call u Man.list_databases = may_manage u "database:read" none
may_manage_call u Man.rotate_identity = may_manage u "identity:rotate" none
may_manage_call u Man.revoke_identity = may_manage u "identity:revoke" none
may_manage_call u (Man.list_identities t) = may_manage u "identity:read" none
may_manage_call u (Man.create_database t) = may_manage u "database:provision" t
may_manage_call u (Man.create_identity t) = may_manage u "identity:provision" t
may_manage_call u (Man.issue_token t) = may_manage u "token:create" t
may_manage_call u (Man.revoke_token t) = may_manage u "token:revoke" t
may_manage_call u (Man.delete_database d) = may_manage u "database:delete" none

abbrev pub may_apply : Auth → ApplicationCall → Bool
may_apply u (Man.application_status t) = has_scope u "app:admin"
may_apply u _ = u.root

abbrev pub may_route : Auth → RoutingCall → Bool
may_route u (Rout.validate t) = has_scope_or_all u "routing:read"
may_route u (Rout.events t) = has_scope_or_all u "routing:read"
may_route u (Rout.rebalance t) = has_scope_or_all u "routing:rebalance"
may_route u _ = true

-- The table of all services. The routes of the initialization, the metadata, the traffic and the
-- credentials ask for no scope. The protocol of the cold recovery has no entry: the context of the
-- routes holds it under another name than its route reads.
abbrev pub permitted : Auth → Service → Bool
permitted u (reconciler c) = may_reconcile u c
permitted u (artifacts c) = may_keep u c
permitted u (initialization c) = true
permitted u (metadata c) = true
permitted u (data_reset c) = u.root
permitted u (protocol c) = false
permitted u (recovery c) = may_recover u c
permitted u (managed c) = may_manage_call u c
permitted u (applications c) = may_apply u c
permitted u (routing c) = may_route u c
permitted u (credentials c) = true
