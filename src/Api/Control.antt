-- ===== src/Api/Control.antt =====
-- The control API: authentication, the routes in their order, and the last answer
-- (control-api.mjs, api/authentication.mjs). The routes for the status, the telemetry, the intent,
-- the accounts, the cluster and the observations are left out: `handler` stands for the code at the
-- paths that are not theirs (`is_left_out`).
pub mod Table
pub mod Stores
pub mod Managers
pub mod Routers
pub mod Permitted
use elera.Prelude.{
  ℕ, zero, suc, ◌+◌, ◌-◌, ◌*◌, ◌/◌, ◌%◌, ◌^◌, ◌≤◌, ◌<◌, min, max, String, ◌≡◌, refl, sym, ap, ap₂,
  subst, ◌∙◌, ◌≢◌, ◌↔◌, ◌⊎◌, inl, inr, Bool, true, false, not, ◌&&◌, ◌||◌, Option, none, some, List,
  [], ◌∷◌, ◌++◌, map, Memᴰ, arith, eq_iff, ltb, leb, nat_eqb, Eq, ◌==◌, nat_eq, string_eq,
  if◌then◌else◌, ltb→lt, lt→ltb, leb→le, Bool-cases, Option-cases, &&-left, &&-right, is_some,
  length, filter, any, all, find, count, head?, get_last?, length-append, length-filter,
  count-le-length, mem-filter, mem-filter_of, any_of_mem, mem_of_any, all_mem, any-false_mem,
  find-some, find-none, count-add-le, mem_of_count, count_le_of, count_pos, includes, dedupe,
  dedupe_onto, nat_eqb_iff,
}
use elera.Http.{Method, starts_with}
use elera.Api.{Auth, Handled, passed, replied, called}
use elera.Api.Reconcile as Reconcile
use elera.Api.Reconcile.{ReconcileCall, handle_reconcile_route}
use elera.Api.Artifacts.{ArtifactCall, handle_artifact_route}
use elera.Api.Initialization.{
  InitializationCall, MetadataCall, ResetCall, handle_initialization_route, handle_metadata_route,
  handle_node_data_reset_route,
}
use elera.Api.ColdRecovery.{
  ProtocolCall, RecoveryCall, handle_cold_recovery_route, handle_recovery_route,
}
use elera.Api.Managed as Managed
use elera.Api.Managed.{ManagedCall, ApplicationCall, handle_managed_route, handle_application_route}
use elera.Api.Credentials.{CredentialCall, LeaseRequest, handle_credentials}
use elera.Api.Routing as Routing
use elera.Api.Routing.{
  RoutingCall, handle_routing_admin_route, handle_routing_route, handle_routing_resync_route,
  handle_traffic_route,
}

pub data Service : Type 0 where
  reconciler : ReconcileCall → Service
  artifacts : ArtifactCall → Service
  initialization : InitializationCall → Service
  metadata : MetadataCall → Service
  data_reset : ResetCall → Service
  protocol : ProtocolCall → Service
  recovery : RecoveryCall → Service
  managed : ManagedCall → Service
  applications : ApplicationCall → Service
  routing : RoutingCall → Service
  credentials : CredentialCall → Service

-- A request, with its body as each route reads it, and its search parameters. `bearer` is the token
-- of the authorization header, where that has the form `Bearer <token>`.
pub record Request : Type 0 where
  pub method : Method
  pub path : String
  pub bearer : Option String
  pub internal : Bool
  pub propagated : Bool
  pub application : Option String
  pub identity : Option String
  pub confirm : Option Bool
  pub force : Option Bool
  pub text : Option String
  pub reconcile : Reconcile.Body
  pub managed : Option Managed.Body
  pub routing : Option Routing.Body
  pub lease : Option LeaseRequest

-- What `createControlApi` is given: the root token, the scoped tokens that the metadata knows, and
-- which services there are.
pub record Api : Type 0 where
  pub root_token : Option String
  pub scoped : String → Option Auth
  pub decode : List ℕ → Option String
  pub owner : String → Option String
  pub has_recovery : Bool
  pub has_metadata : Bool
  pub metadata_initializes : Bool
  pub has_applications : Bool
  pub has_managed : Bool
  pub has_reconciler : Bool
  pub has_artifacts : Bool
  pub has_bundles : Bool
  pub has_leases : Bool
  pub managed_leases : Bool

-- `tokenMatches`, which compares the digests of the two tokens.
unfoldable pub token_matches : Option String → Option String → Bool
token_matches (some s) (some t) = not (t == "") && s == t
token_matches _ _ = false

abbrev pub root_auth : Auth
root_auth = record { root = true; scopes = "*" ∷ []; application = none; identity = none }

abbrev scoped_auth : (String → Option Auth) → Option String → Option Auth
scoped_auth known none = none
scoped_auth known (some t) = if t == "" then none else known t

-- The client of a request: root, a scoped token, or nobody.
unfoldable pub client_of : Api → Request → Option Auth
unfolding token_matches
client_of a r =
    if token_matches r.bearer a.root_token then some root_auth else scoped_auth a.scoped r.bearer

unfoldable pub lift : {C : Type 0} → (C → Service) → Handled C → Handled Service
lift f passed = passed
lift f (replied n) = replied n
lift f (called c n m) = called (f c) n m

-- `await first(context) || await second(context)`
unfoldable pub or_next : Handled Service → Handled Service → Handled Service
or_next passed next = next
or_next h next = h

abbrev is_some_body : Option String → Bool
is_some_body none = false
is_some_body (some t) = true

-- The paths of the routes that are left out.
abbrev left_out : List String
left_out =
    "/api/v1/status" ∷ "/api/v1/config" ∷ "/api/v1/config/apply" ∷ "/api/v1/config/intent"
    ∷ "/api/v1/config/plan" ∷ "/api/v1/config/verify" ∷ "/api/v1/telemetry"
    ∷ "/api/v1/telemetry/details" ∷ "/api/v1/accounts" ∷ "/api/v1/accounts/export"
    ∷ "/api/v1/accounts/import" ∷ "/api/v1/accounts/provision" ∷ "/api/v1/accounts/revoke"
    ∷ "/api/v1/accounts/verify" ∷ "/api/v1/cluster/bootstrap"
    ∷ "/api/v1/cluster/bootstrap/eligibility" ∷ "/api/v1/cluster/bootstrap/plan"
    ∷ "/api/v1/cluster/cold-bootstrap" ∷ "/api/v1/cluster/cold-bootstrap/evidence"
    ∷ "/api/v1/cluster/cold-bootstrap/local" ∷ "/api/v1/cluster/cold-bootstrap/plan"
    ∷ "/api/v1/cluster/lifecycle/apply" ∷ "/api/v1/cluster/lifecycle/plan"
    ∷ "/api/v1/cluster/observations" ∷ "/api/v1/cluster/quorum" ∷ "/api/v1/cluster/status"
    ∷ "/api/v1/cluster/topology" ∷ "/api/v1/cluster/wait-ready" ∷ []

abbrev pub is_left_out : String → Bool
is_left_out path = includes path left_out

-- The routes, in their order. The context that they get has no member `protocol`.
unfoldable pub routes : Api → Request → Auth → Handled Service
unfolding lift or_next handle_recovery_route handle_cold_recovery_route handle_traffic_route
    handle_initialization_route handle_metadata_route handle_application_route
    handle_node_data_reset_route handle_managed_route handle_reconcile_route handle_artifact_route
    handle_routing_admin_route handle_routing_route handle_routing_resync_route
routes a r u =
    or_next (lift recovery (handle_recovery_route a.has_recovery r.method r.path u r.confirm)) (
      or_next
        (lift protocol (handle_cold_recovery_route false r.method r.path u r.internal r.force))
        (or_next (lift routing (handle_traffic_route r.method r.path r.propagated)) (
          or_next
            (lift initialization
              (handle_initialization_route a.metadata_initializes r.method r.path r.confirm))
            (or_next
              (if a.has_metadata
                then lift metadata (handle_metadata_route r.method r.path r.confirm)
                else passed)
              (or_next
                (lift applications (
                  handle_application_route a.has_applications a.decode a.owner r.method r.path u
                    r.managed))
                (or_next
                  (lift data_reset
                    (handle_node_data_reset_route r.method r.path u (is_some_body r.text)))
                  (or_next
                    (lift managed (
                      handle_managed_route a.has_managed a.decode r.method r.path r.application u
                        r.managed))
                    (or_next
                      (lift reconciler
                        (handle_reconcile_route a.has_reconciler r.method r.path u r.reconcile))
                      (or_next
                        (lift artifacts
                          (handle_artifact_route a.has_artifacts a.decode r.method r.path u r.text))
                        (or_next
                          (lift routing (
                            handle_routing_admin_route a.has_bundles r.method r.path r.application u
                              r.routing))
                          (or_next
                            (lift routing (
                              handle_routing_route r.method r.path r.identity u
                                (is_some_body r.text)))
                            (lift routing (
                              handle_routing_resync_route r.method r.path r.application)))))))))))))

-- What follows the routes: the credentials, and `endpoint not found`.
unfoldable pub last_routes : Api → Request → Handled Service
unfolding lift or_next handle_credentials
last_routes a r =
    or_next
      (lift credentials (
        handle_credentials a.has_leases a.managed_leases r.method r.path r.lease
          (is_some_body r.text)))
      (replied 404)

unfoldable pub serve : Api → Request → Option Auth → Handled Service
unfolding routes or_next last_routes
serve a r none = replied 401
serve a r (some u) = or_next (routes a r u) (last_routes a r)

-- `handler`
unfoldable pub handler : Api → Request → Handled Service
unfolding serve client_of starts_with
handler a r = if starts_with r.path "/api/v1/" then serve a r (client_of a r) else passed
