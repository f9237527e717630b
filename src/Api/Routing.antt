-- ===== src/Api/Routing.antt =====
-- The routes of the routing (api/routes/routing-admin.mjs, api/routes/routing.mjs,
-- api/routes/routing-resync.mjs) and of the traffic (api/routes/traffic.mjs).
use elera.Prelude.{
  String, Bool, true, false, not, ◌&&◌, Option, none, some, ◌==◌, nat_eq, string_eq, if◌then◌else◌,
  includes,
}
use elera.Http.{Method, is_get, is_post}
use elera.Api.{Auth, Handled, passed, replied, answers, has_scope_or_all}

-- The calls: the bundle service, the events, the drain.
pub data RoutingCall : Type 0 where
  validate events rebalance resync : (application : String) → RoutingCall
  lease_bundle : (identity : String) → (application : Option String) → RoutingCall
  refresh inspect_routes traffic : RoutingCall
  set_drain : (drained propagated : Bool) → RoutingCall

pub record Body : Type 0 where
  pub confirm : Bool
  pub application : Option String

abbrev pub first_some : Option String → Option String → Option String
first_some (some a) b = some a
first_some none b = b

abbrev pub or_default : Option String → String
or_default none = "default"
or_default (some a) = a

abbrev pub is_set : Option String → Bool
is_set none = false
is_set (some a) = not (a == "")

abbrev pub differs : Option String → Option String → Bool
differs (some a) (some b) = not (a == b)
differs none none = false
differs _ _ = true

-- `applicationFrom`, `none` where it throws 403.
unfoldable pub application_from : Auth → (requested : Option String) → Option String
application_from a requested =
    if is_set requested
      && is_set a.application
      && differs requested a.application
      && not a.root
      && not (includes "*" a.scopes)
    then none
    else some (or_default (first_some requested a.application))

abbrev pub for_application : Option String → (String → Handled RoutingCall) → Handled RoutingCall
for_application none k = replied 403
for_application (some t) k = k t

abbrev pub rebalance_body : Auth → Option Body → Handled RoutingCall
rebalance_body a none = replied 400
rebalance_body a (some b) =
    if b.confirm
    then for_application (application_from a b.application) (λ t. answers (rebalance t) 202)
    else replied 409

-- `handleRoutingAdminRoute`; `query` is the search parameter `application`.
unfoldable pub handle_routing_admin_route :
    (bundles : Bool)
    → Method
    → String
    → (query : Option String) → Auth
    → Option Body
    → Handled RoutingCall
unfolding application_from has_scope_or_all
handle_routing_admin_route bundles m path query a body =
    if not bundles
    then passed
    else if is_get m && path == "/api/v1/routing/validate"
    then (if has_scope_or_all a "routing:read"
        then for_application (application_from a query) (λ t. answers (validate t) 200)
        else passed)
    else if is_get m && path == "/api/v1/routing/events"
    then (if has_scope_or_all a "routing:read"
        then for_application (application_from a query) (λ t. answers (events t) 200)
        else passed)
    else if is_post m && path == "/api/v1/routing/rebalance"
    then (if has_scope_or_all a "routing:rebalance" then rebalance_body a body else passed)
    else passed

-- The bundle of an identity: the one asked for, or the token's own; a token with an identity gets
-- no other.
abbrev pub bundle_of :
    Auth → (requested : Option String) → (chosen : Option String) → Handled RoutingCall
bundle_of a requested none = replied 400
bundle_of a requested (some id) =
    if id == ""
    then replied 400
    else if is_set requested && is_set a.identity && differs requested a.identity
    then replied 403
    else answers (lease_bundle id a.application) 200

unfoldable pub bundle_for : Auth → (requested : Option String) → Handled RoutingCall
bundle_for a requested = bundle_of a requested (first_some requested a.identity)

-- `handleRoutingRoute`; `query` is the search parameter `identity`.
unfoldable pub handle_routing_route :
    Method → String → (query : Option String) → Auth → (parses : Bool) → Handled RoutingCall
unfolding bundle_for
handle_routing_route m path query a parses =
    if path == "/api/v1/routes" && is_get m
    then answers inspect_routes 200
    else if path == "/api/v1/routes/refresh" && is_post m
    then (if parses then answers refresh 200 else replied 400)
    else if path == "/api/v1/routing/bundle" && is_get m
    then bundle_for a query
    else passed

-- `handleRoutingResyncRoute`
unfoldable pub handle_routing_resync_route :
    Method → String → (query : Option String) → Handled RoutingCall
handle_routing_resync_route m path query =
    if is_get m && path == "/api/v1/routing/resync"
    then answers (resync (or_default query)) 200
    else passed

-- `handleTrafficRoute`; `propagated` is the header of a drain that a peer passes on.
unfoldable pub handle_traffic_route : Method → String → (propagated : Bool) → Handled RoutingCall
handle_traffic_route m path propagated =
    if is_get m && path == "/api/v1/traffic/status"
    then answers traffic 200
    else if is_post m && path == "/api/v1/traffic/drain"
    then answers (set_drain true propagated) 200
    else if is_post m && path == "/api/v1/traffic/undrain"
    then answers (set_drain false propagated) 200
    else passed
