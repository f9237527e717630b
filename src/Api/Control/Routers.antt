-- ===== src/Api/Control/Routers.antt =====
-- Who reaches the routing and the traffic (api/routes/routing-admin.mjs, api/routes/routing.mjs,
-- api/routes/routing-resync.mjs, api/routes/traffic.mjs).
use elera.Prelude.{
  ℕ, String, ◌≡◌, refl, ◌∙◌, inl, inr, Bool, true, false, ◌&&◌, Option, none, some, arith, ◌==◌,
  nat_eq, string_eq, if◌then◌else◌, Bool-cases,
}
use elera.Http.{Method, is_post, is_get}
use elera.Api.{Auth, passed, answers, has_scope_or_all}
use elera.Api.Routing as Rout
use elera.Api.Routing.{
  RoutingCall, handle_routing_admin_route, handle_routing_route, handle_routing_resync_route,
  handle_traffic_route, rebalance_body, application_from, bundle_for, bundle_of, is_set, differs,
  first_some,
}
use elera.Api.Control.Table.{calls_only, may_route}

-- An application that is allowed, or the refusal.
pub for_application-permitted :
    (u : Auth) (o : Option String) (k : String → RoutingCall) (n : ℕ)
    → ((t : String) → may_route u (k t) ≡ true)
    → calls_only (may_route u) (Rout.for_application o (λ t. answers (k t) n)) ≡ true
for_application-permitted u none k n h = refl
for_application-permitted u (some t) k n h = h t

pub rebalance-permitted :
    (u : Auth) (body : Option Rout.Body)
    → has_scope_or_all u "routing:rebalance" ≡ true
    → calls_only (may_route u) (rebalance_body u body) ≡ true
rebalance-permitted u none t = refl
rebalance-permitted u (some b) t = elim (Bool-cases b.confirm) [
  | inl c ↦
      rw c
        (for_application-permitted u (application_from u b.application) Rout.rebalance 202 (λ _. t))
  | inr c ↦ rw c refl
]

pub routing_admin-permitted :
    (has : Bool) (m : Method) (path : String) (query : Option String) (u : Auth)
    (body : Option Rout.Body)
    → calls_only (may_route u) (handle_routing_admin_route has m path query u body) ≡ true
unfolding handle_routing_admin_route
routing_admin-permitted false m path query u body = refl
routing_admin-permitted true m path query u body =
    chosen (is_get m && path == "/api/v1/routing/validate")
      (is_get m && path == "/api/v1/routing/events")
      (is_post m && path == "/api/v1/routing/rebalance")
  where
    reads :
        (k : String → RoutingCall)
        → ((t : String) → may_route u (k t) ≡ has_scope_or_all u "routing:read")
        → calls_only (may_route u) (
            if has_scope_or_all u "routing:read"
            then Rout.for_application (application_from u query) (λ t. answers (k t) 200)
            else passed)
          ≡ true
    reads k h = elim (Bool-cases (has_scope_or_all u "routing:read")) [
      | inl t ↦ rw t (for_application-permitted u (application_from u query) k 200 (λ x. h x ∙ t))
      | inr f ↦ rw f refl
    ]

    chosen :
        (x y z : Bool)
        → calls_only (may_route u) (
            if x
            then (if has_scope_or_all u "routing:read"
                then Rout.for_application
                    (application_from u query)
                    (λ t. answers (Rout.validate t) 200)
                else passed)
            else if y
            then (if has_scope_or_all u "routing:read"
                then Rout.for_application
                    (application_from u query)
                    (λ t. answers (Rout.events t) 200)
                else passed)
            else if z
            then (if has_scope_or_all u "routing:rebalance" then rebalance_body u body else passed)
            else passed)
          ≡ true
    chosen true y z = reads Rout.validate (λ t. refl)
    chosen false true z = reads Rout.events (λ t. refl)
    chosen false false false = refl
    chosen false false true = elim (Bool-cases (has_scope_or_all u "routing:rebalance")) [
      | inl t ↦ rw t (rebalance-permitted u body t)
      | inr f ↦ rw f refl
    ]

pub bundle_of-permitted :
    (u : Auth) (o c : Option String) → calls_only (may_route u) (bundle_of u o c) ≡ true
bundle_of-permitted u o none = refl
bundle_of-permitted u o (some id) = elim (Bool-cases (id == "")) [
  | inl t ↦ rw t refl
  | inr f ↦ elim (Bool-cases (is_set o && is_set u.identity && differs o u.identity)) [
    | inl t ↦ rw (f, t) refl
    | inr g ↦ rw (f, g) refl
  ]
]

pub routing-permitted :
    (m : Method) (path : String) (query : Option String) (u : Auth) (parses : Bool)
    → calls_only (may_route u) (handle_routing_route m path query u parses) ≡ true
unfolding handle_routing_route bundle_for
routing-permitted m path query u parses =
    ground (arith, bundle_of-permitted u query (first_some query u.identity))

pub resync-permitted :
    (m : Method) (path : String) (query : Option String) (u : Auth)
    → calls_only (may_route u) (handle_routing_resync_route m path query) ≡ true
unfolding handle_routing_resync_route
resync-permitted m path query u = ground arith

pub traffic-permitted :
    (m : Method) (path : String) (propagated : Bool) (u : Auth)
    → calls_only (may_route u) (handle_traffic_route m path propagated) ≡ true
unfolding handle_traffic_route
traffic-permitted m path propagated u = ground arith
