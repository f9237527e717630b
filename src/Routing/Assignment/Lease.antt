-- ===== src/Routing/Assignment/Lease.antt =====
-- The lease of a routing bundle (routing/bundle-service.mjs), and what an assignment needs.
use elera.Prelude.{
  ℕ, ◌+◌, String, ◌≡◌, refl, subst, Bool, true, false, not, ◌&&◌, Option, none, some, List, [], ◌∷◌,
  ◌++◌, ltb, ◌==◌, nat_eq, string_eq, if◌then◌else◌, length, filter, any, all, head?,
}
use elera.Prelude.Dict.{Dict, get, put, delete, get-put}
use elera.Prelude.Result.{Result, ok, err}
use elera.Fqdn.{fqdn_loose}
use elera.Cluster.Observation.{Observation}
use elera.Cluster.Quorum.{evaluate_quorum}
use elera.Routing.Decision.{Host, Route, Routes, calculate_routes}
use elera.Routing.Assignment.{
  Store, Outcome, assigned, refused, AssignError, assign, may_write, get_assigned, set_assigned,
}

-- Where an assignment is made, the input has a quorum, one of the members counted has the address
-- and is synced, in the primary component, healthy and not drained; the application has the new
-- writer, every other application the one it had, and the file holds what the memory holds.
pub assign-assigned :
    (s s' : Store) (now : ℕ) (size : Option ℕ) (application writer : String) (os : List Observation)
    → assign s now size application writer os ≡ assigned s'
    → ((evaluate_quorum os now 3000 size).quorum ≡ true)
      × (any (may_write writer) (evaluate_quorum os now 3000 size).observations ≡ true)
      × (s'.file ≡ s'.memory)
      × ((a : String)
          → get s'.memory a ≡ (if application == a then some writer else (get_assigned s a).0))
unfolding assign set_assigned get_assigned
assign-assigned s s' now size application writer os h =
    on (evaluate_quorum os now 3000 size).quorum
      (any (may_write writer) (evaluate_quorum os now 3000 size).observations) h
  where
    stored :
        set_assigned s application writer ≡ s'
        → (s'.file ≡ s'.memory)
          × ((a : String)
              → get s'.memory a ≡ (if application == a then some writer else (get_assigned s a).0))
    stored e =
        subst
          (λ t.
            (t.file ≡ t.memory)
            × ((a : String)
                → get t.memory a
                  ≡ (if application == a then some writer else (get_assigned s a).0)))
          e (refl, λ a. get-put (get_assigned s application).1.memory application writer a)

    on :
        (q m : Bool)
        → (if not q
            then refused (AssignError.quorum_required (evaluate_quorum os now 3000 size).reason)
            else if not m
            then refused AssignError.writer_ineligible
            else assigned (set_assigned s application writer))
          ≡ assigned s'
        → (q ≡ true)
          × (m ≡ true)
          × (s'.file ≡ s'.memory)
          × ((a : String)
              → get s'.memory a ≡ (if application == a then some writer else (get_assigned s a).0))
    on true true k = let (f, g) = stored (cc) in (refl, refl, f, g)
    on true false k = absurd (cc)
    on false m k = absurd (cc)

-- What the metadata service leases for a request.
pub record Grant : Type 0 where
  pub application : Option String
  pub node_identity : Option String
  pub routes : Option Routes
  pub bundle_version : Option String

pub record Cached : Type 0 where
  pub calculated_at : ℕ
  pub routes : Routes

pub record Service : Type 0 where
  pub cache : Dict Cached
  pub store : Store

-- `ELERA_CLUSTER_SIZE`: left out, or set, to `none` where that is no integer.
pub data Size : Type 0 where
  unset : Size
  set : Option ℕ → Size

-- What the service closes over. `resolves` is the name server, outside the repository.
pub record Config : Type 0 where
  pub host : Host
  pub identity : String
  pub size : Size
  pub validate_addresses : Bool
  pub resolves : Option String → Bool

pub data LeaseError : Type 0 where
  not_authorized identity_mismatch non_fqdn no_routes : LeaseError
  not_assigned : AssignError → LeaseError

pub record Bundle : Type 0 where
  pub application : String
  pub primary : List Route
  pub balanced : List Route
  pub bundle_version : Option String
  pub node_identity : String

abbrev pub is_set : Option String → Bool
is_set none = false
is_set (some s) = not (s == "")

abbrev pub or_else : Option String → Option String → Option String
or_else none b = b
or_else (some a) b = some a

abbrev pub or_text : Option String → String → String
or_text none d = d
or_text (some a) d = a

abbrev pub differ : Option String → Option String → Bool
differ none none = false
differ (some a) (some b) = not (a == b)
differ _ _ = true

abbrev pub size_for : Size → List Observation → Option ℕ
size_for unset os = some (length os)
size_for (set n) os = n

abbrev pub is_name : Option String → Bool
is_name none = false
is_name (some s) = fqdn_loose s

-- `filterReachableNodes`
unfoldable pub filter_reachable : (Option String → Bool) → List Observation → List Observation
filter_reachable resolves os = filter (λ o. resolves o.address) os

-- A route that `validateRoutes` lets through.
abbrev pub is_named : Route → Bool
is_named r = is_name r.host && fqdn_loose r.node_id

abbrev host_of : Option Route → Option String
host_of none = none
host_of (some r) = r.host

abbrev writer_of : Option Cached → Option String
writer_of none = none
writer_of (some c) = host_of (head? c.routes.primary)

-- The cached routes, while they are not a second old, else the ones calculated now.
unfoldable pub routes_at : ℕ → Option Cached → Routes → Routes
routes_at now none routes = routes
routes_at now (some c) routes = if ltb now (c.calculated_at + 1000) then c.routes else routes

abbrev pub is_reused : ℕ → Option Cached → Bool
is_reused now none = false
is_reused now (some c) = ltb now (c.calculated_at + 1000)

-- `if (routes.writer?.host && routes.writer.host !== assignedWriter) await assignments.write(...)`
unfoldable pub assign_writer :
    Store → ℕ → Option ℕ → String → List Observation → (assigned writer : Option String) → Outcome
assign_writer s now size key os current none = assigned s
assign_writer s now size key os current (some w) =
    if not (w == "") && differ (some w) current then assign s now size key w os else assigned s

abbrev is_empty : {A : Type 0} → List A → Bool
is_empty [] = true
is_empty (x ∷ xs) = false

-- The routes to hand out: those, or the ones of the metadata where there is no reader.
abbrev pub select_routes : Routes → Option Routes → Option Routes
select_routes routes fallback = if is_empty routes.balanced then fallback else some routes

-- `validateRoutes` and the bundle.
unfoldable pub bundle_of : Config → Grant → Routes → Option Routes → Result LeaseError Bundle
bundle_of c g routes none = err no_routes
bundle_of c g routes (some r) =
    if not (all is_named (r.primary ++ r.balanced))
    then err non_fqdn
    else ok (record {
      application = or_text g.application "default";
      primary = r.primary;
      balanced = r.balanced;
      bundle_version =
          if is_empty routes.balanced then g.bundle_version else some routes.bundle_version;
      node_identity = c.identity;
    })

abbrev pub cached_as : Service → String → ℕ → Bool → Routes → Store → Service
cached_as s key now true routes store = record s { store = store }
cached_as s key now false routes store = record {
  cache = put s.cache key (record { calculated_at = now; routes = routes });
  store = store;
}

-- The part of `lease` after the assignment was read.
unfoldable pub lease_with :
    Config
    → Service
    → Grant
    → ℕ
    → String
    → List Observation
    → Routes
    → Outcome
    → Result LeaseError Bundle × Service
unfolding bundle_of
lease_with c s g now key os routes (refused e) = (err (not_assigned e), s)
lease_with c s g now key os routes (assigned store) = (
  bundle_of c g routes (select_routes routes g.routes),
  cached_as s key now (is_reused now (get s.cache key)) routes store,
)

-- The routes that `lease` works with: the cached ones, or else those calculated for the members
-- that are reachable while there is a quorum.
unfoldable pub current_routes : Config → Service → ℕ → String → List Observation → Routes
unfolding filter_reachable routes_at get_assigned
current_routes c s now key os =
    let cached = get s.cache key in
    let quorum = (evaluate_quorum os now 3000 (size_for c.size os)).quorum in
    let reachable =
      if not quorum
      then []
      else if c.validate_addresses
      then filter_reachable c.resolves os
      else os in
    let previous = or_else (get_assigned s.store key).0 (writer_of cached) in
    routes_at now cached (calculate_routes c.host (some key) reachable [] previous now 3000)

-- The store after the writer of those routes was assigned, where it is another one.
unfoldable pub reassign : Config → Service → ℕ → String → List Observation → Outcome
unfolding current_routes assign_writer get_assigned
reassign c s now key os =
    let (current, store) = get_assigned s.store key in
    assign_writer store now (size_for c.size os) key os current
      (host_of (head? (current_routes c s now key os).primary))

unfoldable pub lease_granted :
    Config
    → Service
    → Grant
    → (application : Option String) → ℕ
    → List Observation
    → Result LeaseError Bundle × Service
unfolding current_routes reassign lease_with get_assigned
lease_granted c s g application now os =
    let key = or_text (or_else g.application application) "default" in
    let read = record s { store = (get_assigned s.store key).1 } in
    let granted = record g { application = or_else g.application application } in
    lease_with c read granted now key os (current_routes c s now key os) (reassign c s now key os)

-- `lease`, on what the metadata service granted and a snapshot of the observations.
unfoldable pub lease :
    Config
    → Service
    → Grant
    → (application : Option String) → ℕ
    → List Observation
    → Result LeaseError Bundle × Service
unfolding lease_granted
lease c s g application now os =
    if is_set application && is_set g.application && differ application g.application
    then (err not_authorized, s)
    else if is_set g.node_identity && differ g.node_identity (some c.identity)
    then (err identity_mismatch, s)
    else lease_granted c s g application now os

-- `rebalance`: the cached routes are dropped first.
unfoldable pub rebalance :
    Config
    → Service
    → Grant
    → (application : Option String) → ℕ
    → List Observation
    → Result LeaseError Bundle × Service
rebalance c s g application now os =
    lease c (record s { cache = delete s.cache (or_text application "default") }) g application now
      os
