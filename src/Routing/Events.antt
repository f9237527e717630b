-- ===== src/Routing/Events.antt =====
-- The versions of routing events (routing/event-version-store.mjs) and the event of an application
-- (routing/event-snapshot.mjs).
use elera.Prelude.{
  ℕ, ◌+◌, String, ◌≡◌, refl, sym, ◌⊎◌, inl, inr, Bool, true, false, not, ◌&&◌, ◌||◌, Option, none,
  some, List, [], map, eq_iff, ltb, ◌==◌, nat_eq, string_eq, if◌then◌else◌, Bool-cases, filter, all,
  head?,
}
use elera.Prelude.Dict.{Dict, get, put, get-put}
use elera.Prelude.Sort.{sort}
use elera.Prelude.Text.{text_lt}
use elera.Cluster.Observation.{Observation}
use elera.Cluster.Quorum.{evaluate_quorum}
use elera.Routing.Decision.{Host, Routes, Route, calculate_routes}
use elera.Routing.Assignment as As
use elera.Routing.Assignment.{set_assigned, peek}
use elera.Fqdn.{fqdn_loose}
use mathlib.Core.Option

-- `current` and `next` of the version store.
abbrev or_zero : Option ℕ → ℕ
or_zero none = 0
or_zero (some n) = n

unfoldable pub current : Dict ℕ → String → ℕ
current versions application = or_zero (get versions application)

unfoldable pub next : Dict ℕ → String → ℕ × Dict ℕ
unfolding current
next versions application =
    let value = current versions application + 1 in (value, put versions application value)

-- What is kept of one application: the fingerprint of the last event, given here by the routes and
-- the drained nodes that it is made of, its version, and the last routes with a reader.
pub record Healthy : Type 0 where
  pub routes : Routes
  pub at : ℕ

pub record Node : Type 0 where
  pub node_id : String
  pub address : Option String
  pub ready : Bool
  pub draining : Bool

pub record Event : Type 0 where
  pub version : ℕ
  pub generated_at : ℕ
  pub primary_component : Bool
  pub nodes : List Node

-- What the snapshot closes over; `fingerprint` is `JSON.stringify` of the routes and the drained
-- nodes, code outside the repository.
pub record Config : Type 0 where
  pub host : Host
  pub node : String
  pub size : List Observation → Option ℕ
  pub fingerprint : String → Routes → List String → String

pub record Snapshots : Type 0 where
  pub versions : Dict ℕ
  pub fingerprints : Dict String
  pub events : Dict Event
  pub healthy : Dict Healthy
  pub assignments : As.Store

abbrev is_name : Option String → Bool
is_name none = false
is_name (some a) = fqdn_loose a

abbrev as_local : String → Bool → Observation → Observation
as_local node drained o = if o.node_id == node then record o { drain = drained } else o

abbrev has_routes : Routes → Bool
has_routes r = elim (head? r.balanced) [ none ↦ false | some x ↦ true ]

-- `routes.balanced.length ? routes : (healthy && timestamp - healthy.at < 5000 ? ... : routes)`
unfoldable pub select_routes : Routes → Option Healthy → ℕ → Routes
select_routes routes none now = routes
select_routes routes (some h) now =
    if has_routes routes then routes else if ltb now (h.at + 5000) then h.routes else routes

abbrev keep_healthy : Dict Healthy → String → Routes → ℕ → Dict Healthy
keep_healthy d application routes now =
    if has_routes routes then put d application (record { routes = routes; at = now }) else d

abbrev host_of : Option Route → Option String
host_of none = none
host_of (some r) = r.host

abbrev pub is_same : Option String → String → Bool
is_same none b = false
is_same (some a) b = a == b

-- The writer of the routes is assigned, where it is another one.
abbrev assign_writer : As.Store → String → Option String → As.Store
assign_writer s application none = s
assign_writer s application (some w) =
    if w == "" || is_same (peek s application) w then s else set_assigned s application w

abbrev node_of : Observation → Node
node_of o = record {
  node_id = o.node_id;
  address = o.address;
  ready = o.health == "ok";
  draining = o.drain;
}

-- A new event where the fingerprint is a new one.
unfoldable pub record_event :
    Snapshots → String → (fingerprint : String) → ℕ → Bool → List Observation → Snapshots
unfolding next
record_event s application fingerprint now quorum os =
    if is_same (get s.fingerprints application) fingerprint
    then s
    else let (version, versions) = next s.versions application in
      record s {
        versions = versions;
        fingerprints = put s.fingerprints application fingerprint;
        events = put s.events application (record {
          version = version;
          generated_at = now;
          primary_component = quorum;
          nodes = map node_of os;
        });
      }

-- `snapshot`; `none` is the error on a name that is not qualified.
unfoldable pub snapshot :
    Config
    → Snapshots
    → String
    → (drained : Bool) → ℕ
    → List Observation
    → Option (Option Event × Snapshots)
unfolding select_routes record_event
snapshot c s application drained now raw =
    if not (all (λ o. fqdn_loose o.node_id && is_name o.address) raw)
    then none
    else let os = map (as_local c.node drained) raw in
      let quorum = (evaluate_quorum os now 3000 (c.size os)).quorum in
      let routes =
        calculate_routes c.host (some application) (if quorum then os else []) []
          (peek s.assignments application) now 3000 in
      let selected = select_routes routes (get s.healthy application) now in
      let drains =
        sort (λ a b. not (text_lt b a)) (map (λ o. o.node_id) (filter (λ o. o.drain) os)) in
      let s' = record s {
        healthy = keep_healthy s.healthy application routes now;
        assignments = assign_writer s.assignments application (host_of (head? routes.primary));
      } in
      let s'' =
        record_event s' application (c.fingerprint application selected drains) now quorum os in
      some (get s''.events application, s'')

-- Recording leaves the version of an application as it was; or it is of that application, with a
-- fingerprint that is a new one, and raises the version by one, and then the event kept of the
-- application has that version.
pub record_event-version :
    (s : Snapshots) (application fingerprint : String) (now : ℕ) (quorum : Bool)
    (os : List Observation) (other : String)
    → (current (record_event s application fingerprint now quorum os).versions other
        ≡ current s.versions other)
      ⊎ ((other ≡ application)
          × (is_same (get s.fingerprints application) fingerprint ≡ false)
          × (current (record_event s application fingerprint now quorum os).versions application
              ≡ current s.versions application + 1)
          × (Option.map
                (λ e. e.version)
                (get (record_event s application fingerprint now quorum os).events application)
              ≡ some (current s.versions application + 1)))
unfolding record_event current next
record_event-version s application fingerprint now quorum os other =
    elim (Bool-cases (is_same (get s.fingerprints application) fingerprint)) [
      | inl t ↦ inl (rw t refl)
      | inr f ↦ elim (Bool-cases (application == other)) [
        | inr n ↦ inl (
            rw (f, get-put s.versions application (current s.versions application + 1) other, n)
              refl)
        | inl t ↦ inr (
          sym ((eq_iff application other).0 t),
          f,
          rw
              (
                f,
                get-put s.versions application (current s.versions application + 1) application,
                self,
              )
              refl,
          rw
              (
                f,
                get-put s.events application
                    (record {
                      version = current s.versions application + 1;
                      generated_at = now;
                      primary_component = quorum;
                      nodes = map node_of os;
                    })
                    application,
                self,
              )
              refl,
        )
      ]
    ]
  where
    self : (application == application) ≡ true
    self = (eq_iff application application).1 refl
