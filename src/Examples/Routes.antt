-- ===== src/Examples/Routes.antt =====
-- Routes, assignments, leases of bundles and routing events on concrete data.
use elera.Prelude.{
  ℕ, zero, suc, ◌+◌, ◌-◌, ◌*◌, ◌/◌, ◌%◌, ◌^◌, ◌≤◌, ◌<◌, min, max, String, ◌≡◌, refl, sym, ap, ap₂,
  subst, ◌∙◌, ◌≢◌, ◌↔◌, ◌⊎◌, inl, inr, Bool, true, false, not, ◌&&◌, ◌||◌, Option, none, some, List,
  [], ◌∷◌, ◌++◌, map, Memᴰ, arith, eq_iff, ltb, leb, nat_eqb, Eq, ◌==◌, nat_eq, string_eq,
  if◌then◌else◌, ltb→lt, lt→ltb, leb→le, Bool-cases, Option-cases, &&-left, &&-right, is_some,
  length, filter, any, all, find, count, head?, get_last?, length-append, length-filter,
  count-le-length, mem-filter, mem-filter_of, any_of_mem, mem_of_any, all_mem, any-false_mem,
  find-some, find-none, count-add-le, mem_of_count, count_le_of, count_pos, includes, dedupe,
  dedupe_onto, nat_eqb_iff,
}
use mathlib.Core.List.Memᴰ
use elera.Prelude.Dict.{Dict, get}
use elera.Collation.{unit_collation}
use elera.Cluster.Observation.{Observation, int, is_fresh_at}
use elera.Cluster.Quorum.{evaluate_quorum}
use elera.Routing.Decision.{
  Host, Routes, calculate_routes, candidates, route_node, is_eligible, same_address,
}
use elera.Routing.Decision.Writer.{
  calculate_routes-writer, calculate_routes-eligible, calculate_routes-complete,
}
use elera.Routing.Decision.Election.{calculate_routes-agree}
use elera.Routing.Assignment.{Store, assign, may_write, get_assigned, set_assigned}
use elera.Routing.Assignment.Lease.{
  Config, Service, Grant, Bundle, lease, unset, is_named, is_set, differ, assign-assigned,
}
use elera.Routing.Assignment.Handout.{lease-IsNamed}
use elera.Routing.Events as Ev
use elera.Routing.Events.{record_event, record_event-version, current, is_same}

abbrev seen : String → ℕ → Observation
seen node load = record {
  node_id = node;
  cluster_id = "c";
  state = "Synced";
  synced = some true;
  primary = "Primary";
  health = "ok";
  load = record { threads_connected = some load; recv_queue = none };
  drain = false;
  address = some node;
  sql_port = int 3306;
  observed_at = int 90;
  weight = none;
}

abbrev two : List Observation
two = seen "a.x" 9 ∷ seen "b.x" 2 ∷ []

abbrev two_later : List Observation
two_later = seen "a.x" 1 ∷ seen "b.x" 8 ∷ []

abbrev host : Host
host = record { collation = unit_collation; hash = λ a. 5; digest = λ p b. "v" }

calculate_routes-writer_example :
    (w : Observation) × Memᴰ w (candidates 100 3000 two)
    × (head? (calculate_routes host (some "app") two [] (some "a.x") 100 3000).primary
        ≡ some (route_node [] w))
    × ((p : Observation)
        → Memᴰ p (candidates 100 3000 two)
        → same_address p.address (some "a.x") ≡ true
        → same_address w.address (some "a.x") ≡ true)
unfolding candidates
calculate_routes-writer_example =
    calculate_routes-writer host (some "app") two [] (some "a.x") 100 3000 (seen "a.x" 9)
      (Memᴰ.head refl)

calculate_routes-complete_example :
    Memᴰ
      (route_node [] (seen "b.x" 2))
      (calculate_routes host (some "app") two [] none 100 3000).balanced
    × Memᴰ "b.x"
        (map (λ r. r.node_id) (calculate_routes host (some "app") two [] none 100 3000).primary)
unfolding candidates
calculate_routes-complete_example =
    calculate_routes-complete host (some "app") two [] none 100 3000 (seen "b.x" 2)
      (Memᴰ.tail (Memᴰ.head refl))

calculate_routes-eligible_example :
    (o : Observation) × Memᴰ o two
    × (is_fresh_at 100 3000 o.observed_at ≡ true)
    × (is_eligible o ≡ true)
    × (route_node [] (seen "b.x" 2) ≡ route_node [] o)
unfolding calculate_routes elera.Prelude.Sort.sort
calculate_routes-eligible_example =
    calculate_routes-eligible host (some "app") two [] none 100 3000 (route_node [] (seen "b.x" 2))
      (inr (Memᴰ.head refl))

unseen : (p : Observation) → Memᴰ p (candidates 100 3000 two) → same_address p.address none ≡ false
unfolding candidates
unseen p (Memᴰ.head e) = rw e refl
unseen p (Memᴰ.tail (Memᴰ.head e)) = rw e refl
unseen p (Memᴰ.tail (Memᴰ.tail m)) = absurd (Memᴰ.not-nil m)

calculate_routes-agree_example :
    head? (calculate_routes host (some "app") two [] none 100 3000).primary
    ≡ head? (calculate_routes host (some "app") two_later [] none 100 3000).primary
calculate_routes-agree_example =
    calculate_routes-agree host (some "app") [] none 100 3000 two two_later refl unseen

abbrev store : Store
store = record { memory = ("other", "b.x") ∷ []; file = []; loaded = true }

assign-assigned_example :
    ((evaluate_quorum two 100 3000 (some 2)).quorum ≡ true)
    × (any (may_write "a.x") (evaluate_quorum two 100 3000 (some 2)).observations ≡ true)
    × ((set_assigned store "app" "a.x").file ≡ (set_assigned store "app" "a.x").memory)
    × ((a : String)
        → get (set_assigned store "app" "a.x").memory a
          ≡ (if "app" == a then some "a.x" else (get_assigned store a).0))
unfolding assign evaluate_quorum elera.Cluster.Observation.create_observation elera.Fqdn.fqdn
    elera.Fqdn.is_ipv4 elera.Prelude.Dict.put
assign-assigned_example =
    assign-assigned store (set_assigned store "app" "a.x") 100 (some 2) "app" "a.x" two refl

abbrev config : Config
config = record {
  host = host;
  identity = "a.x";
  size = unset;
  validate_addresses = false;
  resolves = λ a. true;
}

abbrev service : Service
service = record { cache = []; store = store }

abbrev grant : Grant
grant = record {
  application = some "app";
  node_identity = none;
  routes = none;
  bundle_version = none;
}

abbrev routes : Routes
routes = calculate_routes host (some "app") two [] none 100 3000

abbrev bundle : Bundle
bundle = record {
  application = "app";
  primary = routes.primary;
  balanced = routes.balanced;
  bundle_version = some "v";
  node_identity = "a.x";
}

lease-IsNamed_example :
    ((is_set (some "app") && is_set (some "app") && differ (some "app") (some "app")) ≡ false)
    × (all is_named (bundle.primary ++ bundle.balanced) ≡ true)
    × (Path String "a.x" "a.x")
    × (Path String "app" "app")
unfolding lease get calculate_routes elera.Prelude.Sort.sort evaluate_quorum
    elera.Cluster.Observation.create_observation elera.Fqdn.fqdn elera.Fqdn.is_ipv4
    elera.Prelude.Dict.put elera.Prelude.Text.codes_lt assign elera.Fqdn.fqdn_loose
lease-IsNamed_example = lease-IsNamed config service grant (some "app") 100 two bundle refl

abbrev before : Ev.Snapshots
before = record {
  versions = ("app", 3) ∷ [];
  fingerprints = [];
  events = [];
  healthy = [];
  assignments = store;
}
