-- ===== src/Examples/Nodes.antt =====
-- Drains, resets, joiners, recovery states and health on concrete data.
use elera.Prelude.{
  ℕ, zero, suc, ◌+◌, ◌-◌, ◌*◌, ◌/◌, ◌%◌, ◌^◌, ◌≤◌, ◌<◌, min, max, String, ◌≡◌, refl, sym, ap, ap₂,
  subst, ◌∙◌, ◌≢◌, ◌↔◌, ◌⊎◌, inl, inr, Bool, true, false, not, ◌&&◌, ◌||◌, Option, none, some, List,
  [], ◌∷◌, ◌++◌, map, Memᴰ, arith, eq_iff, ltb, leb, nat_eqb, Eq, ◌==◌, nat_eq, string_eq,
  if◌then◌else◌, ltb→lt, lt→ltb, leb→le, Bool-cases, Option-cases, &&-left, &&-right, is_some,
  length, filter, any, all, find, count, head?, get_last?, length-append, length-filter,
  count-le-length, mem-filter, mem-filter_of, any_of_mem, mem_of_any, all_mem, any-false_mem,
  find-some, find-none, count-add-le, mem_of_count, count_le_of, count_pos, includes, dedupe,
  dedupe_onto, nat_eqb_iff,
}
use elera.Prelude.Result.{ok}
use elera.Collation.{unit_collation}
use elera.Lifecycle.Drain as Dr
use elera.Lifecycle.Drain.{Call, begin, enter, release, create_drain_manager, Manager}
use elera.Lifecycle.Drain.Requests.{run-drains}
use elera.Lifecycle.Reset as Rs
use elera.Lifecycle.Reset.{
  World, Status, Request, Validation, remove, stop, validate, select_donor, the_donors, find_answer,
}
use elera.Lifecycle.Reset.Order.{reset-removes}
use elera.Recovery.Joiners as Jo
use elera.Recovery.Joiners.{recover_joiners, recover_joiners-ok}
use elera.Recovery.State as St
use elera.Recovery.State.{create_recovery_state, Phase, Recovery}
use elera.Recovery.State.Moves as Mo
use elera.Recovery.State.Moves.{run-unauthorized, run-epoch, is_unauthorized, epoch_rank}
use elera.Health.{Values, calculate_weight, calculate_weight-bounds, galera_ready}

abbrev calls : List Call
calls = enter ∷ enter ∷ begin ∷ release 0 ∷ release 0 ∷ enter ∷ []

abbrev busy : Manager
busy = record { draining = true; active = 2; open_requests = 1 ∷ 0 ∷ []; next = 2; notified = [] }

run-drains_example : ((Dr.run busy calls).draining ≡ true) × ((Dr.run busy calls).active ≤ 2)
run-drains_example = run-drains busy calls refl refl

abbrev quiet : Dr.Publisher
quiet = record { version = 0; published = [] }

abbrev down : Status
down = record {
  ready = false;
  local_state = "Initialized";
  wsrep_ready = "OFF";
  cluster_status = "Disconnected";
  initialized = false;
  recovery_blocked = false;
}

abbrev up : Status
up = record down { local_state = "Synced"; wsrep_ready = "ON"; cluster_status = "Primary" }

abbrev world : World
world = record {
  collation = unit_collation;
  node = "a.x";
  data_dir = "/d";
  resolve = λ p. p;
  offline_recovery = false;
  status = some down;
  status_again = some down;
  recovery_active = false;
  donors = record { node = "b.x"; healthy = true; primary = true } ∷ [];
  works = λ e. true;
  fenced = true;
  excluded = true;
  rejoined = some up;
}

abbrev request : Request
request = record {
  node = some "a.x";
  data_dir = none;
  confirmation = some "RESET a.x";
  dry_run = Rs.left_out;
  idempotency_key = some "k";
  offline = false;
  force = true;
  disposition = Rs.single_member_resync;
  donor = none;
}

reset-removes_example :
    (find_answer [] (some "k") ≡ none)
    × (v : Validation) × (validate world request ≡ ok v)
    × (v.dry_run ≡ false)
    × (true ≡ true)
    × (v.resync ≡ true
        → ((true && true) ≡ true)
          × (n : String) × (select_donor unit_collation "a.x" (the_donors world request) ≡ ok n))
unfolding Rs.reset elera.Prelude.Dict.get elera.Prelude.Text.append select_donor
    elera.Prelude.Sort.sort
reset-removes_example =
    reset-removes world [] request (Memᴰ.tail (Memᴰ.tail (Memᴰ.tail (Memᴰ.head refl))))

abbrev joins : Jo.World
joins = record { starts = λ n. true; is_valid = λ n. true; publishes = true }

abbrev moves : List (Phase × St.Details)
moves =
    (St.collecting_evidence, St.no_details)
    ∷ (St.awaiting_quorum, St.no_details)
    ∷ (St.bootstrapping, St.no_details)
    ∷ []

run-unauthorized_example :
    is_unauthorized (Mo.run (create_recovery_state St.blocked_ambiguous) moves).state ≡ true
run-unauthorized_example =
    run-unauthorized (create_recovery_state St.blocked_ambiguous) moves refl refl

abbrev values : Values
values = record {
  local_state = "Synced";
  wsrep_ready = "ON";
  status = "Primary";
  size = some 2;
  recv = some 4;
  send = some 0;
  paused = some (1, 100);
}

calculate_weight-bounds_example :
    (calculate_weight values ≡ 0)
    ⊎ ((galera_ready values ≡ true)
        × (40 ≤ calculate_weight values)
        × (calculate_weight values ≤ 100))
calculate_weight-bounds_example = calculate_weight-bounds values
