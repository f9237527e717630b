-- ===== src/Examples/Runs.antt =====
-- A supervisor that starts as the node that bootstraps.
use elera.Prelude.{
  ℕ, zero, suc, ◌+◌, ◌-◌, ◌*◌, ◌/◌, ◌%◌, ◌^◌, ◌≤◌, ◌<◌, min, max, String, ◌≡◌, refl, sym, ap, ap₂,
  subst, ◌∙◌, ◌≢◌, ◌↔◌, ◌⊎◌, inl, inr, Bool, true, false, not, ◌&&◌, ◌||◌, Option, none, some, List,
  [], ◌∷◌, ◌++◌, map, Memᴰ, arith, eq_iff, ltb, leb, nat_eqb, Eq, ◌==◌, nat_eq, string_eq,
  if◌then◌else◌, ltb→lt, lt→ltb, leb→le, Bool-cases, Option-cases, &&-left, &&-right, is_some,
  length, filter, any, all, find, count, head?, get_last?, length-append, length-filter,
  count-le-length, mem-filter, mem-filter_of, any_of_mem, mem_of_any, all_mem, any-false_mem,
  find-some, find-none, count-add-le, mem_of_count, count_le_of, count_pos, includes, dedupe,
  dedupe_onto, nat_eqb_iff,
}
use elera.Prelude.Int.{pos}
use elera.Prelude.Result.{Result, ok}
use elera.Collation.{unit_collation}
use elera.Recovery.Evidence.{Evidence}
use elera.Recovery.State as St
use elera.Recovery.Startup as Up
use elera.Recovery.Startup.{Start, should_start}
use elera.Recovery.Protocol.Base.{Protocol}
use elera.Recovery.Protocol.Planning.{Results}
use elera.Runtime.Authorization as Auth
use elera.Runtime.Authorization.{Supervisor, Setting, Member}
use elera.Runtime.DataDirectory as Dir
use elera.Runtime.Startup as Startup
use elera.Runtime.Plans as Plans
use elera.Runtime.Plans.{Prepared}
use elera.Runtime.Startup.{prepare_supervisor_recovery}
use elera.Runtime.Startup.Bootstrapping.{WasAuthorized, prepare-bootstrapping}
use elera.Runtime.Maria as Maria
use elera.Runtime.Maria.{start_supervisor_mariadb}
use elera.Runtime.Maria.Watched.{Formed, start-Formed}

abbrev values : ℕ → Up.Values
values n = record {
  state_uuid = some "u";
  local_state = "Synced";
  ready = "ON";
  status = "Primary";
  size = some n;
}

abbrev no_protocol : Protocol
no_protocol = record { current = none; stored = none; events = [] }

abbrev joining : Start
joining = record {
  mode = Up.join;
  winner = none;
  local_winner = false;
  bootstrap_complete = true;
  epoch = none;
  expected_membership = some 3;
}

abbrev join_scene : Maria.Scene
join_scene = record {
  elera = true;
  name = "a.x";
  decision = joining;
  recovery_epoch = none;
  reason = none;
  message = λ f. "";
  starts = true;
  stops = true;
  samples = none ∷ some (values 1) ∷ some (values 3) ∷ [];
  current = true;
  fresh = some (values 3);
  now = 0;
}

abbrev before : Maria.Ran
before = record {
  recovery = St.create_recovery_state St.pending;
  protocol = no_protocol;
  effects = [];
}

start-Formed_example :
    (should_start join_scene.elera join_scene.decision.mode join_scene.decision.local_winner
        join_scene.decision.bootstrap_complete
      ≡ true)
    × (join_scene.elera ≡ true)
    × (join_scene.starts ≡ true)
    × Formed join_scene join_scene.decision.mode before.protocol
unfolding start_supervisor_mariadb St.allows
start-Formed_example = start-Formed join_scene before (λ e. cc) refl

abbrev ev : String → ℕ → Evidence
ev node n = record {
  node = node;
  uuid = "u";
  seqno = some (pos n);
  saved_seqno = none;
  recovered_seqno = none;
  data_directory = none;
  galera = none;
  active = some false;
  generation = some 1;
  observed_at = some 100;
}

abbrev results : Results
results n = ok (ev n.name (if n.name == "a.x" then 7 else 5))

abbrev setting : Setting
setting = record {
  config = record {
    host = record { collation = unit_collation; digest = λ c. "d" };
    nodes = record { name = "a.x"; local = true } ∷ record { name = "b.x"; local = false } ∷ [];
    max_evidence_age = 1000;
  };
  results = results;
  now = 100;
  writable = true;
  arguments = [];
  reason = none;
  message = λ e. "";
}

abbrev start_scene : Plans.Scene
start_scene = record {
  elera = true;
  unified = true;
  name = "a.x";
  mode = Up.unset;
  join_address = none;
  marker = false;
  timeout_ms = 1000;
  peers = λ i. [];
  evidence = λ i. (results, 100);
  tells_conflict = λ d. false;
  members =
      record { name = "a.x"; local = true; host = some "a.x"; granted = true }
      ∷ record { name = "b.x"; local = false; host = some "b.x"; granted = true }
      ∷ [];
  decision_writable = true;
  completes = false;
  directory = Dir.missing;
  setting = setting;
}

abbrev fresh_supervisor : Supervisor
fresh_supervisor = record {
  protocol = no_protocol;
  recovery = St.create_recovery_state St.pending;
  state_file = Auth.safe_to_bootstrap false;
}

abbrev prepared_in : {E : Type 0} → Result E Prepared → Prepared
prepared_in (ok p) = p
prepared_in _ = record { decision = Startup.standalone_start; args = []; listening = false }

abbrev prepared : Prepared
prepared = prepared_in (prepare_supervisor_recovery start_scene fresh_supervisor).1

prepare-bootstrapping_example :
    (start_scene.elera ≡ true)
    × ((start_scene.mode ≡ Up.set_to Up.bootstrap)
        ⊎ WasAuthorized start_scene prepared
            (prepare_supervisor_recovery start_scene fresh_supervisor).0)
unfolding prepare_supervisor_recovery St.allows elera.Recovery.Protocol.Planning.plan
    elera.Recovery.Protocol.Planning.collect elera.Recovery.Evidence.validate_recovery_evidence
    elera.Recovery.Evidence.is_malformed elera.Fqdn.fqdn elera.Recovery.Candidate.select_candidate
    elera.Prelude.Sort.sort elera.Recovery.Epoch.create_recovery_epoch
    elera.Recovery.Epoch.winner_node elera.Prelude.Text.append
    elera.Recovery.Epoch.validate_recovery_epoch elera.Prelude.Text.text_lt
    elera.Recovery.Epoch.transition_recovery_epoch elera.Recovery.Epoch.permits
    elera.Recovery.Epoch.check_acknowledgements
prepare-bootstrapping_example =
    prepare-bootstrapping start_scene fresh_supervisor prepared refl refl
