-- ===== src/Examples/Protocols.antt =====
-- The recovery protocol on concrete evidence.
use elera.Prelude.{
  ℕ, zero, suc, ◌+◌, ◌-◌, ◌*◌, ◌/◌, ◌%◌, ◌^◌, ◌≤◌, ◌<◌, min, max, String, ◌≡◌, refl, sym, ap, ap₂,
  subst, ◌∙◌, ◌≢◌, ◌↔◌, ◌⊎◌, inl, inr, Bool, true, false, not, ◌&&◌, ◌||◌, Option, none, some, List,
  [], ◌∷◌, ◌++◌, map, Memᴰ, arith, eq_iff, ltb, leb, nat_eqb, Eq, ◌==◌, nat_eq, string_eq,
  if◌then◌else◌, ltb→lt, lt→ltb, leb→le, Bool-cases, Option-cases, &&-left, &&-right, is_some,
  length, filter, any, all, find, count, head?, get_last?, length-append, length-filter,
  count-le-length, mem-filter, mem-filter_of, any_of_mem, mem_of_any, all_mem, any-false_mem,
  find-some, find-none, count-add-le, mem_of_count, count_le_of, count_pos, includes, dedupe,
  dedupe_onto, nat_eqb_iff,
}
use elera.Prelude.Int.{pos}
use elera.Prelude.Result.{ok}
use elera.Collation.{unit_collation}
use elera.Recovery.Evidence.{Evidence}
use elera.Recovery.Candidate.{select_candidate}
use elera.Recovery.Epoch as Ep
use elera.Recovery.Epoch.{Decision, or_else}
use elera.Recovery.Protocol.Base.{Protocol, Config}
use elera.Recovery.Protocol.Planning.{
  Results, Collection, plan, collect, is_active_primary, majority,
}
use elera.Recovery.Protocol.Handlers.{authorize, begin_bootstrap}
use elera.Recovery.Protocol.Backing.{IsBacked}
use elera.Recovery.Protocol.Steps.{plan_call, authorize_call, begin_call, run, run-IsBacked}
use elera.Recovery.Protocol.Authority.{Began, begin_bootstrap-Began, plan-bootstrap, Selected}

abbrev ev : String → ℕ → Evidence
ev node n = record {
  node = node;
  uuid = "u";
  seqno = some (pos n);
  saved_seqno = none;
  recovered_seqno = none;
  data_directory = none;
  galera = none;
  active = some false;
  generation = some 1;
  observed_at = some 100;
}

abbrev config : Config
config = record {
  host = record { collation = unit_collation; digest = λ c. "d" };
  nodes = record { name = "a.x"; local = true } ∷ record { name = "b.x"; local = false } ∷ [];
  max_evidence_age = 1000;
}

abbrev results : Results
results n = ok (ev n.name (if n.name == "a.x" then 7 else 5))

abbrev empty : Protocol
empty = record { current = none; stored = none; events = [] }

abbrev planned : Protocol
planned = (plan config results 100 empty).1

abbrev decision_in : Option Decision → Decision
decision_in (some d) = d
decision_in none = record {
  version = 0;
  epoch = none;
  cluster_id = none;
  evidence_digest = none;
  winner = none;
  quorum = none;
  phase = Ep.evidence;
  acknowledgements = none;
  required_acknowledgements = none;
  operator_forced = false;
  membership = none;
  code = none;
  evidence = [];
  divergent = [];
  created_at = 0;
  updated_at = 0;
}

abbrev text_of : Option String → String
text_of none = ""
text_of (some s) = s

abbrev epoch : String
epoch = text_of (decision_in planned.stored).epoch

abbrev authorized : Protocol
authorized = (authorize epoch ("a.x" ∷ "b.x" ∷ []) false none 100 planned).1

abbrev begun : Protocol
begun = (begin_bootstrap config epoch "a.x" results 100 authorized).1

run-IsBacked_example : IsBacked (
    run config empty (
      plan_call results 100
      ∷ authorize_call epoch ("a.x" ∷ "b.x" ∷ []) false none 100
      ∷ begin_call epoch "a.x" results 100
      ∷ []))
run-IsBacked_example =
    run-IsBacked config empty
      (plan_call results 100
        ∷ authorize_call epoch ("a.x" ∷ "b.x" ∷ []) false none 100
        ∷ begin_call epoch "a.x" results 100
        ∷ [])
      (record { in_memory = refl; on_disk = refl })

begin_bootstrap-Began_example :
    (existing : Decision) × (or_else authorized.current authorized.stored ≡ some existing)
    × Began config existing epoch "a.x" results 100 (decision_in begun.stored) begun
unfolding plan authorize begin_bootstrap collect elera.Recovery.Evidence.validate_recovery_evidence
    elera.Recovery.Evidence.is_malformed elera.Fqdn.fqdn select_candidate elera.Prelude.Sort.sort
    Ep.create_recovery_epoch elera.Prelude.Text.append Ep.validate_recovery_epoch
    elera.Prelude.Text.text_lt Ep.transition_recovery_epoch Ep.permits Ep.check_acknowledgements
begin_bootstrap-Began_example =
    begin_bootstrap-Began config epoch "a.x" results 100 authorized (decision_in begun.stored) refl

plan-bootstrap_example :
    (got : Collection) × (collect config results 100 ≡ ok got)
    × (any (is_active_primary config.nodes got.items) got.items ≡ false)
    × (map results config.nodes ≡ map ok got.items)
    × Selected
        (select_candidate unit_collation (majority (length config.nodes)) got.items)
        (decision_in planned.stored)
        planned.stored
unfolding plan collect elera.Recovery.Evidence.validate_recovery_evidence
    elera.Recovery.Evidence.is_malformed elera.Fqdn.fqdn select_candidate elera.Prelude.Sort.sort
    Ep.create_recovery_epoch
plan-bootstrap_example = plan-bootstrap config results 100 empty (decision_in planned.stored) refl
