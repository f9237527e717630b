-- ===== src/Runtime/Startup.antt =====
-- The decision that a supervisor starts with (runtime/recovery-startup.mjs,
-- runtime/recovery-decision.mjs, runtime/startup-decision-wiring.mjs).
pub mod Bootstrapping
use elera.Prelude.{
  ℕ, zero, suc, ◌+◌, ◌-◌, ◌*◌, ◌/◌, ◌%◌, ◌^◌, ◌≤◌, ◌<◌, min, max, String, ◌≡◌, refl, sym, ap, ap₂,
  subst, ◌∙◌, ◌≢◌, ◌↔◌, ◌⊎◌, inl, inr, Bool, true, false, not, ◌&&◌, ◌||◌, Option, none, some, List,
  [], ◌∷◌, ◌++◌, map, Memᴰ, arith, eq_iff, ltb, leb, nat_eqb, Eq, ◌==◌, nat_eq, string_eq,
  if◌then◌else◌, ltb→lt, lt→ltb, leb→le, Bool-cases, Option-cases, &&-left, &&-right, is_some,
  length, filter, any, all, find, count, head?, get_last?, length-append, length-filter,
  count-le-length, mem-filter, mem-filter_of, any_of_mem, mem_of_any, all_mem, any-false_mem,
  find-some, find-none, count-add-le, mem_of_count, count_le_of, count_pos, includes, dedupe,
  dedupe_onto, nat_eqb_iff,
}
use elera.Prelude.Result.{Result, ok, err}
use elera.Recovery.Evidence.{Evidence, Galera}
use elera.Recovery.State as St
use elera.Recovery.State.{Recovery, Phase, Details, StateError, set}
use elera.Recovery.Startup.{
  Start, Mode, Argument, ExplicitMode, Explicit, Planned, explicit_startup, no_decision, invalid,
  explicit, join_plan, eligible_plan, blocked_plan, recovery_startup_decision, resolve_rejoin,
  startup_arguments, is_bootstrap, bootstrap, join, standalone, rejoin, blocked,
}
use elera.Recovery.Epoch as Ep
use elera.Recovery.Epoch.{Decision, Winner, winner_node, name_only, truthy}
use elera.Recovery.Protocol.Base as Base
use elera.Recovery.Protocol.Base.{M, Config, Protocol, ProtocolError}
use elera.Recovery.Protocol.Planning as Plan
use elera.Recovery.Protocol.Planning.{Results, plan}
use elera.Recovery.Protocol.Handlers.{retry}
use elera.Runtime.Authorization.{
  Supervisor, Setting, Member, Authorized, AuthorizationError, authorize_supervisor_recovery,
  details_of,
}
use elera.Runtime.DataDirectory.{Directory, Action, DirectoryError, inspect_data_directory, start}
use elera.Runtime.Plans.{
  decision_not_written, authorization_error, directory_error, invalid_explicit_mode, StartError,
  Scene, Prepared, Step, then_step, ◌>>=◌, ◌>>◌, pure, moved, set_recovery, called, call,
  attempts_of, is_blocked_plan, is_settled, retry_unless, resolve_from, resolve_recovery_plan,
  is_active_peer, clean_join, finds_peer, resolve_clean_restart,
}

abbrev winner_text : Option Winner → String
winner_text w = text (winner_node w)
  where
    text : Option String → String
    text none = ""
    text (some s) = s

-- A plan of the protocol, as far as the startup reads it.
abbrev pub planned_of : Plan.Plan → Planned
planned_of (Plan.blocked_plan d) = blocked_plan
planned_of (Plan.join_plan n e) = join_plan n
planned_of (Plan.bootstrap_plan d) = eligible_plan (winner_text d.winner) d.epoch

abbrev state_for : Mode → Phase
state_for bootstrap = St.awaiting_quorum
state_for join = St.joining
state_for _ = St.blocked_ambiguous

-- The start decision in the decision file, which is also the file of the protocol: of the members
-- of a protocol decision it has the epoch, and the winner as a name. It has no phase, no quorum and
-- no digest, so that it validates as no epoch whatever phase stands here.
abbrev pub as_record : Start → Decision
as_record d = record {
  version = 0;
  epoch = d.epoch;
  cluster_id = none;
  evidence_digest = none;
  winner = named d.winner;
  quorum = none;
  phase = Ep.blocked;
  acknowledgements = none;
  required_acknowledgements = none;
  operator_forced = false;
  membership = none;
  code = none;
  evidence = [];
  divergent = [];
  created_at = 0;
  updated_at = 0;
}
  where
    named : Option String → Option Winner
    named none = none
    named (some w) = some (name_only w)

unfoldable pub write_decision : Bool → Start → Step (Unit {0})
write_decision true d s =
    (record s { protocol = record s.protocol { stored = some (as_record d) } }, ok tt)
write_decision false d s = (s, err decision_not_written)

-- `recordSupervisorRecoveryDecision`
unfoldable pub record_decision : Scene → Start → Step (Unit {0})
unfolding set_recovery write_decision then_step
record_decision w d = do
  set_recovery (state_for d.mode) (details_of w.setting.reason d)
  write_decision w.decision_writable d

unfoldable pub authorized_by :
    Supervisor × Result AuthorizationError Authorized → Supervisor × Result StartError Authorized
authorized_by (s, err e) = (s, err (authorization_error e))
authorized_by (s, ok a) = (s, ok a)

abbrev pub waits : Start → Bool
waits d = is_bootstrap d.mode && not d.local_winner && is_named d.winner
  where
    is_named : Option String → Bool
    is_named none = false
    is_named (some w) = not (w == "")

-- The state that `resolveSupervisorRejoin` sets where the completion is not observed.
unfoldable pub note_rejoin : Scene → Start → Step (Unit {0})
unfolding set_recovery
note_rejoin w d =
    if waits d && not w.completes
    then set_recovery St.blocked_ambiguous (details_of w.setting.reason d)
    else pure tt

abbrev pub is_blocked : Mode → Bool
is_blocked blocked = true
is_blocked _ = false

abbrev is_start : Action → Bool
is_start start = true
is_start _ = false

unfoldable pub permit : Start → Result DirectoryError Action → Result StartError Start
permit d (err e) = err (directory_error e)
permit d (ok a) =
    if is_start a then ok (record d { mode = rejoin; bootstrap_complete = true }) else ok d

-- A blocked node with an initialized directory may start MariaDB to join its cluster again.
unfoldable pub permit_rejoin : Scene → Start → Step Start
unfolding permit inspect_data_directory
permit_rejoin w d s =
    (s, if is_blocked d.mode then permit d (inspect_data_directory w.directory false) else ok d)

abbrev pub args_or : List Argument → Option (List Argument) → List Argument
args_or current none = current
args_or current (some new) = new

-- What follows the authorization.
unfoldable pub conclude : Scene → Authorized → Step Prepared
unfolding note_rejoin permit_rejoin then_step resolve_rejoin
conclude w a = do
  note_rejoin w a.decision
  d ← permit_rejoin w (resolve_rejoin a.decision w.completes)
  pure (record {
    decision = d;
    args = args_or w.setting.arguments a.args;
    listening = not w.unified && is_bootstrap d.mode && d.local_winner;
  })

-- A cold recovery: the plan, its record, the authorization, the rejoin.
unfoldable pub recover : Scene → Option Start → Step Prepared
unfolding conclude record_decision call resolve_recovery_plan authorized_by then_step
    authorize_supervisor_recovery recovery_startup_decision
recover w (some d) = pure (record { decision = d; args = w.setting.arguments; listening = false })
recover w none = do
  p ← call (resolve_recovery_plan w)
  let d = recovery_startup_decision (planned_of p) w.name
  record_decision w d
  a ← λ s. authorized_by (authorize_supervisor_recovery w.setting s d w.members)
  conclude w a

-- `resolveExplicitSupervisorStartup`: the arguments of an explicit start.
abbrev pub explicit_arguments : Scene → Start → List Argument
explicit_arguments w d = by d.mode
  where
    by : Mode → List Argument
    by bootstrap = startup_arguments w.setting.arguments d w.join_address
    by join = startup_arguments w.setting.arguments d w.join_address
    by _ = w.setting.arguments

unfoldable pub start_from : Scene → Explicit → Step Prepared
unfolding recover set_recovery then_step resolve_clean_restart
start_from w invalid s = (s, err invalid_explicit_mode)
start_from w (explicit d) s =
    (s, ok (record { decision = d; args = explicit_arguments w d; listening = false }))
start_from w no_decision s =
    then_step (set_recovery St.collecting_evidence St.no_details s)
      (λ _. recover w (resolve_clean_restart w))

abbrev pub standalone_start : Start
standalone_start = record {
  mode = standalone;
  winner = none;
  local_winner = false;
  bootstrap_complete = false;
  epoch = none;
  expected_membership = none;
}

-- `prepareSupervisorRecovery`
unfoldable pub prepare_supervisor_recovery : Scene → Step Prepared
unfolding start_from explicit_startup
prepare_supervisor_recovery w s =
    if w.elera then start_from w (explicit_startup w.mode w.name) s else (
      s,
      ok (record { decision = standalone_start; args = w.setting.arguments; listening = false }),
    )
