-- ===== src/Runtime/Handoff.antt =====
-- The handoff of an authorized recovery from a blocked start to a running supervisor
-- (runtime/startup-coordinator.mjs, runtime/recovery-process-start.mjs,
-- runtime/recovery-join-start.mjs). The handoffs of a process follow one another.
pub mod Started
pub mod Refused
use elera.Prelude.{
  ℕ, zero, suc, ◌+◌, ◌-◌, ◌*◌, ◌/◌, ◌%◌, ◌^◌, ◌≤◌, ◌<◌, min, max, String, ◌≡◌, refl, sym, ap, ap₂,
  subst, ◌∙◌, ◌≢◌, ◌↔◌, ◌⊎◌, inl, inr, Bool, true, false, not, ◌&&◌, ◌||◌, Option, none, some, List,
  [], ◌∷◌, ◌++◌, map, Memᴰ, arith, eq_iff, ltb, leb, nat_eqb, Eq, ◌==◌, nat_eq, string_eq,
  if◌then◌else◌, ltb→lt, lt→ltb, leb→le, Bool-cases, Option-cases, &&-left, &&-right, is_some,
  length, filter, any, all, find, count, head?, get_last?, length-append, length-filter,
  count-le-length, mem-filter, mem-filter_of, any_of_mem, mem_of_any, all_mem, any-false_mem,
  find-some, find-none, count-add-le, mem_of_count, count_le_of, count_pos, includes, dedupe,
  dedupe_onto, nat_eqb_iff,
}
use elera.Prelude.Result.{Result, ok, err, ◌>>=◌}
use elera.Prelude.Text.{append}
use elera.Recovery.State.{
  Phase, bootstrapping, joining, EpochId, Recovery, StateError, no_details, set,
}
use elera.Recovery.Startup.{
  Mode, bootstrap, join, Start, Argument, new_cluster, cluster_address, other, startup_arguments,
}

-- The calls that a handoff makes. `stop_pending` and `close_server` are the two of
-- `closeTemporaryListeners`.
pub data Effect : Type 0 where
  on_bootstrap audit_join stop_pending close_server : Effect
  winner_runtime joiner_runtime recover_joiners recover_traffic : Effect
  start_process : List Argument → Effect
  set_state : Phase → Option EpochId → Effect

-- The process: whether mariadbd runs, whether the temporary listeners are closed, the recovery
-- state, and the calls so far with whether they worked.
pub record Process : Type 0 where
  pub running : Bool
  pub closed : Bool
  pub recovery : Recovery
  pub calls : List (Effect × Bool)

abbrev pub is_start : Effect → Bool
is_start (start_process args) = true
is_start _ = false

abbrev pub is_stop : Effect → Bool
is_stop stop_pending = true
is_stop _ = false

-- What `recoveryState.set` makes of the recovery state; the other calls leave it alone.
unfoldable pub moved : Effect → Recovery → Result StateError Recovery
unfolding elera.Recovery.State.set
moved (set_state p e) r = set r p (record no_details { epoch = e })
moved e r = ok r

abbrev kept : Recovery → Result StateError Recovery → Recovery
kept r (ok r') = r'
kept r (err e) = r

abbrev pub is_ok : Result StateError Recovery → Bool
is_ok (ok r) = true
is_ok (err e) = false

-- `mariaProcess.child` is there from a start that worked, `temporaryListenersClosed` from the call of
-- `shutdown`, whether it works or not.
unfoldable pub note : Effect → Bool → Process → Process
unfolding moved
note e worked s = record {
  running = s.running || is_start e && worked;
  closed = s.closed || is_stop e;
  recovery = kept s.recovery (moved e s.recovery);
  calls = (e, worked) ∷ s.calls;
}

-- A transition that the recovery state refuses throws; of the other calls `works` says which do not.
unfoldable pub goes : (works : Effect → Bool) → Effect → Process → Bool
unfolding moved
goes works (set_state p e) s = is_ok (moved (set_state p e) s.recovery)
goes works e s = works e

-- The calls in order, up to the first that throws.
unfoldable pub perform : (works : Effect → Bool) → List Effect → Process → Process × Bool
unfolding note goes
perform works [] s = (s, true)
perform works (e ∷ es) s =
    let rest = perform works es (note e true s) in
    if goes works e s then rest else (note e false s, false)

pub data HandoffError : Type 0 where
  arguments_unavailable process_running winner_required : HandoffError

abbrev start_of : Mode → Bool → Start
start_of m l = record {
  mode = m;
  winner = none;
  local_winner = l;
  bootstrap_complete = false;
  epoch = none;
  expected_membership = none;
}

-- The two guards before a start.
unfoldable pub startable : Option (List Argument) → Process → Result HandoffError (List Argument)
startable none s = err arguments_unavailable
startable (some args) s = if s.running then err process_running else ok args

abbrev pub closings : Process → List Effect
closings s = if s.closed then [] else stop_pending ∷ close_server ∷ []

abbrev pub is_other : String → Option String → Bool
is_other name none = false
is_other name (some w) = not (w == "") && not (w == name)

-- What `startAuthorizedRecoveryProcess` is to do where this node is the winner.
abbrev pub winner_steps : Option EpochId → List Argument → List Effect
winner_steps epoch args =
    set_state bootstrapping epoch
    ∷ start_process (startup_arguments args (start_of bootstrap true) none)
    ∷ []

-- `startAuthorizedRecoveryProcess`, then the rest of `startAuthorizedRecovery`.
unfoldable pub recovery_steps :
    (name : String) (winner : Option String)
    → Option EpochId
    → Option (List Argument)
    → Process
    → Result HandoffError (List Effect)
unfolding startable startup_arguments
recovery_steps name winner epoch args s =
    if is_other name winner
    then ok (on_bootstrap ∷ [])
    else startable args s >>= λ xs. ok (
        winner_steps epoch xs
        ++ (closings s ++ winner_runtime ∷ recover_joiners ∷ recover_traffic ∷ on_bootstrap ∷ []))

abbrev is_address : Argument → Bool
is_address (cluster_address a) = true
is_address _ = false

-- `joinArgs`; `is_valid_address` is the test of `startupArguments`.
unfoldable pub join_arguments : (is_valid_address : Bool) → String → List Argument → List Argument
unfolding startup_arguments
join_arguments v a args =
    let found = startup_arguments args (start_of join false) (if v then some a else none) in
    if any is_address found then found else found ++ cluster_address (append "gcomm://" a) ∷ []

-- `startAuthorizedRecoveryJoin`; a runtime whose SQL is not ready counts as one that throws.
unfoldable pub join_steps :
    (is_valid_address : Bool)
    → Option String
    → Option EpochId
    → Option (List Argument)
    → Process
    → Result HandoffError (List Effect)
unfolding startable join_arguments
join_steps v none epoch args s = err winner_required
join_steps v (some a) epoch args s =
    if a == ""
    then err winner_required
    else startable args s >>= λ xs. ok (
        set_state joining epoch
        ∷ audit_join
        ∷ start_process (join_arguments v a xs)
        ∷ joiner_runtime
        ∷ [])

-- What happens to a blocked process: a handoff of a bootstrap or of a join with what works of it,
-- and the end of mariadbd, by itself or by a signal. A child that a signal ended has a `null`
-- `exitCode`, and goes on to count as running.
pub data Event : Type 0 where
  exits : (by_signal : Bool) → Event
  recovers :
      (Effect → Bool) → String → Option String → Option EpochId → Option (List Argument) → Event
  joins : (Effect → Bool) → Bool → Option String → Option EpochId → Option (List Argument) → Event

abbrev pub carry : (Effect → Bool) → Result HandoffError (List Effect) → Process → Process
carry works (err e) s = s
carry works (ok es) s = (perform works es s).0

unfoldable pub step : Event → Process → Process
unfolding perform recovery_steps join_steps
step (exits by_signal) s = record s { running = s.running && by_signal }
step (recovers works name winner epoch args) s =
    carry works (recovery_steps name winner epoch args s) s
step (joins works v a epoch args) s = carry works (join_steps v a epoch args s) s

unfoldable pub run : List Event → Process → Process
unfolding step
run [] s = s
run (e ∷ es) s = run es (step e s)

-- A blocked process before any handoff, with the recovery state that its start has left.
abbrev pub blocked_process : Recovery → Process
blocked_process r = record { running = false; closed = false; recovery = r; calls = [] }
