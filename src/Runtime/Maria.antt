-- ===== src/Runtime/Maria.antt =====
-- The start of MariaDB and the watch over its first view of the cluster
-- (runtime/maria-startup.mjs, cluster/cold-bootstrap/bootstrap-watch.mjs).
pub mod Watched
use elera.Prelude.{
  ℕ, zero, suc, ◌+◌, ◌-◌, ◌*◌, ◌/◌, ◌%◌, ◌^◌, ◌≤◌, ◌<◌, min, max, String, ◌≡◌, refl, sym, ap, ap₂,
  subst, ◌∙◌, ◌≢◌, ◌↔◌, ◌⊎◌, inl, inr, Bool, true, false, not, ◌&&◌, ◌||◌, Option, none, some, List,
  [], ◌∷◌, ◌++◌, map, Memᴰ, arith, eq_iff, ltb, leb, nat_eqb, Eq, ◌==◌, nat_eq, string_eq,
  if◌then◌else◌, ltb→lt, lt→ltb, leb→le, Bool-cases, Option-cases, &&-left, &&-right, is_some,
  length, filter, any, all, find, count, head?, get_last?, length-append, length-filter,
  count-le-length, mem-filter, mem-filter_of, any_of_mem, mem_of_any, all_mem, any-false_mem,
  find-some, find-none, count-add-le, mem_of_count, count_le_of, count_pos, includes, dedupe,
  dedupe_onto, nat_eqb_iff,
}
use elera.Prelude.Result.{Result, ok, err}
use elera.Recovery.State as St
use elera.Recovery.State.{Recovery, Phase, Details, StateError, EpochId, set, same_phase}
use elera.Recovery.Startup.{
  Start, Mode, Values, should_start, is_bootstrap, is_join, bootstrap, join, standalone, rejoin,
  blocked,
}
use elera.Recovery.Epoch.{Decision}
use elera.Recovery.Protocol.Base.{M, Protocol, ProtocolError}
use elera.Recovery.Protocol.Handlers.{complete, cluster_text}
use elera.Runtime.Authorization.{epoch_id}

-- What the start does, in its order: the process, the audit, the published completion, the
-- listener of the start, the shutdown of the supervisor.
pub data Effect : Type 0 where
  start_process stop_process join_started completed failed publish_complete : Effect
  publish_failed close_server shut_down : Effect

pub data Failure : Type 0 where
  state_failure : StateError → Failure
  protocol_failure : ProtocolError → Failure
  stop_failure : Failure

-- What the code around the start answers. A sample is `none` where reading the status fails; the
-- samples are those before the deadline. `current` says whether the state of the recovery still
-- belongs to this start when the watch ends, `fresh` is the status read then. The listener closes.
pub record Scene : Type 0 where
  pub elera : Bool
  pub name : String
  pub decision : Start
  pub recovery_epoch : Option Decision
  pub reason : Option String
  pub message : Failure → String
  pub starts : Bool
  pub stops : Bool
  pub samples : List (Option Values)
  pub current : Bool
  pub fresh : Option Values
  pub now : ℕ

pub record Ran : Type 0 where
  pub recovery : Recovery
  pub protocol : Protocol
  pub effects : List Effect

abbrev pub emit : Effect → Ran → Ran
emit e r = record r { effects = r.effects ++ e ∷ [] }

abbrev pub is_primary_view : Values → Bool
is_primary_view v = v.local_state == "Synced" && v.ready == "ON" && v.status == "Primary"

abbrev pub or_two : Option ℕ → ℕ
or_two none = 2
or_two (some n) = n

abbrev pub size_at_least : ℕ → Option ℕ → Bool
size_at_least n none = false
size_at_least n (some k) = leb n k

abbrev pub size_is : ℕ → Option ℕ → Bool
size_is n none = false
size_is n (some k) = nat_eqb k n

-- The two tests `isReady`: of a joiner, and of the node that bootstraps.
unfoldable pub joiner_ready : Start → Option Values → Bool
joiner_ready d none = false
joiner_ready d (some v) = is_primary_view v && size_at_least (or_two d.expected_membership) v.size

unfoldable pub bootstrap_ready : Option Values → Bool
bootstrap_ready none = false
bootstrap_ready (some v) = is_primary_view v && size_is 1 v.size

-- The loop of `createBootstrapWatch`: whether a sample was ready before the deadline.
unfoldable pub watch : (Option Values → Bool) → List (Option Values) → Bool
watch ready [] = false
watch ready (v ∷ vs) = ready v || watch ready vs

abbrev pub details : Scene → Option String → Details
details w reason = record { reason = reason; epoch = epoch_id w.decision.epoch; members = [] }

-- `recoveryState.set(…)`, what follows it, and what catches its error.
unfoldable pub with_set :
    Ran → Result StateError Recovery → (Ran → Ran) → (StateError → Ran → Ran) → Ran
with_set r (err e) next caught = caught e r
with_set r (ok s) next caught = next (record r { recovery = s })

-- The `catch` of a watch. An error of its own is lost.
unfoldable pub watch_failed : Scene → Failure → Ran → Ran
unfolding with_set set
watch_failed w f r =
    if not w.current || same_phase r.recovery.state St.complete
    then r
    else with_set r (set r.recovery St.cluster_unavailable (details w (some (w.message f))))
        (emit failed) (λ e x. x)

-- A state that is set within a watch.
abbrev pub set_or_fail : Scene → Phase → Option String → (Ran → Ran) → Ran → Ran
set_or_fail w next reason k r =
    with_set r (set r.recovery next (details w reason)) k (λ e. watch_failed w (state_failure e))

-- `await processController.stop(…)`, and what follows it.
unfoldable pub stop_then : Scene → (Ran → Ran) → Ran → Ran
unfolding watch_failed
stop_then w next r =
    if w.stops
    then next (emit stop_process r)
    else watch_failed w stop_failure (emit stop_process r)

-- The watch of a joiner timed out.
unfoldable pub join_timed_out : Scene → Ran → Ran
unfolding stop_then with_set set watch_failed
join_timed_out w r =
    if w.current
    then set_or_fail w St.cluster_unavailable
        (some "join did not form a ready Primary view before timeout")
        (λ x.
          if is_join w.decision.mode then stop_then w (λ y. y) (emit failed x) else emit failed x)
        r
    else r

-- A ready result counts only with a fresh sample that is ready too.
unfoldable pub join_ready : Scene → Ran → Ran
unfolding with_set set watch_failed joiner_ready
join_ready w r =
    if w.current && joiner_ready w.decision w.fresh
    then set_or_fail w St.complete (some "join completed with expected Primary membership")
        (emit completed) r
    else r

unfoldable pub joined : Scene → Bool → Ran → Ran
unfolding join_timed_out join_ready
joined w true = join_ready w
joined w false = join_timed_out w

-- The start of a joiner, whose first error shuts the supervisor down.
unfoldable pub start_join : Scene → Ran → Ran
unfolding with_set set joined watch joiner_ready
start_join w r =
    with_set r (set r.recovery St.joining (details w w.reason))
      (λ x. joined w (watch (joiner_ready w.decision) w.samples) (emit join_started x))
      (λ e. emit shut_down)

unfoldable pub bootstrap_timed_out : Scene → Ran → Ran
unfolding stop_then with_set set watch_failed
bootstrap_timed_out w r =
    if w.current
    then set_or_fail w St.cluster_unavailable
        (some "bootstrap did not form a ready Primary view before timeout")
        (λ x. stop_then w (emit close_server) (emit publish_failed (emit failed x))) r
    else r

abbrev pub has_epoch : Option String → Bool
has_epoch none = false
has_epoch (some e) = not (e == "")

abbrev pub quorum_of : Option (List String) → List String
quorum_of none = []
quorum_of (some q) = q

abbrev epoch_text : Option String → String
epoch_text none = ""
epoch_text (some e) = e

unfoldable pub publish_and_close : Scene → Ran → Ran
publish_and_close w r =
    let published = if has_epoch w.decision.epoch then emit publish_complete r else r in
    emit close_server (emit completed published)

abbrev reason_of : Option Decision → String
reason_of none = "explicit bootstrap completed with expected Primary membership"
reason_of (some d) = "bootstrap completed with expected Primary membership"

unfoldable pub bootstrap_completed : Scene → Ran → Ran
unfolding with_set set watch_failed publish_and_close
bootstrap_completed w r =
    if w.current
    then set_or_fail w St.complete (some (reason_of w.recovery_epoch)) (publish_and_close w) r
    else r

unfoldable pub after_complete : Scene → Ran → Result ProtocolError Decision × Protocol → Ran
unfolding bootstrap_completed watch_failed
after_complete w r (err e, p) = watch_failed w (protocol_failure e) (record r { protocol = p })
after_complete w r (ok d, p) = bootstrap_completed w (record r { protocol = p })

-- The protocol completes first, where the bootstrap has an epoch of recovery.
unfoldable pub bootstrap_formed : Scene → Option Decision → Ran → Ran
unfolding bootstrap_completed after_complete complete
bootstrap_formed w none r = bootstrap_completed w r
bootstrap_formed w (some d) r = after_complete w r (
    complete (epoch_text w.decision.epoch) (cluster_text d.cluster_id) w.name (quorum_of d.quorum)
      w.now r.protocol)

unfoldable pub bootstrapped : Scene → Bool → Ran → Ran
unfolding bootstrap_timed_out bootstrap_formed
bootstrapped w true r = bootstrap_formed w w.recovery_epoch r
bootstrapped w false r = bootstrap_timed_out w r

-- What follows the start of the process.
unfoldable pub started : Scene → Mode → Ran → Ran
unfolding start_join bootstrapped watch bootstrap_ready
started w join r = start_join w r
started w rejoin r = start_join w r
started w bootstrap r =
    if w.decision.local_winner then bootstrapped w (watch bootstrap_ready w.samples) r else r
started w _ r = r

-- `startSupervisorMariaDb`
unfoldable pub start_supervisor_mariadb : Scene → Ran → Ran
unfolding started should_start
start_supervisor_mariadb w r =
    if not
      (should_start w.elera w.decision.mode w.decision.local_winner w.decision.bootstrap_complete)
    then r
    else if not w.starts
    then emit shut_down (emit start_process r)
    else if w.elera
    then started w w.decision.mode (emit start_process r)
    else emit start_process r
