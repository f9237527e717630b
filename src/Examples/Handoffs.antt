-- ===== src/Examples/Handoffs.antt =====
-- The handoffs of a blocked node on concrete data.
use elera.Prelude.{◌+◌, ◌≤◌, refl, Bool, true, false, some, List, [], ◌∷◌, nat_eq, string_eq, count}
use elera.Recovery.Startup.{Argument, other, new_cluster}
use elera.Recovery.State.{Recovery, number, blocked_ambiguous, create_recovery_state}
use elera.Runtime.Handoff.{
  Effect, recover_joiners, Event, exits, recovers, joins, run, step, blocked_process,
}
use elera.Runtime.Handoff.Refused.{IsUntouched, recovers-refused}
use elera.Runtime.Handoff.Started.{is_started, is_stopped, is_exit, bit, run-started}

abbrev arguments : List Argument
arguments = other "--user=mysql" ∷ new_cluster ∷ []

abbrev unable : Effect → Bool
unable recover_joiners = false
unable _ = true

abbrev able : Effect → Bool
able e = true

-- The state that a blocked start has left.
abbrev blocked : Recovery
blocked = record (create_recovery_state blocked_ambiguous) { epoch = some (number 3) }

abbrev events : List Event
events =
    recovers able "a.x" (some "b.x") (some (number 4)) (some arguments)
    ∷ recovers unable "a.x" (some "a.x") (some (number 4)) (some arguments)
    ∷ joins able true (some "b.x") (some (number 4)) (some arguments)
    ∷ exits false
    ∷ recovers able "a.x" (some "a.x") (some (number 4)) (some arguments)
    ∷ []

run-started_example :
    (count is_started (run events (blocked_process blocked)).calls
      ≤ count is_exit events + bit (run events (blocked_process blocked)).running)
    × (count is_stopped (run events (blocked_process blocked)).calls
        ≤ bit (run events (blocked_process blocked)).closed)
run-started_example = run-started blocked events

recovers-refused_example : IsUntouched (blocked_process blocked) (
    step
      (recovers able "a.x" (some "a.x") (some (number 4)) (some arguments))
      (blocked_process blocked))
unfolding elera.Recovery.State.is_stale_epoch
recovers-refused_example =
    recovers-refused able "a.x" (some "a.x") (some (number 4)) (some arguments)
      (blocked_process blocked) refl refl
