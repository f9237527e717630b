-- ===== src/Runtime/Handoff/Refused.antt =====
-- What a blocked recovery state refuses (runtime/recovery-process-start.mjs over
-- cold-bootstrap/recovery-state.mjs).
use elera.Prelude.{
  String, ◌≡◌, refl, inl, inr, Bool, true, false, ◌||◌, Option, List, [], ◌∷◌, ◌++◌, nat_eq,
  string_eq, Bool-cases,
}
use elera.Prelude.Result.{Result, ok, err, ◌>>=◌}
use elera.Recovery.Startup.{Argument}
use elera.Recovery.State.{
  bootstrapping, blocked_ambiguous, Recovery, EpochId, set, is_stale_epoch, no_details, allows,
  invalid_recovery_transition,
}
use elera.Runtime.Handoff.{
  Effect, Process, HandoffError, recovers, step, perform, note, goes, moved, carry, recovery_steps,
  startable, is_other, winner_steps, set_state, on_bootstrap,
}

set-refused :
    (r : Recovery) (epoch : Option EpochId)
    → r.state ≡ blocked_ambiguous
    → is_stale_epoch epoch r.epoch ≡ false
    → set r bootstrapping (record no_details { epoch = epoch })
      ≡ err (invalid_recovery_transition blocked_ambiguous bootstrapping)
unfolding set allows
set-refused r epoch b f = rw (f, b) refl

||-false : (b : Bool) → (b || false) ≡ b
||-false true = refl
||-false false = refl

-- What a handoff leaves: mariadbd, the listeners and the recovery state are as they were.
abbrev pub IsUntouched : Process → Process → Type 0
IsUntouched s s' = (s'.running ≡ s.running) × (s'.closed ≡ s.closed) × (s'.recovery ≡ s.recovery)

perform-refused :
    (works : Effect → Bool) (epoch : Option EpochId) (es : List Effect) (s : Process)
    → s.recovery.state ≡ blocked_ambiguous
    → is_stale_epoch epoch s.recovery.epoch ≡ false
    → IsUntouched s (perform works (set_state bootstrapping epoch ∷ es) s).0
unfolding perform goes note moved
perform-refused works epoch es s b f =
    rw (set-refused s.recovery epoch b f) (||-false s.running, ||-false s.closed, refl)

perform-other :
    (works : Effect → Bool) (s : Process) → IsUntouched s (perform works (on_bootstrap ∷ []) s).0
unfolding perform goes note moved
perform-other works s = elim (Bool-cases (works on_bootstrap)) [
  | inl t ↦ rw t (||-false s.running, ||-false s.closed, refl)
  | inr t ↦ rw t (||-false s.running, ||-false s.closed, refl)
]

started-refused :
    (works : Effect → Bool) (epoch : Option EpochId) (s : Process)
    (r : Result HandoffError (List Argument)) (rest : List Effect)
    → s.recovery.state ≡ blocked_ambiguous
    → is_stale_epoch epoch s.recovery.epoch ≡ false
    → IsUntouched s (carry works (r >>= λ xs. ok (winner_steps epoch xs ++ rest)) s)
started-refused works epoch s (err e) rest b f = (refl, refl, refl)
started-refused works epoch s (ok xs) rest b f = perform-refused works epoch _ s b f

-- A node whose recovery state is blocked-ambiguous does not take over an authorized recovery. A
-- handoff of a bootstrap for an epoch that is not stale leaves mariadbd, the listeners and the
-- recovery state as they were, whoever the winner is and whatever the calls would do.
pub recovers-refused :
    (works : Effect → Bool) (name : String) (winner : Option String) (epoch : Option EpochId)
    (args : Option (List Argument)) (s : Process)
    → s.recovery.state ≡ blocked_ambiguous
    → is_stale_epoch epoch s.recovery.epoch ≡ false
    → IsUntouched s (step (recovers works name winner epoch args) s)
unfolding step recovery_steps
recovers-refused works name winner epoch args s b f = elim (Bool-cases (is_other name winner)) [
  | inl t ↦ rw t (perform-other works s)
  | inr t ↦ rw t (started-refused works epoch s (startable args s) _ b f)
]
