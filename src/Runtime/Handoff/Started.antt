-- ===== src/Runtime/Handoff/Started.antt =====
-- mariadbd in the handoffs of an authorized recovery (runtime/startup-coordinator.mjs).
use elera.Prelude.{
  ℕ, suc, ◌+◌, ◌≤◌, String, ◌≡◌, refl, subst, inl, inr, Bool, true, false, ◌&&◌, ◌||◌, Option, none,
  some, List, [], ◌∷◌, ◌++◌, arith, ◌==◌, nat_eq, string_eq, if◌then◌else◌, Bool-cases, &&-left,
  count,
}
use elera.Prelude.Result.{Result, ok, err, ◌>>=◌}
use elera.Runtime.Handoff.{
  Process, Event, exits, recovers, joins, run, step, perform, note, carry, recovery_steps,
  join_steps, startable, goes, blocked_process, is_start, is_stop, Effect, closings, winner_steps,
  HandoffError, on_bootstrap, is_other, winner_runtime, recover_joiners, recover_traffic,
}
use elera.Recovery.Startup.{Argument}
use elera.Recovery.State.{Recovery, EpochId}

abbrev pub bit : Bool → ℕ
bit b = if b then 1 else 0

-- The starts of mariadbd that worked.
abbrev pub is_started : Effect × Bool → Bool
is_started (e, worked) = is_start e && worked

abbrev pub is_stopped : Effect × Bool → Bool
is_stopped (e, worked) = is_stop e

abbrev pub is_exit : Event → Bool
is_exit (exits b) = true
is_exit _ = false

-- After `n` exits: one start for each exit, and the one that runs; one stop at most.
abbrev IsWithin : ℕ → Process → Type 0
IsWithin n s =
    (count is_started s.calls ≤ n + bit s.running) × (count is_stopped s.calls ≤ bit s.closed)

-- What a list of calls needs for that: it starts only what is down, and stops only what listens.
abbrev IsFit : List Effect → Process → Type 0
IsFit es s = (count is_start es + bit s.running ≤ 1) × (count is_stop es + bit s.closed ≤ 1)

bit-le : (b : Bool) → bit b ≤ 1
bit-le true = omega arith
bit-le false = omega arith

-- A count `k` that goes up where `x` holds, for a flag `r` that then is set.
counted :
    (a x r : Bool) (c k n : ℕ)
    → (x ≡ true → a ≡ true)
    → (if a then suc c else c) + bit r ≤ 1
    → k ≤ n + bit r
    → ((if x then suc k else k) ≤ n + bit (r || x)) × (c + bit (r || x) ≤ 1)
counted a true true c k n f g h = let e = f refl in ground arith
counted a true false c k n f g h = let e = f refl in ground arith
counted a false true c k n f g h = ground arith
counted a false false c k n f g h = ground arith

note-IsWithin :
    (n : ℕ) (e : Effect) (b : Bool) (es : List Effect) (s : Process)
    → IsFit (e ∷ es) s
    → IsWithin n s
    → IsWithin n (note e b s) × IsFit es (note e b s)
unfolding note
note-IsWithin n e b es s (f, g) (h, k) =
    let (h', f') =
      counted (is_start e) (is_start e && b) s.running (count is_start es)
        (count is_started s.calls) n (&&-left (is_start e) b) f h in
    let (k', g') =
      counted (is_stop e) (is_stop e) s.closed (count is_stop es) (count is_stopped s.calls) 0
        (λ t. t) g (omega (arith, k)) in
    ((h', omega (arith, k')), (f', g'))

perform-IsWithin :
    (n : ℕ) (works : Effect → Bool) (es : List Effect) (s : Process)
    → IsFit es s
    → IsWithin n s
    → IsWithin n (perform works es s).0
unfolding perform
perform-IsWithin n works [] s f h = h
perform-IsWithin n works (e ∷ es) s f h = elim (Bool-cases (goes works e s)) [
  | inl t ↦
      let (h', f') = note-IsWithin n e true es s f h in
      rw t (perform-IsWithin n works es (note e true s) f' h')
  | inr t ↦ rw t (note-IsWithin n e false es s f h).0
]

carry-IsWithin :
    (n : ℕ) (works : Effect → Bool) (r : Result HandoffError (List Effect)) (s : Process)
    → ((es : List Effect) → r ≡ ok es → IsFit es s)
    → IsWithin n s
    → IsWithin n (carry works r s)
carry-IsWithin n works (err e) s f h = h
carry-IsWithin n works (ok es) s f h = perform-IsWithin n works es s (f es refl) h

ok-injective : {E A : Type 0} {a b : A} → ◌≡◌ {A = Result E A} (ok a) (ok b) → a ≡ b
ok-injective h = cc

-- `startable` lets through only a process that is down.
startable-IsFit :
    (args : Option (List Argument)) (s : Process) (steps : List Argument → List Effect)
    → ((xs : List Argument) → s.running ≡ false → IsFit (steps xs) s)
    → (es : List Effect) → (startable args s >>= λ xs. ok (steps xs)) ≡ ok es
    → IsFit es s
unfolding startable
startable-IsFit none s steps f es h = cc
startable-IsFit (some xs) s steps f es h = elim (Bool-cases s.running) [
  | inl t ↦ let e = rw t at h in cc
  | inr t ↦ subst (λ l. IsFit l s) (ok-injective (rw t at h)) (f xs t)
]

recovery_steps-IsFit :
    (name : String) (winner : Option String) (epoch : Option EpochId)
    (args : Option (List Argument)) (s : Process) (es : List Effect)
    → recovery_steps name winner epoch args s ≡ ok es
    → IsFit es s
unfolding recovery_steps
recovery_steps-IsFit name winner epoch args s es h = elim (Bool-cases (is_other name winner)) [
  | inl t ↦
      subst (λ l. IsFit l s) (ok-injective (rw t at h))
        (omega (arith, bit-le s.running), omega (arith, bit-le s.closed))
  | inr t ↦
      startable-IsFit args s
        (λ xs.
          winner_steps epoch xs
          ++ (closings s ++ winner_runtime ∷ recover_joiners ∷ recover_traffic ∷ on_bootstrap ∷ []))
        (λ xs r. elim (Bool-cases s.closed) [
          | inl c ↦ rw (c, r) (omega arith, omega arith)
          | inr c ↦ rw (c, r) (omega arith, omega arith)
        ])
        es (rw t at h)
]

join_steps-IsFit :
    (v : Bool) (a : Option String) (epoch : Option EpochId) (args : Option (List Argument))
    (s : Process) (es : List Effect)
    → join_steps v a epoch args s ≡ ok es
    → IsFit es s
unfolding join_steps
join_steps-IsFit v none epoch args s es h = cc
join_steps-IsFit v (some a) epoch args s es h = elim (Bool-cases (a == "")) [
  | inl t ↦ let e = rw t at h in cc
  | inr t ↦
      startable-IsFit args s _ (λ xs r. rw r (omega arith, omega (arith, bit-le s.closed))) es
        (rw t at h)
]

run-IsWithin :
    (es : List Event) (s : Process) (n : ℕ)
    → IsWithin n s
    → IsWithin (n + count is_exit es) (run es s)
unfolding run step
run-IsWithin [] s n (h, k) = (omega (arith, h), k)
run-IsWithin (exits b ∷ es) s n (h, k) =
    let (a, z) =
      run-IsWithin es (record s { running = s.running && b }) (suc n)
        (omega (arith, h, bit-le s.running), k) in
    (omega (arith, a), z)
run-IsWithin (recovers works name winner epoch args ∷ es) s n h = run-IsWithin es _ n (
    carry-IsWithin n works (recovery_steps name winner epoch args s) s
      (recovery_steps-IsFit name winner epoch args s) h)
run-IsWithin (joins works v a epoch args ∷ es) s n h =
    run-IsWithin es _ n
      (carry-IsWithin n works (join_steps v a epoch args s) s (join_steps-IsFit v a epoch args s) h)

-- In any handoffs of a blocked process, whatever the calls in them do, mariadbd is started at most
-- once more often than it has ended, and not again while it runs; and the pending runtime is shut
-- down at most once, and never while its listeners still count as open.
pub run-started :
    (r : Recovery) (es : List Event)
    → (count is_started (run es (blocked_process r)).calls
        ≤ count is_exit es + bit (run es (blocked_process r)).running)
      × (count is_stopped (run es (blocked_process r)).calls
          ≤ bit (run es (blocked_process r)).closed)
run-started r es =
    let (a, b) = run-IsWithin es (blocked_process r) 0 (omega arith, omega arith) in
    (omega (arith, a), b)
