-- ===== src/Runtime/Maria/Watched.antt =====
-- When the start of MariaDB completes the recovery (runtime/maria-startup.mjs).
use elera.Prelude.{
  String, ◌≡◌, refl, subst, ◌≢◌, inl, inr, Bool, true, false, not, ◌&&◌, ◌||◌, Option, none, some,
  arith, nat_eq, string_eq, if◌then◌else◌, Bool-cases, &&-left, &&-right,
}
use elera.Prelude.Result.{Result, ok, err}
use elera.Recovery.State as St
use elera.Recovery.State.{Recovery, Phase, Details, StateError, set, same_phase}
use elera.Recovery.Startup.{
  Mode, should_start, is_join, bootstrap, join, standalone, rejoin, blocked,
}
use elera.Recovery.Epoch.{Decision}
use elera.Recovery.Protocol.Base.{Protocol, ProtocolError}
use elera.Recovery.Protocol.Handlers.{complete, cluster_text}
use elera.Runtime.Maria.{
  Failure, Scene, Ran, emit, joiner_ready, bootstrap_ready, watch, details, with_set, watch_failed,
  set_or_fail, stop_then, join_timed_out, join_ready, joined, start_join, bootstrap_timed_out,
  bootstrap_completed, after_complete, bootstrap_formed, bootstrapped, started,
  start_supervisor_mariadb, state_failure, stop_failure, protocol_failure, epoch_text, quorum_of,
  stop_process, shut_down, failed, close_server, publish_failed, join_started, start_process,
}

abbrev IsOpen : Ran → Type 0
IsOpen r = r.recovery.state ≢ St.complete

module _ (r : Ran) where
  with_set-IsOpen :
      (s : Result StateError Recovery) (next : Ran → Ran) (caught : StateError → Ran → Ran)
      → ((x : Recovery) → s ≡ ok x → IsOpen (next (record r { recovery = x })))
      → ((e : StateError) → IsOpen (caught e r))
      → IsOpen (with_set r s next caught)
  unfolding with_set
  with_set-IsOpen (err e) next caught n c = c e
  with_set-IsOpen (ok x) next caught n c = n x refl

-- A state that is set is the one asked for, or the one before.
set-IsOpen :
    (r : Recovery) (next : Phase) (d : Details) {s : Recovery}
    → next ≢ St.complete
    → r.state ≢ St.complete
    → set r next d ≡ ok s
    → s.state ≢ St.complete
unfolding set
set-IsOpen r next d n o h e = ground (arith, n, o)

watch_failed-IsOpen : (w : Scene) (f : Failure) (r : Ran) → IsOpen r → IsOpen (watch_failed w f r)
unfolding watch_failed
watch_failed-IsOpen w f r o =
    elim (Bool-cases (not w.current || same_phase r.recovery.state St.complete)) [
      | inl t ↦ rw t o
      | inr g ↦ rw g (
          with_set-IsOpen r (set r.recovery St.cluster_unavailable (details w (some (w.message f))))
            (emit failed) (λ e x. x)
            (λ x e.
              set-IsOpen r.recovery St.cluster_unavailable (details w (some (w.message f))) (cc) o
                e)
            (λ e. o))
    ]

-- A failing step within a watch leaves the recovery open.
unavailable-IsOpen :
    (w : Scene) (reason : Option String) (k : Ran → Ran) (r : Ran)
    → ((x : Ran) → IsOpen x → IsOpen (k x))
    → IsOpen r
    → IsOpen (set_or_fail w St.cluster_unavailable reason k r)
unavailable-IsOpen w reason k r keeps o =
    with_set-IsOpen r (set r.recovery St.cluster_unavailable (details w reason)) k
      (λ e. watch_failed w (state_failure e))
      (λ x e.
        keeps (record r { recovery = x })
          (set-IsOpen r.recovery St.cluster_unavailable (details w reason) (cc) o e))
      (λ e. watch_failed-IsOpen w (state_failure e) r o)

stop_then-IsOpen :
    (w : Scene) (next : Ran → Ran) (r : Ran)
    → ((x : Ran) → IsOpen x → IsOpen (next x))
    → IsOpen r
    → IsOpen (stop_then w next r)
unfolding stop_then
stop_then-IsOpen w next r keeps o = elim (Bool-cases w.stops) [
  | inl t ↦ rw t (keeps (emit stop_process r) o)
  | inr f ↦ rw f (watch_failed-IsOpen w stop_failure (emit stop_process r) o)
]

if-IsOpen : (b : Bool) (x y : Ran) → (b ≡ true → IsOpen x) → IsOpen y → IsOpen (if b then x else y)
if-IsOpen true x y h o = h refl
if-IsOpen false x y h o = o

join_timed_out-IsOpen : (w : Scene) (r : Ran) → IsOpen r → IsOpen (join_timed_out w r)
unfolding join_timed_out
join_timed_out-IsOpen w r o =
    if-IsOpen w.current _ r
      (λ t.
        unavailable-IsOpen w (some "join did not form a ready Primary view before timeout") _ r
          (λ x ox.
            if-IsOpen (is_join w.decision.mode) _ (emit failed x)
              (λ j. stop_then-IsOpen w (λ y. y) (emit failed x) (λ y oy. oy) ox) ox)
          o)
      o

bootstrap_timed_out-IsOpen : (w : Scene) (r : Ran) → IsOpen r → IsOpen (bootstrap_timed_out w r)
unfolding bootstrap_timed_out
bootstrap_timed_out-IsOpen w r o =
    if-IsOpen w.current _ r
      (λ t.
        unavailable-IsOpen w (some "bootstrap did not form a ready Primary view before timeout") _ r
          (λ x ox.
            stop_then-IsOpen w (emit close_server) (emit publish_failed (emit failed x))
              (λ y oy. oy) ox)
          o)
      o

-- What a recovery that a joiner completed rests on.
abbrev pub JoinFormed : Scene → Type 0
JoinFormed w =
    (watch (joiner_ready w.decision) w.samples ≡ true)
    × (w.current ≡ true)
    × (joiner_ready w.decision w.fresh ≡ true)

-- The call of the protocol that completes the bootstrap.
abbrev pub completing : Scene → Protocol → Decision → Result ProtocolError Decision × Protocol
completing w p d =
    complete (epoch_text w.decision.epoch) (cluster_text d.cluster_id) w.name (quorum_of d.quorum)
      w.now p

-- What a recovery that the bootstrapping node completed rests on.
abbrev pub BootstrapFormed : Scene → Protocol → Type 0
BootstrapFormed w p =
    (w.decision.local_winner ≡ true)
    × (watch bootstrap_ready w.samples ≡ true)
    × (w.current ≡ true)
    × ((d : Decision) → w.recovery_epoch ≡ some d → (x : Decision) × ((completing w p d).0 ≡ ok x))

-- A result of the watch: with the condition, or open.
by_cases :
    {C : Type 0} (b : Bool) (x y : Ran)
    → IsOpen y
    → (b ≡ true → (x.recovery.state ≡ St.complete) → C)
    → ((if b then x else y).recovery.state ≡ St.complete)
    → C
by_cases true x y o k h = k refl h
by_cases false x y o k h = absurd (o h)

joined-formed :
    (w : Scene) (r : Ran) (ready : Bool)
    → watch (joiner_ready w.decision) w.samples ≡ ready
    → IsOpen r
    → (joined w ready r).recovery.state ≡ St.complete
    → JoinFormed w
unfolding joined join_ready
joined-formed w r false e o h = absurd (join_timed_out-IsOpen w r o h)
joined-formed w r true e o h =
    by_cases (w.current && joiner_ready w.decision w.fresh) _ r o
      (λ t _. (e, &&-left w.current _ t, &&-right w.current _ t)) h

start_join-formed :
    (w : Scene) (r : Ran) → IsOpen r → (start_join w r).recovery.state ≡ St.complete → JoinFormed w
unfolding start_join with_set
start_join-formed w r o h = on (set r.recovery St.joining (details w w.reason)) refl h
  where
    ready : Bool
    ready = watch (joiner_ready w.decision) w.samples

    on :
        (s : Result StateError Recovery)
        → set r.recovery St.joining (details w w.reason) ≡ s
        → (with_set r s
            (λ x. joined w ready (emit join_started x))
            (λ e. emit shut_down)).recovery.state
          ≡ St.complete
        → JoinFormed w
    on (err e) q h = absurd (o h)
    on (ok x) q h =
        joined-formed w (emit join_started (record r { recovery = x })) ready refl
          (set-IsOpen r.recovery St.joining (details w w.reason) (cc) o q) h

after_complete-formed :
    (w : Scene) (r : Ran) (c : Result ProtocolError Decision × Protocol)
    → IsOpen r
    → (after_complete w r c).recovery.state ≡ St.complete
    → (w.current ≡ true) × (x : Decision) × (c.0 ≡ ok x)
unfolding after_complete bootstrap_completed
after_complete-formed w r (err e, p) o h =
    absurd (watch_failed-IsOpen w (protocol_failure e) (record r { protocol = p }) o h)
after_complete-formed w r (ok x, p) o h =
    by_cases w.current _ (record r { protocol = p }) o (λ t _. (t, x, refl)) h

bootstrap_formed-formed :
    (w : Scene) (e : Option Decision) (r : Ran)
    → IsOpen r
    → (bootstrap_formed w e r).recovery.state ≡ St.complete
    → (w.current ≡ true)
      × ((d : Decision) → e ≡ some d → (x : Decision) × ((completing w r.protocol d).0 ≡ ok x))
unfolding bootstrap_formed bootstrap_completed
bootstrap_formed-formed w none r o h = by_cases w.current _ r o (λ t _. (t, λ d e. absurd (cc))) h
bootstrap_formed-formed w (some d) r o h =
    let (t, x, e) = after_complete-formed w r (completing w r.protocol d) o h in
    (t, λ d' q. (x, subst (λ z. (completing w r.protocol z).0 ≡ ok x) (inj q) e))
  where
    inj : {x y : Decision} → Path (Option Decision) (some x) (some y) → x ≡ y
    inj e = cc

bootstrapped-formed :
    (w : Scene) (ready : Bool) (r : Ran)
    → w.decision.local_winner ≡ true
    → watch bootstrap_ready w.samples ≡ ready
    → IsOpen r
    → (bootstrapped w ready r).recovery.state ≡ St.complete
    → BootstrapFormed w r.protocol
unfolding bootstrapped
bootstrapped-formed w false r l e o h = absurd (bootstrap_timed_out-IsOpen w r o h)
bootstrapped-formed w true r l e o h =
    let (t, k) = bootstrap_formed-formed w w.recovery_epoch r o h in (l, e, t, k)

-- What the recovery of a start in this mode rests on.
abbrev pub Formed : Scene → Mode → Protocol → Type 0
Formed w join p = JoinFormed w
Formed w rejoin p = JoinFormed w
Formed w bootstrap p = BootstrapFormed w p
Formed w standalone p = ⊥
Formed w blocked p = ⊥

started-Formed :
    (w : Scene) (m : Mode) (r : Ran)
    → IsOpen r
    → (started w m r).recovery.state ≡ St.complete
    → Formed w m r.protocol
unfolding started
started-Formed w join r o h = start_join-formed w r o h
started-Formed w rejoin r o h = start_join-formed w r o h
started-Formed w bootstrap r o h =
    by_cases w.decision.local_winner _ r o (λ l k. bootstrapped-formed w _ r l refl o k) h
started-Formed w standalone r o h = o h
started-Formed w blocked r o h = o h

-- A start of MariaDB completes a recovery that was open only where it was allowed to start the
-- process and did, and its state of the recovery is still the current one. A joiner's watch has
-- then seen a ready Primary view of at least the expected size, or two members where none is known,
-- and sees one anew; a bootstrapping winner's watch has seen a ready Primary view of one member, and
-- the protocol has accepted the completion, where the bootstrap has an epoch of recovery.
pub start-Formed :
    (w : Scene) (r : Ran)
    → r.recovery.state ≢ St.complete
    → (start_supervisor_mariadb w r).recovery.state ≡ St.complete
    → (should_start w.elera w.decision.mode w.decision.local_winner w.decision.bootstrap_complete
        ≡ true)
      × (w.elera ≡ true)
      × (w.starts ≡ true)
      × Formed w w.decision.mode r.protocol
unfolding start_supervisor_mariadb
start-Formed w r o h =
    elim (Bool-cases (
      should_start w.elera w.decision.mode w.decision.local_winner w.decision.bootstrap_complete)) [
        | inr f ↦ absurd (o (rw f at h))
        | inl t ↦ elim (Bool-cases w.starts) [
          | inr f ↦ absurd (o (rw (t, f) at h))
          | inl s ↦ elim (Bool-cases w.elera) [
            | inr f ↦ absurd (o (rw (t, s, f) at h))
            | inl e ↦ (
              t,
              e,
              s,
              started-Formed w w.decision.mode (emit start_process r) o (rw (t, s, e) at h),
            )
          ]
        ]
      ]
