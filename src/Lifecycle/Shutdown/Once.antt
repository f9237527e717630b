-- ===== src/Lifecycle/Shutdown/Once.antt =====
-- What a shutdown reaches (lifecycle/shutdown.mjs).
use elera.Prelude.{
  ◌≡◌, refl, sym, ap, ap₂, subst, ◌∙◌, inl, inr, Bool, true, false, not, ◌&&◌, ◌||◌, List, [], ◌∷◌,
  ◌++◌, nat_eq, string_eq, if◌then◌else◌, Bool-cases, &&-left, &&-right, filter, any, all,
}
use elera.Lifecycle.Drain.{draining, stopping, stopped}
use elera.Lifecycle.Shutdown.{
  Effect, stop_mariadb, set_state, quiesce, clear_timers, close_bus, close_stream, stop_telemetry,
  close_servers, propagate_drain, notify_routing, close_db, before_maria_stop, remove_handlers,
  Supervisor, serving_supervisor, note, is_caught, perform, steps_before, steps_after, shutdown,
  run,
}

abbrev goes_on : (Effect → Bool) → Effect → Bool
goes_on works e = works e || is_caught e

abbrev pub is_mariadb : Effect → Bool
is_mariadb stop_mariadb = true
is_mariadb _ = false

||-false : (b : Bool) → (b || false) ≡ b
||-false true = refl
||-false false = refl

||-true : (b : Bool) → (b || true) ≡ true
||-true true = refl
||-true false = refl

||-parts : (a b : Bool) → (a || b) ≡ false → (a ≡ false) × (b ≡ false)
||-parts true b h = cc
||-parts false b h = (refl, h)

any-append :
    (es fs : List Effect) → any is_mariadb (es ++ fs) ≡ (any is_mariadb es || any is_mariadb fs)
any-append [] fs = refl
any-append (e ∷ es) fs = elim (Bool-cases (is_mariadb e)) [
  | inl t ↦ rw t refl
  | inr t ↦ rw t (any-append es fs)
]

if-true : {A : Type 0} (b : Bool) (x y : A) → b ≡ true → (if b then x else y) ≡ x
if-true b x y t = rw t refl

if-false : {A : Type 0} (b : Bool) (x y : A) → b ≡ false → (if b then x else y) ≡ y
if-false b x y t = rw t refl

note-started : (e : Effect) (s : Supervisor) → (note e s).started ≡ s.started
unfolding note
note-started e s = refl

perform-started :
    (w : Effect → Bool) (es : List Effect) (s : Supervisor) → (perform w es s).started ≡ s.started
unfolding perform note
perform-started w [] s = refl
perform-started w (e ∷ es) s = elim (Bool-cases (goes_on w e)) [
  | inl t ↦ rw t (perform-started w es (note e s))
  | inr t ↦ rw t refl
]

shutdown-started : (w : Effect → Bool) (s : Supervisor) → (shutdown w s).started ≡ true
unfolding shutdown
shutdown-started w s = elim (Bool-cases s.started) [
  | inl t ↦ subst (λ (x : Supervisor). x.started ≡ true) (sym (if-true s.started _ _ t)) t
  | inr t ↦
      subst (λ (x : Supervisor). x.started ≡ true) (sym (if-false s.started _ _ t))
        (perform-started w (steps_before ++ stop_mariadb ∷ steps_after)
          (record s { started = true }))
]

-- Signals after the first change nothing.
run-again : (ws : List (Effect → Bool)) (s : Supervisor) → s.started ≡ true → run ws s ≡ s
unfolding run shutdown
run-again [] s t = refl
run-again (w ∷ ws) s t = ap (run ws) (if-true s.started _ _ t) ∙ run-again ws s t

run-first :
    (w : Effect → Bool) (ws : List (Effect → Bool))
    → run (w ∷ ws) serving_supervisor
      ≡ perform w
          (steps_before ++ stop_mariadb ∷ steps_after)
          (record serving_supervisor { started = true })
unfolding run shutdown
run-first w ws =
    run-again ws (shutdown w serving_supervisor) (shutdown-started w serving_supervisor)

noted-mariadb :
    (e : Effect) (s : Supervisor)
    → any is_mariadb (note e s).calls ≡ (any is_mariadb s.calls || is_mariadb e)
unfolding note
noted-mariadb e s =
    any-append s.calls (e ∷ []) ∙ ap (λ b. any is_mariadb s.calls || b) (||-false (is_mariadb e))

kept-mariadb :
    (w : Effect → Bool) (es : List Effect) (s : Supervisor)
    → any is_mariadb s.calls ≡ true
    → any is_mariadb (perform w es s).calls ≡ true
unfolding perform
kept-mariadb w [] s h = h
kept-mariadb w (e ∷ es) s h =
    let k = noted-mariadb e s ∙ ap (λ b. b || is_mariadb e) h in
    elim (Bool-cases (goes_on w e)) [
      | inl t ↦ rw t (kept-mariadb w es (note e s) k)
      | inr t ↦ rw t k
    ]

perform-mariadb :
    (w : Effect → Bool) (es rest : List Effect) (s : Supervisor)
    → any is_mariadb es ≡ false
    → any is_mariadb s.calls ≡ false
    → any is_mariadb (perform w (es ++ stop_mariadb ∷ rest) s).calls ≡ all (goes_on w) es
unfolding perform
perform-mariadb w [] rest s q h =
    let k = noted-mariadb stop_mariadb s ∙ ||-true (any is_mariadb s.calls) in
    elim (Bool-cases (goes_on w stop_mariadb)) [
      | inl t ↦ rw t (kept-mariadb w rest (note stop_mariadb s) k)
      | inr t ↦ rw t k
    ]
perform-mariadb w (e ∷ es) rest s q h =
    let (a, b) = ||-parts (is_mariadb e) _ q in
    let k = noted-mariadb e s ∙ ap₂ (λ x y. x || y) h a in
    elim (Bool-cases (goes_on w e)) [
      | inl t ↦ rw t (perform-mariadb w es rest (note e s) b k)
      | inr t ↦ rw t k
    ]

notes : List Effect → Supervisor → Supervisor
notes [] s = s
notes (e ∷ es) s = notes es (note e s)

perform-all :
    (w : Effect → Bool) (es : List Effect) (s : Supervisor)
    → all (goes_on w) es ≡ true
    → perform w es s ≡ notes es s
unfolding perform notes
perform-all w [] s h = refl
perform-all w (e ∷ es) s h =
    if-true (goes_on w e) _ _ (&&-left (goes_on w e) _ h)
    ∙ perform-all w es (note e s) (&&-right (goes_on w e) _ h)

goes_on-filter :
    (w : Effect → Bool) (es : List Effect)
    → all (goes_on w) es ≡ all w (filter (λ e. not (is_caught e)) es)
goes_on-filter w [] = refl
goes_on-filter w (e ∷ es) = elim (Bool-cases (is_caught e)) [
  | inl t ↦ rw (t, ||-true (w e)) (goes_on-filter w es)
  | inr t ↦ rw (t, ||-false (w e)) (ap (λ b. w e && b) (goes_on-filter w es))
]

-- The calls before the stop of MariaDB that end the shutdown if they throw.
abbrev pub needed_before : List Effect
needed_before =
    set_state draining
    ∷ quiesce
    ∷ set_state stopping
    ∷ clear_timers
    ∷ close_bus
    ∷ close_stream
    ∷ stop_telemetry
    ∷ close_servers
    ∷ before_maria_stop
    ∷ []

-- MariaDB is stopped by the first signal or never. Whatever signals come, and whatever works at
-- each, the stop of MariaDB is called exactly where, at the first signal, all of these work: the
-- states, the quiesce, the timers, the bus, the stream, the telemetry, the servers and what comes
-- before the stop. A propagation of the drain or a notice of the routing that fails is no obstacle.
pub run-mariadb :
    (w : Effect → Bool) (ws : List (Effect → Bool))
    → any is_mariadb (run (w ∷ ws) serving_supervisor).calls ≡ all w needed_before
run-mariadb w ws =
    ap (λ s. any is_mariadb s.calls) (run-first w ws)
    ∙ perform-mariadb w steps_before steps_after (record serving_supervisor { started = true }) refl
        refl
    ∙ goes_on-filter w steps_before

-- The order of a shutdown: traffic is turned away and drained, then what listens is closed, then
-- MariaDB is stopped, and its connections and the handlers go last.
abbrev pub whole_shutdown : List Effect
whole_shutdown =
    set_state draining
    ∷ propagate_drain
    ∷ notify_routing
    ∷ quiesce
    ∷ set_state stopping
    ∷ clear_timers
    ∷ close_bus
    ∷ close_stream
    ∷ stop_telemetry
    ∷ close_servers
    ∷ before_maria_stop
    ∷ stop_mariadb
    ∷ close_db
    ∷ remove_handlers
    ∷ set_state stopped
    ∷ []

-- A shutdown completes. Where at the first signal the calls before the stop of MariaDB that have to
-- work do so, and so do the stop, the removal of the handlers and the last state, the supervisor is
-- stopped after any signals, and the calls made are those of the whole shutdown, each once and in
-- its order, also where the propagation of the drain, the notice of the routing or the close of the
-- database fails.
pub run-stopped :
    (w : Effect → Bool) (ws : List (Effect → Bool))
    → all w (needed_before ++ stop_mariadb ∷ remove_handlers ∷ set_state stopped ∷ []) ≡ true
    → ((run (w ∷ ws) serving_supervisor).state ≡ stopped)
      × ((run (w ∷ ws) serving_supervisor).calls ≡ whole_shutdown)
unfolding notes note
run-stopped w ws h =
    let e =
      run-first w ws
      ∙ perform-all w (steps_before ++ stop_mariadb ∷ steps_after)
          (record serving_supervisor { started = true })
          (goes_on-filter w (steps_before ++ stop_mariadb ∷ steps_after) ∙ h) in
    (ap (λ s. s.state) e, ap (λ s. s.calls) e)
