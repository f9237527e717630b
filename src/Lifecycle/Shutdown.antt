-- ===== src/Lifecycle/Shutdown.antt =====
-- The shutdown of a supervisor (lifecycle/shutdown.mjs).
pub mod Once
use elera.Prelude.{
  ℕ, zero, suc, ◌+◌, ◌-◌, ◌*◌, ◌/◌, ◌%◌, ◌^◌, ◌≤◌, ◌<◌, min, max, String, ◌≡◌, refl, sym, ap, ap₂,
  subst, ◌∙◌, ◌≢◌, ◌↔◌, ◌⊎◌, inl, inr, Bool, true, false, not, ◌&&◌, ◌||◌, Option, none, some, List,
  [], ◌∷◌, ◌++◌, map, Memᴰ, arith, eq_iff, ltb, leb, nat_eqb, Eq, ◌==◌, nat_eq, string_eq,
  if◌then◌else◌, ltb→lt, lt→ltb, leb→le, Bool-cases, Option-cases, &&-left, &&-right, is_some,
  length, filter, any, all, find, count, head?, get_last?, length-append, length-filter,
  count-le-length, mem-filter, mem-filter_of, any_of_mem, mem_of_any, all_mem, any-false_mem,
  find-some, find-none, count-add-le, mem_of_count, count_le_of, count_pos, includes, dedupe,
  dedupe_onto, nat_eqb_iff,
}
use elera.Lifecycle.Drain.{LifecycleState, serving, draining, stopping, stopped}

-- The calls of `shutdown`.
pub data Effect : Type 0 where
  set_state : LifecycleState → Effect
  propagate_drain notify_routing quiesce clear_timers close_bus close_stream : Effect
  stop_telemetry close_servers before_maria_stop stop_mariadb close_db remove_handlers : Effect

pub record Supervisor : Type 0 where
  pub started : Bool
  pub state : LifecycleState
  pub calls : List Effect

abbrev pub serving_supervisor : Supervisor
serving_supervisor = record { started = false; state = serving; calls = [] }

abbrev state_after : Effect → LifecycleState → LifecycleState
state_after (set_state l) old = l
state_after _ old = old

-- A call that is made, the last one at the end.
unfoldable pub note : Effect → Supervisor → Supervisor
note e s = record s { state = state_after e s.state; calls = s.calls ++ e ∷ [] }

-- The calls whose error is caught and logged.
abbrev pub is_caught : Effect → Bool
is_caught propagate_drain = true
is_caught notify_routing = true
is_caught close_db = true
is_caught _ = false

-- The calls in order; `works` says which do not throw.
unfoldable pub perform : (works : Effect → Bool) → List Effect → Supervisor → Supervisor
unfolding note
perform works [] s = s
perform works (e ∷ es) s =
    let rest = perform works es (note e s) in if works e || is_caught e then rest else note e s

abbrev pub steps_before : List Effect
steps_before =
    set_state draining
    ∷ propagate_drain
    ∷ notify_routing
    ∷ quiesce
    ∷ set_state stopping
    ∷ clear_timers
    ∷ close_bus
    ∷ close_stream
    ∷ stop_telemetry
    ∷ close_servers
    ∷ before_maria_stop
    ∷ []

abbrev pub steps_after : List Effect
steps_after = close_db ∷ remove_handlers ∷ set_state stopped ∷ []

-- `shutdown`, which only notes the signal once it has started.
unfoldable pub shutdown : (works : Effect → Bool) → Supervisor → Supervisor
unfolding perform
shutdown works s =
    if s.started
    then s
    else perform works (steps_before ++ stop_mariadb ∷ steps_after) (record s { started = true })

-- The signals one after the other, each with what works then.
unfoldable pub run : List (Effect → Bool) → Supervisor → Supervisor
unfolding shutdown
run [] s = s
run (works ∷ ws) s = run ws (shutdown works s)
