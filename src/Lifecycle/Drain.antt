-- ===== src/Lifecycle/Drain.antt =====
-- Draining (lifecycle/drain-manager.mjs, lifecycle/drain-policy.mjs, lifecycle/drain-events.mjs,
-- lifecycle/state.mjs).
pub mod Requests
use elera.Prelude.{
  ℕ, zero, suc, ◌+◌, ◌-◌, ◌*◌, ◌/◌, ◌%◌, ◌^◌, ◌≤◌, ◌<◌, min, max, String, ◌≡◌, refl, sym, ap, ap₂,
  subst, ◌∙◌, ◌≢◌, ◌↔◌, ◌⊎◌, inl, inr, Bool, true, false, not, ◌&&◌, ◌||◌, Option, none, some, List,
  [], ◌∷◌, ◌++◌, map, Memᴰ, arith, eq_iff, ltb, leb, nat_eqb, Eq, ◌==◌, nat_eq, string_eq,
  if◌then◌else◌, ltb→lt, lt→ltb, leb→le, Bool-cases, Option-cases, &&-left, &&-right, is_some,
  length, filter, any, all, find, count, head?, get_last?, length-append, length-filter,
  count-le-length, mem-filter, mem-filter_of, any_of_mem, mem_of_any, all_mem, any-false_mem,
  find-some, find-none, count-add-le, mem_of_count, count_le_of, count_pos, includes, dedupe,
  dedupe_onto, nat_eqb_iff,
}

-- `draining` and `active` of the manager, the requests that have not been released yet, and the
-- notifications sent so far, the last one first. A request is a number; `next` is the number of the
-- next one.
pub record Manager : Type 0 where
  pub draining : Bool
  pub active : ℕ
  pub open_requests : List ℕ
  pub next : ℕ
  pub notified : List Bool

abbrev pub create_drain_manager : Manager
create_drain_manager = record {
  draining = false;
  active = 0;
  open_requests = [];
  next = 0;
  notified = [];
}

-- What callers do; `release` calls the function that `enter` returned.
pub data Call : Type 0 where
  begin end enter : Call
  release : ℕ → Call

abbrev pub set_draining : Bool → Manager → Manager
set_draining b m = record m { draining = b; notified = b ∷ m.notified }

-- `enter`: it throws while the supervisor drains, and then changes nothing.
abbrev pub enter_request : Manager → Manager
enter_request m = if m.draining then m else record m {
  active = m.active + 1;
  open_requests = m.next ∷ m.open_requests;
  next = m.next + 1;
}

-- `if (!done) { done = true; active -= 1; }`
abbrev pub release_request : ℕ → Manager → Manager
release_request n m =
    if includes n m.open_requests
    then record m {
      active = m.active - 1;
      open_requests = filter (λ k. not (k == n)) m.open_requests;
    }
    else m

unfoldable pub call : Call → Manager → Manager
call begin m = if m.draining then m else set_draining true m
call end m = if m.draining then set_draining false m else m
call enter m = enter_request m
call (release n) m = release_request n m

unfoldable pub run : Manager → List Call → Manager
unfolding call
run m [] = m
run m (c ∷ cs) = run (call c m) cs

-- `clientDrainTimeout`, of a number of milliseconds; `none` is no number.
unfoldable pub client_drain_timeout : Option ℕ → Option ℕ
client_drain_timeout none = none
client_drain_timeout (some t) = some (min t 45000)

-- `nextVersion` of the publisher of drain events.
unfoldable pub next_version : ℕ → ℕ → ℕ
next_version version now = max (version + 1) now

pub data Event : Type 0 where
  drain recovery : ℕ → Event

pub record Publisher : Type 0 where
  pub version : ℕ
  pub published : List Event

-- `publish`: `ready` is `none` where reading the status throws; the events, the last one first.
unfoldable pub publish : Publisher → (draining : Bool) → (ready : Option Bool) → ℕ → Publisher
unfolding next_version
publish p true ready now =
    let v = next_version p.version now in record { version = v; published = drain v ∷ p.published }
publish p false (some true) now =
    let v = next_version p.version now in
    record { version = v; published = recovery v ∷ p.published }
publish p false _ now = p

pub data LifecycleState : Type 0 where
  serving draining stopping stopped : LifecycleState

-- `isShuttingDown`
unfoldable pub is_shutting_down : LifecycleState → Bool
is_shutting_down serving = false
is_shutting_down _ = true
