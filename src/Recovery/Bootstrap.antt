-- ===== src/Recovery/Bootstrap.antt =====
-- The cold bootstrap that an operator starts (cluster/cold-bootstrap/eligibility.mjs,
-- cluster/cold-bootstrap/service.mjs, cluster/cold-bootstrap/idempotency-store.mjs).
pub mod Started
use elera.Prelude.{
  ℕ, zero, suc, ◌+◌, ◌-◌, ◌*◌, ◌/◌, ◌%◌, ◌^◌, ◌≤◌, ◌<◌, min, max, String, ◌≡◌, refl, sym, ap, ap₂,
  subst, ◌∙◌, ◌≢◌, ◌↔◌, ◌⊎◌, inl, inr, Bool, true, false, not, ◌&&◌, ◌||◌, Option, none, some, List,
  [], ◌∷◌, ◌++◌, map, Memᴰ, arith, eq_iff, ltb, leb, nat_eqb, Eq, ◌==◌, nat_eq, string_eq,
  if◌then◌else◌, ltb→lt, lt→ltb, leb→le, Bool-cases, Option-cases, &&-left, &&-right, is_some,
  length, filter, any, all, find, count, head?, get_last?, length-append, length-filter,
  count-le-length, mem-filter, mem-filter_of, any_of_mem, mem_of_any, all_mem, any-false_mem,
  find-some, find-none, count-add-le, mem_of_count, count_le_of, count_pos, includes, dedupe,
  dedupe_onto, nat_eqb_iff,
}
use mathlib.Core.Option
use elera.Prelude.Dict.{Dict, get, put}
use elera.Prelude.Int.{ℤ, pos, negsuc, eqb_ℤ}
use elera.Prelude.Result.{Result, ok, err, ◌>>=◌, ◌>>◌, throw_if}
use elera.Collation.{Collation}
use elera.Fqdn.{fqdn_any_length}
use elera.Recovery.Evidence.{Evidence}
use elera.Recovery.Candidate.{Selection, refused, eligible, select_candidate}

-- The readers of evidence, by the name of the node; `none` is a reader that throws.
pub record Readers : Type 0 where
  pub online : String → Option Bool
  pub read_state : String → Option Evidence
  pub recover : String → Option Evidence

pub data Plan : Type 0 where
  still_online unavailable : String → List Evidence → Plan
  selected : Selection → Plan

abbrev pub is_recorded : Evidence → Bool
is_recorded e = on e.seqno
  where
    on : Option ℤ → Bool
    on (some (pos n)) = true
    on _ = false

abbrev pub named_state : String → Evidence → Evidence
named_state name e = record e { node = name }

-- The state of one node that is offline: as it is recorded, or else recovered.
unfoldable pub state_of : Readers → String → Option Evidence
state_of r name = on (r.read_state name)
  where
    on : Option Evidence → Option Evidence
    on none = none
    on (some e) =
        if is_recorded e
        then some (named_state name e)
        else Option.map (named_state name) (r.recover name)

-- The loop over the nodes, with the states read so far.
unfoldable pub evaluate_nodes : Collation → Readers → List String → List Evidence → Plan
unfolding state_of
evaluate_nodes c r [] states = selected (select_candidate c 1 states)
evaluate_nodes c r (name ∷ names) states =
    on (r.online name) (state_of r name) (λ e. evaluate_nodes c r names (states ++ e ∷ []))
  where
    on : Option Bool → Option Evidence → (Evidence → Plan) → Plan
    on none _ next = unavailable name states
    on (some true) _ next = still_online name states
    on (some false) none next = unavailable name states
    on (some false) (some e) next = next e

pub data ServiceError : Type 0 where
  bad_nodes not_confirmed busy bootstrap_failed refused_plan evidence_changed not_verified :
      ServiceError

abbrev pub has_duplicate : List String → Bool
has_duplicate names = not (nat_eqb (length (dedupe names)) (length names))

abbrev is_nil : List String → Bool
is_nil [] = true
is_nil (x ∷ xs) = false

-- `evaluateColdBootstrap`
unfoldable pub evaluate_cold_bootstrap :
    Collation → Readers → List String → Result ServiceError Plan
unfolding evaluate_nodes
evaluate_cold_bootstrap c r names = do
  throw_if (is_nil names || any (λ n. not (fqdn_any_length n)) names || has_duplicate names)
      bad_nodes
  ok (evaluate_nodes c r names [])

-- `plan.eligible` and `plan.candidate`
abbrev pub candidate_of : Plan → Option Evidence
candidate_of (selected (eligible g (some e) cs dv hs)) = some e
candidate_of _ = none

abbrev same_seqno : Option ℤ → Option ℤ → Bool
same_seqno (some a) (some b) = eqb_ℤ a b
same_seqno none none = true
same_seqno _ _ = false

abbrev pub same_candidate : Evidence → Evidence → Bool
same_candidate a b = a.node == b.node && a.uuid == b.uuid && same_seqno a.seqno b.seqno

-- A run of the service: the node that `bootstrap` was called for, and what was returned.
pub record Run : Type 0 where
  pub started : Option String
  pub result : Result ServiceError Evidence

abbrev pub stop_with : ServiceError → Run
stop_with e = record { started = none; result = err e }

-- What the code around the service does: the evidence at the first and the second plan, the
-- verification of the candidate (`none` where there is none), the lock and the bootstrap.
pub record World : Type 0 where
  pub collation : Collation
  pub nodes : List String
  pub first : Readers
  pub second : Readers
  pub verify : Option (Evidence → Bool)
  pub locked : Bool
  pub bootstraps : String → Bool

abbrev pub verified : Option (Evidence → Bool) → Evidence → Bool
verified none e = true
verified (some f) e = f e

-- `await bootstrap(fresh.candidate.node)`
abbrev pub start : World → Evidence → Run
start w e = record {
  started = some e.node;
  result = if w.bootstraps e.node then ok e else err bootstrap_failed;
}

-- Both plans must have one candidate.
unfoldable pub compare_plans : World → Option Evidence → Option Evidence → Run
compare_plans w none fresh = stop_with refused_plan
compare_plans w (some a) none = stop_with evidence_changed
compare_plans w (some a) (some b) =
    if not (same_candidate a b)
    then stop_with evidence_changed
    else if not (verified w.verify b)
    then stop_with not_verified
    else start w b

abbrev pub planned : World → Readers → Result ServiceError (Option Evidence)
planned w r = evaluate_cold_bootstrap w.collation r w.nodes >>= λ p. ok (candidate_of p)

unfoldable pub run_planned :
    World → Result ServiceError (Option Evidence) → Result ServiceError (Option Evidence) → Run
unfolding compare_plans
run_planned w (err e) second = stop_with e
run_planned w (ok first) (err e) = stop_with e
run_planned w (ok first) (ok second) = compare_plans w first second

-- The memory of finished requests, and its file, which may be left out.
pub record Service : Type 0 where
  pub completed : Dict Evidence
  pub stored : Option (Dict Evidence)

abbrev stored_answer : Option (Dict Evidence) → String → Option Evidence
stored_answer none k = none
stored_answer (some d) k = get d k

abbrev or_else : Option Evidence → Option Evidence → Option Evidence
or_else none b = b
or_else (some a) b = some a

-- `loadCompleted`
unfoldable pub load_completed : Service → Option String → Option Evidence
load_completed s none = none
load_completed s (some k) =
    if k == "" then none else or_else (get s.completed k) (stored_answer s.stored k)

abbrev pub remember : Service → Option String → Result ServiceError Evidence → Service
remember s (some k) (ok e) =
    if k == ""
    then s
    else record { completed = put s.completed k e; stored = Option.map (λ d. put d k e) s.stored }
remember s _ _ = s

-- `lock.run`
unfoldable pub locked_or : Bool → Service → Run × Service → Run × Service
locked_or true s r = (stop_with busy, s)
locked_or false s r = r

unfoldable pub execute_new : World → Service → Option String → Run × Service
unfolding run_planned evaluate_cold_bootstrap locked_or
execute_new w s key =
    let r = run_planned w (planned w w.first) (planned w w.second) in
    locked_or w.locked s (r, remember s key r.result)

abbrev pub answer_or_run : World → Service → Option String → Option Evidence → Run × Service
answer_or_run w s key (some e) = (record { started = none; result = ok e }, s)
answer_or_run w s key none = execute_new w s key

-- `execute`, one at a time: a request of a key that is still in progress waits for its result.
unfoldable pub execute : World → Service → (confirm : Bool) → Option String → Run × Service
unfolding load_completed execute_new
execute w s confirm key =
    if not confirm
    then (stop_with not_confirmed, s)
    else answer_or_run w s key (load_completed s key)
