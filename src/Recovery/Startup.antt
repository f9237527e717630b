-- ===== src/Recovery/Startup.antt =====
-- Which mode a node starts in (cluster/cold-bootstrap/startup-arguments.mjs,
-- cluster/cold-bootstrap/startup-state.mjs, cluster/cold-bootstrap/explicit-startup.mjs,
-- cluster/cold-bootstrap/join-verification.mjs, runtime/recovery-startup-decision.mjs,
-- runtime/rejoin-decision.mjs).
pub mod Arguments
use elera.Prelude.{
  ℕ, zero, suc, ◌+◌, ◌-◌, ◌*◌, ◌/◌, ◌%◌, ◌^◌, ◌≤◌, ◌<◌, min, max, String, ◌≡◌, refl, sym, ap, ap₂,
  subst, ◌∙◌, ◌≢◌, ◌↔◌, ◌⊎◌, inl, inr, Bool, true, false, not, ◌&&◌, ◌||◌, Option, none, some, List,
  [], ◌∷◌, ◌++◌, map, Memᴰ, arith, eq_iff, ltb, leb, nat_eqb, Eq, ◌==◌, nat_eq, string_eq,
  if◌then◌else◌, ltb→lt, lt→ltb, leb→le, Bool-cases, Option-cases, &&-left, &&-right, is_some,
  length, filter, any, all, find, count, head?, get_last?, length-append, length-filter,
  count-le-length, mem-filter, mem-filter_of, any_of_mem, mem_of_any, all_mem, any-false_mem,
  find-some, find-none, count-add-le, mem_of_count, count_le_of, count_pos, includes, dedupe,
  dedupe_onto, nat_eqb_iff,
}
use elera.Prelude.Text.{append}
use elera.Fqdn.{fqdn_any_length}

pub data Mode : Type 0 where
  bootstrap join standalone rejoin blocked : Mode

pub record Start : Type 0 where
  pub mode : Mode
  pub winner : Option String
  pub local_winner : Bool
  pub bootstrap_complete : Bool
  pub epoch : Option String
  pub expected_membership : Option ℕ

-- A command line argument, as far as the program reads it.
pub data Argument : Type 0 where
  new_cluster : Argument
  cluster_address : String → Argument
  other : String → Argument

abbrev pub is_new_cluster : Argument → Bool
is_new_cluster new_cluster = true
is_new_cluster _ = false

abbrev pub with_address : String → Argument → Argument
with_address a (cluster_address _) = cluster_address (append "gcomm://" a)
with_address a x = x

abbrev pub arguments_for : Mode → Bool → Option String → List Argument → List Argument
arguments_for bootstrap true _ join_only = join_only ++ new_cluster ∷ []
arguments_for join _ (some a) join_only = map (with_address a) join_only
arguments_for _ _ _ join_only = join_only

-- `startupArguments`, with the join address where it passes `validJoinAddress`.
unfoldable pub startup_arguments :
    List Argument → Start → (join_address : Option String) → List Argument
startup_arguments args d address =
    arguments_for d.mode d.local_winner address (filter (λ a. not (is_new_cluster a)) args)

-- `shouldStartMariaDb`
unfoldable pub should_start :
    (elera : Bool) → Mode → (local_winner bootstrap_complete : Bool) → Bool
should_start false mode winner complete = true
should_start true bootstrap winner complete = winner
should_start true join winner complete = complete
should_start true rejoin winner complete = true
should_start true _ winner complete = false

-- `ELERA_EXPLICIT_START_MODE`
pub data ExplicitMode : Type 0 where
  unset unknown : ExplicitMode
  set_to : Mode → ExplicitMode

pub data Explicit : Type 0 where
  no_decision invalid : Explicit
  explicit : Start → Explicit

abbrev pub is_startup_mode : Mode → Bool
is_startup_mode bootstrap = true
is_startup_mode join = true
is_startup_mode standalone = true
is_startup_mode _ = false

abbrev pub is_bootstrap : Mode → Bool
is_bootstrap bootstrap = true
is_bootstrap _ = false

abbrev pub is_join : Mode → Bool
is_join join = true
is_join _ = false

-- `explicitStartupDecision`
unfoldable pub explicit_startup : ExplicitMode → String → Explicit
explicit_startup unset name = no_decision
explicit_startup unknown name = invalid
explicit_startup (set_to m) name =
    if not (is_startup_mode m) || not (fqdn_any_length name)
    then invalid
    else explicit (record {
      mode = m;
      winner = if is_bootstrap m then some name else none;
      local_winner = is_bootstrap m;
      bootstrap_complete = is_join m;
      epoch = none;
      expected_membership = none;
    })

-- A plan of the recovery protocol, as far as the startup reads it.
pub data Planned : Type 0 where
  join_plan : Option ℕ → Planned
  eligible_plan : (winner : String) → Option String → Planned
  blocked_plan : Planned

abbrev pub blocked_start : Option String → Start
blocked_start epoch = record {
  mode = blocked;
  winner = none;
  local_winner = false;
  bootstrap_complete = false;
  epoch = epoch;
  expected_membership = none;
}

-- `...(plan.expectedMembership ? { expectedMembership: … } : {})`
abbrev pub positive : Option ℕ → Option ℕ
positive none = none
positive (some n) = if nat_eqb n 0 then none else some n

-- `recoveryStartupDecision`
unfoldable pub recovery_startup_decision : Planned → String → Start
recovery_startup_decision (join_plan members) name = record {
  mode = join;
  winner = none;
  local_winner = false;
  bootstrap_complete = true;
  epoch = none;
  expected_membership = positive members;
}
recovery_startup_decision (eligible_plan winner epoch) name = record {
  mode = bootstrap;
  winner = some winner;
  local_winner = winner == name;
  bootstrap_complete = false;
  epoch = epoch;
  expected_membership = none;
}
recovery_startup_decision blocked_plan name = blocked_start none

-- `resolveSupervisorRejoin`: `completes` says whether the winner's completion was observed.
unfoldable pub resolve_rejoin : Start → (completes : Bool) → Start
resolve_rejoin d completes =
    if is_bootstrap d.mode && not d.local_winner && named d.winner
    then (if completes
        then record d { mode = join; bootstrap_complete = true }
        else record d { mode = blocked })
    else d
  where
    named : Option String → Bool
    named none = false
    named (some w) = not (w == "")

-- The status variables of a member that joined.
pub record Values : Type 0 where
  pub state_uuid : Option String
  pub local_state : String
  pub ready : String
  pub status : String
  pub size : Option ℕ

abbrev pub same_text : Option String → Option String → Bool
same_text none none = true
same_text (some a) (some b) = a == b
same_text _ _ = false

abbrev pub size_fits : Option ℕ → (expected minimum : Option ℕ) → Bool
size_fits (some n) (some e) none = nat_eqb n e
size_fits (some n) _ (some m) = leb m n
size_fits _ _ _ = false

-- `verifyJoinedMember`
unfoldable pub verify_joined :
    Values → (cluster : Option String) → (expected minimum : Option ℕ) → Bool
verify_joined v cluster expected minimum =
    same_text v.state_uuid cluster
    && v.local_state == "Synced"
    && v.ready == "ON"
    && v.status == "Primary"
    && size_fits v.size expected minimum
