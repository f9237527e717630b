-- ===== src/Cluster/Lifecycle.antt =====
-- Lifecycle requests (cluster/lifecycle-plan.mjs, cluster/lifecycle.mjs, cluster/sql-operations.mjs,
-- cluster/bootstrap-eligibility.mjs).
pub mod Plans
use elera.Prelude.{
  ℕ, zero, suc, ◌+◌, ◌-◌, ◌*◌, ◌/◌, ◌%◌, ◌^◌, ◌≤◌, ◌<◌, min, max, String, ◌≡◌, refl, sym, ap, ap₂,
  subst, ◌∙◌, ◌≢◌, ◌↔◌, ◌⊎◌, inl, inr, Bool, true, false, not, ◌&&◌, ◌||◌, Option, none, some, List,
  [], ◌∷◌, ◌++◌, map, Memᴰ, arith, eq_iff, ltb, leb, nat_eqb, Eq, ◌==◌, nat_eq, string_eq,
  if◌then◌else◌, ltb→lt, lt→ltb, leb→le, Bool-cases, Option-cases, &&-left, &&-right, is_some,
  length, filter, any, all, find, count, head?, get_last?, length-append, length-filter,
  count-le-length, mem-filter, mem-filter_of, any_of_mem, mem_of_any, all_mem, any-false_mem,
  find-some, find-none, count-add-le, mem_of_count, count_le_of, count_pos, includes, dedupe,
  dedupe_onto, nat_eqb_iff,
}
use elera.Prelude.Result.{Result, ok, err, ◌>>=◌, ◌>>◌, throw_if}
use elera.Fqdn.{fqdn, fqdn_loose}

pub data Action : Type 0 where
  bootstrap join leave recover : Action

-- What the plan is made on; the state is the empty text where the database reports none.
pub record Situation : Type 0 where
  pub enabled : Bool
  pub ready : Bool
  pub state : String
  pub synced : Bool
  pub quorum : Bool
  pub node_id : String

pub data Reason : Type 0 where
  disabled needs_identity already_ready quorum_exists initialized_data may_bootstrap : Reason
  needs_target target_is_local must_recover_first may_join join_needs_quorum : Reason
  not_ready not_synced leave_needs_quorum may_leave only_offline may_recover recover_needs_quorum :
      Reason

pub record Plan : Type 0 where
  pub action : Action
  pub eligible : Bool
  pub changed : Bool
  pub reason : Reason

abbrev pub is_initialized : String → Bool
is_initialized s =
    includes s (
      "Initialized" ∷ "Joining" ∷ "Joined" ∷ "Synced" ∷ "Donor" ∷ "Donor/Desynced" ∷ "Desynced"
      ∷ [])

abbrev pub refusal : Action → Reason → Plan
refusal action reason = record {
  action = action;
  eligible = false;
  changed = false;
  reason = reason;
}

unfoldable pub plan_bootstrap : Situation → Plan
plan_bootstrap s =
    let initialized = is_initialized s.state in
    record {
      action = bootstrap;
      eligible = not s.ready && not s.quorum && not initialized;
      changed = false;
      reason =
          if s.ready
          then already_ready
          else if s.quorum
          then quorum_exists
          else if initialized
          then initialized_data
          else may_bootstrap;
    }

unfoldable pub plan_targeted : Action → Situation → Plan
plan_targeted bootstrap s = refusal bootstrap disabled
plan_targeted join s = record {
  action = join;
  eligible = not s.ready && not (s.state == "Initialized") && s.quorum;
  changed = false;
  reason =
      if s.ready
      then already_ready
      else if s.state == "Initialized"
      then must_recover_first
      else if s.quorum
      then may_join
      else join_needs_quorum;
}
plan_targeted leave s = record {
  action = leave;
  eligible = s.ready && s.synced && s.quorum;
  changed = false;
  reason =
      if not s.ready
      then not_ready
      else if not s.synced
      then not_synced
      else if not s.quorum
      then leave_needs_quorum
      else may_leave;
}
plan_targeted recover s = record {
  action = recover;
  eligible = not s.ready && s.quorum;
  changed = false;
  reason = if s.ready then only_offline else if s.quorum then may_recover else recover_needs_quorum;
}

abbrev or_empty : Option String → String
or_empty none = ""
or_empty (some s) = s

-- `planLifecycle`
unfoldable pub plan_lifecycle : Action → Situation → Option String → Plan
unfolding plan_bootstrap plan_targeted
plan_lifecycle action s target =
    if not s.enabled
    then refusal action disabled
    else if not (fqdn_loose s.node_id)
    then refusal action needs_identity
    else on_action action
  where
    on_action : Action → Plan
    on_action bootstrap = plan_bootstrap s
    on_action a =
        if not (fqdn_loose (or_empty target))
        then refusal a needs_target
        else if or_empty target == s.node_id
        then refusal a target_is_local
        else plan_targeted a s

pub data Error : Type 0 where
  no_identity bad_target foreign_target needs_confirm unavailable : Error
  ineligible : Reason → Error

-- `plan` of the lifecycle manager, with the names of the configured members.
unfoldable pub manager_plan : List String → Situation → Action → Option String → Result Error Plan
manager_plan members s action none = do
  throw_if (not (fqdn s.node_id)) no_identity
  ok (plan_lifecycle action s none)
manager_plan members s action (some target) = do
  throw_if (not (fqdn s.node_id)) no_identity
  throw_if (not (fqdn target)) bad_target
  throw_if (not (includes target members)) foreign_target
  ok (plan_lifecycle action s (some target))

-- The statements and calls of the operations (cluster/sql-operations.mjs).
pub data Effect : Type 0 where
  wsrep_on wsrep_off desync set_drain start_process : Effect

unfoldable pub operation : Action → Option String → Result Error (List Effect)
operation bootstrap target = ok (wsrep_on ∷ [])
operation join target = do throw_if (not (fqdn (or_empty target))) bad_target; ok (wsrep_on ∷ [])
operation leave target = ok (set_drain ∷ desync ∷ wsrep_off ∷ [])
operation recover target = ok (wsrep_on ∷ start_process ∷ [])

-- `execute` of the lifecycle manager over those operations.
unfoldable pub execute :
    List String → Situation → (confirm : Bool) → Action → Option String → Result Error (List Effect)
unfolding manager_plan operation
execute members s confirm action target = do
  throw_if (not confirm) needs_confirm
  decision ← manager_plan members s action target
  throw_if (not decision.eligible) (ineligible decision.reason)
  operation action target

pub data Eligibility : Type 0 where
  may_cold_bootstrap needs_cluster node_ready has_data not_offline : Eligibility

-- `bootstrapEligibility`
unfoldable pub bootstrap_eligibility : Bool → Bool → String → Eligibility
bootstrap_eligibility enabled ready state =
    if not enabled
    then needs_cluster
    else if ready
    then node_ready
    else if is_initialized state
    then has_data
    else if not (state == "Offline")
    then not_offline
    else may_cold_bootstrap
