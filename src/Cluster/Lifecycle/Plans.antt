-- ===== src/Cluster/Lifecycle/Plans.antt =====
-- Which lifecycle requests are eligible.
use elera.Prelude.{
  String, ◌≡◌, refl, Bool, true, false, not, ◌&&◌, Option, none, some, arith, ◌==◌, nat_eq,
  string_eq,
}
use elera.Fqdn.{fqdn_loose}
use elera.Cluster.Lifecycle.{
  Action, bootstrap, join, leave, recover, Situation, plan_lifecycle, is_initialized,
}

-- What each action asks of the situation.
abbrev pub situation_allows : Action → Situation → Bool
situation_allows bootstrap s = not s.ready && not s.quorum && not (is_initialized s.state)
situation_allows join s = not s.ready && s.quorum && not (s.state == "Initialized")
situation_allows leave s = s.ready && s.quorum && s.synced
situation_allows recover s = not s.ready && s.quorum

abbrev pub proper_target : Action → Situation → Option String → Bool
proper_target bootstrap s target = true
proper_target a s none = false
proper_target a s (some t) = fqdn_loose t && not (t == s.node_id)

empty_name : fqdn_loose "" ≡ false
unfolding fqdn_loose
empty_name = refl

-- A plan is eligible exactly when the mode is enabled, the node has a name, the action has a target
-- that is another name (bootstrap needs none), and the situation allows the action.
pub plan_lifecycle-eligible :
    (a : Action) (s : Situation) (target : Option String)
    → (plan_lifecycle a s target).eligible
      ≡ (s.enabled && fqdn_loose s.node_id && proper_target a s target && situation_allows a s)
unfolding plan_lifecycle
plan_lifecycle-eligible bootstrap s target = ground arith
plan_lifecycle-eligible join s none = ground (arith, empty_name)
plan_lifecycle-eligible join s (some t) = ground arith
plan_lifecycle-eligible leave s none = ground (arith, empty_name)
plan_lifecycle-eligible leave s (some t) = ground arith
plan_lifecycle-eligible recover s none = ground (arith, empty_name)
plan_lifecycle-eligible recover s (some t) = ground arith
